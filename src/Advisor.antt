-- ===== src/Advisor.antt =====
-- The AI advisor: backend/app/api/routes/ai.py. Prompts are texts that the caller builds, and the
-- language model, the regular expression that removes a finished thought, and `strip` are functions.
pub mod Retries
use chipatelier.Prelude.{
  ℕ, zero, suc, ◌+◌, ◌-◌, Bool, true, false, not, ◌&&◌, ◌||◌, Option, none, some, List, [], ◌∷◌,
  ◌++◌, map, length, drop, if◌then◌else◌,
}
use chipatelier.Prelude.Text.{Text, codes, is_truthy}
use chipatelier.Containers.{contains}

-- What one call of the language model gives: an answer, a connection error or one of Ollama's, or
-- another exception.
pub data Attempt : Type 0 where
  answered : Text → Attempt
  unreachable other_error : Attempt

-- What `safe_generate` gives: an answer, 503, or the exception that it passes on.
pub data Generated : Type 0 where
  generated : Text → Generated
  unavailable raised : Generated

-- The result, how often the model was called, and how often the code slept in between.
pub record Tries : Type 0 where
  pub result : Generated
  pub calls : ℕ
  pub sleeps : ℕ

abbrev pub once : Generated → Tries
once result = record { result = result; calls = 1; sleeps = 0 }

-- `if attempt < _RETRY_ATTEMPTS: await asyncio.sleep(…)`
abbrev pub again : ℕ → Tries → Tries
again zero rest = record rest { calls = suc rest.calls }
again (suc left) rest = record rest { calls = suc rest.calls; sleeps = suc rest.sleeps }

abbrev pub after_attempt : ℕ → Attempt → Tries → Tries
after_attempt left (answered text) rest = once (generated text)
after_attempt left unreachable rest = again left rest
after_attempt left other_error rest = once raised

-- `for attempt in range(…)`: how many attempts are left, and the number of the next
unfoldable pub attempts_from : (ℕ → Attempt) → ℕ → ℕ → Tries
attempts_from llm zero attempt = record { result = unavailable; calls = 0; sleeps = 0 }
attempts_from llm (suc left) attempt =
    after_attempt left (llm attempt) (attempts_from llm left (suc attempt))

-- `_RETRY_ATTEMPTS` is 3
unfoldable pub safe_generate : (ℕ → Attempt) → Tries
unfolding attempts_from
safe_generate llm = attempts_from llm 3 1

-- A message of a chat.
pub record ChatMessage : Type 0 where
  pub role : Text
  pub content : Text

-- The system's message, the last 20 of the history, and the new one.
unfoldable pub chat_messages : Text → List ChatMessage → Text → List ChatMessage
chat_messages system_content history message =
    (record { role = codes "system"; content = system_content }
      ∷ drop (length history - 20) history)
    ++ record { role = codes "user"; content = message } ∷ []

-- One line of the response.
pub data Line : Type 0 where
  token : Text → Line
  done : Line

module _ (remove_thoughts strip : Text → Text) where
  -- `if cleaned.strip(): yield …`
  abbrev pub flush : Text → List Line
  flush buffer =
      if is_truthy (strip (remove_thoughts buffer)) then token (remove_thoughts buffer) ∷ [] else []

  -- The loop over the tokens, and the flush behind it; the buffer is that of `think_buf`.
  abbrev pub stream_tokens : Bool → Text → List Text → List Line
  stream_tokens in_think buffer [] = (if is_truthy buffer then flush buffer else []) ++ done ∷ []
  stream_tokens in_think buffer (chunk ∷ chunks) =
      let unread = stream_tokens in_think buffer chunks in
      let thinking = stream_tokens true (buffer ++ chunk) chunks in
      let thought = flush (buffer ++ chunk) ++ stream_tokens false [] chunks in
      if not (is_truthy chunk)
      then unread
      else if contains (codes "<think>") chunk || in_think
      then (if contains (codes "</think>") (buffer ++ chunk) then thought else thinking)
      else token chunk ∷ unread

  unfoldable pub generate_stream : List Text → List Line
  generate_stream chunks = stream_tokens false [] chunks
