-- ===== src/Advisor/Retries.antt =====
-- How often the language model is asked, and what is passed on of its answers.
use chipatelier.Prelude.{
  ℕ, zero, suc, ◌-◌, ◌≤◌, ◌≡◌, ◌∙◌, refl, false, List, [], ◌∷◌, ◌++◌, arith, map, select, length,
  length-append, length-drop, All, Bool-cases, inl, inr, ap, drop,
}
use chipatelier.Prelude.Text.{Text, codes, is_truthy}
use chipatelier.Containers.{contains}
use chipatelier.Advisor.{
  Attempt, answered, unreachable, other_error, Generated, generated, unavailable, raised, Tries,
  again, attempts_from, safe_generate, ChatMessage, chat_messages, token, done, generate_stream,
}

abbrev pub decide_by : Attempt → Generated → Generated
decide_by (answered text) later = generated text
decide_by unreachable later = later
decide_by other_error later = raised

-- What the attempts say, apart from the loop: the first of them that is not a refusal decides.
abbrev pub decided : (ℕ → Attempt) → ℕ → ℕ → Generated
decided llm zero attempt = unavailable
decided llm (suc left) attempt = decide_by (llm attempt) (decided llm left (suc attempt))

again_bounds :
    (left : ℕ) (t : Tries)
    → t.calls ≤ left
    → t.sleeps ≤ left - 1
    → ((again left t).result ≡ t.result)
      × ((again left t).calls ≤ suc left)
      × ((again left t).sleeps ≤ suc left - 1)
again_bounds zero t c s = (refl, omega arith, omega arith)
again_bounds (suc left) t c s = (refl, omega arith, omega arith)

attempts_lem :
    (llm : ℕ → Attempt) (left attempt : ℕ)
    → ((attempts_from llm left attempt).result ≡ decided llm left attempt)
      × ((attempts_from llm left attempt).calls ≤ left)
      × ((attempts_from llm left attempt).sleeps ≤ left - 1)
unfolding attempts_from
attempts_lem llm zero attempt = (refl, omega arith, omega arith)
attempts_lem llm (suc left) attempt = go (llm attempt) refl (attempts_lem llm left (suc attempt))
  where
    go :
        (a : Attempt)
        → llm attempt ≡ a
        → ((attempts_from llm left (suc attempt)).result ≡ decided llm left (suc attempt))
          × ((attempts_from llm left (suc attempt)).calls ≤ left)
          × ((attempts_from llm left (suc attempt)).sleeps ≤ left - 1)
        → ((attempts_from llm (suc left) attempt).result ≡ decided llm (suc left) attempt)
          × ((attempts_from llm (suc left) attempt).calls ≤ suc left)
          × ((attempts_from llm (suc left) attempt).sleeps ≤ suc left - 1)
    go (answered text) e ih = (ground arith, ground arith, ground arith)
    go unreachable e ih =
        let (same, calls, sleeps) =
          again_bounds left (attempts_from llm left (suc attempt)) ih.1 ih.2 in
        rw e (same ∙ ih.0, calls, sleeps)
    go other_error e ih = (ground arith, ground arith, ground arith)

-- The model is called at most three times, with at most two pauses, and the first attempt that is
-- not a refused connection decides; 503 is answered only when all three were.
pub safe_generate_lem :
    (llm : ℕ → Attempt)
    → ((safe_generate llm).result ≡ decided llm 3 1)
      × ((safe_generate llm).calls ≤ 3)
      × ((safe_generate llm).sleeps ≤ 2)
unfolding safe_generate
safe_generate_lem llm = attempts_lem llm 3 1

-- A chat sends at most 22 messages.
pub length-chat_messages :
    (system_content : Text) (history : List ChatMessage) (message : Text)
    → length (chat_messages system_content history message) ≤ 22
unfolding chat_messages
length-chat_messages system_content history message = ground (
  arith,
  length-append (drop (length history - 20) history)
      (record { role = codes "user"; content = message } ∷ []),
  length-drop (length history - 20) history,
)

-- Without a thought in it, an answer is passed on token by token, without the empty ones.
pub plain_stream :
    (remove_thoughts strip : Text → Text) (chunks : List Text)
    → All (λ chunk. contains (codes "<think>") chunk ≡ false) chunks
    → generate_stream remove_thoughts strip chunks
      ≡ map token (select is_truthy chunks) ++ done ∷ []
unfolding generate_stream select
plain_stream remove_thoughts strip [] h = refl
plain_stream remove_thoughts strip (chunk ∷ chunks) (hc, h) = elim (Bool-cases (is_truthy chunk)) [
  | inl full ↦
      rw full (rw hc (ap (λ ls. token chunk ∷ ls) (plain_stream remove_thoughts strip chunks h)))
  | inr blank ↦ rw blank (plain_stream remove_thoughts strip chunks h)
]
