-- ===== src/Websocket.antt =====
-- The streams of backend/app/api/websocket.py, step by step beside the worker that publishes; the
-- commands that publish one line are one step.
pub mod Order
use chipatelier.Prelude.{ℕ, Bool, true, false, Option, none, some, List, [], ◌∷◌, ◌++◌}
use chipatelier.Prelude.Text.{Text}
use chipatelier.Auth.Store.{Payload, Crypto}
use chipatelier.Auth.{is_access}
use chipatelier.Worker.{log_buffer_max}
use chipatelier.Worker.Store.{LogLine, LogStore}

-- `payload.get("type") == "access"`; `none` is an exception of `decode_token`
abbrev pub accepts_payload : Option Payload → Bool
accepts_payload none = false
accepts_payload (some payload) = is_access payload.token_type

-- Whether the connection is accepted, else it is closed with the code 4008.
unfoldable pub accepts : (C : Crypto) → ℕ → C.Token → Bool
accepts C now token = accepts_payload (C.decode now token)

-- How far the handler of an accepted connection has come.
pub data Phase : Type 0 where
  accepted replayed subscribed closed : Phase

-- What happens next: the worker publishes a line, or the handler does its next step, or the browser
-- goes away.
pub data Event : Type 0 where
  publish : LogLine → Event
  advance disconnect : Event

module _ (L : LogStore) where
  -- `published` has all lines, oldest first, and `outbox` what the browser was sent.
  pub record Stream : Type 0 where
    pub logbuf : L.Store
    pub published : List LogLine
    pub phase : Phase
    pub outbox : List LogLine

  -- `send_text` of a line of the channel: only to a subscriber
  abbrev pub deliver : Phase → LogLine → List LogLine → List LogLine
  deliver subscribed l outbox = outbox ++ l ∷ []
  deliver _ l outbox = outbox

  -- The replay of the buffer, then the subscription, then the loop over the channel's messages
  abbrev pub proceed_from : Phase → Stream → Stream
  proceed_from accepted s = record s { phase = replayed; outbox = s.outbox ++ L.items s.logbuf }
  proceed_from replayed s = record s { phase = subscribed }
  proceed_from subscribed s = s
  proceed_from closed s = s

  unfoldable pub log_stream : Event → Stream → Stream
  log_stream (publish l) s = record s {
    logbuf = L.expire (L.ltrim (log_buffer_max L) (L.rpush l s.logbuf));
    published = s.published ++ l ∷ [];
    outbox = deliver s.phase l s.outbox;
  }
  log_stream advance s = proceed_from s.phase s
  log_stream disconnect s = record s { phase = closed }

  unfoldable pub run_stream : List Event → Stream → Stream
  unfolding log_stream
  run_stream [] s = s
  run_stream (e ∷ es) s = run_stream es (log_stream e s)

-- The grade stream: a grade, the 300 seconds running out, or the browser going away.
pub data GradeEvent : Type 0 where
  graded : Text → GradeEvent
  timed_out gone : GradeEvent

-- What is sent until the stream closes.
unfoldable pub grade_stream : List GradeEvent → List Text
grade_stream [] = []
grade_stream (graded grade ∷ es) = grade ∷ []
grade_stream (timed_out ∷ es) = []
grade_stream (gone ∷ es) = []
