-- ===== src/Worker/Store.antt =====
-- What the job publishes, and the Redis list `logbuf:{run_id}` that keeps its last lines. The laws
-- are the documented behaviour of RPUSH, LTRIM and EXPIRE.
use chipatelier.Prelude.{ℕ, ◌-◌, ◌≡◌, List, [], ◌∷◌, ◌++◌, length, drop}
use chipatelier.Prelude.Text.{Text}
use chipatelier.Model.{RunStatus}

-- The lines that start with `[chipatelier]`, the stage separators, and the tool's own lines.
pub data LogLine : Type 0 where
  note_starting : (run_id : ℕ) → LogLine
  note_warm : (container_id : ℕ) → LogLine
  note_docker_error note_grt note_retries note_exception : LogLine
  note_finished : RunStatus → LogLine
  separator : (stage : Text) → LogLine
  line : Text → LogLine

pub record LogStore : Type 1 where
  pub Store : Type 0
  pub items : Store → List LogLine
  pub rpush : LogLine → Store → Store
  -- LTRIM key -n -1
  pub ltrim : ℕ → Store → Store
  pub expire : Store → Store
  pub items-rpush : (l : LogLine) (b : Store) → items (rpush l b) ≡ items b ++ l ∷ []
  pub items-ltrim : (n : ℕ) (b : Store) → items (ltrim n b) ≡ drop (length (items b) - n) (items b)
  pub items-expire : (b : Store) → items (expire b) ≡ items b
