-- ===== src/Worker/Logs.antt =====
-- The replay buffer of a job's log.
use chipatelier.Prelude.{ℕ, ◌-◌, ◌≤◌, arith, length, length-drop}
use chipatelier.Worker.Store.{LogLine, LogStore}
use chipatelier.Worker.Monad.{modify}
use chipatelier.Worker.{Env, State, publish_line, update_status, cleanup, run_orfs_job}
use chipatelier.Worker.Keeps.{attempt-Keeps}

module _ (L : LogStore) where
  open L use {items, rpush, ltrim, items-rpush, items-ltrim, items-expire}

  -- The buffer holds at most LOG_BUFFER_MAX lines.
  abbrev pub IsTrimmed : State L → Type 0
  IsTrimmed s = length (items s.logbuf) ≤ 5000

  trimmed : (l : LogLine) (b : L.Store) → length (items (L.expire (ltrim 5000 (rpush l b)))) ≤ 5000
  trimmed l b = rw items-expire (
      rw items-ltrim
        (omega (arith, length-drop (length (items (rpush l b)) - 5000) (items (rpush l b)))))

  -- Whatever the tool prints and however the job ends, the replay buffer of the log holds at most
  -- 5000 lines if it did so before.
  pub job-IsTrimmed :
      (env : Env) (run_id : ℕ) (s : State L)
      → IsTrimmed s
      → IsTrimmed (run_orfs_job L env run_id s).1
  unfolding run_orfs_job cleanup publish_line update_status modify
  job-IsTrimmed env run_id s h =
      let kept =
        (attempt-Keeps L env run_id IsTrimmed (λ status stage. record { at = λ t p. p })
            (λ l. record { at = λ t p. trimmed l t.logbuf }) (λ t p. p) (λ t p. p) (λ t c p. p)
            (λ t p. p)).at
          s h in
      ground arith
