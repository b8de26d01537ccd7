-- ===== src/Worker/Cancelled.antt =====
-- What becomes of a cancelled run that waits in the fair queue: backend/app/api/routes/jobs.py,
-- worker/tasks/fair_queue.py and worker/tasks/orfs_job.py together.
use chipatelier.Prelude.{
  ℕ, ◌≡◌, refl, sym, subst, true, none, some, List, arith, ◌==◌, any, map, ==_refl, Bool-cases, inl,
  inr,
}
use chipatelier.Http.{ok}
use chipatelier.Model.{User, Run, cancelled, run_orfs_job as message}
use chipatelier.FairQueue.Store.{Redis}
use chipatelier.FairQueue.{drain_queue}
use chipatelier.FairQueue.Drain.{drain_fair}
use chipatelier.Jobs.{World, cancel_job, get_run, set_cancelled}
use chipatelier.Jobs.Cancel.{cancel_effect}
use chipatelier.Worker.Store.{LogStore}
use chipatelier.Worker.{Env, State, run_orfs_job}
use chipatelier.Worker.Status.{Ended, run_orfs_job-Ended}

module _ (R : Redis) (L : LogStore) (run_id : ℕ) (user : User) (w : World R) where
  abbrev pub after_cancel : World R
  after_cancel = (cancel_job R run_id user w).1

  -- Cancelling a run that waits in the fair queue leaves its place there: the run is cancelled, the
  -- drain that takes it out of the queue sends it to a worker all the same, and the worker's task, if
  -- its container manager is made, ends with the run complete or failed. The database and Redis
  -- answer the task, no signal ends it, and the database is as the cancellation left it.
  pub cancelled_runs :
      (max_jobs score : ℕ) (env : Env) (s : State L)
      → (cancel_job R run_id user w).0 ≡ ok tt
      → R.score w.redis run_id ≡ some score
      → R.score (drain_queue R max_jobs after_cancel.db after_cancel.redis).1 run_id ≡ none
      → s.db ≡ after_cancel.db
      → env.manager_ok ≡ true
      → ((run : Run) × (get_run run_id s.db ≡ some run) × (run.status ≡ cancelled))
        × ((claimed : List ℕ) × ((drain_queue R max_jobs after_cancel.db after_cancel.redis).0
              ≡ map message claimed)
            × (any (λ m. m == run_id) claimed ≡ true))
        × Ended env.now (get_run run_id (run_orfs_job L env run_id s).1.db)
  cancelled_runs max_jobs score env s h waits taken same manager =
      let (run, there, own, active, after, sent, redis) = cancel_effect R run_id user w h in
      let here : get_run run_id s.db ≡ some (set_cancelled run) =
        ground (arith, after run_id, ==_refl run_id, there, same) in
      let waiting : R.score after_cancel.redis run_id ≡ some score =
        subst (λ r. R.score r run_id ≡ some score) (sym redis) waits in
      let (claimed, sends, least, scores) =
        drain_fair R max_jobs after_cancel.db after_cancel.redis in
      (
        (set_cancelled run, here, refl),
        (
          claimed,
          sends,
          elim (Bool-cases (any (λ m. m == run_id) claimed)) [
            | inl took ↦ took
            | inr left ↦ absurd (ground (arith, scores run_id, left, taken, waiting))
          ],
        ),
        run_orfs_job-Ended L env run_id s manager (λ gone. ground (arith, here, gone)),
      )
