-- ===== src/Examples/Lifecycles.antt =====
-- The theorems on the life of a run, at a run that is cancelled while it waits.
use chipatelier.Prelude.{
  ℕ, ◌≡◌, refl, true, none, some, List, [], ◌∷◌, ◌==◌, any, map, find?, select, update_where,
}
use chipatelier.Model.{Run, RunStatus, cancelled, is_terminal, run_orfs_job as message}
use chipatelier.FairQueue.{drain_queue, claim_jobs, claim_next_job}
use chipatelier.Jobs.{no_fault, World, cancel_job, get_run}
use chipatelier.Jobs.SingleActive.{Request, cancel, submit, serve}
use chipatelier.Jobs.Transitions.{Life, status_at}
use chipatelier.Jobs.Lifecycle.{serve-Life}
use chipatelier.Worker.{State, run_orfs_job}
use chipatelier.Worker.Status.{Ended}
use chipatelier.Worker.Cancelled.{cancelled_runs, after_cancel}
use chipatelier.Examples.Stores.{cells_redis, list_logs, cell, lowest, put}
use chipatelier.Examples.Data.{alice, chosen, request, busy_world}
use chipatelier.Examples.WorkerRuns.{good_env, start}

abbrev requests : List (Request cells_redis)
requests = cancel 3 alice ∷ submit no_fault chosen request alice ∷ []

serve-Life_example :
    Life (status_at 3 busy_world.db) (status_at 3 (serve cells_redis requests busy_world).db)
    × ((s : RunStatus)
        → is_terminal s ≡ true
        → status_at 3 busy_world.db ≡ some s
        → status_at 3 (serve cells_redis requests busy_world).db ≡ some s)
serve-Life_example = serve-Life cells_redis requests busy_world 3

abbrev waiting_world : World cells_redis
waiting_world = record busy_world { redis = (none ∷ none ∷ none ∷ some 0 ∷ [], []) }

abbrev later_start : State list_logs
later_start = record start { db = (after_cancel cells_redis list_logs 3 alice waiting_world).db }

cancelled_runs_example :
    ((run : Run) × (get_run 3 later_start.db ≡ some run) × (run.status ≡ cancelled))
    × ((claimed : List ℕ) × ((drain_queue cells_redis 1 later_start.db
            (after_cancel cells_redis list_logs 3 alice waiting_world).redis).0
          ≡ map message claimed)
        × (any (λ m. m == 3) claimed ≡ true))
    × Ended 9 (get_run 3 (run_orfs_job list_logs good_env 3 later_start).1.db)
unfolding cancel_job find? update_where drain_queue claim_jobs claim_next_job select cell lowest put
cancelled_runs_example =
    cancelled_runs cells_redis list_logs 3 alice waiting_world 1 0 good_env later_start refl refl
      refl refl refl
