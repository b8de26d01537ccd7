-- ===== src/Examples/WorkerRuns.antt =====
-- The theorems on the worker and the log markers, at a job that runs through.
use chipatelier.Prelude.{
  update_where, lookup, ℕ, ◌⊎◌, ◌≡◌, refl, true, false, none, some, [], ◌∷◌, ◌==◌, find?,
}
use chipatelier.Prelude.Text.{codes, is_space}
use chipatelier.Jobs.{get_run}
use chipatelier.Model.{Run, complete, running, starting}
use chipatelier.LogParser.{search_line, match_stage_line, match_stage_line_re}
use chipatelier.LogParser.Markers.{marker, marker_found}
use chipatelier.Worker.Monad.{◌>>=◌, retry, raised, docker_exception}
use chipatelier.Worker.{
  with_status, attempt, execute, work, finish, cleanup, catch_exception, publish_line,
  update_status, stream_lines, items_of, Env, State, warm_not_found, started, run_orfs_job,
}
use chipatelier.Worker.Status.{Ended, job_status, complete_only}
use chipatelier.Examples.Stores.{list_logs}
use chipatelier.Examples.Data.{busy_db, queued_run}

abbrev pub good_env : Env
good_env = record {
  now = 9;
  pool_present = true;
  warm_container_id = none;
  makedirs_ok = true;
  manager_ok = true;
  warm_lookup = warm_not_found;
  cold_start = started;
  retry_raises = retry;
  log_lines = [];
  log_ends = true;
  exit_code = some 0;
  grt_failed = false;
  stop_ok = true;
  rmtree_ok = true;
}

abbrev pub start : State list_logs
start = record {
  db = busy_db;
  sent = [];
  published = [];
  logbuf = [];
  container = false;
  workspace = false;
  command = none;
  replenished = 0;
}

job_status_example :
    (((true ≡ true) × Ended 9 (get_run 3 (run_orfs_job list_logs good_env 3 start).1.db))
      ⊎ ((true ≡ false)
          × (run_orfs_job list_logs good_env 3 start ≡ (raised docker_exception, start))))
    × ((k : ℕ)
        → (3 == k) ≡ false
        → get_run k (run_orfs_job list_logs good_env 3 start).1.db ≡ get_run k busy_db)
unfolding find?
job_status_example = job_status list_logs good_env 3 start (λ e. cc)

abbrev finished : Run
finished =
    with_status 9 complete none
      (with_status 9 running none (with_status 9 starting none queued_run))

complete_only_example : (good_env.exit_code ≡ some 0) × (good_env.grt_failed ≡ false)
unfolding run_orfs_job attempt execute work finish cleanup catch_exception publish_line
    update_status stream_lines ◌>>=◌ find? update_where lookup items_of
complete_only_example = complete_only list_logs good_env 3 start finished refl refl refl

marker_found_example :
    (search_line match_stage_line (marker (codes "cts") (codes "4_1_cts")) ≡ some (codes "4_1_cts"))
    × (search_line match_stage_line_re (marker (codes "cts") (codes "4_1_cts"))
        ≡ some (codes "4_1_cts"))
unfolding is_space
marker_found_example =
    marker_found 99 52 (116 ∷ 115 ∷ []) (95 ∷ 49 ∷ 95 ∷ 99 ∷ 116 ∷ 115 ∷ [])
      (refl, (refl, (refl, tt))) (refl, (refl, (refl, (refl, (refl, (refl, (refl, tt)))))))
