-- ===== src/Worker.antt =====
-- The ORFS job task: worker/tasks/orfs_job.py.
-- What Docker, the file system and Celery answer is the `Env` of a run; the database and Redis
-- answer always. The SystemExit by which a revoke with `terminate` ends a worker, and
-- `run_orfs_job_high`, are not modelled. A warm container that the pool gave up and that the
-- following lookup does not return is held by nobody: `container` says only what the task holds.
pub mod Store
pub mod Monad
mod Keeps
pub mod Cleanup
pub mod Status
pub mod Cancelled
pub mod Overrides
pub mod Logs
use chipatelier.Prelude.{
  ℕ, zero, String, Bool, true, false, not, ◌&&◌, ◌+◌, Option, none, some, List, [], ◌∷◌, ◌++◌, ◌==◌,
  str_eq, select, lookup, find?, if◌then◌else◌, or_else, is_some,
}
use chipatelier.Prelude.Text.{Text, is_truthy}
use chipatelier.Model.{
  Run, RunStatus, queued, starting, running, complete, failed, Setting, null, text, table, Db,
  Message, generate_png, is_terminal,
}
use chipatelier.LogParser.{match_stage_line, search_line, stage_name}
use chipatelier.Jobs.{set_run, get_run}
use chipatelier.Worker.Store.{
  LogLine, LogStore, note_starting, note_warm, note_docker_error, note_grt, note_finished,
  note_retries, note_exception, separator, line,
}
use chipatelier.Worker.Monad.{
  Exn, docker_exception, max_retries_exceeded, other, Outcome, done, raised, Job, pure, raise, gets,
  modify, ◌>>=◌, ◌>>◌,
}

pub data WarmLookup : Type 0 where
  warm_found warm_not_found warm_broken : WarmLookup

pub data ColdStart : Type 0 where
  started start_failed start_broken : ColdStart

-- What the world answers to one execution of the task.
pub record Env : Type 0 where
  pub now : ℕ
  -- `pool is not None`
  pub pool_present : Bool
  -- the container id that `pool.claim()` returned, if the pool is there and gave one
  pub warm_container_id : Option ℕ
  -- `ContainerManager()`, in front of the `try`, returns
  pub manager_ok : Bool
  pub makedirs_ok : Bool
  pub warm_lookup : WarmLookup
  pub cold_start : ColdStart
  -- what `self.retry(exc=exc, countdown=30)` raises
  pub retry_raises : Exn
  pub log_lines : List Text
  -- the log stream ends, or raises behind its last line
  pub log_ends : Bool
  -- the exit code, or none if `container.wait` raises, as it does at its timeout
  pub exit_code : Option ℕ
  pub grt_failed : Bool
  -- `stop_and_remove` returns; it raises on every error of Docker but `NotFound`
  pub stop_ok : Bool
  -- `shutil.rmtree(workspace, ignore_errors=True)` removes the workspace; it never raises
  pub rmtree_ok : Bool

-- `STAGE_TO_TARGET.get(target_stage or "finish", "finish")`
unfoldable pub make_target_of : Option String → String
make_target_of none = "finish"
make_target_of (some stage) =
    if str_eq stage "synth"
    then "synth"
    else if str_eq stage "floorplan"
    then "floorplan"
    else if str_eq stage "place"
    then "place"
    else if str_eq stage "cts"
    then "cts"
    else if str_eq stage "route"
    then "route"
    else "finish"

-- `config_snapshot.get(key, {}).items()`; a value that is no dict has no `items`
unfoldable pub items_of : Option Setting → Option (List (String × String))
items_of none = some []
items_of (some (table t)) = some t
items_of (some null) = none
items_of (some (text t)) = none

-- Student overrides first, without those that are empty, then the instructor's locked parameters.
unfoldable pub make_override_args :
    List (String × String) → List (String × String) → List (String × String)
make_override_args config_overrides locked_params =
    select (λ (kv : String × String). not (str_eq kv.1 "")) config_overrides ++ locked_params

-- `config_snapshot = (row.config if row else None) or {}`
abbrev pub config_of : Option Run → List (String × Setting)
config_of none = []
config_of (some run) = or_else run.config []

abbrev pub target_stage_of : Option Run → Option String
target_stage_of none = none
target_stage_of (some run) = run.target_stage

-- `stage_completed = COALESCE(:st, stage_completed)`
abbrev pub coalesce : Option Text → Option Text → Option Text
coalesce none old = old
coalesce (some stage) old = some stage

-- The row that `UPDATE runs SET …` writes.
abbrev pub with_status : ℕ → RunStatus → Option Text → Run → Run
with_status now status stage run = record run {
  status = status;
  stage_completed = coalesce stage run.stage_completed;
  completed_at = if is_terminal status then some now else run.completed_at;
}

module _ (L : LogStore) where
  pub record State : Type 0 where
    pub db : Db
    pub sent : List Message
    pub published : List LogLine
    pub logbuf : L.Store
    -- the variable `container`: whether the job holds a container
    pub container : Bool
    pub workspace : Bool
    -- the Make target and arguments that a cold start ran
    pub command : Option (String × List (String × String))
    -- how often the warm pool was replenished
    pub replenished : ℕ

  abbrev pub or_raise : {A : Type 0} → Option A → Job State A
  or_raise none = raise other
  or_raise (some a) = pure a

  -- LOG_BUFFER_MAX
  abbrev pub log_buffer_max : ℕ
  log_buffer_max = 5000

  unfoldable pub publish_line : LogLine → Job State (Unit {0})
  publish_line l = modify λ (s : State). record s {
    published = s.published ++ l ∷ [];
    logbuf = L.expire (L.ltrim log_buffer_max (L.rpush l s.logbuf));
  }

  unfoldable pub update_status : Env → ℕ → RunStatus → Option Text → Job State (Unit {0})
  update_status env run_id status stage =
      modify λ (s : State). record s { db = set_run run_id (with_status env.now status stage) s.db }

  module _ (env : Env) (run_id : ℕ) where
    abbrev pub make_workspace : Bool → Job State (Unit {0})
    make_workspace true = modify λ (s : State). record s { workspace = true }
    make_workspace false = raise other

    -- A warm container, if one was claimed and is still there.
    abbrev pub use_warm : Option ℕ → WarmLookup → Job State (Unit {0})
    use_warm none found = pure tt
    use_warm (some cid) warm_found = do
      modify (λ (s : State). record s { container = true })
      publish_line (note_warm cid)
    use_warm (some cid) warm_not_found = pure tt
    use_warm (some cid) warm_broken = raise other

    -- `manager.run_container`, and the retry when Docker does not start it
    abbrev pub run_container : ColdStart → String → List (String × String) → Job State (Unit {0})
    run_container started target args =
        modify λ (s : State). record s { container = true; command = some (target, args) }
    run_container start_broken target args = raise other
    run_container start_failed target args = do
      update_status env run_id queued none
      publish_line note_docker_error
      raise env.retry_raises

    -- `if container is None:`
    abbrev pub cold_start_container : Bool → String → List (String × String) → Job State (Unit {0})
    cold_start_container true target args = pure tt
    cold_start_container false target args = run_container env.cold_start target args

    -- One log line: a separator and the stage in front of a stage marker.
    abbrev pub stream_marked : Text → Option Text → Job State (Unit {0})
    stream_marked l none = publish_line (line l)
    stream_marked l (some stage_id) = do
      publish_line (separator (stage_name stage_id))
      update_status env run_id running (some stage_id)
      publish_line (line l)

    unfoldable pub stream_lines : List Text → Job State (Unit {0})
    stream_lines [] = if env.log_ends then pure tt else raise other
    stream_lines (l ∷ ls) = do stream_marked l (search_line match_stage_line l); stream_lines ls

    abbrev pub wait_container : Option ℕ → Job State ℕ
    wait_container none = raise other
    wait_container (some code) = pure code

    abbrev pub final_status : ℕ → RunStatus
    final_status code = if env.grt_failed then failed else if code == 0 then complete else failed

    -- `if final_status == "complete": generate_png.delay(…)`
    abbrev pub request_png : RunStatus → Job State (Unit {0})
    request_png complete =
        modify (λ (s : State). record s { sent = s.sent ++ generate_png run_id ∷ [] })
    request_png status = pure tt

    unfoldable pub finish : ℕ → Job State (Unit {0})
    finish code = do
      if env.grt_failed then publish_line note_grt else pure tt
      update_status env run_id (final_status code) none
      publish_line (note_finished (final_status code))
      request_png (final_status code)

    -- The `try` body from the first status to the container's end. `_download_workspace`, which
    -- fills the workspace, catches every exception and is left out.
    unfoldable pub work : Job State ℕ
    work = do
      update_status env run_id starting none
      publish_line (note_starting run_id)
      row ← gets (λ (s : State). get_run run_id s.db)
      locked_params ← or_raise (items_of (lookup "locked_params" (config_of row)))
      config_overrides ← or_raise (items_of (lookup "config_overrides" (config_of row)))
      use_warm env.warm_container_id env.warm_lookup
      held ← gets (λ (s : State). s.container)
      cold_start_container held (make_target_of (target_stage_of row))
          (make_override_args config_overrides locked_params)
      update_status env run_id running none
      stream_lines env.log_lines
      wait_container env.exit_code

    unfoldable pub execute : Job State ℕ
    execute = do make_workspace env.makedirs_ok; work

    -- `except self.MaxRetriesExceededError` and `except Exception`
    unfoldable pub handle_exception : Exn → Job State (Unit {0})
    handle_exception max_retries_exceeded = do
      update_status env run_id failed none
      publish_line note_retries
    handle_exception exn = do
      update_status env run_id failed none
      publish_line note_exception
      raise exn

    unfoldable pub catch_exception : Outcome (Unit {0}) → Job State (Unit {0})
    catch_exception (done x) = pure x
    catch_exception (raised exn) = handle_exception exn

    -- `finally`: an exception of `stop_and_remove` skips what stands behind it.
    unfoldable pub cleanup : Outcome (Unit {0}) → Job State (Unit {0})
    cleanup o s = if s.container && not env.stop_ok then (raised docker_exception, s) else (
      o,
      record s {
        container = false;
        workspace = s.workspace && not env.rmtree_ok;
        replenished = s.replenished + (if env.pool_present then 1 else 0);
      },
    )

    -- The `try` statement with its `except` clauses.
    unfoldable pub attempt : Job State (Unit {0})
    attempt s = let (o, s') = (do code ← execute; finish code) s in catch_exception o s'

    -- The constructor of the container manager asks Docker, outside of the `try` statement.
    unfoldable pub run_orfs_job : Job State (Unit {0})
    run_orfs_job s =
        let (o, s') = attempt s in
        let ended = cleanup o s' in if env.manager_ok then ended else (raised docker_exception, s)
