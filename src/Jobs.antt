-- ===== src/Jobs.antt =====
-- The job lifecycle handlers: backend/app/api/routes/jobs.py.
-- The broker accepts every message; what it and the database choose (the task id of a dispatch, the
-- id of a new row) and the clock are arguments. Redis may fail at two places of `submit_job`.
pub mod Submit
pub mod Cancel
pub mod Dispatch
pub mod SingleActive
pub mod Transitions
pub mod Lifecycle
use chipatelier.Prelude.{
  ℕ, zero, String, Bool, true, false, not, ◌&&◌, Option, none, some, List, [], ◌∷◌, ◌++◌, ◌==◌,
  select, find?, update_where, length, if◌then◌else◌, is_some,
}
use chipatelier.Prelude.Text.{Text}
use chipatelier.Http.{
  Handler, pure, require, found, scalar_one_or_none, gets, modify, ◌>>=◌, ◌>>◌, project_not_found,
  run_not_found, forbidden, no_verilog, no_config, active_run, run_not_active, raise,
}
use chipatelier.Model.{
  User, Project, Run, RunStatus, queued, cancelled, Setting, table, Priority, high_priority, normal,
  Db, Message, run_orfs_job, run_orfs_job_high, revoke, is_privileged, is_active_status, Ppa,
}
use chipatelier.FairQueue.Store.{Redis}
use chipatelier.FairQueue.{get_student_queue_depth}

pub record SubmitRequest : Type 0 where
  pub project_id : ℕ
  pub target_stage : String
  pub config_overrides : List (String × String)
  pub source_path : Option Text
  pub notes : Option String

pub record SubmitResponse : Type 0 where
  pub run_id : ℕ
  pub status : RunStatus
  pub queue_priority : Priority

pub record RunStatusResponse : Type 0 where
  pub id : ℕ
  pub status : RunStatus
  pub stage_completed : Option Text
  pub target_stage : Option String
  pub queue_priority : Priority
  pub notes : Option String
  pub created_at : ℕ
  pub completed_at : Option ℕ
  pub ppa : Option Ppa

-- `RunStatusResponse.model_validate(run)`
abbrev pub status_response : Run → RunStatusResponse
status_response run = record {
  id = run.id;
  status = run.status;
  stage_completed = run.stage_completed;
  target_stage = run.target_stage;
  queue_priority = run.queue_priority;
  notes = run.notes;
  created_at = run.created_at;
  completed_at = run.completed_at;
  ppa = run.ppa;
}

-- Where Redis raises in `submit_job`: nowhere, before ZADD has run, or between ZADD and INCR.
pub data RedisFault : Type 0 where
  no_fault before_zadd before_incr : RedisFault

-- What the database and the broker choose.
pub record Fresh : Type 0 where
  pub run_id : ℕ
  pub task_id : ℕ
  pub now : ℕ

abbrev pub add_run : Run → Db → Db
add_run run db = record db { runs = db.runs ++ run ∷ [] }

-- `run.x = …; await db.commit()`
abbrev pub set_run : ℕ → (Run → Run) → Db → Db
set_run run_id f db = record db { runs = update_where (λ run. run.id == run_id) f db.runs }

abbrev pub get_run : ℕ → Db → Option Run
get_run run_id db = find? (λ (run : Run). run.id == run_id) db.runs

abbrev pub get_project : ℕ → Db → Option Project
get_project project_id db = find? (λ (project : Project). project.id == project_id) db.projects

abbrev pub set_cancelled : Run → Run
set_cancelled run = record run { status = cancelled }

-- The runs of a project whose status is active.
abbrev pub active_runs : ℕ → Db → List Run
active_runs project_id db =
    select (λ (run : Run). run.project_id == project_id && is_active_status run.status) db.runs

-- `project and project.user_id == user.id`
abbrev pub owned_by : Option Project → User → Bool
owned_by none user = false
owned_by (some project) user = project.user_id == user.id

-- `{"locked_params": {}, "config_overrides": body.config_overrides or {}}`
abbrev pub config_snapshot : SubmitRequest → List (String × Setting)
config_snapshot body =
    ("locked_params", table []) ∷ ("config_overrides", table body.config_overrides) ∷ []

abbrev pub new_run : Fresh → SubmitRequest → Priority → Run
new_run fresh body queue_priority = record {
  id = fresh.run_id;
  project_id = body.project_id;
  status = queued;
  target_stage = some body.target_stage;
  stage_completed = none;
  is_submitted = false;
  notes = body.notes;
  artifact_path = body.source_path;
  ppa = none;
  config = some (config_snapshot body);
  queue_priority = queue_priority;
  celery_task_id = none;
  created_at = fresh.now;
  completed_at = none;
}

-- `if run.celery_task_id: _celery.control.revoke(…)`
abbrev pub revoke_task : Option ℕ → List Message → List Message
revoke_task none sent = sent
revoke_task (some task_id) sent = sent ++ revoke task_id ∷ []

module _ (R : Redis) where
  open R use {Store, zadd, incr}

  pub record World : Type 0 where
    pub db : Db
    pub sent : List Message
    pub redis : Store

  -- `_get_project_or_404`
  unfoldable pub get_project_or_404 : ℕ → Handler World Project
  get_project_or_404 project_id = do
    rows ← gets (λ (w : World). select (λ (p : Project). p.id == project_id) w.db.projects)
    project ← scalar_one_or_none rows
    found project project_not_found

  -- `_check_project_ownership`
  unfoldable pub check_project_ownership : Project → User → Handler World (Unit {0})
  check_project_ownership project user = require (project.user_id == user.id) forbidden

  -- `_get_run_or_404`
  unfoldable pub get_run_or_404 : ℕ → Handler World Run
  get_run_or_404 run_id = do
    run ← gets (λ (w : World). get_run run_id w.db)
    found run run_not_found

  -- The dispatch of a new run.
  unfoldable pub dispatch_direct : Message → Fresh → World → World
  dispatch_direct message fresh w = record w {
    sent = w.sent ++ message ∷ [];
    db = set_run fresh.run_id (λ run. record run { celery_task_id = some fresh.task_id }) w.db;
  }

  unfoldable pub dispatch_student : RedisFault → Fresh → User → World → World
  unfolding dispatch_direct get_student_queue_depth
  dispatch_student no_fault fresh user w = record w {
    redis = incr user.id (zadd fresh.run_id (get_student_queue_depth R user.id w.redis) w.redis);
  }
  dispatch_student before_zadd fresh user w = dispatch_direct (run_orfs_job fresh.run_id) fresh w
  dispatch_student before_incr fresh user w =
      dispatch_direct (run_orfs_job fresh.run_id) fresh
        (record w { redis = zadd fresh.run_id (get_student_queue_depth R user.id w.redis) w.redis })

  unfoldable pub dispatch : RedisFault → Fresh → User → World → World
  unfolding dispatch_direct dispatch_student
  dispatch fault fresh user w =
      if is_privileged user.role
      then dispatch_direct (run_orfs_job_high fresh.run_id) fresh w
      else dispatch_student fault fresh user w

  unfoldable pub submit_job :
      RedisFault → Fresh → SubmitRequest → User → Handler World SubmitResponse
  unfolding get_project_or_404 check_project_ownership
  submit_job fault fresh body user = do
    project ← get_project_or_404 body.project_id
    check_project_ownership project user
    require (is_some project.latest_source_path) no_verilog
    require (not (project.config_version == 0)) no_config
    rows ← gets (λ (w : World). active_runs body.project_id w.db)
    active ← scalar_one_or_none rows
    require (not (is_some active)) active_run
    let queue_priority = if is_privileged user.role then high_priority else normal
    modify (λ (w : World). record w { db = add_run (new_run fresh body queue_priority) w.db })
    modify (dispatch fault fresh user)
    pure (record { run_id = fresh.run_id; status = queued; queue_priority = queue_priority })

  -- `_get_run_or_404`, and the owner of the run's project
  unfoldable pub get_owned_run : ℕ → User → Handler World Run
  unfolding get_run_or_404
  get_owned_run run_id user = do
    run ← get_run_or_404 run_id
    project ← gets (λ (w : World). get_project run.project_id w.db)
    require (owned_by project user) forbidden
    pure run

  unfoldable pub get_job_status : ℕ → User → Handler World RunStatusResponse
  unfolding get_owned_run
  get_job_status run_id user = do run ← get_owned_run run_id user; pure (status_response run)

  unfoldable pub cancel_job : ℕ → User → Handler World (Unit {0})
  unfolding get_owned_run
  cancel_job run_id user = do
    run ← get_owned_run run_id user
    require (is_active_status run.status) run_not_active
    modify (λ (w : World). record w { db = set_run run_id set_cancelled w.db })
    modify (λ (w : World). record w { sent = revoke_task run.celery_task_id w.sent })

  -- The lines of `logbuf:{run_id}` are an argument: `lrange` returns them.
  unfoldable pub get_log_history : List String → ℕ → User → Handler World (List String × ℕ)
  unfolding get_owned_run
  get_log_history raw_lines run_id user = do
    run ← get_owned_run run_id user
    pure (raw_lines, length raw_lines)

  unfoldable pub update_run_notes : ℕ → Option String → User → Handler World RunStatusResponse
  unfolding get_owned_run
  update_run_notes run_id notes user = do
    run ← get_owned_run run_id user
    modify (λ (w : World). record w { db = set_run run_id (λ r. record r { notes = notes }) w.db })
    pure (status_response (record run { notes = notes }))
