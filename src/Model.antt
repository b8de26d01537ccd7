-- ===== src/Model.antt =====
-- The ORM rows (backend/app/models/*.py) and the database as a record of tables.
-- UUIDs and times are numbers; columns that no modelled operation reads are left out.
use chipatelier.Prelude.{ℕ, String, Bool, true, false, Option, List}
use chipatelier.Prelude.Int.{ℤ}
use chipatelier.Prelude.Text.{Text}

pub data Role : Type 0 where
  student instructor admin : Role

-- `role in ("instructor", "admin")`
abbrev pub is_privileged : Role → Bool
is_privileged student = false
is_privileged instructor = true
is_privileged admin = true

abbrev pub is_admin : Role → Bool
is_admin admin = true
is_admin _ = false

abbrev pub is_instructor : Role → Bool
is_instructor instructor = true
is_instructor _ = false

pub record User : Type 0 where
  pub id : ℕ
  pub email : String
  pub display_name : Option String
  pub role : Role
  pub password_hash : Option String
  pub is_active : Bool
  pub last_login_at : Option ℕ

pub record Project : Type 0 where
  pub id : ℕ
  pub user_id : ℕ
  pub name : String
  pub pdk : String
  pub storage_bytes : ℕ
  pub config_version : ℕ
  pub verilog_version : ℕ
  pub latest_source_path : Option Text
  pub created_at : ℕ

pub data RunStatus : Type 0 where
  queued starting running complete failed cancelled timeout : RunStatus

-- `status in {"queued", "starting", "running"}`
abbrev pub is_active_status : RunStatus → Bool
is_active_status queued = true
is_active_status starting = true
is_active_status running = true
is_active_status _ = false

abbrev pub is_queued : RunStatus → Bool
is_queued queued = true
is_queued _ = false

-- `status IN ('starting', 'running')`
abbrev pub is_executing : RunStatus → Bool
is_executing starting = true
is_executing running = true
is_executing _ = false

abbrev pub is_complete : RunStatus → Bool
is_complete complete = true
is_complete _ = false

-- `status IN ('complete', 'failed', 'cancelled', 'timeout')`
abbrev pub is_terminal : RunStatus → Bool
is_terminal complete = true
is_terminal failed = true
is_terminal cancelled = true
is_terminal timeout = true
is_terminal _ = false

-- A value of the `config` column: JSON null, a text, or a dict of texts.
pub data Setting : Type 0 where
  null : Setting
  text : String → Setting
  table : List (String × String) → Setting

pub data Priority : Type 0 where
  high_priority normal : Priority

-- Metrics are decimal numbers, scaled to integers by one common factor; `none` is JSON null.
abbrev pub Ppa : Type 0
Ppa = List (String × Option ℤ)

pub record Run : Type 0 where
  pub id : ℕ
  pub project_id : ℕ
  pub status : RunStatus
  pub target_stage : Option String
  pub stage_completed : Option Text
  pub is_submitted : Bool
  pub notes : Option String
  pub artifact_path : Option Text
  pub ppa : Option Ppa
  pub config : Option (List (String × Setting))
  pub queue_priority : Priority
  pub celery_task_id : Option ℕ
  pub created_at : ℕ
  pub completed_at : Option ℕ

pub record Course : Type 0 where
  pub id : ℕ
  pub instructor_id : ℕ
  pub name : String
  pub term : Option String
  pub enrollment_code : Text
  pub created_at : ℕ

pub record CourseEnrollment : Type 0 where
  pub course_id : ℕ
  pub user_id : ℕ
  pub enrolled_at : ℕ

-- One entry of `checkpoint_rules["hard"]` or `["scored"]`. A key that the dict lacks is `none`.
pub record Partial : Type 0 where
  pub threshold : Option ℤ
  pub points : Option ℤ

pub record Rule : Type 0 where
  pub metric : Option String
  pub op : Option String
  pub value : Option ℤ
  pub points : Option ℤ
  pub partial : Option Partial

pub record Rules : Type 0 where
  pub hard : List Rule
  pub scored : List Rule

pub record Assignment : Type 0 where
  pub id : ℕ
  pub course_id : ℕ
  pub title : String
  pub locked_params : List (String × String)
  pub checkpoint_rules : Rules
  pub is_open : Bool
  pub created_at : ℕ

pub record HardResult : Type 0 where
  pub metric : String
  pub op : String
  pub threshold : ℤ
  pub actual : Option ℤ
  pub passed : Bool

pub record ScoredResult : Type 0 where
  pub metric : String
  pub op : String
  pub threshold : ℤ
  pub actual : Option ℤ
  pub passed : Bool
  pub awarded : ℤ
  pub max_points : ℤ
  pub partial_credit : Bool

pub record CheckpointResults : Type 0 where
  pub hard : List HardResult
  pub scored : List ScoredResult
  pub hard_gate_blocked : Bool

pub data GradingStatus : Type 0 where
  pending complete failed : GradingStatus

pub record Submission : Type 0 where
  pub id : ℕ
  pub assignment_id : ℕ
  pub user_id : ℕ
  pub run_id : ℕ
  pub checkpoint_results : Option CheckpointResults
  pub score : Option ℤ
  pub grading_status : GradingStatus
  pub submitted_at : ℕ

pub data VncStatus : Type 0 where
  starting running stopped : VncStatus

-- `status in ["starting", "running"]`
abbrev pub is_live : VncStatus → Bool
is_live stopped = false
is_live _ = true

abbrev pub is_running : VncStatus → Bool
is_running running = true
is_running _ = false

pub record VncSession : Type 0 where
  pub id : ℕ
  pub user_id : ℕ
  pub run_id : ℕ
  pub container_id : Option String
  pub port : Option ℕ
  pub status : VncStatus
  pub token : Option Text
  pub expires_at : Option ℕ

pub record Db : Type 0 where
  pub users : List User
  pub projects : List Project
  pub runs : List Run
  pub courses : List Course
  pub enrollments : List CourseEnrollment
  pub assignments : List Assignment
  pub submissions : List Submission
  pub vnc_sessions : List VncSession

-- What `send_task`, `delay`, `apply_async` and `control.revoke` hand to Celery, oldest first.
pub data Message : Type 0 where
  run_orfs_job run_orfs_job_high : (run_id : ℕ) → Message
  revoke : (task_id : ℕ) → Message
  evaluate_submission : (submission_id : ℕ) → Message
  start_vnc : (session_id : ℕ) → Message
  purge_project_artifacts : (project_id : ℕ) → List Text → Message
  generate_png : (run_id : ℕ) → Message

-- The database and the task queue, as the handlers see them.
pub record Backend : Type 0 where
  pub db : Db
  pub sent : List Message
