-- ===== src/Projects/Schemas.antt =====
-- The rows that the project endpoints answer with: backend/app/schemas/projects.py.
use chipatelier.Prelude.{ℕ, String, Option}
use chipatelier.Prelude.Text.{Text}
use chipatelier.Model.{Project, Run, RunStatus, Priority, Ppa}

pub record ProjectCreate : Type 0 where
  pub name : String
  pub pdk : String

pub record ProjectResponse : Type 0 where
  pub id : ℕ
  pub name : String
  pub pdk : String
  pub storage_bytes : ℕ
  pub created_at : ℕ
  pub run_count : ℕ
  pub config_version : ℕ
  pub verilog_version : ℕ
  pub latest_source_path : Option Text

pub record RunSummary : Type 0 where
  pub id : ℕ
  pub status : RunStatus
  pub target_stage : Option String
  pub stage_completed : Option Text
  pub queue_priority : Priority
  pub created_at : ℕ
  pub completed_at : Option ℕ
  pub ppa : Option Ppa

pub record ProjectUpdate : Type 0 where
  pub name : Option String
  pub config_mk : Option Text

pub record UploadFile : Type 0 where
  pub filename : Option Text
  pub content : Text

pub record UploadResponse : Type 0 where
  pub source_path : Text
  pub file_count : ℕ

pub record SourceResponse : Type 0 where
  pub filename : Text
  pub content : Text
  pub version : ℕ

pub record ConfigResponse : Type 0 where
  pub content : Text
  pub version : ℕ

-- `_build_project_response`
abbrev pub build_project_response : Project → ℕ → ProjectResponse
build_project_response project run_count = record {
  id = project.id;
  name = project.name;
  pdk = project.pdk;
  storage_bytes = project.storage_bytes;
  created_at = project.created_at;
  run_count = run_count;
  config_version = project.config_version;
  verilog_version = project.verilog_version;
  latest_source_path = project.latest_source_path;
}

-- `RunSummary.model_validate(run)`
abbrev pub run_summary : Run → RunSummary
run_summary run = record {
  id = run.id;
  status = run.status;
  target_stage = run.target_stage;
  stage_completed = run.stage_completed;
  queue_priority = run.queue_priority;
  created_at = run.created_at;
  completed_at = run.completed_at;
  ppa = run.ppa;
}
