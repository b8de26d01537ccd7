-- ===== src/Projects/Rows.antt =====
-- The queries and updates of the project endpoints, and what a deletion takes with it.
use chipatelier.Prelude.{
  ℕ, String, Bool, not, ◌&&◌, none, List, [], ◌∷◌, ◌==◌, str_eq, select, update_where, any, length,
  if◌then◌else◌, or_else,
}
use chipatelier.Prelude.Text.{Text, is_truthy}
use chipatelier.Model.{Project, Run, Submission, VncSession, Db}
use chipatelier.Projects.Schemas.{ProjectCreate}

abbrev pub runs_of : ℕ → Db → List Run
runs_of project_id db = select (λ (run : Run). run.project_id == project_id) db.runs

-- `select(func.count()).where(Run.project_id == project.id)`
abbrev pub count_runs : ℕ → Db → ℕ
count_runs project_id db = length (runs_of project_id db)

abbrev pub new_project : ℕ → ℕ → ℕ → ProjectCreate → Project
new_project id now user_id body = record {
  id = id;
  user_id = user_id;
  name = body.name;
  pdk = body.pdk;
  storage_bytes = 0;
  config_version = 0;
  verilog_version = 0;
  latest_source_path = none;
  created_at = now;
}

abbrev pub set_project : ℕ → (Project → Project) → Db → Db
set_project project_id f db = record db {
  projects = update_where (λ (p : Project). p.id == project_id) f db.projects;
}

-- The projects of a user with a name, but for one.
abbrev pub namesakes : ℕ → String → ℕ → Db → List Project
namesakes user_id name project_id db =
    select (λ (p : Project). p.user_id == user_id && str_eq p.name name && not (p.id == project_id))
      db.projects

-- `[r.artifact_path for r in … if r.artifact_path]`
abbrev pub artifact_paths : List Run → List Text
artifact_paths [] = []
artifact_paths (run ∷ runs) =
    let later = artifact_paths runs in
    if is_truthy (or_else run.artifact_path []) then or_else run.artifact_path [] ∷ later else later

abbrev pub has_run : List Run → ℕ → Bool
has_run runs run_id = any (λ (run : Run). run.id == run_id) runs

-- A row of `vnc_sessions` keeps its run: its foreign key has no cascade and may not be null.
abbrev pub has_viewer : List Run → Db → Bool
has_viewer runs db = any (λ (s : VncSession). has_run runs s.run_id) db.vnc_sessions

-- `db.delete(project)`: the runs go with it, and the submissions of those runs.
abbrev pub delete_rows : ℕ → Db → Db
delete_rows project_id db = record db {
  projects = select (λ (p : Project). not (p.id == project_id)) db.projects;
  runs = select (λ (run : Run). not (run.project_id == project_id)) db.runs;
  submissions =
      select (λ (s : Submission). not (has_run (runs_of project_id db) s.run_id)) db.submissions;
}
