-- ===== src/Projects.antt =====
-- Projects and their files: backend/app/api/routes/projects.py.
-- `fails` says at which keys PutObject raises; an exception rolls the session back, so a handler
-- writes its rows only where the source commits.
pub mod Storage
mod Schemas
mod Rows
mod Keys
pub mod Purge
pub mod Config
pub mod Delete
pub mod Isolation
pub mod Upload
unfoldable pub use Keys.{allowed_extensions}
pub use Schemas.*
pub use Rows.*
pub use Keys.*
use chipatelier.Prelude.{
  ℕ, ◌+◌, String, Bool, not, Option, none, some, List, [], ◌∷◌, ◌++◌, ◌==◌, leb, map, select,
  length, order_by, if◌then◌else◌, is_some,
}
use chipatelier.Prelude.Text.{Text}
use chipatelier.Http.{
  Handler, pure, require, found, scalar_one_or_none, gets, modify, ◌>>=◌, ◌>>◌, project_not_found,
  forbidden, cancel_first, duplicate_name, unsupported_extension, nothing_uploaded, integrity_error,
  storage_error,
}
use chipatelier.Model.{User, Project, Run, Db, Message, purge_project_artifacts}
use chipatelier.Jobs.{get_project as find_project, active_runs}
use Storage.{Python, Bucket, list_files}

module _ (P : Python) (B : Bucket) where
  open B use {Objects, get, put}

  pub record World : Type 0 where
    pub db : Db
    pub sent : List Message
    pub objects : Objects

  -- `storage.upload_file`
  abbrev pub upload_file : (Text → Bool) → Text → Text → Handler World (Unit {0})
  upload_file fails key body = do
    require (not (fails key)) storage_error
    modify (λ (w : World). record w { objects = put key body w.objects })

  -- `storage.download_file`
  abbrev pub download_file : Text → Handler World Text
  download_file key = do body ← gets (λ (w : World). get key w.objects); found body storage_error

  -- `_get_project_or_404`
  abbrev pub get_project_or_404 : ℕ → Handler World Project
  get_project_or_404 project_id = do
    project ← gets (λ (w : World). find_project project_id w.db)
    found project project_not_found

  -- `_check_ownership`
  abbrev pub check_ownership : Project → User → Handler World (Unit {0})
  check_ownership project user = require (project.user_id == user.id) forbidden

  -- POST /projects
  unfoldable pub create_project : ℕ → ℕ → ProjectCreate → User → Handler World ProjectResponse
  create_project id now body user = do
    let project = new_project id now user.id body
    modify
        (λ (w : World). record w { db = record w.db { projects = w.db.projects ++ project ∷ [] } })
    pure (build_project_response project 0)

  -- GET /projects
  unfoldable pub list_projects : User → Handler World (List ProjectResponse)
  list_projects user = gets (λ (w : World).
      map (λ (p : Project). build_project_response p (count_runs p.id w.db))
        (order_by (λ (p q : Project). leb q.created_at p.created_at)
          (select (λ (p : Project). p.user_id == user.id) w.db.projects)))

  -- GET /projects/{id}
  unfoldable pub get_project : ℕ → User → Handler World ProjectResponse
  get_project project_id user = do
    project ← get_project_or_404 project_id
    check_ownership project user
    run_count ← gets (λ (w : World). count_runs project.id w.db)
    pure (build_project_response project run_count)

  -- DELETE /projects/{id}; `sends` says whether the broker takes the message
  unfoldable pub delete_project : Bool → ℕ → User → Handler World (Unit {0})
  delete_project sends project_id user = do
    project ← get_project_or_404 project_id
    check_ownership project user
    rows ← gets (λ (w : World). active_runs project_id w.db)
    active ← scalar_one_or_none rows
    require (not (is_some active)) cancel_first
    runs ← gets (λ (w : World). runs_of project_id w.db)
    viewed ← gets (λ (w : World). has_viewer runs w.db)
    require (not viewed) integrity_error
    modify (λ (w : World). record w { db = delete_rows project_id w.db })
    let message = purge_project_artifacts project_id (artifact_paths runs)
    modify (λ (w : World). record w { sent = if sends then w.sent ++ message ∷ [] else w.sent })

  abbrev pub rename : ℕ → User → Option String → Project → Handler World Project
  rename project_id user none project = pure project
  rename project_id user (some name) project = do
    rows ← gets (λ (w : World). namesakes user.id name project_id w.db)
    dup ← scalar_one_or_none rows
    require (not (is_some dup)) duplicate_name
    pure (record project { name = name })

  -- The object is written first, and only then the version.
  abbrev pub save_config : (Text → Bool) → ℕ → Option Text → Project → Handler World Project
  save_config fails project_id none project = pure project
  save_config fails project_id (some config_mk) project = do
    let new_version = project.config_version + 1
    upload_file fails (config_key P project_id new_version) (P.encode config_mk)
    pure (record project { config_version = new_version })

  -- PATCH /projects/{id}
  unfoldable pub update_project :
      (Text → Bool) → ℕ → ProjectUpdate → User → Handler World ProjectResponse
  update_project fails project_id body user = do
    project ← get_project_or_404 project_id
    check_ownership project user
    named ← rename project_id user body.name project
    saved ← save_config fails project_id body.config_mk named
    modify (λ (w : World). record w {
      db =
          set_project project_id
            (λ (p : Project). record p { name = saved.name; config_version = saved.config_version })
            w.db;
    })
    run_count ← gets (λ (w : World). count_runs saved.id w.db)
    pure (build_project_response saved run_count)

  -- `for file in files: …`, and the number of bytes
  abbrev pub store_files : (Text → Bool) → Text → List UploadFile → Handler World ℕ
  store_files fails source_path [] = pure 0
  store_files fails source_path (file ∷ files) = do
    upload_file fails (file_key P source_path file) file.content
    total_bytes ← store_files fails source_path files
    pure (length file.content + total_bytes)

  -- POST /projects/{id}/upload
  unfoldable pub upload_files :
      (Text → Bool) → ℕ → List UploadFile → User → Handler World UploadResponse
  upload_files fails project_id files user = do
    project ← get_project_or_404 project_id
    check_ownership project user
    require (all_allowed P files) unsupported_extension
    let new_version = project.verilog_version + 1
    let source_path = source_path_of P project_id new_version
    total_bytes ← store_files fails source_path files
    modify (λ (w : World). record w {
      db =
          set_project project_id
            (λ (p : Project). record p {
              storage_bytes = project.storage_bytes + total_bytes;
              verilog_version = new_version;
              latest_source_path = some source_path;
            })
            w.db;
    })
    pure (record { source_path = source_path; file_count = length files })

  -- GET /projects/{id}/runs
  unfoldable pub list_runs : ℕ → User → Handler World (List RunSummary)
  list_runs project_id user = do
    project ← get_project_or_404 project_id
    check_ownership project user
    gets (λ (w : World).
        map run_summary
          (order_by (λ (r s : Run). leb s.created_at r.created_at) (runs_of project_id w.db)))

  abbrev pub download_all : List Text → Handler World (List Text)
  download_all [] = pure []
  download_all (file ∷ files) = do
    body ← download_file file
    parts ← download_all files
    pure (P.decode body ∷ parts)

  -- GET /projects/{id}/source
  unfoldable pub get_project_source : ℕ → User → Handler World SourceResponse
  get_project_source project_id user = do
    project ← get_project_or_404 project_id
    check_ownership project user
    source_path ← found project.latest_source_path nothing_uploaded
    files ← gets (λ (w : World). list_files B (source_path ++ 47 ∷ []) w.objects)
    let verilog_files = order_by le_text (select is_verilog files)
    require (not (length verilog_files == 0)) nothing_uploaded
    parts ← download_all verilog_files
    pure (record {
      filename = shown_name P verilog_files;
      content = join_parts parts;
      version = project.verilog_version;
    })

  abbrev pub config_content : Option Text → Text
  config_content none = []
  config_content (some body) = P.decode body

  -- GET /projects/{id}/config: an exception of the download leaves the content empty
  unfoldable pub get_project_config : ℕ → User → Handler World ConfigResponse
  get_project_config project_id user = do
    project ← get_project_or_404 project_id
    check_ownership project user
    body ← gets (λ (w : World). get (config_key P project_id project.config_version) w.objects)
    pure (
        if project.config_version == 0
        then record { content = []; version = 0 }
        else record { content = config_content body; version = project.config_version })
