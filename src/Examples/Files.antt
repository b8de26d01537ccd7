-- ===== src/Examples/Files.antt =====
-- The theorems on projects at the sample database.
use chipatelier.Prelude.{
  ◌+◌, ◌≡◌, List, ◌&&◌, ◌||◌, if◌then◌else◌, or_else, refl, Bool, true, false, none, some, [], ◌∷◌,
  ◌++◌, any, select, find?,
}
use chipatelier.Prelude.Text.{Text, codes, eq_text, is_truthy}
use chipatelier.Http.{ok, err, storage_error}
use chipatelier.Model.{Db, Project, Run, purge_project_artifacts as message}
use chipatelier.Jobs.{get_project as find_project}
use chipatelier.Projects.Storage.{purge_project_artifacts, project_prefix, starts_with}
use chipatelier.Projects.{
  World, ProjectUpdate, ProjectResponse, UploadFile, UploadResponse, update_project,
  get_project_config, delete_project, upload_files, config_key, runs_of, file_key, source_path_of,
  allowed_extensions,
}
use chipatelier.Projects.Config.{update-get_project_config}
use chipatelier.Projects.Delete.{Referential, delete-Referential}
use chipatelier.Projects.Isolation.{delete_purges}
use chipatelier.Projects.Upload.{Uploaded, upload_effect, failed_upload_leaves}
use chipatelier.Examples.Data.{alice, adder, finished_run, sample_db}
use chipatelier.Examples.Buckets.{plain_python, list_bucket, body_of, Cells}

abbrev never : Text → Bool
never key = false

abbrev files_world : World plain_python list_bucket
files_world = record { db = sample_db; sent = []; objects = [] }

abbrev config_update : ProjectUpdate
config_update = record { name = none; config_mk = some (codes "export A = 1") }

abbrev updated : ProjectResponse
updated = record {
  id = 10;
  name = "adder";
  pdk = "sky130hd";
  storage_bytes = 0;
  created_at = 0;
  run_count = 1;
  config_version = 2;
  verilog_version = 1;
  latest_source_path = adder.latest_source_path;
}

accepted_update :
    (update_project plain_python list_bucket never 10 config_update alice files_world).0
    ≡ ok updated
unfolding update_project find? select
accepted_update = refl

update-get_project_config_example :
    ((get_project_config plain_python list_bucket 10 alice
        (update_project plain_python list_bucket never 10 config_update alice files_world).1).0
      ≡ ok (record { content = codes "export A = 1"; version = 2 }))
    × ((project : Project) × (find_project 10 sample_db ≡ some project)
        × (2 ≡ project.config_version + 1))
    × ((key : Text)
        → eq_text (config_key plain_python 10 2) key ≡ false
        → body_of key
            (update_project plain_python list_bucket never 10 config_update alice
              files_world).1.objects
          ≡ body_of key [])
update-get_project_config_example =
    update-get_project_config plain_python list_bucket never 10 alice config_update
      (codes "export A = 1") files_world updated refl accepted_update

sample_references : Referential sample_db
unfolding find? any
sample_references = record { runs = (refl, tt); submissions = (refl, tt); vnc_sessions = tt }

delete-Referential_example :
    Referential (delete_project plain_python list_bucket true 10 alice files_world).1.db
delete-Referential_example =
    delete-Referential plain_python list_bucket true 10 alice files_world sample_references

-- A run whose source path is that of another project.
abbrev greedy_db : Db
greedy_db = record sample_db {
  runs = record finished_run { artifact_path = some (codes "projects/") } ∷ [];
}

abbrev victim : Text
victim = codes "projects/" ++ plain_python.str_uuid 77 ++ codes "/verilog/v1/top.v"

abbrev greedy_world : World plain_python list_bucket
greedy_world = record files_world { db = greedy_db; objects = (victim, codes "module top;") ∷ [] }

delete_purges_example :
    ((delete_project plain_python list_bucket true 10 alice greedy_world).1.objects
      ≡ greedy_world.objects)
    × ((paths : List Text) × ((delete_project plain_python list_bucket true 10 alice
            greedy_world).1.sent
          ≡ message 10 paths ∷ [])
        × ((key : Text) (o : Cells)
            → body_of key (purge_project_artifacts list_bucket plain_python 10 paths o) ≡ (
                if starts_with (project_prefix list_bucket plain_python 10) key
                  || any
                      (λ (run : Run).
                        is_truthy (or_else run.artifact_path [])
                        && starts_with (or_else run.artifact_path []) key)
                      (runs_of 10 greedy_db)
                then none
                else body_of key o)))
unfolding delete_project find? select any
delete_purges_example = delete_purges plain_python list_bucket 10 alice greedy_world refl

abbrev top_file : UploadFile
top_file = record { filename = some (codes "top.v"); content = codes "module top;" }

abbrev lib_file : UploadFile
lib_file = record { filename = some (codes "lib.sv"); content = codes "module lib;" }

abbrev uploaded : UploadResponse
uploaded = record { source_path = source_path_of plain_python 10 2; file_count = 2 }

accepted_upload :
    (upload_files plain_python list_bucket never 10 (top_file ∷ lib_file ∷ []) alice files_world).0
    ≡ ok uploaded
unfolding upload_files find? any eq_text allowed_extensions
accepted_upload = refl

upload_effect_example :
    Uploaded plain_python list_bucket 10
      (top_file ∷ lib_file ∷ [])
      alice
      uploaded.source_path
      files_world
      (upload_files plain_python list_bucket never 10
        (top_file ∷ lib_file ∷ [])
        alice
        files_world).1
upload_effect_example =
    upload_effect plain_python list_bucket never 10 (top_file ∷ lib_file ∷ []) alice files_world
      uploaded accepted_upload

abbrev second_fails : Text → Bool
second_fails key = eq_text (file_key plain_python uploaded.source_path lib_file) key

failed_upload_leaves_example :
    ((upload_files plain_python list_bucket second_fails 10
        (top_file ∷ lib_file ∷ [])
        alice
        files_world).0
      ≡ err storage_error)
    × ((upload_files plain_python list_bucket second_fails 10
          (top_file ∷ lib_file ∷ [])
          alice
          files_world).1.db
        ≡ sample_db)
    × (body_of
          (file_key plain_python uploaded.source_path top_file)
          (upload_files plain_python list_bucket second_fails 10
            (top_file ∷ lib_file ∷ [])
            alice
            files_world).1.objects
        ≡ some (codes "module top;"))
unfolding find? any eq_text allowed_extensions
failed_upload_leaves_example =
    failed_upload_leaves plain_python list_bucket second_fails 10 top_file lib_file [] alice
      files_world adder refl refl refl refl refl
