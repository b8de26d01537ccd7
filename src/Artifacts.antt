-- ===== src/Artifacts.antt =====
-- What a finished run offers: backend/app/api/routes/artifacts.py and
-- backend/app/api/routes/query.py. The temporary directory of a query is left out: it is removed
-- whatever happens.
pub mod Inspect
use chipatelier.Prelude.{
  ℕ, Bool, true, false, not, Option, none, some, List, [], ◌∷◌, ◌++◌, ◌==◌, select, if◌then◌else◌,
  or_else,
}
use chipatelier.Prelude.Text.{Text, codes, eq_text, is_truthy}
use chipatelier.Http.{
  Handler, pure, require, found, scalar_one_or_none, gets, ◌>>=◌, ◌>>◌, run_not_found, forbidden,
  artifacts_not_ready, not_your_run, no_artifacts, storage_error, query_failed, missing_project,
}
use chipatelier.Model.{User, Run, Project}
use chipatelier.Jobs.{get_run, get_project, owned_by}
use chipatelier.Projects.Storage.{Python, Bucket}
use chipatelier.Projects.{World, download_file}

pub record ArtifactUrls : Type 0 where
  pub run_id : ℕ
  pub gds_url : Option Text
  pub def_url : Option Text
  pub timing_report_url : Option Text
  pub layout_png_url : Option Text
  pub expires_in_seconds : ℕ

pub record InspectElement : Type 0 where
  pub name : Text
  pub master : Option Text
  pub nets : List Text

-- `_STAGE_ODB_MAP`
unfoldable pub stage_odb_map : List (Text × Text)
stage_odb_map =
    (codes "finish", codes "6_final.odb")
    ∷ (codes "route", codes "5_route.odb")
    ∷ (codes "cts", codes "4_cts.odb")
    ∷ (codes "place", codes "3_place.odb")
    ∷ (codes "floorplan", codes "2_floorplan.odb")
    ∷ (codes "synth", codes "1_synth.odb")
    ∷ []

-- `d.get(stage, "5_route.odb")`
abbrev pub odb_of : Text → List (Text × Text) → Text
odb_of stage [] = codes "5_route.odb"
odb_of stage ((key, file) ∷ d) =
    let later = odb_of stage d in if eq_text key stage then file else later

-- `run.stage_completed or "route"`
abbrev pub query_stage : Run → Text
query_stage run =
    if is_truthy (or_else run.stage_completed [])
    then or_else run.stage_completed []
    else codes "route"

-- `f"{run.artifact_path}/{odb_filename}"`
abbrev pub odb_key : Run → Text
unfolding stage_odb_map
odb_key run = or_else run.artifact_path [] ++ 47 ∷ odb_of (query_stage run) stage_odb_map

module _ (P : Python) (B : Bucket) where
  -- GET /jobs/{run_id}/artifacts; `presign` signs a key, and asks no server for it
  unfoldable pub get_artifacts : (Text → Text) → ℕ → User → Handler (World P B) ArtifactUrls
  get_artifacts presign run_id user = do
    run ← gets (λ (w : World P B). get_run run_id w.db)
    run ← found run run_not_found
    project ← gets (λ (w : World P B). get_project run.project_id w.db)
    require (owned_by project user) forbidden
    require (is_truthy (or_else run.artifact_path [])) artifacts_not_ready
    let prefix = or_else run.artifact_path []
    pure (record {
      run_id = run_id;
      gds_url = some (presign (prefix ++ codes "6_final.gds"));
      def_url = some (presign (prefix ++ codes "6_final.def"));
      timing_report_url = some (presign (prefix ++ codes "reports/timing.rpt"));
      layout_png_url = some (presign (prefix ++ codes "layout.png"));
      expires_in_seconds = 3600;
    })

  -- GET /query/{run_id}; `openroad` is what the container answers for a database and a point, or
  -- none if it fails
  unfoldable pub click_to_inspect :
      (Text → Option (List InspectElement)) → ℕ → User → Handler (World P B) (List InspectElement)
  click_to_inspect openroad run_id user = do
    rows ← gets (λ (w : World P B). select (λ (run : Run). run.id == run_id) w.db.runs)
    run ← scalar_one_or_none rows
    run ← found run run_not_found
    project ← gets (λ (w : World P B). get_project run.project_id w.db)
    project ← found project missing_project
    require (project.user_id == user.id) not_your_run
    require (is_truthy (or_else run.artifact_path [])) no_artifacts
    body ← download_file P B (odb_key run)
    found (openroad body) query_failed
