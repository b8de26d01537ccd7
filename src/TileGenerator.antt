-- ===== src/TileGenerator.antt =====
-- The preview task behind a complete job: worker/tasks/tile_generator.py.
-- The result of each part is whether it returned (true) or raised (false), and what it left.
pub mod Record
pub mod Uploads
use chipatelier.Prelude.{
  ℕ, String, Bool, true, false, not, ◌&&◌, ◌||◌, Option, none, some, List, [], ◌∷◌, ◌++◌,
  if◌then◌else◌, is_some,
}
use chipatelier.Prelude.Text.{Text, codes}
use chipatelier.Model.{Run, Ppa, Db}
use chipatelier.Jobs.{set_run}
use chipatelier.Projects.Storage.{Python, Bucket}
use chipatelier.Metrics.{LogsDir, PpaMetrics, Dict, parse_ppa_metrics, ppa_column}

-- What KLayout makes of the layout: a picture, nothing (no top cell), or an exception.
pub data Layout : Type 0 where
  rendered : Text → Layout
  no_top unreadable : Layout

-- The workspace, and what KLayout, the bucket and the database answer.
pub record PngEnv : Type 0 where
  -- platform and design of each directory under results
  pub results_dirs : List (String × String)
  pub gds_file : Option Text
  pub def_file : Option Text
  pub has_klayout : Bool
  pub layout : Layout
  pub fails : Text → Bool
  pub logs : String → String → LogsDir
  pub scale : ℕ
  pub db_ok : Bool

module _ (P : Python) (B : Bucket) where
  open B use {Objects, put}

  pub record Png : Type 0 where
    pub objects : Objects
    pub db : Db

  -- `f"runs/{run_id}/{key_suffix}"`
  abbrev pub run_key : ℕ → Text → Text
  run_key run_id key_suffix = codes "runs/" ++ P.str_uuid run_id ++ 47 ∷ key_suffix

  -- Each file that exists, until PutObject raises.
  abbrev pub put_files : (Text → Bool) → List (Text × Option Text) → Objects → Bool × Objects
  put_files fails [] o = (true, o)
  put_files fails ((key, none) ∷ files) o = put_files fails files o
  put_files fails ((key, some body) ∷ files) o =
      let rest = put_files fails files (put key body o) in if fails key then (false, o) else rest

  -- `_upload_artifacts`
  abbrev pub upload_artifacts : PngEnv → ℕ → Option Text → Png → Bool × Png
  upload_artifacts env run_id png w =
      let (returned, o) =
        put_files env.fails
          ((run_key run_id (codes "layout.png"), png)
            ∷ (run_key run_id (codes "6_final.gds"), env.gds_file)
            ∷ (run_key run_id (codes "6_final.def"), env.def_file)
            ∷ [])
          w.objects in
      (returned, record w { objects = o })

  -- `artifact_path = f"runs/{run_id}/"`, and the metrics
  abbrev pub recorded : ℕ → Ppa → Run → Run
  recorded run_id ppa run = record run { artifact_path = some (run_key run_id []); ppa = some ppa }

  -- `_update_run_record`, whose exceptions are only logged
  abbrev pub update_run_record : Bool → ℕ → Ppa → Png → Png
  update_run_record db_ok run_id ppa w =
      if db_ok then record w { db = set_run run_id (recorded run_id ppa) w.db } else w

  -- `_parse_and_update`
  abbrev pub parse_and_update : PngEnv → ℕ → String × String → Png → Bool × Png
  parse_and_update env run_id (platform, design) w =
      elim (parse_ppa_metrics env.scale (env.logs platform design)) [
        | none ↦ (false, w)
        | some (ppa, stage_metrics) ↦
            (true, update_run_record env.db_ok run_id (ppa_column env.scale ppa) w)
      ]

  -- `except Exception: …`, then the code behind the `try`
  abbrev pub recover : PngEnv → ℕ → String × String → Png → Bool × Png
  recover env run_id results_dir w =
      parse_and_update env run_id results_dir (upload_artifacts env run_id none w).1

  -- `if not klayout: …; return`, with what the `except` makes of a raise
  abbrev pub without_klayout : PngEnv → ℕ → String × String → Png → Bool × Png
  without_klayout env run_id results_dir w =
      let (uploaded, w') = upload_artifacts env run_id none w in
      let (parsed, w'') = parse_and_update env run_id results_dir w' in
      if uploaded && parsed then (true, w'') else recover env run_id results_dir w'

  abbrev pub with_layout : PngEnv → ℕ → String × String → Layout → Png → Bool × Png
  with_layout env run_id results_dir unreadable w = recover env run_id results_dir w
  with_layout env run_id results_dir no_top w = (true, w)
  with_layout env run_id results_dir (rendered png) w =
      let (uploaded, w') = upload_artifacts env run_id (some png) w in
      if uploaded
      then parse_and_update env run_id results_dir w'
      else recover env run_id results_dir w'

  abbrev pub png_in : PngEnv → ℕ → List (String × String) → Png → Bool × Png
  png_in env run_id [] w = (true, w)
  png_in env run_id (results_dir ∷ dirs) w =
      if not (is_some env.gds_file) && not (is_some env.def_file)
      then (true, w)
      else if env.has_klayout
      then with_layout env run_id results_dir env.layout w
      else without_klayout env run_id results_dir w

  unfoldable pub generate_png : PngEnv → ℕ → Png → Bool × Png
  generate_png env run_id w = png_in env run_id env.results_dirs w
