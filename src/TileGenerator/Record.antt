-- ===== src/TileGenerator/Record.antt =====
-- What the preview task writes into the run's row.
use chipatelier.Prelude.{
  ℕ, ◌≡◌, refl, String, true, false, ◌||◌, Option, some, List, [], ◌∷◌, arith, is_some,
}
use chipatelier.Prelude.Text.{Text}
use chipatelier.Jobs.{set_run}
use chipatelier.Model.{Run}
use chipatelier.Projects.Storage.{Python, Bucket}
use chipatelier.Metrics.{PpaMetrics, Dict, parse_ppa_metrics, ppa_column}
use chipatelier.TileGenerator.{
  PngEnv, Png, Layout, rendered, no_top, unreadable, generate_png, run_key, upload_artifacts,
}

module _ (P : Python) (B : Bucket) (env : PngEnv) (run_id : ℕ) where
  uploads_keep_db :
      (png : Option Text) (w : Png P B) → (upload_artifacts P B env run_id png w).1.db ≡ w.db
  uploads_keep_db png w = refl

  -- If there is a GDS or DEF file, KLayout is missing or does not find the layout without a top
  -- cell, the metrics can be parsed and the database answers, then the task returns and the run's
  -- row has its artifact path and its metrics, whatever else KLayout and the bucket do; no other row
  -- changes.
  pub png_records :
      (platform design : String) (dirs : List (String × String)) (ppa : PpaMetrics)
      (stage_metrics : Dict) (w : Png P B)
      → env.results_dirs ≡ (platform, design) ∷ dirs
      → (is_some env.gds_file || is_some env.def_file) ≡ true
      → (env.layout ≡ no_top → env.has_klayout ≡ false)
      → parse_ppa_metrics env.scale (env.logs platform design) ≡ some (ppa, stage_metrics)
      → env.db_ok ≡ true
      → ((generate_png P B env run_id w).0 ≡ true)
        × ((generate_png P B env run_id w).1.db
            ≡ set_run run_id
                (λ (run : Run). record run {
                  artifact_path = some (run_key P B run_id []);
                  ppa = some (ppa_column env.scale ppa);
                })
                w.db)
  unfolding generate_png
  png_records platform design dirs ppa stage_metrics w hd hf hl hp hdb = go env.layout refl
    where
      go :
          (l : Layout)
          → env.layout ≡ l
          → ((generate_png P B env run_id w).0 ≡ true)
            × ((generate_png P B env run_id w).1.db
                ≡ set_run run_id
                    (λ (run : Run). record run {
                      artifact_path = some (run_key P B run_id []);
                      ppa = some (ppa_column env.scale ppa);
                    })
                    w.db)
      go (rendered png) e = (ground arith, ground arith)
      go unreadable e = (ground arith, ground arith)
      go no_top e = (ground (arith, hl e), ground (arith, hl e))
