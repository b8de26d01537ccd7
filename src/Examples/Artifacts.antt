-- ===== src/Examples/Artifacts.antt =====
-- The theorems on metrics, previews and the watchdog, at a run that was never routed.
use chipatelier.Prelude.{
  arith, ◌≡◌, refl, String, true, false, none, some, List, [], ◌∷◌, any, lookup, order_by,
  insert_by, select, find?,
}
use chipatelier.Prelude.Int.{ℤ, pos}
use chipatelier.Prelude.Text.{Text, codes, eq_text}
use chipatelier.Model.{Run}
use chipatelier.Jobs.{set_run, get_run}
use chipatelier.Grading.{hard_result}
use chipatelier.Metrics.{
  FileText, object, skipped, Dict, PpaMetrics, parse_ppa_metrics, merge_files, ppa_column,
}
use chipatelier.Metrics.Gate.{Reads, parse_total, gate, unrouted_passes}
use chipatelier.TileGenerator.{PngEnv, Png, unreadable, generate_png, recorded, run_key}
use chipatelier.TileGenerator.Record.{png_records}
use chipatelier.Containers.{JobContainer, cleanup_orphaned_containers, is_active_row, job_prefix}
use chipatelier.Containers.Watchdog.{present, job_name, job_reaped}
use chipatelier.Examples.Data.{alice, adder, finished_run, sample_db}
use chipatelier.Http.{err, storage_error}
use chipatelier.Projects.{World}
use chipatelier.Artifacts.{click_to_inspect}
use chipatelier.Artifacts.Inspect.{inspect_fails}
use chipatelier.Examples.Buckets.{plain_python, list_bucket, body_of}

abbrev logs : List (Text × FileText)
logs =
    (codes "2_1_floorplan.json", object (("floorplan__design__core__area", some (pos 4000)) ∷ []))
    ∷ (codes "1_synth.json", skipped)
    ∷ []

abbrev unrouted : PpaMetrics
unrouted = record {
  worst_negative_slack = none;
  total_negative_slack = none;
  drc_violations = pos 0;
  core_area = some (pos 4000);
  total_power = none;
  flow_complete = false;
}

abbrev unrouted_stages : Dict
unrouted_stages = ("floorplan__design__core__area", some (pos 4000)) ∷ []

parsed : parse_ppa_metrics 100 (some logs) ≡ some (unrouted, unrouted_stages)
unfolding parse_ppa_metrics merge_files order_by insert_by lookup
parsed = refl

parse_total_example :
    (ppa : PpaMetrics) × (stage_metrics : Dict) × (parse_ppa_metrics 100 (some logs)
      ≡ some (ppa, stage_metrics))
    × Reads 100 logs ppa
parse_total_example = parse_total 100 logs (tt, (tt, tt))

unrouted_passes_example :
    (hard_result (ppa_column 100 unrouted) (gate "drc_violations" "eq" (pos 0))
      ≡ some (record {
        metric = "drc_violations";
        op = "eq";
        threshold = pos 0;
        actual = some (pos 0);
        passed = true;
      }))
    × ((op : String) (value : ℤ)
        → hard_result (ppa_column 100 unrouted) (gate "worst_negative_slack" op value)
          ≡ some (record {
            metric = "worst_negative_slack";
            op = op;
            threshold = value;
            actual = none;
            passed = false;
          }))
unfolding order_by insert_by
unrouted_passes_example = unrouted_passes 100 logs unrouted unrouted_stages parsed refl refl refl

abbrev png_env : PngEnv
png_env = record {
  results_dirs = ("sky130hd", "adder") ∷ [];
  gds_file = some (codes "gds");
  def_file = none;
  has_klayout = true;
  layout = unreadable;
  fails = λ key. true;
  logs = λ platform design. some logs;
  scale = 100;
  db_ok = true;
}

abbrev before_png : Png plain_python list_bucket
before_png = record { objects = []; db = sample_db }

png_records_example :
    ((generate_png plain_python list_bucket png_env 2 before_png).0 ≡ true)
    × ((generate_png plain_python list_bucket png_env 2 before_png).1.db
        ≡ set_run 2 (recorded plain_python list_bucket 2 (ppa_column 100 unrouted)) sample_db)
png_records_example =
    png_records plain_python list_bucket png_env 2 "sky130hd" "adder" [] unrouted unrouted_stages
      before_png refl refl (λ e. absurd (ground arith)) parsed refl

abbrev job_containers : List JobContainer
unfolding job_prefix
job_containers =
    record { name = job_name plain_python (λ n. false) sample_db 2; is_running = true } ∷ []

job_reaped_example :
    present
      (job_name plain_python (λ n. false) sample_db 2)
      (cleanup_orphaned_containers plain_python (λ n. false) sample_db job_containers).1
    ≡ is_active_row (get_run 2 sample_db)
unfolding any eq_text job_containers
job_reaped_example = job_reaped plain_python (λ n. false) sample_db job_containers 2 refl refl

abbrev uploading_env : PngEnv
uploading_env = record png_env { fails = λ key. false }

abbrev pictured_run : Run
pictured_run = record finished_run { artifact_path = some (run_key plain_python list_bucket 2 []) }

abbrev pictured : World plain_python list_bucket
pictured = record {
  db = record sample_db { runs = pictured_run ∷ [] };
  sent = [];
  objects = (generate_png plain_python list_bucket uploading_env 2 before_png).1.objects;
}

inspect_fails_example :
    (click_to_inspect plain_python list_bucket (λ body. some []) 2 alice pictured).0
    ≡ err storage_error
unfolding select find? body_of
inspect_fails_example =
    inspect_fails plain_python list_bucket 2 uploading_env (λ body. some []) alice before_png
      pictured pictured_run adder refl refl refl refl refl refl
