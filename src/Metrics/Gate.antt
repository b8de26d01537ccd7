-- ===== src/Metrics/Gate.antt =====
-- From the files of a run to the gates of its grading.
use chipatelier.Prelude.{
  All, All-order_by, ℕ, ◌≡◌, refl, sym, subst, String, true, false, Option, none, some, List, [],
  ◌∷◌, arith, lookup, order_by, is_some, or_else,
}
use chipatelier.Prelude.Int.{ℤ, pos}
use chipatelier.Prelude.Text.{Text}
use chipatelier.Projects.{le_text}
use chipatelier.Model.{Rule}
use chipatelier.Grading.{hard_result, metric_of, compare_metric}
use chipatelier.Metrics.{
  Dict, FileText, object, skipped, undecodable, update_dict, PpaMetrics, merge_files,
  parse_ppa_metrics, ppa_column, int_or_zero, mapped,
}
use chipatelier.Metrics.Merge.{last_value, newest, lookup-merge_files}

abbrev pub by_name : List (Text × FileText) → List (Text × FileText)
by_name files = order_by (λ (f g : Text × FileText). le_text f.0 g.0) files

-- The value of a key in the last file by name that has it.
abbrev pub value_in : String → Option ℤ → List (Text × FileText) → Option ℤ
value_in key default files = or_else (last_value key (by_name files)) default

merged_value :
    (files : List (Text × FileText)) (key : String) (merged : Dict)
    → merge_files (by_name files) [] ≡ some merged
    → lookup key merged ≡ last_value key (by_name files)
unfolding lookup
merged_value files key merged h =
    go (last_value key (by_name files)) refl (lookup-merge_files (by_name files) key [] merged h)
  where
    go :
        (o : Option (Option ℤ))
        → last_value key (by_name files) ≡ o
        → lookup key merged ≡ newest (last_value key (by_name files)) (lookup key [])
        → lookup key merged ≡ last_value key (by_name files)
    go none e q = ground arith
    go (some v) e q = ground arith

-- What the metrics say of the files.
pub record Reads (scale : ℕ) (files : List (Text × FileText)) (ppa : PpaMetrics) : Type 0 where
  pub slack :
      ppa.worst_negative_slack
      ≡ value_in "finish__timing__setup__ws"
          (value_in "globalroute__timing__setup__ws" none files)
          files
  pub total_slack :
      ppa.total_negative_slack
      ≡ value_in "finish__timing__setup__tns"
          (value_in "globalroute__timing__setup__tns" none files)
          files
  pub violations :
      ppa.drc_violations
      ≡ int_or_zero scale (value_in "detailedroute__route__drc_errors" (some (pos 0)) files)
  pub area : ppa.core_area ≡ value_in "floorplan__design__core__area" none files
  pub power : ppa.total_power ≡ value_in "finish__power__total" none files
  pub complete : ppa.flow_complete ≡ is_some (value_in "finish__timing__setup__ws" none files)

mapped-Reads :
    (scale : ℕ) (files : List (Text × FileText)) (merged : Dict)
    → merge_files (by_name files) [] ≡ some merged
    → Reads scale files (mapped scale merged).0
unfolding lookup
mapped-Reads scale files [] h = record {
  slack = ground (
    arith,
    merged_value files "finish__timing__setup__ws" [] h,
    merged_value files "globalroute__timing__setup__ws" [] h,
  );
  total_slack = ground (
    arith,
    merged_value files "finish__timing__setup__tns" [] h,
    merged_value files "globalroute__timing__setup__tns" [] h,
  );
  violations = ground (arith, merged_value files "detailedroute__route__drc_errors" [] h);
  area = ground (arith, merged_value files "floorplan__design__core__area" [] h);
  power = ground (arith, merged_value files "finish__power__total" [] h);
  complete = ground (arith, merged_value files "finish__timing__setup__ws" [] h);
}
mapped-Reads scale files (item ∷ d) h = record {
  slack =
      rw (sym (merged_value files "finish__timing__setup__ws" (item ∷ d) h))
        (rw (sym (merged_value files "globalroute__timing__setup__ws" (item ∷ d) h)) refl);
  total_slack =
      rw (sym (merged_value files "finish__timing__setup__tns" (item ∷ d) h))
        (rw (sym (merged_value files "globalroute__timing__setup__tns" (item ∷ d) h)) refl);
  violations = rw (sym (merged_value files "detailedroute__route__drc_errors" (item ∷ d) h)) refl;
  area = rw (sym (merged_value files "floorplan__design__core__area" (item ∷ d) h)) refl;
  power = rw (sym (merged_value files "finish__power__total" (item ∷ d) h)) refl;
  complete = rw (sym (merged_value files "finish__timing__setup__ws" (item ∷ d) h)) refl;
}

-- Each metric is that of the last file by name that has its key, with the global router's slack
-- where no file has the final one; a flow is complete when there is a final slack.
pub parse-Reads :
    (scale : ℕ) (files : List (Text × FileText)) (ppa : PpaMetrics) (stage_metrics : Dict)
    → parse_ppa_metrics scale (some files) ≡ some (ppa, stage_metrics)
    → Reads scale files ppa
unfolding parse_ppa_metrics
parse-Reads scale files ppa stage_metrics h =
    go (merge_files (by_name files) []) refl (mapped-Reads scale files)
  where
    go :
        (o : Option Dict)
        → merge_files (by_name files) [] ≡ o
        → ((merged : Dict)
            → merge_files (by_name files) [] ≡ some merged
            → Reads scale files (mapped scale merged).0)
        → Reads scale files ppa
    go none e reads = absurd (ground arith)
    go (some merged) e reads = subst (Reads scale files) (ground arith) (reads merged e)

-- The bytes of a file are UTF-8.
abbrev pub Decodable : Text × FileText → Type 0
Decodable (name, object d) = Unit {0}
Decodable (name, skipped) = Unit {0}
Decodable (name, undecodable) = ⊥

merge_total :
    (files : List (Text × FileText)) (d : Dict)
    → All Decodable files
    → (merged : Dict) × (merge_files files d ≡ some merged)
unfolding merge_files
merge_total [] d h = (d, refl)
merge_total ((name, object o) ∷ files) d (hf, h) = merge_total files (update_dict d o) h
merge_total ((name, skipped) ∷ files) d (hf, h) = merge_total files d h
merge_total ((name, undecodable) ∷ files) d (hf, h) = absurd hf

-- Files of which none breaks the decoding are parsed. Each metric is that of the last file by name
-- that has its key, with the global router's slack where no file has the final one, and with 0 for
-- the DRC errors where no file counts them; a flow is complete when there is a final slack.
pub parse_total :
    (scale : ℕ) (files : List (Text × FileText))
    → All Decodable files
    → (ppa : PpaMetrics) × (stage_metrics : Dict) × (parse_ppa_metrics scale (some files)
        ≡ some (ppa, stage_metrics))
      × Reads scale files ppa
unfolding parse_ppa_metrics
parse_total scale files h =
    let (merged, e) =
      merge_total (by_name files) []
        (All-order_by Decodable (λ (f g : Text × FileText). le_text f.0 g.0) files h) in
    let parsed : parse_ppa_metrics scale (some files) ≡ some (mapped scale merged) = rw e refl in
    ((mapped scale merged).0, (mapped scale merged).1, parsed, mapped-Reads scale files merged e)

-- `{"metric": metric, "op": op, "value": value}`
abbrev pub gate : String → String → ℤ → Rule
gate metric op value = record {
  metric = some metric;
  op = some op;
  value = some value;
  points = none;
  partial = none;
}

-- When the parsed files count no DRC errors and have no slack, the hard gate that asks for no DRC
-- violations is passed, and every gate on the slack fails.
pub unrouted_passes :
    (scale : ℕ) (files : List (Text × FileText)) (ppa : PpaMetrics) (stage_metrics : Dict)
    → parse_ppa_metrics scale (some files) ≡ some (ppa, stage_metrics)
    → last_value "detailedroute__route__drc_errors" (by_name files) ≡ none
    → last_value "finish__timing__setup__ws" (by_name files) ≡ none
    → last_value "globalroute__timing__setup__ws" (by_name files) ≡ none
    → (hard_result (ppa_column scale ppa) (gate "drc_violations" "eq" (pos 0))
        ≡ some (record {
          metric = "drc_violations";
          op = "eq";
          threshold = pos 0;
          actual = some (pos 0);
          passed = true;
        }))
      × ((op : String) (value : ℤ)
          → hard_result (ppa_column scale ppa) (gate "worst_negative_slack" op value)
            ≡ some (record {
              metric = "worst_negative_slack";
              op = op;
              threshold = value;
              actual = none;
              passed = false;
            }))
unfolding hard_result metric_of lookup compare_metric
unrouted_passes scale files ppa stage_metrics h drc final route =
    let reads = parse-Reads scale files ppa stage_metrics h in
    let zero_violations : ppa.drc_violations ≡ pos 0 = ground (arith, reads.violations) in
    let no_slack : ppa.worst_negative_slack ≡ none = ground (arith, reads.slack) in
    (rw zero_violations refl, λ op value. rw no_slack refl)
