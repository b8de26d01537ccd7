-- ===== src/Metrics.antt =====
-- The metrics of a run: backend/app/services/metrics_service.py.
-- The values of a file are numbers, scaled by `scale`, or null: no others are modelled.
pub mod Merge
pub mod Gate
use chipatelier.Prelude.{
  ℕ, zero, suc, ◌*◌, ◌/◌, String, Bool, true, false, Option, none, some, List, [], ◌∷◌, str_eq,
  lookup, order_by, if◌then◌else◌, is_some, or_else,
}
use chipatelier.Prelude.Int.{ℤ, pos, negsuc}
use chipatelier.Prelude.Text.{Text}
use chipatelier.Prelude.Partial.{◌>>=◌}
use chipatelier.Model.{Ppa}
use chipatelier.Projects.{le_text}

abbrev pub Dict : Type 0
Dict = List (String × Option ℤ)

-- What reading a file gives: an object, another value or no JSON (which is skipped, as is a file
-- that cannot be read), or bytes that are not UTF-8 (which nothing catches).
pub data FileText : Type 0 where
  object : Dict → FileText
  skipped undecodable : FileText

-- The pairs of platform and design that have a logs directory, and its files by name.
abbrev pub LogsDir : Type 0
LogsDir = Option (List (Text × FileText))

pub record PpaMetrics : Type 0 where
  pub worst_negative_slack : Option ℤ
  pub total_negative_slack : Option ℤ
  pub drc_violations : ℤ
  pub core_area : Option ℤ
  pub total_power : Option ℤ
  pub flow_complete : Bool

-- `d[key] = value`
abbrev pub set_item : String → Option ℤ → Dict → Dict
set_item key value [] = (key, value) ∷ []
set_item key value ((k, v) ∷ d) =
    let rest = set_item key value d in if str_eq k key then (k, value) ∷ d else (k, v) ∷ rest

-- `d.update(data)`
abbrev pub update_dict : Dict → Dict → Dict
update_dict d [] = d
update_dict d ((key, value) ∷ pairs) = update_dict (set_item key value d) pairs

-- `d.get(key, default)`
abbrev pub get_item : String → Option ℤ → Dict → Option ℤ
get_item key default d = or_else (lookup key d) default

-- `for json_file in sorted(…): …`
unfoldable pub merge_files : List (Text × FileText) → Dict → Option Dict
merge_files [] stage_metrics = some stage_metrics
merge_files ((name, object d) ∷ files) stage_metrics =
    merge_files files (update_dict stage_metrics d)
merge_files ((name, skipped) ∷ files) stage_metrics = merge_files files stage_metrics
merge_files ((name, undecodable) ∷ files) stage_metrics = none

abbrev pub default_ppa : PpaMetrics
default_ppa = record {
  worst_negative_slack = none;
  total_negative_slack = none;
  drc_violations = pos 0;
  core_area = none;
  total_power = none;
  flow_complete = false;
}

-- `int(x)`, towards zero
abbrev pub int_of : ℕ → ℤ → ℤ
int_of scale (pos n) = pos (n / scale * scale)
int_of scale (negsuc n) = elim (suc n / scale * scale) [ zero ↦ pos 0 | suc m ↦ negsuc m ]

-- `int(stage_metrics.get(…, 0) or 0)`
abbrev pub int_or_zero : ℕ → Option ℤ → ℤ
int_or_zero scale none = pos 0
int_or_zero scale (some v) = int_of scale v

-- `ppa.update({…})`
abbrev pub ppa_of : ℕ → Dict → PpaMetrics
ppa_of scale stage_metrics = record {
  worst_negative_slack =
      get_item "finish__timing__setup__ws"
        (get_item "globalroute__timing__setup__ws" none stage_metrics) stage_metrics;
  total_negative_slack =
      get_item "finish__timing__setup__tns"
        (get_item "globalroute__timing__setup__tns" none stage_metrics) stage_metrics;
  core_area = get_item "floorplan__design__core__area" none stage_metrics;
  drc_violations =
      int_or_zero scale (get_item "detailedroute__route__drc_errors" (some (pos 0)) stage_metrics);
  total_power = get_item "finish__power__total" none stage_metrics;
  flow_complete = is_some (get_item "finish__timing__setup__ws" none stage_metrics);
}

abbrev pub mapped : ℕ → Dict → PpaMetrics × Dict
mapped scale [] = (default_ppa, [])
mapped scale (item ∷ d) = (ppa_of scale (item ∷ d), item ∷ d)

-- `none` is an exception
unfoldable pub parse_ppa_metrics : ℕ → LogsDir → Option (PpaMetrics × Dict)
unfolding merge_files
parse_ppa_metrics scale none = some (default_ppa, [])
parse_ppa_metrics scale (some files) = do
  stage_metrics ← merge_files (order_by (λ (f g : Text × FileText). le_text f.0 g.0) files) []
  some (mapped scale stage_metrics)

-- The `ppa` column; `True` counts as one
abbrev pub ppa_column : ℕ → PpaMetrics → Ppa
ppa_column scale ppa =
    ("worst_negative_slack", ppa.worst_negative_slack)
    ∷ ("total_negative_slack", ppa.total_negative_slack)
    ∷ ("drc_violations", some ppa.drc_violations)
    ∷ ("core_area", ppa.core_area)
    ∷ ("total_power", ppa.total_power)
    ∷ ("flow_complete", some (if ppa.flow_complete then pos scale else pos 0))
    ∷ []
