-- ===== src/Grading.antt =====
-- Checkpoint grading: the pure part of worker/tasks/checkpoint_eval.py.
-- `none` is a `KeyError`: `checkpoint_rules` is stored as the instructor sent it, unvalidated.
-- A partial config holds no keys but `threshold` and `points`, so it is falsy if it lacks both.
pub mod Scores
pub mod Bounds
pub mod Totality
use chipatelier.Prelude.{
  String, Bool, true, false, not, ◌&&◌, ◌||◌, Option, none, some, List, [], ◌∷◌, ◌++◌, str_eq,
  lookup, is_some, or_else, if◌then◌else◌,
}
use chipatelier.Prelude.Int.{ℤ, pos, ltb_ℤ, leb_ℤ, eqb_ℤ, ◌+ℤ◌}
use chipatelier.Prelude.Partial.{◌>>=◌}
use chipatelier.Model.{Ppa, Partial, Rule, Rules, HardResult, ScoredResult, CheckpointResults}

-- `ppa.get(metric)`
unfoldable pub metric_of : Ppa → String → Option ℤ
metric_of ppa metric = elim (lookup metric ppa) [ none ↦ none | some v ↦ v ]

-- `_compare`; an unknown operator compares as false
unfoldable pub compare_metric : Option ℤ → String → ℤ → Bool
compare_metric none op threshold = false
compare_metric (some actual) op threshold =
    if str_eq op "eq"
    then eqb_ℤ actual threshold
    else if str_eq op "gte"
    then leb_ℤ threshold actual
    else if str_eq op "lte"
    then leb_ℤ actual threshold
    else if str_eq op "gt"
    then ltb_ℤ threshold actual
    else if str_eq op "lt"
    then ltb_ℤ actual threshold
    else false

-- One round of the loop over the hard gates.
unfoldable pub hard_result : Ppa → Rule → Option HardResult
hard_result ppa rule = do
  metric ← rule.metric
  op ← rule.op
  threshold ← rule.value
  some (record {
    metric = metric;
    op = op;
    threshold = threshold;
    actual = metric_of ppa metric;
    passed = compare_metric (metric_of ppa metric) op threshold;
  })

unfoldable pub hard_loop :
    Ppa → List Rule → List HardResult → Bool → Option (List HardResult × Bool)
hard_loop ppa [] results gate_passed = some (results, gate_passed)
hard_loop ppa (rule ∷ rules) results gate_passed = do
  result ← hard_result ppa rule
  hard_loop ppa rules (results ++ result ∷ []) (if not result.passed then false else gate_passed)

-- The partial credit branch: what is awarded, and whether it is partial credit.
unfoldable pub partial_award : Option ℤ → String → Option Partial → Option (ℤ × Bool)
partial_award (some actual) op (some config) =
    if is_some config.threshold || is_some config.points
    then (do
      threshold ← config.threshold
      if compare_metric (some actual) op threshold
          then (do points ← config.points; some (points, true))
          else some (pos 0, false))
    else some (pos 0, false)
partial_award actual op config = some (pos 0, false)

unfoldable pub award : Option ℤ → String → ℤ → ℤ → Option Partial → Option (ℤ × Bool)
unfolding partial_award
award actual op threshold max_points config =
    if compare_metric actual op threshold
    then some (max_points, false)
    else partial_award actual op config

-- One round of the loop over the scored criteria.
unfoldable pub scored_result : Ppa → Rule → Option ScoredResult
scored_result ppa rule = do
  metric ← rule.metric
  op ← rule.op
  threshold ← rule.value
  awarded ← award (metric_of ppa metric) op threshold (or_else rule.points (pos 0)) rule.partial
  some (record {
    metric = metric;
    op = op;
    threshold = threshold;
    actual = metric_of ppa metric;
    passed = compare_metric (metric_of ppa metric) op threshold;
    awarded = awarded.0;
    max_points = or_else rule.points (pos 0);
    partial_credit = awarded.1;
  })

unfoldable pub scored_loop :
    Ppa → Bool → List Rule → List ScoredResult → ℤ → Option (List ScoredResult × ℤ)
scored_loop ppa gate_passed [] results total = some (results, total)
scored_loop ppa gate_passed (rule ∷ rules) results total = do
  result ← scored_result ppa rule
  scored_loop ppa gate_passed rules (results ++ result ∷ [])
      (if gate_passed then total +ℤ result.awarded else total)

unfoldable pub evaluate_checkpoint_rules : Ppa → Rules → Option (CheckpointResults × ℤ)
evaluate_checkpoint_rules ppa rules = do
  (hard, gate_passed) ← hard_loop ppa rules.hard [] true
  (scored, total) ← scored_loop ppa gate_passed rules.scored [] (pos 0)
  some (
    record { hard = hard; scored = scored; hard_gate_blocked = not gate_passed },
    if not gate_passed then pos 0 else total,
  )
