-- ===== src/Grading/Bounds.antt =====
-- The range of a score, and the rules for which the evaluation raises no `KeyError`.
use chipatelier.Prelude.{
  ◌≡◌, not, Bool, true, false, String, Option, none, some, List, [], ◌∷◌, ◌++◌, arith, or_else,
  if◌then◌else◌, All,
}
use chipatelier.Prelude.Int.{ℤ, pos, ◌+ℤ◌, ◌≤ℤ◌, int_laws}
use chipatelier.Prelude.Partial.{>>=-eq-some}
use chipatelier.Model.{Ppa, Partial, Rule, Rules, ScoredResult, CheckpointResults}
use chipatelier.Grading.{
  metric_of, hard_loop, award, scored_result, scored_loop, evaluate_checkpoint_rules,
}

abbrev max_points : Rule → ℤ
max_points rule = or_else rule.points (pos 0)

abbrev partial_points : Option Partial → ℤ
partial_points none = pos 0
partial_points (some p) = or_else p.points (pos 0)

-- No points are negative, and partial credit is at most full credit.
abbrev pub IsFair : Rule → Type 0
IsFair rule =
    (pos 0 ≤ℤ max_points rule)
    × (pos 0 ≤ℤ partial_points rule.partial)
    × (partial_points rule.partial ≤ℤ max_points rule)

abbrev pub max_total : List Rule → ℤ
max_total [] = pos 0
max_total (rule ∷ rules) = max_points rule +ℤ max_total rules

award_bounds :
    (actual : Option ℤ) (op : String) (t m : ℤ) (p : Option Partial) {r : ℤ × Bool}
    → pos 0 ≤ℤ m
    → pos 0 ≤ℤ partial_points p
    → partial_points p ≤ℤ m
    → award actual op t m p ≡ some r
    → (pos 0 ≤ℤ r.0) × (r.0 ≤ℤ m)
unfolding award
award_bounds actual op t m p hm hp hpm e = ground arith

scored_result_bounds :
    (ppa : Ppa) (rule : Rule) {r : ScoredResult}
    → IsFair rule
    → scored_result ppa rule ≡ some r
    → (pos 0 ≤ℤ r.awarded) × (r.awarded ≤ℤ max_points rule)
unfolding scored_result
scored_result_bounds ppa rule {r = r} (hm, hp, hpm) e =
    let (metric, _, e₁) = >>=-eq-some rule.metric _ e in
    let (op, _, e₂) = >>=-eq-some rule.op _ e₁ in
    let (t, _, e₃) = >>=-eq-some rule.value _ e₂ in
    let (a, ea, e₄) =
      >>=-eq-some (award (metric_of ppa metric) op t (max_points rule) rule.partial) _ e₃ in
    within a (award_bounds (metric_of ppa metric) op t (max_points rule) rule.partial hm hp hpm ea)
      e₄
  where
    within :
        (a : ℤ × Bool) {metric op : String} {t : ℤ} {q : Option ℤ} {b : Bool}
        → (pos 0 ≤ℤ a.0) × (a.0 ≤ℤ max_points rule)
        → some (record {
          metric = metric;
          op = op;
          threshold = t;
          actual = q;
          passed = b;
          awarded = a.0;
          max_points = max_points rule;
          partial_credit = a.1;
        })
          ≡ some r
        → (pos 0 ≤ℤ r.awarded) × (r.awarded ≤ℤ max_points rule)
    within a (lo, hi) e = ground arith

scored_loop_bounds :
    (ppa : Ppa) (g : Bool) (rules : List Rule) (acc : List ScoredResult) (t : ℤ)
    {rs : List ScoredResult} {t' : ℤ}
    → All IsFair rules
    → scored_loop ppa g rules acc t ≡ some (rs, t')
    → (t ≤ℤ t') × (t' ≤ℤ t +ℤ max_total rules)
unfolding scored_loop
scored_loop_bounds ppa g [] acc t {t' = t'} h e =
    let same : t ≡ t' = cc in rw (← same) (omega int_laws)
scored_loop_bounds ppa true (rule ∷ rules) acc t (fair, h) e =
    let (r, er, e') = >>=-eq-some (scored_result ppa rule) _ e in
    let (lo, hi) = scored_result_bounds ppa rule fair er in
    let (lo', hi') = scored_loop_bounds ppa true rules (acc ++ r ∷ []) (t +ℤ r.awarded) h e' in
    omega int_laws
scored_loop_bounds ppa false (rule ∷ rules) acc t (fair, h) e =
    let (r, er, e') = >>=-eq-some (scored_result ppa rule) _ e in
    let (lo', hi') = scored_loop_bounds ppa false rules (acc ++ r ∷ []) t h e' in omega int_laws

max_total_nonneg : (rules : List Rule) → All IsFair rules → pos 0 ≤ℤ max_total rules
max_total_nonneg [] h = omega arith
max_total_nonneg (rule ∷ rules) (fair, h) = omega (int_laws, max_total_nonneg rules h)

blocked_or_total :
    (g : Bool) (t top : ℤ) {r results : CheckpointResults} {score : ℤ}
    → pos 0 ≤ℤ t
    → t ≤ℤ top
    → pos 0 ≤ℤ top
    → ◌≡◌ {A = Option (CheckpointResults × ℤ)}
        (some (r, if not g then pos 0 else t))
        (some (results, score))
    → (pos 0 ≤ℤ score) × (score ≤ℤ top)
blocked_or_total g t top lo hi h e = ground arith

-- If no points are negative and partial credit is at most full credit, a score lies between zero
-- and the sum of the points of all scored criteria.
pub score_bounds :
    (ppa : Ppa) (rules : Rules) (results : CheckpointResults) (score : ℤ)
    → All IsFair rules.scored
    → evaluate_checkpoint_rules ppa rules ≡ some (results, score)
    → (pos 0 ≤ℤ score) × (score ≤ℤ max_total rules.scored)
unfolding evaluate_checkpoint_rules
score_bounds ppa rules results score h e =
    let ((hard, g), eh, e₁) = >>=-eq-some (hard_loop ppa rules.hard [] true) _ e in
    let ((scored, t), es, e₂) = >>=-eq-some (scored_loop ppa g rules.scored [] (pos 0)) _ e₁ in
    let (lo, hi) = scored_loop_bounds ppa g rules.scored [] (pos 0) h es in
    let top = max_total_nonneg rules.scored h in
    blocked_or_total g t (max_total rules.scored) lo (omega int_laws) top e₂
