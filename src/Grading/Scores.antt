-- ===== src/Grading/Scores.antt =====
-- What `evaluate_checkpoint_rules` reports and awards.
use chipatelier.Prelude.{
  ◌≡◌, refl, Bool, true, false, not, ◌&&◌, Option, some, List, [], ◌∷◌, ◌++◌, arith, if◌then◌else◌,
}
use chipatelier.Prelude.Int.{ℤ, pos, ◌+ℤ◌, +ℤ_assoc, zero-+ℤ, +ℤ-zero}
use chipatelier.Prelude.Partial.{>>=-eq-some}
use chipatelier.Model.{Ppa, Rule, Rules, HardResult, ScoredResult, CheckpointResults}
use chipatelier.Grading.{
  hard_result, hard_loop, scored_result, scored_loop, evaluate_checkpoint_rules,
}

unfoldable pub all_passed : List HardResult → Bool
all_passed [] = true
all_passed (r ∷ rs) = r.passed && all_passed rs

unfoldable pub sum_awarded : List ScoredResult → ℤ
sum_awarded [] = pos 0
sum_awarded (r ∷ rs) = r.awarded +ℤ sum_awarded rs

all_passed-concat :
    (rs : List HardResult) (r : HardResult)
    → all_passed (rs ++ r ∷ []) ≡ (if not r.passed then false else all_passed rs)
unfolding all_passed
all_passed-concat [] r = ground arith
all_passed-concat (q ∷ rs) r = ground (arith, all_passed-concat rs r)

sum_awarded-concat :
    (rs : List ScoredResult) (r : ScoredResult)
    → sum_awarded (rs ++ r ∷ []) ≡ sum_awarded rs +ℤ r.awarded
unfolding sum_awarded
sum_awarded-concat [] r = rw (zero-+ℤ, +ℤ-zero)
sum_awarded-concat (q ∷ rs) r = rw (sum_awarded-concat rs r, +ℤ_assoc)

hard_loop_gate :
    (ppa : Ppa) (rules : List Rule) (acc : List HardResult) (g : Bool) {rs : List HardResult}
    {g' : Bool}
    → g ≡ all_passed acc
    → hard_loop ppa rules acc g ≡ some (rs, g')
    → g' ≡ all_passed rs
unfolding hard_loop
hard_loop_gate ppa [] acc g h e = cc
hard_loop_gate ppa (rule ∷ rules) acc g h e =
    let (r, _, e') = >>=-eq-some (hard_result ppa rule) _ e in
    hard_loop_gate ppa rules (acc ++ r ∷ []) _ (ground (arith, all_passed-concat acc r)) e'

scored_loop_total :
    (ppa : Ppa) (g : Bool) (rules : List Rule) (acc : List ScoredResult) (t : ℤ)
    {rs : List ScoredResult} {t' : ℤ}
    → t ≡ (if g then sum_awarded acc else pos 0)
    → scored_loop ppa g rules acc t ≡ some (rs, t')
    → t' ≡ (if g then sum_awarded rs else pos 0)
unfolding scored_loop
scored_loop_total ppa g [] acc t h e = ground arith
scored_loop_total ppa g (rule ∷ rules) acc t h e =
    let (r, _, e') = >>=-eq-some (scored_result ppa rule) _ e in
    scored_loop_total ppa g rules (acc ++ r ∷ []) _ (ground (arith, sum_awarded-concat acc r)) e'

sum_awarded_start : (g : Bool) → pos 0 ≡ (if g then sum_awarded [] else pos 0)
unfolding sum_awarded
sum_awarded_start true = refl
sum_awarded_start false = refl

-- The end of the evaluation, from what the two loops established.
assemble_score :
    (hard : List HardResult) (g : Bool) (scored : List ScoredResult) (t : ℤ)
    {results : CheckpointResults} {score : ℤ}
    → g ≡ all_passed hard
    → t ≡ (if g then sum_awarded scored else pos 0)
    → ◌≡◌ {A = Option (CheckpointResults × ℤ)}
        (some (
          record { hard = hard; scored = scored; hard_gate_blocked = not g },
          if not g then pos 0 else t,
        ))
        (some (results, score))
    → (results.hard_gate_blocked ≡ not (all_passed results.hard))
      × (score ≡ (if all_passed results.hard then sum_awarded results.scored else pos 0))
assemble_score hard g scored t hg ht e = ground arith

-- Whatever the metrics and the rules: if the evaluation raises no `KeyError`, a submission is
-- reported as blocked exactly if some hard gate failed, and its score is the sum of what the
-- scored criteria awarded if all hard gates passed, and zero if not.
pub evaluate_score :
    (ppa : Ppa) (rules : Rules) (results : CheckpointResults) (score : ℤ)
    → evaluate_checkpoint_rules ppa rules ≡ some (results, score)
    → (results.hard_gate_blocked ≡ not (all_passed results.hard))
      × (score ≡ (if all_passed results.hard then sum_awarded results.scored else pos 0))
unfolding evaluate_checkpoint_rules all_passed
evaluate_score ppa rules results score e =
    let ((hard, g), eh, e₁) = >>=-eq-some (hard_loop ppa rules.hard [] true) _ e in
    let ((scored, t), es, e₂) = >>=-eq-some (scored_loop ppa g rules.scored [] (pos 0)) _ e₁ in
    assemble_score hard g scored t (hard_loop_gate ppa rules.hard [] true refl eh)
      (scored_loop_total ppa g rules.scored [] (pos 0) (sum_awarded_start g) es) e₂
