-- ===== src/Grading/Totality.antt =====
-- The rules for which the evaluation raises no `KeyError`.
use chipatelier.Prelude.{
  ◌≡◌, ◌≢◌, Bool, true, String, Option, none, some, List, [], ◌∷◌, ◌++◌, arith, is_some, or_else,
  All,
}
use chipatelier.Prelude.Int.{ℤ, pos}
use chipatelier.Prelude.Partial.{>>=-ne-none, >>=-inv, ne_none}
use chipatelier.Model.{Ppa, Partial, Rule, Rules, HardResult, ScoredResult}
use chipatelier.Grading.{
  metric_of, hard_result, hard_loop, award, scored_result, scored_loop, evaluate_checkpoint_rules,
}

-- The three keys that every rule must have.
abbrev pub HasKeys : Rule → Type 0
HasKeys rule = (rule.metric ≢ none) × (rule.op ≢ none) × (rule.value ≢ none)

-- A partial config has both of its keys, or neither.
abbrev BothOrNeither : Option Partial → Type 0
BothOrNeither none = Unit {0}
BothOrNeither (some p) = is_some p.threshold ≡ is_some p.points

abbrev pub HasPartialKeys : Rule → Type 0
HasPartialKeys rule = BothOrNeither rule.partial

award_total :
    (actual : Option ℤ) (op : String) (t m : ℤ) (p : Option Partial)
    → BothOrNeither p
    → award actual op t m p ≢ none
unfolding award
award_total actual op t m none h e = ground arith
award_total actual op t m (some p) h e = ground arith

hard_result_total : (ppa : Ppa) (rule : Rule) → HasKeys rule → hard_result ppa rule ≢ none
unfolding hard_result
hard_result_total ppa rule (hm, ho, hv) =
    >>=-ne-none rule.metric _ hm
      λ _ _. >>=-ne-none rule.op _ ho (λ _ _. >>=-ne-none rule.value _ hv (λ _ _ e. cc))

scored_result_total :
    (ppa : Ppa) (rule : Rule) → HasKeys rule → HasPartialKeys rule → scored_result ppa rule ≢ none
unfolding scored_result
scored_result_total ppa rule (hm, ho, hv) hp = >>=-ne-none rule.metric _ hm λ metric _.
    >>=-ne-none rule.op _ ho λ op _. >>=-ne-none rule.value _ hv λ t _.
      >>=-ne-none (award (metric_of ppa metric) op t (or_else rule.points (pos 0)) rule.partial) _
        (award_total (metric_of ppa metric) op t (or_else rule.points (pos 0)) rule.partial hp)
        (λ _ _ e. cc)

hard_result-HasKeys : (ppa : Ppa) (rule : Rule) → hard_result ppa rule ≢ none → HasKeys rule
unfolding hard_result
hard_result-HasKeys ppa rule h =
    let (_, em, h₁) = >>=-inv rule.metric _ h in
    let (_, eo, h₂) = >>=-inv rule.op _ h₁ in
    let (_, ev, _) = >>=-inv rule.value _ h₂ in (ne_none em, ne_none eo, ne_none ev)

scored_result-HasKeys : (ppa : Ppa) (rule : Rule) → scored_result ppa rule ≢ none → HasKeys rule
unfolding scored_result
scored_result-HasKeys ppa rule h =
    let (_, em, h₁) = >>=-inv rule.metric _ h in
    let (_, eo, h₂) = >>=-inv rule.op _ h₁ in
    let (_, ev, _) = >>=-inv rule.value _ h₂ in (ne_none em, ne_none eo, ne_none ev)

hard_loop_total :
    (ppa : Ppa) (rules : List Rule) (acc : List HardResult) (g : Bool)
    → All HasKeys rules
    → hard_loop ppa rules acc g ≢ none
unfolding hard_loop
hard_loop_total ppa [] acc g h = λ e. cc
hard_loop_total ppa (rule ∷ rules) acc g (hr, h) =
    >>=-ne-none (hard_result ppa rule) _ (hard_result_total ppa rule hr)
      λ r _. hard_loop_total ppa rules (acc ++ r ∷ []) _ h

hard_loop-HasKeys :
    (ppa : Ppa) (rules : List Rule) (acc : List HardResult) (g : Bool)
    → hard_loop ppa rules acc g ≢ none
    → All HasKeys rules
unfolding hard_loop
hard_loop-HasKeys ppa [] acc g h = tt
hard_loop-HasKeys ppa (rule ∷ rules) acc g h =
    let (r, er, h') = >>=-inv (hard_result ppa rule) _ h in
    (hard_result-HasKeys ppa rule (ne_none er), hard_loop-HasKeys ppa rules (acc ++ r ∷ []) _ h')

scored_loop_total :
    (ppa : Ppa) (g : Bool) (rules : List Rule) (acc : List ScoredResult) (t : ℤ)
    → All HasKeys rules
    → All HasPartialKeys rules
    → scored_loop ppa g rules acc t ≢ none
unfolding scored_loop
scored_loop_total ppa g [] acc t h hp = λ e. cc
scored_loop_total ppa g (rule ∷ rules) acc t (hr, h) (pr, hp) =
    >>=-ne-none (scored_result ppa rule) _ (scored_result_total ppa rule hr pr)
      λ r _. scored_loop_total ppa g rules (acc ++ r ∷ []) _ h hp

scored_loop-HasKeys :
    (ppa : Ppa) (g : Bool) (rules : List Rule) (acc : List ScoredResult) (t : ℤ)
    → scored_loop ppa g rules acc t ≢ none
    → All HasKeys rules
unfolding scored_loop
scored_loop-HasKeys ppa g [] acc t h = tt
scored_loop-HasKeys ppa g (rule ∷ rules) acc t h =
    let (r, er, h') = >>=-inv (scored_result ppa rule) _ h in
    (
      scored_result-HasKeys ppa rule (ne_none er),
      scored_loop-HasKeys ppa g rules (acc ++ r ∷ []) _ h',
    )

-- If every hard and every scored rule has its metric, operator and value, and every partial config
-- of a scored rule has both of its keys or neither, the evaluation raises no `KeyError`.
pub evaluate_total :
    (ppa : Ppa) (rules : Rules)
    → All HasKeys rules.hard
    → All HasKeys rules.scored
    → All HasPartialKeys rules.scored
    → evaluate_checkpoint_rules ppa rules ≢ none
unfolding evaluate_checkpoint_rules
evaluate_total ppa rules hh hs hp =
    >>=-ne-none (hard_loop ppa rules.hard [] true) _ (hard_loop_total ppa rules.hard [] true hh)
      λ r _.
        >>=-ne-none (scored_loop ppa r.1 rules.scored [] (pos 0)) _
          (scored_loop_total ppa r.1 rules.scored [] (pos 0) hs hp) (λ _ _ e. cc)

-- If the evaluation raises no `KeyError`, every rule has its metric, operator and value.
pub evaluate-HasKeys :
    (ppa : Ppa) (rules : Rules)
    → evaluate_checkpoint_rules ppa rules ≢ none
    → All HasKeys rules.hard × All HasKeys rules.scored
unfolding evaluate_checkpoint_rules
evaluate-HasKeys ppa rules h =
    let (r, er, h₁) = >>=-inv (hard_loop ppa rules.hard [] true) _ h in
    let (q, eq, _) = >>=-inv (scored_loop ppa r.1 rules.scored [] (pos 0)) _ h₁ in
    (
      hard_loop-HasKeys ppa rules.hard [] true (ne_none er),
      scored_loop-HasKeys ppa r.1 rules.scored [] (pos 0) (ne_none eq),
    )
