-- ===== src/Submissions/Best.antt =====
-- What the maximum of the scores of some submissions is.
use chipatelier.Prelude.{
  ◌≡◌, refl, inl, inr, any, All-mono, Bool-cases, subst, true, Option, none, some, List, [], ◌∷◌,
  arith, All,
}
use chipatelier.Prelude.Int.{ℤ, ◌≤ℤ◌, leb_ℤ, int_laws}
use chipatelier.Model.{Submission}
use chipatelier.Submissions.{max_score, best_score, scores_equal}

-- NULL is no score.
abbrev pub AtMost : ℤ → Option ℤ → Type 0
AtMost t none = Unit {0}
AtMost t (some u) = u ≤ℤ t

AtMost-mono : (m t : ℤ) (o : Option ℤ) → m ≤ℤ t → AtMost m o → AtMost t o
AtMost-mono m t none h p = tt
AtMost-mono m t (some u) h p = omega int_laws

best_score-none :
    (ss : List Submission) → best_score ss ≡ none → All (λ (s : Submission). s.score ≡ none) ss
unfolding best_score
best_score-none [] h = tt
best_score-none (s ∷ ss) h = go s.score (best_score ss) refl refl (best_score-none ss) h
  where
    go :
        (o b : Option ℤ)
        → s.score ≡ o
        → best_score ss ≡ b
        → (best_score ss ≡ none → All (λ (x : Submission). x.score ≡ none) ss)
        → max_score o b ≡ none
        → All (λ (x : Submission). x.score ≡ none) (s ∷ ss)
    go none none e q ih k = (e, ih q)
    go none (some t) e q ih k = absurd (ground arith)
    go (some u) none e q ih k = absurd (ground arith)
    go (some u) (some t) e q ih k = absurd (ground arith)

-- The maximum bounds every score, and is one.
pub best_score-some :
    (ss : List Submission) (t : ℤ)
    → best_score ss ≡ some t
    → All (λ (s : Submission). AtMost t s.score) ss
      × (any (λ (s : Submission). scores_equal s.score (some t)) ss ≡ true)
unfolding best_score any
best_score-some [] t h = absurd (ground arith)
best_score-some (s ∷ ss) t h = go s.score (best_score ss) refl refl (best_score-some ss) h
  where
    go :
        (o b : Option ℤ)
        → s.score ≡ o
        → best_score ss ≡ b
        → ((m : ℤ)
            → best_score ss ≡ some m
            → All (λ (x : Submission). AtMost m x.score) ss
              × (any (λ (x : Submission). scores_equal x.score (some m)) ss ≡ true))
        → max_score o b ≡ some t
        → All (λ (x : Submission). AtMost t x.score) (s ∷ ss)
          × (any (λ (x : Submission). scores_equal x.score (some t)) (s ∷ ss) ≡ true)
    go none none e q ih k = absurd (ground arith)
    go none (some m) e q ih k =
        let (bound, attained) = ih t (ground arith) in ((rw e tt, bound), ground (arith, attained))
    go (some u) none e q ih k = (
      (
        rw e (ground arith),
        All-mono ss (λ (x : Submission) no_score. rw no_score tt) (best_score-none ss q),
      ),
      ground arith,
    )
    go (some u) (some m) e q ih k =
        let (bound, attained) = ih m q in
        elim (Bool-cases (leb_ℤ u m)) [
          | inl below ↦
              let same : m ≡ t = ground arith in
              (
                (
                  rw e (ground arith),
                  subst (λ n. All (λ (x : Submission). AtMost n x.score) ss) same bound,
                ),
                ground (arith, attained, same),
              )
          | inr above ↦
              let same : u ≡ t = ground arith in
              (
                (
                  rw e (ground arith),
                  All-mono ss
                      (λ (x : Submission) (p : AtMost m x.score).
                        AtMost-mono m t x.score (ground arith) p)
                      bound,
                ),
                ground (arith, same),
              )
        ]
