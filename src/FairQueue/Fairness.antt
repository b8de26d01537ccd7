-- ===== src/FairQueue/Fairness.antt =====
-- Lower scores first: what a drain of the queue sends, and what it leaves.
use chipatelier.Prelude.{
  ℕ, zero, suc, ◌≤◌, ◌≡◌, refl, sym, ap, ◌∙◌, ◌⊎◌, inl, inr, Option, none, some, [], ◌∷◌, arith,
  ◌==◌, if◌then◌else◌, length, any, All, All-mono,
}
use chipatelier.FairQueue.Store.{Redis}
use chipatelier.FairQueue.{run_of, claim_next_job, claim_jobs}

module _ (R : Redis) where
  open R use {
    Store, score, zpopmin, popped_score, popped_min, popped_rest, none_popped, popped_none,
  }

  run_of-some : (o : Option (ℕ × ℕ)) (m : ℕ) → run_of o ≡ some m → (s : ℕ) × (o ≡ some (m, s))
  run_of-some none m e = cc
  run_of-some (some (m', s)) m e = let same : m' ≡ m = cc in (s, rw same)

  run_of-none : (o : Option (ℕ × ℕ)) → run_of o ≡ none → o ≡ none
  run_of-none none e = refl
  run_of-none (some p) e = cc

  -- A claim takes a run with the lowest score out of the queue and leaves the others as they are.
  pub claim-some :
      (r : Store) (m : ℕ)
      → (claim_next_job R r).0 ≡ some m
      → (s : ℕ) × (score r m ≡ some s)
        × ((k t : ℕ) → score r k ≡ some t → s ≤ t)
        × ((k : ℕ) → score (claim_next_job R r).1 k ≡ (if m == k then none else score r k))
  unfolding claim_next_job
  claim-some r m e =
      let (s, p) = run_of-some (zpopmin r).0 m e in
      (s, popped_score r m s p, λ k t. popped_min r m s k t p, λ k. popped_rest r m s k p)

  claim-none :
      (r : Store) (k : ℕ)
      → (claim_next_job R r).0 ≡ none
      → (score r k ≡ none) × (score (claim_next_job R r).1 k ≡ none)
  unfolding claim_next_job
  claim-none r k e = let p = run_of-none (zpopmin r).0 e in (none_popped r k p, popped_none r k p)

  -- Two rounds of the loop: a claim, and the end of the queue.
  claim_jobs-some :
      (n : ℕ) (r : Store) (m : ℕ)
      → (claim_next_job R r).0 ≡ some m
      → claim_jobs R (suc n) r
        ≡ (m ∷ (claim_jobs R n (claim_next_job R r).1).0, (claim_jobs R n (claim_next_job R r).1).1)
  unfolding claim_jobs
  claim_jobs-some n r m e = rw (e, claim_jobs)

  claim_jobs-none :
      (n : ℕ) (r : Store)
      → (claim_next_job R r).0 ≡ none
      → claim_jobs R (suc n) r ≡ ([], (claim_next_job R r).1)
  unfolding claim_jobs
  claim_jobs-none n r e = rw (e, claim_jobs)

  -- A loop that claimed fewer runs than it might have has emptied the queue.
  pub claim_jobs-length :
      (n : ℕ) (r : Store)
      → (length (claim_jobs R n r).0 ≡ n)
        ⊎ ((length (claim_jobs R n r).0 ≤ n) × ((k : ℕ) → score (claim_jobs R n r).1 k ≡ none))
  unfolding claim_jobs
  claim_jobs-length zero r = inl refl
  claim_jobs-length (suc n) r =
      go (claim_next_job R r).0 refl (claim_jobs-length n (claim_next_job R r).1)
    where
      go :
          (c : Option ℕ)
          → (claim_next_job R r).0 ≡ c
          → (length (claim_jobs R n (claim_next_job R r).1).0 ≡ n)
            ⊎ ((length (claim_jobs R n (claim_next_job R r).1).0 ≤ n)
                × ((k : ℕ) → score (claim_jobs R n (claim_next_job R r).1).1 k ≡ none))
          → (length (claim_jobs R (suc n) r).0 ≡ suc n)
            ⊎ ((length (claim_jobs R (suc n) r).0 ≤ suc n)
                × ((k : ℕ) → score (claim_jobs R (suc n) r).1 k ≡ none))
      go none e ih = rw (claim_jobs-none n r e) (inr (omega arith, λ k. (claim-none r k e).1))
      go (some m) e (inl full) = rw (claim_jobs-some n r m e) (inl (ap suc full))
      go (some m) e (inr (l, h)) = rw (claim_jobs-some n r m e) (inr (omega arith, h))

  -- What is claimed leaves the queue, and nothing else changes.
  pub claim_jobs_rest :
      (n : ℕ) (r : Store) (k : ℕ)
      → score (claim_jobs R n r).1 k
        ≡ (if any (λ m. m == k) (claim_jobs R n r).0 then none else score r k)
  unfolding claim_jobs any
  claim_jobs_rest zero r k = refl
  claim_jobs_rest (suc n) r k =
      go (claim_next_job R r).0 refl (claim_jobs_rest n (claim_next_job R r).1 k)
    where
      go :
          (c : Option ℕ)
          → (claim_next_job R r).0 ≡ c
          → score (claim_jobs R n (claim_next_job R r).1).1 k ≡ (
              if any (λ m. m == k) (claim_jobs R n (claim_next_job R r).1).0
              then none
              else score (claim_next_job R r).1 k)
          → score (claim_jobs R (suc n) r).1 k
            ≡ (if any (λ m. m == k) (claim_jobs R (suc n) r).0 then none else score r k)
      go none e ih =
          let (gone, left) = claim-none r k e in rw (claim_jobs-none n r e) (left ∙ sym gone)
      go (some m) e ih = rw (claim_jobs-some n r m e) (ground (arith, ih, (claim-some r m e).3 k))

  -- Before one claim a run had the score that it has after it.
  score-before_claim :
      (r : Store) (m k t : ℕ)
      → (claim_next_job R r).0 ≡ some m
      → score (claim_next_job R r).1 k ≡ some t
      → score r k ≡ some t
  score-before_claim r m k t e h = ground (arith, (claim-some r m e).3 k)

  score-before_claims :
      (n : ℕ) (r : Store) (k t : ℕ) → score (claim_jobs R n r).1 k ≡ some t → score r k ≡ some t
  score-before_claims n r k t h = ground (arith, claim_jobs_rest n r k)

  abbrev pub AtMost : Store → ℕ → ℕ → Type 0
  AtMost r t m = (s : ℕ) × (score r m ≡ some s) × (s ≤ t)

  pub claim_jobs_fair :
      (n : ℕ) (r : Store) (k t : ℕ)
      → score (claim_jobs R n r).1 k ≡ some t
      → All (AtMost r t) (claim_jobs R n r).0
  unfolding claim_jobs
  claim_jobs_fair zero r k t h = tt
  claim_jobs_fair (suc n) r k t h =
      go (claim_next_job R r).0 refl (claim_jobs_fair n (claim_next_job R r).1 k t) h
    where
      go :
          (c : Option ℕ)
          → (claim_next_job R r).0 ≡ c
          → (score (claim_jobs R n (claim_next_job R r).1).1 k ≡ some t
              → All (AtMost (claim_next_job R r).1 t) (claim_jobs R n (claim_next_job R r).1).0)
          → score (claim_jobs R (suc n) r).1 k ≡ some t
          → All (AtMost r t) (claim_jobs R (suc n) r).0
      go none e ih h = rw (claim_jobs-none n r e) tt
      go (some m) e ih h =
          let h' = (rw (claim_jobs-some n r m e) at h) in
          let (s, here, least, rest) = claim-some r m e in
          let before = score-before_claims n (claim_next_job R r).1 k t h' in
          rw (claim_jobs-some n r m e) (
            (s, here, least k t (score-before_claim r m k t e before)),
            All-mono (claim_jobs R n (claim_next_job R r).1).0
                (λ m' q. (q.0, score-before_claim r m m' q.0 e q.1, q.2)) (ih h'),
          )
