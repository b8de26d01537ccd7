-- ===== src/FairQueue/Drain.antt =====
-- The fair queue as its callers see it: draining, enqueueing and releasing.
use chipatelier.Prelude.{
  ℕ, zero, suc, ◌+◌, ◌-◌, ◌≤◌, ◌≡◌, refl, ap, ◌∙◌, ◌⊎◌, inl, inr, Option, none, some, List, [], ◌∷◌,
  arith, ◌==◌, if◌then◌else◌, ltb, length, any, select, map, All,
}
use chipatelier.Model.{Run, Db, Message, run_orfs_job, is_executing}
use chipatelier.FairQueue.Store.{Redis}
use chipatelier.FairQueue.{
  get_student_queue_depth, enqueue_student_job, claim_next_job, release_student_slot, claim_jobs,
  drain_queue,
}
use chipatelier.FairQueue.Fairness.{
  AtMost, claim-some, claim_jobs-length, claim_jobs_rest, claim_jobs_fair,
}

-- How many runs are starting or running.
abbrev pub running_count : Db → ℕ
running_count db = length (select (λ (run : Run). is_executing run.status) db.runs)

length-map : (f : ℕ → Message) (xs : List ℕ) → length (map f xs) ≡ length xs
length-map f [] = refl
length-map f (x ∷ xs) = ap suc (length-map f xs)

module _ (R : Redis) where
  open R use {
    Store, score, get, score-zadd, score-incr, score-expire, get-incr, get-decr, get-zadd,
    get-expire,
  }

  -- A drain sends at most as many runs as there is room for beside those that are starting or
  -- running; if it sends fewer, it leaves the queue empty.
  pub drain_capacity :
      (max_jobs : ℕ) (db : Db) (r : Store)
      → (length (drain_queue R max_jobs db r).0 ≤ max_jobs - running_count db)
        × ((length (drain_queue R max_jobs db r).0 ≡ max_jobs - running_count db)
            ⊎ ((k : ℕ) → score (drain_queue R max_jobs db r).1 k ≡ none))
  unfolding drain_queue
  drain_capacity max_jobs db r =
      go (length-map run_orfs_job (claim_jobs R room r).0) (claim_jobs-length R room r)
    where
      room : ℕ
      room = max_jobs - running_count db

      go :
          length (map run_orfs_job (claim_jobs R room r).0) ≡ length (claim_jobs R room r).0
          → (length (claim_jobs R room r).0 ≡ room)
            ⊎ ((length (claim_jobs R room r).0 ≤ room)
                × ((k : ℕ) → score (claim_jobs R room r).1 k ≡ none))
          → (length (map run_orfs_job (claim_jobs R room r).0) ≤ room)
            × ((length (map run_orfs_job (claim_jobs R room r).0) ≡ room)
                ⊎ ((k : ℕ) → score (claim_jobs R room r).1 k ≡ none))
      go e (inl full) = (omega arith, inl (e ∙ full))
      go e (inr (l, h)) = (omega arith, inr h)

  -- A drain sends each run that it claims to the worker. Every claimed run had a score that is at
  -- most the score of each run that is left; the claimed runs leave the queue, and the others keep
  -- their scores.
  pub drain_fair :
      (max_jobs : ℕ) (db : Db) (r : Store)
      → (claimed : List ℕ) × ((drain_queue R max_jobs db r).0 ≡ map run_orfs_job claimed)
        × ((k t : ℕ)
            → score (drain_queue R max_jobs db r).1 k ≡ some t
            → All (AtMost R r t) claimed)
        × ((k : ℕ)
            → score (drain_queue R max_jobs db r).1 k
              ≡ (if any (λ m. m == k) claimed then none else score r k))
  unfolding drain_queue
  drain_fair max_jobs db r =
      let room = max_jobs - running_count db in
      ((claim_jobs R room r).0, refl, claim_jobs_fair R room r, claim_jobs_rest R room r)

  -- Enqueueing gives the run the student's depth as its score and raises that depth by one; it
  -- changes neither another run's score nor another student's depth.
  pub enqueue_lem :
      (student_id run_id : ℕ) (r : Store)
      → ((enqueue_student_job R student_id run_id r).0 ≡ get_student_queue_depth R student_id r)
        × ((k : ℕ)
            → score (enqueue_student_job R student_id run_id r).1 k
              ≡ (if run_id == k then some (get_student_queue_depth R student_id r) else score r k))
        × ((k : ℕ)
            → get_student_queue_depth R k (enqueue_student_job R student_id run_id r).1 ≡ (
                if student_id == k
                then get_student_queue_depth R k r + 1
                else get_student_queue_depth R k r))
  unfolding enqueue_student_job get_student_queue_depth
  enqueue_lem student_id run_id r = (
    refl,
    λ k. simp (score-expire, score-incr, score-zadd),
    λ k. simp (get-expire, get-incr, get-zadd) (ground arith),
  )

  -- A student who has nothing queued is served before every run that waits behind another of its
  -- owner: after the enqueueing the next claim is the new run, or one whose score is zero.
  pub newcomer_first :
      (student_id run_id m : ℕ) (r : Store)
      → get_student_queue_depth R student_id r ≡ 0
      → (claim_next_job R (enqueue_student_job R student_id run_id r).1).0 ≡ some m
      → (m ≡ run_id) ⊎ (score r m ≡ some 0)
  newcomer_first student_id run_id m r fresh e =
      let r' = (enqueue_student_job R student_id run_id r).1 in
      let (_, scores, _) = enqueue_lem student_id run_id r in
      let (s, here, least, _) = claim-some R r' m e in
      let first : s ≤ 0 = least run_id 0 (ground (arith, scores run_id)) in ground (arith, scores m)

  -- Releasing a slot lowers the student's depth by one, and leaves a depth of zero at zero.
  pub release_lem :
      (student_id k : ℕ) (r : Store)
      → get_student_queue_depth R k (release_student_slot R student_id r) ≡ (
          if student_id == k
          then get_student_queue_depth R k r - 1
          else get_student_queue_depth R k r)
  unfolding release_student_slot get_student_queue_depth
  release_lem student_id k r = go (get r student_id) refl
    where
      go :
          (o : Option ℕ)
          → get r student_id ≡ o
          → get_student_queue_depth R k
              (if ltb 0 (get_student_queue_depth R student_id r) then R.decr student_id r else r)
            ≡ (if student_id == k
                then get_student_queue_depth R k r - 1
                else get_student_queue_depth R k r)
      go none e = ground arith
      go (some zero) e = ground arith
      go (some (suc n)) e = ground (arith, get-decr student_id k n r e)
