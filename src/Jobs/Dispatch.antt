-- ===== src/Jobs/Dispatch.antt =====
-- Where a new run goes.
use chipatelier.Prelude.{
  ℕ, ◌≡◌, true, false, none, some, List, [], ◌∷◌, ◌++◌, arith, ◌==◌, if◌then◌else◌, any, map,
  Bool-cases, inl, inr,
}
use chipatelier.Model.{User, Db, is_privileged, run_orfs_job, run_orfs_job_high}
use chipatelier.FairQueue.Store.{Redis}
use chipatelier.FairQueue.{get_student_queue_depth, drain_queue}
use chipatelier.FairQueue.Drain.{drain_fair}
use chipatelier.Jobs.{Fresh, World, no_fault, before_zadd, before_incr, dispatch}

module _ (R : Redis) (fresh : Fresh) (user : User) (w : World R) where
  open R use {score, score-incr, score-zadd}

  -- While Redis answers, a new run takes exactly one way: an instructor's or admin's run is sent to
  -- the high priority queue and enters no sorted set, a student's run enters the sorted set with the
  -- student's depth as its score and is not sent.
  pub dispatch_one_way :
      ((dispatch R no_fault fresh user w).sent ≡ (
        if is_privileged user.role then w.sent ++ run_orfs_job_high fresh.run_id ∷ [] else w.sent))
      × ((k : ℕ)
          → score (dispatch R no_fault fresh user w).redis k ≡ (
              if is_privileged user.role
              then score w.redis k
              else if fresh.run_id == k
              then some (get_student_queue_depth R user.id w.redis)
              else score w.redis k))
  unfolding dispatch
  dispatch_one_way = (
    ground arith,
    λ k. ground (
      arith,
      score-incr user.id k
          (R.zadd fresh.run_id (get_student_queue_depth R user.id w.redis) w.redis),
      score-zadd fresh.run_id (get_student_queue_depth R user.id w.redis) k w.redis,
    ),
  )

  -- If Redis fails before it has stored a student's run, the run is sent to the worker at once and
  -- Redis is left as it was.
  pub dispatch_fallback :
      is_privileged user.role ≡ false
      → ((dispatch R before_zadd fresh user w).sent ≡ w.sent ++ run_orfs_job fresh.run_id ∷ [])
        × ((dispatch R before_zadd fresh user w).redis ≡ w.redis)
  unfolding dispatch
  dispatch_fallback h = (ground arith, ground arith)

  -- A run that Redis has stored and that was sent all the same.
  sent_and_stored :
      is_privileged user.role ≡ false
      → ((dispatch R before_incr fresh user w).sent ≡ w.sent ++ run_orfs_job fresh.run_id ∷ [])
        × (score (dispatch R before_incr fresh user w).redis fresh.run_id
            ≡ some (get_student_queue_depth R user.id w.redis))
  unfolding dispatch
  sent_and_stored h = (
    ground arith,
    ground (
      arith,
      score-zadd fresh.run_id (get_student_queue_depth R user.id w.redis) fresh.run_id w.redis,
    ),
  )

  -- If Redis fails after it has stored a student's run, between ZADD and INCR, the run is sent to the
  -- worker, and a later drain that takes it out of the queue sends the same message a second time.
  pub dispatch_twice :
      (max_jobs : ℕ) (db : Db)
      → is_privileged user.role ≡ false
      → score (drain_queue R max_jobs db (dispatch R before_incr fresh user w).redis).1 fresh.run_id
        ≡ none
      → ((dispatch R before_incr fresh user w).sent ≡ w.sent ++ run_orfs_job fresh.run_id ∷ [])
        × ((claimed : List ℕ) × ((drain_queue R max_jobs db
                (dispatch R before_incr fresh user w).redis).0
              ≡ map run_orfs_job claimed)
            × (any (λ m. m == fresh.run_id) claimed ≡ true))
  dispatch_twice max_jobs db h taken =
      let (direct, stored) = sent_and_stored h in
      let (claimed, sends, least, scores) =
        drain_fair R max_jobs db (dispatch R before_incr fresh user w).redis in
      (
        direct,
        (
          claimed,
          sends,
          elim (Bool-cases (any (λ m. m == fresh.run_id) claimed)) [
            | inl took ↦ took
            | inr left ↦ absurd (ground (arith, scores fresh.run_id, left, taken, stored))
          ],
        ),
      )
