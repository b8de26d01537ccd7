-- ===== src/FairQueue.antt =====
-- The fair queue of student runs: worker/tasks/fair_queue.py, over the Redis commands it issues.
pub mod Store
pub mod Fairness
pub mod Drain
use chipatelier.Prelude.{
  ℕ, zero, suc, ◌+◌, ◌-◌, Bool, Option, none, some, List, [], ◌∷◌, ◌++◌, ltb, if◌then◌else◌,
  or_else, select, length, map,
}
use chipatelier.Model.{Run, Db, Message, run_orfs_job, is_executing}
use chipatelier.FairQueue.Store.{Redis}

-- `run_id, _score = result[0]`
abbrev pub run_of : Option (ℕ × ℕ) → Option ℕ
run_of none = none
run_of (some (run_id, score)) = some run_id

module _ (R : Redis) where
  open R use {Store, zadd, zpopmin, get, incr, decr, expire}

  unfoldable pub get_student_queue_depth : ℕ → Store → ℕ
  get_student_queue_depth student_id r = or_else (get r student_id) 0

  -- The score that the run was given, and the store.
  unfoldable pub enqueue_student_job : ℕ → ℕ → Store → ℕ × Store
  unfolding get_student_queue_depth
  enqueue_student_job student_id run_id r =
      let score = get_student_queue_depth student_id r in
      (score, expire student_id (incr student_id (zadd run_id score r)))

  unfoldable pub claim_next_job : Store → Option ℕ × Store
  claim_next_job r = let (result, r') = zpopmin r in (run_of result, r')

  unfoldable pub release_student_slot : ℕ → Store → Store
  unfolding get_student_queue_depth
  release_student_slot student_id r =
      if ltb 0 (get_student_queue_depth student_id r) then decr student_id r else r

  -- `for _ in range(n)` with its `break`: the claimed runs, in order, and the store.
  unfoldable pub claim_jobs : ℕ → Store → List ℕ × Store
  claim_jobs zero r = ([], r)
  claim_jobs (suc n) r =
      let (claimed, r') = claim_next_job r in
      elim claimed [
        | none ↦ ([], r')
        | some run_id ↦ let (rest, r'') = claim_jobs n r' in (run_id ∷ rest, r'')
      ]

  -- `drain_queue`: what it sends, and the store. `-` on ℕ is the `max(0, …)` of the range.
  unfoldable pub drain_queue : ℕ → Db → Store → List Message × Store
  drain_queue max_concurrent_jobs db r =
      let running_count = length (select (λ (run : Run). is_executing run.status) db.runs) in
      let (claimed, r') = claim_jobs (max_concurrent_jobs - running_count) r in
      (map run_orfs_job claimed, r')
