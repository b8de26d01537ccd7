-- ===== src/Examples/Queues.antt =====
-- The theorems on the fair queue, at a queue of two runs.
use chipatelier.Prelude.{
  ℕ, ◌-◌, ◌≤◌, ◌≡◌, ◌⊎◌, none, some, List, [], ◌∷◌, ◌==◌, any, map, All, if◌then◌else◌, length,
}
use chipatelier.Model.{run_orfs_job}
use chipatelier.FairQueue.{drain_queue}
use chipatelier.FairQueue.Fairness.{AtMost}
use chipatelier.FairQueue.Drain.{running_count, drain_capacity, drain_fair}
use chipatelier.Examples.Stores.{cells_redis}
use chipatelier.Examples.Data.{sample_db}

-- Runs 0 and 2 wait with the scores 3 and 1; student 1 has the depth 2.
abbrev queue : cells_redis.Store
queue = (some 3 ∷ none ∷ some 1 ∷ [], none ∷ some 2 ∷ [])

drain_capacity_example :
    (length (drain_queue cells_redis 1 sample_db queue).0 ≤ 1 - running_count sample_db)
    × ((length (drain_queue cells_redis 1 sample_db queue).0 ≡ 1 - running_count sample_db)
        ⊎ ((k : ℕ) → cells_redis.score (drain_queue cells_redis 1 sample_db queue).1 k ≡ none))
drain_capacity_example = drain_capacity cells_redis 1 sample_db queue

drain_fair_example :
    (claimed : List ℕ) × ((drain_queue cells_redis 1 sample_db queue).0 ≡ map run_orfs_job claimed)
    × ((k t : ℕ)
        → cells_redis.score (drain_queue cells_redis 1 sample_db queue).1 k ≡ some t
        → All (AtMost cells_redis queue t) claimed)
    × ((k : ℕ)
        → cells_redis.score (drain_queue cells_redis 1 sample_db queue).1 k
          ≡ (if any (λ m. m == k) claimed then none else cells_redis.score queue k))
drain_fair_example = drain_fair cells_redis 1 sample_db queue
