-- ===== src/Examples/JobRuns.antt =====
-- The theorems on the job endpoints and on the worker, at a student who submits and cancels.
use chipatelier.Prelude.{
  ℕ, true, any, map, ◌≡◌, inl, inr, refl, List, [], ◌∷◌, arith, ◌==◌, select, Bool-cases,
}
use chipatelier.Model.{queued, normal, run_orfs_job}
use chipatelier.FairQueue.{drain_queue, claim_jobs, claim_next_job}
use chipatelier.Jobs.{no_fault, before_incr, submit_job, dispatch}
use chipatelier.Jobs.SingleActive.{IsSingle, Request, submit, cancel, serve, serve-IsSingle}
use chipatelier.Jobs.Submit.{CanSubmit, submit-CanSubmit}
use chipatelier.Jobs.Dispatch.{dispatch_twice}
use chipatelier.Examples.Stores.{cells_redis, cell, lowest, put}
use chipatelier.Examples.Data.{alice, sample_db, sample_world, request, chosen}

sample-IsSingle : IsSingle sample_world.db
unfolding select
sample-IsSingle project_id = elim (Bool-cases (10 == project_id)) [
  | inl e ↦ ground arith
  | inr e ↦ ground arith
]

abbrev requests : List (Request cells_redis)
requests =
    submit no_fault chosen request alice
    ∷ cancel 7 alice
    ∷ submit before_incr chosen request alice
    ∷ []

serve-IsSingle_example : IsSingle (serve cells_redis requests sample_world).db
serve-IsSingle_example = serve-IsSingle cells_redis requests sample_world sample-IsSingle

submit-CanSubmit_example : CanSubmit cells_redis request alice sample_world
unfolding submit_job select
submit-CanSubmit_example =
    submit-CanSubmit cells_redis no_fault chosen request alice sample_world
      (record { run_id = 7; status = queued; queue_priority = normal }) refl

dispatch_twice_example :
    ((dispatch cells_redis before_incr chosen alice sample_world).sent ≡ run_orfs_job 7 ∷ [])
    × ((claimed : List ℕ) × ((drain_queue cells_redis 1 sample_db
            (dispatch cells_redis before_incr chosen alice sample_world).redis).0
          ≡ map run_orfs_job claimed)
        × (any (λ m. m == 7) claimed ≡ true))
unfolding dispatch drain_queue claim_jobs claim_next_job select cell lowest put
dispatch_twice_example = dispatch_twice cells_redis chosen alice sample_world 1 sample_db refl refl
