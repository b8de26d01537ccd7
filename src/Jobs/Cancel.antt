-- ===== src/Jobs/Cancel.antt =====
-- What cancelling a run changes.
use chipatelier.Prelude.{
  ℕ, ◌≡◌, refl, true, Option, none, some, arith, ◌==◌, if◌then◌else◌, map_option,
  find?-update_where,
}
use chipatelier.Http.{ok, err, HttpError}
use chipatelier.Model.{User, Run, is_active_status}
use chipatelier.FairQueue.Store.{Redis}
use chipatelier.Jobs.{World, cancel_job, get_run, get_project, owned_by, set_cancelled, revoke_task}

module _ (R : Redis) (run_id : ℕ) (user : User) (w : World R) where
  -- A cancellation that raises has changed nothing.
  pub cancel_atomic :
      (e : HttpError) → (cancel_job R run_id user w).0 ≡ err e → (cancel_job R run_id user w).1 ≡ w
  unfolding cancel_job
  cancel_atomic e h = ground arith

  -- A run is cancelled only by the owner of its project and only while its status is active. Then
  -- every lookup finds it cancelled and every other run as it was; its task, if it has one, is
  -- revoked, and nothing in Redis changes.
  pub cancel_effect :
      (cancel_job R run_id user w).0 ≡ ok tt
      → (run : Run) × (get_run run_id w.db ≡ some run)
        × (owned_by (get_project run.project_id w.db) user ≡ true)
        × (is_active_status run.status ≡ true)
        × ((k : ℕ)
            → get_run k (cancel_job R run_id user w).1.db
              ≡ (if run_id == k then map_option set_cancelled (get_run k w.db) else get_run k w.db))
        × ((cancel_job R run_id user w).1.sent ≡ revoke_task run.celery_task_id w.sent)
        × ((cancel_job R run_id user w).1.redis ≡ w.redis)
  unfolding cancel_job
  cancel_effect h = go (get_run run_id w.db) refl
    where
      go :
          (o : Option Run)
          → get_run run_id w.db ≡ o
          → (run : Run) × (get_run run_id w.db ≡ some run)
            × (owned_by (get_project run.project_id w.db) user ≡ true)
            × (is_active_status run.status ≡ true)
            × ((k : ℕ)
                → get_run k (cancel_job R run_id user w).1.db ≡ (
                    if run_id == k
                    then map_option set_cancelled (get_run k w.db)
                    else get_run k w.db))
            × ((cancel_job R run_id user w).1.sent ≡ revoke_task run.celery_task_id w.sent)
            × ((cancel_job R run_id user w).1.redis ≡ w.redis)
      go none e = absurd (ground arith)
      go (some run) e = (
        run,
        e,
        ground arith,
        ground arith,
        λ k. ground (
          arith,
          find?-update_where (λ (r : Run). r.id) set_cancelled run_id k w.db.runs (λ r. refl),
        ),
        ground arith,
        ground arith,
      )
