-- ===== src/Worker/Cleanup.antt =====
-- What the `finally` block leaves.
use chipatelier.Prelude.{ℕ, ◌≡◌, refl, true, false, arith}
use chipatelier.Worker.Store.{LogStore}
use chipatelier.Worker.Monad.{docker_exception, raised, ◌>>=◌, modify}
use chipatelier.Worker.{
  Env, State, attempt, cleanup, execute, publish_line, update_status, run_orfs_job,
}
use chipatelier.Worker.Keeps.{attempt-Keeps}

module _ (L : LogStore) (env : Env) (run_id : ℕ) (s : State L) where
  -- A workspace that could be made is there as if it had been there from the start.
  attempt_workspace :
      env.makedirs_ok ≡ true
      → attempt L env run_id s ≡ attempt L env run_id (record s { workspace = true })
  unfolding attempt execute ◌>>=◌
  attempt_workspace h = rw h

  workspace_stays : env.makedirs_ok ≡ true → (attempt L env run_id s).1.workspace ≡ true
  unfolding publish_line update_status modify
  workspace_stays h = rw (attempt_workspace h) (
      (attempt-Keeps L env run_id (λ (t : State L). t.workspace ≡ true)
          (λ status stage. record { at = λ t p. p }) (λ l. record { at = λ t p. p }) (λ t p. refl)
          (λ t p. p) (λ t c p. p) (λ t p. p)).at
        (record s { workspace = true }) refl)

  -- If the container manager and the workspace were made, and the stop of the container that the job
  -- holds raises a Docker error, the job raises it, and the
  -- container and the workspace are left behind.
  pub job_leaks :
      env.manager_ok ≡ true
      → env.makedirs_ok ≡ true
      → env.stop_ok ≡ false
      → (attempt L env run_id s).1.container ≡ true
      → ((run_orfs_job L env run_id s).0 ≡ raised docker_exception)
        × ((run_orfs_job L env run_id s).1.container ≡ true)
        × ((run_orfs_job L env run_id s).1.workspace ≡ true)
  unfolding run_orfs_job cleanup
  job_leaks manager made stuck held =
      (ground arith, ground arith, ground (arith, workspace_stays made))
