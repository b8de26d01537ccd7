-- ===== src/Worker/Status.antt =====
-- The status that a run has when its job has ended.
use chipatelier.Prelude.{
  ℕ, ◌≡◌, ◌≢◌, ◌⊎◌, inl, inr, refl, ap, ◌∙◌, Bool, true, false, Option, none, some, arith,
  if◌then◌else◌, ◌==◌, map_option, find?-update_where, ==_refl, Bool-cases,
}
use chipatelier.Prelude.Text.{Text}
use chipatelier.Model.{Run, RunStatus, Db, complete, failed}
use chipatelier.Jobs.{get_run, set_run}
use chipatelier.Worker.Store.{LogStore}
use chipatelier.Worker.Monad.{
  Exn, max_retries_exceeded, docker_exception, Outcome, done, raised, raise, pure, Gives,
  Gives-bind, ◌>>=◌, modify,
}
use chipatelier.Worker.{
  Env, State, with_status, attempt, cleanup, execute, finish, catch_exception, handle_exception,
  publish_line, update_status, run_orfs_job, final_status, work, wait_container,
}
use chipatelier.Worker.Keeps.{execute-Keeps}

-- What an update of one run's status does to a lookup.
get_run-set_run :
    (now run_id k : ℕ) (status : RunStatus) (stage : Option Text) (db : Db)
    → get_run k (set_run run_id (with_status now status stage) db) ≡ (
        if run_id == k
        then map_option (with_status now status stage) (get_run k db)
        else get_run k db)
get_run-set_run now run_id k status stage db =
    find?-update_where (λ (r : Run). r.id) (with_status now status stage) run_id k db.runs
      (λ r. refl)

-- From `before` to `after` the run is not lost, and every other run stays as it is.
abbrev pub Follows : ℕ → Db → Db → Type 0
Follows run_id before after =
    (get_run run_id before ≢ none → get_run run_id after ≢ none)
    × ((k : ℕ) → (run_id == k) ≡ false → get_run k after ≡ get_run k before)

Follows-set_run :
    (now run_id : ℕ) (status : RunStatus) (stage : Option Text) (before db : Db)
    → Follows run_id before db
    → Follows run_id before (set_run run_id (with_status now status stage) db)
Follows-set_run now run_id status stage before db (kept, others) = (
  λ there gone. kept there (ground (arith, get_run-set_run now run_id run_id status stage db)),
  λ k other. ground (arith, get_run-set_run now run_id k status stage db, others k other),
)

-- The run is there, complete or failed, with its time of completion.
abbrev pub Ended : ℕ → Option Run → Type 0
Ended now o =
    (run : Run) × (o ≡ some run)
    × ((run.status ≡ complete) ⊎ (run.status ≡ failed))
    × (run.completed_at ≡ some now)

status_of :
    (now : ℕ) (o : Option Run) (status : RunStatus) {run : Run}
    → map_option (with_status now status none) o ≡ some run
    → status ≡ run.status
status_of now none status e = cc
status_of now (some r) status e =
    ap (λ (q : Option Run). elim q [ none ↦ status | some x ↦ x.status ]) e

module _ (L : LogStore) (env : Env) (run_id : ℕ) where
  finish_db :
      (code : ℕ) (s : State L)
      → (finish L env run_id code s).1.db
        ≡ set_run run_id (with_status env.now (final_status L env run_id code) none) s.db
  unfolding finish publish_line update_status ◌>>=◌
  finish_db code s = ground arith

  handle_db :
      (exn : Exn) (s : State L)
      → (handle_exception L env run_id exn s).1.db
        ≡ set_run run_id (with_status env.now failed none) s.db
  unfolding handle_exception publish_line update_status ◌>>=◌
  handle_db max_retries_exceeded s = refl
  handle_db _ s = refl

  execute-Follows : (s : State L) → Follows run_id s.db (execute L env run_id s).1.db
  unfolding publish_line update_status modify
  execute-Follows s =
      (execute-Keeps L env run_id (λ (t : State L). Follows run_id s.db t.db)
          (λ status stage. record {
            at = λ t p. Follows-set_run env.now run_id status stage s.db t.db p;
          })
          (λ l. record { at = λ t p. p }) (λ t p. p) (λ t p. p) (λ t c p. p)).at
        s (λ there. there, λ k other. refl)

  -- The job gets its exit code from the container.
  wait-Gives : (o : Option ℕ) → Gives (λ code. o ≡ some code) (wait_container L env run_id o)
  unfolding raise pure
  wait-Gives none = record { at = λ s a e. cc }
  wait-Gives (some code) = record { at = λ s a e. cc }

  execute-Gives : Gives (λ code. env.exit_code ≡ some code) (execute L env run_id)
  unfolding execute work
  execute-Gives = search (Gives-bind, wait-Gives env.exit_code) depth 20

  -- What a complete status rests on.
  abbrev Earned : RunStatus → Type 0
  Earned status = status ≡ complete → (env.exit_code ≡ some 0) × (env.grt_failed ≡ false)

  final-Earned : (code : ℕ) → env.exit_code ≡ some code → Earned (final_status L env run_id code)
  final-Earned code e c = ground arith

  final_cases :
      (code : ℕ)
      → (final_status L env run_id code ≡ complete) ⊎ (final_status L env run_id code ≡ failed)
  final_cases code = go env.grt_failed (code == 0)
    where
      go :
          (grt zero_code : Bool)
          → ((if grt
                then RunStatus.failed
                else if zero_code
                then RunStatus.complete
                else RunStatus.failed)
              ≡ RunStatus.complete)
            ⊎ ((if grt
                  then RunStatus.failed
                  else if zero_code
                  then RunStatus.complete
                  else RunStatus.failed)
                ≡ RunStatus.failed)
      go true z = inr refl
      go false true = inl refl
      go false false = inr refl

  finish_done : (code : ℕ) (s : State L) → (finish L env run_id code s).0 ≡ done tt
  unfolding finish publish_line update_status ◌>>=◌
  finish_done code s = ground arith

  attempt_done :
      (code : ℕ) (s : State L)
      → (execute L env run_id s).0 ≡ done code
      → (attempt L env run_id s).1 ≡ (finish L env run_id code (execute L env run_id s).1).1
  unfolding attempt catch_exception ◌>>=◌
  attempt_done code s e = rw e (rw (finish_done code (execute L env run_id s).1))

  attempt_raised :
      (exn : Exn) (s : State L)
      → (execute L env run_id s).0 ≡ raised exn
      → attempt L env run_id s ≡ handle_exception L env run_id exn (execute L env run_id s).1
  unfolding attempt catch_exception ◌>>=◌
  attempt_raised exn s e = rw e

  -- The last write to the run is a final status.
  attempt_db :
      (s : State L)
      → (status : RunStatus) × (db : Db) × ((status ≡ complete) ⊎ (status ≡ failed))
        × Earned status
        × Follows run_id s.db db
        × ((attempt L env run_id s).1.db ≡ set_run run_id (with_status env.now status none) db)
  attempt_db s = go (execute L env run_id s).0 refl
    where
      last : Db
      last = (execute L env run_id s).1.db

      go :
          (o : Outcome ℕ)
          → (execute L env run_id s).0 ≡ o
          → (status : RunStatus) × (db : Db) × ((status ≡ complete) ⊎ (status ≡ failed))
            × Earned status
            × Follows run_id s.db db
            × ((attempt L env run_id s).1.db ≡ set_run run_id (with_status env.now status none) db)
      go (done code) e = (
        final_status L env run_id code,
        last,
        final_cases code,
        final-Earned code (execute-Gives.at s code e),
        execute-Follows s,
        rw (attempt_done code s e) (finish_db code (execute L env run_id s).1),
      )
      go (raised exn) e = (
        failed,
        last,
        inr refl,
        λ c. cc,
        execute-Follows s,
        rw (attempt_raised exn s e) (handle_db exn (execute L env run_id s).1),
      )

  run_db :
      (s : State L)
      → env.manager_ok ≡ true
      → (run_orfs_job L env run_id s).1.db ≡ (attempt L env run_id s).1.db
  unfolding run_orfs_job cleanup
  run_db s manager = ground arith

  no_manager :
      (s : State L)
      → env.manager_ok ≡ false
      → run_orfs_job L env run_id s ≡ (raised docker_exception, s)
  unfolding run_orfs_job
  no_manager s manager = rw manager refl

  ended :
      (o : Option Run) (status : RunStatus)
      → (status ≡ complete) ⊎ (status ≡ failed)
      → o ≢ none
      → Ended env.now (map_option (with_status env.now status none) o)
  ended none status f there = absurd (there refl)
  ended (some run) status (inl c) there = (with_status env.now status none run, refl, inl c, rw c)
  ended (some run) status (inr c) there = (with_status env.now status none run, refl, inr c, rw c)

  pub run_orfs_job-Ended :
      (s : State L)
      → env.manager_ok ≡ true
      → get_run run_id s.db ≢ none
      → Ended env.now (get_run run_id (run_orfs_job L env run_id s).1.db)
  run_orfs_job-Ended s manager there =
      let (status, db, final, _, (kept, others), e) = attempt_db s in
      rw (run_db s manager) (
        rw e (
          rw (get_run-set_run env.now run_id run_id status none db)
            (rw (==_refl run_id) (ended (get_run run_id db) status final (kept there)))))

  others_kept :
      (s : State L)
      → env.manager_ok ≡ true
      → (k : ℕ) → (run_id == k) ≡ false
      → get_run k (run_orfs_job L env run_id s).1.db ≡ get_run k s.db
  others_kept s manager k other =
      let (status, db, final, _, (kept, others), e) = attempt_db s in
      rw (run_db s manager)
        (rw e (ground (arith, get_run-set_run env.now run_id k status none db, others k other)))

  -- The database and Redis answer, and no signal ends the worker. If the constructor of the container
  -- manager raises, the task raises a Docker error and changes nothing. Otherwise, whatever status
  -- the run had before, cancelled included, and whatever happens to its job, a retry after a Docker
  -- error included: when the task has ended, the run is complete or failed, and its time of
  -- completion is set. No other run changes.
  pub job_status :
      (s : State L)
      → get_run run_id s.db ≢ none
      → (((env.manager_ok ≡ true)
            × Ended env.now (get_run run_id (run_orfs_job L env run_id s).1.db))
          ⊎ ((env.manager_ok ≡ false)
              × (run_orfs_job L env run_id s ≡ (raised docker_exception, s))))
        × ((k : ℕ)
            → (run_id == k) ≡ false
            → get_run k (run_orfs_job L env run_id s).1.db ≡ get_run k s.db)
  job_status s there = elim (Bool-cases env.manager_ok) [
    | inl manager ↦ (inl (manager, run_orfs_job-Ended s manager there), others_kept s manager)
    | inr manager ↦ (inr (manager, no_manager s manager), λ k other. rw (no_manager s manager) refl)
  ]

  -- A job whose container manager was made and whose run is complete when it has ended got exit code
  -- zero from the container, and found no congestion failure.
  pub complete_only :
      (s : State L) (run : Run)
      → env.manager_ok ≡ true
      → get_run run_id (run_orfs_job L env run_id s).1.db ≡ some run
      → run.status ≡ complete
      → (env.exit_code ≡ some 0) × (env.grt_failed ≡ false)
  complete_only s run manager e c =
      let (status, db, _, earned, _, e') = attempt_db s in
      let found : map_option (with_status env.now status none) (get_run run_id db) ≡ some run =
        ground
          (arith, get_run-set_run env.now run_id run_id status none db, run_db s manager, e', e) in
      earned (status_of env.now (get_run run_id db) status found ∙ c)
