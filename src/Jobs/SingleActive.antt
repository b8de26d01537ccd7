-- ===== src/Jobs/SingleActive.antt =====
-- At most one active run for each project.
use chipatelier.Prelude.{
  ℕ, ◌≤◌, ◌≡◌, refl, sym, subst, Bool, true, false, ◌&&◌, Option, some, List, [], ◌∷◌, arith, ◌==◌,
  String, if◌then◌else◌, select, length, length-append, select-append, length-select-update_le,
}
use chipatelier.Http.{Result, ok, err}
use chipatelier.Model.{
  User, Run, Db, run_orfs_job_high, Priority, is_active_status, is_privileged, high_priority,
  normal,
}
use chipatelier.FairQueue.Store.{Redis}
use chipatelier.Jobs.{
  SubmitResponse, RunStatusResponse, no_fault, before_zadd, before_incr, dispatch_direct,
  dispatch_student, Fresh, RedisFault, SubmitRequest, World, submit_job, cancel_job,
  update_run_notes, active_runs, new_run, add_run, set_run, dispatch, set_cancelled,
}
use chipatelier.Jobs.Cancel.{cancel_atomic}
use chipatelier.Jobs.Submit.{submit-CanSubmit, submit_lem, submit_atomic}

-- At most one run of each project is active.
abbrev pub IsSingle : Db → Type 0
IsSingle db = (project_id : ℕ) → length (active_runs project_id db) ≤ 1

-- An update that activates no run keeps the invariant.
set_run-IsSingle :
    (run_id : ℕ) (f : Run → Run) (db : Db)
    → ((r : Run) (p : ℕ)
        → ((f r).project_id == p && is_active_status (f r).status) ≡ true
        → (r.project_id == p && is_active_status r.status) ≡ true)
    → IsSingle db
    → IsSingle (set_run run_id f db)
set_run-IsSingle run_id f db keeps h p = omega (
  arith,
  h p,
  length-select-update_le (λ (r : Run). r.project_id == p && is_active_status r.status)
      (λ (r : Run). r.id == run_id) f db.runs (λ r _. keeps r p),
)

-- A new run of a project with no active run keeps it.
add_run-IsSingle :
    (fresh : Fresh) (body : SubmitRequest) (priority : Priority) (db : Db)
    → active_runs body.project_id db ≡ []
    → IsSingle db
    → IsSingle (add_run (new_run fresh body priority) db)
unfolding select
add_run-IsSingle fresh body priority db idle h p =
    rw (select-append (λ (r : Run). r.project_id == p && is_active_status r.status) db.runs)
      (rw length-append (ground (arith, h p)))

module _ (R : Redis) where
  -- The dispatch of a run changes only task ids.
  dispatch-IsSingle :
      (fault : RedisFault) (fresh : Fresh) (user : User) (w : World R)
      → IsSingle w.db
      → IsSingle (dispatch R fault fresh user w).db
  unfolding dispatch
  dispatch-IsSingle fault fresh user w h =
      let task =
        set_run-IsSingle fresh.run_id (λ run. record run { celery_task_id = some fresh.task_id })
          w.db (λ r p e. e) h in
      go (is_privileged user.role) fault task
    where
      go :
          (b : Bool) (f : RedisFault)
          → IsSingle (
              set_run fresh.run_id (λ run. record run { celery_task_id = some fresh.task_id }) w.db)
          → IsSingle
              (if b
                then dispatch_direct R (run_orfs_job_high fresh.run_id) fresh w
                else dispatch_student R f fresh user w).db
      go true f task = task
      go false no_fault task = h
      go false before_zadd task = task
      go false before_incr task = task

  submit-IsSingle :
      (fault : RedisFault) (fresh : Fresh) (body : SubmitRequest) (user : User) (w : World R)
      → IsSingle w.db
      → IsSingle (submit_job R fault fresh body user w).1.db
  submit-IsSingle fault fresh body user w h = go (submit_job R fault fresh body user w).0 refl
    where
      go :
          (r : Result SubmitResponse)
          → (submit_job R fault fresh body user w).0 ≡ r
          → IsSingle (submit_job R fault fresh body user w).1.db
      go (err e) q = rw (submit_atomic R fault fresh body user w e q) h
      go (ok resp) q =
          let can = submit-CanSubmit R fault fresh body user w resp q in
          rw (submit_lem R fault fresh body user w can) (
            dispatch-IsSingle fault fresh user _ (
              add_run-IsSingle fresh body
                (if is_privileged user.role then high_priority else normal) w.db can.idle h))

  cancel-IsSingle :
      (run_id : ℕ) (user : User) (w : World R)
      → IsSingle w.db
      → IsSingle (cancel_job R run_id user w).1.db
  unfolding cancel_job
  cancel-IsSingle run_id user w h = go (cancel_job R run_id user w).0 refl
    where
      go :
          (r : Result (Unit {0}))
          → (cancel_job R run_id user w).0 ≡ r
          → IsSingle (cancel_job R run_id user w).1.db
      go (err e) q = rw (cancel_atomic R run_id user w e q) h
      go (ok x) q =
          let written : (cancel_job R run_id user w).1.db ≡ set_run run_id set_cancelled w.db =
            ground arith in
          subst IsSingle (sym written)
            (set_run-IsSingle run_id set_cancelled w.db (λ r p e. ground arith) h)

  notes-IsSingle :
      (run_id : ℕ) (notes : Option String) (user : User) (w : World R)
      → IsSingle w.db
      → IsSingle (update_run_notes R run_id notes user w).1.db
  unfolding update_run_notes
  notes-IsSingle run_id notes user w h = go (update_run_notes R run_id notes user w).0 refl
    where
      go :
          (r : Result RunStatusResponse)
          → (update_run_notes R run_id notes user w).0 ≡ r
          → IsSingle (update_run_notes R run_id notes user w).1.db
      go (err e) q =
          let same : (update_run_notes R run_id notes user w).1.db ≡ w.db = ground arith in
          subst IsSingle (sym same) h
      go (ok x) q =
          let written : (update_run_notes R run_id notes user w).1.db
              ≡ set_run run_id (λ r. record r { notes = notes }) w.db =
            ground arith in
          subst IsSingle (sym written)
            (set_run-IsSingle run_id (λ r. record r { notes = notes }) w.db (λ r p e. e) h)

  -- One request to the job endpoints.
  pub data Request : Type 0 where
    submit : RedisFault → Fresh → SubmitRequest → User → Request
    cancel : ℕ → User → Request
    set_notes : ℕ → Option String → User → Request

  unfoldable pub handle : Request → World R → World R
  handle (submit fault fresh body user) w = (submit_job R fault fresh body user w).1
  handle (cancel run_id user) w = (cancel_job R run_id user w).1
  handle (set_notes run_id notes user) w = (update_run_notes R run_id notes user w).1

  unfoldable pub serve : List Request → World R → World R
  serve [] w = w
  serve (request ∷ requests) w = serve requests (handle request w)

  -- Whatever requests the job endpoints serve, in whatever order and with whatever Redis faults: if
  -- each project had at most one active run, it has at most one afterwards.
  pub serve-IsSingle :
      (requests : List Request) (w : World R) → IsSingle w.db → IsSingle (serve requests w).db
  unfolding serve handle
  serve-IsSingle [] w h = h
  serve-IsSingle (submit fault fresh body user ∷ requests) w h =
      serve-IsSingle requests _ (submit-IsSingle fault fresh body user w h)
  serve-IsSingle (cancel run_id user ∷ requests) w h =
      serve-IsSingle requests _ (cancel-IsSingle run_id user w h)
  serve-IsSingle (set_notes run_id notes user ∷ requests) w h =
      serve-IsSingle requests _ (notes-IsSingle run_id notes user w h)
