-- ===== src/Jobs/Lifecycle.antt =====
-- The life of a run as the job endpoints move it, against an abstract transition system.
use chipatelier.Prelude.{
  ℕ, ◌≡◌, refl, sym, subst, Bool, true, false, Option, none, some, List, [], ◌∷◌, arith, ◌==◌,
  if◌then◌else◌, String, find?, find?-update_where, find?-append, is_some, Bool-cases, ==_iff, inl,
  inr,
}
use chipatelier.Http.{Result, ok, err}
use chipatelier.Model.{
  User, Run, RunStatus, queued, cancelled, Db, is_terminal, is_privileged, run_orfs_job_high,
  high_priority, normal, Priority,
}
use chipatelier.Jobs.Transitions.{
  status_at, Move, stays, submitted, cancels, Life, born, Move-Life, Life-final,
}
use chipatelier.FairQueue.Store.{Redis}
use chipatelier.Jobs.{
  SubmitResponse, no_fault, before_zadd, before_incr, dispatch_direct, dispatch_student, Fresh,
  RedisFault, SubmitRequest, World, submit_job, cancel_job, update_run_notes, new_run, add_run,
  set_run, get_run, dispatch,
}
use chipatelier.Jobs.Cancel.{cancel_atomic, cancel_effect}
use chipatelier.Jobs.Submit.{submit-CanSubmit, submit_lem, submit_atomic}
use chipatelier.Jobs.SingleActive.{Request, submit, cancel, set_notes, handle, serve}

-- An update of one run that keeps its status.
status_at-set_run :
    (run_id k : ℕ) (f : Run → Run) (db : Db)
    → ((r : Run) → (f r).id ≡ r.id)
    → ((r : Run) → (f r).status ≡ r.status)
    → status_at k (set_run run_id f db) ≡ status_at k db
status_at-set_run run_id k f db same_id same_status = go (get_run k db) refl
  where
    go : (o : Option Run) → get_run k db ≡ o → status_at k (set_run run_id f db) ≡ status_at k db
    go none e = ground (arith, find?-update_where (λ (r : Run). r.id) f run_id k db.runs same_id)
    go (some r) e =
        ground
          (arith, find?-update_where (λ (q : Run). q.id) f run_id k db.runs same_id, same_status r)

status_at-add_run :
    (fresh : Fresh) (body : SubmitRequest) (priority : Priority) (k : ℕ) (db : Db)
    → Move (status_at k db) (status_at k (add_run (new_run fresh body priority) db))
unfolding find?
status_at-add_run fresh body priority k db = go (get_run k db) refl
  where
    added : get_run k (add_run (new_run fresh body priority) db) ≡ (
        if is_some (get_run k db)
        then get_run k db
        else if fresh.run_id == k
        then some (new_run fresh body priority)
        else none)
    added = find?-append (λ (r : Run). r.id == k) db.runs (new_run fresh body priority ∷ [])

    go :
        (o : Option Run)
        → get_run k db ≡ o
        → Move (status_at k db) (status_at k (add_run (new_run fresh body priority) db))
    go (some r) e =
        let same : status_at k (add_run (new_run fresh body priority) db) ≡ status_at k db =
          ground (arith, added) in
        subst (Move (status_at k db)) (sym same) stays
    go none e = elim (Bool-cases (fresh.run_id == k)) [
      | inl new ↦
          let made : status_at k (add_run (new_run fresh body priority) db) ≡ some queued =
            ground (arith, added, new) in
          subst (Move (status_at k db)) (sym made) (submitted (ground arith))
      | inr other ↦
          let same : status_at k (add_run (new_run fresh body priority) db) ≡ status_at k db =
            ground (arith, added, other) in
          subst (Move (status_at k db)) (sym same) stays
    ]

Move-from : {o p q : Option RunStatus} → p ≡ q → Move o p → Move o q
Move-from {o} e m = subst (Move o) e m

module _ (R : Redis) where
  dispatch-status :
      (fault : RedisFault) (fresh : Fresh) (user : User) (w : World R) (k : ℕ)
      → status_at k (dispatch R fault fresh user w).db ≡ status_at k w.db
  unfolding dispatch
  dispatch-status fault fresh user w k = go (is_privileged user.role) fault (
      status_at-set_run fresh.run_id k (λ run. record run { celery_task_id = some fresh.task_id })
        w.db (λ r. refl) (λ r. refl))
    where
      go :
          (b : Bool) (f : RedisFault)
          → status_at k (
              set_run fresh.run_id (λ run. record run { celery_task_id = some fresh.task_id }) w.db)
            ≡ status_at k w.db
          → status_at k
              (if b
                then dispatch_direct R (run_orfs_job_high fresh.run_id) fresh w
                else dispatch_student R f fresh user w).db
            ≡ status_at k w.db
      go true f task = task
      go false no_fault task = refl
      go false before_zadd task = task
      go false before_incr task = task

  submit-Move :
      (fault : RedisFault) (fresh : Fresh) (body : SubmitRequest) (user : User) (w : World R)
      (k : ℕ)
      → Move (status_at k w.db) (status_at k (submit_job R fault fresh body user w).1.db)
  submit-Move fault fresh body user w k = go (submit_job R fault fresh body user w).0 refl
    where
      go :
          (r : Result SubmitResponse)
          → (submit_job R fault fresh body user w).0 ≡ r
          → Move (status_at k w.db) (status_at k (submit_job R fault fresh body user w).1.db)
      go (err e) q = rw (submit_atomic R fault fresh body user w e q) stays
      go (ok resp) q =
          let can = submit-CanSubmit R fault fresh body user w resp q in
          rw (submit_lem R fault fresh body user w can) (
            Move-from (sym (dispatch-status fault fresh user _ k)) (
              status_at-add_run fresh body
                (if is_privileged user.role then high_priority else normal) k w.db))

  cancel-Move :
      (run_id : ℕ) (user : User) (w : World R) (k : ℕ)
      → Move (status_at k w.db) (status_at k (cancel_job R run_id user w).1.db)
  cancel-Move run_id user w k = go (cancel_job R run_id user w).0 refl
    where
      go :
          (r : Result (Unit {0}))
          → (cancel_job R run_id user w).0 ≡ r
          → Move (status_at k w.db) (status_at k (cancel_job R run_id user w).1.db)
      go (err e) q = rw (cancel_atomic R run_id user w e q) stays
      go (ok x) q =
          let (run, there, own, active, after, sent, redis) = cancel_effect R run_id user w q in
          elim (Bool-cases (run_id == k)) [
            | inl same ↦
                let equal : run_id ≡ k = (==_iff run_id k).0 same in
                let here : get_run k w.db ≡ some run =
                  subst (λ j. get_run j w.db ≡ some run) equal there in
                let gone : status_at k (cancel_job R run_id user w).1.db ≡ some cancelled =
                  ground (arith, after k, same, here) in
                Move-from (sym gone) (cancels run.status (ground (arith, here)) active)
            | inr other ↦
                let kept : status_at k (cancel_job R run_id user w).1.db ≡ status_at k w.db =
                  ground (arith, after k, other) in
                Move-from (sym kept) stays
          ]

  notes-Move :
      (run_id : ℕ) (notes : Option String) (user : User) (w : World R) (k : ℕ)
      → Move (status_at k w.db) (status_at k (update_run_notes R run_id notes user w).1.db)
  unfolding update_run_notes
  notes-Move run_id notes user w k =
      let kept : status_at k (update_run_notes R run_id notes user w).1.db ≡ status_at k w.db =
        ground (
          arith,
          status_at-set_run run_id k (λ r. record r { notes = notes }) w.db (λ r. refl) (λ r. refl),
        ) in
      Move-from (sym kept) stays

  handle-Move :
      (request : Request R) (w : World R) (k : ℕ)
      → Move (status_at k w.db) (status_at k (handle R request w).db)
  unfolding handle
  handle-Move (submit fault fresh body user) w k = submit-Move fault fresh body user w k
  handle-Move (cancel run_id user) w k = cancel-Move run_id user w k
  handle-Move (set_notes run_id notes user) w k = notes-Move run_id notes user w k

  serve_path :
      (requests : List (Request R)) (w : World R) (k : ℕ)
      → Life (status_at k w.db) (status_at k (serve R requests w).db)
  unfolding serve
  serve_path [] w k = born
  serve_path (request ∷ requests) w k =
      Move-Life (handle-Move request w k) (serve_path requests (handle R request w) k)

  -- Whatever requests are served, each run moves only as the transition system allows: it is created
  -- as queued and cancelled while active, and a status that has ended stays.
  pub serve-Life :
      (requests : List (Request R)) (w : World R) (k : ℕ)
      → Life (status_at k w.db) (status_at k (serve R requests w).db)
        × ((s : RunStatus)
            → is_terminal s ≡ true
            → status_at k w.db ≡ some s
            → status_at k (serve R requests w).db ≡ some s)
  serve-Life requests w k =
      let life = serve_path requests w k in (life, λ s done at. Life-final s done at life)
