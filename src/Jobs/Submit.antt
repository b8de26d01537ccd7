-- ===== src/Jobs/Submit.antt =====
-- When a run can be submitted, and what a submission writes.
use chipatelier.Prelude.{◌≡◌, ◌≢◌, refl, none, List, [], ◌∷◌, arith, ◌==◌, select, if◌then◌else◌}
use chipatelier.Http.{ok, err, HttpError}
use chipatelier.Model.{User, Project, Run, queued, is_privileged, high_priority, normal}
use chipatelier.FairQueue.Store.{Redis}
use chipatelier.Jobs.{
  RedisFault, Fresh, SubmitRequest, SubmitResponse, World, submit_job, active_runs, new_run,
  add_run, dispatch,
}

module _ (R : Redis) where
  -- The conditions under which a run can be submitted.
  pub record CanSubmit (body : SubmitRequest) (user : User) (w : World R) : Type 0 where
    pub project : Project
    pub only : select (λ (p : Project). p.id == body.project_id) w.db.projects ≡ project ∷ []
    pub owner : project.user_id ≡ user.id
    pub uploaded : project.latest_source_path ≢ none
    pub configured : project.config_version ≢ 0
    pub idle : active_runs body.project_id w.db ≡ []

  module _ (fault : RedisFault) (fresh : Fresh) (body : SubmitRequest) (user : User)
      (w : World R) where
    -- A submission that raises has changed nothing.
    pub submit_atomic :
        (e : HttpError)
        → (submit_job R fault fresh body user w).0 ≡ err e
        → (submit_job R fault fresh body user w).1 ≡ w
    unfolding submit_job
    submit_atomic e h = ground arith

    -- A submission succeeds only if the user owns the one project of that id, has uploaded Verilog
    -- and saved a config, and no run of the project is active.
    pub submit-CanSubmit :
        (resp : SubmitResponse)
        → (submit_job R fault fresh body user w).0 ≡ ok resp
        → CanSubmit body user w
    unfolding submit_job
    submit-CanSubmit resp h =
        go (select (λ (p : Project). p.id == body.project_id) w.db.projects) refl
          (active_runs body.project_id w.db) refl
      where
        go :
            (rows : List Project)
            → select (λ (p : Project). p.id == body.project_id) w.db.projects ≡ rows
            → (runs : List Run) → active_runs body.project_id w.db ≡ runs
            → CanSubmit body user w
        go [] e runs e' = absurd (ground arith)
        go (p ∷ q ∷ rows) e runs e' = absurd (ground arith)
        go (p ∷ []) e (run ∷ []) e' = absurd (ground arith)
        go (p ∷ []) e (run ∷ run' ∷ runs) e' = absurd (ground arith)
        go (p ∷ []) e [] e' = record {
          project = p;
          only = e;
          owner = ground arith;
          uploaded = λ missing. ground arith;
          configured = λ zero_version. ground arith;
          idle = e';
        }

    -- If it can, it answers with the new run, queued, writes that run, and dispatches it.
    pub submit_lem :
        CanSubmit body user w
        → submit_job R fault fresh body user w ≡ (
          ok (record {
            run_id = fresh.run_id;
            status = queued;
            queue_priority = if is_privileged user.role then high_priority else normal;
          }),
          dispatch R fault fresh user (record w {
            db =
                add_run
                  (new_run fresh body (if is_privileged user.role then high_priority else normal))
                  w.db;
          }),
        )
    unfolding submit_job
    submit_lem can = ground arith
