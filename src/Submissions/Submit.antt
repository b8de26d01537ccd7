-- ===== src/Submissions/Submit.antt =====
-- When a run can be submitted for grading.
use chipatelier.Prelude.{
  ℕ, String, ◌≡◌, refl, ◌↔◌, true, Option, none, some, List, [], ◌∷◌, ◌++◌, arith, or_else, All,
}
use chipatelier.Prelude.Int.{ℤ}
use chipatelier.Http.{ok, err, HttpError}
use chipatelier.Model.{
  User, Run, Assignment, CourseEnrollment, Submission, Backend, CheckpointResults,
  evaluate_submission, is_complete,
}
use chipatelier.Jobs.{get_run, get_project, owned_by}
use chipatelier.Grading.{evaluate_checkpoint_rules}
use chipatelier.Submissions.{
  get_assignment, enrollments_of, validate_locked_params, new_submission, add_submission,
  submit_run, preview_score, PreviewScoreResponse,
}
use chipatelier.Submissions.Locked.{Matches, validate_iff}

module _ (repr : List (String × String) → String) where
  -- The conditions under which the user can submit the run.
  pub record CanSubmit (assignment_id run_id : ℕ) (user : User) (b : Backend) : Type 0 where
    pub assignment : Assignment
    pub run : Run
    pub enrollment : CourseEnrollment
    pub listed : get_assignment assignment_id b.db ≡ some assignment
    pub opened : assignment.is_open ≡ true
    pub enrolled : enrollments_of assignment.course_id user.id b.db ≡ enrollment ∷ []
    pub stored : get_run run_id b.db ≡ some run
    pub owned : owned_by (get_project run.project_id b.db) user ≡ true
    pub completed : is_complete run.status ≡ true
    pub locked : All (Matches repr run) assignment.locked_params

  module _ (new_id now assignment_id run_id : ℕ) (user : User) (b : Backend) where
    -- A submission that raises has changed nothing.
    pub submit_run_atomic :
        (e : HttpError)
        → (submit_run repr new_id now assignment_id run_id user b).0 ≡ err e
        → (submit_run repr new_id now assignment_id run_id user b).1 ≡ b
    unfolding submit_run
    submit_run_atomic e h = ground arith

    -- A run is accepted only if the assignment is there and open, the user is enrolled in its course
    -- and owns the run, the run is complete, and its config, read as texts, has every locked
    -- parameter at its locked value, where a missing one reads as "None".
    pub submit_run-CanSubmit :
        (s : Submission)
        → (submit_run repr new_id now assignment_id run_id user b).0 ≡ ok s
        → CanSubmit assignment_id run_id user b
    unfolding submit_run
    submit_run-CanSubmit s h =
        go (get_assignment assignment_id b.db) refl (get_run run_id b.db) refl
      where
        with_rows :
            (a : Assignment)
            → get_assignment assignment_id b.db ≡ some a
            → (r : Run) → get_run run_id b.db ≡ some r
            → (es : List CourseEnrollment) → enrollments_of a.course_id user.id b.db ≡ es
            → (ps : List (String × String)) → validate_locked_params repr r a ≡ ps
            → CanSubmit assignment_id run_id user b
        with_rows a ea r er [] ee ps ep = absurd (ground arith)
        with_rows a ea r er (e₁ ∷ e₂ ∷ es) ee ps ep = absurd (ground arith)
        with_rows a ea r er (e ∷ []) ee (p ∷ ps) ep = absurd (ground arith)
        with_rows a ea r er (e ∷ []) ee [] ep = record {
          assignment = a;
          run = r;
          enrollment = e;
          listed = ea;
          opened = ground arith;
          enrolled = ee;
          stored = er;
          owned = ground arith;
          completed = ground arith;
          locked = (validate_iff repr r a).0 ep;
        }

        go :
            (oa : Option Assignment)
            → get_assignment assignment_id b.db ≡ oa
            → (or : Option Run) → get_run run_id b.db ≡ or
            → CanSubmit assignment_id run_id user b
        go none ea or er = absurd (ground arith)
        go (some a) ea none er = absurd (ground arith)
        go (some a) ea (some r) er =
            with_rows a ea r er (enrollments_of a.course_id user.id b.db) refl
              (validate_locked_params repr r a) refl

    -- If it can, the submission is stored as pending, and its evaluation is sent once.
    pub submit_run_lem :
        CanSubmit assignment_id run_id user b
        → submit_run repr new_id now assignment_id run_id user b ≡ (
          ok (new_submission new_id now assignment_id user.id run_id),
          record (add_submission (new_submission new_id now assignment_id user.id run_id) b) {
            sent = b.sent ++ evaluate_submission new_id ∷ [];
          },
        )
    unfolding submit_run
    submit_run_lem can =
        let valid : validate_locked_params repr can.run can.assignment ≡ [] =
          (validate_iff repr can.run can.assignment).1 can.locked in
        ground arith

  module _ (assignment_id run_id : ℕ) (user : User) (b : Backend) where
    -- A preview that answers changes nothing. It shows the results and the score that the evaluation
    -- of the run's metrics by the assignment's rules has, and calls the run eligible exactly if a
    -- submission would find no mismatch of a locked parameter.
    pub preview_lem :
        (resp : PreviewScoreResponse) (assignment : Assignment) (run : Run)
        → (preview_score repr assignment_id run_id user b).0 ≡ ok resp
        → get_assignment assignment_id b.db ≡ some assignment
        → get_run run_id b.db ≡ some run
        → ((preview_score repr assignment_id run_id user b).1 ≡ b)
          × (evaluate_checkpoint_rules (or_else run.ppa []) assignment.checkpoint_rules
              ≡ some (resp.checkpoint_results, resp.score))
          × ((resp.is_eligible ≡ true) ↔ (validate_locked_params repr run assignment ≡ []))
    unfolding preview_score
    preview_lem resp assignment run h ea er =
        go (evaluate_checkpoint_rules (or_else run.ppa []) assignment.checkpoint_rules) refl
          (validate_locked_params repr run assignment) refl
      where
        go :
            (o : Option (CheckpointResults × ℤ))
            → evaluate_checkpoint_rules (or_else run.ppa []) assignment.checkpoint_rules ≡ o
            → (ps : List (String × String)) → validate_locked_params repr run assignment ≡ ps
            → ((preview_score repr assignment_id run_id user b).1 ≡ b)
              × (evaluate_checkpoint_rules (or_else run.ppa []) assignment.checkpoint_rules
                  ≡ some (resp.checkpoint_results, resp.score))
              × ((resp.is_eligible ≡ true) ↔ (validate_locked_params repr run assignment ≡ []))
        go none e ps ep = absurd (ground arith)
        go (some r) e [] ep = (ground arith, ground arith, (λ x. ep, λ x. ground arith))
        go (some r) e (p ∷ ps) ep =
            (ground arith, ground arith, (λ x. absurd (ground arith), λ x. cc))
