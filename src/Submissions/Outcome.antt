-- ===== src/Submissions/Outcome.antt =====
-- What the grading task leaves in the database.
use chipatelier.Prelude.{
  ℕ, ◌≡◌, ◌≢◌, refl, Bool, true, false, Option, none, some, [], ◌∷◌, ◌++◌, arith, ◌==◌,
  if◌then◌else◌, All, All-update_where, map_option, find?-update_where, find?-sound, ==_iff,
}
use chipatelier.Prelude.Int.{ℤ}
use chipatelier.Model.{Run, Submission, GradingStatus, CheckpointResults, Db}
use chipatelier.Jobs.{get_run}
use chipatelier.Grading.{evaluate_checkpoint_rules}
use chipatelier.Submissions.{get_assignment}
use chipatelier.Submissions.Task.{
  TaskFault, no_fault, fetch_fails, update_fails, publish_fails, State, returned, reraised,
  get_submission, set_submission, ppa_of, rules_of, graded, marked_failed, marked_submitted,
  fail_submission, store_grade, grade_and_publish, grade_evaluated, grade_listed,
  evaluate_submission,
}

get_submission-set :
    (j k : ℕ) (f : Submission → Submission) (db : Db)
    → ((s : Submission) → (f s).id ≡ s.id)
    → get_submission k (set_submission j f db)
      ≡ (if j == k then map_option f (get_submission k db) else get_submission k db)
get_submission-set j k f db h = find?-update_where (λ (s : Submission). s.id) f j k db.submissions h

-- The task gets to its commit, and to its end.
abbrev pub commits : TaskFault → Bool
commits no_fault = true
commits publish_fails = true
commits fault = false

abbrev pub publishes : TaskFault → Bool
publishes no_fault = true
publishes fault = false

module _ (mark_ok : Bool) (submission_id : ℕ) (s : State) (sub : Submission)
    (results : CheckpointResults) (score : ℤ)
    (listed : get_submission submission_id s.db ≡ some sub)
    (evaluated : evaluate_checkpoint_rules
        (ppa_of (get_run sub.run_id s.db))
        (rules_of (get_assignment sub.assignment_id s.db))
      ≡ some (results, score)) where
  same_id : sub.id ≡ submission_id
  same_id =
      (==_iff sub.id submission_id).0
        (find?-sound (λ (t : Submission). t.id == submission_id) s.db.submissions listed)

  stored :
      get_submission submission_id (store_grade sub results score s.db)
      ≡ some (graded results score sub)
  stored = ground (
    arith,
    same_id,
    get_submission-set sub.id submission_id (graded results score) s.db (λ t. refl),
  )

  run_stored :
      get_run sub.run_id (store_grade sub results score s.db)
      ≡ map_option marked_submitted (get_run sub.run_id s.db)
  run_stored = ground (
    arith,
    find?-update_where (λ (r : Run). r.id) marked_submitted sub.run_id sub.run_id s.db.runs
        (λ r. refl),
  )

  failed_listed :
      get_submission submission_id (set_submission submission_id marked_failed s.db)
      ≡ some (marked_failed sub)
  failed_listed =
      ground (arith, get_submission-set submission_id submission_id marked_failed s.db (λ t. refl))

  failed_stored :
      get_submission submission_id
        (set_submission submission_id marked_failed (store_grade sub results score s.db))
      ≡ some (marked_failed (graded results score sub))
  failed_stored = ground (
    arith,
    stored,
    get_submission-set submission_id submission_id marked_failed
        (store_grade sub results score s.db) (λ t. refl),
  )

  -- What the task leaves of a listed submission whose rules can be evaluated, wherever the database
  -- or Redis fails and whether or not the failure can be recorded. Behind the commit it has the
  -- evaluation's score and results and its run counts as submitted, before it they are as they were;
  -- its status is complete if the task returns, and else failed if that can be recorded; and the
  -- grade is published, once and with that score, exactly if the task returns.
  pub task_grades :
      (fault : TaskFault)
      → ((t : Submission) × (get_submission submission_id
              (evaluate_submission fault mark_ok submission_id s).1.db
            ≡ some t)
          × (t.score ≡ (if commits fault then some score else sub.score))
          × (t.checkpoint_results
              ≡ (if commits fault then some results else sub.checkpoint_results))
          × (t.grading_status ≡ (
              if publishes fault
              then GradingStatus.complete
              else if mark_ok
              then GradingStatus.failed
              else if commits fault
              then GradingStatus.complete
              else sub.grading_status)))
        × (get_run sub.run_id (evaluate_submission fault mark_ok submission_id s).1.db ≡ (
            if commits fault
            then map_option
                (λ (run : Run). record run { is_submitted = true })
                (get_run sub.run_id s.db)
            else get_run sub.run_id s.db))
        × ((evaluate_submission fault mark_ok submission_id s).0
            ≡ (if publishes fault then returned else reraised))
        × ((evaluate_submission fault mark_ok submission_id s).1.published ≡ (
            if publishes fault
            then s.published
              ++ record {
                run_id = sub.run_id;
                score = score;
                checkpoint_results = results;
                submission_id = submission_id;
              }
                ∷ []
            else s.published))
  unfolding evaluate_submission
  task_grades no_fault = (
    (graded results score sub, ground (arith, stored), refl, refl, refl),
    ground (arith, run_stored),
    ground arith,
    ground (arith, same_id),
  )
  task_grades fetch_fails = (
    (
      if mark_ok then marked_failed sub else sub,
      ground (arith, failed_listed),
      ground arith,
      ground arith,
      ground arith,
    ),
    ground arith,
    ground arith,
    ground arith,
  )
  task_grades update_fails = (
    (
      if mark_ok then marked_failed sub else sub,
      ground (arith, same_id, failed_listed),
      ground arith,
      ground arith,
      ground arith,
    ),
    ground arith,
    ground arith,
    ground arith,
  )
  task_grades publish_fails = (
    (
      if mark_ok then marked_failed (graded results score sub) else graded results score sub,
      ground (arith, same_id, stored, failed_stored),
      ground arith,
      ground arith,
      ground arith,
    ),
    ground (arith, run_stored),
    ground arith,
    ground arith,
  )

-- A submission that is marked as complete has a score.
abbrev pub IsScored : Submission → Type 0
IsScored s = s.grading_status ≡ GradingStatus.complete → s.score ≢ none

failed-IsScored : (s : Submission) → IsScored (marked_failed s)
failed-IsScored s = λ c. cc

set-IsScored :
    (submission_id : ℕ) (f : Submission → Submission) (db : Db)
    → ((s : Submission) → IsScored (f s))
    → All IsScored db.submissions
    → All IsScored (set_submission submission_id f db).submissions
set-IsScored submission_id f db scored h =
    All-update_where IsScored (λ (s : Submission). s.id == submission_id) f db.submissions
      (λ s _ _. scored s) h

fail-IsScored :
    (mark_ok : Bool) (submission_id : ℕ) (s : State)
    → All IsScored s.db.submissions
    → All IsScored (fail_submission mark_ok submission_id s).1.db.submissions
unfolding fail_submission
fail-IsScored true submission_id s h =
    set-IsScored submission_id marked_failed s.db failed-IsScored h
fail-IsScored false submission_id s h = h

store-IsScored :
    (sub : Submission) (results : CheckpointResults) (score : ℤ) (db : Db)
    → All IsScored db.submissions
    → All IsScored (store_grade sub results score db).submissions
store-IsScored sub results score db h =
    set-IsScored sub.id (graded results score) db (λ s c n. cc) h

grade-IsScored :
    (fault : TaskFault) (mark_ok : Bool) (sub : Submission) (results : CheckpointResults)
    (score : ℤ) (s : State)
    → All IsScored s.db.submissions
    → All IsScored (grade_and_publish fault mark_ok sub results score s).1.db.submissions
unfolding grade_and_publish
grade-IsScored no_fault mark_ok sub results score s h = store-IsScored sub results score s.db h
grade-IsScored publish_fails mark_ok sub results score s h =
    fail-IsScored mark_ok sub.id (record s { db = store_grade sub results score s.db })
      (store-IsScored sub results score s.db h)
grade-IsScored _ mark_ok sub results score s h = fail-IsScored mark_ok sub.id s h

evaluated-IsScored :
    (fault : TaskFault) (mark_ok : Bool) (sub : Submission) (o : Option (CheckpointResults × ℤ))
    (s : State)
    → All IsScored s.db.submissions
    → All IsScored (grade_evaluated fault mark_ok sub o s).1.db.submissions
unfolding grade_evaluated
evaluated-IsScored fault mark_ok sub none s h = fail-IsScored mark_ok sub.id s h
evaluated-IsScored fault mark_ok sub (some (results, score)) s h =
    grade-IsScored fault mark_ok sub results score s h

listed-IsScored :
    (fault : TaskFault) (mark_ok : Bool) (submission_id : ℕ) (o : Option Submission) (s : State)
    → All IsScored s.db.submissions
    → All IsScored (grade_listed fault mark_ok submission_id o s).1.db.submissions
unfolding grade_listed
listed-IsScored fetch_fails mark_ok submission_id o s h = fail-IsScored mark_ok submission_id s h
listed-IsScored _ mark_ok submission_id none s h = h
listed-IsScored no_fault mark_ok submission_id (some sub) s h =
    evaluated-IsScored no_fault mark_ok sub _ s h
listed-IsScored update_fails mark_ok submission_id (some sub) s h =
    evaluated-IsScored update_fails mark_ok sub _ s h
listed-IsScored publish_fails mark_ok submission_id (some sub) s h =
    evaluated-IsScored publish_fails mark_ok sub _ s h

-- Whatever fails during the task: if every submission that is marked as complete had a score before,
-- every such submission has one afterwards.
pub task-IsScored :
    (fault : TaskFault) (mark_ok : Bool) (submission_id : ℕ) (s : State)
    → All IsScored s.db.submissions
    → All IsScored (evaluate_submission fault mark_ok submission_id s).1.db.submissions
unfolding evaluate_submission
task-IsScored fault mark_ok submission_id s h =
    listed-IsScored fault mark_ok submission_id (get_submission submission_id s.db) s h
