-- ===== src/Submissions/Task.antt =====
-- Grading a submission: `evaluate_submission` of worker/tasks/checkpoint_eval.py.
use chipatelier.Prelude.{
  ℕ, Bool, true, Option, none, some, List, [], ◌∷◌, ◌++◌, ◌==◌, find?, update_where, or_else,
  if◌then◌else◌,
}
use chipatelier.Prelude.Int.{ℤ}
use chipatelier.Model.{
  Run, Assignment, Submission, GradingStatus, CheckpointResults, Rules, Ppa, Db,
}
use chipatelier.Jobs.{get_run, set_run}
use chipatelier.Grading.{evaluate_checkpoint_rules}
use chipatelier.Submissions.{get_assignment}

-- Where the database or Redis raises during the task.
pub data TaskFault : Type 0 where
  no_fault fetch_fails update_fails publish_fails : TaskFault

-- What `redis.publish` sends on the channel of a run.
pub record Grade : Type 0 where
  pub run_id : ℕ
  pub score : ℤ
  pub checkpoint_results : CheckpointResults
  pub submission_id : ℕ

pub record State : Type 0 where
  pub db : Db
  pub published : List Grade

-- Whether the task returned or re-raised.
pub data Ending : Type 0 where
  returned reraised : Ending

abbrev pub get_submission : ℕ → Db → Option Submission
get_submission submission_id db = find? (λ (s : Submission). s.id == submission_id) db.submissions

abbrev pub set_submission : ℕ → (Submission → Submission) → Db → Db
set_submission submission_id f db = record db {
  submissions = update_where (λ (s : Submission). s.id == submission_id) f db.submissions;
}

-- `run_row.ppa if run_row and run_row.ppa else {}`
abbrev pub ppa_of : Option Run → Ppa
ppa_of none = []
ppa_of (some run) = or_else run.ppa []

-- `asgn_row.checkpoint_rules if asgn_row and asgn_row.checkpoint_rules else {}`
abbrev pub rules_of : Option Assignment → Rules
rules_of none = record { hard = []; scored = [] }
rules_of (some assignment) = assignment.checkpoint_rules

-- `UPDATE submissions SET checkpoint_results, score, grading_status = 'complete'`
abbrev pub graded : CheckpointResults → ℤ → Submission → Submission
graded results score s = record s {
  checkpoint_results = some results;
  score = some score;
  grading_status = GradingStatus.complete;
}

-- `UPDATE submissions SET grading_status = 'failed'`
abbrev pub marked_failed : Submission → Submission
marked_failed s = record s { grading_status = GradingStatus.failed }

abbrev pub marked_submitted : Run → Run
marked_submitted run = record run { is_submitted = true }

-- The `except` clause; `mark_ok` says whether its own update succeeds.
unfoldable pub fail_submission : Bool → ℕ → State → Ending × State
fail_submission mark_ok submission_id s = (
  reraised,
  record s { db = if mark_ok then set_submission submission_id marked_failed s.db else s.db },
)

-- The two updates and their commit.
abbrev pub store_grade : Submission → CheckpointResults → ℤ → Db → Db
store_grade sub results score db =
    set_run sub.run_id marked_submitted (set_submission sub.id (graded results score) db)

unfoldable pub grade_and_publish :
    TaskFault → Bool → Submission → CheckpointResults → ℤ → State → Ending × State
unfolding fail_submission
grade_and_publish no_fault mark_ok sub results score s = (
  returned,
  record {
    db = store_grade sub results score s.db;
    published =
        s.published
        ++ record {
          run_id = sub.run_id;
          score = score;
          checkpoint_results = results;
          submission_id = sub.id;
        }
          ∷ [];
  },
)
grade_and_publish publish_fails mark_ok sub results score s =
    fail_submission mark_ok sub.id (record s { db = store_grade sub results score s.db })
grade_and_publish fault mark_ok sub results score s = fail_submission mark_ok sub.id s

-- Behind the evaluation, which may raise a `KeyError`.
unfoldable pub grade_evaluated :
    TaskFault → Bool → Submission → Option (CheckpointResults × ℤ) → State → Ending × State
unfolding grade_and_publish fail_submission
grade_evaluated fault mark_ok sub none s = fail_submission mark_ok sub.id s
grade_evaluated fault mark_ok sub (some (results, score)) s =
    grade_and_publish fault mark_ok sub results score s

-- Behind the look-up of the submission.
unfoldable pub grade_listed : TaskFault → Bool → ℕ → Option Submission → State → Ending × State
unfolding grade_evaluated fail_submission
grade_listed fetch_fails mark_ok submission_id listed s = fail_submission mark_ok submission_id s
grade_listed fault mark_ok submission_id none s = (returned, s)
grade_listed fault mark_ok submission_id (some sub) s =
    grade_evaluated fault mark_ok sub
      (evaluate_checkpoint_rules (ppa_of (get_run sub.run_id s.db))
        (rules_of (get_assignment sub.assignment_id s.db)))
      s

unfoldable pub evaluate_submission : TaskFault → Bool → ℕ → State → Ending × State
unfolding grade_listed
evaluate_submission fault mark_ok submission_id s =
    grade_listed fault mark_ok submission_id (get_submission submission_id s.db) s
