-- ===== src/Submissions.antt =====
-- Submissions: backend/app/api/routes/submissions.py.
-- `repr` is what Python's `str` gives for a dict of texts.
pub mod Task
pub mod Outcome
pub mod Locked
pub mod Submit
pub mod Best
pub mod Places
pub mod Leaderboard
use chipatelier.Prelude.{
  ℕ, zero, suc, ◌+◌, String, Bool, true, false, not, ◌&&◌, ◌||◌, Option, none, some, List, [], ◌∷◌,
  ◌++◌, ◌==◌, str_eq, leb, select, find?, lookup, length, if◌then◌else◌, or_else, is_some, order_by,
  any,
}
use chipatelier.Prelude.Int.{ℤ, ltb_ℤ, leb_ℤ, eqb_ℤ}
use chipatelier.Http.{
  Handler, Result, ok, err, pure, raise, require, found, scalar_one_or_none, gets, modify, ◌>>=◌,
  ◌>>◌, assignment_not_found, run_not_found, not_enrolled, assignment_closed, not_run_owner,
  run_not_complete, locked_param_mismatch, key_error,
}
use chipatelier.Model.{
  User, Project, Run, CourseEnrollment, Assignment, Submission, Setting, null, text, table, Db,
  Backend, pending, evaluate_submission, is_complete, CheckpointResults, Ppa,
}
use chipatelier.Jobs.{get_run, get_project, owned_by}
use chipatelier.Grading.{evaluate_checkpoint_rules, metric_of}

abbrev pub get_assignment : ℕ → Db → Option Assignment
get_assignment assignment_id db = find? (λ (a : Assignment). a.id == assignment_id) db.assignments

-- `_get_assignment_or_404`
unfoldable pub get_assignment_or_404 : ℕ → Handler Backend Assignment
get_assignment_or_404 assignment_id = do
  assignment ← gets (λ (b : Backend). get_assignment assignment_id b.db)
  found assignment assignment_not_found

-- `_get_run_or_404`
unfoldable pub get_run_or_404 : ℕ → Handler Backend Run
get_run_or_404 run_id = do
  run ← gets (λ (b : Backend). get_run run_id b.db)
  found run run_not_found

abbrev pub enrollments_of : ℕ → ℕ → Db → List CourseEnrollment
enrollments_of course_id user_id db =
    select (λ (e : CourseEnrollment). e.course_id == course_id && e.user_id == user_id)
      db.enrollments

-- `_verify_enrollment`
unfoldable pub verify_enrollment : ℕ → ℕ → Handler Backend (Unit {0})
verify_enrollment course_id user_id = do
  rows ← gets (λ (b : Backend). enrollments_of course_id user_id b.db)
  enrollment ← scalar_one_or_none rows
  require (is_some enrollment) not_enrolled

abbrev pub is_empty : List (String × String) → Bool
is_empty [] = true
is_empty (x ∷ xs) = false

abbrev pub new_submission : ℕ → ℕ → ℕ → ℕ → ℕ → Submission
new_submission id now assignment_id user_id run_id = record {
  id = id;
  assignment_id = assignment_id;
  user_id = user_id;
  run_id = run_id;
  checkpoint_results = none;
  score = none;
  grading_status = pending;
  submitted_at = now;
}

abbrev pub add_submission : Submission → Backend → Backend
add_submission submission b = record b {
  db = record b.db { submissions = b.db.submissions ++ submission ∷ [] };
}

pub record PreviewScoreResponse : Type 0 where
  pub checkpoint_results : CheckpointResults
  pub score : ℤ
  pub is_eligible : Bool

module _ (repr : List (String × String) → String) where
  -- `str(actual)`
  unfoldable pub str_of : Option Setting → String
  str_of none = "None"
  str_of (some null) = "None"
  str_of (some (text t)) = t
  str_of (some (table t)) = repr t

  -- `_validate_locked_params`: the locked parameters that the run's config does not match
  unfoldable pub validate_locked_params : Run → Assignment → List (String × String)
  unfolding str_of
  validate_locked_params run assignment =
      select
        (λ (p : String × String). not (str_eq (str_of (lookup p.0 (or_else run.config []))) p.1))
        assignment.locked_params

  -- POST /assignments/{assignment_id}/submit; `new_id` is the id of the new row
  unfoldable pub submit_run : ℕ → ℕ → ℕ → ℕ → User → Handler Backend Submission
  unfolding get_assignment_or_404 get_run_or_404 verify_enrollment
  submit_run new_id now assignment_id run_id user = do
    assignment ← get_assignment_or_404 assignment_id
    require assignment.is_open assignment_closed
    verify_enrollment assignment.course_id user.id
    run ← get_run_or_404 run_id
    project ← gets (λ (b : Backend). get_project run.project_id b.db)
    require (owned_by project user) not_run_owner
    require (is_complete run.status) run_not_complete
    require (is_empty (validate_locked_params run assignment)) locked_param_mismatch
    let submission = new_submission new_id now assignment_id user.id run_id
    modify (add_submission submission)
    modify (λ (b : Backend). record b { sent = b.sent ++ evaluate_submission new_id ∷ [] })
    pure submission

  -- GET /assignments/{assignment_id}/preview-score
  unfoldable pub preview_score : ℕ → ℕ → User → Handler Backend PreviewScoreResponse
  unfolding get_assignment_or_404 get_run_or_404
  preview_score assignment_id run_id user = do
    assignment ← get_assignment_or_404 assignment_id
    run ← get_run_or_404 run_id
    project ← gets (λ (b : Backend). get_project run.project_id b.db)
    require (owned_by project user) not_run_owner
    evaluated ←
        found (evaluate_checkpoint_rules (or_else run.ppa []) assignment.checkpoint_rules) key_error
    pure (record {
      checkpoint_results = evaluated.0;
      score = evaluated.1;
      is_eligible = is_empty (validate_locked_params run assignment);
    })

-- GET /assignments/{assignment_id}/submissions/mine: newest first
unfoldable pub list_my_submissions : ℕ → User → Handler Backend (List Submission)
unfolding get_assignment_or_404
list_my_submissions assignment_id user = do
  assignment ← get_assignment_or_404 assignment_id
  gets (λ (b : Backend).
      order_by (λ (s t : Submission). leb t.submitted_at s.submitted_at)
        (select (λ (s : Submission). s.assignment_id == assignment_id && s.user_id == user.id)
          b.db.submissions))

-- `max`, where NULL is less than every score
abbrev pub max_score : Option ℤ → Option ℤ → Option ℤ
max_score none t = t
max_score (some s) none = some s
max_score (some s) (some t) = some (if leb_ℤ s t then t else s)

-- `func.max(Submission.score)`
unfoldable pub best_score : List Submission → Option ℤ
best_score [] = none
best_score (s ∷ ss) = max_score s.score (best_score ss)

abbrev pub submissions_of : ℕ → ℕ → Db → List Submission
submissions_of assignment_id user_id db =
    select (λ (s : Submission). s.assignment_id == assignment_id && s.user_id == user_id)
      db.submissions

-- `Submission.score == best_score`: NULL equals nothing
abbrev pub scores_equal : Option ℤ → Option ℤ → Bool
scores_equal (some s) (some t) = eqb_ℤ s t
scores_equal _ _ = false

-- A row of the leaderboard query: the user, the best score and the run's metrics.
pub record LeaderRow : Type 0 where
  pub user_id : ℕ
  pub score : Option ℤ
  pub wns : Option ℤ

-- `(row.ppa or {}).get("worst_negative_slack")`
abbrev pub wns_of : Run → Option ℤ
wns_of run = metric_of (or_else run.ppa []) "worst_negative_slack"

-- The rows that one submission joins with: its run's, if it has the best score of its user.
unfoldable pub join_row : ℕ → Db → Submission → List LeaderRow
join_row assignment_id db s =
    if scores_equal s.score (best_score (submissions_of assignment_id s.user_id db))
    then elim (get_run s.run_id db) [
      | none ↦ []
      | some run ↦
          record {
            user_id = s.user_id;
            score = best_score (submissions_of assignment_id s.user_id db);
            wns = wns_of run;
          }
          ∷ []
    ]
    else []

unfoldable pub join_rows : ℕ → Db → List Submission → List LeaderRow
unfolding join_row
join_rows assignment_id db [] = []
join_rows assignment_id db (s ∷ ss) = join_row assignment_id db s ++ join_rows assignment_id db ss

-- Descending, with NULL last.
abbrev pub desc_nullslast : Option ℤ → Option ℤ → Bool
desc_nullslast s none = true
desc_nullslast none (some t) = false
desc_nullslast (some s) (some t) = leb_ℤ t s

-- `ORDER BY best_score DESC NULLS LAST, wns DESC NULLS LAST`
abbrev pub row_before : LeaderRow → LeaderRow → Bool
row_before r q =
    if scores_equal r.score q.score
    then desc_nullslast r.wns q.wns
    else desc_nullslast r.score q.score

pub record LeaderEntry : Type 0 where
  pub rank : ℕ
  pub score : Option ℤ
  pub wns : Option ℤ
  pub user_id : ℕ
  pub is_self : Bool

-- `for i, row in enumerate(sorted_rows)`, from the given rank on
unfoldable pub entries_from : ℕ → ℕ → List LeaderRow → List LeaderEntry
entries_from rank self [] = []
entries_from rank self (r ∷ rs) =
    record {
      rank = rank;
      score = r.score;
      wns = r.wns;
      user_id = r.user_id;
      is_self = r.user_id == self;
    }
    ∷ entries_from (rank + 1) self rs

-- GET /assignments/{assignment_id}/leaderboard
unfoldable pub get_leaderboard : ℕ → User → Handler Backend (List LeaderEntry)
unfolding get_assignment_or_404
get_leaderboard assignment_id user = do
  assignment ← get_assignment_or_404 assignment_id
  gets (λ (b : Backend). entries_from 1 user.id (
      order_by row_before (
        join_rows assignment_id b.db
          (select (λ (s : Submission). s.assignment_id == assignment_id) b.db.submissions))))
