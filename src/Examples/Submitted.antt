-- ===== src/Examples/Submitted.antt =====
-- The theorems on submissions, at a complete run that has the locked parameter.
use chipatelier.Prelude.{
  ◌==◌, String, ◌≢◌, refl, true, false, some, List, [], ◌∷◌, arith, lookup, All, eq_iff, find?,
  select, order_by, insert_by,
}
use chipatelier.Prelude.Int.{pos, negsuc}
use chipatelier.Model.{Backend, Submission, GradingStatus, normal}
use chipatelier.Grading.{metric_of}
use chipatelier.Jobs.{new_run}
use chipatelier.Submissions.{
  submit_run, validate_locked_params, str_of, new_submission, get_leaderboard, LeaderEntry,
  entries_from, join_row, join_rows, best_score, get_assignment_or_404,
}
use chipatelier.Submissions.Submit.{CanSubmit, submit_run-CanSubmit}
use chipatelier.Submissions.Locked.{submitted_run_mismatch}
use chipatelier.Submissions.Places.{Placed}
use chipatelier.Submissions.Leaderboard.{Ranked, Ordered, IsBest, row_of, leaderboard_lem}
use chipatelier.Examples.Data.{alice, sample_db, sample_backend, lab, submission, request, chosen}

-- How a dict prints plays no part here.
abbrev repr : List (String × String) → String
repr d = "{…}"

submit_run-CanSubmit_example : CanSubmit repr 20 2 alice sample_backend
unfolding submit_run find? select lookup str_of validate_locked_params
submit_run-CanSubmit_example =
    submit_run-CanSubmit repr 6 7 20 2 alice sample_backend (new_submission 6 7 20 1 2) refl

submitted_run_mismatch_example :
    validate_locked_params repr (new_run chosen request normal) lab ≢ []
unfolding lookup
submitted_run_mismatch_example =
    submitted_run_mismatch repr chosen request normal lab "CORE_UTILIZATION" "40" refl
      (λ e. ground (arith, eq_iff "CORE_UTILIZATION" "locked_params"))
      (λ e. ground (arith, eq_iff "CORE_UTILIZATION" "config_overrides"))
      (λ e. ground (arith, eq_iff "40" "None"))

-- Two users; the first has submitted twice.
abbrev graded_backend : Backend
graded_backend = record sample_backend {
  db = record sample_db {
    submissions =
        record submission { score = some (pos 20); grading_status = GradingStatus.complete }
        ∷ record submission { id = 5; score = some (pos 10) }
        ∷ record submission { id = 6; user_id = 3; score = some (pos 30) }
        ∷ [];
  };
}

abbrev entries : List LeaderEntry
entries =
    record { rank = 1; score = some (pos 30); wns = some (negsuc 4); user_id = 3; is_self = false }
    ∷ record { rank = 2; score = some (pos 20); wns = some (negsuc 4); user_id = 1; is_self = true }
    ∷ []

leaderboard_lem_example :
    Ranked 1 entries
    × Ordered entries
    × All (λ (e : LeaderEntry). IsBest 20 graded_backend.db (row_of e)) entries
    × All
        (λ (s : Submission). Placed 20 graded_backend.db entries s)
        (select (λ (s : Submission). s.assignment_id == 20) graded_backend.db.submissions)
unfolding get_leaderboard get_assignment_or_404 find? select join_rows join_row best_score metric_of
    lookup order_by insert_by entries_from
leaderboard_lem_example = leaderboard_lem 20 alice graded_backend entries refl
