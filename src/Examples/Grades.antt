-- ===== src/Examples/Grades.antt =====
-- The theorems on grading, at a run that passes its gate and earns partial credit.
use chipatelier.Prelude.{
  String, ◌≡◌, ◌≢◌, refl, true, false, not, Option, none, some, List, [], ◌∷◌, arith, lookup,
  if◌then◌else◌, All, map_option, find?, or_else,
}
use chipatelier.Prelude.Int.{ℤ, pos, negsuc, ◌≤ℤ◌, ◌+ℤ◌}
use chipatelier.Model.{CheckpointResults, Run, Submission, GradingStatus}
use chipatelier.Grading.{
  evaluate_checkpoint_rules, metric_of, compare_metric, hard_loop, hard_result, scored_loop,
  scored_result, award, partial_award,
}
use chipatelier.Grading.Scores.{all_passed, sum_awarded, evaluate_score}
use chipatelier.Grading.Bounds.{IsFair, max_total, score_bounds}
use chipatelier.Grading.Totality.{evaluate_total, HasKeys}
use chipatelier.Submissions.{get_assignment}
use chipatelier.Submissions.Task
use chipatelier.Submissions.Task.{
  State, no_fault, publish_fails, returned, reraised, get_submission, graded, marked_failed,
  marked_submitted, evaluate_submission,
}
use chipatelier.Submissions.Outcome.{task_grades}
use chipatelier.Jobs.{get_run}
use chipatelier.Examples.Data.{sample_db, lab, finished_run, submission, drc_gate, slack_rule}

abbrev pub sample_results : CheckpointResults
sample_results = record {
  hard =
      record {
        metric = "drc_violations";
        op = "eq";
        threshold = pos 0;
        actual = some (pos 0);
        passed = true;
      }
      ∷ [];
  scored =
      record {
        metric = "worst_negative_slack";
        op = "gte";
        threshold = negsuc 0;
        actual = some (negsuc 4);
        passed = false;
        awarded = pos 20;
        max_points = pos 40;
        partial_credit = true;
      }
      ∷ [];
  hard_gate_blocked = false;
}

abbrev sample_ppa : List (String × Option ℤ)
sample_ppa = or_else finished_run.ppa []

sample_evaluated :
    evaluate_checkpoint_rules sample_ppa lab.checkpoint_rules ≡ some (sample_results, pos 20)
unfolding evaluate_checkpoint_rules hard_loop hard_result scored_loop scored_result award
    partial_award metric_of lookup compare_metric ◌+ℤ◌
sample_evaluated = refl

evaluate_score_example :
    (sample_results.hard_gate_blocked ≡ not (all_passed sample_results.hard))
    × (pos 20
        ≡ (if all_passed sample_results.hard then sum_awarded sample_results.scored else pos 0))
evaluate_score_example =
    evaluate_score sample_ppa lab.checkpoint_rules sample_results (pos 20) sample_evaluated

rules-IsFair : All IsFair lab.checkpoint_rules.scored
rules-IsFair = ((omega arith, omega arith, omega arith), tt)

score_bounds_example : (pos 0 ≤ℤ pos 20) × (pos 20 ≤ℤ max_total lab.checkpoint_rules.scored)
score_bounds_example =
    score_bounds sample_ppa lab.checkpoint_rules sample_results (pos 20) rules-IsFair
      sample_evaluated

gate-HasKeys : HasKeys drc_gate
gate-HasKeys = (λ e. ground arith, λ e. ground arith, λ e. ground arith)

slack-HasKeys : HasKeys slack_rule
slack-HasKeys = (λ e. ground arith, λ e. ground arith, λ e. ground arith)

evaluate_total_example : evaluate_checkpoint_rules sample_ppa lab.checkpoint_rules ≢ none
evaluate_total_example =
    evaluate_total sample_ppa lab.checkpoint_rules (gate-HasKeys, tt) (slack-HasKeys, tt) (refl, tt)

abbrev task_state : State
task_state = record { db = sample_db; published = [] }

task_evaluated :
    evaluate_checkpoint_rules
      (Task.ppa_of (get_run 2 sample_db))
      (Task.rules_of (get_assignment 20 sample_db))
    ≡ some (sample_results, pos 20)
unfolding find?
task_evaluated = sample_evaluated

submission_listed : get_submission 4 sample_db ≡ some submission
unfolding find?
submission_listed = refl

task_grades_example :
    ((t : Submission) × (get_submission 4 (evaluate_submission no_fault true 4 task_state).1.db
        ≡ some t)
      × (t.score ≡ some (pos 20))
      × (t.checkpoint_results ≡ some sample_results)
      × (t.grading_status ≡ GradingStatus.complete))
    × (get_run 2 (evaluate_submission no_fault true 4 task_state).1.db
        ≡ map_option (λ (run : Run). record run { is_submitted = true }) (get_run 2 sample_db))
    × ((evaluate_submission no_fault true 4 task_state).0 ≡ returned)
    × ((evaluate_submission no_fault true 4 task_state).1.published
        ≡ record {
          run_id = 2;
          score = pos 20;
          checkpoint_results = sample_results;
          submission_id = 4;
        }
          ∷ [])
task_grades_example =
    task_grades true 4 task_state submission sample_results (pos 20) submission_listed
      task_evaluated no_fault
