-- ===== src/Submissions/Locked.antt =====
-- The locked parameters of an assignment against the config that a submitted run has.
use chipatelier.Prelude.{
  String, ◌≡◌, ◌≢◌, Bool, false, not, some, List, [], arith, str_eq, eq_iff, lookup, or_else, All,
  All-mono, All-lookup, select-nil, nil-select, ◌↔◌,
}
use chipatelier.Model.{Run, Assignment, Priority}
use chipatelier.Jobs.{Fresh, SubmitRequest, new_run}
use chipatelier.Submissions.{str_of, validate_locked_params}

module _ (repr : List (String × String) → String) where
  abbrev pub Matches : Run → String × String → Type 0
  Matches run p = str_of repr (lookup p.0 (or_else run.config [])) ≡ p.1

  reported : Run → String × String → Bool
  reported run p = not (str_eq (str_of repr (lookup p.0 (or_else run.config []))) p.1)

  reported-Matches : (run : Run) (p : String × String) → reported run p ≡ false → Matches run p
  unfolding reported
  reported-Matches run p h =
      (eq_iff (str_of repr (lookup p.0 (or_else run.config []))) p.1).0 (ground arith)

  Matches-reported : (run : Run) (p : String × String) → Matches run p → reported run p ≡ false
  unfolding reported
  Matches-reported run p h =
      ground (arith, (eq_iff (str_of repr (lookup p.0 (or_else run.config []))) p.1).1 h)

  -- No error is reported exactly if the run's config has every locked parameter, as a text, at its
  -- locked value.
  pub validate_iff :
      (run : Run) (assignment : Assignment)
      → (validate_locked_params repr run assignment ≡ [])
        ↔ All (Matches run) assignment.locked_params
  unfolding validate_locked_params reported
  validate_iff run assignment = (
    λ e.
        All-mono assignment.locked_params (reported-Matches run)
          (select-nil (reported run) assignment.locked_params e),
    λ h.
        nil-select (reported run) assignment.locked_params
          (All-mono assignment.locked_params (Matches-reported run) h),
  )

  -- A run that a job submission created keeps the student's overrides below the key
  -- `config_overrides`, so a locked parameter of any other name but `locked_params` is reported as a
  -- mismatch unless its required value is the text "None", whatever the student has set.
  pub submitted_run_mismatch :
      (fresh : Fresh) (body : SubmitRequest) (priority : Priority) (assignment : Assignment)
      (k v : String)
      → lookup k assignment.locked_params ≡ some v
      → k ≢ "locked_params"
      → k ≢ "config_overrides"
      → v ≢ "None"
      → validate_locked_params repr (new_run fresh body priority) assignment ≢ []
  unfolding lookup str_of
  submitted_run_mismatch fresh body priority assignment k v locked h₁ h₂ h₃ empty =
      let run = new_run fresh body priority in
      let actual =
        All-lookup (Matches run) k assignment.locked_params ((validate_iff run assignment).0 empty)
          locked in
      h₃ (ground (arith, actual, eq_iff "locked_params" k, eq_iff "config_overrides" k))
