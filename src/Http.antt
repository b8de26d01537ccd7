-- ===== src/Http.antt =====
-- The HTTP errors that the handlers raise, and handlers as state passing functions.
-- (backend/app/api/routes/*.py; every constructor of `HttpError` is a `raise HTTPException`
-- with its own status and detail, or an exception that FastAPI turns into a 500.)
use chipatelier.Prelude.{ℕ, Bool, true, false, Option, none, some, List, [], ◌∷◌}

pub data HttpError : Type 0 where
  -- 400
  no_verilog no_config run_not_active assignment_closed run_not_complete wrong_password
        same_password invalid_reset_token no_artifacts :
      HttpError
  -- 401
  bad_credentials account_disabled no_refresh_token invalid_refresh_token wrong_token_type
        token_revoked invalid_payload invalid_token invalid_vnc_token missing_port vnc_not_active :
      HttpError
  -- 403
  forbidden not_enrolled not_run_owner not_your_run : HttpError
  -- 404
  project_not_found run_not_found assignment_not_found course_not_found invalid_enrollment_code
        user_not_found session_not_found artifacts_not_ready nothing_uploaded :
      HttpError
  -- 409
  active_run already_enrolled email_taken duplicate_name cancel_first : HttpError
  -- 422
  locked_param_mismatch unsupported_extension : HttpError
  -- 429
  too_many_attempts session_limit no_ports : HttpError
  -- 500
  code_exhausted multiple_results key_error integrity_error storage_error query_failed
        missing_project :
      HttpError

-- The status code of the response.
unfoldable pub status_code : HttpError → ℕ
status_code no_verilog = 400
status_code no_config = 400
status_code run_not_active = 400
status_code assignment_closed = 400
status_code run_not_complete = 400
status_code wrong_password = 400
status_code same_password = 400
status_code invalid_reset_token = 400
status_code no_artifacts = 400
status_code bad_credentials = 401
status_code account_disabled = 401
status_code no_refresh_token = 401
status_code invalid_refresh_token = 401
status_code wrong_token_type = 401
status_code token_revoked = 401
status_code invalid_payload = 401
status_code invalid_token = 401
status_code invalid_vnc_token = 401
status_code missing_port = 401
status_code vnc_not_active = 401
status_code forbidden = 403
status_code not_enrolled = 403
status_code not_run_owner = 403
status_code not_your_run = 403
status_code project_not_found = 404
status_code run_not_found = 404
status_code assignment_not_found = 404
status_code course_not_found = 404
status_code invalid_enrollment_code = 404
status_code user_not_found = 404
status_code session_not_found = 404
status_code artifacts_not_ready = 404
status_code nothing_uploaded = 404
status_code active_run = 409
status_code already_enrolled = 409
status_code email_taken = 409
status_code duplicate_name = 409
status_code cancel_first = 409
status_code locked_param_mismatch = 422
status_code unsupported_extension = 422
status_code too_many_attempts = 429
status_code session_limit = 429
status_code no_ports = 429
status_code code_exhausted = 500
status_code multiple_results = 500
status_code key_error = 500
status_code integrity_error = 500
status_code storage_error = 500
status_code query_failed = 500
status_code missing_project = 500

pub data Result {ℓ} (A : Type ℓ) : Type ℓ where
  ok : A → Result A
  err : HttpError → Result A

-- A handler returns its response or raises; what it wrote before a raise stays written.
abbrev pub Handler : Type 0 → Type 0 → Type 0
Handler S A = S → Result A × S

module _ {S A : Type 0} where
  abbrev pub pure : A → Handler S A
  pure a s = (ok a, s)

  abbrev pub raise : HttpError → Handler S A
  raise e s = (err e, s)

  -- `x = …; if x is None: raise …`
  abbrev pub found : Option A → HttpError → Handler S A
  found none e s = (err e, s)
  found (some a) e s = (ok a, s)

  -- `result.scalar_one_or_none()`: several rows raise `MultipleResultsFound`
  abbrev pub scalar_one_or_none : List A → Handler S (Option A)
  scalar_one_or_none [] s = (ok none, s)
  scalar_one_or_none (a ∷ []) s = (ok (some a), s)
  scalar_one_or_none (a ∷ b ∷ rows) s = (err multiple_results, s)

module _ {S : Type 0} where
  -- `if not b: raise …`
  abbrev pub require : Bool → HttpError → Handler S (Unit {0})
  require true e s = (ok tt, s)
  require false e s = (err e, s)

  abbrev pub gets : {A : Type 0} → (S → A) → Handler S A
  gets f s = (ok (f s), s)

  abbrev pub modify : (S → S) → Handler S (Unit {0})
  modify f s = (ok tt, f s)

module _ {S A B : Type 0} where
  abbrev pub proceed : Result A → (A → Handler S B) → Handler S B
  proceed (ok a) k s = k a s
  proceed (err e) k s = (err e, s)

  infixl 5 ◌>>=◌ ◌>>◌
  abbrev pub ◌>>=◌ : Handler S A → (A → Handler S B) → Handler S B
  ◌>>=◌ m k s = proceed (m s).0 k (m s).1

  abbrev pub ◌>>◌ : Handler S A → Handler S B → Handler S B
  m >> k = m >>= λ _. k
