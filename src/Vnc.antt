-- ===== src/Vnc.antt =====
-- Layout viewer sessions: backend/app/api/routes/vnc.py, `create_vnc_token` of
-- backend/app/core/security.py, and the task of worker/tasks/vnc_session.py.
pub mod Tokens
pub mod Task
pub mod Ports
pub mod Limits
pub mod Minted
pub mod Steps
pub mod Access
use chipatelier.Prelude.{
  ℕ, zero, suc, ◌+◌, String, Bool, true, false, not, ◌&&◌, Option, none, some, List, [], ◌∷◌, ◌++◌,
  ◌==◌, leb, str_eq, select, find?, update_where, any, length, if◌then◌else◌, is_some, or_else,
}
use chipatelier.Prelude.Text.{Text, codes, eq_text, is_truthy}
use chipatelier.Http.{
  Handler, pure, raise, require, found, scalar_one_or_none, gets, modify, ◌>>=◌, ◌>>◌,
  run_not_found, forbidden, run_not_complete, no_artifacts, session_limit, no_ports,
  invalid_vnc_token, wrong_token_type, missing_port, vnc_not_active, session_not_found,
}
use chipatelier.Model.{
  User, Run, VncSession, VncStatus, starting, running, stopped, is_live, is_running, Db, Backend,
  start_vnc, is_complete,
}
use chipatelier.Auth.Store.{TokenType, access, refresh, vnc}
use chipatelier.Jobs.{get_run, get_project, owned_by}
use Tokens.{VncPayload, VncJwt}

-- `{row[0] for row in … if row[0] is not None}`
unfoldable pub used_ports : List VncSession → List ℕ
used_ports [] = []
used_ports (s ∷ ss) =
    let later = used_ports ss in
    elim s.port [ none ↦ later | some port ↦ if is_live s.status then port ∷ later else later ]

-- `for port in range(first, first + n)`
unfoldable pub first_free : ℕ → ℕ → List ℕ → Option ℕ
first_free first zero used = none
first_free first (suc n) used =
    let later = first_free (suc first) n used in
    if any (λ p. p == first) used then later else some first

-- `_find_available_port`: the ports are 6080 to 6099
unfoldable pub find_available_port : Handler Backend ℕ
find_available_port = do
  used ← gets (λ (b : Backend). used_ports b.db.vnc_sessions)
  found (first_free 6080 20 used) no_ports

pub record VncStartResponse : Type 0 where
  pub session_id : ℕ
  pub token : Text
  pub expires_at : ℕ

-- `VncSession.token == token`
abbrev pub eq_token : Option Text → Text → Bool
eq_token none token = false
eq_token (some t) token = eq_text t token

abbrev pub get_session : ℕ → Db → Option VncSession
get_session session_id db = find? (λ (s : VncSession). s.id == session_id) db.vnc_sessions

abbrev pub set_session : ℕ → (VncSession → VncSession) → Db → Db
set_session session_id f db = record db {
  vnc_sessions = update_where (λ (s : VncSession). s.id == session_id) f db.vnc_sessions;
}

abbrev pub live_sessions : Db → List VncSession
live_sessions db = select (λ (s : VncSession). is_live s.status) db.vnc_sessions

abbrev pub running_for : ℕ → ℕ → Db → List VncSession
running_for user_id run_id db =
    select (λ (s : VncSession). s.user_id == user_id && s.run_id == run_id && is_running s.status)
      db.vnc_sessions

-- `existing and existing.token`
abbrev pub token_of : Option VncSession → Option Text
token_of none = none
token_of (some s) = if is_truthy (or_else s.token []) then s.token else none

abbrev pub new_session : ℕ → ℕ → ℕ → ℕ → ℕ → VncSession
new_session id now user_id run_id port = record {
  id = id;
  user_id = user_id;
  run_id = run_id;
  container_id = none;
  port = some port;
  status = starting;
  token = none;
  expires_at = some (now + 7200);
}

abbrev pub with_token : Text → VncSession → VncSession
with_token token s = record s { token = some token }

abbrev pub add_session : VncSession → Db → Db
add_session s db = record db { vnc_sessions = db.vnc_sessions ++ s ∷ [] }

abbrev pub response_of : ℕ → Text → VncSession → VncStartResponse
response_of now token s = record {
  session_id = s.id;
  token = token;
  expires_at = or_else s.expires_at (now + 7200);
}

abbrev pub is_vnc : TokenType → Bool
is_vnc vnc = true
is_vnc _ = false

abbrev pub set_stopped : VncSession → VncSession
set_stopped s = record s { status = stopped }

abbrev pub set_running : String → VncSession → VncSession
set_running container_id s = record s { container_id = some container_id; status = running }

module _ (J : VncJwt) where
  unfoldable pub create_vnc_token : ℕ → ℕ → ℕ → ℕ → Text
  create_vnc_token now user_id run_id port = J.encode (record {
    sub = user_id;
    run_id = run_id;
    port = some port;
    token_type = vnc;
    exp = now + 7200;
  })

  -- Behind the search for a running session: a new one on a free port.
  unfoldable pub open_session : ℕ → ℕ → ℕ → User → Handler Backend VncStartResponse
  unfolding find_available_port create_vnc_token
  open_session new_id now run_id user = do
    port ← find_available_port
    let session = new_session new_id now user.id run_id port
    modify (λ (b : Backend). record b { db = add_session session b.db })
    modify (λ (b : Backend). record b { sent = b.sent ++ start_vnc new_id ∷ [] })
    let token = create_vnc_token now user.id run_id port
    modify (λ (b : Backend). record b { db = set_session new_id (with_token token) b.db })
    pure (response_of now token session)

  -- POST /vnc/start/{run_id}
  unfoldable pub start_vnc_session : ℕ → ℕ → ℕ → ℕ → User → Handler Backend VncStartResponse
  unfolding open_session
  start_vnc_session max_sessions new_id now run_id user = do
    run ← gets (λ (b : Backend). get_run run_id b.db)
    run ← found run run_not_found
    project ← gets (λ (b : Backend). get_project run.project_id b.db)
    require (owned_by project user) forbidden
    require (is_complete run.status) run_not_complete
    require (is_truthy (or_else run.artifact_path [])) no_artifacts
    active_count ← gets (λ (b : Backend). length (live_sessions b.db))
    require (not (leb max_sessions active_count)) session_limit
    rows ← gets (λ (b : Backend). running_for user.id run_id b.db)
    existing ← scalar_one_or_none rows
    elim existing [
      | none ↦ open_session new_id now run_id user
      | some s ↦ elim (token_of (some s)) [
        | none ↦ open_session new_id now run_id user
        | some token ↦ pure (response_of now token s)
      ]
    ]

  -- GET /vnc/validate: the port that Nginx proxies to
  unfoldable pub validate_vnc_token : ℕ → Text → Handler Backend ℕ
  validate_vnc_token now token = do
    payload ← found (J.decode now token) invalid_vnc_token
    require (is_vnc payload.token_type) wrong_token_type
    port ← found payload.port missing_port
    rows ← gets (λ (b : Backend).
        select (λ (s : VncSession). eq_token s.token token && is_running s.status)
          b.db.vnc_sessions)
    session ← scalar_one_or_none rows
    require (is_some session) vnc_not_active
    pure port

-- DELETE /vnc/{session_id}: the container is asked to stop, which may fail
unfoldable pub stop_vnc_session : ℕ → User → Handler Backend (Unit {0})
stop_vnc_session session_id user = do
  session ← gets (λ (b : Backend). get_session session_id b.db)
  session ← found session session_not_found
  require (session.user_id == user.id) forbidden
  modify (λ (b : Backend). record b { db = set_session session_id set_stopped b.db })
