-- ===== src/Auth.antt =====
-- Authentication: backend/app/api/routes/auth.py, api/deps.py and core/security.py.
-- Settings, salts and token ids are arguments.
pub mod Store
pub mod Sessions
pub mod Accounts
pub mod Admin
use chipatelier.Prelude.{
  ℕ, ◌+◌, ◌-◌, max, String, Bool, true, false, not, ◌&&◌, Option, none, some, List, [], ◌∷◌, ◌++◌,
  ◌==◌, ltb, str_eq, select, find?, update_where, if◌then◌else◌, is_some, or_else,
}
use chipatelier.Http.{
  Handler, ok, pure, raise, require, found, scalar_one_or_none, gets, modify, ◌>>=◌, ◌>>◌,
  email_taken, bad_credentials, account_disabled, no_refresh_token, invalid_refresh_token,
  wrong_token_type, token_revoked, invalid_payload, invalid_token, wrong_password, same_password,
  invalid_reset_token, too_many_attempts, forbidden,
}
use chipatelier.Model.{User, Role, student, Db}
use chipatelier.Auth.Store.{
  TokenType, access, refresh, vnc, Payload, Crypto, KeyStore, denylist, pwreset, ratelimit,
}

abbrev pub is_access : TokenType → Bool
is_access access = true
is_access _ = false

abbrev pub is_refresh : TokenType → Bool
is_refresh refresh = true
is_refresh _ = false

abbrev pub get_user : ℕ → Db → Option User
get_user user_id db = find? (λ (u : User). u.id == user_id) db.users

abbrev pub users_with : String → Db → List User
users_with email db = select (λ (u : User). str_eq u.email email) db.users

abbrev pub set_user : ℕ → (User → User) → Db → Db
set_user user_id f db = record db {
  users = update_where (λ (u : User). u.id == user_id) f db.users;
}

abbrev pub with_login : ℕ → User → User
with_login now u = record u { last_login_at = some now }

abbrev pub with_hash : String → User → User
with_hash hashed u = record u { password_hash = some hashed }

abbrev pub new_user : ℕ → String → Option String → String → User
new_user id email display_name hashed = record {
  id = id;
  email = email;
  display_name = display_name;
  role = student;
  password_hash = some hashed;
  is_active = true;
  last_login_at = none;
}

module _ (C : Crypto) (K : KeyStore) (access_ttl refresh_ttl : ℕ) where
  pub record TokenResponse : Type 0 where
    pub access_token : C.Token
    -- the cookie that the response sets
    pub refresh_cookie : C.Token

  pub record World : Type 0 where
    pub db : Db
    pub keys : K.Store

  unfoldable pub create_access_token : ℕ → ℕ → C.Token
  create_access_token now user_id = C.encode (record {
    sub = some user_id;
    token_type = access;
    jti = none;
    exp = some (now + access_ttl);
  })

  unfoldable pub create_refresh_token : ℕ → ℕ → ℕ → C.Token
  create_refresh_token now jti user_id = C.encode (record {
    sub = some user_id;
    token_type = refresh;
    jti = some jti;
    exp = some (now + refresh_ttl);
  })

  -- `user.password_hash and verify_password(password, user.password_hash)`
  unfoldable pub password_ok : String → Option String → Bool
  password_ok password none = false
  password_ok password (some hashed) = not (str_eq hashed "") && C.verify hashed password

  abbrev pub checked : String → Option User → Option User
  checked password none = none
  checked password (some user) = if password_ok password user.password_hash then some user else none

  -- POST /register; `others` is what other requests commit between the check and the commit.
  unfoldable pub register : (Db → Db) → ℕ → ℕ → String → Option String → String → Handler World User
  register others new_id salt email display_name password = do
    rows ← gets (λ (w : World). users_with email w.db)
    existing ← scalar_one_or_none rows
    require (not (is_some existing)) email_taken
    let user = new_user new_id email display_name (C.hash salt password)
    modify (λ (w : World). record w { db = others w.db })
    taken ← gets (λ (w : World). find? (λ (u : User). str_eq u.email email) w.db.users)
    require (not (is_some taken)) email_taken
    modify (λ (w : World). record w { db = record w.db { users = w.db.users ++ user ∷ [] } })
    pure user

  -- POST /login
  unfoldable pub login : ℕ → ℕ → String → String → Handler World TokenResponse
  login now jti email password = do
    rows ← gets (λ (w : World). users_with email w.db)
    user ← scalar_one_or_none rows
    user ← found (checked password user) bad_credentials
    require user.is_active account_disabled
    modify (λ (w : World). record w { db = set_user user.id (with_login now) w.db })
    pure (record {
      access_token = create_access_token now user.id;
      refresh_cookie = create_refresh_token now jti user.id;
    })

  -- `max(1, int(exp - now))`: behind the start of a second, `int` drops what is left of it.
  abbrev pub remaining_ttl : ℕ → Bool → Option ℕ → ℕ
  remaining_ttl now within exp = max 1 (or_else exp 0 - now - (if within then 1 else 0))

  abbrev pub deny : ℕ → Bool → Option ℕ → Option ℕ → World → World
  deny now within none exp w = w
  deny now within (some jti) exp w = record w {
    keys = K.set_ex now (denylist jti) "1" (remaining_ttl now within exp) w.keys;
  }

  abbrev pub deny_payload : ℕ → Bool → Option Payload → World → World
  deny_payload now within none w = w
  deny_payload now within (some payload) w = deny now within payload.jti payload.exp w

  -- POST /logout, in the second `now`, at its start or `within` it
  unfoldable pub logout : ℕ → Bool → Option C.Token → Handler World (Unit {0})
  logout now within cookie = do
    token ← found cookie no_refresh_token
    require (not (C.is_blank token)) no_refresh_token
    modify (deny_payload now within (C.decode now token))

  abbrev pub is_denied : ℕ → Option ℕ → World → Bool
  is_denied now none w = false
  is_denied now (some jti) w = not (str_eq (or_else (K.get now (denylist jti) w.keys) "") "")

  -- POST /refresh
  unfoldable pub refresh_token : ℕ → Option C.Token → Handler World C.Token
  refresh_token now cookie = do
    token ← found cookie no_refresh_token
    require (not (C.is_blank token)) no_refresh_token
    payload ← found (C.decode now token) invalid_refresh_token
    require (is_refresh payload.token_type) wrong_token_type
    denied ← gets (is_denied now payload.jti)
    require (not denied) token_revoked
    user_id ← found payload.sub invalid_payload
    pure (create_access_token now user_id)

  -- The dependency `get_current_user`
  unfoldable pub get_current_user : ℕ → C.Token → Handler World User
  get_current_user now token = do
    payload ← found (C.decode now token) invalid_token
    require (is_access payload.token_type) invalid_token
    user_id ← found payload.sub invalid_token
    user ← gets (λ (w : World). get_user user_id w.db)
    user ← found user invalid_token
    require user.is_active invalid_token
    pure user

  -- POST /change-password
  unfoldable pub change_password : ℕ → String → String → User → Handler World (Unit {0})
  change_password salt current_password new_password user = do
    require (password_ok current_password user.password_hash) wrong_password
    require (not (str_eq new_password current_password)) same_password
    modify (λ (w : World). record w {
      db = set_user user.id (with_hash (C.hash salt new_password)) w.db;
    })

  abbrev pub take_key : ℕ → String → Handler World (Option String)
  take_key now email w =
      let (stored, keys) = K.getdel now (pwreset email) w.keys in
      (ok stored, record w { keys = keys })

  -- POST /reset-password, behind its rate limit
  unfoldable pub reset_password : ℕ → ℕ → String → String → String → Handler World (Unit {0})
  reset_password now salt email token new_password = do
    stored ← take_key now email
    stored ← found stored invalid_reset_token
    require (str_eq stored token) invalid_reset_token
    rows ← gets (λ (w : World). users_with email w.db)
    user ← scalar_one_or_none rows
    user ← found user invalid_reset_token
    modify (λ (w : World). record w {
      db = set_user user.id (with_hash (C.hash salt new_password)) w.db;
    })

  abbrev pub count_request : ℕ → String → String → ℕ → Handler World ℕ
  count_request now prefix ip window w =
      let (count, keys) = K.incr now (ratelimit prefix ip) w.keys in
      (
        ok count,
        record w {
          keys = if count == 1 then K.expire now (ratelimit prefix ip) window keys else keys;
        },
      )

  -- The dependency that `rate_limit` builds
  unfoldable pub rate_limit : String → ℕ → ℕ → ℕ → String → Handler World (Unit {0})
  rate_limit prefix limit window now ip = do
    count ← count_request now prefix ip window
    require (not (ltb limit count)) too_many_attempts
