-- ===== src/Auth/Admin.antt =====
-- The reset of a password: backend/app/api/routes/admin.py and `require_role` of api/deps.py.
-- The token that eight draws from the token alphabet give is an argument.
use chipatelier.Prelude.{
  ℕ, ◌+◌, ◌<◌, ◌≡◌, ◌∙◌, refl, ap, String, Bool, true, false, some, List, [], ◌∷◌, arith, ◌==◌,
  ==_refl, str_eq, eq_iff, select, update_where,
}
use chipatelier.Http.{
  Handler, ok, pure, require, found, scalar_one_or_none, gets, modify, ◌>>=◌, ◌>>◌, forbidden,
  user_not_found,
}
use chipatelier.Model.{User, Role, is_admin, Db}
use chipatelier.Auth.Store.{Crypto, KeyStore, pwreset}
use chipatelier.Auth.{
  World, users_with, set_user, with_hash, reset_password, login, password_ok, create_access_token,
  create_refresh_token,
}

pub record ResetTokenResponse : Type 0 where
  pub token : String
  pub expires_in_seconds : ℕ

-- A query by a condition that an update keeps.
select-update_where {ℓ} :
    {A : Type ℓ} (p q : A → Bool) (f : A → A) (xs : List A)
    → ((a : A) → p (f a) ≡ p a)
    → select p (update_where q f xs) ≡ update_where q f (select p xs)
unfolding select update_where
select-update_where p q f [] h = refl
select-update_where p q f (x ∷ xs) h = ground (arith, h x, select-update_where p q f xs h)

module _ (C : Crypto) (K : KeyStore) (access_ttl refresh_ttl : ℕ) where
  abbrev pub AuthWorld : Type 0
  AuthWorld = World C K access_ttl refresh_ttl

  -- The dependency that `require_role` builds, behind `get_current_user`
  unfoldable pub require_role : (Role → Bool) → User → Handler AuthWorld User
  require_role roles user = do require (roles user.role) forbidden; pure user

  -- POST /admin/reset-token
  unfoldable pub generate_reset_token :
      ℕ → String → String → User → Handler AuthWorld ResetTokenResponse
  unfolding require_role
  generate_reset_token now token email user = do
    admin ← require_role is_admin user
    rows ← gets (λ (w : AuthWorld). users_with email w.db)
    user ← scalar_one_or_none rows
    user ← found user user_not_found
    modify (λ (w : AuthWorld). record w { keys = K.set_ex now (pwreset email) token 3600 w.keys })
    pure (record { token = token; expires_in_seconds = 3600 })

  -- A reset token is issued to administrators alone, and only for an email that has an account.
  pub issue_needs :
      (now : ℕ) (token email : String) (admin : User) (w : AuthWorld)
      (response : ResetTokenResponse)
      → (generate_reset_token now token email admin w).0 ≡ ok response
      → (is_admin admin.role ≡ true)
        × ((user : User) × (users_with email w.db ≡ user ∷ []))
        × ((generate_reset_token now token email admin w).1
            ≡ record w { keys = K.set_ex now (pwreset email) token 3600 w.keys })
  unfolding generate_reset_token
  issue_needs now token email admin w response h = go (users_with email w.db) refl
    where
      go :
          (rows : List User)
          → users_with email w.db ≡ rows
          → (is_admin admin.role ≡ true)
            × ((user : User) × (users_with email w.db ≡ user ∷ []))
            × ((generate_reset_token now token email admin w).1
                ≡ record w { keys = K.set_ex now (pwreset email) token 3600 w.keys })
      go [] e = absurd (ground arith)
      go (u ∷ v ∷ rows) e = absurd (ground arith)
      go (u ∷ []) e = (ground arith, (u, e), ground arith)

  reset_stored :
      (later salt : ℕ) (token email new_password : String) (w : AuthWorld) (user : User)
      → users_with email w.db ≡ user ∷ []
      → K.get later (pwreset email) w.keys ≡ some token
      → ((reset_password C K access_ttl refresh_ttl later salt email token new_password w).0
          ≡ ok tt)
        × ((reset_password C K access_ttl refresh_ttl later salt email token new_password w).1.db
            ≡ set_user user.id (with_hash (C.hash salt new_password)) w.db)
  unfolding reset_password
  reset_stored later salt token email new_password w user only stored =
      let same : str_eq token token ≡ true = (eq_iff token token).1 refl in
      let taken : (K.getdel later (pwreset email) w.keys).0 ≡ some token =
        K.getdel_value later (pwreset email) w.keys ∙ stored in
      (ground arith, ground arith)

  reset_user :
      (salt : ℕ) (email new_password : String) (db : Db) (user : User)
      → users_with email db ≡ user ∷ []
      → users_with email (set_user user.id (with_hash (C.hash salt new_password)) db)
        ≡ with_hash (C.hash salt new_password) user ∷ []
  unfolding update_where
  reset_user salt email new_password db user only =
      rw
        (select-update_where (λ (u : User). str_eq u.email email) (λ (u : User). u.id == user.id)
          (with_hash (C.hash salt new_password)) db.users (λ u. refl))
        (rw only (rw (==_refl user.id) refl))

  login_stored :
      (now jti salt : ℕ) (email password : String) (w : AuthWorld) (user : User)
      → users_with email w.db ≡ with_hash (C.hash salt password) user ∷ []
      → user.is_active ≡ true
      → str_eq (C.hash salt password) "" ≡ false
      → (login C K access_ttl refresh_ttl now jti email password w).0
        ≡ ok (record {
          access_token = create_access_token C K access_ttl refresh_ttl now user.id;
          refresh_cookie = create_refresh_token C K access_ttl refresh_ttl now jti user.id;
        })
  unfolding login password_ok
  login_stored now jti salt email password w user only active full =
      ground (arith, C.verify-hash salt password)

  -- For an email with one account, which is active, a token that an administrator was given lets its
  -- holder set a password within the hour, if the hash is not the empty text; and with that password
  -- the account is logged in.
  pub reset_login :
      (now later : ℕ) (token email : String) (admin user : User) (w : AuthWorld)
      (response : ResetTokenResponse) (salt jti login_time : ℕ) (new_password : String)
      → (generate_reset_token now token email admin w).0 ≡ ok response
      → users_with email w.db ≡ user ∷ []
      → user.is_active ≡ true
      → str_eq (C.hash salt new_password) "" ≡ false
      → later < now + 3600
      → ((reset_password C K access_ttl refresh_ttl later salt email token new_password
            (generate_reset_token now token email admin w).1).0
          ≡ ok tt)
        × ((login C K access_ttl refresh_ttl login_time jti email new_password
              (reset_password C K access_ttl refresh_ttl later salt email token new_password
                (generate_reset_token now token email admin w).1).1).0
            ≡ ok (record {
              access_token = create_access_token C K access_ttl refresh_ttl login_time user.id;
              refresh_cookie =
                  create_refresh_token C K access_ttl refresh_ttl login_time jti user.id;
            }))
  reset_login now later token email admin user w response salt jti login_time new_password issued
        only active full soon =
      let (granted, account, state) = issue_needs now token email admin w response issued in
      let v : AuthWorld = record w { keys = K.set_ex now (pwreset email) token 3600 w.keys } in
      let (done, db) =
        reset_stored later salt token email new_password v user only
          (K.get-set_ex now later 3600 (pwreset email) token w.keys soon) in
      let after : AuthWorld =
        (reset_password C K access_ttl refresh_ttl later salt email token new_password v).1 in
      let owner : users_with email after.db ≡ with_hash (C.hash salt new_password) user ∷ [] =
        ap (users_with email) db ∙ reset_user salt email new_password v.db user only in
      rw state
        (done, login_stored login_time jti salt email new_password after user owner active full)
