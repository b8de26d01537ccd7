-- ===== src/Auth/Sessions.antt =====
-- Sessions: a login opens one, a logout ends it, and a reset token works once.
use chipatelier.Prelude.{
  ℕ, ◌+◌, ◌-◌, ◌<◌, ◌≡◌, max, sym, refl, ◌≢◌, ◌⊎◌, if◌then◌else◌, String, Bool, true, false, none,
  some, [], ◌∷◌, arith, find?-update_where, Option-cases, Bool-cases, inl, inr,
}
use chipatelier.Http.{
  HttpError, ok, err, invalid_reset_token, no_refresh_token, invalid_refresh_token, token_revoked,
  wrong_token_type,
}
use chipatelier.Model.{User}
use chipatelier.Auth.Store.{Payload, access, Crypto, KeyStore, denylist, pwreset}
use chipatelier.Auth.{
  World, TokenResponse, create_access_token, create_refresh_token, password_ok, users_with,
  get_user, with_login, login, logout, refresh_token, get_current_user, reset_password, is_refresh,
  is_denied,
}

module _ (C : Crypto) (K : KeyStore) (access_ttl refresh_ttl : ℕ)
    (w : World C K access_ttl refresh_ttl) where
  -- An active user whose password is right, the only one with that email and id, can log in, and
  -- until it expires the access token identifies that user.
  pub login_session :
      (now jti t : ℕ) (email password : String) (user : User)
      → users_with email w.db ≡ user ∷ []
      → get_user user.id w.db ≡ some user
      → password_ok C K access_ttl refresh_ttl password user.password_hash ≡ true
      → user.is_active ≡ true
      → t < now + access_ttl
      → (tokens : TokenResponse C K access_ttl refresh_ttl) × ((login C K access_ttl refresh_ttl now
            jti email password w).0
          ≡ ok tokens)
        × ((get_current_user C K access_ttl refresh_ttl t tokens.access_token
              (login C K access_ttl refresh_ttl now jti email password w).1).0
            ≡ ok (with_login now user))
  unfolding login get_current_user create_access_token
  login_session now jti t email password user only listed right active fresh = (
    record {
      access_token = create_access_token C K access_ttl refresh_ttl now user.id;
      refresh_cookie = create_refresh_token C K access_ttl refresh_ttl now jti user.id;
    },
    ground arith,
    ground (
      arith,
      C.decode-encode t (now + access_ttl)
          (record {
            sub = some user.id;
            token_type = access;
            jti = none;
            exp = some (now + access_ttl);
          })
          refl fresh,
      find?-update_where (λ (u : User). u.id) (with_login now) user.id user.id w.db.users
          (λ u. refl),
    ),
  )

  denied_refused :
      (later : ℕ) (token : C.Token) (payload : Payload) (v : World C K access_ttl refresh_ttl)
      → C.is_blank token ≡ false
      → C.decode later token ≡ some payload
      → is_refresh payload.token_type ≡ true
      → is_denied C K access_ttl refresh_ttl later payload.jti v ≡ true
      → (refresh_token C K access_ttl refresh_ttl later (some token) v).0 ≡ err token_revoked
  unfolding refresh_token
  denied_refused later token payload v given decoded refreshes denied =
      rw given (rw decoded (rw refreshes (rw denied)))

  logout-is_denied :
      (now later e jti : ℕ) (within : Bool) (token : C.Token) (payload same : Payload)
      → C.decode now token ≡ some payload
      → payload ≡ same
      → payload.jti ≡ some jti
      → payload.exp ≡ some e
      → C.is_blank token ≡ false
      → later < e
      → (within ≡ false) ⊎ (later + 1 ≢ e)
      → is_denied C K access_ttl refresh_ttl later same.jti
          (logout C K access_ttl refresh_ttl now within (some token) w).1
        ≡ true
  unfolding logout
  logout-is_denied now later e jti within token payload same decoded q with_jti with_exp given alive
        early =
      let in_time : later < now + max 1 (e - now - (if within then 1 else 0)) = ground arith in
      rw (sym q) (
        rw given (
          rw decoded (
            rw with_jti (
              rw with_exp (
                rw (
                  K.get-set_ex now later (max 1 (e - now - (if within then 1 else 0)))
                    (denylist jti) "1" w.keys in_time))))))

  -- Behind a logout at the start of a second the refresh token of the session is refused at every
  -- time; behind one within a second it is refused but in the last second before it expires, where
  -- the rounded time to live of its denylist entry may have run out.
  pub logout_revokes :
      (now later e jti : ℕ) (within : Bool) (token : C.Token) (payload : Payload)
      → C.decode now token ≡ some payload
      → payload.jti ≡ some jti
      → payload.exp ≡ some e
      → (within ≡ false) ⊎ (later + 1 ≢ e)
      → (error : HttpError) × ((refresh_token C K access_ttl refresh_ttl later
            (some token)
            (logout C K access_ttl refresh_ttl now within (some token) w).1).0
          ≡ err error)
  unfolding refresh_token logout
  logout_revokes now later e jti within token payload decoded with_jti with_exp early =
      elim (Bool-cases (C.is_blank token)) [
        | inl blank ↦ (no_refresh_token, ground arith)
        | inr given ↦ elim (Option-cases (C.decode later token)) [
          | inl refused ↦ (invalid_refresh_token, ground arith)
          | inr (same, again) ↦
              let same_payload : payload ≡ same =
                C.decode_same now later token payload same decoded again in
              let alive : later < e = C.decode_fresh later e token same again (ground arith) in
              let now_denied : is_denied C K access_ttl refresh_ttl later same.jti
                    (logout C K access_ttl refresh_ttl now within (some token) w).1
                  ≡ true =
                logout-is_denied now later e jti within token payload same decoded same_payload
                  with_jti with_exp given alive early in
              elim (Bool-cases (is_refresh same.token_type)) [
                | inl refreshes ↦ (
                  token_revoked,
                  denied_refused later token same _ given again refreshes now_denied,
                )
                | inr other ↦ (wrong_token_type, ground arith)
              ]
        ]
      ]

  -- Whatever a reset answers, the token that was stored for the email is gone: a second reset is
  -- refused.
  pub reset_once :
      (now later salt salt' : ℕ) (email token token' p p' : String)
      → (reset_password C K access_ttl refresh_ttl later salt' email token' p'
          (reset_password C K access_ttl refresh_ttl now salt email token p w).1).0
        ≡ err invalid_reset_token
  unfolding reset_password
  reset_once now later salt salt' email token token' p p' = ground (
    arith,
    K.get-getdel now later (pwreset email) w.keys,
    K.getdel_value later (pwreset email) (K.getdel now (pwreset email) w.keys).1,
  )
