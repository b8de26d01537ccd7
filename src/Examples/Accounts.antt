-- ===== src/Examples/Accounts.antt =====
-- A hasher that hides nothing, tokens that are their payload, and keys as functions: the theorems on
-- sessions at one user.
use chipatelier.Prelude.{
  ℕ, ◌+◌, ◌<◌, ◌≡◌, refl, sym, ◌∙◌, String, Bool, true, false, ◌&&◌, Option, none, some, [], ◌∷◌,
  arith, ◌==◌, str_eq, eq_iff, ltb, if◌then◌else◌, select, find?, ==_refl, Bool-cases, inl, inr,
}
use chipatelier.Http.{HttpError, ok, err}
use chipatelier.Model.{User, admin}
use chipatelier.Auth.Store.{Payload, Crypto, Key, denylist, pwreset, ratelimit, KeyStore, refresh}
use chipatelier.Auth.{
  World, TokenResponse, password_ok, with_login, login, logout, refresh_token, get_current_user,
  reset_password, register, create_access_token, create_refresh_token,
}
use chipatelier.Auth.Accounts.{EmailsDistinct, register-EmailsDistinct}
use chipatelier.Auth.Admin.{generate_reset_token, reset_login}
use chipatelier.Auth.Sessions.{login_session, logout_revokes}
use chipatelier.Examples.Data.{alice, sample_db}

abbrev pub unless_expired : ℕ → Option ℕ → Payload → Option Payload
unless_expired now none p = some p
unless_expired now (some e) p = if ltb now e then some p else none

plain_fresh :
    (now e : ℕ) (p q : Payload) → unless_expired now p.exp p ≡ some q → q.exp ≡ some e → now < e
plain_fresh now e p q h k = ground arith

plain_same : (t : ℕ) (p q : Payload) → unless_expired t p.exp p ≡ some q → p ≡ q
plain_same t p q h = ground arith

plain_decoded :
    (now e : ℕ) (p : Payload) → p.exp ≡ some e → now < e → unless_expired now p.exp p ≡ some p
plain_decoded now e p h k = ground arith

abbrev plain_crypto : Crypto
plain_crypto = record {
  hash = λ salt plain. plain;
  verify = λ hashed plain. str_eq hashed plain;
  Token = Payload;
  encode = λ p. p;
  decode = λ now p. unless_expired now p.exp p;
  is_blank = λ p. false;
  verify-hash = λ salt plain. (eq_iff plain plain).1 refl;
  decode-encode = λ now e p h k. plain_decoded now e p h k;
  decode_fresh = λ now e token p h k. plain_fresh now e token p h k;
  decode_same = λ t u token p q h k. sym (plain_same t token p h) ∙ plain_same u token q k;
}

abbrev pub key_eq : Key → Key → Bool
key_eq (denylist j) (denylist k) = j == k
key_eq (pwreset s) (pwreset t) = str_eq s t
key_eq (ratelimit s x) (ratelimit t y) = str_eq s t && str_eq x y
key_eq _ _ = false

key_eq_refl : (k : Key) → key_eq k k ≡ true
key_eq_refl (denylist j) = ==_refl j
key_eq_refl (pwreset s) = (eq_iff s s).1 refl
key_eq_refl (ratelimit s x) = rw ((eq_iff s s).1 refl) ((eq_iff x x).1 refl)

abbrev pub unless_gone : ℕ → Option (String × ℕ) → Option String
unless_gone now none = none
unless_gone now (some (value, ends)) = if ltb now ends then some value else none

kept :
    (later ends : ℕ) (value : String) (b : Bool) (o : Option (String × ℕ))
    → b ≡ true
    → later < ends
    → unless_gone later (if b then some (value, ends) else o) ≡ some value
kept later ends value b o h k = ground arith

gone :
    (later : ℕ) (b : Bool) (o : Option (String × ℕ))
    → b ≡ true
    → unless_gone later (if b then none else o) ≡ none
gone later b o h = ground arith

abbrev key_functions : KeyStore
key_functions = record {
  Store = (Key → Option (String × ℕ)) × (Key → ℕ);
  set_ex = λ now k value ttl s. ((λ j. if key_eq k j then some (value, now + ttl) else s.0 j), s.1);
  get = λ now k s. unless_gone now (s.0 k);
  getdel = λ now k s. (unless_gone now (s.0 k), ((λ j. if key_eq k j then none else s.0 j), s.1));
  incr = λ now k s. (s.1 k + 1, (s.0, λ j. if key_eq k j then s.1 j + 1 else s.1 j));
  expire = λ now k ttl s. s;
  get-set_ex = λ now later ttl k value s h.
      kept later (now + ttl) value (key_eq k k) (s.0 k) (key_eq_refl k) h;
  get-getdel = λ now later k s. gone later (key_eq k k) (s.0 k) (key_eq_refl k);
  getdel_value = λ now k s. refl;
}

abbrev member : User
member = record alice { password_hash = some "secret" }

abbrev accounts : World plain_crypto key_functions 900 604800
accounts = record { db = record sample_db { users = member ∷ [] }; keys = (λ k. none, λ k. 0) }

login_session_example :
    (tokens : TokenResponse plain_crypto key_functions 900 604800) × ((login plain_crypto
        key_functions 900 604800 100 5 "alice@uni.edu" "secret" accounts).0
      ≡ ok tokens)
    × ((get_current_user plain_crypto key_functions 900 604800 200 tokens.access_token
          (login plain_crypto key_functions 900 604800 100 5 "alice@uni.edu" "secret" accounts).1).0
        ≡ ok (with_login 100 member))
unfolding select find? password_ok
login_session_example =
    login_session plain_crypto key_functions 900 604800 accounts 100 5 200 "alice@uni.edu" "secret"
      member refl refl refl refl (omega arith)

abbrev session : Payload
session = record { sub = some 1; token_type = refresh; jti = some 5; exp = some 1000 }

logout_revokes_example :
    (error : HttpError) × ((refresh_token plain_crypto key_functions 900 604800 200
        (some session)
        (logout plain_crypto key_functions 900 604800 100 true (some session) accounts).1).0
      ≡ err error)
logout_revokes_example =
    logout_revokes plain_crypto key_functions 900 604800 accounts 100 200 1000 5 true session
      session refl refl refl (inr (λ e. omega (arith, e)))

member-EmailsDistinct : EmailsDistinct accounts.db
unfolding select
member-EmailsDistinct email = elim (Bool-cases (str_eq "alice@uni.edu" email)) [
  | inl e ↦ ground arith
  | inr e ↦ ground arith
]

register-EmailsDistinct_example :
    EmailsDistinct
      (register plain_crypto key_functions 900 604800
        (λ db. db)
        6
        7
        "bob@uni.edu"
        none
        "pw"
        accounts).1.db
register-EmailsDistinct_example =
    register-EmailsDistinct plain_crypto key_functions 900 604800 accounts (λ db. db) 6 7
      "bob@uni.edu" none "pw" (λ h. h) member-EmailsDistinct

abbrev boss : User
boss = record alice { id = 2; email = "boss@uni.edu"; role = admin }

issued :
    (generate_reset_token plain_crypto key_functions 900 604800 100 "TOKEN234" "alice@uni.edu" boss
      accounts).0
    ≡ ok (record { token = "TOKEN234"; expires_in_seconds = 3600 })
unfolding generate_reset_token select
issued = refl

reset_login_example :
    ((reset_password plain_crypto key_functions 900 604800 200 7 "alice@uni.edu" "TOKEN234" "better"
        (generate_reset_token plain_crypto key_functions 900 604800 100 "TOKEN234" "alice@uni.edu"
          boss accounts).1).0
      ≡ ok tt)
    × ((login plain_crypto key_functions 900 604800 300 5 "alice@uni.edu" "better"
          (reset_password plain_crypto key_functions 900 604800 200 7 "alice@uni.edu" "TOKEN234"
            "better"
            (generate_reset_token plain_crypto key_functions 900 604800 100 "TOKEN234"
              "alice@uni.edu" boss accounts).1).1).0
        ≡ ok (record {
          access_token = create_access_token plain_crypto key_functions 900 604800 300 1;
          refresh_cookie = create_refresh_token plain_crypto key_functions 900 604800 300 5 1;
        }))
unfolding select
reset_login_example =
    reset_login plain_crypto key_functions 900 604800 100 200 "TOKEN234" "alice@uni.edu" boss member
      accounts (record { token = "TOKEN234"; expires_in_seconds = 3600 }) 7 5 300 "better" issued
      refl refl refl (omega arith)
