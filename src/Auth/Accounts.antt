-- ===== src/Auth/Accounts.antt =====
-- Accounts: their emails, and what a new password does.
use chipatelier.Prelude.{
  ℕ, ◌≤◌, ◌≡◌, refl, String, true, false, Option, [], ◌∷◌, arith, ◌==◌, str_eq, eq_iff,
  if◌then◌else◌, select, find?-none-select, select-append, length, length-append,
  find?-update_where, map_option,
}
use chipatelier.Http.{ok}
use chipatelier.Model.{User, Db}
use chipatelier.Auth.Store.{Crypto, KeyStore}
use chipatelier.Auth.{
  World, register, users_with, get_user, new_user, with_hash, change_password, password_ok,
}

-- No two users have the same email.
abbrev pub EmailsDistinct : Db → Type 0
EmailsDistinct db = (email : String) → length (users_with email db) ≤ 1

module _ (C : Crypto) (K : KeyStore) (access_ttl refresh_ttl : ℕ)
    (w : World C K access_ttl refresh_ttl) where
  -- If the other requests that commit in the meantime keep the emails of all users distinct, then so
  -- does a registration, whatever it answers.
  pub register-EmailsDistinct :
      (others : Db → Db) (new_id salt : ℕ) (email : String) (display_name : Option String)
      (password : String)
      → (EmailsDistinct w.db → EmailsDistinct (others w.db))
      → EmailsDistinct w.db
      → EmailsDistinct
          (register C K access_ttl refresh_ttl others new_id salt email display_name password
            w).1.db
  unfolding register select
  register-EmailsDistinct others new_id salt email display_name password keeps distinct other =
      let user = new_user new_id email display_name (C.hash salt password) in
      ground (
        arith,
        distinct other,
        keeps distinct other,
        eq_iff email other,
        find?-none-select (λ (u : User). str_eq u.email email) (others w.db).users,
        select-append (λ (u : User). str_eq u.email other) (others w.db).users (user ∷ []),
        length-append (users_with other (others w.db))
            (select (λ (u : User). str_eq u.email other) (user ∷ [])),
      )

  -- A password is changed only by a user who knows the old one, and to another one. Then every
  -- lookup finds this user with a hash that the new password verifies and every other user as before.
  pub change_password_lem :
      (salt k : ℕ) (current_password new_password : String) (user : User)
      → (change_password C K access_ttl refresh_ttl salt current_password new_password user w).0
        ≡ ok tt
      → (password_ok C K access_ttl refresh_ttl current_password user.password_hash ≡ true)
        × (str_eq new_password current_password ≡ false)
        × (C.verify (C.hash salt new_password) new_password ≡ true)
        × (get_user k
              (change_password C K access_ttl refresh_ttl salt current_password new_password user
                w).1.db
            ≡ (if user.id == k
                then map_option (with_hash (C.hash salt new_password)) (get_user k w.db)
                else get_user k w.db))
  unfolding change_password
  change_password_lem salt k current_password new_password user h = (
    ground arith,
    ground arith,
    C.verify-hash salt new_password,
    ground (
      arith,
      find?-update_where (λ (u : User). u.id) (with_hash (C.hash salt new_password)) user.id k
          w.db.users (λ u. refl),
    ),
  )
