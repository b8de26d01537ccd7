-- ===== src/Vnc/Minted.antt =====
-- The tokens that are stored with the sessions.
use chipatelier.Prelude.{
  ℕ, ◌+◌, ◌≡◌, refl, sym, subst, true, false, Option, none, some, String, List, [], ◌∷◌, ◌++◌,
  arith, ◌==◌, if◌then◌else◌, All, All-mono, All-append, All-update_where, ◌⊎◌, inl, inr,
}
use chipatelier.Prelude.Text.{Text, is_truthy}
use chipatelier.Model.{User, VncSession, Db, Backend}
use chipatelier.Vnc.Tokens.{VncPayload, VncJwt}
use chipatelier.Jobs.{get_run}
use chipatelier.Auth.Store.{vnc}
use chipatelier.Vnc.Task.{
  ViewerContainer, start_vnc, start_vnc_container, started, artifacts_of, port_of, start_for,
}
use chipatelier.Vnc.Limits.{start_state}
use chipatelier.Vnc.{
  first_free, used_ports, find_available_port, set_session, add_session, new_session, with_token,
  set_stopped, set_running, get_session, create_vnc_token, open_session, start_vnc_session,
  stop_vnc_session,
}

-- No session has that id yet.
abbrev pub IsNew : ℕ → Db → Type 0
IsNew id db = All (λ (s : VncSession). (s.id == id) ≡ false) db.vnc_sessions

module _ (J : VncJwt) where
  -- A session has no token, or one that says whose it is, of which run, and on which port.
  abbrev pub Minted : VncSession → Type 0
  Minted s =
      (t : Text)
      → s.token ≡ some t
      → (p : VncPayload) × (t ≡ J.encode p)
        × (p.port ≡ s.port)
        × (p.sub ≡ s.user_id)
        × (p.run_id ≡ s.run_id)

  abbrev pub AllMinted : Db → Type 0
  AllMinted db = All Minted db.vnc_sessions

  set_session-Minted :
      (session_id : ℕ) (f : VncSession → VncSession) (db : Db)
      → ((s : VncSession) → Minted s → Minted (f s))
      → AllMinted db
      → AllMinted (set_session session_id f db)
  set_session-Minted session_id f db keeps h =
      All-update_where Minted (λ (s : VncSession). s.id == session_id) f db.vnc_sessions
        (λ s q m. keeps s m) h

  -- What is known of a session, and of the one that is being opened, before its token is stored.
  abbrev Waits : ℕ → Text → VncSession → Type 0
  Waits id token s = Minted s × ((s.id == id) ≡ true → Minted (with_token token s))

  old-Waits :
      (id : ℕ) (token : Text) (xs : List VncSession)
      → All (λ (s : VncSession). (s.id == id) ≡ false) xs
      → All Minted xs
      → All (Waits id token) xs
  old-Waits id token [] h k = tt
  old-Waits id token (s ∷ xs) (hs, h) (ks, k) =
      ((ks, λ q. absurd (ground arith)), old-Waits id token xs h k)

  -- The token of a new session is stored in it alone.
  add_token-Minted :
      (fresh : VncSession) (token : Text) (db : Db)
      → IsNew fresh.id db
      → fresh.token ≡ none
      → Minted (with_token token fresh)
      → AllMinted db
      → AllMinted (set_session fresh.id (with_token token) (add_session fresh db))
  add_token-Minted fresh token db is_new blank minted h =
      All-mono _ (λ s w. w.0)
        (All-update_where (Waits fresh.id token) (λ (s : VncSession). s.id == fresh.id)
          (with_token token) (db.vnc_sessions ++ fresh ∷ []) (λ s q w. (w.1 q, λ r. w.1 q))
          (All-append (Waits fresh.id token) db.vnc_sessions (fresh ∷ [])
            (old-Waits fresh.id token db.vnc_sessions is_new h)
            ((λ t q. absurd (cc), λ q. minted), tt)))

  opened-Minted :
      (new_id now run_id : ℕ) (user : User) (b : Backend)
      → IsNew new_id b.db
      → AllMinted b.db
      → AllMinted (open_session J new_id now run_id user b).1.db
  unfolding open_session find_available_port create_vnc_token
  opened-Minted new_id now run_id user b is_new h =
      go (first_free 6080 20 (used_ports b.db.vnc_sessions)) refl
    where
      go :
          (o : Option ℕ)
          → first_free 6080 20 (used_ports b.db.vnc_sessions) ≡ o
          → AllMinted (open_session J new_id now run_id user b).1.db
      go none e =
          subst AllMinted {x = b.db} {y = (open_session J new_id now run_id user b).1.db}
            (ground arith) h
      go (some port) e =
          let session = new_session new_id now user.id run_id port in
          let token = create_vnc_token J now user.id run_id port in
          subst AllMinted {x = set_session new_id (with_token token) (add_session session b.db)}
            {y = (open_session J new_id now run_id user b).1.db} (ground arith)
            (add_token-Minted session token b.db is_new refl
              (λ t q. (
                record {
                  sub = user.id;
                  run_id = run_id;
                  port = some port;
                  token_type = vnc;
                  exp = now + 7200;
                },
                cc,
                refl,
                refl,
                refl,
              ))
              h)

  pub start-Minted :
      (max_sessions new_id now run_id : ℕ) (user : User) (b : Backend)
      → IsNew new_id b.db
      → AllMinted b.db
      → AllMinted (start_vnc_session J max_sessions new_id now run_id user b).1.db
  start-Minted max_sessions new_id now run_id user b is_new h =
      elim (start_state J max_sessions new_id now run_id user b) [
        | inl same ↦ subst (λ (c : Backend). AllMinted c.db) (sym same) h
        | inr opened ↦
            subst (λ (c : Backend). AllMinted c.db) (sym opened)
              (opened-Minted new_id now run_id user b is_new h)
      ]

  stop_state :
      (session_id : ℕ) (user : User) (b : Backend)
      → ((stop_vnc_session session_id user b).1.db ≡ b.db)
        ⊎ ((stop_vnc_session session_id user b).1.db ≡ set_session session_id set_stopped b.db)
  unfolding stop_vnc_session
  stop_state session_id user b = ground arith

  pub stop-Minted :
      (session_id : ℕ) (user : User) (b : Backend)
      → AllMinted b.db
      → AllMinted (stop_vnc_session session_id user b).1.db
  stop-Minted session_id user b h = elim (stop_state session_id user b) [
    | inl same ↦ subst AllMinted (sym same) h
    | inr stopped ↦
        subst AllMinted (sym stopped) (set_session-Minted session_id set_stopped b.db (λ s m. m) h)
  ]

  started-Minted :
      (session_id : ℕ) (o : Option String) (db : Db)
      → AllMinted db
      → AllMinted (started session_id o db)
  started-Minted session_id none db h = set_session-Minted session_id set_stopped db (λ s m. m) h
  started-Minted session_id (some c) db h =
      set_session-Minted session_id (set_running c) db (λ s m. m) h

  pub task-Minted :
      (docker_run : ViewerContainer → Option String) (session_id : ℕ) (db : Db)
      → AllMinted db
      → AllMinted (start_vnc docker_run session_id db)
  unfolding start_vnc
  task-Minted docker_run session_id db h = go (get_session session_id db)
    where
      go : (o : Option VncSession) → AllMinted (start_for docker_run session_id o db)
      go none = h
      go (some s) =
          elim (is_truthy (artifacts_of (get_run s.run_id db)))
            as (λ b. AllMinted (
              if b
              then started session_id
                  (docker_run (
                    start_vnc_container session_id (artifacts_of (get_run s.run_id db)) (port_of s)
                      none))
                  db
              else set_session session_id set_stopped db)) [
                | true ↦ started-Minted session_id _ db h
                | false ↦ started-Minted session_id none db h
              ]
