-- ===== src/Vnc/Limits.antt =====
-- How many viewers are live, and on which ports, whatever requests and tasks are served.
use chipatelier.Prelude.{
  ℕ, ◌≤◌, ◌<◌, ◌≡◌, refl, sym, subst, Bool, true, false, ◌&&◌, Option, none, some, List, [], ◌∷◌,
  arith, ◌==◌, leb, any, select, length, length-append, select-append, or_else, Bool-cases, inl,
  inr, ==_iff, ◌⊎◌, All, All-of, All-mono, length-select-update_le_All,
}
use chipatelier.Model.{User, VncSession, is_live, Db, Backend}
use chipatelier.Vnc.Tokens.{VncJwt}
use chipatelier.Vnc.{
  used_ports, first_free, find_available_port, get_session, set_session, add_session, new_session,
  with_token, live_sessions, set_stopped, open_session, start_vnc_session, stop_vnc_session,
  create_vnc_token,
}
use chipatelier.Vnc.Ports.{first_free-some}

abbrev pub has_port : ℕ → VncSession → Bool
has_port port s = or_else s.port 0 == port

-- The live sessions on a port.
abbrev pub live_on : ℕ → Db → List VncSession
live_on port db = select (λ (s : VncSession). is_live s.status && has_port port s) db.vnc_sessions

-- At most `max_sessions` sessions are live, and at most one of them on each port.
pub record Bounded (max_sessions : ℕ) (db : Db) : Type 0 where
  pub few : length (live_sessions db) ≤ max_sessions
  pub apart : (port : ℕ) → 0 < port → length (live_on port db) ≤ 1

free-live_on :
    (port : ℕ) (ss : List VncSession)
    → 0 < port
    → any (λ p. p == port) (used_ports ss) ≡ false
    → length (select (λ (s : VncSession). is_live s.status && has_port port s) ss) ≡ 0
unfolding any used_ports select
free-live_on port [] pos h = refl
free-live_on port (s ∷ ss) pos h = ground (arith, free-live_on port ss pos)

-- `f` makes no session of that id live.
abbrev pub Quiet : ℕ → (VncSession → VncSession) → VncSession → Type 0
Quiet session_id f s =
    (s.id == session_id) ≡ true → is_live (f s).status ≡ true → is_live s.status ≡ true

-- A change of sessions that makes none of them live, and moves none, keeps the bounds.
pub set_session-Bounded :
    (max_sessions session_id : ℕ) (f : VncSession → VncSession) (db : Db)
    → All (Quiet session_id f) db.vnc_sessions
    → ((s : VncSession) → (f s).port ≡ s.port)
    → Bounded max_sessions db
    → Bounded max_sessions (set_session session_id f db)
set_session-Bounded max_sessions session_id f db quiet still h = record {
  few = omega (
    arith,
    h.few,
    length-select-update_le_All (λ (s : VncSession). is_live s.status)
        (λ (s : VncSession). s.id == session_id) f db.vnc_sessions quiet,
  );
  apart = λ port pos. omega (
    arith,
    h.apart port pos,
    length-select-update_le_All (λ (s : VncSession). is_live s.status && has_port port s)
        (λ (s : VncSession). s.id == session_id) f db.vnc_sessions
        (All-mono db.vnc_sessions (λ s calm q l. ground (arith, calm q, still s)) quiet),
  );
}

add_session-Bounded :
    (max_sessions : ℕ) (s : VncSession) (db : Db)
    → length (live_sessions db) < max_sessions
    → ((port : ℕ) → 0 < port → has_port port s ≡ true → length (live_on port db) ≡ 0)
    → Bounded max_sessions db
    → Bounded max_sessions (add_session s db)
unfolding select
add_session-Bounded max_sessions s db room free h = record {
  few = ground (
    arith,
    select-append (λ (t : VncSession). is_live t.status) db.vnc_sessions (s ∷ []),
    length-append (live_sessions db) (select (λ (t : VncSession). is_live t.status) (s ∷ [])),
  );
  apart = λ port pos. ground (
    arith,
    h.apart port pos,
    free port pos,
    select-append (λ (t : VncSession). is_live t.status && has_port port t) db.vnc_sessions
        (s ∷ []),
    length-append (live_on port db)
        (select (λ (t : VncSession). is_live t.status && has_port port t) (s ∷ [])),
  );
}

module _ (J : VncJwt) (max_sessions : ℕ) where
  opened-Bounded :
      (new_id now run_id : ℕ) (user : User) (b : Backend)
      → length (live_sessions b.db) < max_sessions
      → Bounded max_sessions b.db
      → Bounded max_sessions (open_session J new_id now run_id user b).1.db
  unfolding open_session find_available_port
  opened-Bounded new_id now run_id user b room h =
      go (first_free 6080 20 (used_ports b.db.vnc_sessions)) refl
    where
      go :
          (o : Option ℕ)
          → first_free 6080 20 (used_ports b.db.vnc_sessions) ≡ o
          → Bounded max_sessions (open_session J new_id now run_id user b).1.db
      go none e = subst (Bounded max_sessions) (ground arith) h
      go (some port) e =
          let found = first_free-some 6080 20 (used_ports b.db.vnc_sessions) port e in
          let session = new_session new_id now user.id run_id port in
          let added =
            add_session-Bounded max_sessions session b.db room
              (λ p pos same.
                subst (λ (q : ℕ). length (live_on q b.db) ≡ 0) ((==_iff port p).0 same)
                  (free-live_on port b.db.vnc_sessions (omega (arith, found.0)) found.2))
              h in
          let token = create_vnc_token J now user.id run_id port in
          subst (Bounded max_sessions) (ground arith) (
            set_session-Bounded max_sessions new_id (with_token token) (add_session session b.db)
              (All-of (λ s q l. l) (add_session session b.db).vnc_sessions) (λ s. refl) added)

  pub start_state :
      (new_id now run_id : ℕ) (user : User) (b : Backend)
      → ((start_vnc_session J max_sessions new_id now run_id user b).1 ≡ b)
        ⊎ ((start_vnc_session J max_sessions new_id now run_id user b).1
            ≡ (open_session J new_id now run_id user b).1)
  unfolding start_vnc_session
  start_state new_id now run_id user b = ground arith

  pub start-Bounded :
      (new_id now run_id : ℕ) (user : User) (b : Backend)
      → Bounded max_sessions b.db
      → Bounded max_sessions (start_vnc_session J max_sessions new_id now run_id user b).1.db
  unfolding start_vnc_session
  start-Bounded new_id now run_id user b h =
      elim (Bool-cases (leb max_sessions (length (live_sessions b.db)))) [
        | inl full ↦ subst (Bounded max_sessions) (ground arith) h
        | inr room ↦ elim (start_state new_id now run_id user b) [
          | inl same ↦ subst (λ (c : Backend). Bounded max_sessions c.db) (sym same) h
          | inr opened ↦
              subst (λ (c : Backend). Bounded max_sessions c.db) (sym opened)
                (opened-Bounded new_id now run_id user b (ground arith) h)
        ]
      ]

pub stop-Bounded :
    (max_sessions session_id : ℕ) (user : User) (b : Backend)
    → Bounded max_sessions b.db
    → Bounded max_sessions (stop_vnc_session session_id user b).1.db
unfolding stop_vnc_session
stop-Bounded max_sessions session_id user b h = go (get_session session_id b.db) refl
  where
    go :
        (o : Option VncSession)
        → get_session session_id b.db ≡ o
        → Bounded max_sessions (stop_vnc_session session_id user b).1.db
    go none e = subst (Bounded max_sessions) (ground arith) h
    go (some s) e = elim (Bool-cases (s.user_id == user.id)) [
      | inl own ↦ subst (Bounded max_sessions) (ground arith) (
          set_session-Bounded max_sessions session_id set_stopped b.db
            (All-of (λ t q l. cc) b.db.vnc_sessions) (λ t. refl) h)
      | inr other ↦ subst (Bounded max_sessions) (ground arith) h
    ]
