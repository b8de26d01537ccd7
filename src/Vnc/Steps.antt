-- ===== src/Vnc/Steps.antt =====
-- Any sequence of requests to the VNC endpoints and of their tasks.
use chipatelier.Prelude.{
  ℕ, ◌≡◌, refl, String, true, false, Option, none, some, arith, ◌==◌, if◌then◌else◌, All, All-of,
  All-mono, find?-update_where, ==_refl, ==_iff, ◌≢◌, map_option, Bool-cases, inl, inr,
}
use chipatelier.Prelude.Text.{is_truthy}
use chipatelier.Jobs.{get_run}
use chipatelier.Model.{User, VncSession, is_live, Db, Backend, stopped, running}
use chipatelier.Vnc.Tokens.{VncJwt}
use chipatelier.Vnc.{
  get_session, set_session, set_stopped, set_running, start_vnc_session, stop_vnc_session,
}
use chipatelier.Vnc.Task.{
  ViewerContainer, start_vnc, started, start_for, start_vnc_container, artifacts_of, port_of,
}
use chipatelier.Vnc.Minted.{IsNew, AllMinted, start-Minted, stop-Minted, task-Minted}
use chipatelier.Vnc.Limits.{Bounded, set_session-Bounded, start-Bounded, stop-Bounded}

-- Every session of that id is live.
abbrev pub IsLive : ℕ → Db → Type 0
IsLive session_id db =
    All (λ (s : VncSession). (s.id == session_id) ≡ true → is_live s.status ≡ true) db.vnc_sessions

started-Bounded :
    (max_sessions session_id : ℕ) (o : Option String) (db : Db)
    → IsLive session_id db
    → Bounded max_sessions db
    → Bounded max_sessions (started session_id o db)
started-Bounded max_sessions session_id none db live h =
    set_session-Bounded max_sessions session_id set_stopped db
      (All-of (λ t q l. cc) db.vnc_sessions) (λ t. refl) h
started-Bounded max_sessions session_id (some container_id) db live h =
    set_session-Bounded max_sessions session_id (set_running container_id) db
      (All-mono db.vnc_sessions (λ t alive q l. alive q) live) (λ t. refl) h

task-Bounded :
    (max_sessions : ℕ) (docker_run : ViewerContainer → Option String) (session_id : ℕ) (db : Db)
    → IsLive session_id db
    → Bounded max_sessions db
    → Bounded max_sessions (start_vnc docker_run session_id db)
unfolding start_vnc
task-Bounded max_sessions docker_run session_id db live h =
    go (get_session session_id db) (started-Bounded max_sessions session_id)
  where
    go :
        (o : Option VncSession)
        → ((c : Option String) (d : Db)
            → IsLive session_id d
            → Bounded max_sessions d
            → Bounded max_sessions (started session_id c d))
        → Bounded max_sessions (start_for docker_run session_id o db)
    go none keeps = h
    go (some s) keeps =
        elim (is_truthy (artifacts_of (get_run s.run_id db)))
          as (λ b. Bounded max_sessions (
            if b
            then started session_id
                (docker_run (
                  start_vnc_container session_id (artifacts_of (get_run s.run_id db)) (port_of s)
                    none))
                db
            else set_session session_id set_stopped db)) [
              | true ↦ keeps _ db live h
              | false ↦ keeps none db live h
            ]

-- What may happen to the sessions: a request to start one under a new id
-- or to stop one, and the task that starts a viewer
-- for a session that is still live.
pub data Step (J : VncJwt) (max_sessions : ℕ) (b : Backend) : Backend → Type 0 where
  starts :
      (new_id now run_id : ℕ) (user : User)
      → IsNew new_id b.db
      → Step J max_sessions b (start_vnc_session J max_sessions new_id now run_id user b).1
  stops :
      (session_id : ℕ) (user : User) → Step J max_sessions b (stop_vnc_session session_id user b).1
  spawns :
      (docker_run : ViewerContainer → Option String) (session_id : ℕ)
      → IsLive session_id b.db
      → Step J max_sessions b (record b { db = start_vnc docker_run session_id b.db })

pub data Reach (J : VncJwt) (max_sessions : ℕ) (b : Backend) : Backend → Type 0 where
  here : Reach J max_sessions b b
  next :
      {c d : Backend}
      → Reach J max_sessions b c
      → Step J max_sessions c d
      → Reach J max_sessions b d

Step-Bounded :
    (J : VncJwt) (max_sessions : ℕ) {b c : Backend}
    → Step J max_sessions b c
    → Bounded max_sessions b.db
    → Bounded max_sessions c.db
Step-Bounded J max_sessions {b} (starts new_id now run_id user is_new) h =
    start-Bounded J max_sessions new_id now run_id user b h
Step-Bounded J max_sessions {b} (stops session_id user) h =
    stop-Bounded max_sessions session_id user b h
Step-Bounded J max_sessions {b} (spawns docker_run session_id live) h =
    task-Bounded max_sessions docker_run session_id b.db live h

-- From a state in which at most `max_sessions` viewers are live and no two on one port, every
-- sequence of starts under new ids, stops and tasks keeps this, if each task finds its session still
-- live.
pub Reach-Bounded :
    (J : VncJwt) (max_sessions : ℕ) {b c : Backend}
    → Bounded max_sessions b.db
    → Reach J max_sessions b c
    → Bounded max_sessions c.db
Reach-Bounded J max_sessions h here = h
Reach-Bounded J max_sessions h (next r s) =
    Step-Bounded J max_sessions s (Reach-Bounded J max_sessions h r)

Step-Minted :
    (J : VncJwt) (max_sessions : ℕ) {b c : Backend}
    → Step J max_sessions b c
    → AllMinted J b.db
    → AllMinted J c.db
Step-Minted J max_sessions {b} (starts new_id now run_id user is_new) h =
    start-Minted J max_sessions new_id now run_id user b is_new h
Step-Minted J max_sessions {b} (stops session_id user) h = stop-Minted J session_id user b h
Step-Minted J max_sessions {b} (spawns docker_run session_id live) h =
    task-Minted J docker_run session_id b.db h

pub Reach-Minted :
    (J : VncJwt) (max_sessions : ℕ) {b c : Backend}
    → AllMinted J b.db
    → Reach J max_sessions b c
    → AllMinted J c.db
Reach-Minted J max_sessions h here = h
Reach-Minted J max_sessions h (next r s) =
    Step-Minted J max_sessions s (Reach-Minted J max_sessions h r)

restarted :
    (docker_run : ViewerContainer → Option String) (session_id : ℕ) (db : Db) (s : VncSession)
    (container_id : String)
    → get_session session_id db ≡ some s
    → is_truthy (artifacts_of (get_run s.run_id db)) ≡ true
    → ((c : ViewerContainer) → docker_run c ≡ some container_id)
    → start_vnc docker_run session_id db ≡ set_session session_id (set_running container_id) db
unfolding start_vnc
restarted docker_run session_id db s container_id there ready runs = ground (
  arith,
  runs (start_vnc_container session_id (artifacts_of (get_run s.run_id db)) (port_of s) none),
)

get_session-set :
    (session_id k : ℕ) (container_id : String) (db : Db)
    → get_session k (set_session session_id (set_running container_id) db) ≡ (
        if session_id == k
        then map_option (set_running container_id) (get_session k db)
        else get_session k db)
get_session-set session_id k container_id db =
    find?-update_where (λ (t : VncSession). t.id) (set_running container_id) session_id k
      db.vnc_sessions (λ t. refl)

-- The task asks nothing of the session's status. A session with artifacts that its user has stopped,
-- and whose port a live session has taken since, is running on that port once Docker has started
-- its container; the other session is still live and on the same port.
pub stopped_restarts :
    (docker_run : ViewerContainer → Option String) (db : Db) (session_id other port : ℕ)
    (s t : VncSession) (container_id : String)
    → get_session session_id db ≡ some s
    → s.status ≡ stopped
    → s.port ≡ some port
    → get_session other db ≡ some t
    → is_live t.status ≡ true
    → t.port ≡ some port
    → is_truthy (artifacts_of (get_run s.run_id db)) ≡ true
    → ((c : ViewerContainer) → docker_run c ≡ some container_id)
    → ((s' : VncSession) × (get_session session_id (start_vnc docker_run session_id db) ≡ some s')
        × (s'.status ≡ running)
        × (s'.port ≡ some port))
      × ((t' : VncSession) × (get_session other (start_vnc docker_run session_id db) ≡ some t')
          × (is_live t'.status ≡ true)
          × (t'.port ≡ some port))
      × (session_id ≢ other)
stopped_restarts docker_run db session_id other port s t container_id there stop at taken live on
      ready runs =
    let same = restarted docker_run session_id db s container_id there ready runs in
    let apart : (session_id == other) ≡ false = elim (Bool-cases (session_id == other)) [
      | inl e ↦ absurd (ground (arith, ==_iff session_id other))
      | inr e ↦ e
    ] in
    (
      (
        set_running container_id s,
        ground (
          arith,
          same,
          get_session-set session_id session_id container_id db,
          ==_refl session_id,
        ),
        refl,
        at,
      ),
      (t, ground (arith, same, get_session-set session_id other container_id db), live, on),
      λ e. ground (arith, ==_iff session_id other, e),
    )
