-- ===== src/Examples/Viewers.antt =====
-- Tokens that are the list of their fields: the theorems on VNC sessions at one viewer.
use chipatelier.Prelude.{
  ◌≢◌, select, find?, any, update_where, ℕ, zero, suc, ◌<◌, ◌≡◌, refl, String, true, Option, none,
  some, [], ◌∷◌, arith, ltb, if◌then◌else◌,
}
use chipatelier.Prelude.Text.{Text, codes, eq_text}
use chipatelier.Http.{ok}
use chipatelier.Model.{Run, VncSession, stopped, running, is_live, is_running, Db, Backend}
use chipatelier.Auth.Store.{TokenType, access, refresh, vnc}
use chipatelier.Vnc.Tokens.{VncPayload, VncJwt}
use chipatelier.Vnc.{
  get_session, start_vnc_session, new_session, validate_vnc_token, first_free, used_ports,
}
use chipatelier.Vnc.Task.{ViewerContainer, start_vnc}
use chipatelier.Vnc.Limits.{Bounded}
use chipatelier.Vnc.Steps.{Reach, here, next, starts, spawns, Reach-Bounded, stopped_restarts}
use chipatelier.Vnc.Access.{Reach-validate, holders}
use chipatelier.Examples.Data.{alice, finished_run, sample_db, sample_backend}

abbrev port_code : Option ℕ → ℕ
port_code none = 0
port_code (some port) = suc port

abbrev port_from : ℕ → Option ℕ
port_from zero = none
port_from (suc port) = some port

abbrev type_code : TokenType → ℕ
type_code access = 0
type_code refresh = 1
type_code vnc = 2

abbrev type_from : ℕ → TokenType
type_from zero = access
type_from (suc zero) = refresh
type_from _ = vnc

abbrev sign : VncPayload → Text
sign p = p.sub ∷ p.run_id ∷ port_code p.port ∷ type_code p.token_type ∷ p.exp ∷ []

abbrev read : ℕ → Text → Option VncPayload
read now (sub ∷ run_id ∷ port ∷ kind ∷ exp ∷ []) =
    if ltb now exp
    then some (record {
      sub = sub;
      run_id = run_id;
      port = port_from port;
      token_type = type_from kind;
      exp = exp;
    })
    else none
read now _ = none

port_same : (o : Option ℕ) → port_from (port_code o) ≡ o
port_same none = refl
port_same (some port) = refl

type_same : (t : TokenType) → type_from (type_code t) ≡ t
type_same access = refl
type_same refresh = refl
type_same vnc = refl

read-sign : (now : ℕ) (p : VncPayload) → now < p.exp → read now (sign p) ≡ some p
read-sign now p h = ground (arith, port_same p.port, type_same p.token_type)

read_signed : (now : ℕ) (p q : VncPayload) → read now (sign p) ≡ some q → p ≡ q
read_signed now p q h = ground (arith, port_same p.port, type_same p.token_type)

abbrev plain_jwt : VncJwt
plain_jwt = record {
  encode = sign;
  decode = read;
  decode-encode = λ now p h. read-sign now p h;
  decode_signed = λ now p q h. read_signed now p q h;
}

abbrev routed_run : Run
routed_run = record finished_run { artifact_path = some (codes "runs/2/") }

abbrev viewer_backend : Backend
viewer_backend = record sample_backend { db = record sample_db { runs = routed_run ∷ [] } }

abbrev after_start : Backend
unfolding start_vnc_session
after_start = (start_vnc_session plain_jwt 2 30 100 2 alice viewer_backend).1

abbrev docker : ViewerContainer → Option String
docker c = some "viewer"

abbrev after_task : Backend
unfolding start_vnc
after_task = record after_start { db = start_vnc docker 30 after_start.db }

steps : Reach plain_jwt 2 viewer_backend after_task
unfolding start_vnc_session find? select first_free any used_ports update_where after_task
steps = next (next here (starts 30 100 2 alice tt)) (spawns docker 30 ((λ q. refl), tt))

no_viewers : Bounded 2 viewer_backend.db
unfolding select
no_viewers = record { few = omega arith; apart = λ port pos. omega arith }

Reach-Bounded_example : Bounded 2 after_task.db
Reach-Bounded_example = Reach-Bounded plain_jwt 2 no_viewers steps

abbrev viewer_token : Text
viewer_token = 1 ∷ 2 ∷ 6081 ∷ 2 ∷ 7300 ∷ []

accepted : (validate_vnc_token plain_jwt 200 viewer_token after_task).0 ≡ ok 6080
unfolding validate_vnc_token select after_task find? after_start first_free any used_ports
    update_where eq_text
accepted = refl

Reach-validate_example :
    (s : VncSession) × (p : VncPayload) × (holders viewer_token after_task.db ≡ s ∷ [])
    × (read 200 viewer_token ≡ some p)
    × (is_running s.status ≡ true)
    × (s.token ≡ some viewer_token)
    × (s.port ≡ some 6080)
    × (p.sub ≡ s.user_id)
    × (p.run_id ≡ s.run_id)
Reach-validate_example = Reach-validate plain_jwt 2 200 6080 viewer_token tt steps accepted

abbrev stopped_session : VncSession
stopped_session = record (new_session 30 100 1 2 6080) { status = stopped }

abbrev next_session : VncSession
next_session = new_session 31 200 1 2 6080

abbrev stopped_db : Db
stopped_db = record viewer_backend.db { vnc_sessions = stopped_session ∷ next_session ∷ [] }

stopped_restarts_example :
    ((s' : VncSession) × (get_session 30 (start_vnc docker 30 stopped_db) ≡ some s')
      × (s'.status ≡ running)
      × (s'.port ≡ some 6080))
    × ((t' : VncSession) × (get_session 31 (start_vnc docker 30 stopped_db) ≡ some t')
        × (is_live t'.status ≡ true)
        × (t'.port ≡ some 6080))
    × (◌≢◌ {A = ℕ} 30 31)
unfolding find?
stopped_restarts_example =
    stopped_restarts docker stopped_db 30 31 6080 stopped_session next_session "viewer" refl refl
      refl refl refl refl refl (λ c. refl)
