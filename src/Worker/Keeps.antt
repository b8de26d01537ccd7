-- ===== src/Worker/Keeps.antt =====
-- What every step of the job keeps, it keeps up to its end.
use chipatelier.Prelude.{ℕ, Bool, true, false, Option, none, some, List, [], ◌∷◌, ◌++◌, String}
use chipatelier.Prelude.Text.{Text}
use chipatelier.Model.{RunStatus, complete, generate_png}
use chipatelier.LogParser.{match_stage_line, search_line}
use chipatelier.Worker.Store.{LogLine, LogStore, line, note_warm}
use chipatelier.Worker.Monad.{
  Exn, Outcome, done, raised, max_retries_exceeded, Keeps-pure, Keeps, Keeps-bind, Keeps-modify,
  keeps_rules,
}
use chipatelier.Worker.{
  Env, State, WarmLookup, warm_found, warm_not_found, warm_broken, ColdStart, started, start_failed,
  start_broken, publish_line, update_status, make_workspace, use_warm, cold_start_container,
  run_container, stream_marked, stream_lines, wait_container, finish, execute, work, or_raise,
  handle_exception, catch_exception, attempt, request_png,
}

module _ (L : LogStore) (env : Env) (run_id : ℕ) (P : State L → Type 0)
    (on_status : (status : RunStatus) (stage : Option Text)
      → Keeps P (update_status L env run_id status stage))
    (on_publish : (l : LogLine) → Keeps P (publish_line L l))
    (on_workspace : (s : State L) → P s → P (record s { workspace = true }))
    (on_warm : (s : State L) → P s → P (record s { container = true }))
    (on_cold : (s : State L) (c : String × List (String × String))
      → P s
      → P (record s { container = true; command = some c })) where
  make_workspace-Keeps : (b : Bool) → Keeps P (make_workspace L env run_id b)
  make_workspace-Keeps true = Keeps-modify _ on_workspace
  make_workspace-Keeps false = search keeps_rules

  use_warm-Keeps : (c : Option ℕ) (l : WarmLookup) → Keeps P (use_warm L env run_id c l)
  use_warm-Keeps none l = search keeps_rules
  use_warm-Keeps (some cid) warm_found =
      Keeps-bind _ _ (Keeps-modify _ on_warm) (λ _. on_publish (note_warm cid))
  use_warm-Keeps (some cid) warm_not_found = search keeps_rules
  use_warm-Keeps (some cid) warm_broken = search keeps_rules

  run_container-Keeps :
      (c : ColdStart) (target : String) (args : List (String × String))
      → Keeps P (run_container L env run_id c target args)
  run_container-Keeps started target args = Keeps-modify _ (λ s. on_cold s (target, args))
  run_container-Keeps start_broken target args = search keeps_rules
  run_container-Keeps start_failed target args = search (keeps_rules, on_status, on_publish)

  cold_start-Keeps :
      (b : Bool) (target : String) (args : List (String × String))
      → Keeps P (cold_start_container L env run_id b target args)
  cold_start-Keeps true target args = search keeps_rules
  cold_start-Keeps false target args = run_container-Keeps env.cold_start target args

  stream_marked-Keeps : (l : Text) (o : Option Text) → Keeps P (stream_marked L env run_id l o)
  stream_marked-Keeps l none = on_publish (line l)
  stream_marked-Keeps l (some stage_id) = search (keeps_rules, on_status, on_publish)

  stream_lines-Keeps : (ls : List Text) → Keeps P (stream_lines L env run_id ls)
  unfolding stream_lines
  stream_lines-Keeps [] = search keeps_rules
  stream_lines-Keeps (l ∷ ls) =
      Keeps-bind _ _ (stream_marked-Keeps l (search_line match_stage_line l))
        (λ _. stream_lines-Keeps ls)

  wait-Keeps : (o : Option ℕ) → Keeps P (wait_container L env run_id o)
  wait-Keeps none = search keeps_rules
  wait-Keeps (some code) = search keeps_rules

  or_raise-Keeps : {A : Type 0} (o : Option A) → Keeps P (or_raise L o)
  or_raise-Keeps none = search keeps_rules
  or_raise-Keeps (some a) = search keeps_rules

  pub work-Keeps : Keeps P (work L env run_id)
  unfolding work
  work-Keeps =
      search
        (
          keeps_rules, on_status, on_publish, or_raise-Keeps, use_warm-Keeps, cold_start-Keeps,
          stream_lines-Keeps, wait-Keeps,
        )
        depth 20

  pub execute-Keeps : Keeps P (execute L env run_id)
  unfolding execute
  execute-Keeps = search (keeps_rules, make_workspace-Keeps, work-Keeps)

  request_png-Keeps :
      ((s : State L) → P s → P (record s { sent = s.sent ++ generate_png run_id ∷ [] }))
      → (status : RunStatus) → Keeps P (request_png L env run_id status)
  request_png-Keeps on_sent complete = Keeps-modify _ on_sent
  request_png-Keeps on_sent _ = Keeps-pure tt

  pub finish-Keeps :
      ((s : State L) → P s → P (record s { sent = s.sent ++ generate_png run_id ∷ [] }))
      → (code : ℕ) → Keeps P (finish L env run_id code)
  unfolding finish
  finish-Keeps on_sent code =
      search (keeps_rules, on_status, on_publish, request_png-Keeps on_sent) depth 9

  handle_exception-Keeps : (exn : Exn) → Keeps P (handle_exception L env run_id exn)
  unfolding handle_exception
  handle_exception-Keeps max_retries_exceeded = search (keeps_rules, on_status, on_publish)
  handle_exception-Keeps _ = search (keeps_rules, on_status, on_publish)

  pub catch-Keeps : (o : Outcome (Unit {0})) → Keeps P (catch_exception L env run_id o)
  unfolding catch_exception
  catch-Keeps (done x) = Keeps-pure x
  catch-Keeps (raised exn) = handle_exception-Keeps exn

  -- What the steps keep, the `try` statement keeps.
  pub attempt-Keeps :
      ((s : State L) → P s → P (record s { sent = s.sent ++ generate_png run_id ∷ [] }))
      → Keeps P (attempt L env run_id)
  unfolding attempt
  attempt-Keeps on_sent = record {
    at = λ s h. (catch-Keeps _).at _ ((Keeps-bind _ _ execute-Keeps (finish-Keeps on_sent)).at s h);
  }
