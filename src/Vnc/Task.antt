-- ===== src/Vnc/Task.antt =====
-- The Celery task that starts a viewer: worker/tasks/vnc_session.py.
use chipatelier.Prelude.{
  ℕ, String, Option, none, some, [], ◌++◌, ◌==◌, str_eq, if◌then◌else◌, or_else,
}
use chipatelier.Prelude.Text.{Text, codes, is_truthy}
use chipatelier.Model.{Run, VncSession, Db}
use chipatelier.Jobs.{get_run}
use chipatelier.Vnc.{get_session, set_session, set_stopped, set_running}

-- `STAGE_ODB.get(stage or "", _DEFAULT_ODB)`
unfoldable pub odb_filename : Option String → Text
odb_filename none = codes "6_final.odb"
odb_filename (some stage) =
    if str_eq stage "floorplan"
    then codes "2_floorplan.odb"
    else if str_eq stage "place"
    then codes "3_place.odb"
    else if str_eq stage "cts"
    then codes "4_cts.odb"
    else if str_eq stage "route"
    then codes "5_route.odb"
    else codes "6_final.odb"

-- What `containers.run` is called with.
pub record ViewerContainer : Type 0 where
  pub session_id : ℕ
  pub host_port : ℕ
  pub odb_path : Text
  pub design_config : Text

-- The container that `start_vnc_container` asks Docker for.
unfoldable pub start_vnc_container : ℕ → Text → ℕ → Option String → ViewerContainer
unfolding odb_filename
start_vnc_container session_id artifact_path port stage = record {
  session_id = session_id;
  host_port = port;
  odb_path = codes "/artifacts/" ++ (artifact_path ++ odb_filename stage);
  design_config = codes "/workspace/config.mk";
}

abbrev pub artifacts_of : Option Run → Text
artifacts_of none = []
artifacts_of (some run) = or_else run.artifact_path []

-- `vnc_session.port or 6080`
abbrev pub port_of : VncSession → ℕ
port_of s = if or_else s.port 0 == 0 then 6080 else or_else s.port 0

abbrev pub started : ℕ → Option String → Db → Db
started session_id none db = set_session session_id set_stopped db
started session_id (some container_id) db = set_session session_id (set_running container_id) db

abbrev pub start_for : (ViewerContainer → Option String) → ℕ → Option VncSession → Db → Db
start_for docker_run session_id none db = db
start_for docker_run session_id (some s) db =
    let artifact_path = artifacts_of (get_run s.run_id db) in
    if is_truthy artifact_path
    then started session_id
        (docker_run (start_vnc_container session_id artifact_path (port_of s) none)) db
    else set_session session_id set_stopped db

-- `docker_run` is Docker's answer: the new container's id, or none if it raises.
unfoldable pub start_vnc : (ViewerContainer → Option String) → ℕ → Db → Db
unfolding start_vnc_container
start_vnc docker_run session_id db = start_for docker_run session_id (get_session session_id db) db
