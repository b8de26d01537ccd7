-- ===== src/Containers.antt =====
-- The job containers: worker/container/manager.py and worker/tasks/watchdog.py.
-- `stop_fails` says at which names Docker raises anything but NotFound.
pub mod Watchdog
use chipatelier.Prelude.{
  ℕ, zero, suc, ◌*◌, Bool, true, false, not, ◌&&◌, ◌||◌, Option, none, some, List, [], ◌∷◌, ◌++◌,
  select, any, map, length, if◌then◌else◌, is_some,
}
use chipatelier.Prelude.Text.{Text, codes, eq_text, strip_prefix}
use chipatelier.Model.{Run, Db, is_active_status}
use chipatelier.Jobs.{get_run}
use chipatelier.Projects.Storage.{Python}

-- What `containers.run` is asked for.
pub record ContainerSpec : Type 0 where
  pub image : Text
  pub command : List Text
  pub name : Text
  pub network_mode : Text
  pub cpu_period : ℕ
  pub cpu_quota : ℕ
  pub mem_limit : Text
  pub memswap_limit : Text
  pub tmpfs : List (Text × Text)
  pub cap_drop : List Text
  pub security_opt : List Text
  pub volumes : List (Text × Text)

-- A container that Docker has.
pub record JobContainer : Type 0 where
  pub name : Text
  pub is_running : Bool

unfoldable pub job_prefix : Text
job_prefix = codes "orfs_job_"

abbrev pub contains : Text → Text → Bool
contains pattern [] = is_some (strip_prefix pattern [])
contains pattern (x ∷ xs) = is_some (strip_prefix pattern (x ∷ xs)) || contains pattern xs

-- `text.replace(pattern, "", 1)`
abbrev pub remove_first : Text → Text → Text
remove_first pattern [] = []
remove_first pattern (x ∷ xs) =
    let later = remove_first pattern xs in
    elim (strip_prefix pattern (x ∷ xs)) [ none ↦ x ∷ later | some rest ↦ rest ]

-- `list_orfs_containers`: Docker's filter takes a running container whose name has the pattern
-- anywhere.
unfoldable pub list_orfs_containers : List JobContainer → List JobContainer
list_orfs_containers cs =
    select (λ (c : JobContainer). c.is_running && contains job_prefix c.name) cs

-- `stop_and_remove` by name: false if it raises.
unfoldable pub stop_and_remove : (Text → Bool) → Text → List JobContainer → Bool × List JobContainer
stop_and_remove stop_fails name cs =
    if any (λ (c : JobContainer). eq_text c.name name) cs && stop_fails name
    then (false, cs)
    else (true, select (λ (c : JobContainer). not (eq_text c.name name)) cs)

-- The dict that the task returns.
pub record Summary : Type 0 where
  pub inspected : ℕ
  pub stopped : ℕ
  pub errors : ℕ

-- `row is not None and row.status in _ACTIVE_STATUSES`
abbrev pub is_active_row : Option Run → Bool
is_active_row none = false
is_active_row (some run) = is_active_status run.status

module _ (P : Python) where
  unfoldable pub run_container :
      ℕ → Text → Text → Text → List Text → (cpu_cores ram_gb : ℕ) → ContainerSpec
  unfolding job_prefix
  run_container run_id image workspace_path target locked_args cpu_cores ram_gb = record {
    image = image;
    command =
        (codes "make"
          ∷ codes "--file=/OpenROAD-flow-scripts/flow/Makefile"
          ∷ codes "DESIGN_CONFIG=/workspace/config.mk"
          ∷ codes "WORK_HOME=/workspace"
          ∷ target
          ∷ [])
        ++ locked_args;
    name = job_prefix ++ P.str_uuid run_id;
    network_mode = codes "none";
    cpu_period = 100000;
    cpu_quota = cpu_cores * 100000;
    mem_limit = P.str_int ram_gb ++ codes "g";
    memswap_limit = P.str_int ram_gb ++ codes "g";
    tmpfs = (codes "/tmp", codes "size=2g") ∷ [];
    cap_drop = codes "ALL" ∷ [];
    security_opt = codes "no-new-privileges" ∷ [];
    volumes = (workspace_path, codes "/workspace") ∷ [];
  }

  -- `container_info["run_id"]`, as the database reads it: none is a text that is no UUID, at which
  -- the query raises
  abbrev pub run_id_of : Text → Option ℕ
  run_id_of name = P.parse_uuid (remove_first job_prefix name)

  abbrev pub count : Bool → Summary → Summary
  count true sum = record sum { inspected = suc sum.inspected; stopped = suc sum.stopped }
  count false sum = record sum { inspected = suc sum.inspected; errors = suc sum.errors }

  abbrev pub reap_run :
      (Text → Bool)
      → Db
      → Text
      → Option ℕ
      → Summary × List JobContainer
      → Summary × List JobContainer
  reap_run stop_fails db name none (sum, cs) = (count false sum, cs)
  reap_run stop_fails db name (some run_id) (sum, cs) =
      if is_active_row (get_run run_id db)
      then (record sum { inspected = suc sum.inspected }, cs)
      else (
        count (stop_and_remove stop_fails name cs).0 sum,
        (stop_and_remove stop_fails name cs).1,
      )

  -- `for container_info in containers: …`
  abbrev pub reap :
      (Text → Bool)
      → Db
      → List JobContainer
      → Summary × List JobContainer
      → Summary × List JobContainer
  reap stop_fails db [] s = s
  reap stop_fails db (c ∷ listed) s =
      reap stop_fails db listed (reap_run stop_fails db c.name (run_id_of c.name) s)

  unfoldable pub cleanup_orphaned_containers :
      (Text → Bool) → Db → List JobContainer → Summary × List JobContainer
  unfolding list_orfs_containers
  cleanup_orphaned_containers stop_fails db cs =
      reap stop_fails db (list_orfs_containers cs)
        (record { inspected = 0; stopped = 0; errors = 0 }, cs)
