-- ===== src/WarmPool.antt =====
-- The pool of pre-started containers: worker/container/warm_pool.py.
-- Redis answers LPOP and LLEN, and removing the container of a claim that is there succeeds; the
-- list's two hours to live are left out.
pub mod Drain
use chipatelier.Prelude.{
  ℕ, suc, Bool, true, false, not, Option, none, some, List, [], ◌∷◌, ◌++◌, ◌==◌, leb, length, find?,
  select, if◌then◌else◌, is_some, map_option,
}

pub record Container : Type 0 where
  pub id : ℕ
  -- `c.status == "running"`
  pub is_running : Bool

pub record Pool : Type 0 where
  -- the Redis list `warm_pool:available`
  pub available : List ℕ
  -- the containers that Docker has
  pub containers : List Container

abbrev pub get_container : ℕ → List Container → Option Container
get_container cid cs = find? (λ (c : Container). c.id == cid) cs

-- `c.remove(force=True)`
unfoldable pub remove_container : ℕ → List Container → List Container
remove_container cid cs = select (λ (c : Container). not (c.id == cid)) cs

abbrev pub check_claimed : ℕ → Option Container → Pool → Option ℕ × Pool
check_claimed cid none s = (none, s)
check_claimed cid (some c) s =
    if c.is_running
    then (some cid, s)
    else (none, record s { containers = remove_container cid s.containers })

abbrev pub claim_from : List ℕ → Pool → Option ℕ × Pool
claim_from [] s = (none, s)
claim_from (cid ∷ rest) s =
    check_claimed cid (get_container cid s.containers) (record s { available = rest })

unfoldable pub claim : Pool → Option ℕ × Pool
claim s = claim_from s.available s

-- Where `replenish` meets an exception, which it swallows.
pub data StartFault : Type 0 where
  no_fault run_fails rpush_fails expire_fails : StartFault

abbrev pub start_container : ℕ → Pool → Pool
start_container cid s = record s {
  containers = s.containers ++ record { id = cid; is_running = true } ∷ [];
}

abbrev pub offer : ℕ → Pool → Pool
offer cid s = record s { available = s.available ++ cid ∷ [] }

abbrev pub start_warm : StartFault → ℕ → Pool → Bool × Pool
start_warm no_fault cid s = (true, offer cid (start_container cid s))
start_warm run_fails cid s = (false, s)
start_warm rpush_fails cid s = (false, start_container cid s)
start_warm expire_fails cid s = (false, offer cid (start_container cid s))

unfoldable pub replenish : StartFault → ℕ → ℕ → Pool → Bool × Pool
replenish fault target_size new_id s =
    if leb target_size (length s.available) then (false, s) else start_warm fault new_id s

-- The loop of `drain` over the ids that it pops, in front of the containers that are left. `fails`
-- says on which ids Docker answers with an error but `NotFound`, which leaves the loop; the count is
-- then lost, the id is popped, and its container stays.
unfoldable pub drain_ids : (ℕ → Bool) → List ℕ → List Container → Option ℕ × Pool
drain_ids fails [] cs = (some 0, record { available = []; containers = cs })
drain_ids fails (cid ∷ rest) cs =
    let (count, s) = drain_ids fails rest (remove_container cid cs) in
    if fails cid
    then (none, record { available = rest; containers = cs })
    else (if is_some (get_container cid cs) then map_option suc count else count, s)

-- The number of containers removed, or none if an error leaves the loop.
unfoldable pub drain : (ℕ → Bool) → Pool → Option ℕ × Pool
unfolding drain_ids
drain fails s = drain_ids fails s.available s.containers
