-- ===== src/Examples/Pools.antt =====
-- The theorems on the warm pool, at a pool with two running containers and a lost one.
use chipatelier.Prelude.{
  ℕ, ◌≡◌, Bool, true, none, not, ◌&&◌, List, [], ◌∷◌, ◌++◌, ◌==◌, any, find?, if◌then◌else◌, refl,
}
use chipatelier.WarmPool.{Pool, get_container, drain}
use chipatelier.WarmPool.Drain.{Drained, drain_lem}

abbrev warm : Pool
warm = record {
  available = 1 ∷ 2 ∷ 3 ∷ [];
  containers = record { id = 1; is_running = true } ∷ record { id = 3; is_running = true } ∷ [];
}

-- Docker fails on the second id.
abbrev breaks : ℕ → Bool
breaks cid = cid == 2

drain_lem_example :
    ((popped : List ℕ) × (1 ∷ 2 ∷ 3 ∷ [] ≡ popped ++ (drain breaks warm).1.available)
      × ((k : ℕ)
          → get_container k (drain breaks warm).1.containers ≡ (
              if any (λ j. j == k && not (breaks j)) popped
              then none
              else get_container k warm.containers)))
    × Drained breaks warm (drain breaks warm)
unfolding find?
drain_lem_example = drain_lem breaks warm (refl, (refl, tt))
