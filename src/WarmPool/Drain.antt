-- ===== src/WarmPool/Drain.antt =====
-- What a drain, a claim and a replenishment leave in the pool.
use chipatelier.Prelude.{
  ℕ, ◌+◌, ◌≤◌, ◌≡◌, refl, Bool, true, false, not, ◌&&◌, any, ◌++◌, ◌⊎◌, inl, inr, Bool-cases,
  is_some, ==_iff, Option, none, some, List, [], ◌∷◌, arith, ◌==◌, leb, length, length-append,
  find?, select, if◌then◌else◌,
}
use chipatelier.WarmPool.{
  Container, Pool, get_container, remove_container, claim, StartFault, no_fault, replenish,
  drain_ids, drain,
}

get-remove_container :
    (j k : ℕ) (cs : List Container)
    → get_container k (remove_container j cs) ≡ (if j == k then none else get_container k cs)
unfolding remove_container find? select
get-remove_container j k [] = ground arith
get-remove_container j k (c ∷ cs) = ground (arith, get-remove_container j k cs)

-- Docker's ids are distinct.
abbrev pub Distinct : List Container → Type 0
Distinct [] = Unit {0}
Distinct (c ∷ cs) = (get_container c.id cs ≡ none) × Distinct cs

remove_absent :
    (j : ℕ) (cs : List Container) → get_container j cs ≡ none → remove_container j cs ≡ cs
unfolding remove_container find? select
remove_absent j [] h = refl
remove_absent j (c ∷ cs) h = ground (arith, remove_absent j cs)

remove-Distinct : (j : ℕ) (cs : List Container) → Distinct cs → Distinct (remove_container j cs)
unfolding remove_container select
remove-Distinct j [] h = tt
remove-Distinct j (c ∷ cs) (fresh, h) =
    go (c.id == j) (remove-Distinct j cs h) (ground (arith, get-remove_container j c.id cs))
  where
    go :
        (b : Bool)
        → Distinct (remove_container j cs)
        → get_container c.id (remove_container j cs) ≡ none
        → Distinct (if not b then c ∷ remove_container j cs else remove_container j cs)
    go true rest apart = rest
    go false rest apart = (apart, rest)

-- A removal takes away one container if the id has one, and else none.
remove-length :
    (j : ℕ) (cs : List Container)
    → Distinct cs
    → length cs ≡ (if is_some (get_container j cs) then 1 else 0) + length (remove_container j cs)
unfolding remove_container find? select
remove-length j [] h = refl
remove-length j (c ∷ cs) (fresh, h) =
    ground (arith, remove-length j cs h, remove_absent j cs, ==_iff c.id j)

-- How a drain ends: with the exact count and nothing offered any more, or with an error.
abbrev pub Drained : (ℕ → Bool) → Pool → Option ℕ × Pool → Type 0
Drained fails s (o, s') =
    ((any fails s.available ≡ false)
      × (s'.available ≡ [])
      × ((n : ℕ) × (o ≡ some n) × (length s.containers ≡ n + length s'.containers)))
    ⊎ ((any fails s.available ≡ true) × (o ≡ none))

drain_ids-Drained :
    (fails : ℕ → Bool) (ids : List ℕ) (cs : List Container)
    → Distinct cs
    → Drained fails (record { available = ids; containers = cs }) (drain_ids fails ids cs)
unfolding drain_ids any
drain_ids-Drained fails [] cs h = inl (refl, refl, (0, refl, omega arith))
drain_ids-Drained fails (k ∷ ids) cs h = elim (Bool-cases (fails k)) [
  | inl broken ↦ inr (ground arith, ground arith)
  | inr works ↦
      elim (drain_ids-Drained fails ids (remove_container k cs) (remove-Distinct k cs h)) [
        | inl (fine, empty, (n, e, count)) ↦ inl (
          ground arith,
          ground arith,
          (
            (if is_some (get_container k cs) then 1 else 0) + n,
            ground arith,
            ground (arith, remove-length k cs h),
          ),
        )
        | inr (broken, e) ↦ inr (ground arith, ground arith)
      ]
]

-- The drain pops a part of the offered ids from the front and removes their containers, but those
-- that Docker fails on; all other ids and containers stay.
drain_ids-popped :
    (fails : ℕ → Bool) (ids : List ℕ) (cs : List Container)
    → (popped : List ℕ) × (ids ≡ popped ++ (drain_ids fails ids cs).1.available)
      × ((k : ℕ)
          → get_container k (drain_ids fails ids cs).1.containers
            ≡ (if any (λ j. j == k && not (fails j)) popped then none else get_container k cs))
unfolding drain_ids any
drain_ids-popped fails [] cs = ([], refl, λ k. refl)
drain_ids-popped fails (j ∷ ids) cs =
    let (popped, e, after) = drain_ids-popped fails ids (remove_container j cs) in
    elim (Bool-cases (fails j)) [
      | inl broken ↦ (j ∷ [], ground arith, λ k. ground arith)
      | inr works ↦
          (j ∷ popped, ground (arith, e), λ k. ground (arith, after k, get-remove_container j k cs))
    ]

-- Docker's ids are distinct. A drain takes a part of the offered ids from the front of the list, and
-- removes the containers of those on which Docker does not fail; every other id is still offered and
-- every other container is still there. If Docker fails on no offered id, nothing is offered any more,
-- and the count that the drain returns is exactly the number of containers that are gone; else the
-- drain raises.
pub drain_lem :
    (fails : ℕ → Bool) (s : Pool)
    → Distinct s.containers
    → ((popped : List ℕ) × (s.available ≡ popped ++ (drain fails s).1.available)
        × ((k : ℕ)
            → get_container k (drain fails s).1.containers ≡ (
                if any (λ j. j == k && not (fails j)) popped
                then none
                else get_container k s.containers)))
      × Drained fails s (drain fails s)
unfolding drain
drain_lem fails s h = (
  drain_ids-popped fails s.available s.containers,
  drain_ids-Drained fails s.available s.containers h,
)

-- A claim gives a container only if it was the first one offered and is running; then it is no
-- longer offered.
pub claim_lem :
    (s : Pool) (cid : ℕ)
    → (claim s).0 ≡ some cid
    → (c : Container) × (get_container cid s.containers ≡ some c)
      × (c.is_running ≡ true)
      × (s.available ≡ cid ∷ (claim s).1.available)
unfolding claim
claim_lem s cid h = go s.available refl
  where
    go :
        (ids : List ℕ)
        → s.available ≡ ids
        → (c : Container) × (get_container cid s.containers ≡ some c)
          × (c.is_running ≡ true)
          × (s.available ≡ cid ∷ (claim s).1.available)
    go [] e = absurd (ground arith)
    go (j ∷ ids) e = go_checked (get_container j s.containers) refl
      where
        go_checked :
            (o : Option Container)
            → get_container j s.containers ≡ o
            → (c : Container) × (get_container cid s.containers ≡ some c)
              × (c.is_running ≡ true)
              × (s.available ≡ cid ∷ (claim s).1.available)
        go_checked none q = absurd (ground arith)
        go_checked (some c) q = (c, ground arith, ground arith, ground arith)

-- Whatever fails on the way, a replenishment of a pool within its target keeps it within; if nothing
-- fails, it reports success exactly when the pool was below its target.
pub replenish_lem :
    (fault : StartFault) (target new_id : ℕ) (s : Pool)
    → length s.available ≤ target
    → (length (replenish fault target new_id s).1.available ≤ target)
      × ((replenish no_fault target new_id s).0 ≡ not (leb target (length s.available)))
unfolding replenish
replenish_lem fault target new_id s h =
    (ground (arith, length-append s.available (new_id ∷ [])), ground arith)
