-- ===== src/Containers/Watchdog.antt =====
-- Which containers the watchdog leaves.
use chipatelier.Prelude.{
  ℕ, ◌≡◌, ◌∙◌, refl, subst, Bool, true, false, not, ◌&&◌, ◌||◌, Option, none, some, List, [], ◌∷◌,
  ◌++◌, arith, select, any, Bool-cases, inl, inr,
}
use chipatelier.Prelude.Text.{Text, eq_text, eq_text_sound, strip_prefix, strip_prefix-append}
use chipatelier.Model.{Db}
use chipatelier.Jobs.{get_run}
use chipatelier.Projects.Storage.{Python}
use chipatelier.Containers.{
  JobContainer, Summary, job_prefix, contains, list_orfs_containers, stop_and_remove, is_active_row,
  run_id_of, reap_run, reap, cleanup_orphaned_containers,
}

-- Whether there is a container of that name.
abbrev pub present : Text → List JobContainer → Bool
present name cs = any (λ (c : JobContainer). eq_text name c.name) cs

-- Whether there is a running one.
abbrev pub runs_as : Text → List JobContainer → Bool
runs_as name cs = any (λ (c : JobContainer). eq_text name c.name && c.is_running) cs

eq_text_comm : (xs ys : Text) → eq_text xs ys ≡ eq_text ys xs
unfolding eq_text
eq_text_comm [] [] = refl
eq_text_comm [] (y ∷ ys) = refl
eq_text_comm (x ∷ xs) [] = refl
eq_text_comm (x ∷ xs) (y ∷ ys) = ground (arith, eq_text_comm xs ys)

present-select :
    (n m : Text) (cs : List JobContainer)
    → present n (select (λ (c : JobContainer). not (eq_text c.name m)) cs)
      ≡ (present n cs && not (eq_text n m))
unfolding any select
present-select n m [] = refl
present-select n m (c ∷ cs) = elim (Bool-cases (eq_text n c.name)) [
  | inl same ↦
      let equal : n ≡ c.name = eq_text_sound n c.name same in
      ground (arith, present-select n m cs, same, subst (λ x. eq_text x m ≡ eq_text n m) equal refl)
  | inr other ↦ ground (arith, present-select n m cs, other)
]

any-eq :
    (name : Text) (q : Text → Bool) (cs : List JobContainer)
    → any (λ (c : JobContainer). eq_text name c.name && q c.name) cs ≡ (present name cs && q name)
unfolding any
any-eq name q [] = refl
any-eq name q (c ∷ cs) = elim (Bool-cases (eq_text name c.name)) [
  | inl same ↦
      let equal : name ≡ c.name = eq_text_sound name c.name same in
      ground (arith, any-eq name q cs, same, subst (λ x. q x ≡ q name) equal refl)
  | inr other ↦ ground (arith, any-eq name q cs, other)
]

any-listed :
    (name : Text) (cs : List JobContainer)
    → present name (list_orfs_containers cs) ≡ (runs_as name cs && contains job_prefix name)
unfolding any select list_orfs_containers
any-listed name [] = refl
any-listed name (c ∷ cs) = elim (Bool-cases (eq_text name c.name)) [
  | inl same ↦
      let equal : name ≡ c.name = eq_text_sound name c.name same in
      ground (
        arith,
        any-listed name cs,
        same,
        subst (λ x. contains job_prefix x ≡ contains job_prefix name) equal refl,
      )
  | inr other ↦ ground (arith, any-listed name cs, other)
]

present-flip :
    (n : Text) (cs : List JobContainer)
    → any (λ (c : JobContainer). eq_text c.name n) cs ≡ present n cs
unfolding any
present-flip n [] = refl
present-flip n (c ∷ cs) = ground (arith, eq_text_comm c.name n, present-flip n cs)

spared : (p q a b : Bool) → q ≡ (p && not a) → (q && not b) ≡ (p && not (a || b))
spared p q a b h = ground arith

runs_as-present : (n : Text) (cs : List JobContainer) → runs_as n cs ≡ true → present n cs ≡ true
unfolding any
runs_as-present n [] h = h
runs_as-present n (c ∷ cs) h = ground (arith, runs_as-present n cs)

module _ (P : Python) (stop_fails : Text → Bool) (db : Db) where
  abbrev pub reaped_run : Text → Option ℕ → Bool
  reaped_run name none = false
  reaped_run name (some run_id) = not (is_active_row (get_run run_id db)) && not (stop_fails name)

  -- What the watchdog removes, by name: the name ends in the id of a run that is not active, and
  -- Docker can stop it.
  abbrev pub reaped : Text → Bool
  reaped name = reaped_run name (run_id_of P name)

  reap_run-present :
      (name n : Text) (o : Option ℕ) (sum : Summary) (cs : List JobContainer)
      → present n (reap_run P stop_fails db name o (sum, cs)).1
        ≡ (present n cs && not (eq_text n name && reaped_run name o))
  unfolding stop_and_remove
  reap_run-present name n none sum cs = ground arith
  reap_run-present name n (some run_id) sum cs = elim (Bool-cases (eq_text n name)) [
    | inl same ↦
        let equal : n ≡ name = eq_text_sound n name same in
        ground (
          arith,
          same,
          present-select n name cs,
          present-flip name cs,
          subst (λ x. present x cs ≡ present n cs) equal refl,
        )
    | inr other ↦ ground (arith, other, present-select n name cs)
  ]

  reap-present :
      (listed : List JobContainer) (n : Text) (sum : Summary) (cs : List JobContainer)
      → present n (reap P stop_fails db listed (sum, cs)).1 ≡ (
          present n cs
          && not (any (λ (d : JobContainer). eq_text n d.name && reaped d.name) listed))
  unfolding any
  reap-present [] n sum cs = ground arith
  reap-present (d ∷ listed) n sum cs =
      let next : Summary × List JobContainer =
        reap_run P stop_fails db d.name (run_id_of P d.name) (sum, cs) in
      reap-present listed n next.0 next.1
      ∙ spared (present n cs) (present n next.1) (eq_text n d.name && reaped d.name)
          (any (λ (c : JobContainer). eq_text n c.name && reaped c.name) listed)
          (reap_run-present d.name n (run_id_of P d.name) sum cs)

  -- A name that had a container has none afterwards exactly if it was listed, that is runs under a
  -- name with the pattern in it, the rest of the name is the id of a run that is missing or not
  -- active, and Docker can stop it.
  pub cleanup_lem :
      (cs : List JobContainer) (n : Text)
      → present n (cleanup_orphaned_containers P stop_fails db cs).1
        ≡ (present n cs && not (runs_as n cs && contains job_prefix n && reaped n))
  unfolding cleanup_orphaned_containers
  cleanup_lem cs n = ground (
    arith,
    reap-present (list_orfs_containers cs) n (record { inspected = 0; stopped = 0; errors = 0 }) cs,
    any-eq n reaped (list_orfs_containers cs),
    any-listed n cs,
  )

  -- The container of a run, by the name that `run_container` gives it.
  abbrev pub job_name : ℕ → Text
  job_name run_id = job_prefix ++ P.str_uuid run_id

  job_name-contains : (run_id : ℕ) → contains job_prefix (job_name run_id) ≡ true
  unfolding job_prefix strip_prefix
  job_name-contains run_id = ground (arith, strip_prefix-append job_prefix (P.str_uuid run_id))

  job_name-run_id_of : (run_id : ℕ) → run_id_of P (job_name run_id) ≡ some run_id
  unfolding job_prefix strip_prefix
  job_name-run_id_of run_id = P.parse-str_uuid run_id

  -- The running container of a run is gone after the watchdog if the run is missing or has ended and
  -- Docker can stop it; it is still there if the run is active, whether or not a worker executes it.
  pub job_reaped :
      (cs : List JobContainer) (run_id : ℕ)
      → runs_as (job_name run_id) cs ≡ true
      → stop_fails (job_name run_id) ≡ false
      → present (job_name run_id) (cleanup_orphaned_containers P stop_fails db cs).1
        ≡ is_active_row (get_run run_id db)
  job_reaped cs run_id running stops = ground (
    arith,
    cleanup_lem cs (job_name run_id),
    job_name-contains run_id,
    job_name-run_id_of run_id,
    runs_as-present (job_name run_id) cs,
  )
