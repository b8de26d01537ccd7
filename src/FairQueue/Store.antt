-- ===== src/FairQueue/Store.antt =====
-- Redis as the fair queue uses it: the sorted set `fair_queue:normal` and the counters
-- `fair_queue:depth:{student_id}`. The laws are the documented behaviour of the commands.
use chipatelier.Prelude.{ℕ, suc, ◌+◌, ◌≤◌, ◌≡◌, Option, none, some, ◌==◌, if◌then◌else◌, or_else}

pub record Redis : Type 1 where
  pub Store : Type 0
  -- ZSCORE, which no code calls: it says what the sorted set holds.
  pub score : Store → ℕ → Option ℕ
  -- ZADD and ZPOPMIN of a run and its score
  pub zadd : ℕ → ℕ → Store → Store
  pub zpopmin : Store → Option (ℕ × ℕ) × Store
  -- GET, INCR, DECR and EXPIRE of a student's counter
  pub get : Store → ℕ → Option ℕ
  pub incr : ℕ → Store → Store
  pub decr : ℕ → Store → Store
  pub expire : ℕ → Store → Store
  pub score-zadd :
      (m s k : ℕ) (r : Store) → score (zadd m s r) k ≡ (if m == k then some s else score r k)
  pub score-incr : (j k : ℕ) (r : Store) → score (incr j r) k ≡ score r k
  pub score-decr : (j k : ℕ) (r : Store) → score (decr j r) k ≡ score r k
  pub score-expire : (j k : ℕ) (r : Store) → score (expire j r) k ≡ score r k
  -- ZPOPMIN removes a member with the lowest score; on an empty set it does nothing.
  pub popped_score : (r : Store) (m s : ℕ) → (zpopmin r).0 ≡ some (m, s) → score r m ≡ some s
  pub popped_min :
      (r : Store) (m s k t : ℕ) → (zpopmin r).0 ≡ some (m, s) → score r k ≡ some t → s ≤ t
  pub popped_rest :
      (r : Store) (m s k : ℕ)
      → (zpopmin r).0 ≡ some (m, s)
      → score (zpopmin r).1 k ≡ (if m == k then none else score r k)
  pub popped_none : (r : Store) (k : ℕ) → (zpopmin r).0 ≡ none → score (zpopmin r).1 k ≡ none
  pub none_popped : (r : Store) (k : ℕ) → (zpopmin r).0 ≡ none → score r k ≡ none
  pub get-incr :
      (j k : ℕ) (r : Store)
      → get (incr j r) k ≡ (if j == k then some (or_else (get r j) 0 + 1) else get r k)
  pub get-decr :
      (j k n : ℕ) (r : Store)
      → get r j ≡ some (suc n)
      → get (decr j r) k ≡ (if j == k then some n else get r k)
  pub get-zadd : (m s k : ℕ) (r : Store) → get (zadd m s r) k ≡ get r k
  -- The time to live runs out later: EXPIRE itself changes no value.
  pub get-expire : (j k : ℕ) (r : Store) → get (expire j r) k ≡ get r k
