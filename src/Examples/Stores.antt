-- ===== src/Examples/Stores.antt =====
-- A Redis and a log store as lists, with all laws of the interfaces: position k of a list holds the
-- value for the key k.
use chipatelier.Prelude.{
  ℕ, zero, suc, ◌+◌, ◌-◌, ◌≤◌, ◌≡◌, refl, Option, none, some, List, [], ◌∷◌, ◌++◌, arith, ◌==◌, leb,
  if◌then◌else◌, or_else, map_option, length, drop,
}
use chipatelier.FairQueue.Store.{Redis}
use chipatelier.Worker.Store.{LogStore, LogLine}

abbrev pub Cells : Type 0
Cells = List (Option ℕ)

unfoldable pub cell : Cells → ℕ → Option ℕ
cell [] k = none
cell (x ∷ xs) zero = x
cell (x ∷ xs) (suc k) = cell xs k

unfoldable pub put : ℕ → Option ℕ → Cells → Cells
put zero v [] = v ∷ []
put zero v (x ∷ xs) = v ∷ xs
put (suc k) v [] = none ∷ put k v []
put (suc k) v (x ∷ xs) = x ∷ put k v xs

pub cell-put :
    (m k : ℕ) (v : Option ℕ) (xs : Cells) → cell (put m v xs) k ≡ (if m == k then v else cell xs k)
unfolding cell put
cell-put zero zero v [] = refl
cell-put zero (suc k) v [] = ground arith
cell-put zero zero v (x ∷ xs) = refl
cell-put zero (suc k) v (x ∷ xs) = ground arith
cell-put (suc m) zero v [] = ground arith
cell-put (suc m) (suc k) v [] = ground (arith, cell-put m k v [])
cell-put (suc m) zero v (x ∷ xs) = ground arith
cell-put (suc m) (suc k) v (x ∷ xs) = ground (arith, cell-put m k v xs)

abbrev pub lower : Option ℕ → Option (ℕ × ℕ) → Option (ℕ × ℕ)
lower none none = none
lower none (some (i, t)) = some (suc i, t)
lower (some s) none = some (0, s)
lower (some s) (some (i, t)) = if leb s t then some (0, s) else some (suc i, t)

unfoldable pub lowest : Cells → Option (ℕ × ℕ)
lowest [] = none
lowest (x ∷ xs) = lower x (lowest xs)

pub lowest-none : (xs : Cells) (k : ℕ) → lowest xs ≡ none → cell xs k ≡ none
unfolding lowest cell
lowest-none [] k h = refl
lowest-none (none ∷ xs) zero h = refl
lowest-none (none ∷ xs) (suc k) h = lowest-none xs k (ground arith)
lowest-none (some s ∷ xs) k h = absurd (ground arith)

pub lowest-cell : (xs : Cells) (m s : ℕ) → lowest xs ≡ some (m, s) → cell xs m ≡ some s
unfolding lowest cell
lowest-cell [] m s h = absurd (ground arith)
lowest-cell (none ∷ xs) zero s h = absurd (ground arith)
lowest-cell (some t ∷ xs) zero s h = ground arith
lowest-cell (x ∷ xs) (suc m) s h = lowest-cell xs m s (ground arith)

pub lowest_le : (xs : Cells) (m s k t : ℕ) → lowest xs ≡ some (m, s) → cell xs k ≡ some t → s ≤ t
unfolding lowest cell
lowest_le [] m s k t h q = absurd (ground arith)
lowest_le (none ∷ xs) m s zero t h q = absurd (ground arith)
lowest_le (some x ∷ xs) m s zero t h q = ground arith
lowest_le (none ∷ xs) m s (suc k) t h q = go (lowest xs) refl (λ i u. lowest_le xs i u k t)
  where
    go :
        (o : Option (ℕ × ℕ))
        → lowest xs ≡ o
        → ((i u : ℕ) → lowest xs ≡ some (i, u) → cell xs k ≡ some t → u ≤ t)
        → s ≤ t
    go none e ih = absurd (ground (arith, lowest-none xs k e))
    go (some (i, u)) e ih = let bound : u ≤ t = ih i u e (ground arith) in ground arith
lowest_le (some y ∷ xs) m s (suc k) t h q = go (lowest xs) refl (λ i u. lowest_le xs i u k t)
  where
    go :
        (o : Option (ℕ × ℕ))
        → lowest xs ≡ o
        → ((i u : ℕ) → lowest xs ≡ some (i, u) → cell xs k ≡ some t → u ≤ t)
        → s ≤ t
    go none e ih = absurd (ground (arith, lowest-none xs k e))
    go (some (i, u)) e ih = let bound : u ≤ t = ih i u e (ground arith) in ground arith

abbrev pub pop : Option (ℕ × ℕ) → Cells → Cells
pop none xs = xs
pop (some (m, s)) xs = put m none xs

abbrev pub pred_of : Option ℕ → Option ℕ
pred_of o = map_option (λ n. n - 1) o

pub popped_cell :
    (o : Option (ℕ × ℕ)) (xs : Cells) (m s k : ℕ)
    → o ≡ some (m, s)
    → cell (pop o xs) k ≡ (if m == k then none else cell xs k)
popped_cell none xs m s k h = absurd (ground arith)
popped_cell (some (i, t)) xs m s k h = ground (arith, cell-put i k none xs)

pub popped_nothing :
    (o : Option (ℕ × ℕ)) (xs : Cells) (k : ℕ)
    → o ≡ none
    → cell xs k ≡ none
    → cell (pop o xs) k ≡ none
popped_nothing none xs k h q = q
popped_nothing (some p) xs k h q = absurd (ground arith)

pub cell-pred :
    (j k n : ℕ) (xs : Cells)
    → cell xs j ≡ some (suc n)
    → cell (put j (pred_of (cell xs j)) xs) k ≡ (if j == k then some n else cell xs k)
cell-pred j k n xs h = ground (arith, cell-put j k (pred_of (cell xs j)) xs)

abbrev pub cells_redis : Redis
cells_redis = record {
  Store = Cells × Cells;
  score = λ r. cell r.0;
  zadd = λ m s r. (put m (some s) r.0, r.1);
  zpopmin = λ r. (lowest r.0, (pop (lowest r.0) r.0, r.1));
  get = λ r. cell r.1;
  incr = λ j r. (r.0, put j (some (or_else (cell r.1 j) 0 + 1)) r.1);
  decr = λ j r. (r.0, put j (pred_of (cell r.1 j)) r.1);
  expire = λ j r. r;
  score-zadd = λ m s k r. cell-put m k (some s) r.0;
  score-incr = λ j k r. refl;
  score-decr = λ j k r. refl;
  score-expire = λ j k r. refl;
  popped_score = λ r m s h. lowest-cell r.0 m s h;
  popped_min = λ r m s k t h q. lowest_le r.0 m s k t h q;
  popped_rest = λ r m s k h. popped_cell (lowest r.0) r.0 m s k h;
  popped_none = λ r k h. popped_nothing (lowest r.0) r.0 k h (lowest-none r.0 k h);
  none_popped = λ r k h. lowest-none r.0 k h;
  get-incr = λ j k r. cell-put j k (some (or_else (cell r.1 j) 0 + 1)) r.1;
  get-decr = λ j k n r h. cell-pred j k n r.1 h;
  get-zadd = λ m s k r. refl;
  get-expire = λ j k r. refl;
}

abbrev pub list_logs : LogStore
list_logs = record {
  Store = List LogLine;
  items = λ b. b;
  rpush = λ l b. b ++ l ∷ [];
  ltrim = λ n b. drop (length b - n) b;
  expire = λ b. b;
  items-rpush = λ l b. refl;
  items-ltrim = λ n b. refl;
  items-expire = λ b. refl;
}
