-- ===== src/Prelude/Tables.antt =====
-- Tables as lists of rows, oldest first: the queries and updates that the handlers issue.
use Prim.Native.Nat.{ℕ, zero, suc, ◌+◌, ◌-◌, ◌≤◌}
use Prim.Native.String.{String}
use mathlib.Core.Path.{◌≡◌, refl, subst, subst₂}
use mathlib.Core.Bool.{Bool, true, false, ◌||◌}
use mathlib.Core.Option
use mathlib.Core.Option.{Option, none, some}
use mathlib.Core.List.{List, [], ◌∷◌, ◌++◌, map}
use native.Mathlib.Omega.{arith}
use text.Mathlib.Text.{◌==◌ as str_eq}
use text.Mathlib.TextEquality.{eq_iff}
use chipatelier.Prelude.Tests.{if◌then◌else◌, is_some, ◌==◌}

module _ {ℓ} {A : Type ℓ} where
  abbrev pub length : List A → ℕ
  length [] = 0
  length (x ∷ xs) = suc (length xs)

  abbrev pub take : ℕ → List A → List A
  take zero xs = []
  take (suc n) [] = []
  take (suc n) (x ∷ xs) = x ∷ take n xs

  abbrev pub drop : ℕ → List A → List A
  drop zero xs = xs
  drop (suc n) [] = []
  drop (suc n) (x ∷ xs) = drop n xs

  -- SELECT … WHERE p, first row
  unfoldable pub find? : (A → Bool) → List A → Option A
  find? p [] = none
  find? p (x ∷ xs) = if p x then some x else find? p xs

  -- SELECT … WHERE p
  unfoldable pub select : (A → Bool) → List A → List A
  select p [] = []
  select p (x ∷ xs) = let rest = select p xs in if p x then x ∷ rest else rest

  -- UPDATE … SET f WHERE p
  unfoldable pub update_where : (A → Bool) → (A → A) → List A → List A
  update_where p f [] = []
  update_where p f (x ∷ xs) = (if p x then f x else x) ∷ update_where p f xs

  unfoldable pub any : (A → Bool) → List A → Bool
  any p [] = false
  any p (x ∷ xs) = p x || any p xs

  pub length-append : (xs ys : List A) → length (xs ++ ys) ≡ length xs + length ys
  length-append [] ys = omega arith
  length-append (x ∷ xs) ys = omega (arith, length-append xs ys)

  pub select-append :
      (p : A → Bool) (xs ys : List A) → select p (xs ++ ys) ≡ select p xs ++ select p ys
  unfolding select
  select-append p [] ys = refl
  select-append p (x ∷ xs) ys = ground (arith, select-append p xs ys)

  pub length-select-le : (p : A → Bool) (xs : List A) → length (select p xs) ≤ length xs
  unfolding select
  length-select-le p [] = omega arith
  length-select-le p (x ∷ xs) = ground (arith, length-select-le p xs)

  pub find?-sound : (p : A → Bool) (xs : List A) {a : A} → find? p xs ≡ some a → p a ≡ true
  unfolding find?
  find?-sound p [] h = cc
  find?-sound p (x ∷ xs) {a = a} h = go (p x) refl (find?-sound p xs) h
    where
      go :
          (b : Bool)
          → p x ≡ b
          → (find? p xs ≡ some a → p a ≡ true)
          → (if b then some x else find? p xs) ≡ some a
          → p a ≡ true
      go true q ih e = subst (λ y. p y ≡ true) (cc) q
      go false q ih e = ih e

  pub any-find? : (p : A → Bool) (xs : List A) → any p xs ≡ is_some (find? p xs)
  unfolding find? any
  any-find? p [] = refl
  any-find? p (x ∷ xs) = ground (arith, any-find? p xs)

module _ {ℓ κ} {A : Type ℓ} (P : A → Type κ) where
  abbrev pub All : List A → Type κ
  All [] = Unit
  All (x ∷ xs) = P x × All xs

  pub All-append : (xs ys : List A) → All xs → All ys → All (xs ++ ys)
  All-append [] ys h k = k
  All-append (x ∷ xs) ys (p, h) k = (p, All-append xs ys h k)

  pub All-find? : (p : A → Bool) (xs : List A) {a : A} → All xs → find? p xs ≡ some a → P a
  unfolding find?
  All-find? p [] h e = cc
  All-find? p (x ∷ xs) {a = a} (px, h) e = go (p x) (All-find? p xs h) e
    where
      go :
          (b : Bool)
          → (find? p xs ≡ some a → P a)
          → (if b then some x else find? p xs) ≡ some a
          → P a
      go true ih q = subst P (cc) px
      go false ih q = ih q

  pub All-select : (p : A → Bool) (xs : List A) → All xs → All (select p xs)
  unfolding select
  All-select p [] h = tt
  All-select p (x ∷ xs) (px, h) = go (p x) (All-select p xs h)
    where
      go : (b : Bool) → All (select p xs) → All (if b then x ∷ select p xs else select p xs)
      go true k = (px, k)
      go false k = k

  -- An update keeps `P` on every row if it does so on the rows that it rewrites.
  pub All-update_where :
      (p : A → Bool) (f : A → A) (xs : List A)
      → ((a : A) → p a ≡ true → P a → P (f a))
      → All xs
      → All (update_where p f xs)
  unfolding update_where
  All-update_where p f [] k h = tt
  All-update_where p f (x ∷ xs) k (px, h) = (go (p x) refl, All-update_where p f xs k h)
    where
      go : (b : Bool) → p x ≡ b → P (if b then f x else x)
      go true q = k x q px
      go false q = px

-- `d.get(key)`
unfoldable pub lookup {ℓ} : {V : Type ℓ} → String → List (String × V) → Option V
lookup k [] = none
lookup k ((j, v) ∷ d) = if str_eq j k then some v else lookup k d

pub All-mono {ℓ κ κ'} :
    {A : Type ℓ} {P : A → Type κ} {Q : A → Type κ'} (xs : List A)
    → ((a : A) → P a → Q a)
    → All P xs
    → All Q xs
All-mono [] f h = tt
All-mono (x ∷ xs) f (px, h) = (f x px, All-mono xs f h)

module _ {ℓ} {A : Type ℓ} where
  -- An update that makes no row newly match does not raise a count.
  pub length-select-update_le :
      (p q : A → Bool) (f : A → A) (xs : List A)
      → ((a : A) → q a ≡ true → p (f a) ≡ true → p a ≡ true)
      → length (select p (update_where q f xs)) ≤ length (select p xs)
  unfolding select update_where
  length-select-update_le p q f [] h = omega arith
  length-select-update_le p q f (x ∷ xs) h = ground (arith, h x, length-select-update_le p q f xs h)

  -- A lookup by key after an update by key that keeps the keys.
  pub find?-update_where :
      (key : A → ℕ) (f : A → A) (j k : ℕ) (xs : List A)
      → ((a : A) → key (f a) ≡ key a)
      → find? (λ a. key a == k) (update_where (λ a. key a == j) f xs)
        ≡ (if j == k then Option.map f (find? (λ a. key a == k) xs) else find? (λ a. key a == k) xs)
  unfolding find? update_where
  find?-update_where key f j k [] h = ground arith
  find?-update_where key f j k (x ∷ xs) h = ground (arith, h x, find?-update_where key f j k xs h)

  pub find?-append :
      (p : A → Bool) (xs ys : List A)
      → find? p (xs ++ ys) ≡ (if is_some (find? p xs) then find? p xs else find? p ys)
  unfolding find?
  find?-append p [] ys = refl
  find?-append p (x ∷ xs) ys = ground (arith, find?-append p xs ys)

  pub length-drop : (n : ℕ) (xs : List A) → length (drop n xs) ≡ length xs - n
  length-drop zero xs = omega arith
  length-drop (suc n) [] = omega arith
  length-drop (suc n) (x ∷ xs) = omega (arith, length-drop n xs)

  -- ORDER BY: `before x y` says that `x` may stand in front of `y`.
  unfoldable pub insert_by : (A → A → Bool) → A → List A → List A
  insert_by before x [] = x ∷ []
  insert_by before x (y ∷ ys) =
      let later = insert_by before x ys in if before x y then x ∷ y ∷ ys else y ∷ later

  unfoldable pub order_by : (A → A → Bool) → List A → List A
  unfolding insert_by
  order_by before [] = []
  order_by before (x ∷ xs) = insert_by before x (order_by before xs)

-- A query with no row fails on every row, and the other way round.
module _ {ℓ} {A : Type ℓ} where
  pub select-nil : (p : A → Bool) (xs : List A) → select p xs ≡ [] → All (λ a. p a ≡ false) xs
  unfolding select
  select-nil p [] h = tt
  select-nil p (x ∷ xs) h = go (p x) refl h (select-nil p xs)
    where
      go :
          (b : Bool)
          → p x ≡ b
          → (if b then x ∷ select p xs else select p xs) ≡ []
          → (select p xs ≡ [] → All (λ a. p a ≡ false) xs)
          → (p x ≡ false) × All (λ a. p a ≡ false) xs
      go true q e ih = cc
      go false q e ih = (q, ih e)

  pub nil-select : (p : A → Bool) (xs : List A) → All (λ a. p a ≡ false) xs → select p xs ≡ []
  unfolding select
  nil-select p [] h = refl
  nil-select p (x ∷ xs) (hx, h) = rw hx (nil-select p xs h)

pub All-lookup {ℓ κ} :
    {V : Type ℓ} (P : String × V → Type κ) (k : String) (d : List (String × V)) {v : V}
    → All P d
    → lookup k d ≡ some v
    → P (k, v)
unfolding lookup
All-lookup P k [] h e = cc
All-lookup {V = V} P k ((j, w) ∷ d) {v = v} (hj, h) e = go (str_eq j k) refl e (All-lookup P k d h)
  where
    go :
        (b : Bool)
        → str_eq j k ≡ b
        → (if b then some w else lookup k d) ≡ some v
        → (lookup k d ≡ some v → P (k, v))
        → P (k, v)
    go true q e' ih =
        let same_key : j ≡ k = (eq_iff j k).0 q in
        let same_value : w ≡ v = cc in
        subst₂ (λ (x : String) (y : V). P (x, y)) same_key same_value hj
    go false q e' ih = ih e'

-- FROM a JOIN b ON p
unfoldable pub join {ℓ κ} :
    {A : Type ℓ} {B : Type κ} → (A → B → Bool) → List A → List B → List (A × B)
join p [] ys = []
join p (x ∷ xs) ys = map (λ y. (x, y)) (select (p x) ys) ++ join p xs ys

module _ {ℓ} {A : Type ℓ} where
  -- What a query selects satisfies its condition.
  pub select-All : (p : A → Bool) (xs : List A) → All (λ a. p a ≡ true) (select p xs)
  unfolding select
  select-All p [] = tt
  select-All p (x ∷ xs) = go (p x) refl (select-All p xs)
    where
      go :
          (b : Bool)
          → p x ≡ b
          → All (λ a. p a ≡ true) (select p xs)
          → All (λ a. p a ≡ true) (if b then x ∷ select p xs else select p xs)
      go true q h = (q, h)
      go false q h = h

module _ {ℓ κ} {A : Type ℓ} (P : A → Type κ) (before : A → A → Bool) where
  All-insert_by : (x : A) (xs : List A) → P x → All P xs → All P (insert_by before x xs)
  unfolding insert_by
  All-insert_by x [] px h = (px, tt)
  All-insert_by x (y ∷ ys) px (py, h) = go (before x y) (All-insert_by x ys px h)
    where
      go :
          (b : Bool)
          → All P (insert_by before x ys)
          → All P (if b then x ∷ y ∷ ys else y ∷ insert_by before x ys)
      go true k = (px, (py, h))
      go false k = (py, k)

  pub All-order_by : (xs : List A) → All P xs → All P (order_by before xs)
  unfolding order_by
  All-order_by [] h = tt
  All-order_by (x ∷ xs) (px, h) = All-insert_by x (order_by before xs) px (All-order_by xs h)

module _ {ℓ} {A : Type ℓ} (before : A → A → Bool) where
  length-insert_by : (x : A) (xs : List A) → length (insert_by before x xs) ≡ suc (length xs)
  unfolding insert_by
  length-insert_by x [] = refl
  length-insert_by x (y ∷ ys) = ground (arith, length-insert_by x ys)

  pub length-order_by : (xs : List A) → length (order_by before xs) ≡ length xs
  unfolding order_by
  length-order_by [] = refl
  length-order_by (x ∷ xs) =
      omega (arith, length-insert_by x (order_by before xs), length-order_by xs)

-- Each row may stand in front of the next.
module _ {ℓ} {A : Type ℓ} (before : A → A → Bool) where
  abbrev pub Leads : A → List A → Type 0
  Leads x [] = Unit {0}
  Leads x (y ∷ ys) = before x y ≡ true

  abbrev pub Sorted : List A → Type 0
  Sorted [] = Unit {0}
  Sorted (x ∷ xs) = Leads x xs × Sorted xs

  module _ (total : (x y : A) → before x y ≡ false → before y x ≡ true) where
    insert_by-Sorted :
        (x : A) (xs : List A)
        → Sorted xs
        → Sorted (insert_by before x xs)
          × ((y : A) → before y x ≡ true → Leads y xs → Leads y (insert_by before x xs))
    unfolding insert_by
    insert_by-Sorted x [] h = ((tt, tt), λ y q l. q)
    insert_by-Sorted x (y ∷ ys) (l, h) = go (before x y) refl (insert_by-Sorted x ys h)
      where
        go :
            (b : Bool)
            → before x y ≡ b
            → Sorted (insert_by before x ys)
              × ((z : A) → before z x ≡ true → Leads z ys → Leads z (insert_by before x ys))
            → Sorted (if b then x ∷ y ∷ ys else y ∷ insert_by before x ys)
              × ((z : A)
                  → before z x ≡ true
                  → Leads z (y ∷ ys)
                  → Leads z (if b then x ∷ y ∷ ys else y ∷ insert_by before x ys))
        go true q ih = ((q, (l, h)), λ z zx zy. zx)
        go false q (sorted, leads) = ((leads y (total x y q) l, sorted), λ z zx zy. zy)

    -- ORDER BY sorts, if any two rows can stand in one order or the other.
    pub order_by-Sorted : (xs : List A) → Sorted (order_by before xs)
    unfolding order_by
    order_by-Sorted [] = tt
    order_by-Sorted (x ∷ xs) = (insert_by-Sorted x (order_by before xs) (order_by-Sorted xs)).0

-- A query without a first row has no row.
pub find?-none-select {ℓ} :
    {A : Type ℓ} (p : A → Bool) (xs : List A) → is_some (find? p xs) ≡ false → select p xs ≡ []
unfolding find? select
find?-none-select p [] h = refl
find?-none-select p (x ∷ xs) h = ground (arith, find?-none-select p xs)

module _ {ℓ} {A : Type ℓ} where
  pub All-of {κ} : {P : A → Type κ} → ((a : A) → P a) → (xs : List A) → All P xs
  All-of h [] = tt
  All-of h (x ∷ xs) = (h x, All-of h xs)

  -- As `length-select-update_le`, with the condition asked of the rows that are there.
  pub length-select-update_le_All :
      (p q : A → Bool) (f : A → A) (xs : List A)
      → All (λ a. q a ≡ true → p (f a) ≡ true → p a ≡ true) xs
      → length (select p (update_where q f xs)) ≤ length (select p xs)
  unfolding select update_where
  length-select-update_le_All p q f [] h = omega arith
  length-select-update_le_All p q f (x ∷ xs) (hx, h) =
      ground (arith, hx, length-select-update_le_All p q f xs h)
