-- ===== src/Prelude/Partial.antt =====
-- Code that may raise `KeyError` returns an `Option`.
use mathlib.Core.Path.{◌≡◌, refl}
use mathlib.Core.Logic.{◌≢◌}
use mathlib.Core.Option.{Option, none, some}

infixl 5 ◌>>=◌
abbrev pub ◌>>=◌ {ℓ κ} : {A : Type ℓ} {B : Type κ} → Option A → (A → Option B) → Option B
none >>= k = none
some a >>= k = k a

pub >>=-eq-some {ℓ κ} :
    {A : Type ℓ} {B : Type κ} (m : Option A) (k : A → Option B) {b : B}
    → (m >>= k) ≡ some b
    → (a : A) × (m ≡ some a) × (k a ≡ some b)
>>=-eq-some none k h = cc
>>=-eq-some (some a) k h = (a, refl, h)

-- A chain is defined where its head is and the rest is at the head's value.
pub >>=-ne-none {ℓ κ} :
    {A : Type ℓ} {B : Type κ} (m : Option A) (k : A → Option B)
    → m ≢ none
    → ((a : A) → m ≡ some a → k a ≢ none)
    → (m >>= k) ≢ none
>>=-ne-none none k h rest e = h refl
>>=-ne-none (some a) k h rest e = rest a refl e

-- The converse: a chain that is defined has a head, at whose value the rest is defined.
pub >>=-inv {ℓ κ} :
    {A : Type ℓ} {B : Type κ} (m : Option A) (k : A → Option B)
    → (m >>= k) ≢ none
    → (a : A) × (m ≡ some a) × (k a ≢ none)
>>=-inv none k h = absurd (h refl)
>>=-inv (some a) k h = (a, refl, h)

pub ne_none {ℓ} : {A : Type ℓ} {m : Option A} {a : A} → m ≡ some a → m ≢ none
ne_none e e' = cc
