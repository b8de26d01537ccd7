-- ===== src/Vnc/Ports.antt =====
-- The port that a new session gets: the lowest free one of the range.
use chipatelier.Prelude.{
  subst, inl, inr, Bool-cases, ==_iff, ℕ, zero, suc, ◌+◌, ◌≤◌, ◌<◌, ◌≡◌, refl, Bool, true, false,
  none, some, List, arith, ◌==◌, any, if◌then◌else◌,
}
use chipatelier.Vnc.{first_free}

abbrev pub Used : List ℕ → ℕ → Type 0
Used used k = any (λ p. p == k) used ≡ true

-- A port that is found is in the range and free, and every port of the range below it is used.
pub first_free-some :
    (first n : ℕ) (used : List ℕ) (port : ℕ)
    → first_free first n used ≡ some port
    → (first ≤ port)
      × (port < first + n)
      × (any (λ p. p == port) used ≡ false)
      × ((k : ℕ) → first ≤ k → k < port → Used used k)
unfolding first_free
first_free-some first zero used port h = absurd (ground arith)
first_free-some first (suc n) used port h =
    go (any (λ p. p == first) used) refl h (first_free-some (suc first) n used port)
  where
    go :
        (b : Bool)
        → any (λ p. p == first) used ≡ b
        → (if b then first_free (suc first) n used else some first) ≡ some port
        → (first_free (suc first) n used ≡ some port
            → (suc first ≤ port)
              × (port < suc first + n)
              × (any (λ p. p == port) used ≡ false)
              × ((k : ℕ) → suc first ≤ k → k < port → Used used k))
        → (first ≤ port)
          × (port < first + suc n)
          × (any (λ p. p == port) used ≡ false)
          × ((k : ℕ) → first ≤ k → k < port → Used used k)
    go false q e ih = (ground arith, ground arith, ground arith, λ k lo hi. absurd (ground arith))
    go true q e ih =
        let (lo, hi, free, below) = ih e in
        (
          omega arith,
          omega arith,
          free,
          λ k lo' hi'. elim (Bool-cases (first == k)) [
            | inl same ↦
                subst (λ (m : ℕ). any (λ p. p == m) used ≡ true) ((==_iff first k).0 same) q
            | inr other ↦ below k (ground arith) hi'
          ],
        )

-- If none is found, every port of the range is used.
pub first_free-none :
    (first n : ℕ) (used : List ℕ) (k : ℕ)
    → first_free first n used ≡ none
    → first ≤ k
    → k < first + n
    → Used used k
unfolding first_free
first_free-none first zero used k h lo hi = absurd (omega arith)
first_free-none first (suc n) used k h lo hi = ground (arith, first_free-none (suc first) n used k)
