-- ===== src/Worker/Monad.antt =====
-- A Celery task's code: it changes the state, and returns or raises.
use chipatelier.Prelude.{◌≡◌, refl, sym, ap, ◌∙◌, Bool, true, false, if◌then◌else◌}

pub data Exn : Type 0 where
  -- celery.exceptions.Retry, MaxRetriesExceededError, docker.errors.DockerException, and all others
  retry max_retries_exceeded docker_exception other : Exn

pub data Outcome (A : Type 0) : Type 0 where
  done : A → Outcome A
  raised : Exn → Outcome A

abbrev pub Job : Type 0 → Type 0 → Type 0
Job S A = S → Outcome A × S

module _ {S A : Type 0} where
  unfoldable pub pure : A → Job S A
  pure a s = (done a, s)

  unfoldable pub raise : Exn → Job S A
  raise e s = (raised e, s)

  unfoldable pub gets : (S → A) → Job S A
  gets f s = (done (f s), s)

module _ {S : Type 0} where
  unfoldable pub modify : (S → S) → Job S (Unit {0})
  modify f s = (done tt, f s)

module _ {S A B : Type 0} where
  abbrev pub resume : Outcome A → (A → Job S B) → Job S B
  resume (done a) k s = k a s
  resume (raised e) k s = (raised e, s)

  infixl 5 ◌>>=◌ ◌>>◌
  -- To open this is to open the other actions too.
  unfoldable pub ◌>>=◌ : Job S A → (A → Job S B) → Job S B
  unfolding pure raise gets modify
  ◌>>=◌ m k s = resume (m s).0 k (m s).1

  abbrev pub ◌>>◌ : Job S A → Job S B → Job S B
  m >> k = m >>= λ _. k

  -- A chain that returned has a head that returned, in the state where the rest started.
  pub >>=-done :
      (m : Job S A) (k : A → Job S B) (s : S) {b : B}
      → ((m >>= k) s).0 ≡ done b
      → (a : A) × ((m s).0 ≡ done a) × ((m >>= k) s ≡ k a (m s).1)
  unfolding ◌>>=◌
  >>=-done m k s {b = b} h = go (m s).0 refl h
    where
      go :
          (o : Outcome A)
          → (m s).0 ≡ o
          → (resume o k (m s).1).0 ≡ done b
          → (a : A) × ((m s).0 ≡ done a) × ((m >>= k) s ≡ k a (m s).1)
      go (done a) e h = (a, e, rw e)
      go (raised x) e h = cc

-- Whether it returns or raises, `m` keeps `P`.
pub record Keeps {S A : Type 0} (P : S → Type 0) (m : Job S A) : Type 0 where
  pub at : (s : S) → P s → P (m s).1

module _ {S : Type 0} {I : S → Type 0} where
  pub Keeps-modify : (f : S → S) → ((t : S) → I t → I (f t)) → Keeps I (modify f)
  unfolding modify
  Keeps-modify f step = record { at = step }

  module _ {A : Type 0} where
    pub Keeps-if : (b : Bool) (m n : Job S A) → Keeps I m → Keeps I n → Keeps I (if b then m else n)
    Keeps-if false m n first second = second
    Keeps-if true m n first second = first

    pub Keeps-raise : (exn : Exn) → Keeps I (raise {A = A} exn)
    unfolding raise
    Keeps-raise exn = record { at = λ t kept. kept }

    pub Keeps-gets : (read : S → A) → Keeps I (gets read)
    unfolding gets
    Keeps-gets read = record { at = λ t kept. kept }

    pub Keeps-pure : (value : A) → Keeps I (pure value)
    unfolding pure
    Keeps-pure value = record { at = λ t kept. kept }

    module _ {B : Type 0} (rest : A → Job S B) where
      Keeps-resume :
          (o : Outcome A) (t : S) → ((a : A) → Keeps I (rest a)) → I t → I (resume o rest t).1
      Keeps-resume (raised exn) t each kept = kept
      Keeps-resume (done a) t each kept = (each a).at t kept

  pub Keeps-bind :
      {A B : Type 0} (m : Job S A) (rest : A → Job S B)
      → Keeps I m
      → ((a : A) → Keeps I (rest a))
      → Keeps I (m >>= rest)
  unfolding ◌>>=◌
  Keeps-bind m rest first each = record {
    at = λ t kept. Keeps-resume rest (m t).0 (m t).1 each (first.at t kept);
  }

pub ruleset keeps_rules = (Keeps-pure, Keeps-raise, Keeps-gets, Keeps-if, Keeps-bind)

-- Every value that `m` returns satisfies `Q`.
pub record Gives {S A : Type 0} (Q : A → Type 0) (m : Job S A) : Type 0 where
  pub at : (s : S) (a : A) → (m s).0 ≡ done a → Q a

pub Gives-bind :
    {S A B : Type 0} {Q : B → Type 0} (m : Job S A) (k : A → Job S B)
    → ((a : A) → Gives Q (k a))
    → Gives Q (m >>= k)
Gives-bind m k gk = record {
  at = λ s b e.
      let (a, _, same) = >>=-done m k s e in (gk a).at (m s).1 b (ap (λ r. r.0) (sym same) ∙ e);
}
