-- ===== src/Exec.antt =====
-- Go code that reads and writes a state and may panic: what was written before the panic stays.
-- A Go error is no panic; it is a value in the result.
use kl_internal_operator.Base.{Option, none, some}

pub data Outcome {ℓ} (A : Type ℓ) : Type ℓ where
  returned : A → Outcome A
  panicked : Outcome A

abbrev pub Exec {ℓ} : Type ℓ → Type ℓ → Type ℓ
Exec S A = S → Outcome A × S

module _ {ℓ} {S A : Type ℓ} where
  abbrev pub pure : A → Exec S A
  pure a s = (returned a, s)

  abbrev pub panic : Exec S A
  panic s = (panicked, s)

  -- Read a part of the state.
  abbrev pub gets : (S → A) → Exec S A
  gets f s = (returned (f s), s)

  -- A step that gives a value and the next state.
  abbrev pub act : (S → A × S) → Exec S A
  act f s = let (a, s') = f s in (returned a, s')

  -- The value of a computation that panics at `none`.
  abbrev pub or_panic : Option A → Exec S A
  or_panic none s = (panicked, s)
  or_panic (some a) s = (returned a, s)

abbrev pub modify {ℓ} : {S : Type ℓ} → (S → S) → Exec S (Unit {ℓ})
modify f s = (returned tt, f s)

module _ {ℓ} {S A B : Type ℓ} where
  abbrev pub resume : Outcome A → (A → Exec S B) → Exec S B
  resume (returned a) f s = f a s
  resume panicked f s = (panicked, s)

  infixl 10 ◌>>=◌ ◌>>◌
  abbrev pub ◌>>=◌ : Exec S A → (A → Exec S B) → Exec S B
  ◌>>=◌ m f s = let (r, s') = m s in resume r f s'

  abbrev pub ◌>>◌ : Exec S A → Exec S B → Exec S B
  m >> n = m >>= λ _. n
