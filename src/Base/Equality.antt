-- ===== src/Base/Equality.antt =====
-- Go's `==` on comparable types: a Boolean test that decides equality.
use Prim.Native.Nat.{ℕ}
use Prim.Native.String.{String}
use mathlib.Core.Path.{◌≡◌}
use mathlib.Core.Logic.{◌↔◌}
use mathlib.Core.Bool.{Bool, true, false, not}
use native.Mathlib.Omega.{arith}
use text.Mathlib.Text.{◌==◌ as str_beq}
use text.Mathlib.TextEquality.{eq_iff}
use kl_internal_operator.Base.Tests.{nat_beq}

pub record Eq {ℓ} (T : Type ℓ) : Type ℓ where
  pub test : T → T → Bool
  pub test_iff : (x y : T) → (test x y ≡ true) ↔ (x ≡ y)

module _ {ℓ} {T : Type ℓ} ⦃eq : Eq T⦄ where
  infix 50 ◌==◌ ◌!=◌
  abbrev pub ◌==◌ : T → T → Bool
  ◌==◌ x y = eq.test x y

  abbrev pub ◌!=◌ : T → T → Bool
  ◌!=◌ x y = not (eq.test x y)

pub nat_beq_iff : (a b : ℕ) → (nat_beq a b ≡ true) ↔ (a ≡ b)
nat_beq_iff a b = ground arith

abbrev pub bool_beq : Bool → Bool → Bool
bool_beq true b = b
bool_beq false b = not b

pub bool_beq_iff : (a b : Bool) → (bool_beq a b ≡ true) ↔ (a ≡ b)
bool_beq_iff true b = ground arith
bool_beq_iff false b = ground arith

-- The test on texts, and what it decides.
abbrev pub text_beq : String → String → Bool
text_beq = str_beq

pub text_beq_iff : (a b : String) → (text_beq a b ≡ true) ↔ (a ≡ b)
text_beq_iff = eq_iff

instance abbrev pub nat_eq : Eq ℕ
nat_eq = record { test = nat_beq; test_iff = nat_beq_iff }

instance abbrev pub bool_eq : Eq Bool
bool_eq = record { test = bool_beq; test_iff = bool_beq_iff }

instance abbrev pub string_eq : Eq String
string_eq = record { test = text_beq; test_iff = text_beq_iff }
