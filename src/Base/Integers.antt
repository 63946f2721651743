-- ===== src/Base/Integers.antt =====
-- Go's `int` (64 bits, two's complement): the integers, with every result wrapped.
-- The library's ℤ stands on the unary numbers; this one keeps its names over the native ones.
use Prim.Native.Nat.{ℕ, suc, ◌+◌, ◌-◌, ◌*◌, ◌/◌, ◌%◌, ◌≤◌, ◌<◌}
use mathlib.Core.Path.{◌≡◌}
use mathlib.Core.Logic.{◌↔◌}
use mathlib.Core.Bool.{Bool, true}
use mathlib.Core.Option.{Option, none, some}
use native.Mathlib.Omega.{arith}
use kl_internal_operator.Base.Tests.{ltb, leb, nat_beq, if◌then◌else◌}
use kl_internal_operator.Base.Equality.{Eq}

-- `negsuc n` is -(n + 1).
pub data ℤ : Type 0 where
  pos : ℕ → ℤ
  negsuc : ℕ → ℤ

abbrev pub pos_part : ℤ → ℕ
pos_part (pos n) = n
pos_part (negsuc n) = 0

abbrev pub neg_part : ℤ → ℕ
neg_part (pos n) = 0
neg_part (negsuc n) = suc n

abbrev pub sub_ℕ : ℕ → ℕ → ℤ
sub_ℕ a b = if leb b a then pos (a - b) else negsuc (b - a - 1)

abbrev pub int_max : ℕ
int_max = 9223372036854775807

-- The value of a 64-bit pattern that stands for `x` modulo 2 ^ 64.
abbrev signed : ℕ → ℤ
signed p = if leb p int_max then pos p else negsuc (18446744073709551615 - p)

abbrev pattern_of : ℤ → ℕ
pattern_of (pos n) = n % 18446744073709551616
pattern_of (negsuc n) = 18446744073709551615 - n % 18446744073709551616

unfoldable pub wrap : ℤ → ℤ
wrap x = signed (pattern_of x)

infixl 65 ◌+ℤ◌ ◌-ℤ◌
infixl 70 ◌*ℤ◌
infix 50 ◌≤ℤ◌ ◌<ℤ◌
unfoldable pub ◌+ℤ◌ : ℤ → ℤ → ℤ
a +ℤ b = wrap (sub_ℕ (pos_part a + pos_part b) (neg_part a + neg_part b))

unfoldable pub ◌-ℤ◌ : ℤ → ℤ → ℤ
a -ℤ b = wrap (sub_ℕ (pos_part a + neg_part b) (neg_part a + pos_part b))

unfoldable pub ◌*ℤ◌ : ℤ → ℤ → ℤ
a *ℤ b = wrap (
    sub_ℕ (pos_part a * pos_part b + neg_part a * neg_part b)
      (pos_part a * neg_part b + neg_part a * pos_part b))

-- Go's `/` truncates towards zero, and panics at zero (`none`).
abbrev trunc_div : ℤ → ℤ → ℤ
trunc_div (pos a) (pos b) = pos (a / b)
trunc_div (pos a) (negsuc b) = sub_ℕ 0 (a / suc b)
trunc_div (negsuc a) (pos b) = sub_ℕ 0 (suc a / b)
trunc_div (negsuc a) (negsuc b) = pos (suc a / suc b)

abbrev pub ltb_ℤ : ℤ → ℤ → Bool
ltb_ℤ a b = ltb (pos_part a + neg_part b) (pos_part b + neg_part a)

abbrev pub leb_ℤ : ℤ → ℤ → Bool
leb_ℤ a b = leb (pos_part a + neg_part b) (pos_part b + neg_part a)

abbrev pub int_beq : ℤ → ℤ → Bool
int_beq a b = nat_beq (pos_part a + neg_part b) (pos_part b + neg_part a)

pub int_beq_iff : (a b : ℤ) → (int_beq a b ≡ true) ↔ (a ≡ b)
int_beq_iff a b = ground arith

instance abbrev pub int_eq : Eq ℤ
int_eq = record { test = int_beq; test_iff = int_beq_iff }

unfoldable pub quot : ℤ → ℤ → Option ℤ
quot a b = if int_beq b (pos 0) then none else some (wrap (trunc_div a b))

abbrev pub ◌≤ℤ◌ : ℤ → ℤ → Type 0
a ≤ℤ b = pos_part a + neg_part b ≤ pos_part b + neg_part a

abbrev pub ◌<ℤ◌ : ℤ → ℤ → Type 0
a <ℤ b = pos_part a + neg_part b < pos_part b + neg_part a

-- The values of a Go `int`.
abbrev pub InRange : ℤ → Type 0
InRange a = (pos_part a ≤ int_max) × (neg_part a ≤ 9223372036854775808)

pub wrap_of_InRange : (a : ℤ) → InRange a → wrap a ≡ a
unfolding wrap
wrap_of_InRange (pos n) h = ground arith
wrap_of_InRange (negsuc n) h = ground arith

pub wrap-InRange : (a : ℤ) → InRange (wrap a)
unfolding wrap
wrap-InRange (pos n) = ground arith
wrap-InRange (negsuc n) = ground arith
