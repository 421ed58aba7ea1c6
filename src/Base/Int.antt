-- ===== src/Base/Int.antt =====
-- Signed integers over the native numbers, and the wrap-around of a C integer type.
use Prim.Native.Nat.{ℕ, suc, ◌+◌, ◌-◌, ◌*◌, ◌%◌, ◌≤◌, ◌<◌}
use mathlib.Core.Path.{◌≡◌}
use mathlib.Core.Bool.{Bool}
use mathlib.Core.Logic.{◌⊎◌, inl, inr}
use native.Mathlib.Nat.{mod-eq_of_lt, mod_self}
use native.Mathlib.Omega.{arith}
use rcpp_deep_state.Base.Tests.{ltb, leb, if◌then◌else◌}

-- `negsuc n` is -(n + 1).
pub data ℤ : Type 0 where
  pos : ℕ → ℤ
  negsuc : ℕ → ℤ

abbrev pub pos_part : ℤ → ℕ
pos_part (pos n) = n
pos_part (negsuc n) = 0

abbrev pub neg_part : ℤ → ℕ
neg_part (pos n) = 0
neg_part (negsuc n) = suc n

-- a - b, as an integer.
abbrev pub sub_ℕ : ℕ → ℕ → ℤ
sub_ℕ a b = if leb b a then pos (a - b) else negsuc (b - a - 1)

infixl 65 ◌+ℤ◌ ◌-ℤ◌
infixl 70 ◌*ℤ◌
infix 50 ◌≤ℤ◌
unfoldable pub ◌+ℤ◌ : ℤ → ℤ → ℤ
a +ℤ b = sub_ℕ (pos_part a + pos_part b) (neg_part a + neg_part b)

unfoldable pub ◌-ℤ◌ : ℤ → ℤ → ℤ
a -ℤ b = sub_ℕ (pos_part a + neg_part b) (neg_part a + pos_part b)

unfoldable pub ◌*ℤ◌ : ℤ → ℤ → ℤ
a *ℤ b =
    sub_ℕ (pos_part a * pos_part b + neg_part a * neg_part b)
      (pos_part a * neg_part b + neg_part a * pos_part b)

abbrev pub ◌≤ℤ◌ : ℤ → ℤ → Type 0
a ≤ℤ b = pos_part a + neg_part b ≤ pos_part b + neg_part a

abbrev pub ltb_ℤ : ℤ → ℤ → Bool
ltb_ℤ a b = ltb (pos_part a + neg_part b) (pos_part b + neg_part a)

abbrev pub leb_ℤ : ℤ → ℤ → Bool
leb_ℤ a b = leb (pos_part a + neg_part b) (pos_part b + neg_part a)

-- The absolute value.
abbrev pub nat_abs : ℤ → ℕ
nat_abs a = pos_part a + neg_part a

-- C's `a % b`, whose sign is the dividend's.
unfoldable pub rem_ℤ : ℤ → ℤ → ℤ
rem_ℤ (pos n) b = pos (n % nat_abs b)
rem_ℤ (negsuc n) b = sub_ℕ 0 (suc n % nat_abs b)

-- The value that a bit pattern stands for in a two's complement type of values -half .. half - 1.
unfoldable pub from_pattern : ℕ → ℕ → ℤ
from_pattern half u = if ltb u half then pos u else negsuc (half + half - u - 1)

-- Conversion to that type, modulo its 2 * half patterns: -(n + 1) has the pattern 2 * half - 1 - n.
unfoldable pub wrap : ℕ → ℤ → ℤ
unfolding from_pattern
wrap half (pos n) = from_pattern half (n % (half + half))
wrap half (negsuc n) = from_pattern half (half + half - 1 - n % (half + half))

abbrev pub IsBetween : ℤ → ℤ → ℤ → Type 0
IsBetween low high z = (low ≤ℤ z) × (z ≤ℤ high)

-- Between the two bounds, in either order.
abbrev pub IsWithin : ℤ → ℤ → ℤ → Type 0
IsWithin low high z = IsBetween low high z ⊎ IsBetween high low z

pub IsBetween-of_within :
    (low high z : ℤ) → low ≤ℤ high → IsWithin low high z → IsBetween low high z
IsBetween-of_within low high z p (inl h) = h
IsBetween-of_within low high z p (inr h) = omega arith

-- One lemma for each operation lets `omega` work with the operations shut.
pub +ℤ_parts :
    (a b : ℤ)
    → pos_part (a +ℤ b) + neg_part a + neg_part b ≡ neg_part (a +ℤ b) + pos_part a + pos_part b
unfolding ◌+ℤ◌
+ℤ_parts a b = ground arith

pub -ℤ_parts :
    (a b : ℤ)
    → pos_part (a -ℤ b) + neg_part a + pos_part b ≡ neg_part (a -ℤ b) + pos_part a + neg_part b
unfolding ◌-ℤ◌
-ℤ_parts a b = ground arith

pub eq_of_parts : (a b : ℤ) → pos_part a + neg_part b ≡ pos_part b + neg_part a → a ≡ b
eq_of_parts a b h = ground arith

pub ruleset int_laws = (arith, +ℤ_parts, -ℤ_parts, eq_of_parts)

-- `z` is a value of the type: -half ≤ z < half.
abbrev pub IsRepresentable : ℕ → ℤ → Type 0
IsRepresentable half z = (neg_part z ≤ half + pos_part z) × (pos_part z < half + neg_part z)

-- A value of the type is its own wrap.
pub wrap_of_representable : (half : ℕ) (z : ℤ) → IsRepresentable half z → wrap half z ≡ z
unfolding wrap
wrap_of_representable half (pos n) h =
    ground (arith, mod-eq_of_lt {n = n} {m = half + half} (omega arith))
wrap_of_representable half (negsuc n) h =
    ground (arith, mod-eq_of_lt {n = n} {m = half + half} (omega arith))

-- A positive value that is too large comes back lowered by the modulus.
pub wrap_above :
    (half n : ℕ) → half ≤ n → n < half + half → wrap half (pos n) ≡ negsuc (half + half - n - 1)
unfolding wrap
wrap_above half n h k = ground (arith, mod-eq_of_lt {n = n} {m = half + half} (omega arith))

pub wrap-modulus : (half : ℕ) → 0 < half → wrap half (pos (half + half)) ≡ pos 0
unfolding wrap
wrap-modulus half h = rw mod_self (ground arith)
