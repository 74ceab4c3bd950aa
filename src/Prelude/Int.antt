-- ===== src/Prelude/Int.antt =====
-- Signed integers over the native numbers, and the two's complement patterns of a width.
use Prim.Native.Nat.{ℕ, suc, ◌+◌, ◌-◌, ◌*◌, ◌/◌, ◌≤◌, ◌<◌, min}
use mathlib.Core.Path.{◌≡◌, ap}
use native.Mathlib.Omega.{arith}
use arb_reth.Prelude.Tests.{ltb, leb, ◌==◌, if◌then◌else◌}
use mathlib.Core.Bool.{Bool}

-- `negsuc n` is -(n + 1).
pub data ℤ : Type 0 where
  pos : ℕ → ℤ
  negsuc : ℕ → ℤ

abbrev pub pos_part : ℤ → ℕ
pos_part (pos n) = n
pos_part (negsuc n) = 0

abbrev pub neg_part : ℤ → ℕ
neg_part (pos n) = 0
neg_part (negsuc n) = suc n

infix 50 ◌≤ℤ◌
abbrev pub ◌≤ℤ◌ : ℤ → ℤ → Type 0
a ≤ℤ b = pos_part a + neg_part b ≤ pos_part b + neg_part a

-- The integers of a signed type: from -half to half - 1.
abbrev pub IsSigned : ℕ → ℤ → Type 0
IsSigned half (pos n) = n < half
IsSigned half (negsuc n) = n < half

-- `as u64`, `into_raw`: the pattern of an integer of a type with `2 * half` values.
abbrev pub to_raw : ℕ → ℤ → ℕ
to_raw half (pos n) = n
to_raw half (negsuc n) = 2 * half - suc n

-- `as i64`, `from_raw`: the integer of a pattern.
abbrev pub from_raw : ℕ → ℕ → ℤ
from_raw half raw = if ltb raw half then pos raw else negsuc (2 * half - suc raw)

pub from_raw-to_raw : (half : ℕ) (a : ℤ) → IsSigned half a → from_raw half (to_raw half a) ≡ a
from_raw-to_raw half (pos n) h = ground arith
from_raw-to_raw half (negsuc n) h = ground arith

pub to_raw-lt : (half : ℕ) (a : ℤ) → IsSigned half a → to_raw half a < 2 * half
to_raw-lt half (pos n) h = omega arith
to_raw-lt half (negsuc n) h = omega arith

-- The difference of two natural numbers.
abbrev pub sub_ℕ : ℕ → ℕ → ℤ
sub_ℕ a b = if leb b a then pos (a - b) else negsuc (b - a - 1)

infixl 65 ◌+ℤ◌ ◌-ℤ◌
infixl 70 ◌*ℤ◌
unfoldable pub ◌+ℤ◌ : ℤ → ℤ → ℤ
a +ℤ b = sub_ℕ (pos_part a + pos_part b) (neg_part a + neg_part b)

unfoldable pub ◌-ℤ◌ : ℤ → ℤ → ℤ
a -ℤ b = sub_ℕ (pos_part a + neg_part b) (neg_part a + pos_part b)

unfoldable pub ◌*ℤ◌ : ℤ → ℤ → ℤ
pos a *ℤ pos b = pos (a * b)
pos a *ℤ negsuc b = sub_ℕ 0 (a * suc b)
negsuc a *ℤ pos b = sub_ℕ 0 (suc a * b)
negsuc a *ℤ negsuc b = pos (suc a * suc b)

abbrev pub neg_ℤ : ℤ → ℤ
neg_ℤ a = sub_ℕ (neg_part a) (pos_part a)

abbrev pub is_positive : ℤ → Bool
is_positive a = ltb 0 (pos_part a)

-- Whether it is 0 or more, and whether it is 0.
abbrev pub is_nonneg : ℤ → Bool
is_nonneg a = neg_part a == 0

abbrev pub is_zero_ℤ : ℤ → Bool
is_zero_ℤ a = pos_part a + neg_part a == 0

-- The quotient rounded towards 0, of a divisor that is not 0.
unfoldable pub trunc_div : ℤ → ℤ → ℤ
trunc_div (pos a) (pos b) = pos (a / b)
trunc_div (pos a) (negsuc b) = sub_ℕ 0 (a / suc b)
trunc_div (negsuc a) (pos b) = sub_ℕ 0 (suc a / b)
trunc_div (negsuc a) (negsuc b) = pos (suc a / suc b)

-- The nearest integer of a signed type.
abbrev pub clamp : ℕ → ℤ → ℤ
clamp half (pos n) = pos (min n (half - 1))
clamp half (negsuc n) = negsuc (min n (half - 1))

pub clamp-IsSigned : (half : ℕ) (a : ℤ) → 0 < half → IsSigned half (clamp half a)
clamp-IsSigned half (pos n) h = omega arith
clamp-IsSigned half (negsuc n) h = omega arith

-- An integer of the type is itself.
pub clamp_self : (half : ℕ) (a : ℤ) → IsSigned half a → clamp half a ≡ a
clamp_self half (pos n) h = ap pos (omega arith)
clamp_self half (negsuc n) h = ap negsuc (omega arith)

pub +ℤ_parts :
    (a b : ℤ)
    → pos_part (a +ℤ b) + neg_part a + neg_part b ≡ neg_part (a +ℤ b) + pos_part a + pos_part b
unfolding ◌+ℤ◌
+ℤ_parts a b = ground arith

pub -ℤ_parts :
    (a b : ℤ)
    → pos_part (a -ℤ b) + neg_part a + pos_part b ≡ neg_part (a -ℤ b) + pos_part a + neg_part b
unfolding ◌-ℤ◌
-ℤ_parts a b = ground arith

pub eq_of_parts : (a b : ℤ) → pos_part a + neg_part b ≡ pos_part b + neg_part a → a ≡ b
eq_of_parts a b h = ground arith

pub ruleset int_laws = (arith, +ℤ_parts, -ℤ_parts, eq_of_parts)
