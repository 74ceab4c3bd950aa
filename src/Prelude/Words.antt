-- ===== src/Prelude/Words.antt =====
-- Unsigned machine integers as native numbers. A width is given by its largest value.
use Prim.Native.Nat.{ℕ, ◌+◌, ◌-◌, ◌*◌, ◌%◌, ◌^◌, min}
use mathlib.Core.Path.{◌≡◌}
use native.Mathlib.Omega.{arith}
use arb_reth.Prelude.Tests.{leb, if◌then◌else◌}

abbrev pub u64_max : ℕ
u64_max = 2 ^ 64 - 1

abbrev pub u256_max : ℕ
u256_max = 2 ^ 256 - 1

-- `saturating_add`, `saturating_sub` and `saturating_mul` at the width whose largest value is `top`.
abbrev pub saturating_add : ℕ → ℕ → ℕ → ℕ
saturating_add top a b = if leb (a + b) top then a + b else top

-- Subtraction on ℕ stops at 0.
abbrev pub saturating_sub : ℕ → ℕ → ℕ
saturating_sub a b = a - b

abbrev pub saturating_mul : ℕ → ℕ → ℕ → ℕ
saturating_mul top a b = if leb (a * b) top then a * b else top

-- `wrapping_sub` at 64 bits.
abbrev pub wrapping_sub64 : ℕ → ℕ → ℕ
wrapping_sub64 a b = (a + 2 ^ 64 - b) % 2 ^ 64

pub saturating_add-eq-min : (top a b : ℕ) → saturating_add top a b ≡ min top (a + b)
saturating_add-eq-min top a b = ground arith
