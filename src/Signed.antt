-- ===== src/Signed.antt =====
-- The arithmetic of `I256` and `U256`, alloy's 256-bit integers, as l1pricing uses it. A signed
-- value is an integer, an unsigned one a number. `saturating_*` takes the nearest value of the type,
-- `wrapping_*` the value with the same bits.
use arb_reth.Prelude.{ℕ, ◌-◌, ◌%◌, ◌^◌, min, u256_max}
use arb_reth.Prelude.Int.{ℤ, pos, negsuc, ◌+ℤ◌, ◌-ℤ◌, ◌*ℤ◌, neg_ℤ, trunc_div, clamp, from_raw}

abbrev pub i256_half : ℕ
i256_half = 2 ^ 255

unfoldable pub add_i256 : ℤ → ℤ → ℤ
unfolding ◌+ℤ◌
add_i256 a b = clamp i256_half (a +ℤ b)

unfoldable pub sub_i256 : ℤ → ℤ → ℤ
unfolding ◌-ℤ◌
sub_i256 a b = clamp i256_half (a -ℤ b)

unfoldable pub mul_i256 : ℤ → ℤ → ℤ
unfolding ◌*ℤ◌
mul_i256 a b = clamp i256_half (a *ℤ b)

-- `saturating_neg`.
unfoldable pub neg_i256 : ℤ → ℤ
neg_i256 a = clamp i256_half (neg_ℤ a)

-- The value of the type with the bits of an integer above the least of the type.
abbrev pub wrap_i256 : ℤ → ℤ
wrap_i256 (pos n) = from_raw i256_half (n % 2 ^ 256)
wrap_i256 (negsuc n) = negsuc n

-- `wrapping_div`, of a divisor that is not 0: the least value over -1 is the least value.
unfoldable pub div_i256 : ℤ → ℤ → ℤ
unfolding trunc_div
div_i256 a b = wrap_i256 (trunc_div a b)

-- `wrapping_neg`.
unfoldable pub wrapping_neg : ℤ → ℤ
wrapping_neg a = wrap_i256 (neg_ℤ a)

-- `I256::try_from(u).unwrap_or(I256::MAX)`.
abbrev pub to_i256 : ℕ → ℤ
to_i256 n = pos (min n (i256_half - 1))

-- `U256::try_from(i).unwrap_or(U256::MAX)`.
abbrev pub to_u256 : ℤ → ℕ
to_u256 (pos n) = n
to_u256 (negsuc n) = u256_max
