-- ===== src/L1Pricing/Arith/Direction.antt =====
-- Which way the price moves.
use native.Mathlib.Nat.{div-le_self, zero-mul}
use arb_reth.Prelude.{
  ℕ, zero, suc, ◌*◌, ◌/◌, ◌≤◌, ◌<◌, ◌≡◌, refl, Bool-cases, inl, inr, u256_max, arith,
}
use arb_reth.Prelude.Int.{
  ℤ, pos, negsuc, pos_part, neg_part, ◌≤ℤ◌, ◌-ℤ◌, ◌*ℤ◌, sub_ℕ, neg_ℤ, trunc_div, clamp, IsSigned,
  is_zero_ℤ,
}
use arb_reth.Signed.{i256_half, sub_i256, mul_i256, neg_i256, div_i256, wrap_i256, to_i256}
use arb_reth.L1Pricing.Arith.{
  price_change, new_price, desired_derivative, actual_derivative, alloc_plus_inert,
}

-- 0 or more, and 0 or less, among the signed 256-bit values.
abbrev pub IsRise : ℤ → Type 0
IsRise a = (neg_part a ≡ 0) × IsSigned i256_half a

abbrev pub IsFall : ℤ → Type 0
IsFall a = (pos_part a ≡ 0) × IsSigned i256_half a

clamp-IsRise : (a : ℤ) → neg_part a ≡ 0 → IsRise (clamp i256_half a)
clamp-IsRise (pos n) e = (refl, omega arith)
clamp-IsRise (negsuc n) e = absurd (omega (arith, e))

clamp-IsFall : (a : ℤ) → pos_part a ≡ 0 → IsFall (clamp i256_half a)
clamp-IsFall (pos n) e = (omega (arith, e), omega arith)
clamp-IsFall (negsuc n) e = (refl, omega arith)

neg_i256-IsRise : (a : ℤ) → pos_part a ≡ 0 → IsRise (neg_i256 a)
unfolding neg_i256
neg_i256-IsRise a e = clamp-IsRise (neg_ℤ a) (ground (arith, e))

neg_i256-IsFall : (a : ℤ) → neg_part a ≡ 0 → IsFall (neg_i256 a)
unfolding neg_i256
neg_i256-IsFall a e = clamp-IsFall (neg_ℤ a) (ground (arith, e))

sub_i256-IsRise : (a b : ℤ) → b ≤ℤ a → IsRise (sub_i256 a b)
unfolding sub_i256 ◌-ℤ◌
sub_i256-IsRise a b p = clamp-IsRise (a -ℤ b) (ground (arith, p))

sub_i256-IsFall : (a b : ℤ) → a ≤ℤ b → IsFall (sub_i256 a b)
unfolding sub_i256 ◌-ℤ◌
sub_i256-IsFall a b p = clamp-IsFall (a -ℤ b) (ground (arith, p))

zero_product : (a n : ℕ) → a ≡ 0 → a * n ≡ 0
zero_product a n e = rw e (zero-mul n)

wrap_i256-IsRise : (q : ℕ) → q < i256_half → IsRise (wrap_i256 (pos q))
wrap_i256-IsRise q p = ground (arith, p)

wrap_i256-zero-IsFall : (q : ℕ) → q ≡ 0 → IsFall (wrap_i256 (pos q))
wrap_i256-zero-IsFall q e = rw e (refl, omega arith)

wrap_i256-IsFall : (q : ℕ) → q ≤ i256_half → IsFall (wrap_i256 (sub_ℕ 0 q))
wrap_i256-IsFall zero p = (refl, omega arith)
wrap_i256-IsFall (suc q) p = ground (arith, p)

mul_i256-IsRise : (a : ℤ) (n : ℕ) → neg_part a ≡ 0 → IsRise (mul_i256 a (pos n))
unfolding mul_i256 ◌*ℤ◌
mul_i256-IsRise (pos a) n e = clamp-IsRise (pos (a * n)) refl
mul_i256-IsRise (negsuc a) n e = absurd (omega (arith, e))

mul_i256-IsFall : (a : ℤ) (n : ℕ) → pos_part a ≡ 0 → IsFall (mul_i256 a (pos n))
unfolding mul_i256 ◌*ℤ◌
mul_i256-IsFall (pos a) n e = clamp-IsFall (pos (a * n)) (zero_product a n e)
mul_i256-IsFall (negsuc a) n e = clamp-IsFall (sub_ℕ 0 (suc a * n)) (ground arith)

div_i256-IsRise : (a : ℤ) (n : ℕ) → IsRise a → IsRise (div_i256 a (pos n))
unfolding div_i256 trunc_div
div_i256-IsRise (pos a) n (e, small) =
    wrap_i256-IsRise (a / n) (omega (arith, div-le_self a n, small))
div_i256-IsRise (negsuc a) n (e, small) = absurd (omega (arith, e))

div_i256-IsFall : (a : ℤ) (n : ℕ) → IsFall a → IsFall (div_i256 a (pos n))
unfolding div_i256 trunc_div
div_i256-IsFall (pos a) n (e, small) =
    wrap_i256-zero-IsFall (a / n) (omega (arith, div-le_self a n, e))
div_i256-IsFall (negsuc a) n (e, small) =
    wrap_i256-IsFall (suc a / n) (omega (arith, div-le_self (suc a) n, small))

-- A change that is no fall does not lower the price, and one that is no rise does not raise it.
new_price-rise : (price : ℕ) (c : ℤ) → price ≤ u256_max → IsRise c → price ≤ new_price price c
unfolding new_price
new_price-rise price (pos n) p r = ground arith
new_price-rise price (negsuc n) p r = absurd (omega (arith, r.0))

new_price-fall : (price : ℕ) (c : ℤ) → price ≤ u256_max → IsFall c → new_price price c ≤ price
unfolding new_price
new_price-fall price (pos n) p r = ground (arith, r.0)
new_price-fall price (negsuc n) p r = ground arith

desired_derivative-IsRise :
    (surplus : ℤ) (equil_units : ℕ)
    → pos_part surplus ≡ 0
    → IsRise (desired_derivative surplus equil_units)
desired_derivative-IsRise surplus equil_units e =
    elim (Bool-cases (is_zero_ℤ (to_i256 equil_units))) [
      | inl none ↦ rw none (refl, omega arith)
      | inr some ↦ rw some (div_i256-IsRise (neg_i256 surplus) _ (neg_i256-IsRise surplus e))
    ]

desired_derivative-IsFall :
    (surplus : ℤ) (equil_units : ℕ)
    → neg_part surplus ≡ 0
    → IsFall (desired_derivative surplus equil_units)
desired_derivative-IsFall surplus equil_units e =
    elim (Bool-cases (is_zero_ℤ (to_i256 equil_units))) [
      | inl none ↦ rw none (refl, omega arith)
      | inr some ↦ rw some (div_i256-IsFall (neg_i256 surplus) _ (neg_i256-IsFall surplus e))
    ]

signs-le : (a b : ℤ) → pos_part a ≡ 0 → neg_part b ≡ 0 → a ≤ℤ b
signs-le a b p q = omega (arith, p, q)

price_change-IsRise :
    (surplus old_surplus : ℤ) (inertia equil_units allocated : ℕ)
    → pos_part surplus ≡ 0
    → surplus ≤ℤ old_surplus
    → IsRise (price_change surplus old_surplus inertia equil_units allocated)
unfolding price_change
price_change-IsRise surplus old_surplus inertia equil_units allocated e p =
    elim (Bool-cases (is_zero_ℤ (alloc_plus_inert inertia equil_units allocated))) [
      | inl none ↦ rw none (refl, omega arith)
      | inr some ↦ rw some (
          div_i256-IsRise _ _ (
            mul_i256-IsRise _ _
              (sub_i256-IsRise (desired_derivative surplus equil_units) actual (
                signs-le actual (desired_derivative surplus equil_units) actual_sign.0
                  (desired_derivative-IsRise surplus equil_units e).0)).0))
    ]
  where
    actual : ℤ
    actual = actual_derivative surplus old_surplus allocated

    actual_sign : IsFall actual
    actual_sign = div_i256-IsFall _ _ (sub_i256-IsFall surplus old_surplus p)

price_change-IsFall :
    (surplus old_surplus : ℤ) (inertia equil_units allocated : ℕ)
    → neg_part surplus ≡ 0
    → old_surplus ≤ℤ surplus
    → IsFall (price_change surplus old_surplus inertia equil_units allocated)
unfolding price_change
price_change-IsFall surplus old_surplus inertia equil_units allocated e p =
    elim (Bool-cases (is_zero_ℤ (alloc_plus_inert inertia equil_units allocated))) [
      | inl none ↦ rw none (refl, omega arith)
      | inr some ↦ rw some (
          div_i256-IsFall _ _ (
            mul_i256-IsFall _ _
              (sub_i256-IsFall (desired_derivative surplus equil_units) actual (
                signs-le (desired_derivative surplus equil_units) actual
                  (desired_derivative-IsFall surplus equil_units e).0 actual_sign.0)).0))
    ]
  where
    actual : ℤ
    actual = actual_derivative surplus old_surplus allocated

    actual_sign : IsRise actual
    actual_sign = div_i256-IsRise _ _ (sub_i256-IsRise surplus old_surplus p)

-- The new price, as the update computes it from the surplus.
abbrev pub repriced : ℕ → ℤ → ℤ → ℕ → ℕ → ℕ → ℕ
repriced price surplus old_surplus inertia equil_units allocated =
    new_price price (price_change surplus old_surplus inertia equil_units allocated)

-- Where the funds held do not cover what is due, and cover it no better than at the last update, the
-- new price is not below the old one, which is a 256-bit value.
pub repriced-deficit :
    (price : ℕ) (surplus old_surplus : ℤ) (inertia equil_units allocated : ℕ)
    → price ≤ u256_max
    → pos_part surplus ≡ 0
    → surplus ≤ℤ old_surplus
    → price ≤ repriced price surplus old_surplus inertia equil_units allocated
repriced-deficit price surplus old_surplus inertia equil_units allocated small e p =
    new_price-rise price _ small
      (price_change-IsRise surplus old_surplus inertia equil_units allocated e p)

-- Where the funds held cover what is due, and by at least as much as at the last update, the new price
-- is not above the old one, which is a 256-bit value.
pub repriced-surplus :
    (price : ℕ) (surplus old_surplus : ℤ) (inertia equil_units allocated : ℕ)
    → price ≤ u256_max
    → neg_part surplus ≡ 0
    → old_surplus ≤ℤ surplus
    → repriced price surplus old_surplus inertia equil_units allocated ≤ price
repriced-surplus price surplus old_surplus inertia equil_units allocated small e p =
    new_price-fall price _ small
      (price_change-IsFall surplus old_surplus inertia equil_units allocated e p)
