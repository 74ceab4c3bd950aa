-- ===== src/L1Pricing/Arith/Bounds.antt =====
-- The allocation of units and funds never gives out more than there is.
use native.Mathlib.Nat.{div-le_of_le-mul, mul-le-mul_left, mul_comm}
use arb_reth.Prelude.{ℕ, ◌*◌, ◌/◌, ◌≤◌, ◌≡◌, false, saturating_mul, u64_max, arith}
use arb_reth.L1Pricing.Arith.{
  is_invalid_time, units_allocated, allocation_numerator, allocation_denominator, capped,
  payment_for_rewards, first_time,
}

saturating_mul-le : (top a b : ℕ) → saturating_mul top a b ≤ a * b
saturating_mul-le top a b = ground arith

-- A fraction of at most 1 of some units.
part-le : (x u n d : ℕ) → x ≤ u * n → n ≤ d → x / d ≤ u
part-le x u n d p q = div-le_of_le-mul d (omega (arith, mul-le-mul_left u q, mul_comm u d))

numerator-le :
    (last update_time current_time : ℕ)
    → is_invalid_time last update_time current_time ≡ false
    → allocation_numerator last update_time current_time ≤ allocation_denominator last current_time
numerator-le last update_time current_time valid = ground (arith, valid)

-- For times that are accepted, the units allocated are at most the units since the last update, the
-- capped spending is at most the spending, and the payment for rewards is at most what is available.
pub allocation-le :
    (stored update_time current_time units l1_basefee bips wei_spent per_unit available : ℕ)
    → is_invalid_time (first_time stored update_time) update_time current_time ≡ false
    → let last = first_time stored update_time in
      let numerator = allocation_numerator last update_time current_time in
      let allocated = units_allocated units numerator (allocation_denominator last current_time) in
      (allocated ≤ units)
      × (capped l1_basefee allocated bips wei_spent ≤ wei_spent)
      × (payment_for_rewards per_unit allocated available ≤ available)
unfolding units_allocated capped payment_for_rewards
allocation-le stored update_time current_time units l1_basefee bips wei_spent per_unit available
      valid =
    (
      part-le _ units
          (allocation_numerator (first_time stored update_time) update_time current_time) _
          (saturating_mul-le u64_max units _)
          (numerator-le (first_time stored update_time) update_time current_time valid),
      ground arith,
      ground arith,
    )
