-- ===== src/L1Pricing/Arith.antt =====
-- The arithmetic of l1pricing.rs and l1pricing_old_versions.rs: how units, spending and rewards are
-- allocated, and how the price moves. Times, units and bips are 64-bit, amounts 256-bit.
pub mod Bounds
pub mod Direction
use arb_reth.Prelude.{
  ℕ, ◌+◌, ◌-◌, ◌*◌, ◌/◌, ◌%◌, ◌^◌, Bool, ltb, leb, ◌==◌, ◌||◌, ◌&&◌, if◌then◌else◌, min,
  saturating_add, saturating_sub, saturating_mul, u64_max, u256_max,
}
use arb_reth.Prelude.Int.{ℤ, pos, is_nonneg, is_zero_ℤ}
use arb_reth.Signed.{
  add_i256, sub_i256, mul_i256, neg_i256, div_i256, wrapping_neg, to_i256, to_u256,
}

-- The last update's time; before the first update the time just before this one.
abbrev pub first_time : ℕ → ℕ → ℕ
first_time stored update_time = if stored == 0 && ltb 0 update_time then update_time - 1 else stored

abbrev pub is_invalid_time : ℕ → ℕ → ℕ → Bool
is_invalid_time last update_time current_time = ltb current_time update_time || ltb update_time last

-- The fraction `allocation_numerator / allocation_denominator`, 1 / 1 if no time has passed.
abbrev pub allocation_numerator : ℕ → ℕ → ℕ → ℕ
allocation_numerator last update_time current_time =
    if current_time - last == 0 then 1 else update_time - last

abbrev pub allocation_denominator : ℕ → ℕ → ℕ
allocation_denominator last current_time =
    if current_time - last == 0 then 1 else current_time - last

unfoldable pub units_allocated : ℕ → ℕ → ℕ → ℕ
units_allocated units numerator denominator = saturating_mul u64_max units numerator / denominator

-- The spending under its cap, if the cap is set and ArbOS has one.
abbrev pub wei_spent_cap : ℕ → ℕ → ℕ → ℕ
wei_spent_cap l1_basefee allocated bips =
    saturating_mul u256_max (saturating_mul u256_max l1_basefee allocated) bips / 10_000

unfoldable pub capped : ℕ → ℕ → ℕ → ℕ → ℕ
capped l1_basefee allocated bips wei_spent =
    if bips == 0
    then wei_spent
    else if ltb (wei_spent_cap l1_basefee allocated bips) wei_spent
    then wei_spent_cap l1_basefee allocated bips
    else wei_spent

-- The rewards due after the units allocated.
unfoldable pub accrued : ℤ → ℕ → ℕ → ℤ
accrued rewards allocated per_unit = add_i256 rewards (mul_i256 (pos allocated) (pos per_unit))

-- The reward of the units, as far as there are funds.
unfoldable pub payment_for_rewards : ℕ → ℕ → ℕ → ℕ
payment_for_rewards per_unit allocated available =
    if ltb available (saturating_mul u256_max per_unit allocated)
    then available
    else saturating_mul u256_max per_unit allocated

-- What is held beyond what is due.
unfoldable pub surplus_of : ℕ → ℤ → ℤ → ℤ
surplus_of held total_funds_due rewards = sub_i256 (to_i256 held) (add_i256 total_funds_due rewards)

-- `+` of `U256` wraps.
abbrev pub alloc_plus_inert : ℕ → ℕ → ℕ → ℤ
alloc_plus_inert inertia equil_units allocated =
    to_i256 (((if inertia == 0 then equil_units else equil_units / inertia) + allocated) % 2 ^ 256)

abbrev pub desired_derivative : ℤ → ℕ → ℤ
desired_derivative surplus equil_units =
    if is_zero_ℤ (to_i256 equil_units)
    then pos 0
    else div_i256 (neg_i256 surplus) (to_i256 equil_units)

abbrev pub actual_derivative : ℤ → ℤ → ℕ → ℤ
actual_derivative surplus old_surplus allocated =
    div_i256 (sub_i256 surplus old_surplus) (to_i256 allocated)

unfoldable pub price_change : ℤ → ℤ → ℕ → ℕ → ℕ → ℤ
price_change surplus old_surplus inertia equil_units allocated =
    if is_zero_ℤ (alloc_plus_inert inertia equil_units allocated)
    then pos 0
    else div_i256
        (mul_i256
          (sub_i256 (desired_derivative surplus equil_units)
            (actual_derivative surplus old_surplus allocated))
          (to_i256 allocated))
        (alloc_plus_inert inertia equil_units allocated)

-- The price after the change, held between 0 and the largest 256-bit value.
unfoldable pub new_price : ℕ → ℤ → ℕ
new_price price change =
    if is_nonneg change
    then saturating_add u256_max price (to_u256 change)
    else saturating_sub price (to_u256 (wrapping_neg change))
