-- ===== src/L1Pricing/Old.antt =====
-- `pre_version2_update_for_batch_poster_spending` and `pre_version10_...`:
-- crates/arb-arbos/src/l1pricing/l1pricing_old_versions.rs. They take what is available from the
-- balance of the funds pool.
use arb_reth.Prelude.{
  ℕ, ◌-◌, ◌*◌, ◌/◌, ◌%◌, ◌^◌, true, false, List, [], ◌∷◌, ltb, leb, ◌==◌, ◌&&◌, ◌||◌, min,
  saturating_mul, u64_max, u256_max, wrapping_sub64, if◌then◌else◌,
}
use arb_reth.Prelude.Int.{ℤ, pos, is_positive, is_zero_ℤ, ◌-ℤ◌}
use arb_reth.Signed.{add_i256, sub_i256, mul_i256, div_i256, to_i256, to_u256}
use arb_reth.Host.{Host}
use arb_reth.World.{M, ◌>>=◌, ◌>>◌, pure, tick, transfer}
use arb_reth.BatchPoster.{
  BatchPostersTable, BatchPosterState, open_poster, all_posters, total_funds_due, funds_due,
  set_funds_due, pay_to,
}
use arb_reth.L1Pricing.{
  L1PricingState, l1_pricer_funds_pool_address, expect_poster, pay_rewards_to, per_unit_reward,
  last_update_time, set_last_update_time, funds_due_for_rewards, set_funds_due_for_rewards,
  units_since_update, set_units_since_update, inertia, equilibration_units, price_per_unit,
  set_price_per_unit,
}
use arb_reth.L1Pricing.Arith.{
  first_time, is_invalid_time, allocation_numerator, allocation_denominator, accrued,
  payment_for_rewards, surplus_of, new_price,
}
use arb_reth.L1Pricing.Steps.{
  Spending, updated, invalid_time, allocate_units, cap_spending, credit_poster, reprice_if,
  transfer_if, pool_balance,
}

-- The last update's time before version 2: the guard is on the current time.
abbrev pub first_time_v1 : ℕ → ℕ → ℕ → ℕ
first_time_v1 stored update_time current_time =
    if stored == 0 && ltb 0 current_time then wrapping_sub64 update_time 1 else stored

-- The product is 128-bit and the quotient truncated to 64 bits.
unfoldable pub units_allocated_v1 : ℕ → ℕ → ℕ → ℕ
units_allocated_v1 units numerator denominator = units * numerator / denominator % 2 ^ 64

-- The change of the price before version 2.
unfoldable pub price_change_v1 : ℤ → ℤ → ℕ → ℕ → ℕ → ℤ
price_change_v1 surplus old_surplus inertia equil_units allocated =
    let equil_signed = to_i256 equil_units in
    let inertia_units = if inertia == 0 then pos 0 else div_i256 equil_signed (pos inertia) in
    let denom = mul_i256 equil_signed (add_i256 inertia_units (pos allocated)) in
    if is_zero_ℤ denom
    then pos 0
    else div_i256
        (sub_i256 (mul_i256 surplus (sub_i256 equil_signed (pos 1)))
          (mul_i256 old_surplus equil_signed))
        denom

module _ ⦃h : Host⦄ where
  -- Accrues the rewards, pays them as far as the funds go, and returns the payment.
  unfoldable pub pay_rewards_from : L1PricingState → ℕ → ℤ → M ℕ → M (ℕ × ℕ)
  pay_rewards_from s allocated rewards available = do
    per_unit ← per_unit_reward s
    set_funds_due_for_rewards s (accrued rewards allocated per_unit)
    available ← available
    let payment = payment_for_rewards per_unit allocated available
    set_funds_due_for_rewards s (sub_i256 (accrued rewards allocated per_unit) (to_i256 payment))
    recipient ← pay_rewards_to s
    transfer_if recipient payment
    pure (payment, available)

  -- One poster paid in the loop of version 1; the funds that are left. The subtraction of the payment
  -- cannot overflow: it is at most what is due.
  unfoldable pub pay_poster_v1 : BatchPosterState → ℤ → ℕ → ℕ → M ℕ
  pay_poster_v1 poster balance_due available amount =
      if ltb 0 amount
      then (pay_to poster >>= λ addr_to_pay.
          transfer l1_pricer_funds_pool_address addr_to_pay amount >>= λ _.
          set_funds_due poster (balance_due -ℤ to_i256 amount) >>= λ _. pure (available - amount))
      else pure available

  unfoldable pub pay_due_v1 : BatchPosterState → ℕ → M ℕ
  pay_due_v1 poster available = do
    balance_due ← funds_due poster
    if is_positive balance_due
        then pay_poster_v1 poster balance_due available
            (if ltb available (to_u256 balance_due) then available else to_u256 balance_due)
        else pure available

  -- The rounds left of the loop over the posters.
  unfoldable pub pay_posters_v1 : BatchPostersTable → List ℕ → ℕ → M ℕ
  pay_posters_v1 t [] available = pure available
  pay_posters_v1 t (poster_addr ∷ posters) available = do
    result ← open_poster t poster_addr false
    poster ← expect_poster result
    available ← pay_due_v1 poster available
    pay_posters_v1 t posters available

  -- The new price before version 2, from the surplus before the update and the one after it.
  unfoldable pub reprice_v1 : L1PricingState → ℤ → ℕ → M (Unit {0})
  reprice_v1 s old_surplus allocated = do
    total_funds_due ← total_funds_due s.batch_poster_table
    rewards ← funds_due_for_rewards s
    held ← pool_balance
    let surplus = surplus_of held total_funds_due rewards
    inertia ← inertia s
    equil_units ← equilibration_units s
    price ← price_per_unit s
    set_price_per_unit s
        (new_price price (price_change_v1 surplus old_surplus inertia equil_units allocated))

  unfoldable pub allocate_units_v1 : L1PricingState → ℕ → ℕ → M ℕ
  allocate_units_v1 s numerator denominator = do
    units ← units_since_update s
    set_units_since_update s (units - units_allocated_v1 units numerator denominator)
    pure (units_allocated_v1 units numerator denominator)

  -- The part behind the test of the times.
  unfoldable pub spend_v1 : L1PricingState → BatchPosterState → ℤ → ℤ → ℕ → ℕ → ℕ → ℕ → M (Unit {0})
  spend_v1 s poster_state old_surplus rewards last update_time current_time wei_spent = do
    let numerator = allocation_numerator last update_time current_time
    let denominator = allocation_denominator last current_time
    allocated ← allocate_units_v1 s numerator denominator
    credit_poster poster_state wei_spent
    paid ←
        pay_rewards_from s allocated rewards (
          pool_balance >>= λ balance.
          pure (saturating_mul u256_max balance numerator / denominator))
    posters ← all_posters s.batch_poster_table u64_max
    _ ← pay_posters_v1 s.batch_poster_table posters (paid.1 - paid.0)
    set_last_update_time s update_time
    if ltb 0 allocated then reprice_v1 s old_surplus allocated else tick

  unfoldable pub pre_version2_update_for_batch_poster_spending :
      L1PricingState → ℕ → ℕ → ℕ → ℕ → M (Unit {0})
  pre_version2_update_for_batch_poster_spending s update_time current_time batch_poster wei_spent =
      do
        result ← open_poster s.batch_poster_table batch_poster true
        poster_state ← expect_poster result
        total_funds_due ← total_funds_due s.batch_poster_table
        rewards ← funds_due_for_rewards s
        held ← pool_balance
        let old_surplus = surplus_of held total_funds_due rewards
        stored ← last_update_time s
        let last = first_time_v1 stored update_time current_time
        if leb current_time update_time || ltb update_time last
            then tick
            else spend_v1 s poster_state old_surplus rewards last update_time current_time wei_spent

  -- Pays what a poster is due as far as the funds go.
  unfoldable pub pay_amount_v2 : BatchPosterState → ℤ → ℕ → M (Unit {0})
  pay_amount_v2 poster_state balance_due amount =
      if amount == 0
      then tick
      else (pay_to poster_state >>= λ addr_to_pay.
          transfer l1_pricer_funds_pool_address addr_to_pay amount >>= λ _.
          set_funds_due poster_state (sub_i256 balance_due (to_i256 amount)))

  unfoldable pub pay_poster_v2 : BatchPosterState → ℕ → M (Unit {0})
  pay_poster_v2 poster_state available = do
    balance_due ← funds_due poster_state
    if is_positive balance_due
        then pay_amount_v2 poster_state balance_due (min available (to_u256 balance_due))
        else tick

  -- The new price, where units were allocated: as it is computed from version 10 on, but from the
  -- balance of the pool.
  abbrev pub reprice_v2 : L1PricingState → ℕ → ℕ → M (Unit {0})
  reprice_v2 s arbos_version allocated = reprice_if s arbos_version allocated pool_balance

  -- The part behind the test of the times.
  unfoldable pub spend_v2 :
      L1PricingState → BatchPosterState → ℕ → ℤ → ℕ → ℕ → ℕ → ℕ → ℕ → M Spending
  spend_v2 s poster_state arbos_version rewards last update_time current_time wei_spent l1_basefee =
      do
        allocated ←
            allocate_units s (allocation_numerator last update_time current_time)
              (allocation_denominator last current_time)
        wei_spent ← cap_spending s arbos_version l1_basefee allocated wei_spent
        credit_poster poster_state wei_spent
        _ ← pay_rewards_from s allocated rewards pool_balance
        available ← pool_balance
        pay_poster_v2 poster_state available
        set_last_update_time s update_time
        reprice_v2 s arbos_version allocated
        pure updated

  unfoldable pub update_from_version2 : L1PricingState → ℕ → ℕ → ℕ → ℕ → ℕ → ℕ → M Spending
  update_from_version2 s arbos_version update_time current_time batch_poster wei_spent l1_basefee =
      do
        result ← open_poster s.batch_poster_table batch_poster true
        poster_state ← expect_poster result
        rewards ← funds_due_for_rewards s
        stored ← last_update_time s
        let last = first_time stored update_time
        if is_invalid_time last update_time current_time
            then pure invalid_time
            else spend_v2 s poster_state arbos_version rewards last update_time current_time
                wei_spent l1_basefee

  unfoldable pub pre_version10_update_for_batch_poster_spending :
      L1PricingState → ℕ → ℕ → ℕ → ℕ → ℕ → ℕ → M Spending
  pre_version10_update_for_batch_poster_spending s arbos_version update_time current_time
        batch_poster wei_spent l1_basefee =
      if ltb arbos_version 2
      then (pre_version2_update_for_batch_poster_spending s update_time current_time batch_poster
            wei_spent
          >>= λ _. pure updated)
      else update_from_version2 s arbos_version update_time current_time batch_poster wei_spent
          l1_basefee
