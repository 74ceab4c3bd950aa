-- ===== src/L1Pricing/Update.antt =====
-- `update_for_batch_poster_spending` from ArbOS version 10 on:
-- crates/arb-arbos/src/l1pricing/l1pricing.rs.
use arb_reth.Prelude.{ℕ, true, ltb, ◌==◌, min, if◌then◌else◌}
use arb_reth.Prelude.Int.{ℤ, is_positive}
use arb_reth.Signed.{sub_i256, to_i256, to_u256}
use arb_reth.Host.{Host}
use arb_reth.World.{M, ◌>>=◌, ◌>>◌, pure}
use arb_reth.BatchPoster.{BatchPosterState, open_poster, funds_due, set_funds_due, pay_to}
use arb_reth.L1Pricing.{
  L1PricingState, expect_poster, pay_rewards_to, per_unit_reward, last_update_time,
  set_last_update_time, funds_due_for_rewards, set_funds_due_for_rewards, l1_fees_available,
  transfer_from_l1_fees_available,
}
use arb_reth.L1Pricing.Arith.{
  first_time, is_invalid_time, allocation_numerator, allocation_denominator, accrued,
  payment_for_rewards,
}
use arb_reth.L1Pricing.Steps.{
  Spending, updated, invalid_time, allocate_units, cap_spending, credit_poster, reprice_if,
}
use arb_reth.L1Pricing.Old.{pre_version10_update_for_batch_poster_spending}

module _ ⦃h : Host⦄ where
  -- Pays the rewards as far as the fees go, and returns the fees that are left.
  unfoldable pub pay_rewards : L1PricingState → ℕ → ℤ → ℕ → M ℕ
  pay_rewards s allocated rewards fees = do
    per_unit ← per_unit_reward s
    set_funds_due_for_rewards s (accrued rewards allocated per_unit)
    let payment = payment_for_rewards per_unit allocated fees
    set_funds_due_for_rewards s (sub_i256 (accrued rewards allocated per_unit) (to_i256 payment))
    recipient ← pay_rewards_to s
    transfer_from_l1_fees_available s recipient payment

  -- Pays what a poster is due as far as the fees go, and returns the fees that are left.
  unfoldable pub pay_poster_amount : L1PricingState → BatchPosterState → ℤ → ℕ → ℕ → M ℕ
  pay_poster_amount s poster_state balance_due fees amount =
      if amount == 0
      then pure fees
      else (pay_to poster_state >>= λ addr_to_pay.
          transfer_from_l1_fees_available s addr_to_pay amount >>= λ left.
          set_funds_due poster_state (sub_i256 balance_due (to_i256 amount)) >>= λ _. pure left)

  unfoldable pub pay_poster : L1PricingState → BatchPosterState → ℕ → M ℕ
  pay_poster s poster_state fees = do
    balance_due ← funds_due poster_state
    if is_positive balance_due
        then pay_poster_amount s poster_state balance_due fees (min fees (to_u256 balance_due))
        else pure fees

  -- The part behind the test of the times.
  unfoldable pub spend :
      L1PricingState → BatchPosterState → ℕ → ℤ → ℕ → ℕ → ℕ → ℕ → ℕ → ℕ → M Spending
  spend s poster_state arbos_version rewards fees last update_time current_time wei_spent
        l1_basefee =
      do
        allocated ←
            allocate_units s (allocation_numerator last update_time current_time)
              (allocation_denominator last current_time)
        wei_spent ← cap_spending s arbos_version l1_basefee allocated wei_spent
        credit_poster poster_state wei_spent
        fees ← pay_rewards s allocated rewards fees
        fees ← pay_poster s poster_state fees
        set_last_update_time s update_time
        reprice_if s arbos_version allocated (pure fees)
        pure updated

  unfoldable pub update_from_version10 : L1PricingState → ℕ → ℕ → ℕ → ℕ → ℕ → ℕ → M Spending
  update_from_version10 s arbos_version update_time current_time batch_poster wei_spent l1_basefee =
      do
        result ← open_poster s.batch_poster_table batch_poster true
        poster_state ← expect_poster result
        rewards ← funds_due_for_rewards s
        fees ← l1_fees_available s
        stored ← last_update_time s
        let last = first_time stored update_time
        if is_invalid_time last update_time current_time
            then pure invalid_time
            else spend s poster_state arbos_version rewards fees last update_time current_time
                wei_spent l1_basefee

  unfoldable pub update_for_batch_poster_spending :
      L1PricingState → ℕ → ℕ → ℕ → ℕ → ℕ → ℕ → M Spending
  update_for_batch_poster_spending s arbos_version update_time current_time batch_poster wei_spent
        l1_basefee =
      if ltb arbos_version 10
      then pre_version10_update_for_batch_poster_spending s arbos_version update_time current_time
          batch_poster wei_spent l1_basefee
      else update_from_version10 s arbos_version update_time current_time batch_poster wei_spent
          l1_basefee
