-- ===== src/L1Pricing/Steps.antt =====
-- The stages that the versions of `update_for_batch_poster_spending` have in common, in
-- crates/arb-arbos/src/l1pricing/l1pricing.rs and l1pricing_old_versions.rs.
use arb_reth.Prelude.{ℕ, ◌-◌, ltb, leb, if◌then◌else◌}
use arb_reth.Signed.{add_i256, to_i256}
use arb_reth.Host.{Host}
use arb_reth.World.{M, ◌>>=◌, ◌>>◌, pure, tick, transfer, balance_of}
use arb_reth.BatchPoster.{BatchPosterState, total_funds_due, funds_due, set_funds_due}
use arb_reth.L1Pricing.{
  L1PricingState, l1_pricer_funds_pool_address, inertia, equilibration_units, price_per_unit,
  last_surplus, set_last_surplus, set_price_per_unit, funds_due_for_rewards, units_since_update,
  set_units_since_update, amortized_cost_cap_bips,
}
use arb_reth.L1Pricing.Arith.{units_allocated, capped, surplus_of, price_change, new_price}

-- What `update_for_batch_poster_spending` returns, without the database's error.
pub data Spending : Type 0 where
  updated invalid_time : Spending

module _ ⦃h : Host⦄ where
  -- Takes the units of the fraction out of those since the last update.
  unfoldable pub allocate_units : L1PricingState → ℕ → ℕ → M ℕ
  allocate_units s numerator denominator = do
    units ← units_since_update s
    set_units_since_update s (units - units_allocated units numerator denominator)
    pure (units_allocated units numerator denominator)

  -- The cap on the spending, from ArbOS version 3 on.
  unfoldable pub cap_spending : L1PricingState → ℕ → ℕ → ℕ → ℕ → M ℕ
  cap_spending s arbos_version l1_basefee allocated wei_spent =
      if leb 3 arbos_version
      then (amortized_cost_cap_bips s >>= λ bips. pure (capped l1_basefee allocated bips wei_spent))
      else pure wei_spent

  -- Adds the spending to what the poster is due.
  unfoldable pub credit_poster : BatchPosterState → ℕ → M (Unit {0})
  credit_poster poster_state wei_spent = do
    due_to_poster ← funds_due poster_state
    set_funds_due poster_state (add_i256 due_to_poster (to_i256 wei_spent))

  -- The new price from the amount that is held, where units were allocated.
  unfoldable pub reprice : L1PricingState → ℕ → ℕ → M ℕ → M (Unit {0})
  reprice s arbos_version allocated held = do
    total_funds_due ← total_funds_due s.batch_poster_table
    rewards ← funds_due_for_rewards s
    held ← held
    let surplus = surplus_of held total_funds_due rewards
    inertia ← inertia s
    equil_units ← equilibration_units s
    price ← price_per_unit s
    old_surplus ← last_surplus s
    set_last_surplus s surplus arbos_version
    set_price_per_unit s
        (new_price price (price_change surplus old_surplus inertia equil_units allocated))

  unfoldable pub reprice_if : L1PricingState → ℕ → ℕ → M ℕ → M (Unit {0})
  reprice_if s arbos_version allocated held =
      if ltb 0 allocated then reprice s arbos_version allocated held else tick

  -- A transfer from the funds pool, if there is anything to transfer.
  unfoldable pub transfer_if : ℕ → ℕ → M (Unit {0})
  transfer_if recipient amount =
      if ltb 0 amount then transfer l1_pricer_funds_pool_address recipient amount else tick

  -- The balance of the funds pool.
  unfoldable pub pool_balance : M ℕ
  pool_balance = balance_of l1_pricer_funds_pool_address
