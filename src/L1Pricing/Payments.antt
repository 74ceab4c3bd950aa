-- ===== src/L1Pricing/Payments.antt =====
-- The stages of an update that allocate and credit: on a world whose fees are backed by the pool each
-- returns, and they are backed again.
use arb_reth.Prelude.{ℕ, ◌≤◌, ◌≡◌, arith, false, List, [], ◌∷◌, leb}
use arb_reth.Prelude.Int.{ℤ}
use arb_reth.Host.{Host, IsStore, IsBank}
use arb_reth.World.{World}
use arb_reth.World.Ends.{Ends, Ends-pure, Ends-bind, Ends-if}
use arb_reth.Storage.Slot.{StorageSlot}
use arb_reth.Storage.Typed.{get_uint64, set_uint64, get_big_int, set_big_int}
use arb_reth.BatchPoster.{BatchPosterState, funds_due, set_funds_due}
use arb_reth.BatchPoster.Balance.{same_slot, Differs}
use arb_reth.L1Pricing.{
  L1PricingState, units_since_update, set_units_since_update, amortized_cost_cap_bips,
}
use arb_reth.L1Pricing.Arith.{payment_for_rewards}
use arb_reth.L1Pricing.Steps.{allocate_units, cap_spending, credit_poster}
use arb_reth.L1Pricing.Transfer.{after_move, held-after_move}
use arb_reth.L1Pricing.Covered.{
  counters, AllSmall, Backed, IsFree, read_big_int, read_counter, write_big_int, write_counter,
}

module _ ⦃h : Host⦄ (l : IsStore h) (bank : IsBank h l) (s : L1PricingState) where
  -- The slots that an update writes do not overlap where that matters.
  pub record Layout (p : BatchPosterState) : Type 0 where
    pub fees_apart : Differs s.l1_fees_available (counters l bank s)
    pub units_fees : same_slot s.units_since_update s.l1_fees_available ≡ false
    pub time_fees : same_slot s.last_update_time s.l1_fees_available ≡ false
    pub rewards_free : IsFree l bank s s.funds_due_for_rewards
    pub surplus_free : IsFree l bank s s.last_surplus
    pub price_free : IsFree l bank s s.price_per_unit
    pub due_free : IsFree l bank s p.funds_due
    pub total_free : IsFree l bank s p.table_total_funds_due

  pub AllSmall-after_move :
      (from to amount : ℕ) (w : World h) (ts : List StorageSlot)
      → AllSmall l bank s w ts
      → AllSmall l bank s (after_move l bank from to amount w) ts
  AllSmall-after_move from to amount w [] p = tt
  AllSmall-after_move from to amount w (t ∷ ts) p = (
    rw (held-after_move l bank from to amount w t) p.0,
    AllSmall-after_move from to amount w ts p.1,
  )

  module _ (p : BatchPosterState) (y : Layout p) {fees available : ℕ} {w : World h}
      (c : Backed l bank s fees available w) where
    pub set_funds_due_ends :
        (v : ℤ) → Ends (set_funds_due p v) w (λ u w'. Backed l bank s fees available w')
    unfolding set_funds_due
    set_funds_due_ends v =
        Ends-bind (get_big_int p.funds_due) _ w (read_big_int l bank s c p.funds_due) (λ prev w1 c1.
          Ends-bind (get_big_int p.table_total_funds_due) _ w1
            (read_big_int l bank s c1 p.table_total_funds_due)
            (λ total w2 c2.
              Ends-bind (set_big_int p.table_total_funds_due _) _ w2
                (write_big_int l bank s c2 p.table_total_funds_due _ y.total_free)
                (λ u w3 c3. write_big_int l bank s c3 p.funds_due v y.due_free)))

  pub payment_for_rewards-le :
      (per_unit allocated fees : ℕ) → payment_for_rewards per_unit allocated fees ≤ fees
  unfolding payment_for_rewards
  payment_for_rewards-le per_unit allocated fees = ground arith

  module _ (p : BatchPosterState) (y : Layout p) {fees available : ℕ} {w : World h}
      (c : Backed l bank s fees available w) where
    pub allocate_units_ends :
        (numerator denominator : ℕ)
        → Ends
            (allocate_units s numerator denominator)
            w
            (λ allocated w'. Backed l bank s fees available w')
    unfolding allocate_units units_since_update set_units_since_update
    allocate_units_ends numerator denominator =
        Ends-bind (get_uint64 s.units_since_update) _ w
          (read_counter l bank s c s.units_since_update c.small.0)
          (λ units w1 c1.
            Ends-bind (set_uint64 s.units_since_update _) _ w1
              (write_counter l bank s c1.1 s.units_since_update _ y.units_fees
                (omega (arith, c1.0.1)))
              (λ u w2 c2. Ends-pure _ w2 c2))

    pub cap_spending_ends :
        (arbos_version l1_basefee allocated wei_spent : ℕ)
        → Ends
            (cap_spending s arbos_version l1_basefee allocated wei_spent)
            w
            (λ spent w'. Backed l bank s fees available w')
    unfolding cap_spending amortized_cost_cap_bips
    cap_spending_ends arbos_version l1_basefee allocated wei_spent =
        Ends-if (leb 3 arbos_version) _ _ w
          (λ new.
            Ends-bind (get_uint64 s.amortized_cost_cap_bips) _ w
              (read_counter l bank s c s.amortized_cost_cap_bips c.small.1.1.1.1.0)
              (λ bips w1 c1. Ends-pure _ w1 c1.1))
          (λ old. Ends-pure wei_spent w c)

    pub credit_poster_ends :
        (wei_spent : ℕ)
        → Ends (credit_poster p wei_spent) w (λ u w'. Backed l bank s fees available w')
    unfolding credit_poster funds_due
    credit_poster_ends wei_spent =
        Ends-bind (get_big_int p.funds_due) _ w (read_big_int l bank s c p.funds_due)
          (λ due w1 c1. set_funds_due_ends p y c1 _)
