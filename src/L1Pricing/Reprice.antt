-- ===== src/L1Pricing/Reprice.antt =====
-- The new price of an update: on a backed world it is computed and stored, in every version, and the
-- world is backed again.
use arb_reth.Prelude.{ℕ, ltb}
use arb_reth.Prelude.Int.{ℤ}
use arb_reth.Host.{Host, IsStore, IsBank}
use arb_reth.World.{World, M}
use arb_reth.World.Ends.{Ends, Ends-bind, Ends-if}
use arb_reth.Storage.Typed.{
  get_uint64, get_big_int, get_big_uint, set_big_uint, set_pre_version7, unsigned_abs,
}
use arb_reth.BatchPoster.{BatchPosterState, total_funds_due}
use arb_reth.L1Pricing.{
  L1PricingState, funds_due_for_rewards, inertia, equilibration_units, price_per_unit, last_surplus,
  set_last_surplus, set_price_per_unit,
}
use arb_reth.L1Pricing.Steps.{reprice}
use arb_reth.L1Pricing.Covered.{
  Backed, read_big_int, read_big_uint, read_counter, write_big_int, write_big_uint,
}
use arb_reth.L1Pricing.Payments.{Layout}

module _ ⦃h : Host⦄ (l : IsStore h) (bank : IsBank h l) (s : L1PricingState) where
  module _ (p : BatchPosterState) (y : Layout l bank s p) where
    set_last_surplus_ends :
        {fees available : ℕ} (arbos_version : ℕ) (v : ℤ) (w : World h)
        → Backed l bank s fees available w
        → Ends (set_last_surplus s v arbos_version) w (λ u w'. Backed l bank s fees available w')
    unfolding set_last_surplus set_pre_version7 set_big_uint
    set_last_surplus_ends arbos_version v w c =
        Ends-if (ltb arbos_version 7) _ _ w
          (λ old. write_big_uint l bank s c s.last_surplus (unsigned_abs v) y.surplus_free)
          (λ later. write_big_int l bank s c s.last_surplus v y.surplus_free)

    -- Whatever the amount that is held: a call that keeps the world backed tells it.
    pub reprice_ends :
        {fees available : ℕ} {w : World h} (arbos_version allocated : ℕ) (held : M ℕ)
        → Backed l bank s fees available w
        → ((w' : World h)
            → Backed l bank s fees available w'
            → Ends held w' (λ amount w''. Backed l bank s fees available w''))
        → Ends
            (reprice s arbos_version allocated held)
            w
            (λ u w'. Backed l bank s fees available w')
    unfolding reprice total_funds_due funds_due_for_rewards inertia equilibration_units
        price_per_unit last_surplus set_price_per_unit
    reprice_ends {fees} {available} {w} arbos_version allocated held c tells =
        Ends-bind (get_big_int s.batch_poster_table.total_funds_due) _ w (read_big_int l bank s c _)
          (λ total w1 c1.
            Ends-bind (get_big_int s.funds_due_for_rewards) _ w1 (read_big_int l bank s c1 _)
              (λ rewards w2 c2. Ends-bind held _ w2 (tells w2 c2) (λ amount w0 c0.
                Ends-bind (get_uint64 s.inertia) _ w0
                  (read_counter l bank s c0 s.inertia c0.small.1.1.1.0)
                  (λ inert w3 c3.
                    Ends-bind (get_big_uint s.equilibration_units) _ w3
                      (read_big_uint l bank s c3.1 _)
                      (λ equil w4 c4.
                        Ends-bind (get_big_uint s.price_per_unit) _ w4
                          (read_big_uint l bank s c4.1 _)
                          (λ price w5 c5.
                            Ends-bind (get_big_int s.last_surplus) _ w5
                              (read_big_int l bank s c5.1 _)
                              (λ old w6 c6.
                                Ends-bind (set_last_surplus s _ arbos_version) _ w6
                                  (set_last_surplus_ends arbos_version _ w6 c6)
                                  (λ u w7 c7.
                                    write_big_uint l bank s c7 s.price_per_unit _
                                      y.price_free))))))))
