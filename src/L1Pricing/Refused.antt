-- ===== src/L1Pricing/Refused.antt =====
-- An update whose times are not valid stores nothing.
use arb_reth.Prelude.{ℕ, ◌≤◌, ◌≡◌, refl, arith, true, ltb, leb, u64_max}
use arb_reth.Host.{Host, IsStore}
use arb_reth.World.{World, ok, bind-ok}
use arb_reth.World.Ends.{Ends, Ends-pure, Ends-bind_ok, Ends-if}
use arb_reth.Storage.Slot.{after_get, get_lem, value}
use arb_reth.Storage.Typed.{get_uint64, get_big_int, get_big_uint}
use arb_reth.Storage.Typed.Laws.{held, get_uint64_lem}
use arb_reth.AddressSet.{is_member}
use arb_reth.BatchPoster.{internal_open, open_poster, open_poster_if, opened}
use arb_reth.BatchPoster.Balance.{get_due}
use arb_reth.L1Pricing.{L1PricingState, last_update_time, funds_due_for_rewards, l1_fees_available}
use arb_reth.L1Pricing.Arith.{first_time, is_invalid_time}
use arb_reth.L1Pricing.Steps.{Spending, invalid_time}
use arb_reth.L1Pricing.Old.{update_from_version2, pre_version10_update_for_batch_poster_spending}
use arb_reth.L1Pricing.Update.{update_from_version10, update_for_batch_poster_spending}

module _ ⦃h : Host⦄ (l : IsStore h) (s : L1PricingState) where
  -- The call answers that the times are not valid, and the database is the one before.
  abbrev pub IsRefused : World h → Spending → World h → Type 0
  IsRefused w r w' = (r ≡ invalid_time) × (w'.db ≡ w.db)

  module _ (arbos_version update_time current_time batch_poster wei_spent l1_basefee : ℕ)
      (w : World h)
      (member : is_member s.batch_poster_table.poster_addrs batch_poster w ≡ ok true w)
      (small : held l w s.last_update_time ≤ u64_max)
      (invalid : is_invalid_time
          (first_time (held l w s.last_update_time) update_time)
          update_time
          current_time
        ≡ true) where
    found :
        open_poster s.batch_poster_table batch_poster true w
        ≡ ok (opened (internal_open s.batch_poster_table batch_poster)) w
    unfolding open_poster open_poster_if
    found = bind-ok (is_member s.batch_poster_table.poster_addrs batch_poster) _ w member

    update_from_version10-IsRefused :
        Ends
          (update_from_version10 s arbos_version update_time current_time batch_poster wei_spent
            l1_basefee)
          w
          (IsRefused w)
    unfolding update_from_version10 funds_due_for_rewards l1_fees_available last_update_time
        get_big_uint after_get value
    update_from_version10-IsRefused =
        Ends-bind_ok (open_poster s.batch_poster_table batch_poster true) _ w found (
          Ends-bind_ok (get_big_int s.funds_due_for_rewards) _ w
            (get_due l s.funds_due_for_rewards w)
            (Ends-bind_ok (get_big_uint s.l1_fees_available) _ w1 (get_lem l s.l1_fees_available w1)
              (Ends-bind_ok (get_uint64 s.last_update_time) _ w2
                (get_uint64_lem l s.last_update_time w2 small)
                (rw invalid (Ends-pure invalid_time _ (refl, refl))))))
      where
        w1 : World h
        w1 = after_get s.funds_due_for_rewards w

        w2 : World h
        w2 = after_get s.l1_fees_available w1

    update_from_version2-IsRefused :
        Ends
          (update_from_version2 s arbos_version update_time current_time batch_poster wei_spent
            l1_basefee)
          w
          (IsRefused w)
    unfolding update_from_version2 funds_due_for_rewards last_update_time after_get value
    update_from_version2-IsRefused =
        Ends-bind_ok (open_poster s.batch_poster_table batch_poster true) _ w found (
          Ends-bind_ok (get_big_int s.funds_due_for_rewards) _ w
            (get_due l s.funds_due_for_rewards w)
            (Ends-bind_ok (get_uint64 s.last_update_time) _ w1
              (get_uint64_lem l s.last_update_time w1 small)
              (rw invalid (Ends-pure invalid_time _ (refl, refl)))))
      where
        w1 : World h
        w1 = after_get s.funds_due_for_rewards w

    -- On a host that is a store and from ArbOS version 2 on: for a poster of the table and a 64-bit
    -- time of the last update, `update_for_batch_poster_spending` with times that are not valid returns
    -- that error, and the database is the one before: nothing is stored and nothing is paid.
    pub update_for_batch_poster_spending_refused :
        leb 2 arbos_version ≡ true
        → Ends
            (update_for_batch_poster_spending s arbos_version update_time current_time batch_poster
              wei_spent l1_basefee)
            w
            (λ r w'. (r ≡ invalid_time) × (w'.db ≡ w.db))
    unfolding update_for_batch_poster_spending pre_version10_update_for_batch_poster_spending
    update_for_batch_poster_spending_refused new =
        Ends-if (ltb arbos_version 10) _ _ w
          (λ e.
            Ends-if (ltb arbos_version 2) _ _ w (λ old. absurd (ground (arith, old, new)))
              (λ later. update_from_version2-IsRefused))
          (λ e. update_from_version10-IsRefused)
