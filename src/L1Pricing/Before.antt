-- ===== src/L1Pricing/Before.antt =====
-- The updates of the versions from 2 to 9 return. They pay from the balance of the funds pool and leave
-- the stored fees alone.
use arb_reth.Prelude.{
  ℕ, ◌≤◌, ◌≡◌, refl, ◌∙◌, arith, Bool, true, false, ltb, leb, min, u64_max, ◌==◌, if◌then◌else◌,
  List, [], ◌∷◌,
}
use arb_reth.Prelude.Int.{ℤ, is_positive}
use arb_reth.Signed.{to_u256}
use arb_reth.Host.{Host, IsStore, IsBank}
use arb_reth.World.{World, ok, pure, transfer, balance_of, bind-ok}
use arb_reth.World.Ends.{Ends, Ends-pure, Ends-bind, Ends-bind_ok, Ends-if}
use arb_reth.Storage.Typed.{get_uint64, set_uint64, get_big_int, set_big_int, get_address}
use arb_reth.Storage.Typed.Laws.{held, get_uint64_lem}
use arb_reth.Storage.Slot.{StorageSlot, after_get, value}
use arb_reth.BatchPoster.Balance.{due, get_due}
use arb_reth.AddressSet.{is_member}
use arb_reth.BatchPoster.{
  BatchPosterState, internal_open, open_poster, open_poster_if, opened, funds_due, pay_to,
}
use arb_reth.L1Pricing.{
  L1PricingState, l1_pricer_funds_pool_address, last_update_time, set_last_update_time,
  funds_due_for_rewards, set_funds_due_for_rewards, per_unit_reward, pay_rewards_to,
}
use arb_reth.L1Pricing.Arith.{first_time, is_invalid_time}
use arb_reth.L1Pricing.Steps.{
  updated, invalid_time, allocate_units, cap_spending, credit_poster, reprice_if, transfer_if,
  pool_balance,
}
use arb_reth.L1Pricing.Transfer.{balance_in, after_move, held-after_move, transfer_moves}
use arb_reth.L1Pricing.Covered.{
  counters, AllSmall, Backed, get-Backed, read_big_int, read_address, read_counter, write_big_int,
  write_counter,
}
use arb_reth.L1Pricing.Payments.{
  Layout, AllSmall-after_move, set_funds_due_ends, payment_for_rewards-le, allocate_units_ends,
  cap_spending_ends, credit_poster_ends,
}
use arb_reth.L1Pricing.Reprice.{reprice_ends}
use arb_reth.L1Pricing.Old.{
  pay_rewards_from, pay_amount_v2, pay_poster_v2, reprice_v2, spend_v2, update_from_version2,
  pre_version10_update_for_batch_poster_spending,
}
use arb_reth.L1Pricing.Update.{update_for_batch_poster_spending}

module _ ⦃h : Host⦄ (l : IsStore h) (bank : IsBank h l) (s : L1PricingState) where
  -- The world after the pool's account is loaded.
  after_load : World h → World h
  after_load w = record w { db = bank.loaded w.db l1_pricer_funds_pool_address }

  held-after_load : (w : World h) (t : StorageSlot) → held l (after_load w) t ≡ held l w t
  unfolding after_load value
  held-after_load w t = bank.slot-loaded w.db l1_pricer_funds_pool_address t.account t.slot

  AllSmall-after_load :
      (w : World h) (ts : List StorageSlot)
      → AllSmall l bank s w ts
      → AllSmall l bank s (after_load w) ts
  AllSmall-after_load w [] p = tt
  AllSmall-after_load w (t ∷ ts) p = (rw (held-after_load w t) p.0, AllSmall-after_load w ts p.1)

  forget :
      {fees available : ℕ} {w : World h}
      → Backed l bank s fees available w
      → Backed l bank s fees 0 w
  forget c = record {
    writable = c.writable;
    stored = c.stored;
    in_pool = omega arith;
    small = c.small;
  }

  -- The balance that is read is available from then on.
  pool_balance_ends :
      {fees available : ℕ} {w : World h}
      → Backed l bank s fees available w
      → Ends pool_balance w (λ balance w'. Backed l bank s fees balance w')
  unfolding pool_balance after_load
  pool_balance_ends {fees} {available} {w} c = record {
    result = balance_in l bank w l1_pricer_funds_pool_address;
    after = after_load w;
    returned = rw (bank.load_done w.db l1_pricer_funds_pool_address, balance_of, pool_balance) refl;
    left_with = record {
      writable = c.writable;
      stored = held-after_load w s.l1_fees_available ∙ c.stored;
      in_pool = omega (
        arith,
        bank.balance-loaded w.db l1_pricer_funds_pool_address l1_pricer_funds_pool_address,
      );
      small = AllSmall-after_load w (counters l bank s) c.small;
    };
  }

  transfer_ends :
      {fees available : ℕ} {w : World h} (recipient amount : ℕ)
      → Backed l bank s fees available w
      → amount ≤ available
      → Ends
          (transfer l1_pricer_funds_pool_address recipient amount)
          w
          (λ u w'. Backed l bank s fees 0 w')
  unfolding after_move
  transfer_ends {fees} {available} {w} recipient amount c p = record {
    result = tt;
    after = after_move l bank l1_pricer_funds_pool_address recipient amount w;
    returned =
        transfer_moves l bank l1_pricer_funds_pool_address recipient amount w
          (omega (arith, p, c.in_pool));
    left_with = record {
      writable = c.writable;
      stored =
          held-after_move l bank l1_pricer_funds_pool_address recipient amount w s.l1_fees_available
          ∙ c.stored;
      in_pool = omega arith;
      small =
          AllSmall-after_move l bank s l1_pricer_funds_pool_address recipient amount w
            (counters l bank s) c.small;
    };
  }

  transfer_if_ends :
      {fees available : ℕ} {w : World h} (recipient amount : ℕ)
      → Backed l bank s fees available w
      → amount ≤ available
      → Ends (transfer_if recipient amount) w (λ u w'. Backed l bank s fees 0 w')
  unfolding transfer_if
  transfer_if_ends {fees} {available} {w} recipient amount c p =
      Ends-if (ltb 0 amount) _ _ w (λ some. transfer_ends recipient amount c p)
        (λ none. Ends-pure tt w (forget c))

  module _ (p : BatchPosterState) (y : Layout l bank s p) {fees : ℕ} where
    pay_rewards_from_ends :
        {w : World h} (allocated : ℕ) (rewards : ℤ)
        → Backed l bank s fees 0 w
        → Ends
            (pay_rewards_from s allocated rewards pool_balance)
            w
            (λ paid w'. Backed l bank s fees 0 w')
    unfolding pay_rewards_from per_unit_reward set_funds_due_for_rewards pay_rewards_to
    pay_rewards_from_ends {w} allocated rewards c =
        Ends-bind (get_uint64 s.per_unit_reward) _ w
          (read_counter l bank s c s.per_unit_reward c.small.1.0)
          (λ per_unit w1 c1.
            Ends-bind (set_big_int s.funds_due_for_rewards _) _ w1
              (write_big_int l bank s c1.1 s.funds_due_for_rewards _ y.rewards_free)
              (λ u w2 c2. Ends-bind pool_balance _ w2 (pool_balance_ends c2) (λ balance w3 c3.
                Ends-bind (set_big_int s.funds_due_for_rewards _) _ w3
                  (write_big_int l bank s c3 s.funds_due_for_rewards _ y.rewards_free)
                  (λ v w4 c4.
                    Ends-bind (get_address s.pay_rewards_to) _ w4
                      (read_address l bank s c4 s.pay_rewards_to)
                      (λ recipient w5 c5.
                        Ends-bind (transfer_if recipient _) _ w5
                          (transfer_if_ends recipient _ c5
                            (payment_for_rewards-le l bank s per_unit allocated balance))
                          (λ u w6 c6. Ends-pure _ w6 c6))))))

    pay_poster_v2_ends :
        {available : ℕ} {w : World h}
        → Backed l bank s fees available w
        → Ends (pay_poster_v2 p available) w (λ u w'. Backed l bank s fees 0 w')
    unfolding pay_poster_v2 pay_amount_v2 funds_due pay_to
    pay_poster_v2_ends {available} {w} c =
        Ends-bind (get_big_int p.funds_due) _ w (read_big_int l bank s c p.funds_due)
          (λ balance_due w1 c1.
            Ends-if (is_positive balance_due) _ _ w1
              (λ e.
                Ends-if (min available (to_u256 balance_due) == 0) _ _ w1
                  (λ none. Ends-pure tt w1 (forget c1))
                  (λ some.
                    Ends-bind (get_address p.pay_to) _ w1 (read_address l bank s c1 p.pay_to)
                      (λ addr w2 c2.
                        Ends-bind (transfer l1_pricer_funds_pool_address addr _) _ w2
                          (transfer_ends addr (min available (to_u256 balance_due)) c2
                            (omega arith))
                          (λ u w3 c3. set_funds_due_ends l bank s p y c3 _))))
              (λ e. Ends-pure tt w1 (forget c1)))

    spend_v2_ends :
        {w : World h} (arbos_version : ℕ) (rewards : ℤ)
        (last update_time current_time wei_spent l1_basefee : ℕ)
        → update_time ≤ u64_max
        → Backed l bank s fees 0 w
        → Ends
            (spend_v2 s p arbos_version rewards last update_time current_time wei_spent l1_basefee)
            w
            (λ r w'. (r ≡ updated) × Backed l bank s fees 0 w')
    unfolding spend_v2 reprice_if set_last_update_time
    spend_v2_ends {w} arbos_version rewards last update_time current_time wei_spent l1_basefee small
          c =
        Ends-bind (allocate_units s _ _) _ w (allocate_units_ends l bank s p y c _ _)
          (λ allocated w1 c1.
            Ends-bind (cap_spending s arbos_version l1_basefee allocated wei_spent) _ w1
              (cap_spending_ends l bank s p y c1 arbos_version l1_basefee allocated wei_spent)
              (λ spent w2 c2.
                Ends-bind (credit_poster p spent) _ w2 (credit_poster_ends l bank s p y c2 spent)
                  (λ u w3 c3.
                    Ends-bind (pay_rewards_from s allocated rewards pool_balance) _ w3
                      (pay_rewards_from_ends allocated rewards c3)
                      (λ paid w4 c4.
                        Ends-bind pool_balance _ w4 (pool_balance_ends c4) (λ available w5 c5.
                          Ends-bind (pay_poster_v2 p available) _ w5 (pay_poster_v2_ends c5)
                            (λ u w6 c6.
                              Ends-bind (set_uint64 s.last_update_time update_time) _ w6
                                (write_counter l bank s c6 s.last_update_time update_time
                                  y.time_fees small)
                                (λ u w7 c7.
                                  Ends-bind (reprice_v2 s arbos_version allocated) _ w7
                                    (Ends-if (ltb 0 allocated) _ _ w7
                                      (λ e.
                                        reprice_ends l bank s p y arbos_version allocated
                                          pool_balance c7 (λ w' c'. told (pool_balance_ends c')))
                                      (λ e. Ends-pure tt w7 c7))
                                    (λ u w8 c8. Ends-pure updated w8 (refl, c8)))))))))
      where
        told :
            {w : World h}
            → Ends pool_balance w (λ balance w'. Backed l bank s fees balance w')
            → Ends pool_balance w (λ balance w'. Backed l bank s fees 0 w')
        told e = record {
          result = e.result;
          after = e.after;
          returned = e.returned;
          left_with = forget e.left_with;
        }

  -- On a host with a store and balances, before ArbOS version 10 and from version 2 on: for a poster of
  -- the table, a 64-bit update time and a writable world whose counters are 64-bit numbers, and where
  -- the slots that are written do not overlap those or that of the stored fees,
  -- `update_for_batch_poster_spending` returns, with an error exactly for times that are not valid, and
  -- leaves such a world with the same stored fees.
  pub update_before-Ends :
      (arbos_version update_time current_time batch_poster wei_spent l1_basefee : ℕ) (w : World h)
      {fees : ℕ}
      → leb 2 arbos_version ≡ true
      → ltb arbos_version 10 ≡ true
      → update_time ≤ u64_max
      → Layout l bank s (internal_open s.batch_poster_table batch_poster)
      → is_member s.batch_poster_table.poster_addrs batch_poster w ≡ ok true w
      → Backed l bank s fees 0 w
      → Ends
          (update_for_batch_poster_spending s arbos_version update_time current_time batch_poster
            wei_spent l1_basefee)
          w
          (λ r w'.
            (r ≡ (
              if is_invalid_time
                (first_time (held l w s.last_update_time) update_time)
                update_time
                current_time
              then invalid_time
              else updated))
            × Backed l bank s fees 0 w')
  unfolding update_for_batch_poster_spending pre_version10_update_for_batch_poster_spending
      update_from_version2 funds_due_for_rewards last_update_time after_get open_poster
      open_poster_if value
  update_before-Ends arbos_version update_time current_time batch_poster wei_spent l1_basefee w
        {fees} from before small y member c =
      Ends-if (ltb arbos_version 10) _ _ w
        (λ early.
          Ends-if (ltb arbos_version 2) _ _ w (λ first. absurd (ground (arith, first, from)))
            (λ second. Ends-bind_ok (open_poster s.batch_poster_table batch_poster true) _ w found (
              Ends-bind_ok (get_big_int s.funds_due_for_rewards) _ w
                (get_due l s.funds_due_for_rewards w)
                (Ends-bind_ok (get_uint64 s.last_update_time) _ w1
                  (get_uint64_lem l s.last_update_time w1 c.small.1.1.0)
                  (decided (
                    is_invalid_time (first_time (held l w s.last_update_time) update_time)
                      update_time current_time))))))
        (λ late. absurd (ground (arith, late, before)))
    where
      w1 : World h
      w1 = after_get s.funds_due_for_rewards w

      w2 : World h
      w2 = after_get s.last_update_time w1

      c2 : Backed l bank s fees 0 w2
      c2 = get-Backed l bank s (get-Backed l bank s c s.funds_due_for_rewards) s.last_update_time

      found :
          open_poster s.batch_poster_table batch_poster true w
          ≡ ok (opened (internal_open s.batch_poster_table batch_poster)) w
      found = bind-ok (is_member s.batch_poster_table.poster_addrs batch_poster) _ w member

      decided :
          (b : Bool)
          → Ends
              (if b
                then pure invalid_time
                else spend_v2 s
                    (internal_open s.batch_poster_table batch_poster)
                    arbos_version
                    (due l w s.funds_due_for_rewards)
                    (first_time (held l w s.last_update_time) update_time)
                    update_time
                    current_time
                    wei_spent
                    l1_basefee)
              w2
              (λ r w'. (r ≡ (if b then invalid_time else updated)) × Backed l bank s fees 0 w')
      decided true = Ends-pure invalid_time w2 (refl, c2)
      decided false =
          spend_v2_ends (internal_open s.batch_poster_table batch_poster) y arbos_version _ _
            update_time current_time wei_spent l1_basefee small c2
