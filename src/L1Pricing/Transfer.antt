-- ===== src/L1Pricing/Transfer.antt =====
-- `transfer_from_l1_fees_available` on every branch.
use arb_reth.Prelude.{
  ℕ, ◌-◌, ◌≤◌, ◌<◌, ◌≡◌, refl, ◌∙◌, ap, arith, inl, inr, true, false, Bool-cases, ltb, leb, ltb→lt,
  if◌then◌else◌,
}
use arb_reth.Host.{Host, IsStore, IsBank}
use arb_reth.World.{
  World, ok, panic, transfer, transfer_failed, inconsistent_balance, bind-ok, bind-panic,
}
use arb_reth.Storage.Slot
use arb_reth.Storage.Slot.{
  StorageSlot, value, after_get, after_set, get_lem, set_lem, IsWritable, after_get-IsWritable,
}
use arb_reth.Storage.Typed.{get_big_uint, set_big_uint}
use arb_reth.Storage.Typed.Laws.{held}
use arb_reth.L1Pricing.{
  L1PricingState, l1_pricer_funds_pool_address, transfer_from_l1_fees_available, transfer_checked,
}

leb_of_ltb : (a b : ℕ) → ltb a b ≡ true → leb b a ≡ false
leb_of_ltb a b e = ground (arith, e)

le_of_ltb : (a b : ℕ) → ltb a b ≡ false → b ≤ a
le_of_ltb a b e = ground (arith, e)

leb_of_not_ltb : (a b : ℕ) → ltb a b ≡ false → leb b a ≡ true
leb_of_not_ltb a b e = ground (arith, e)

module _ ⦃h : Host⦄ (l : IsStore h) (bank : IsBank h l) where
  -- The balance of an account.
  abbrev pub balance_in : World h → ℕ → ℕ
  balance_in w a = bank.balance w.db a

  -- The world after a transfer.
  unfoldable pub after_move : ℕ → ℕ → ℕ → World h → World h
  after_move from to amount w = record w { db = bank.moved w.db from to amount }

  pub held-after_move :
      (from to amount : ℕ) (w : World h) (s : StorageSlot)
      → held l (after_move from to amount w) s ≡ held l w s
  unfolding after_move value
  held-after_move from to amount w s = bank.slot-moved w.db from to amount s.account s.slot

  pub after_move-IsWritable :
      (from to amount : ℕ) (w : World h) → IsWritable w → IsWritable (after_move from to amount w)
  unfolding after_move
  after_move-IsWritable from to amount w p = p

  pub transfer_moves :
      (from to amount : ℕ) (w : World h)
      → amount ≤ balance_in w from
      → transfer from to amount w ≡ ok tt (after_move from to amount w)
  unfolding after_move
  transfer_moves from to amount w p = rw (bank.transfer_done w.db from to amount p, transfer) refl

  pub transfer_refused :
      (from to amount : ℕ) (w : World h)
      → balance_in w from < amount
      → transfer from to amount w ≡ panic transfer_failed
  transfer_refused from to amount w p =
      rw (bank.transfer_short w.db from to amount p, transfer) refl

  module _ (s : L1PricingState) (recipient amount : ℕ) (w : World h) where
    -- The world after the transfer and the new fees.
    unfoldable pub after_transfer : World h
    after_transfer =
        after_set l s.l1_fees_available (held l w s.l1_fees_available - amount) (
          after_get s.l1_fees_available
            (after_move l1_pricer_funds_pool_address recipient amount w))

    -- On a host with a store and balances and on a writable world, `transfer_from_l1_fees_available`
    -- panics if the pool has less than the amount, panics if the stored fees are less than it, and
    -- otherwise moves the amount, stores the fees less the amount and returns them.
    pub transfer_from_l1_fees_available_lem :
        IsWritable w
        → transfer_from_l1_fees_available s recipient amount w ≡ (
            if ltb (balance_in w l1_pricer_funds_pool_address) amount
            then panic transfer_failed
            else if ltb (held l w s.l1_fees_available) amount
            then panic inconsistent_balance
            else ok (held l w s.l1_fees_available - amount) after_transfer)
    unfolding transfer_from_l1_fees_available transfer_checked get_big_uint set_big_uint
        after_transfer
    transfer_from_l1_fees_available_lem p =
        elim (Bool-cases (ltb (balance_in w l1_pricer_funds_pool_address) amount)) [
          | inl short ↦
              bind-panic (transfer l1_pricer_funds_pool_address recipient amount) _ w (
                transfer_refused l1_pricer_funds_pool_address recipient amount w (ltb→lt _ _ short))
              ∙ rw short refl
          | inr enough ↦
              bind-ok (transfer l1_pricer_funds_pool_address recipient amount) _ w (
                transfer_moves l1_pricer_funds_pool_address recipient amount w
                  (le_of_ltb _ _ enough))
              ∙ bind-ok (Slot.get s.l1_fees_available) _ w1 (get_lem l s.l1_fees_available w1)
              ∙ ap (λ old. transfer_checked s old amount (leb amount old) w2)
                  (held-after_move l1_pricer_funds_pool_address recipient amount w
                    s.l1_fees_available)
              ∙ rw enough stored
        ]
      where
        w1 : World h
        w1 = after_move l1_pricer_funds_pool_address recipient amount w

        w2 : World h
        w2 = after_get s.l1_fees_available w1

        old : ℕ
        old = held l w s.l1_fees_available

        w1-IsWritable : IsWritable w1
        w1-IsWritable = after_move-IsWritable l1_pricer_funds_pool_address recipient amount w p

        stored : transfer_checked s old amount (leb amount old) w2 ≡ (
            if ltb old amount then panic inconsistent_balance else ok (old - amount) after_transfer)
        stored = elim (Bool-cases (ltb old amount)) [
          | inl short ↦ rw (short, leb_of_ltb old amount short) refl
          | inr enough ↦
              rw (enough, leb_of_not_ltb old amount enough)
                (bind-ok (Slot.set s.l1_fees_available (old - amount)) _ w2 (
                  set_lem l s.l1_fees_available (old - amount) w2
                    (after_get-IsWritable s.l1_fees_available w1 w1-IsWritable)))
        ]
