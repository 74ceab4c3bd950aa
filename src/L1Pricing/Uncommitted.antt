-- ===== src/L1Pricing/Uncommitted.antt =====
-- Two payments out of the stored fees on a journal, whose reads do not see the writes before them.
use arb_reth.Prelude.{ℕ, ◌+◌, ◌-◌, ◌≤◌, ◌≡◌, ◌≢◌, refl, sym, ◌∙◌, arith, true, leb, ==_refl}
use arb_reth.Host.{Host, IsJournal, HasBalances}
use arb_reth.Burn
use arb_reth.World.{World, ◌>>=◌, transfer, bind-ok}
use arb_reth.World.Ends.{Ends, Ends-bind_ok, Ends-pure}
use arb_reth.Storage.Slot.{get, set, after_get, IsWritable}
use arb_reth.Storage.Slot.Journaled.{committed_in, pending_in, with_put, get_committed, set_pending}
use arb_reth.Storage.Typed.{get_big_uint, set_big_uint}
use arb_reth.L1Pricing.{
  L1PricingState, l1_pricer_funds_pool_address, transfer_from_l1_fees_available, transfer_checked,
}

module _ ⦃h : Host⦄ (j : IsJournal h) (bank : HasBalances h j) (s : L1PricingState) where
  -- The stored fees that a read sees, and those that a commit leaves.
  abbrev pub fees_read : World h → ℕ
  fees_read w = committed_in j w s.l1_fees_available.account s.l1_fees_available.slot

  abbrev pub fees_pending : World h → ℕ
  fees_pending w = pending_in j w s.l1_fees_available.account s.l1_fees_available.slot

  abbrev pub pool_of : World h → ℕ
  pool_of w = bank.balance w.db l1_pricer_funds_pool_address

  -- What one payment leaves: the pool without the amount, and the fees of the commit without it.
  record Paid (amount : ℕ) (w : World h) (left : ℕ) (w' : World h) : Type 0 where
    writable : IsWritable w'
    answer : left ≡ fees_read w - amount
    same_read : fees_read w' ≡ fees_read w
    stored : fees_pending w' ≡ fees_read w - amount
    pool : pool_of w' ≡ pool_of w - amount

  pay_once :
      (recipient amount : ℕ) (w : World h)
      → IsWritable w
      → recipient ≢ l1_pricer_funds_pool_address
      → amount ≤ pool_of w
      → amount ≤ fees_read w
      → Ends (transfer_from_l1_fees_available s recipient amount) w (Paid amount w)
  unfolding transfer_from_l1_fees_available transfer_checked get_big_uint set_big_uint after_get
      Burn.burn
  pay_once recipient amount w p other in_pool in_fees =
      Ends-bind_ok (transfer l1_pricer_funds_pool_address recipient amount) _ w
        (rw
          (bank.transfer_done w.db l1_pricer_funds_pool_address recipient amount in_pool, transfer)
          refl)
        (Ends-bind_ok (get s.l1_fees_available) _ w1 (get_committed j s.l1_fees_available w1) (
          rw (unread, enough)
            (Ends-bind_ok (set s.l1_fees_available (fees_read w - amount)) _ w2
              (set_pending j s.l1_fees_available (fees_read w - amount) w2 p)
              (Ends-pure (fees_read w - amount) w3 (record {
                writable = p;
                answer = refl;
                same_read =
                    j.committed-write w2.db s.l1_fees_available.account s.l1_fees_available.slot _ _
                      _
                    ∙ unread;
                stored =
                    j.pending-write w2.db s.l1_fees_available.account s.l1_fees_available.slot _ _ _
                    ∙ rw (==_refl s.l1_fees_available.account, ==_refl s.l1_fees_available.slot)
                        refl;
                pool =
                    bank.balance-write w2.db _ _ _ l1_pricer_funds_pool_address
                    ∙ bank.balance-moved_from w.db l1_pricer_funds_pool_address recipient amount
                        (λ e. other (sym e)) in_pool;
              })))))
    where
      w1 : World h
      w1 = record w { db = bank.moved w.db l1_pricer_funds_pool_address recipient amount }

      w2 : World h
      w2 = after_get s.l1_fees_available w1

      w3 : World h
      w3 = with_put j s.l1_fees_available (fees_read w - amount) w2

      unread : fees_read w1 ≡ fees_read w
      unread = bank.committed-moved w.db _ _ _ _ _

      enough : leb amount (fees_read w) ≡ true
      enough = ground (arith, in_fees)

  -- On a host that is a journal with balances, whose reads see what was committed, and on a writable
  -- world: of two payments to others than the funds pool, which the balance of the pool covers together
  -- and the stored fees each, both return, and take both amounts from the pool; the fees that are
  -- returned, and that a commit then leaves, are the stored ones less the second amount alone.
  pub transfer_from_l1_fees_available_twice :
      (first second a b : ℕ) (w : World h)
      → IsWritable w
      → first ≢ l1_pricer_funds_pool_address
      → second ≢ l1_pricer_funds_pool_address
      → a + b ≤ pool_of w
      → a ≤ fees_read w
      → b ≤ fees_read w
      → Ends
          (transfer_from_l1_fees_available s first a >>= λ _.
            transfer_from_l1_fees_available s second b)
          w
          (λ left w'.
            (left ≡ fees_read w - b)
            × (fees_pending w' ≡ fees_read w - b)
            × (pool_of w' + (a + b) ≡ pool_of w))
  transfer_from_l1_fees_available_twice first second a b w p other1 other2 covered in1 in2 =
      let one = pay_once first a w p other1 (omega (arith, covered)) in1 in
      let w1 = one.after in
      let two =
        pay_once second b w1 one.left_with.writable other2
          (omega (arith, one.left_with.pool, covered))
          (omega (arith, one.left_with.same_read, in2)) in
      record {
        result = two.result;
        after = two.after;
        returned =
            bind-ok (transfer_from_l1_fees_available s first a) _ w one.returned ∙ two.returned;
        left_with = (
          omega (arith, two.left_with.answer, one.left_with.same_read),
          omega (arith, two.left_with.stored, one.left_with.same_read),
          omega (arith, two.left_with.pool, one.left_with.pool, covered),
        );
      }
