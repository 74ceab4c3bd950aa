-- ===== src/L1Pricing/JournalTests.antt =====
-- Two payments of the L1 price on a host that is a journal.
use arb_reth.Prelude.{◌-◌, ◌+◌, ◌≡◌, refl, arith}
use arb_reth.World.{◌>>=◌}
use arb_reth.World.Ends.{Ends}
use arb_reth.L1Pricing.{L1PricingState, open_l1_pricing_state, transfer_from_l1_fees_available}
use arb_reth.L1Pricing.Uncommitted.{
  fees_read, fees_pending, pool_of, transfer_from_l1_fees_available_twice,
}
use arb_reth.TestJournal.{journal_host, test_journal, journal_balances, journal_storage, filled}

abbrev test_pricing : L1PricingState
test_pricing = open_l1_pricing_state journal_storage 11

-- The pool has 1000, which are the stored fees: 600 and 400 are paid, and the fees that are left are
-- 600 of a pool that is empty.
transfer_from_l1_fees_available_twice_example :
    Ends
      (transfer_from_l1_fees_available test_pricing 77 600 >>= λ _.
        transfer_from_l1_fees_available test_pricing 78 400)
      (filled 1000)
      (λ left w'.
        (left ≡ fees_read test_journal journal_balances test_pricing (filled 1000) - 400)
        × (fees_pending test_journal journal_balances test_pricing w'
            ≡ fees_read test_journal journal_balances test_pricing (filled 1000) - 400)
        × (pool_of test_journal journal_balances test_pricing w' + (600 + 400)
            ≡ pool_of test_journal journal_balances test_pricing (filled 1000)))
transfer_from_l1_fees_available_twice_example =
    transfer_from_l1_fees_available_twice test_journal journal_balances test_pricing 77 78 600 400
      (filled 1000) refl (omega arith) (omega arith) (omega arith) (omega arith) (omega arith)
