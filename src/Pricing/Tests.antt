-- ===== src/Pricing/Tests.antt =====
-- The theorems on the L2 price at a concrete host.
use arb_reth.Prelude.{◌^◌, ◌<◌, refl, ℕ, arith}
use arb_reth.World.Loop.{Leaves}
use arb_reth.Storage.Slot.{value}
use arb_reth.Storage.Space.Laws.{cell}
use arb_reth.Pricing.{initialize}
use arb_reth.Pricing.Start.{Initialized, initialize-Initialized}
use arb_reth.Pricing.Fees.{open_fees, commit_next_to_current}
use arb_reth.Pricing.Fees.Commit.{Committed, commit_next_to_current_lem}
use arb_reth.TestHost.{test_host, test_store, blank, test_storage, test_free}

blank_words : (i : ℕ) → cell test_store blank test_storage i < 2 ^ 256
unfolding value
blank_words i = omega arith

commit_next_to_current_lem_example :
    Leaves
      (commit_next_to_current (open_fees test_storage))
      blank
      (Committed test_store test_storage (test_free test_storage) blank)
commit_next_to_current_lem_example =
    commit_next_to_current_lem test_store test_storage (test_free test_storage) blank refl
      blank_words

initialize-Initialized_example :
    Leaves
      (initialize test_storage)
      blank
      (Initialized test_store test_storage (test_free test_storage) 30)
initialize-Initialized_example =
    initialize-Initialized test_store test_storage (test_free test_storage) blank 30 refl
