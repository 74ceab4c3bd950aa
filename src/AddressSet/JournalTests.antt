-- ===== src/AddressSet/JournalTests.antt =====
-- `rectify_mapping` on a host that is a journal.
use arb_reth.Prelude.{ℕ, ◌≡◌, inr, arith, ◌==◌, ◌&&◌, if◌then◌else◌}
use arb_reth.World.Loop.{Leaves}
use arb_reth.Storage.Slot.Journaled.{pending_in}
use arb_reth.Storage.Space.{map_address_by_key}
use arb_reth.AddressSet.{open_set, rectify_mapping}
use arb_reth.AddressSet.Model.{places}
use arb_reth.AddressSet.Uncommitted.{rectify_mapping_clears}
use arb_reth.TestJournal.{journal_host, test_journal, journal_storage, filled}

-- Every slot is one: a list of the member 1, and a mapping that has the place 1 for every address.
rectify_mapping_clears_example :
    Leaves (rectify_mapping (open_set journal_storage) 5) (filled 1) (λ w'.
      (b k : ℕ)
      → pending_in test_journal w' b k ≡ (
          if journal_storage.account == b && map_address_by_key (places journal_storage) 5 == k
          then 0
          else 1))
rectify_mapping_clears_example =
    rectify_mapping_clears test_journal journal_storage 5 (filled 1) (omega arith) (omega arith)
      (omega arith) (inr (omega arith))
