-- ===== src/Pricing/JournalTests.antt =====
-- The conversion of the old parameters on a host that is a journal.
use arb_reth.Pricing.{L2PricingState, open_pricing}
use arb_reth.TestJournal.{journal_host, journal_storage}

abbrev test_pricing : L2PricingState
test_pricing = open_pricing journal_storage 50
