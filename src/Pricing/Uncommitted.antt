-- ===== src/Pricing/Uncommitted.antt =====
-- `set_gas_constraints_from_legacy` on a journal, whose reads do not see the writes before them.
use arb_reth.Prelude.{ℕ, ◌+◌, ◌<◌, ◌≡◌, u64_max}
use arb_reth.Host.{Host, IsJournal}
use arb_reth.World.{World}
use arb_reth.Storage.Slot.Journaled.{pending_in}
use arb_reth.Storage.Typed.Journaled.{committed_at, InCall}
use arb_reth.Pricing.{L2PricingState}

module _ ⦃h : Host⦄ (j : IsJournal h) (w0 : World h) where
  module _ (s : L2PricingState) (n : ℕ) (counted : committed_at j w0 s.gas_constraints.length ≡ n)
      (small : n < u64_max) where
    -- What a commit leaves as the length of the vector.
    abbrev pub length_pending : World h → ℕ
    length_pending w = pending_in j w s.gas_constraints.length.account s.gas_constraints.length.slot

    -- A write to a slot that is not that of the length keeps the length that is pending.
    record Counted (w : World h) : Type 0 where
      in_call : (InCall j w0) w
      length_is : length_pending w ≡ n + 1
