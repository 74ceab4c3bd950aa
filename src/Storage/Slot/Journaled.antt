-- ===== src/Storage/Slot/Journaled.antt =====
-- Reads and writes on a host that is a journal, whose reads see what was committed.
use arb_reth.Prelude.{ℕ, ◌≡◌, refl, arith}
use arb_reth.Host.{Host, IsJournal}
use arb_reth.Burn
use arb_reth.MultiGas.{storage_access}
use arb_reth.World.{World, ok, read, write, storage_set}
use arb_reth.Burn.{is_before_evm}
use arb_reth.Storage.Slot.{StorageSlot, get, set, after_get, emitted, write_cost, IsWritable}

module _ ⦃h : Host⦄ (j : IsJournal h) where
  -- What a read of a slot sees.
  abbrev pub committed_in : World h → ℕ → ℕ → ℕ
  committed_in w account slot = j.committed w.db account slot

  -- What a slot holds once the call is committed.
  abbrev pub pending_in : World h → ℕ → ℕ → ℕ
  pending_in w account slot = j.pending w.db account slot

  abbrev pub with_put : StorageSlot → ℕ → World h → World h
  with_put s v w = record {
    db = j.write w.db s.account s.slot v;
    burner = Burn.burn storage_access (write_cost v) w.burner;
    events = emitted (λ info. storage_set s.slot v info.depth (is_before_evm info.scenario)) w;
  }

  pub read_committed :
      (account slot : ℕ) (w : World h) → read account slot w ≡ ok (committed_in w account slot) w
  read_committed account slot w = rw (j.storage_done w.db account slot, read) refl

  pub write_pending :
      (account slot v : ℕ) (w : World h)
      → write account slot v w ≡ ok tt (record w { db = j.write w.db account slot v })
  write_pending account slot v w = rw (j.sstore_done w.db account slot v, write) refl

  pub get_committed :
      (s : StorageSlot) (w : World h)
      → get s w ≡ ok (committed_in w s.account s.slot) (after_get s w)
  unfolding get after_get Burn.burn
  get_committed s w = ground (arith, j.storage_done w.db s.account s.slot)

  pub set_pending :
      (s : StorageSlot) (v : ℕ) (w : World h) → IsWritable w → set s v w ≡ ok tt (with_put s v w)
  unfolding set Burn.burn
  set_pending s v w p = rw (p, set) (ground (arith, j.sstore_done w.db s.account s.slot v))
