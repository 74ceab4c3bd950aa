-- ===== src/Storage/Typed/Journaled.antt =====
-- Typed reads and writes during a call on a host that is a journal.
use arb_reth.Prelude.{ℕ, ◌≤◌, ◌≡◌, ◌∙◌, arith, u64_max}
use arb_reth.Host.{Host, IsJournal}
use arb_reth.Burn
use arb_reth.World.{World, ok, bind-ok}
use arb_reth.World.Loop.{Leaves}
use arb_reth.Storage.Slot.{StorageSlot, get, set, after_get, IsWritable, after_get-IsWritable}
use arb_reth.Storage.Slot.Journaled.{committed_in, with_put, get_committed, set_pending}
use arb_reth.Storage.Typed.{get_uint64}

module _ ⦃h : Host⦄ (j : IsJournal h) (w0 : World h) where
  -- The value that a slot has had since the last commit.
  abbrev pub committed_at : StorageSlot → ℕ
  committed_at s = committed_in j w0 s.account s.slot

  -- A world of the call that began with `w0`: nothing more is committed, and it may be written.
  pub record InCall (w : World h) : Type 0 where
    pub same : (b k : ℕ) → committed_in j w b k ≡ committed_in j w0 b k
    pub writable : IsWritable w

  pub InCall-after_get : (s : StorageSlot) {w : World h} → InCall w → InCall (after_get s w)
  unfolding after_get
  InCall-after_get s {w} c = record {
    same = c.same;
    writable = after_get-IsWritable s w c.writable;
  }

  pub InCall-with_put :
      (s : StorageSlot) (v : ℕ) {w : World h} → InCall w → InCall (with_put j s v w)
  unfolding Burn.burn
  InCall-with_put s v {w} c = record {
    same = λ b k. j.committed-write w.db s.account s.slot v b k ∙ c.same b k;
    writable = c.writable;
  }

  pub get-InCall :
      (s : StorageSlot) {w : World h}
      → committed_at s ≤ u64_max
      → InCall w
      → get_uint64 s w ≡ ok (committed_at s) (after_get s w)
  unfolding get_uint64
  get-InCall s {w} small c =
      bind-ok (get s) _ w (get_committed j s w)
      ∙ rw (c.same s.account s.slot) (ground (arith, small))

  pub set-InCall : (s : StorageSlot) (v : ℕ) (w : World h) → InCall w → Leaves (set s v) w InCall
  set-InCall s v w c = record {
    after = with_put j s v w;
    returned = set_pending j s v w c.writable;
    left_with = InCall-with_put s v c;
  }
