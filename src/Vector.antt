-- ===== src/Vector.antt =====
-- The vector of sub-storages: crates/arb-arbos/src/storage/vector.rs. Offset 0 of its storage is the
-- length, and the element of an index is the sub-storage of the index as 8 bytes. `length + 1` is
-- 64-bit and wraps.
pub mod Laws
mod Tests
use arb_reth.Prelude.{ℕ, ◌+◌, ◌-◌, ◌^◌, ◌%◌, Bool, true, false, ◌==◌}
use arb_reth.Bytes.{to_be_bytes}
use arb_reth.Host.{Host}
use arb_reth.World.{M, ◌>>=◌, ◌>>◌, pure, crash, pop_empty}
use arb_reth.Storage.Slot.{StorageSlot}
use arb_reth.Storage.Typed.{get_uint64, set_uint64}
use arb_reth.Storage.Space.{Storage, open_sub_storage, open_slot}

pub record SubStorageVector : Type 0 where
  pub storage : Storage
  pub length : StorageSlot

module _ ⦃h : Host⦄ where
  -- `SubStorageVector::open`; the storage is without the hash cache.
  abbrev pub open_vector : Storage → SubStorageVector
  open_vector sto = record { storage = sto; length = open_slot sto 0 }

  unfoldable pub length_of : SubStorageVector → M ℕ
  length_of v = get_uint64 v.length

  abbrev pub at : SubStorageVector → ℕ → Storage
  at v i = open_sub_storage v.storage (to_be_bytes 8 i)

  unfoldable pub push : SubStorageVector → M Storage
  push v = do
    length ← get_uint64 v.length
    set_uint64 v.length ((length + 1) % 2 ^ 64)
    pure (open_sub_storage v.storage (to_be_bytes 8 length))

  -- The part of `pop` behind its read of the length.
  unfoldable pub pop_if : SubStorageVector → ℕ → Bool → M Storage
  pop_if v length true = crash pop_empty
  pop_if v length false = do
    set_uint64 v.length (length - 1)
    pure (open_sub_storage v.storage (to_be_bytes 8 (length - 1)))

  unfoldable pub pop : SubStorageVector → M Storage
  unfolding pop_if
  pop v = do length ← get_uint64 v.length; pop_if v length (length == 0)
