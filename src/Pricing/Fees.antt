-- ===== src/Pricing/Fees.antt =====
-- The base fees by kind: crates/arb-arbos/src/l2pricing/multi_gas_fees.rs. Offsets 0 to 7 of the
-- storage hold the next block's fees, 8 to 15 the current block's. An array of slots is a function
-- on its indices.
pub mod Commit
use arb_reth.Prelude.{ℕ, ◌+◌}
use arb_reth.Prelude.Int.{ℤ}
use arb_reth.Host.{Host}
use arb_reth.MultiGas.{ResourceKind, count, index}
use arb_reth.World.{M, ◌>>=◌, for_range}
use arb_reth.Storage.Slot.{StorageSlot}
use arb_reth.Storage.Typed.{get_big_int, set_big_int}
use arb_reth.Storage.Space.{Storage, open_slot}

pub record MultiGasFees : Type 0 where
  pub next : ℕ → StorageSlot
  pub current : ℕ → StorageSlot

module _ ⦃h : Host⦄ where
  abbrev pub open_fees : Storage → MultiGasFees
  open_fees sto = record { next = λ i. open_slot sto i; current = λ i. open_slot sto (count + i) }

  unfoldable pub get_current_block_fee : MultiGasFees → ResourceKind → M ℤ
  get_current_block_fee f kind = get_big_int (f.current (index kind))

  unfoldable pub get_next_block_fee : MultiGasFees → ResourceKind → M ℤ
  get_next_block_fee f kind = get_big_int (f.next (index kind))

  unfoldable pub set_next_block_fee : MultiGasFees → ResourceKind → ℤ → M (Unit {0})
  set_next_block_fee f kind v = set_big_int (f.next (index kind)) v

  -- One round of `commit_next_to_current`.
  unfoldable pub commit_kind : MultiGasFees → ℕ → M (Unit {0})
  commit_kind f i = do val ← get_big_int (f.next i); set_big_int (f.current i) val

  unfoldable pub commit_next_to_current : MultiGasFees → M (Unit {0})
  commit_next_to_current f = for_range (commit_kind f) count 0
