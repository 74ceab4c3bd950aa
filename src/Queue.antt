-- ===== src/Queue.antt =====
-- The persistent queue: crates/arb-arbos/src/storage/queue.rs. Offset 0 of its storage is the
-- offset of the next put, offset 1 that of the next get, and the entries stand from offset 2 on.
-- `put - get` and `offset + index` are 64-bit and wrap. The closure of `for_each` is a function on
-- the state that it captures.
pub mod Order
pub mod Model
pub mod Steps
pub mod Take
pub mod Reset
pub mod Refine
pub mod Visit
mod Tests
use arb_reth.Prelude.{
  ℕ, zero, suc, ◌+◌, ◌-◌, ◌%◌, ◌^◌, Bool, true, false, Option, none, some, ◌==◌, if◌then◌else◌,
}
use arb_reth.Host.{Host}
use arb_reth.World.{M, ◌>>=◌, ◌>>◌, pure}
use arb_reth.Storage.Slot.{StorageSlot}
use arb_reth.Storage.Typed.{get_uint64, set_uint64, increment}
use arb_reth.Storage.Space.{
  Storage, get_by_uint64, set_by_uint64, set_uint64_by_uint64, swap, open_slot,
}

pub record Queue : Type 0 where
  pub storage : Storage
  pub next_put_offset : StorageSlot
  pub next_get_offset : StorageSlot

module _ ⦃h : Host⦄ where
  pub initialize : Storage → M (Unit {0})
  initialize sto = do set_uint64_by_uint64 sto 0 2; set_uint64_by_uint64 sto 1 2

  -- `Queue::open`.
  abbrev pub open_queue : Storage → Queue
  open_queue sto = record {
    storage = sto;
    next_put_offset = open_slot sto 0;
    next_get_offset = open_slot sto 1;
  }

  pub is_empty : Queue → M Bool
  is_empty q = do
    put ← get_uint64 q.next_put_offset
    get ← get_uint64 q.next_get_offset
    pure (put == get)

  pub size : Queue → M ℕ
  size q = do
    put ← get_uint64 q.next_put_offset
    get ← get_uint64 q.next_get_offset
    pure ((put + 2 ^ 64 - get) % 2 ^ 64)

  -- The part of `peek` behind its test.
  peek_if : Queue → Bool → M (Option ℕ)
  peek_if q true = pure none
  peek_if q false = do
    next ← get_uint64 q.next_get_offset
    res ← get_by_uint64 q.storage next
    pure (some res)

  pub peek : Queue → M (Option ℕ)
  unfolding is_empty peek_if
  peek q = do empty ← is_empty q; peek_if q empty

  -- The part of `get` behind its test.
  get_if : Queue → Bool → M (Option ℕ)
  get_if q true = pure none
  get_if q false = do
    new_offset ← increment q.next_get_offset
    res ← swap q.storage (new_offset - 1) 0
    pure (some res)

  pub get : Queue → M (Option ℕ)
  unfolding is_empty get_if
  get q = do empty ← is_empty q; get_if q empty

  pub put : Queue → ℕ → M (Unit {0})
  put q val = do
    new_offset ← increment q.next_put_offset
    set_by_uint64 q.storage (new_offset - 1) val

  -- The part of `shift` behind its test.
  shift_if : Queue → Bool → M Bool
  shift_if q false = pure false
  shift_if q true = do set_uint64 q.next_get_offset 2; set_uint64 q.next_put_offset 2; pure true

  pub shift : Queue → M Bool
  unfolding shift_if
  shift q = do
    put ← get_uint64 q.next_put_offset
    get ← get_uint64 q.next_get_offset
    shift_if q (put == get)

  module _ {S : Type 0} (closure : ℕ → ℕ → S → M (S × Bool)) where
    -- The rounds left of `for index in 0..size`, from `index` on.
    for_each_from : Queue → ℕ → ℕ → ℕ → S → M S
    for_each_from q offset zero index s = pure s
    for_each_from q offset (suc left) index s = do
      entry ← get_by_uint64 q.storage ((offset + index) % 2 ^ 64)
      r ← closure index entry s
      if r.1 then pure r.0 else for_each_from q offset left (index + 1) r.0

    pub for_each : Queue → S → M S
    unfolding for_each_from size
    for_each q s = do
      n ← size q
      offset ← get_uint64 q.next_get_offset
      for_each_from q offset n 0 s
