-- ===== src/AddressSet.antt =====
-- The set of addresses: crates/arb-arbos/src/address_set.rs. Offset 0 of its storage is the size,
-- the members stand from offset 1 on, and a sub-storage maps a member to its offset. An address is a
-- number of 160 bits, and its key and its word are that number. `sz + 1` is 64-bit and wraps.
pub mod Model
pub mod Add
pub mod Swap
pub mod Clear
pub mod Move
pub mod Remove
pub mod Rectify
pub mod Uncommitted
pub mod Calls
pub mod Refine
pub mod Members
mod Tests
mod JournalTests
use arb_reth.Prelude.{
  ℕ, zero, suc, if◌then◌else◌, ◌+◌, ◌^◌, ◌%◌, Bool, true, false, Option, none, some, List, [], ◌∷◌,
  ◌==◌, ltb, leb, min, not, ◌&&◌,
}
use arb_reth.Host.{Host}
use arb_reth.World.{M, ◌>>=◌, ◌>>◌, pure, tick, crash, for_range, not_owner, correctly_mapped}
use arb_reth.Storage.Slot.{StorageSlot}
use arb_reth.Storage.Typed.{get_uint64, clear_uint64, increment, decrement, word_to_addr}
use arb_reth.Storage.Space.{
  Storage, open_slot, open_sub_storage, read_slot, write_slot, get_by_key, set_by_key, clear_by_key,
  get_uint64_by_key, set_uint64_by_uint64,
}

pub record AddressSet : Type 0 where
  pub backing_storage : Storage
  pub size : StorageSlot
  pub by_address : Storage

abbrev pub addr_to_key : ℕ → ℕ
addr_to_key addr = addr

abbrev pub addr_to_value : ℕ → ℕ
addr_to_value addr = addr_to_key addr

abbrev pub raw_to_addr : ℕ → ℕ
raw_to_addr raw = word_to_addr raw

module _ ⦃h : Host⦄ where
  -- `AddressSet::new`.
  abbrev pub open_set : Storage → AddressSet
  open_set sto = record {
    backing_storage = sto;
    size = open_slot sto 0;
    by_address = open_sub_storage sto (0 ∷ []);
  }

  unfoldable pub initialize : Storage → M (Unit {0})
  initialize sto = set_uint64_by_uint64 sto 0 0

  unfoldable pub size_of : AddressSet → M ℕ
  size_of s = get_uint64 s.size

  unfoldable pub is_member : AddressSet → ℕ → M Bool
  is_member s addr = do value ← get_by_key s.by_address (addr_to_key addr); pure (not (value == 0))

  -- The part of `get_any_member` behind its test of the size.
  unfoldable pub any_member_if : AddressSet → Bool → M (Option ℕ)
  any_member_if s true = pure none
  any_member_if s false = do
    raw ← read_slot s.backing_storage 1
    pure (if raw == 0 then none else some (raw_to_addr raw))

  unfoldable pub get_any_member : AddressSet → M (Option ℕ)
  unfolding any_member_if
  get_any_member s = do sz ← get_uint64 s.size; any_member_if s (sz == 0)

  -- One round of `clear`.
  unfoldable pub clear_entry : AddressSet → ℕ → M (Unit {0})
  clear_entry s i = do
    contents ← read_slot s.backing_storage i
    write_slot s.backing_storage i 0
    clear_by_key s.by_address contents

  -- The part of `clear` behind its test of the size.
  unfoldable pub clear_if : AddressSet → ℕ → Bool → M (Unit {0})
  clear_if s sz true = tick
  clear_if s sz false = do for_range (clear_entry s) sz 1; clear_uint64 s.size

  unfoldable pub clear : AddressSet → M (Unit {0})
  clear s = do sz ← get_uint64 s.size; clear_if s sz (sz == 0)

  -- The rounds left of the loop of `all_members`, from the index `i` on.
  unfoldable pub members_from : AddressSet → ℕ → ℕ → M (List ℕ)
  members_from s zero i = pure []
  members_from s (suc left) i = do
    raw ← read_slot s.backing_storage (i + 1)
    rest ← members_from s left (i + 1)
    pure (raw_to_addr raw ∷ rest)

  unfoldable pub all_members : AddressSet → ℕ → M (List ℕ)
  all_members s max = do sz ← get_uint64 s.size; members_from s (min sz max) 0

  -- The part of `clear_list` behind its test of the size.
  unfoldable pub clear_list_if : AddressSet → ℕ → Bool → M (Unit {0})
  clear_list_if s sz true = tick
  clear_list_if s sz false = do
    for_range (λ i. write_slot s.backing_storage i 0) sz 1
    clear_uint64 s.size

  unfoldable pub clear_list : AddressSet → M (Unit {0})
  clear_list s = do sz ← get_uint64 s.size; clear_list_if s sz (sz == 0)

  -- The part of `add` behind its test of membership.
  unfoldable pub add_if : AddressSet → ℕ → Bool → M (Unit {0})
  add_if s addr true = tick
  add_if s addr false = do
    sz ← get_uint64 s.size
    let slot = (sz + 1) % 2 ^ 64
    set_by_key s.by_address (addr_to_key addr) slot
    write_slot s.backing_storage slot (addr_to_value addr)
    _ ← increment s.size
    tick

  unfoldable pub add : AddressSet → ℕ → M (Unit {0})
  add s addr = do member ← is_member s addr; add_if s addr member

  -- The part of `rectify_mapping` behind its test of membership.
  unfoldable pub rectify_if : AddressSet → ℕ → Bool → M (Unit {0})
  rectify_if s addr false = crash not_owner
  rectify_if s addr true = do
    slot ← get_uint64_by_key s.by_address (addr_to_key addr)
    at_slot ← read_slot s.backing_storage slot
    sz ← get_uint64 s.size
    if at_slot == addr_to_value addr && leb slot sz
        then crash correctly_mapped
        else do clear_by_key s.by_address (addr_to_key addr); add s addr

  unfoldable pub rectify_mapping : AddressSet → ℕ → M (Unit {0})
  rectify_mapping s addr = do member ← is_member s addr; rectify_if s addr member

  -- The move of the last member into the slot that `remove` empties.
  unfoldable pub move_last : AddressSet → ℕ → ℕ → ℕ → M (Unit {0})
  move_last s slot sz arbos_version = do
    at_size ← read_slot s.backing_storage sz
    write_slot s.backing_storage slot at_size
    if leb 11 arbos_version then set_by_key s.by_address at_size slot else tick

  -- The part of `remove` behind its test of the slot.
  unfoldable pub remove_if : AddressSet → ℕ → ℕ → ℕ → Bool → M (Unit {0})
  remove_if s addr arbos_version slot true = tick
  remove_if s addr arbos_version slot false = do
    clear_by_key s.by_address (addr_to_key addr)
    sz ← get_uint64 s.size
    if ltb slot sz then move_last s slot sz arbos_version else tick
    write_slot s.backing_storage sz 0
    _ ← decrement s.size
    tick

  unfoldable pub remove : AddressSet → ℕ → ℕ → M (Unit {0})
  remove s addr arbos_version = do
    slot ← get_uint64_by_key s.by_address (addr_to_key addr)
    remove_if s addr arbos_version slot (slot == 0)
