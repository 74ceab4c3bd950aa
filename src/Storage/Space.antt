-- ===== src/Storage/Space.antt =====
-- `Storage`: a hashed address space of an account, its charged and its uncharged calls.
-- `storage_key` is the bytes that are hashed in front of an offset; `cached_keccak` is the hash.
pub mod Keys
pub mod Laws
pub mod Cells
use arb_reth.Prelude.{ℕ, List, [], ◌∷◌, ◌++◌, leb, if◌then◌else◌, take, drop, u64_max, ◌==◌}
use arb_reth.Bytes.{to_be_bytes, from_be_bytes}
use arb_reth.Host.{Host}
use arb_reth.MultiGas.{storage_access}
use arb_reth.World.{M, ◌>>=◌, ◌>>◌, pure, crash, invalid_value, charge, read, write, deny_read_only}
use arb_reth.Storage.Slot.{StorageSlot, write_cost}

pub record Storage : Type 0 where
  pub account : ℕ
  pub storage_key : List ℕ

module _ ⦃h : Host⦄ where
  -- `cached_keccak(&[a, b])`.
  abbrev pub hash_pair : List ℕ → List ℕ → List ℕ
  hash_pair a b = h.keccak256 (a ++ b)

  -- The slot of a 32-byte key: 31 bytes of the hash of the key's first 31, then its last byte.
  unfoldable pub map_address_by_key : Storage → ℕ → ℕ
  map_address_by_key sto key =
      let key_bytes = to_be_bytes 32 key in
      from_be_bytes (take 31 (hash_pair sto.storage_key (take 31 key_bytes)) ++ drop 31 key_bytes)

  unfoldable pub map_address : Storage → ℕ → ℕ
  map_address sto offset =
      let key_bytes = to_be_bytes 32 offset in
      from_be_bytes (take 31 (hash_pair sto.storage_key (take 31 key_bytes)) ++ drop 31 key_bytes)

  unfoldable pub read_slot : Storage → ℕ → M ℕ
  read_slot sto offset = read sto.account (map_address sto offset)

  unfoldable pub write_slot : Storage → ℕ → ℕ → M (Unit {0})
  write_slot sto offset value = write sto.account (map_address sto offset) value

  unfoldable pub get_by_key : Storage → ℕ → M ℕ
  get_by_key sto key = read sto.account (map_address_by_key sto key)

  unfoldable pub set_by_key : Storage → ℕ → ℕ → M (Unit {0})
  set_by_key sto key value = write sto.account (map_address_by_key sto key) value

  unfoldable pub clear_by_key : Storage → ℕ → M (Unit {0})
  unfolding set_by_key
  clear_by_key sto key = set_by_key sto key 0

  -- `val.to::<u64>()` panics on a value that does not fit.
  unfoldable pub get_uint64_by_key : Storage → ℕ → M ℕ
  unfolding get_by_key
  get_uint64_by_key sto key = do
    val ← get_by_key sto key
    if leb val u64_max then pure val else crash invalid_value

  unfoldable pub get_by_uint64 : Storage → ℕ → M ℕ
  unfolding get_by_key
  get_by_uint64 sto key = get_by_key sto key

  unfoldable pub get_uint64_by_uint64 : Storage → ℕ → M ℕ
  unfolding get_uint64_by_key
  get_uint64_by_uint64 sto key = get_uint64_by_key sto key

  -- `Storage::set`, charged and refused on a read-only burner.
  unfoldable pub set : Storage → ℕ → ℕ → M (Unit {0})
  unfolding set_by_key
  set sto key value = do
    deny_read_only
    charge storage_access (write_cost value)
    set_by_key sto key value

  unfoldable pub set_uint64 : Storage → ℕ → ℕ → M (Unit {0})
  unfolding set
  set_uint64 sto key value = set sto key value

  unfoldable pub set_by_uint64 : Storage → ℕ → ℕ → M (Unit {0})
  unfolding set
  set_by_uint64 sto key value = set sto key value

  unfoldable pub set_uint64_by_uint64 : Storage → ℕ → ℕ → M (Unit {0})
  unfolding set
  set_uint64_by_uint64 sto key value = set sto key value

  unfoldable pub set_uint32 : Storage → ℕ → ℕ → M (Unit {0})
  unfolding set
  set_uint32 sto key value = set sto key value

  unfoldable pub set_by_uint32 : Storage → ℕ → ℕ → M (Unit {0})
  unfolding set
  set_by_uint32 sto key value = set sto key value

  unfoldable pub clear : Storage → ℕ → M (Unit {0})
  unfolding set
  clear sto key = set sto key 0

  unfoldable pub clear_by_uint64 : Storage → ℕ → M (Unit {0})
  unfolding set
  clear_by_uint64 sto key = set sto key 0

  -- Stores a value and returns the one before.
  unfoldable pub swap : Storage → ℕ → ℕ → M ℕ
  unfolding get_by_key set
  swap sto key new_value = do old ← get_by_key sto key; set sto key new_value; pure old

  -- `open_cached_sub_storage`: the sub-storage hashes by way of the shared cache, which gives the
  -- same hashes.
  unfoldable pub open_cached_sub_storage : Storage → List ℕ → Storage
  open_cached_sub_storage sto id = record {
    account = sto.account;
    storage_key = hash_pair sto.storage_key id;
  }

  -- `open_sub_storage`, and `open_cached_sub_storage` with the hash cache.
  unfoldable pub open_sub_storage : Storage → List ℕ → Storage
  open_sub_storage sto id = record {
    account = sto.account;
    storage_key = hash_pair sto.storage_key id;
  }

  -- `open_storage_backed_uint64` and its siblings, one for each type of slot.
  unfoldable pub open_slot : Storage → ℕ → StorageSlot
  open_slot sto offset = record { account = sto.account; slot = map_address sto offset }
