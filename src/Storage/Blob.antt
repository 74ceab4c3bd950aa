-- ===== src/Storage/Blob.antt =====
-- `StorageBackedBytes` and the calls of `Storage` behind it: bytes in a sub-storage, their number at
-- offset 0 and the bytes from offset 1 on, 32 to a word. A loop has as much fuel as there are bytes,
-- and takes at least one of them a round.
pub mod Chunks
pub mod Laws
use arb_reth.Prelude.{
  ℕ, zero, suc, ◌+◌, ◌-◌, List, [], ◌∷◌, ◌++◌, leb, ltb, if◌then◌else◌, take, drop, length, u64_max,
  saturating_sub,
}
use arb_reth.Bytes.{to_be_bytes, from_be_bytes}
use arb_reth.Host.{Host}
use arb_reth.World.{M, ◌>>=◌, ◌>>◌, pure, tick, crash, invalid_length}
use arb_reth.Storage.Space.{Storage, read_slot, write_slot, open_sub_storage}

-- A number of zero bytes.
unfoldable pub zeros : ℕ → List ℕ
zeros zero = []
zeros (suc n) = 0 ∷ zeros n

module _ ⦃h : Host⦄ where
  -- `open_storage_backed_bytes`.
  abbrev pub open_bytes : Storage → List ℕ → Storage
  open_bytes sto id = open_sub_storage sto id

  -- `StorageBackedBytes::size`.
  unfoldable pub get_bytes_size : Storage → M ℕ
  get_bytes_size sto = do
    raw ← read_slot sto 0
    if leb raw u64_max then pure raw else crash invalid_length

  -- The loop of `get_bytes` and the read of the last bytes behind it.
  unfoldable pub read_chunks : Storage → ℕ → ℕ → ℕ → M (List ℕ)
  read_chunks sto zero bytes_left offset = pure []
  read_chunks sto (suc fuel) bytes_left offset =
      if leb 32 bytes_left
      then (read_slot sto offset >>= λ raw.
          read_chunks sto fuel (bytes_left - 32) (offset + 1) >>= λ rest.
          pure (to_be_bytes 32 raw ++ rest))
      else if ltb 0 bytes_left
      then (read_slot sto offset >>= λ raw. pure (drop (32 - bytes_left) (to_be_bytes 32 raw)))
      else pure []

  -- `StorageBackedBytes::get`.
  unfoldable pub get_bytes : Storage → M (List ℕ)
  get_bytes sto = do bytes_left ← get_bytes_size sto; read_chunks sto bytes_left bytes_left 1

  -- The loop of `clear_bytes`.
  unfoldable pub clear_chunks : Storage → ℕ → ℕ → ℕ → M (Unit {0})
  clear_chunks sto zero bytes_left offset = tick
  clear_chunks sto (suc fuel) bytes_left offset =
      if ltb 0 bytes_left
      then (write_slot sto offset 0
          >> clear_chunks sto fuel (saturating_sub bytes_left 32) (offset + 1))
      else tick

  -- `StorageBackedBytes::clear`.
  unfoldable pub clear_bytes : Storage → M (Unit {0})
  clear_bytes sto = do
    bytes_left ← get_bytes_size sto
    clear_chunks sto bytes_left bytes_left 1
    write_slot sto 0 0

  -- The loop of `set_bytes` and the write of the last bytes behind it.
  unfoldable pub write_chunks : Storage → ℕ → List ℕ → ℕ → M (Unit {0})
  write_chunks sto zero remaining offset = tick
  write_chunks sto (suc fuel) remaining offset =
      if leb 32 (length remaining)
      then (write_slot sto offset (from_be_bytes (take 32 remaining))
          >> write_chunks sto fuel (drop 32 remaining) (offset + 1))
      else if ltb 0 (length remaining)
      then write_slot sto offset (from_be_bytes (zeros (32 - length remaining) ++ remaining))
      else tick

  -- `StorageBackedBytes::set`.
  unfoldable pub set_bytes : Storage → List ℕ → M (Unit {0})
  set_bytes sto b = do clear_bytes sto; write_slot sto 0 (length b); write_chunks sto (length b) b 1

  -- `StorageBackedBytes` is a sub-storage, and its calls are those of the sub-storage.
  unfoldable pub backed_size : Storage → M ℕ
  unfolding get_bytes_size
  backed_size bytes = get_bytes_size bytes

  unfoldable pub backed_get : Storage → M (List ℕ)
  unfolding get_bytes
  backed_get bytes = get_bytes bytes

  unfoldable pub backed_clear : Storage → M (Unit {0})
  unfolding clear_bytes
  backed_clear bytes = clear_bytes bytes

  unfoldable pub backed_set : Storage → List ℕ → M (Unit {0})
  unfolding set_bytes
  backed_set bytes b = set_bytes bytes b
