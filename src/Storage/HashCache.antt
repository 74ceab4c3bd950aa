-- ===== src/Storage/HashCache.antt =====
-- The cache of hashes that `Storage::cached_keccak` shares: crates/arb-arbos/src/storage/storage.rs.
-- The map of the crate `lru` is a parameter.
pub mod Transparent
mod Tests
use arb_reth.Prelude.{
  ℕ, ◌+◌, Bool, true, false, Option, none, some, List, [], ◌∷◌, ◌++◌, ◌&&◌, not, if◌then◌else◌,
}
use arb_reth.Host.{Host}

-- `lru::LruCache` from bytes to bytes. `get` may promote an entry, so it returns a new cache; `push`
-- returns the entry that it evicts or replaces.
pub record LruCache : Type 1 where
  pub Cache : Type 0
  pub get : Cache → List ℕ → Option (List ℕ) × Cache
  pub push : Cache → List ℕ → List ℕ → Option (List ℕ × List ℕ) × Cache

-- `STORAGE_HASH_CACHE` and `CACHE_FULL_LOGGED`, and how often the message was written.
pub record HashCache (c : LruCache) : Type 0 where
  pub cache : c.Cache
  pub cache_full_logged : Bool
  pub messages : ℕ

-- The bytes of the slices, one after another.
abbrev pub concat : List (List ℕ) → List ℕ
concat [] = []
concat (slice ∷ slices) = slice ++ concat slices

module _ ⦃h : Host⦄ (c : LruCache) where
  -- What follows a push: the message, the first time that an entry is evicted.
  abbrev pub after_push : HashCache c → Option (List ℕ × List ℕ) × c.Cache → HashCache c
  after_push s (none, cache) = record s { cache = cache }
  after_push s (some evicted, cache) = record {
    cache = cache;
    cache_full_logged = true;
    messages = if s.cache_full_logged then s.messages else s.messages + 1;
  }

  -- The part behind the lookup, whose result is given.
  unfoldable pub keccak_if : HashCache c → List ℕ → Option (List ℕ) × c.Cache → List ℕ × HashCache c
  keccak_if s input (some cached, cache) = (cached, record s { cache = cache })
  keccak_if s input (none, cache) =
      let hash = h.keccak256 input in
      (hash, after_push (record s { cache = cache }) (c.push cache input hash))

  -- The hash of the slices, on a storage with the cache or without it.
  unfoldable pub cached_keccak : Bool → HashCache c → List (List ℕ) → List ℕ × HashCache c
  cached_keccak false s slices = (h.keccak256 (concat slices), s)
  cached_keccak true s slices = keccak_if s (concat slices) (c.get s.cache (concat slices))
