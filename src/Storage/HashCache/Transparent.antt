-- ===== src/Storage/HashCache/Transparent.antt =====
-- The cache of hashes does not change a hash, and reports once that it is full.
use arb_reth.Prelude.{
  ℕ, ◌⊎◌, ◌+◌, ◌≤◌, ◌≡◌, refl, sym, ◌∙◌, ap, ap₂, arith, Bool, true, false, Option, none, some,
  List, [], ◌∷◌, ◌++◌, inl, inr, if◌then◌else◌,
}
use mathlib.Core.List.{append-nil}
use arb_reth.Host.{Host}
use arb_reth.Storage.Space.{hash_pair}
use arb_reth.Storage.HashCache.{LruCache, HashCache, concat, after_push, keccak_if, cached_keccak}

-- An entry of a cache is one that was pushed: a lookup returns an entry and adds none, and a push adds
-- only its own.
pub record IsLru (c : LruCache) : Type 1 where
  pub Stored : c.Cache → List ℕ → List ℕ → Type 0
  pub get_stored : (s : c.Cache) (k v : List ℕ) → (c.get s k).0 ≡ some v → Stored s k v
  pub get_keeps : (s : c.Cache) (k k' v : List ℕ) → Stored (c.get s k).1 k' v → Stored s k' v
  pub push_keeps :
      (s : c.Cache) (k v k' v' : List ℕ)
      → Stored (c.push s k v).1 k' v'
      → ((k' ≡ k) × (v' ≡ v)) ⊎ Stored s k' v'

module _ ⦃h : Host⦄ (c : LruCache) (lru : IsLru c) where
  -- Every entry of the cache is a hash.
  abbrev pub Holds : c.Cache → Type 0
  Holds s = (k v : List ℕ) → lru.Stored s k v → v ≡ h.keccak256 k

  -- ... and the message was written once if it was logged, and else not.
  pub record IsRight (s : HashCache c) : Type 0 where
    pub hashes : Holds s.cache
    pub counted : s.messages ≡ (if s.cache_full_logged then 1 else 0)

  -- Some calls, each with its slices and whether its storage has the cache.
  abbrev pub hash_all : HashCache c → List (Bool × List (List ℕ)) → List (List ℕ) × HashCache c
  hash_all s [] = ([], s)
  hash_all s (call ∷ calls) =
      let r = cached_keccak c call.0 s call.1 in
      let rest = hash_all r.1 calls in (r.0 ∷ rest.0, rest.1)

  -- The hashes, without a cache.
  abbrev pub hashes_of : List (Bool × List (List ℕ)) → List (List ℕ)
  hashes_of [] = []
  hashes_of (call ∷ calls) = h.keccak256 (concat call.1) ∷ hashes_of calls

  after_push-IsRight :
      (s : HashCache c) (r : Option (List ℕ × List ℕ) × c.Cache)
      → IsRight s
      → Holds r.1
      → IsRight (after_push c s r)
  after_push-IsRight s (none, cache) p q = record { hashes = q; counted = p.counted }
  after_push-IsRight s (some evicted, cache) p q = record {
    hashes = q;
    counted = once s.cache_full_logged p.counted;
  }
    where
      once :
          (b : Bool)
          → s.messages ≡ (if b then 1 else 0)
          → (if b then s.messages else s.messages + 1) ≡ 1
      once true e = e
      once false e = omega (arith, e)

  keccak_if-IsRight :
      (s : HashCache c) (input : List ℕ) (found : Option (List ℕ) × c.Cache)
      → IsRight s
      → Holds found.1
      → ((v : List ℕ) → found.0 ≡ some v → v ≡ h.keccak256 input)
      → ((keccak_if c s input found).0 ≡ h.keccak256 input) × IsRight (keccak_if c s input found).1
  unfolding keccak_if
  keccak_if-IsRight s input (some v, cache) p q known =
      (known v refl, record { hashes = q; counted = p.counted })
  keccak_if-IsRight s input (none, cache) p q known = (
    refl,
    after_push-IsRight (record s { cache = cache }) (c.push cache input (h.keccak256 input))
        (record { hashes = q; counted = p.counted }) pushed,
  )
    where
      pushed : Holds (c.push cache input (h.keccak256 input)).1
      pushed k v stored = elim (lru.push_keeps cache input (h.keccak256 input) k v stored) [
        | inl e ↦ e.1 ∙ ap h.keccak256 (sym e.0)
        | inr old ↦ q k v old
      ]

  cached_keccak-IsRight :
      (caching : Bool) (s : HashCache c) (slices : List (List ℕ))
      → IsRight s
      → ((cached_keccak c caching s slices).0 ≡ h.keccak256 (concat slices))
        × IsRight (cached_keccak c caching s slices).1
  unfolding cached_keccak
  cached_keccak-IsRight false s slices p = (refl, p)
  cached_keccak-IsRight true s slices p =
      keccak_if-IsRight s (concat slices) (c.get s.cache (concat slices)) p
        (λ k v stored. p.hashes k v (lru.get_keeps s.cache (concat slices) k v stored))
        (λ v e. p.hashes (concat slices) v (lru.get_stored s.cache (concat slices) v e))

  -- The hash of two slices is the one that the addresses of slots and sub-storages use.
  pub concat-hash_pair : (a b : List ℕ) → h.keccak256 (concat (a ∷ b ∷ [])) ≡ hash_pair a b
  concat-hash_pair a b = ap (λ x. h.keccak256 (a ++ x)) (append-nil b)

  most : (n : ℕ) (b : Bool) → n ≡ (if b then 1 else 0) → n ≤ 1
  most n true e = omega (arith, e)
  most n false e = omega (arith, e)

  -- For a cache whose entries are those that were pushed, and which starts with hashes only: any calls
  -- of `cached_keccak`, on storages with the cache or without it, return the hashes of their slices,
  -- leave hashes only in the cache, and have reported at most once that it is full.
  pub cached_keccak-transparent :
      (s : HashCache c) (calls : List (Bool × List (List ℕ)))
      → IsRight s
      → ((hash_all s calls).0 ≡ hashes_of calls)
        × IsRight (hash_all s calls).1
        × ((hash_all s calls).1.messages ≤ 1)
  cached_keccak-transparent s [] p = (refl, p, most s.messages s.cache_full_logged p.counted)
  cached_keccak-transparent s (call ∷ calls) p =
      let r = cached_keccak-IsRight call.0 s call.1 p in
      let rest = cached_keccak-transparent (cached_keccak c call.0 s call.1).1 calls r.1 in
      (ap₂ (λ x xs. x ∷ xs) r.0 rest.0, rest.1, rest.2)
