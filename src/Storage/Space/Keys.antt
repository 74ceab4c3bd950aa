-- ===== src/Storage/Space/Keys.antt =====
-- Which offsets of a storage share a slot: `map_address` on pages of 256 offsets.
use arb_reth.Prelude.{
  ℕ, ◌+◌, ◌*◌, ◌/◌, ◌%◌, ◌^◌, ◌<◌, ◌≡◌, ◌≢◌, refl, ap, [], ◌∷◌, arith, take, take-length_append,
  drop-length_append,
}
use arb_reth.Bytes.{
  to_be_bytes, to_be_bytes-suc, from_be_bytes, length-to_be_bytes, to_be_bytes-suc,
  from_be_bytes-append_one,
}
use arb_reth.Host.{Host}
use arb_reth.Storage.Space.{Storage, map_address, map_address_by_key, hash_pair}

module _ ⦃h : Host⦄ where
  -- The number in the first 31 bytes of a page's hash.
  abbrev pub page_hash : Storage → ℕ → ℕ
  page_hash sto page = from_be_bytes (take 31 (hash_pair sto.storage_key (to_be_bytes 31 page)))

  -- An offset keeps its last byte, and its page is replaced by the page's hash.
  pub map_address-eq :
      (sto : Storage) (offset : ℕ)
      → map_address sto offset ≡ page_hash sto (offset / 256) * 256 + offset % 256
  unfolding map_address
  map_address-eq sto offset =
      rw
        (
          to_be_bytes-suc 31 offset,
          take-length_append (to_be_bytes 31 (offset / 256)) (offset % 256 ∷ []) 31
              (length-to_be_bytes 31 _),
          drop-length_append (to_be_bytes 31 (offset / 256)) (offset % 256 ∷ []) 31
              (length-to_be_bytes 31 _),
        )
        (from_be_bytes-append_one
          (take 31 (hash_pair sto.storage_key (to_be_bytes 31 (offset / 256)))) (offset % 256))

  pub map_address_by_key-eq-map_address :
      (sto : Storage) (key : ℕ) → map_address_by_key sto key ≡ map_address sto key
  unfolding map_address map_address_by_key
  map_address_by_key-eq-map_address sto key = refl

  -- The pages of the offsets below `2 ^ 64` have different hashes.
  abbrev pub NoPageCollision : Storage → Type 0
  NoPageCollision sto =
      (p q : ℕ) → p < 2 ^ 56 → q < 2 ^ 56 → page_hash sto p ≡ page_hash sto q → p ≡ q

  pub map_address-injective_on_page :
      (sto : Storage) (i j : ℕ) → i / 256 ≡ j / 256 → map_address sto i ≡ map_address sto j → i ≡ j
  map_address-injective_on_page sto i j page e =
      omega (arith, map_address-eq sto i, map_address-eq sto j, ap (page_hash sto) page, e)

  pub map_address-injective :
      (sto : Storage) (i j : ℕ)
      → NoPageCollision sto
      → i < 2 ^ 64
      → j < 2 ^ 64
      → map_address sto i ≡ map_address sto j
      → i ≡ j
  map_address-injective sto i j free p q e = omega (
    arith,
    free (i / 256) (j / 256) (omega arith) (omega arith)
        (omega (arith, map_address-eq sto i, map_address-eq sto j, e)),
    map_address-eq sto i,
    map_address-eq sto j,
    e,
  )

  -- Two different offsets of one page of 256 have different slots, whatever the hash is.
  pub map_address-ne_on_page :
      (sto : Storage) (i j : ℕ) → i / 256 ≡ j / 256 → i ≢ j → map_address sto i ≢ map_address sto j
  map_address-ne_on_page sto i j page ne e = ne (map_address-injective_on_page sto i j page e)

  -- Two different 64-bit offsets have different slots, if no two pages of the storage have the same
  -- first 31 bytes of their hashes.
  pub map_address-ne :
      (sto : Storage) (i j : ℕ)
      → NoPageCollision sto
      → i < 2 ^ 64
      → j < 2 ^ 64
      → i ≢ j
      → map_address sto i ≢ map_address sto j
  map_address-ne sto i j free p q ne e = ne (map_address-injective sto i j free p q e)
