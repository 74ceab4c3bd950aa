-- ===== src/Storage/HashCache/Tests.antt =====
-- The cache of hashes with a map of two entries.
use arb_reth.Prelude.{
  ℕ, ◌≤◌, ◌≡◌, refl, sym, ap, ap₂, arith, Bool, Bool-cases, true, false, Option, none, some, List,
  [], ◌∷◌, inl, inr, ◌⊎◌, ◌==◌, ◌&&◌, if◌then◌else◌,
}
use arb_reth.Storage.HashCache.{LruCache, HashCache}
use arb_reth.Storage.HashCache.Transparent.{
  IsLru, IsRight, hash_all, hashes_of, cached_keccak-transparent,
}
use arb_reth.TestHost.{test_host}

-- A cache of two entries.
abbrev Entries : Type 0
Entries = List (List ℕ × List ℕ)

abbrev same_bytes : List ℕ → List ℕ → Bool
same_bytes [] [] = true
same_bytes [] (y ∷ ys) = false
same_bytes (x ∷ xs) [] = false
same_bytes (x ∷ xs) (y ∷ ys) = x == y && same_bytes xs ys

abbrev look_up : Entries → List ℕ → Option (List ℕ)
look_up [] k = none
look_up (e ∷ es) k = let rest = look_up es k in if same_bytes e.0 k then some e.1 else rest

abbrev push_entry : Entries → List ℕ → List ℕ → Option (List ℕ × List ℕ) × Entries
push_entry [] k v = (none, (k, v) ∷ [])
push_entry (e ∷ []) k v = (none, (k, v) ∷ e ∷ [])
push_entry (e ∷ f ∷ es) k v = (some f, (k, v) ∷ e ∷ [])

abbrev two_entries : LruCache
two_entries = record { Cache = Entries; get = λ s k. (look_up s k, s); push = push_entry }

abbrev Among : Entries → List ℕ → List ℕ → Type 0
Among [] k v = ⊥
Among (e ∷ es) k v = ((k ≡ e.0) × (v ≡ e.1)) ⊎ Among es k v

same_bytes→≡ : (xs ys : List ℕ) → same_bytes xs ys ≡ true → ys ≡ xs
same_bytes→≡ [] [] p = refl
same_bytes→≡ [] (y ∷ ys) p = absurd (ground (arith, p))
same_bytes→≡ (x ∷ xs) [] p = absurd (ground (arith, p))
same_bytes→≡ (x ∷ xs) (y ∷ ys) p =
    ap₂ (λ z zs. z ∷ zs) (ground (arith, p)) (same_bytes→≡ xs ys (ground (arith, p)))

look_up-Among : (s : Entries) (k v : List ℕ) → look_up s k ≡ some v → Among s k v
look_up-Among [] k v p = absurd (ground (arith, p))
look_up-Among (e ∷ es) k v p = elim (Bool-cases (same_bytes e.0 k)) [
  | inl same ↦
      inl
        (same_bytes→≡ e.0 k same, ap (λ o. elim o [ none ↦ e.1 | some x ↦ x ]) (sym (rw same at p)))
  | inr other ↦ inr (look_up-Among es k v (rw other at p))
]

push_entry-Among :
    (s : Entries) (k v k' v' : List ℕ)
    → Among (push_entry s k v).1 k' v'
    → ((k' ≡ k) × (v' ≡ v)) ⊎ Among s k' v'
push_entry-Among [] k v k' v' p = p
push_entry-Among (e ∷ []) k v k' v' p = p
push_entry-Among (e ∷ f ∷ es) k v k' v' (inl new) = inl new
push_entry-Among (e ∷ f ∷ es) k v k' v' (inr (inl old)) = inr (inl old)
push_entry-Among (e ∷ f ∷ es) k v k' v' (inr (inr q)) = absurd q

abbrev two_entries-IsLru : IsLru two_entries
two_entries-IsLru = record {
  Stored = Among;
  get_stored = look_up-Among;
  get_keeps = λ s k k' v p. p;
  push_keeps = push_entry-Among;
}

abbrev empty_cache : HashCache two_entries
empty_cache = record { cache = []; cache_full_logged = false; messages = 0 }

-- The third hash evicts the first, which is computed again.
abbrev four_calls : List (Bool × List (List ℕ))
four_calls =
    (true, (1 ∷ []) ∷ [])
    ∷ (true, (2 ∷ []) ∷ [])
    ∷ (true, (3 ∷ []) ∷ (4 ∷ []) ∷ [])
    ∷ (true, (1 ∷ []) ∷ [])
    ∷ []

cached_keccak-transparent_example :
    ((hash_all two_entries two_entries-IsLru empty_cache four_calls).0
      ≡ hashes_of two_entries two_entries-IsLru four_calls)
    × IsRight two_entries two_entries-IsLru
        (hash_all two_entries two_entries-IsLru empty_cache four_calls).1
    × ((hash_all two_entries two_entries-IsLru empty_cache four_calls).1.messages ≤ 1)
cached_keccak-transparent_example =
    cached_keccak-transparent two_entries two_entries-IsLru empty_cache four_calls
      (record { hashes = λ k v stored. absurd stored; counted = refl })
