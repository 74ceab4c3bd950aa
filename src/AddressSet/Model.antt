-- ===== src/AddressSet/Model.antt =====
-- The list of members that the storage of an address set holds: the list of its offsets and the
-- mapping of a member to its place agree.
use arb_reth.Prelude.{
  ℕ, ◌+◌, ◌/◌, ◌^◌, ◌≤◌, ◌<◌, ◌≡◌, ◌≢◌, refl, sym, ◌∙◌, ap, arith, inl, inr, true, false, Bool,
  Bool-cases, ◌&&◌, not, ◌==◌, ==_iff, ==_ne, ==_refl, List, [], ◌∷◌, ◌++◌, length, get_or, u64_max,
  if◌then◌else◌,
}
use arb_reth.Host.{Host, IsStore}
use arb_reth.World.{World, ok, bind-ok}
use arb_reth.Storage.Slot.{
  StorageSlot, value, after_get, after_set, after_write, IsWritable, value-after_get,
  value-after_set, value-after_write, after_get-IsWritable, after_set-IsWritable,
}
use arb_reth.Storage.Space.{Storage, map_address, open_slot, open_sub_storage, get_by_key}
use arb_reth.Storage.Space.Keys.{NoPageCollision, page_hash, map_address-eq}
use arb_reth.Storage.Space.Laws.{cell, get_by_key_lem}
use arb_reth.AddressSet.{open_set, is_member}

-- The place of an address in a list, counted from 1, or 0 if it is not there.
unfoldable pub place : ℕ → List ℕ → ℕ
place a [] = 0
place a (x ∷ xs) = let rest = place a xs in if a == x then 1 else if rest == 0 then 0 else rest + 1

abbrev pub contains : ℕ → List ℕ → Bool
contains a xs = not (place a xs == 0)

-- The list with an address that it did not hold at its end.
abbrev pub insert : ℕ → List ℕ → List ℕ
insert a xs = if contains a xs then xs else xs ++ a ∷ []

place-le : (a : ℕ) (xs : List ℕ) → place a xs ≤ length xs
unfolding place
place-le a [] = omega arith
place-le a (x ∷ xs) = ground (arith, place-le a xs)

pub place-append :
    (b a : ℕ) (xs : List ℕ)
    → place b (xs ++ a ∷ [])
      ≡ (if place b xs == 0 then if b == a then length xs + 1 else 0 else place b xs)
unfolding place
place-append b a [] = refl
place-append b a (x ∷ xs) = ground (arith, place-append b a xs)

module _ ⦃h : Host⦄ where
  -- The mapping of members to places.
  abbrev pub places : Storage → Storage
  places sto = open_sub_storage sto (0 ∷ [])

  -- No two pages of the list or of the mapping have the same first 31 bytes of their hashes: the
  -- list's are those of 64-bit offsets, the mapping's those of 160-bit keys.
  pub record Apart (sto : Storage) : Type 0 where
    pub own : NoPageCollision sto
    pub keys :
        (p q : ℕ)
        → p < 2 ^ 152
        → q < 2 ^ 152
        → page_hash (places sto) p ≡ page_hash (places sto) q
        → p ≡ q
    pub cross : (p q : ℕ) → p < 2 ^ 56 → q < 2 ^ 152 → page_hash sto p ≢ page_hash (places sto) q

  module _ (sto : Storage) (apart : Apart sto) where
    pub key_slots :
        (a b : ℕ)
        → a < 2 ^ 160
        → b < 2 ^ 160
        → map_address (places sto) a ≡ map_address (places sto) b
        → a ≡ b
    key_slots a b p q e = omega (
      arith,
      apart.keys (a / 256) (b / 256) (omega arith) (omega arith)
          (omega (arith, map_address-eq (places sto) a, map_address-eq (places sto) b, e)),
      map_address-eq (places sto) a,
      map_address-eq (places sto) b,
      e,
    )

    pub cross_slots :
        (i a : ℕ) → i < 2 ^ 64 → a < 2 ^ 160 → map_address sto i ≢ map_address (places sto) a
    cross_slots i a p q e =
        apart.cross (i / 256) (a / 256) (omega arith) (omega arith)
          (omega (arith, map_address-eq sto i, map_address-eq (places sto) a, e))

    module _ (l : IsStore h) where
      other_slot :
          (k j : ℕ) (v old : ℕ)
          → k ≢ j
          → (if sto.account == sto.account && k == j then v else old) ≡ old
      other_slot k j v old ne = rw (==_refl sto.account) (rw (==_ne k j ne) refl)

      -- A write to the list is not seen in the mapping, nor one to the mapping in the list.
      pub place-after_write :
          (i v : ℕ) (w : World h) (a : ℕ)
          → i < 2 ^ 64
          → a < 2 ^ 160
          → cell l (after_write l sto.account (map_address sto i) v w) (places sto) a
            ≡ cell l w (places sto) a
      unfolding open_sub_storage
      place-after_write i v w a p q =
          value-after_write l sto.account (map_address sto i) v w sto.account
            (map_address (places sto) a)
          ∙ other_slot _ _ v _ (cross_slots i a p q)

      pub place-after_set :
          (i v : ℕ) (w : World h) (a : ℕ)
          → i < 2 ^ 64
          → a < 2 ^ 160
          → cell l (after_set l (open_slot sto i) v w) (places sto) a ≡ cell l w (places sto) a
      unfolding open_slot open_sub_storage
      place-after_set i v w a p q =
          value-after_set l (open_slot sto i) v w sto.account (map_address (places sto) a)
          ∙ other_slot _ _ v _ (cross_slots i a p q)

      pub list-after_place :
          (a v : ℕ) (w : World h) (i : ℕ)
          → i < 2 ^ 64
          → a < 2 ^ 160
          → cell l (after_write l sto.account (map_address (places sto) a) v w) sto i
            ≡ cell l w sto i
      list-after_place a v w i p q =
          value-after_write l sto.account (map_address (places sto) a) v w sto.account
            (map_address sto i)
          ∙ other_slot _ _ v _ (λ e. cross_slots i a p q (sym e))

      pub place-after_place :
          (a v : ℕ) (w : World h) (b : ℕ)
          → a < 2 ^ 160
          → b < 2 ^ 160
          → cell l (after_write l sto.account (map_address (places sto) a) v w) (places sto) b
            ≡ (if a == b then v else cell l w (places sto) b)
      unfolding open_sub_storage
      place-after_place a v w b p q =
          value-after_write l sto.account (map_address (places sto) a) v w sto.account
            (map_address (places sto) b)
          ∙ (elim (Bool-cases (a == b)) [
            | inl same ↦
                rw (same, ==_refl sto.account)
                  (rw ((==_iff a b).0 same, ==_refl (map_address (places sto) b)) refl)
            | inr different ↦ rw different (other_slot _ _ v _ (slots_differ different))
          ])
        where
          slots_differ : (a == b) ≡ false → map_address (places sto) a ≢ map_address (places sto) b
          slots_differ different e = absurd (ground (arith, key_slots a b p q e, different))

      -- The storage holds a set of these members.
      pub record HoldsSet (w : World h) (xs : List ℕ) : Type 0 where
        pub writable : IsWritable w
        pub room : length xs ≤ u64_max
        pub size_at : cell l w sto 0 ≡ length xs
        pub entries : (i : ℕ) → i < length xs → cell l w sto (i + 1) ≡ get_or xs i 0
        pub mapped : (a : ℕ) → a < 2 ^ 160 → cell l w (places sto) a ≡ place a xs

      -- On a host that is a store and for a storage whose list and mapping do not collide:
      -- `is_member` of a set and a 160-bit address says whether the members contain the address,
      -- and changes nothing.
      pub is_member_lem :
          (w : World h) (xs : List ℕ) (a : ℕ)
          → HoldsSet w xs
          → a < 2 ^ 160
          → is_member (open_set sto) a w ≡ ok (contains a xs) w
      unfolding is_member
      is_member_lem w xs a q p =
          bind-ok (get_by_key (places sto) a) _ w (get_by_key_lem l (places sto) a w)
          ∙ ap (λ n. ok (not (n == 0)) w) (q.mapped a p)

      -- The read of a slot, and a write to a slot that is neither of the list nor of the mapping.
      pub HoldsSet-after_get :
          (s : StorageSlot) (w : World h) (xs : List ℕ)
          → HoldsSet w xs
          → HoldsSet (after_get s w) xs
      HoldsSet-after_get s w xs q = record {
        writable = after_get-IsWritable s w q.writable;
        room = q.room;
        size_at = value-after_get l s w sto.account (map_address sto 0) ∙ q.size_at;
        entries =
            λ i p. value-after_get l s w sto.account (map_address sto (i + 1)) ∙ q.entries i p;
        mapped = λ a p.
            value-after_get l s w (places sto).account (map_address (places sto) a) ∙ q.mapped a p;
      }

      pub HoldsSet-after_set :
          (s : StorageSlot) (v : ℕ) (w : World h) (xs : List ℕ)
          → ((i : ℕ) → i < 2 ^ 64 → s.slot ≢ map_address sto i)
          → ((a : ℕ) → a < 2 ^ 160 → s.slot ≢ map_address (places sto) a)
          → HoldsSet w xs
          → HoldsSet (after_set l s v w) xs
      HoldsSet-after_set s v w xs outside beside q = record {
        writable = after_set-IsWritable l s v w q.writable;
        room = q.room;
        size_at = unseen (map_address sto 0) (outside 0 (omega arith)) ∙ q.size_at;
        entries = λ i p.
            unseen (map_address sto (i + 1)) (outside (i + 1) (omega (arith, p, q.room)))
            ∙ q.entries i p;
        mapped = λ a p. unseen_place (map_address (places sto) a) (beside a p) ∙ q.mapped a p;
      }
        where
          unseen :
              (k : ℕ)
              → s.slot ≢ k
              → value l (after_set l s v w) sto.account k ≡ value l w sto.account k
          unseen k ne =
              value-after_set l s v w sto.account k
              ∙ rw (==_ne s.slot k ne) (no_slot (s.account == sto.account))
            where
              no_slot :
                  (b : Bool)
                  → (if b && false then v else value l w sto.account k) ≡ value l w sto.account k
              no_slot true = refl
              no_slot false = refl

          unseen_place :
              (k : ℕ)
              → s.slot ≢ k
              → value l (after_set l s v w) (places sto).account k
                ≡ value l w (places sto).account k
          unseen_place k ne =
              value-after_set l s v w (places sto).account k
              ∙ rw (==_ne s.slot k ne) (no_slot (s.account == (places sto).account))
            where
              no_slot :
                  (b : Bool)
                  → (if b && false then v else value l w (places sto).account k)
                    ≡ value l w (places sto).account k
              no_slot true = refl
              no_slot false = refl
