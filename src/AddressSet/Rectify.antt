-- ===== src/AddressSet/Rectify.antt =====
-- `rectify_mapping` of an address set whose mapping is right.
use arb_reth.Prelude.{
  ℕ, ◌+◌, ◌-◌, ◌^◌, ◌≤◌, ◌<◌, ◌≡◌, ◌≢◌, refl, ◌∙◌, ap, arith, inl, inr, true, false, not,
  Bool-cases, ◌&&◌, ◌==◌, ==_ne, ==_refl, leb, List, length, u64_max, if◌then◌else◌,
}
use arb_reth.Host.{Host, IsStore}
use arb_reth.World.{World, ◌>>◌, ok, crash, panic, not_owner, correctly_mapped, bind-ok}
use arb_reth.Storage.Slot.{after_get}
use arb_reth.Storage.Typed.{get_uint64}
use arb_reth.Storage.Space.{
  Storage, open_slot, open_sub_storage, read_slot, get_by_key, clear_by_key, get_uint64_by_key,
}
use arb_reth.Storage.Space.Laws.{cell, read_slot_lem, get_by_key_lem}
use arb_reth.Storage.Space.Cells.{get_cell}
use arb_reth.AddressSet.{open_set, is_member, add, rectify_mapping, rectify_if}
use arb_reth.AddressSet.Model.{place, places, contains, Apart, HoldsSet, is_member_lem}
use arb_reth.AddressSet.Swap.{place-le-length, get_or-place}
use arb_reth.AddressSet.Remove.{get_place}

module _ ⦃h : Host⦄ (l : IsStore h) (sto : Storage) (apart : Apart sto) where
  -- The calls of `rectify_mapping` up to its test of the mapping.
  tested :
      (w : World h) (a n m : ℕ)
      → cell l w (places sto) a ≡ m
      → m ≢ 0
      → m ≤ u64_max
      → cell l w sto 0 ≡ n
      → n ≤ u64_max
      → rectify_mapping (open_set sto) a w
        ≡ (if cell l w sto m == a && leb m n
              then crash correctly_mapped
              else clear_by_key (places sto) a >> add (open_set sto) a)
            (after_get (open_slot sto 0) w)
  unfolding rectify_mapping rectify_if is_member open_sub_storage
  tested w a n m mapped some small size room =
      bind-ok (is_member (open_set sto) a) _ w (
        bind-ok (get_by_key (places sto) a) _ w (get_by_key_lem l (places sto) a w)
        ∙ ap (λ k. ok (not (k == 0)) w) mapped
        ∙ ap (λ b. ok (not b) w) (==_ne m 0 some))
      ∙ bind-ok (get_uint64_by_key (places sto) a) _ w (get_place l sto apart w a m mapped small)
      ∙ bind-ok (read_slot sto m) _ w (read_slot_lem l sto m w)
      ∙ bind-ok (get_uint64 (open_slot sto 0)) _ w (get_cell l sto w 0 n size room)

  -- On a host that is a store and for a storage whose list and mapping do not collide: on a set, and for
  -- a 160-bit address, `rectify_mapping` panics, for a member since its mapping is right, and for another
  -- address since it is none.
  pub rectify_mapping_panics :
      (w : World h) (xs : List ℕ) (a : ℕ)
      → HoldsSet sto apart l w xs
      → a < 2 ^ 160
      → rectify_mapping (open_set sto) a w
        ≡ panic (if contains a xs then correctly_mapped else not_owner)
  unfolding rectify_mapping rectify_if
  rectify_mapping_panics w xs a q p = elim (Bool-cases (place a xs == 0)) [
    | inl none ↦
        bind-ok (is_member (open_set sto) a) _ w (is_member_lem sto apart l w xs a q p)
        ∙ rw none refl
    | inr member ↦
        tested w a (length xs) (place a xs) (q.mapped a p) (some member)
          (omega (arith, place-le-length a xs, q.room)) q.size_at q.room
        ∙ rw (right member, member) refl
  ]
    where
      some : (place a xs == 0) ≡ false → place a xs ≢ 0
      some member e = ground (arith, member, e)

      one : (place a xs == 0) ≡ false → place a xs ≡ place a xs - 1 + 1
      one member = ground (arith, member)

      at_place : (place a xs == 0) ≡ false → cell l w sto (place a xs) ≡ a
      at_place member =
          ap (cell l w sto) (one member)
          ∙ q.entries (place a xs - 1) (omega (arith, one member, place-le-length a xs))
          ∙ get_or-place a xs (place a xs - 1) (one member)

      right :
          (place a xs == 0) ≡ false
          → (cell l w sto (place a xs) == a && leb (place a xs) (length xs)) ≡ true
      right member = rw (at_place member, ==_refl a) (ground (arith, place-le-length a xs))
