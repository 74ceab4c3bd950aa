-- ===== src/AddressSet/Remove.antt =====
-- `remove` of an address set on the list of its members, from ArbOS version 11 on.
use arb_reth.Prelude.{
  ℕ, ◌+◌, ◌-◌, ◌^◌, ◌≤◌, ◌<◌, ◌≡◌, refl, sym, ◌∙◌, arith, inl, inr, false, Bool-cases, ◌==◌, ==_ne,
  ltb, List, length, get_or, u64_max, AllLe, if◌then◌else◌,
}
use arb_reth.Host.{Host, IsStore}
use arb_reth.World.{World, tick, ok, bind-ok}
use arb_reth.World.Loop.{Leaves}
use arb_reth.Storage.Slot.{
  after_get, after_set, after_write, after_get-IsWritable, after_set-IsWritable,
  after_write-IsWritable,
}
use arb_reth.Storage.Typed.{get_uint64, decrement}
use arb_reth.Storage.Space.{
  Storage, map_address, open_slot, open_sub_storage, write_slot, get_by_key, clear_by_key,
  get_uint64_by_key,
}
use arb_reth.Storage.Space.Laws.{
  cell, write_slot_lem, get_by_key_lem, set_by_key_lem, cell-after_set, cell-after_write,
}
use arb_reth.Storage.Space.Cells.{cell-after_get, get_cell, decrement_cell}
use arb_reth.AddressSet.Swap.{
  place-le-length, get_or-place, IsDistinct, swap_remove, without, length-swap_remove,
}
use arb_reth.AddressSet.{open_set, remove, remove_if, move_last}
use arb_reth.AddressSet.Move.{leb-true, Moved, unmapped, move_lem, gone-small}
use arb_reth.AddressSet.Model.{
  place, places, Apart, HoldsSet, place-after_write, place-after_set, list-after_place,
}

module _ ⦃h : Host⦄ (l : IsStore h) (sto : Storage) (apart : Apart sto) where
  pub get_place :
      (w : World h) (a n : ℕ)
      → cell l w (places sto) a ≡ n
      → n ≤ u64_max
      → get_uint64_by_key (places sto) a w ≡ ok n w
  unfolding get_uint64_by_key
  get_place w a n e p =
      bind-ok (get_by_key (places sto) a) _ w (get_by_key_lem l (places sto) a w)
      ∙ rw (e, leb-true n u64_max p) refl

  module _ (xs : List ℕ) (i : ℕ) (p : i < length xs) (d : IsDistinct xs)
      (small : AllLe (2 ^ 160 - 1) xs) (room : length xs ≤ u64_max) where
    -- The last offset is cleared and the size counted down.
    finished : World h → World h
    finished w =
        after_set l (open_slot sto 0) (length xs - 1) (
          after_get (open_slot sto 0) (after_write l sto.account (map_address sto (length xs)) 0 w))

    finish_lem :
        (w : World h)
        → Moved l sto apart xs i w
        → HoldsSet sto apart l (finished w) (swap_remove i xs)
    unfolding finished
    finish_lem w m = record {
      writable =
          after_set-IsWritable l (open_slot sto 0) _ _ (
            after_get-IsWritable (open_slot sto 0) _ (after_write-IsWritable l _ _ 0 w m.writable));
      room = omega (arith, room, length-swap_remove xs i p);
      size_at =
          cell-after_set l sto apart.own 0 (length xs - 1) _ 0 (omega arith) (omega arith)
          ∙ sym (length-swap_remove xs i p);
      entries = λ j r. entry j (omega (arith, r, length-swap_remove xs i p));
      mapped = λ b r.
          place-after_set sto apart l 0 (length xs - 1) _ b (omega arith) r
          ∙ cell-after_get l (places sto) (open_slot sto 0) _ b
          ∙ place-after_write sto apart l (length xs) 0 w b (omega (arith, room)) r
          ∙ m.mapped b r;
    }
      where
        entry :
            (j : ℕ)
            → j < length xs - 1
            → cell l (finished w) sto (j + 1) ≡ get_or (swap_remove i xs) j 0
        entry j r =
            cell-after_set l sto apart.own 0 (length xs - 1) _ (j + 1) (omega arith)
              (omega (arith, r, room))
            ∙ rw (==_ne 0 (j + 1) (omega arith)) (
                cell-after_get l sto (open_slot sto 0) _ (j + 1)
                ∙ cell-after_write l sto apart.own (length xs) 0 w (j + 1) (omega (arith, room))
                    (omega (arith, r, room))
                ∙ rw (==_ne (length xs) (j + 1) (omega (arith, r))) (m.entries j r))

    -- The calls of `remove` behind its test of the slot.
    removed_lem :
        (w : World h) (version : ℕ)
        → 11 ≤ version
        → HoldsSet sto apart l w xs
        → Leaves
            (remove_if (open_set sto) (get_or xs i 0) version (i + 1) false)
            w
            (λ w'. HoldsSet sto apart l w' (swap_remove i xs))
    unfolding remove_if clear_by_key unmapped open_sub_storage finished
    removed_lem w version new q =
        let move = move_lem l sto apart xs i p d small room w q version new in
        record {
          after = finished move.after;
          returned =
              bind-ok (clear_by_key (places sto) (get_or xs i 0)) _ w
                (set_by_key_lem l (places sto) (get_or xs i 0) 0 w)
              ∙ bind-ok (get_uint64 (open_slot sto 0)) _ _
                  (get_cell l sto _ 0 (length xs) size_kept room)
              ∙ bind-ok
                  (if ltb (i + 1) (length xs)
                    then move_last (open_set sto) (i + 1) (length xs) version
                    else tick)
                  _ _ move.returned
              ∙ bind-ok (write_slot sto (length xs) 0) _ move.after
                  (write_slot_lem l sto (length xs) 0 move.after)
              ∙ bind-ok (decrement (open_slot sto 0)) _ _ (
                  decrement_cell l sto _ 0 (length xs) (left_size move.after move.left_with)
                    (after_write-IsWritable l _ _ 0 _ move.left_with.writable) room
                    (omega (arith, p)));
          left_with = finish_lem move.after move.left_with;
        }
      where
        size_kept :
            cell l (after_write l sto.account (map_address (places sto) (get_or xs i 0)) 0 w) sto 0
            ≡ length xs
        size_kept =
            list-after_place sto apart l (get_or xs i 0) 0 w 0 (omega arith)
              (gone-small l sto apart xs i p d small room)
            ∙ q.size_at

        left_size :
            (w' : World h)
            → Moved l sto apart xs i w'
            → cell l (after_write l sto.account (map_address sto (length xs)) 0 w') sto 0
              ≡ length xs
        left_size w' m =
            cell-after_write l sto apart.own (length xs) 0 w' 0 (omega (arith, room)) (omega arith)
            ∙ rw (==_ne (length xs) 0 (omega (arith, p))) m.size_at

  -- On a host that is a store and for a storage whose list and mapping do not collide: on a set of
  -- 160-bit addresses without repetition, `remove` of an address returns from ArbOS version 11 on, and
  -- leaves the set without the address: the last member stands in its place.
  pub remove_lem :
      (w : World h) (xs : List ℕ) (a version : ℕ)
      → HoldsSet sto apart l w xs
      → IsDistinct xs
      → AllLe (2 ^ 160 - 1) xs
      → a < 2 ^ 160
      → 11 ≤ version
      → Leaves (remove (open_set sto) a version) w (λ w'. HoldsSet sto apart l w' (without a xs))
  unfolding remove remove_if open_sub_storage
  remove_lem w xs a version q d small p new = elim (Bool-cases (place a xs == 0)) [
    | inl absent ↦ record {
      after = w;
      returned = slot_read ∙ rw absent refl;
      left_with = rw absent q;
    }
    | inr present ↦ rw present (found (place a xs - 1) (ground (arith, present)))
  ]
    where
      slot_read :
          remove (open_set sto) a version w
          ≡ remove_if (open_set sto) a version (place a xs) (place a xs == 0) w
      slot_read =
          bind-ok (get_uint64_by_key (places sto) a) _ w (
            get_place w a (place a xs) (q.mapped a p) (omega (arith, place-le-length a xs, q.room)))

      found :
          (i : ℕ)
          → place a xs ≡ i + 1
          → Leaves
              (remove (open_set sto) a version)
              w
              (λ w'. HoldsSet sto apart l w' (swap_remove i xs))
      found i e =
          let rest = removed_lem xs i inside d small q.room w version new q in
          record {
            after = rest.after;
            returned =
                slot_read
                ∙ rw (get_or-place a xs i e, e, ==_ne (i + 1) 0 (omega arith)) refl
                ∙ rest.returned;
            left_with = rest.left_with;
          }
        where
          inside : i < length xs
          inside = omega (arith, e, place-le-length a xs)
