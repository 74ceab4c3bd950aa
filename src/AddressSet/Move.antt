-- ===== src/AddressSet/Move.antt =====
-- The move of the last member of an address set into the slot that `remove` empties.
use arb_reth.Prelude.{
  ℕ, ◌+◌, ◌-◌, ◌^◌, ◌≤◌, ◌<◌, ◌≡◌, ◌≢◌, ◌⊎◌, refl, sym, ◌∙◌, ap, arith, inl, inr, true, false,
  Bool-cases, ◌==◌, ==_iff, ==_ne, ==_refl, ltb, leb, List, length, get_or, u64_max, AllLe,
  get_or-AllLe, if◌then◌else◌,
}
use arb_reth.Host.{Host, IsStore}
use arb_reth.World.{World, tick, ok, bind-ok}
use arb_reth.World.Loop.{Leaves}
use arb_reth.Storage.Slot.{
  after_get, after_write, IsWritable, after_get-IsWritable, after_write-IsWritable,
}
use arb_reth.Storage.Space.{
  Storage, map_address, open_slot, open_sub_storage, read_slot, write_slot,
}
use arb_reth.Storage.Space.Laws.{
  cell, read_slot_lem, write_slot_lem, set_by_key_lem, cell-after_write,
}
use arb_reth.Storage.Space.Cells.{cell-after_get}
use arb_reth.AddressSet.Swap.{
  get_or-place, IsDistinct, swap_remove, get_or-swap_remove, place-swap_remove,
}
use arb_reth.AddressSet.{open_set, move_last}
use arb_reth.AddressSet.Model.{
  place, places, Apart, HoldsSet, place-after_write, list-after_place, place-after_place,
}

pub leb-true : (a b : ℕ) → a ≤ b → leb a b ≡ true
leb-true a b p = ground (arith, p)

swap_eq : (i j : ℕ) → (i + 1 == j + 1) ≡ (j == i)
swap_eq i j = ground arith

module _ ⦃h : Host⦄ (l : IsStore h) (sto : Storage) (apart : Apart sto) where
  -- The list and the mapping are those of the new list, but the old last offset is not cleared and
  -- the size is the old one.
  pub record Moved (xs : List ℕ) (i : ℕ) (w : World h) : Type 0 where
    pub writable : IsWritable w
    pub size_at : cell l w sto 0 ≡ length xs
    pub entries : (j : ℕ) → j < length xs - 1 → cell l w sto (j + 1) ≡ get_or (swap_remove i xs) j 0
    pub mapped : (b : ℕ) → b < 2 ^ 160 → cell l w (places sto) b ≡ place b (swap_remove i xs)

  -- The mapping without an address, and the size read.
  unfoldable pub unmapped : ℕ → World h → World h
  unmapped a w =
      after_get (open_slot sto 0) (after_write l sto.account (map_address (places sto) a) 0 w)

  module _ (xs : List ℕ) (i : ℕ) (p : i < length xs) (d : IsDistinct xs)
      (small : AllLe (2 ^ 160 - 1) xs) (room : length xs ≤ u64_max) where
    -- The address that is removed, and the last member.
    abbrev gone : ℕ
    gone = get_or xs i 0

    abbrev last : ℕ
    last = get_or xs (length xs - 1) 0

    pub gone-small : gone < 2 ^ 160
    gone-small = omega (arith, get_or-AllLe (2 ^ 160 - 1) xs i small)

    last-small : last < 2 ^ 160
    last-small = omega (arith, get_or-AllLe (2 ^ 160 - 1) xs (length xs - 1) small)

    module _ (w : World h) (q : HoldsSet sto apart l w xs) where
      unmapped-IsWritable : IsWritable (unmapped gone w)
      unfolding unmapped
      unmapped-IsWritable =
          after_get-IsWritable (open_slot sto 0) _ (after_write-IsWritable l _ _ 0 w q.writable)

      list_unmapped : (j : ℕ) → j < 2 ^ 64 → cell l (unmapped gone w) sto j ≡ cell l w sto j
      unfolding unmapped
      list_unmapped j r =
          cell-after_get l sto (open_slot sto 0) _ j
          ∙ list-after_place sto apart l gone 0 w j r gone-small

      place-unmapped :
          (b : ℕ)
          → b < 2 ^ 160
          → cell l (unmapped gone w) (places sto) b ≡ (if gone == b then 0 else place b xs)
      unfolding unmapped
      place-unmapped b r =
          cell-after_get l (places sto) (open_slot sto 0) _ b
          ∙ place-after_place sto apart l gone 0 w b gone-small r
          ∙ ap (λ x. if gone == b then 0 else x) (q.mapped b r)

      -- The world after the move.
      after_move : World h
      after_move =
          after_write l sto.account (map_address (places sto) last) (i + 1)
            (after_write l sto.account (map_address sto (i + 1)) last (unmapped gone w))

      module _ (inner : i + 1 < length xs) where
        list_moved :
            (j : ℕ)
            → j < 2 ^ 64
            → cell l after_move sto j ≡ (if i + 1 == j then last else cell l w sto j)
        unfolding after_move
        list_moved j r =
            list-after_place sto apart l last (i + 1) _ j r last-small
            ∙ cell-after_write l sto apart.own (i + 1) last _ j (omega (arith, p, room)) r
            ∙ ap (λ x. if i + 1 == j then last else x) (list_unmapped j r)

        place_moved :
            (b : ℕ)
            → b < 2 ^ 160
            → cell l after_move (places sto) b
              ≡ (if last == b then i + 1 else if gone == b then 0 else place b xs)
        unfolding after_move
        place_moved b r =
            place-after_place sto apart l last (i + 1) _ b last-small r
            ∙ ap (λ x. if last == b then i + 1 else x)
                (place-after_write sto apart l (i + 1) last _ b (omega (arith, p, room)) r
                  ∙ place-unmapped b r)

        moved_entries :
            (j : ℕ)
            → j < length xs - 1
            → cell l after_move sto (j + 1) ≡ get_or (swap_remove i xs) j 0
        moved_entries j r =
            list_moved (j + 1) (omega (arith, r, room))
            ∙ rw (swap_eq i j) (elim (Bool-cases (j == i)) [
              | inl here ↦ rw here refl
              | inr other ↦ rw other (q.entries j (omega (arith, r)))
            ])
            ∙ sym (get_or-swap_remove xs i p j r)

        -- The last member is another one than that which is removed.
        two_members : (b : ℕ) → gone ≡ b → last ≢ b
        two_members b e f = omega (
          arith,
          inner,
          d i p,
          d (length xs - 1) (omega (arith, p)),
          ap (λ x. place x xs) (e ∙ sym f),
        )

        at_end : (b : ℕ) → (place b xs == length xs) ≡ (last == b)
        at_end b = elim (Bool-cases (last == b)) [
          | inl same ↦
              rw (sym ((==_iff last b).0 same), d (length xs - 1) (omega (arith, p)))
                (ground (arith, p))
          | inr other ↦ rw other (
              ==_ne (place b xs) (length xs) (λ e.
                ground (arith, other, get_or-place b xs (length xs - 1) (omega (arith, e, p)))))
        ]

        moved_places :
            (b : ℕ) → b < 2 ^ 160 → cell l after_move (places sto) b ≡ place b (swap_remove i xs)
        moved_places b r =
            place_moved b r ∙ both (Bool-cases (gone == b)) ∙ sym (place-swap_remove xs i p d b)
          where
            both :
                ((gone == b) ≡ true) ⊎ ((gone == b) ≡ false)
                → (if last == b then i + 1 else if gone == b then 0 else place b xs)
                  ≡ (if b == gone then 0 else if place b xs == length xs then i + 1 else place b xs)
            both (inl same) =
                rw
                  (
                    same,
                    ==_ne last b (two_members b ((==_iff gone b).0 same)),
                    (==_iff gone b).0 same,
                    ==_refl b,
                  )
                  refl
            both (inr other) =
                rw (at_end b, other, ==_ne b gone (λ e. ground (arith, e, other))) refl

        last_held : cell l (unmapped gone w) sto (length xs) ≡ last
        last_held =
            list_unmapped (length xs) (omega (arith, room))
            ∙ ap (cell l w sto) (omega (arith, p))
            ∙ q.entries (length xs - 1) (omega (arith, p))

        move_last_lem :
            (version : ℕ)
            → 11 ≤ version
            → Leaves
                (move_last (open_set sto) (i + 1) (length xs) version)
                (unmapped gone w)
                (Moved xs i)
        unfolding move_last after_move open_sub_storage
        move_last_lem version new = record {
          after = after_move;
          returned =
              bind-ok (read_slot sto (length xs)) _ (unmapped gone w) (
                read_slot_lem l sto (length xs) (unmapped gone w)
                ∙ ap (λ x. ok x (unmapped gone w)) last_held)
              ∙ bind-ok (write_slot sto (i + 1) last) _ (unmapped gone w)
                  (write_slot_lem l sto (i + 1) last (unmapped gone w))
              ∙ rw (leb-true 11 version new) (set_by_key_lem l (places sto) last (i + 1) _);
          left_with = record {
            writable =
                after_write-IsWritable l _ _ _ _
                  (after_write-IsWritable l _ _ _ _ unmapped-IsWritable);
            size_at = list_moved 0 (omega arith) ∙ rw (==_ne (i + 1) 0 (omega arith)) q.size_at;
            entries = moved_entries;
            mapped = moved_places;
          };
        }

      -- If the address is the last member, nothing is moved.
      stay_lem : i + 1 ≡ length xs → Moved xs i (unmapped gone w)
      stay_lem e = record {
        writable = unmapped-IsWritable;
        size_at = list_unmapped 0 (omega arith) ∙ q.size_at;
        entries = λ j r.
            list_unmapped (j + 1) (omega (arith, r, room))
            ∙ q.entries j (omega (arith, r))
            ∙ sym (get_or-swap_remove xs i p j r ∙ rw (==_ne j i (omega (arith, r, e))) refl);
        mapped = λ b r.
            place-unmapped b r
            ∙ same b (Bool-cases (gone == b))
            ∙ sym (place-swap_remove xs i p d b);
      }
        where
          same :
              (b : ℕ)
              → ((gone == b) ≡ true) ⊎ ((gone == b) ≡ false)
              → (if gone == b then 0 else place b xs)
                ≡ (if b == gone then 0 else if place b xs == length xs then i + 1 else place b xs)
          same b (inl here) = rw ((==_iff gone b).0 here, ==_refl b) refl
          same b (inr other) =
              rw (other, ==_ne b gone (λ e. ground (arith, e, other))) (ground (arith, e))

      pub move_lem :
          (version : ℕ)
          → 11 ≤ version
          → Leaves
              (if ltb (i + 1) (length xs)
                then move_last (open_set sto) (i + 1) (length xs) version
                else tick)
              (unmapped gone w)
              (Moved xs i)
      move_lem version new = elim (Bool-cases (ltb (i + 1) (length xs))) [
        | inl inner ↦ rw inner (move_last_lem (ground (arith, inner)) version new)
        | inr outer ↦ rw outer (record {
          after = unmapped gone w;
          returned = refl;
          left_with = stay_lem (ground (arith, outer, p));
        })
      ]
