-- ===== src/AddressSet/Clear.antt =====
-- `clear` of an address set leaves the empty set.
use arb_reth.Prelude.{
  ℕ, ◌+◌, ◌-◌, ◌^◌, ◌≤◌, ◌<◌, ◌≡◌, ◌≢◌, ◌⊎◌, refl, ◌∙◌, ap, arith, inl, inr, true, false,
  Bool-cases, ◌==◌, ==_iff, ==_ne, List, [], length, get_or, u64_max, AllLe, get_or-AllLe,
  if◌then◌else◌,
}
use arb_reth.Host.{Host, IsStore}
use arb_reth.World.{World, ok, bind-ok}
use arb_reth.World.Loop.{Leaves, for_range_lem}
use arb_reth.World.{for_range}
use arb_reth.Storage.Slot.{
  after_get, after_set, after_write, IsWritable, after_get-IsWritable, after_set-IsWritable,
  after_write-IsWritable,
}
use arb_reth.Storage.Typed.{get_uint64, clear_uint64}
use arb_reth.Storage.Typed.Laws.{set_uint64_lem}
use arb_reth.Storage.Space.{
  Storage, map_address, open_slot, open_sub_storage, read_slot, write_slot, clear_by_key,
}
use arb_reth.Storage.Space.Laws.{
  cell, read_slot_lem, write_slot_lem, set_by_key_lem, cell-after_set, cell-after_write,
}
use arb_reth.Storage.Space.Cells.{cell-after_get, get_cell}
use arb_reth.AddressSet.Swap.{place-le-length, get_or-place}
use arb_reth.AddressSet.{open_set, clear, clear_if, clear_entry}
use arb_reth.AddressSet.Model.{
  place, places, Apart, HoldsSet, place-after_write, place-after_set, list-after_place,
  place-after_place,
}

module _ ⦃h : Host⦄ (l : IsStore h) (sto : Storage) (apart : Apart sto) (xs : List ℕ)
    (small : AllLe (2 ^ 160 - 1) xs) (room : length xs < u64_max) where
  -- Before the round of offset `i`: the entries from there on stand, and an address is mapped to none or
  -- has its place there or later.
  record Cleared (i : ℕ) (w : World h) : Type 0 where
    positive : 0 < i
    writable : IsWritable w
    entries : (j : ℕ) → i ≤ j → j ≤ length xs → cell l w sto j ≡ get_or xs (j - 1) 0
    mapped : (a : ℕ) → a < 2 ^ 160 → (cell l w (places sto) a ≡ 0) ⊎ (i ≤ place a xs)

  -- The world after a round.
  after_entry : ℕ → World h → World h
  after_entry i w =
      after_write l sto.account (map_address (places sto) (get_or xs (i - 1) 0)) 0
        (after_write l sto.account (map_address sto i) 0 w)

  round :
      (i : ℕ) (w : World h)
      → i < length xs + 1
      → Cleared i w
      → Leaves (clear_entry (open_set sto) i) w (Cleared (i + 1))
  unfolding clear_entry clear_by_key after_entry open_sub_storage
  round i w p c = record {
    after = after_entry i w;
    returned =
        bind-ok (read_slot sto i) _ w
          (read_slot_lem l sto i w ∙ ap (λ x. ok x w) (c.entries i (omega arith) (omega arith)))
        ∙ bind-ok (write_slot sto i 0) _ w (write_slot_lem l sto i 0 w)
        ∙ set_by_key_lem l (places sto) member 0 _;
    left_with = record {
      positive = omega arith;
      writable = after_write-IsWritable l _ _ 0 _ (after_write-IsWritable l _ _ 0 w c.writable);
      entries = λ j q r.
          list-after_place sto apart l member 0 _ j (omega arith) member_small
          ∙ cell-after_write l sto apart.own i 0 w j (omega arith) (omega arith)
          ∙ rw (==_ne i j (omega arith)) (c.entries j (omega arith) r);
      mapped = λ a q. mapped a q (Bool-cases (member == a));
    };
  }
    where
      member : ℕ
      member = get_or xs (i - 1) 0

      member_small : member < 2 ^ 160
      member_small = omega (arith, get_or-AllLe (2 ^ 160 - 1) xs (i - 1) small)

      now :
          (a : ℕ)
          → a < 2 ^ 160
          → cell l (after_entry i w) (places sto) a
            ≡ (if member == a then 0 else cell l w (places sto) a)
      now a q =
          place-after_place sto apart l member 0 _ a member_small q
          ∙ ap (λ x. if member == a then 0 else x)
              (place-after_write sto apart l i 0 w a (omega arith) q)

      mapped :
          (a : ℕ)
          → a < 2 ^ 160
          → ((member == a) ≡ true) ⊎ ((member == a) ≡ false)
          → (cell l (after_entry i w) (places sto) a ≡ 0) ⊎ (i + 1 ≤ place a xs)
      mapped a q (inl same) = inl (now a q ∙ rw same refl)
      mapped a q (inr other) = elim (c.mapped a q) [
        | inl none ↦ inl (now a q ∙ rw other none)
        | inr later ↦ inr (omega (arith, later, not_here))
      ]
        where
          not_here : place a xs ≢ i
          not_here here =
              ground (arith, other, get_or-place a xs (i - 1) (omega (arith, here, c.positive)))

  -- On a host that is a store and for a storage whose list and mapping do not collide: on a set of
  -- 160-bit addresses with room for one more, `clear` returns and leaves the empty set.
  pub clear_lem :
      (w : World h)
      → HoldsSet sto apart l w xs
      → Leaves (clear (open_set sto)) w (λ w'. HoldsSet sto apart l w' [])
  unfolding clear clear_if clear_uint64 place
  clear_lem w q = elim (Bool-cases (length xs == 0)) [
    | inl empty ↦ record {
      after = after_get (open_slot sto 0) w;
      returned = size_read ∙ rw empty refl;
      left_with = record {
        writable = after_get-IsWritable (open_slot sto 0) w q.writable;
        room = omega arith;
        size_at =
            cell-after_get l sto (open_slot sto 0) w 0 ∙ q.size_at ∙ (==_iff (length xs) 0).0 empty;
        entries = λ i p. absurd (omega (arith, p));
        mapped = λ a p.
            cell-after_get l (places sto) (open_slot sto 0) w a
            ∙ q.mapped a p
            ∙ omega (arith, place-le-length a xs, (==_iff (length xs) 0).0 empty);
      };
    }
    | inr some ↦ record {
      after = after_set l (open_slot sto 0) 0 loop.after;
      returned =
          size_read
          ∙ rw some (
              bind-ok (for_range (clear_entry (open_set sto)) (length xs) 1) _ w1 loop.returned
              ∙ set_uint64_lem l (open_slot sto 0) 0 loop.after loop.left_with.writable);
      left_with = record {
        writable = after_set-IsWritable l (open_slot sto 0) 0 loop.after loop.left_with.writable;
        room = omega arith;
        size_at = cell-after_set l sto apart.own 0 0 loop.after 0 (omega arith) (omega arith);
        entries = λ i p. absurd (omega (arith, p));
        mapped = λ a p.
            place-after_set sto apart l 0 0 loop.after a (omega arith) p
            ∙ gone a (loop.left_with.mapped a p);
      };
    }
  ]
    where
      w1 : World h
      w1 = after_get (open_slot sto 0) w

      size_read : clear (open_set sto) w ≡ clear_if (open_set sto) (length xs) (length xs == 0) w1
      size_read =
          bind-ok (get_uint64 (open_slot sto 0)) _ w
            (get_cell l sto w 0 (length xs) q.size_at q.room)

      start : Cleared 1 w1
      start = record {
        positive = omega arith;
        writable = after_get-IsWritable (open_slot sto 0) w q.writable;
        entries = λ j r s.
            cell-after_get l sto (open_slot sto 0) w j
            ∙ ap (cell l w sto) (omega arith)
            ∙ q.entries (j - 1) (omega arith);
        mapped = λ a p. elim (Bool-cases (place a xs == 0)) [
          | inl none ↦ inl (
              cell-after_get l (places sto) (open_slot sto 0) w a
              ∙ q.mapped a p
              ∙ (==_iff (place a xs) 0).0 none)
          | inr some ↦ inr (ground (arith, some))
        ];
      }

      loop :
          Leaves (for_range (clear_entry (open_set sto)) (length xs) 1) w1 (Cleared (length xs + 1))
      loop =
          for_range_lem (clear_entry (open_set sto)) Cleared (length xs + 1) round (length xs) 1 w1
            (omega arith) start

      gone :
          (a : ℕ)
          → (cell l loop.after (places sto) a ≡ 0) ⊎ (length xs + 1 ≤ place a xs)
          → cell l loop.after (places sto) a ≡ 0
      gone a (inl e) = e
      gone a (inr beyond) = absurd (omega (arith, beyond, place-le-length a xs))
