-- ===== src/AddressSet/Add.antt =====
-- `add` of an address set on the list of its members.
use arb_reth.Prelude.{
  ℕ, zero, suc, ◌+◌, ◌^◌, ◌%◌, ◌≤◌, ◌<◌, ◌≡◌, ◌≢◌, refl, sym, ◌∙◌, ap, arith, inl, inr, true, false,
  Bool, ◌&&◌, Bool-cases, ◌==◌, ==_iff, ==_ne, ==_refl, List, [], ◌∷◌, ◌++◌, length, length-append,
  get_or, u64_max, if◌then◌else◌,
}
use arb_reth.Host.{Host, IsStore}
use arb_reth.World.{World, ok, bind-ok}
use arb_reth.World.Loop.{Leaves}
use arb_reth.Storage.Slot.{
  value, value-after_set, value-after_get, value-after_write, after_set, after_get, after_write,
  IsWritable, after_set-IsWritable, after_get-IsWritable, after_write-IsWritable,
}
use arb_reth.Storage.Typed.{get_uint64, increment}
use arb_reth.Storage.Space.{
  Storage, map_address, open_slot, open_sub_storage, set_by_key, write_slot,
}
use arb_reth.Storage.Space.Laws.{
  cell, set_by_key_lem, write_slot_lem, cell-after_set, cell-after_write,
}
use arb_reth.Storage.Space.Cells.{cell-after_get, get_cell, increment_cell}
use arb_reth.AddressSet.{open_set, is_member, add, add_if}
use arb_reth.AddressSet.Model.{
  place, insert, place-append, places, Apart, HoldsSet, is_member_lem, place-after_write,
  place-after_set, list-after_place, place-after_place,
}

pub get_or-append :
    (xs : List ℕ) (a i : ℕ)
    → i ≤ length xs
    → get_or (xs ++ a ∷ []) i 0 ≡ (if length xs == i then a else get_or xs i 0)
get_or-append [] a zero p = refl
get_or-append [] a (suc i) p = absurd (omega arith)
get_or-append (x ∷ xs) a zero p = rw (==_ne (suc (length xs)) 0 (omega arith)) refl
get_or-append (x ∷ xs) a (suc i) p =
    get_or-append xs a i (omega arith) ∙ ap (λ b. if b then a else get_or xs i 0) (ground arith)

shift_eq : (n i : ℕ) → (n + 1 == i + 1) ≡ (n == i)
shift_eq n i = ground arith

-- Which place the new list gives to an address, by the old one.
place_other : (a b n k : ℕ) → (a == b) ≡ false → (if k == 0 then if b == a then n else 0 else k) ≡ k
place_other a b n k e = ground (arith, e)

wrap_small : (n : ℕ) → n < u64_max → (n + 1) % 2 ^ 64 ≡ n + 1
wrap_small n p = omega arith

-- A write to another slot.
pub unseen : (a b k j v old : ℕ) → k ≢ j → (if a == b && k == j then v else old) ≡ old
unseen a b k j v old ne = rw (==_ne k j ne) (both (a == b))
  where
    both : (c : Bool) → (if c && false then v else old) ≡ old
    both true = refl
    both false = refl

module _ ⦃h : Host⦄ (l : IsStore h) (sto : Storage) (apart : Apart sto) where
  -- The worlds of `add` at the place `n + 1`: the size read, the place stored, the entry stored, and
  -- the size counted up.
  place_stored : ℕ → ℕ → World h → World h
  place_stored n a w =
      after_write l sto.account (map_address (places sto) a) (n + 1) (after_get (open_slot sto 0) w)

  entry_stored : ℕ → ℕ → World h → World h
  entry_stored n a w = after_write l sto.account (map_address sto (n + 1)) a (place_stored n a w)

  pub after_add : ℕ → ℕ → World h → World h
  after_add n a w =
      after_set l (open_slot sto 0) (n + 1) (after_get (open_slot sto 0) (entry_stored n a w))

  entry_stored-IsWritable : (n a : ℕ) (w : World h) → IsWritable w → IsWritable (entry_stored n a w)
  unfolding entry_stored place_stored
  entry_stored-IsWritable n a w p =
      after_write-IsWritable l _ _ a _
        (after_write-IsWritable l _ _ (n + 1) _ (after_get-IsWritable (open_slot sto 0) w p))

  list_stored :
      (n a : ℕ) (w : World h) (j : ℕ)
      → n + 1 < 2 ^ 64
      → a < 2 ^ 160
      → j < 2 ^ 64
      → cell l (entry_stored n a w) sto j ≡ (if n + 1 == j then a else cell l w sto j)
  unfolding entry_stored place_stored
  list_stored n a w j p q r =
      cell-after_write l sto apart.own (n + 1) a _ j p r
      ∙ ap (λ x. if n + 1 == j then a else x)
          (list-after_place sto apart l a (n + 1) _ j r q
            ∙ cell-after_get l sto (open_slot sto 0) w j)

  pub list-after_add :
      (n a : ℕ) (w : World h) (j : ℕ)
      → n + 1 < 2 ^ 64
      → a < 2 ^ 160
      → j < 2 ^ 64
      → cell l (after_add n a w) sto j
        ≡ (if 0 == j then n + 1 else if n + 1 == j then a else cell l w sto j)
  unfolding after_add
  list-after_add n a w j p q r =
      cell-after_set l sto apart.own 0 (n + 1) _ j (omega arith) r
      ∙ ap (λ x. if 0 == j then n + 1 else x)
          (cell-after_get l sto (open_slot sto 0) (entry_stored n a w) j
            ∙ list_stored n a w j p q r)

  pub place-after_add :
      (n a : ℕ) (w : World h) (b : ℕ)
      → n + 1 < 2 ^ 64
      → a < 2 ^ 160
      → b < 2 ^ 160
      → cell l (after_add n a w) (places sto) b
        ≡ (if a == b then n + 1 else cell l w (places sto) b)
  unfolding after_add entry_stored place_stored
  place-after_add n a w b p q r =
      place-after_set sto apart l 0 (n + 1) _ b (omega arith) r
      ∙ cell-after_get l (places sto) (open_slot sto 0) (entry_stored n a w) b
      ∙ place-after_write sto apart l (n + 1) a (place_stored n a w) b p r
      ∙ place-after_place sto apart l a (n + 1) (after_get (open_slot sto 0) w) b q r
      ∙ ap (λ x. if a == b then n + 1 else x) (cell-after_get l (places sto) (open_slot sto 0) w b)

  pub after_add-IsWritable : (n a : ℕ) (w : World h) → IsWritable w → IsWritable (after_add n a w)
  unfolding after_add
  after_add-IsWritable n a w p =
      after_set-IsWritable l (open_slot sto 0) _ _
        (after_get-IsWritable (open_slot sto 0) _ (entry_stored-IsWritable n a w p))

  -- The list of offsets after the add.
  pub entries-after_add :
      (w : World h) (xs : List ℕ) (a : ℕ)
      → ((i : ℕ) → i < length xs → cell l w sto (i + 1) ≡ get_or xs i 0)
      → a < 2 ^ 160
      → length xs < u64_max
      → (i : ℕ) → i < length (xs ++ a ∷ [])
      → cell l (after_add (length xs) a w) sto (i + 1) ≡ get_or (xs ++ a ∷ []) i 0
  entries-after_add w xs a held p room i s =
      list-after_add (length xs) a w (i + 1) (omega arith) p
        (omega (arith, length-append xs (a ∷ [])))
      ∙ rw (==_ne 0 (i + 1) (omega arith))
          (rw (shift_eq (length xs) i) (old_entry (omega (arith, length-append xs (a ∷ [])))))
      ∙ sym (get_or-append xs a i (omega (arith, length-append xs (a ∷ []))))
    where
      old_entry :
          i ≤ length xs
          → (if length xs == i then a else cell l w sto (i + 1))
            ≡ (if length xs == i then a else get_or xs i 0)
      old_entry t = elim (Bool-cases (length xs == i)) [
        | inl last ↦ rw last refl
        | inr before ↦ rw before (held i (ground (arith, t, before)))
      ]

  -- The world after the add of a new member holds the list with it at the end.
  pub HoldsSet-after_add :
      (w : World h) (xs : List ℕ) (a : ℕ)
      → HoldsSet sto apart l w xs
      → a < 2 ^ 160
      → length xs < u64_max
      → place a xs ≡ 0
      → HoldsSet sto apart l (after_add (length xs) a w) (xs ++ a ∷ [])
  unfolding after_add
  HoldsSet-after_add w xs a q p room new = record {
    writable = after_add-IsWritable (length xs) a w q.writable;
    room = omega (arith, length-append xs (a ∷ []));
    size_at =
        list-after_add (length xs) a w 0 (omega arith) p (omega arith)
        ∙ omega (arith, length-append xs (a ∷ []));
    entries = entries-after_add w xs a q.entries p room;
    mapped = mapped;
  }
    where
      mapped :
          (b : ℕ)
          → b < 2 ^ 160
          → cell l (after_add (length xs) a w) (places sto) b ≡ place b (xs ++ a ∷ [])
      mapped b s =
          place-after_add (length xs) a w b (omega arith) p s ∙ (elim (Bool-cases (a == b)) [
            | inl same ↦
                rw same
                  (sym (place-append b a xs ∙ rw (sym ((==_iff a b).0 same), new, ==_refl a) refl))
            | inr other ↦ rw other (
                q.mapped b s
                ∙ sym (place-append b a xs ∙ place_other a b (length xs + 1) (place b xs) other))
          ])

  -- The calls of `add` behind its test of membership, for an address that is no member.
  pub add_new :
      (w : World h) (n a : ℕ)
      → cell l w sto 0 ≡ n
      → n < u64_max
      → a < 2 ^ 160
      → IsWritable w
      → add_if (open_set sto) a false w ≡ ok tt (after_add n a w)
  unfolding add_if after_add entry_stored place_stored open_sub_storage
  add_new w n a size room p writable =
      bind-ok (get_uint64 (open_slot sto 0)) _ w (get_cell l sto w 0 n size (omega (arith, room)))
      ∙ rw (wrap_small n room) (
          bind-ok (set_by_key (places sto) a (n + 1)) _ _
            (set_by_key_lem l (places sto) a (n + 1) _)
          ∙ bind-ok (write_slot sto (n + 1) a) _ _ (write_slot_lem l sto (n + 1) a _)
          ∙ bind-ok (increment (open_slot sto 0)) _ _ (
              increment_cell l sto (entry_stored n a w) 0 n size_kept
                (entry_stored-IsWritable n a w writable) room))
    where
      size_kept : cell l (entry_stored n a w) sto 0 ≡ n
      size_kept =
          list_stored n a w 0 (omega arith) p (omega arith)
          ∙ rw (==_ne (n + 1) 0 (omega arith)) size

  -- An add writes to the size, to the place of the address and to the offset behind the list.
  pub value-after_add :
      (n a : ℕ) (w : World h) (account k : ℕ)
      → map_address sto 0 ≢ k
      → map_address (places sto) a ≢ k
      → map_address sto (n + 1) ≢ k
      → value l (after_add n a w) account k ≡ value l w account k
  unfolding after_add entry_stored place_stored open_slot
  value-after_add n a w account k size mapping entry =
      value-after_set l (open_slot sto 0) _ _ account k
      ∙ unseen sto.account account _ _ _ _ size
      ∙ value-after_get l (open_slot sto 0) _ account k
      ∙ value-after_write l sto.account _ _ _ account k
      ∙ unseen sto.account account _ _ _ _ entry
      ∙ value-after_write l sto.account _ _ _ account k
      ∙ unseen sto.account account _ _ _ _ mapping
      ∙ value-after_get l (open_slot sto 0) w account k

  pub add_new_lem :
      (w : World h) (xs : List ℕ) (a : ℕ)
      → HoldsSet sto apart l w xs
      → a < 2 ^ 160
      → length xs < u64_max
      → place a xs ≡ 0
      → add (open_set sto) a w ≡ ok tt (after_add (length xs) a w)
  unfolding add add_if
  add_new_lem w xs a q p room new =
      bind-ok (is_member (open_set sto) a) _ w (is_member_lem sto apart l w xs a q p)
      ∙ rw new (add_new w (length xs) a q.size_at room p q.writable)

  -- On a host that is a store and for a storage whose list and mapping do not collide: on a set
  -- with room for one more, `add` of an address of 160 bits returns, and leaves the set with the
  -- address at the end of its members if it was not one, or as it was.
  pub add_lem :
      (w : World h) (xs : List ℕ) (a : ℕ)
      → HoldsSet sto apart l w xs
      → a < 2 ^ 160
      → length xs < u64_max
      → Leaves (add (open_set sto) a) w (λ w'. HoldsSet sto apart l w' (insert a xs))
  unfolding add add_if
  add_lem w xs a q p room = elim (Bool-cases (place a xs == 0)) [
    | inr member ↦ record {
      after = w;
      returned =
          bind-ok (is_member (open_set sto) a) _ w (is_member_lem sto apart l w xs a q p)
          ∙ rw member refl;
      left_with = rw member q;
    }
    | inl new ↦ record {
      after = after_add (length xs) a w;
      returned = add_new_lem w xs a q p room ((==_iff (place a xs) 0).0 new);
      left_with = rw new (HoldsSet-after_add w xs a q p room ((==_iff (place a xs) 0).0 new));
    }
  ]
