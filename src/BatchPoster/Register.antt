-- ===== src/BatchPoster/Register.antt =====
-- `add_poster` and `open_poster` on the posters of a table.
use arb_reth.Prelude.{
  ℕ, ◌/◌, ◌^◌, ◌<◌, ◌≡◌, ◌≢◌, refl, sym, ◌∙◌, ◌+◌, ap, arith, Bool, true, false, ◌||◌, ◌&&◌, not,
  List, [], ◌∷◌, ◌++◌, length, u64_max, if◌then◌else◌, inl, inr, Bool-cases, ◌⊎◌,
}
use arb_reth.Prelude.Int.{pos, to_raw}
use arb_reth.Host.{Host, IsStore}
use arb_reth.Bytes.{to_be_bytes}
use arb_reth.Signed.{i256_half}
use arb_reth.World.{World, ok}
use arb_reth.World.Ends.{Ends, Ends-pure, Ends-bind_ok}
use arb_reth.Storage.Slot.{after_set, set_lem, value-after_set}
use arb_reth.Storage.Typed.{set_big_int, set_address}
use arb_reth.Storage.Space.{Storage, map_address, open_slot, open_sub_storage}
use arb_reth.Storage.Space.Keys.{page_hash, map_address-eq, map_address-ne_on_page}
use arb_reth.Storage.Typed.Laws.{held, held-after_set_self}
use arb_reth.AddressSet.{is_member, add}
use arb_reth.AddressSet.Model.{
  place, places, contains, Apart, HoldsSet, HoldsSet-after_set, is_member_lem,
}
use arb_reth.AddressSet.Add.{unseen, after_add, value-after_add, add_new_lem, HoldsSet-after_add}
use arb_reth.BatchPoster.{
  opened, semantic, already_exists, not_exist, open_table, internal_open, add_poster, add_poster_if,
  open_poster, open_poster_if,
}

false_ne_true : false ≢ true
false_ne_true e = ground (arith, e)

module _ ⦃h : Host⦄ where
  -- The storage of the set of posters, and that of one poster.
  abbrev pub set_storage : Storage → Storage
  set_storage sto = open_sub_storage sto (0 ∷ [])

  abbrev pub poster_at : Storage → ℕ → Storage
  poster_at sto poster = open_sub_storage (open_sub_storage sto (1 ∷ [])) (to_be_bytes 20 poster)

  -- The first page of a poster is no page of the set.
  pub record PosterApart (sto : Storage) (poster : ℕ) : Type 0 where
    pub from_list :
        (p : ℕ) → p < 2 ^ 56 → page_hash (poster_at sto poster) 0 ≢ page_hash (set_storage sto) p
    pub from_mapping :
        (p : ℕ)
        → p < 2 ^ 152
        → page_hash (poster_at sto poster) 0 ≢ page_hash (places (set_storage sto)) p

  module _ (l : IsStore h) (sto : Storage) (apart : Apart (set_storage sto)) (poster : ℕ)
      (small : poster < 2 ^ 160) (free : PosterApart sto poster) {w : World h} {xs : List ℕ}
      (q : HoldsSet (set_storage sto) apart l w xs) where
    first_page :
        (k : ℕ)
        → k < 256
        → page_hash (poster_at sto poster) (k / 256) ≡ page_hash (poster_at sto poster) 0
    first_page k p = ap (page_hash (poster_at sto poster)) (omega (arith, p))

    off_list :
        (k i : ℕ)
        → k < 256
        → i < 2 ^ 64
        → map_address (poster_at sto poster) k ≢ map_address (set_storage sto) i
    off_list k i p r e = free.from_list (i / 256) (omega (arith, r)) (
        omega (
          arith,
          p,
          map_address-eq (poster_at sto poster) k,
          map_address-eq (set_storage sto) i,
          e,
          first_page k p,
        ))

    off_mapping :
        (k a : ℕ)
        → k < 256
        → a < 2 ^ 160
        → map_address (poster_at sto poster) k ≢ map_address (places (set_storage sto)) a
    off_mapping k a p r e = free.from_mapping (a / 256) (omega (arith, r)) (
        omega (
          arith,
          p,
          map_address-eq (poster_at sto poster) k,
          map_address-eq (places (set_storage sto)) a,
          e,
          first_page k p,
        ))

    -- A write to one of the poster's slots.
    pub kept :
        (k v : ℕ) {w' : World h}
        → k < 256
        → HoldsSet (set_storage sto) apart l w' xs
        → HoldsSet
            (set_storage sto)
            apart
            l
            (after_set l (open_slot (poster_at sto poster) k) v w')
            xs
    unfolding open_slot
    kept k v {w'} p held =
        HoldsSet-after_set (set_storage sto) apart l (open_slot (poster_at sto poster) k) v w' xs
          (λ i r. off_list k i p r) (λ a r. off_mapping k a p r) held

    -- The world after the calls of `add_poster` for a new poster.
    info_stored : ℕ → World h
    info_stored payee =
        after_set l (open_slot (poster_at sto poster) 1) payee
          (after_set l (open_slot (poster_at sto poster) 0) (to_raw i256_half (pos 0)) w)

    -- A new poster, that the table did not hold, is paid to the payee, and is due nothing.
    pub record IsNew (payee : ℕ) (w' : World h) : Type 0 where
      pub nothing_due : held l w' (open_slot (poster_at sto poster) 0) ≡ 0
      pub paid_to : held l w' (open_slot (poster_at sto poster) 1) ≡ payee

    -- An add to the set keeps the poster's slots.
    info_kept :
        (k : ℕ) (w' : World h)
        → k < 256
        → length xs < u64_max
        → held l
            (after_add l (set_storage sto) apart (length xs) poster w')
            (open_slot (poster_at sto poster) k)
          ≡ held l w' (open_slot (poster_at sto poster) k)
    unfolding open_slot
    info_kept k w' p room =
        value-after_add l (set_storage sto) apart (length xs) poster w' _ _
          (λ e. off_list k 0 p (omega arith) (sym e)) (λ e. off_mapping k poster p small (sym e))
          (λ e. off_list k (length xs + 1) p (omega (arith, room)) (sym e))

    info_stored-IsNew : (payee : ℕ) → IsNew payee (info_stored payee)
    unfolding info_stored open_slot
    info_stored-IsNew payee = record {
      nothing_due =
          value-after_set l (open_slot (poster_at sto poster) 1) payee _ _ _
          ∙ unseen (poster_at sto poster).account (poster_at sto poster).account _ _ _ _
              (λ e. map_address-ne_on_page (poster_at sto poster) 1 0 (omega arith) (omega arith) e)
          ∙ held-after_set_self l (open_slot (poster_at sto poster) 0) _ w;
      paid_to = held-after_set_self l (open_slot (poster_at sto poster) 1) payee _;
    }

    -- The part of `add_poster` behind its test of membership.
    registered :
        (payee : ℕ)
        → contains poster xs ≡ false
        → length xs < u64_max
        → Ends (add_poster_if (open_table sto) poster payee false) w (λ r w'.
          (r ≡ opened (internal_open (open_table sto) poster))
          × HoldsSet (set_storage sto) apart l w' (xs ++ poster ∷ [])
          × IsNew payee w')
    unfolding add_poster_if set_big_int set_address info_stored
    registered payee new room =
        Ends-bind_ok (set_big_int (open_slot (poster_at sto poster) 0) (pos 0)) _ w
          (set_lem l (open_slot (poster_at sto poster) 0) _ w q.writable)
          (Ends-bind_ok (set_address (open_slot (poster_at sto poster) 1) payee) _ w1
            (set_lem l (open_slot (poster_at sto poster) 1) payee w1 q1.writable)
            (Ends-bind_ok (add (open_table sto).poster_addrs poster) _ (info_stored payee)
              (add_new_lem l (set_storage sto) apart (info_stored payee) xs poster q2 small room
                absent)
              (Ends-pure _ _ (
                refl,
                HoldsSet-after_add l (set_storage sto) apart (info_stored payee) xs poster q2 small
                    room absent,
                record {
                  nothing_due =
                      info_kept 0 (info_stored payee) (omega arith) room
                      ∙ (info_stored-IsNew payee).nothing_due;
                  paid_to =
                      info_kept 1 (info_stored payee) (omega arith) room
                      ∙ (info_stored-IsNew payee).paid_to;
                },
              ))))
      where
        w1 : World h
        w1 = after_set l (open_slot (poster_at sto poster) 0) (to_raw i256_half (pos 0)) w

        q1 : HoldsSet (set_storage sto) apart l w1 xs
        q1 = kept 0 _ (omega arith) q

        q2 : HoldsSet (set_storage sto) apart l (info_stored payee) xs
        q2 = kept 1 _ (omega arith) q1

        absent : place poster xs ≡ 0
        absent = ground (arith, new)

    tested : is_member (open_table sto).poster_addrs poster w ≡ ok (contains poster xs) w
    tested = is_member_lem (set_storage sto) apart l w xs poster q small

    -- What a call that registers the poster, or not, leaves: nothing stored, or the table with it.
    abbrev pub Leaving : Bool → ℕ → World h → Type 0
    Leaving created payee w' =
        HoldsSet (set_storage sto) apart l w' (if created then xs ++ poster ∷ [] else xs)
        × (created ≡ true → IsNew payee w')
        × (created ≡ false → w'.db ≡ w.db)

    unchanged : (payee : ℕ) → Leaving false payee w
    unchanged payee = (q, (λ e. absurd (false_ne_true e)), λ e. refl)

    add_poster_ends :
        (payee : ℕ)
        → length xs < u64_max
        → Ends (add_poster (open_table sto) poster payee) w (λ r w'.
          (r ≡ (
            if contains poster xs
            then semantic already_exists
            else opened (internal_open (open_table sto) poster)))
          × Leaving (not (contains poster xs)) payee w')
    unfolding add_poster add_poster_if
    add_poster_ends payee room = elim (Bool-cases (contains poster xs)) [
      | inl member ↦
          Ends-bind_ok (is_member (open_table sto).poster_addrs poster) _ w tested
            (rw member (Ends-pure (semantic already_exists) w (refl, unchanged payee)))
      | inr new ↦
          Ends-bind_ok (is_member (open_table sto).poster_addrs poster) _ w tested
            (rw new (created (registered payee new room)))
    ]
      where
        created :
            Ends (add_poster_if (open_table sto) poster payee false) w (λ r w'.
              (r ≡ opened (internal_open (open_table sto) poster))
              × HoldsSet (set_storage sto) apart l w' (xs ++ poster ∷ [])
              × IsNew payee w')
            → Ends (add_poster_if (open_table sto) poster payee false) w (λ r w'.
              (r ≡ opened (internal_open (open_table sto) poster)) × Leaving true payee w')
        created e = record {
          result = e.result;
          after = e.after;
          returned = e.returned;
          left_with = (
            e.left_with.0,
            (e.left_with.1, (λ t. e.left_with.2), (λ t. absurd (false_ne_true (sym t)))),
          );
        }

    -- On a host that is a store, for a table on a storage whose set of posters has a list and a mapping
    -- that do not collide, and a 160-bit address whose poster's page is none of theirs: if the table
    -- holds the posters `xs` and has room for one more, `open_poster` returns the state of a poster of
    -- the table, and of another if it is to create it, and otherwise that it does not exist; `add_poster`
    -- returns that a poster of the table exists, and otherwise its state. Where a poster is created the
    -- table holds it behind `xs`, it is due nothing, and it is paid to itself by `open_poster` and to
    -- the payee by `add_poster`; otherwise nothing is stored and the table holds `xs`.
    pub open_poster_lem :
        (payee : ℕ) (create_if_not_exist : Bool)
        → length xs < u64_max
        → Ends (open_poster (open_table sto) poster create_if_not_exist) w (λ r w'.
          (r ≡ (
            if contains poster xs || create_if_not_exist
            then opened (internal_open (open_table sto) poster)
            else semantic not_exist))
          × Leaving (not (contains poster xs) && create_if_not_exist) poster w')
          × Ends (add_poster (open_table sto) poster payee) w (λ r w'.
            (r ≡ (
              if contains poster xs
              then semantic already_exists
              else opened (internal_open (open_table sto) poster)))
            × Leaving (not (contains poster xs)) payee w')
    unfolding open_poster open_poster_if
    open_poster_lem payee create_if_not_exist room = (
      Ends-bind_ok (is_member (open_table sto).poster_addrs poster) _ w tested
          (decided create_if_not_exist (Bool-cases (contains poster xs))),
      add_poster_ends payee room,
    )
      where
        decided :
            (create : Bool)
            → (contains poster xs ≡ true) ⊎ (contains poster xs ≡ false)
            → Ends (open_poster_if (open_table sto) poster create (contains poster xs)) w (λ r w'.
              (r ≡ (
                if contains poster xs || create
                then opened (internal_open (open_table sto) poster)
                else semantic not_exist))
              × Leaving (not (contains poster xs) && create) poster w')
        decided true (inl member) = rw member (Ends-pure _ w (refl, unchanged poster))
        decided false (inl member) = rw member (Ends-pure _ w (refl, unchanged poster))
        decided true (inr new) = rw new (rw new at (add_poster_ends poster room))
        decided false (inr new) = rw new (Ends-pure _ w (refl, unchanged poster))
