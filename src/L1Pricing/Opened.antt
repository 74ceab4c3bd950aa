-- ===== src/L1Pricing/Opened.antt =====
-- The slots of an L1 price that is opened on a storage, and its update.
use arb_reth.Prelude.{
  ℕ, ◌/◌, ◌≤◌, ◌≡◌, ◌≢◌, refl, arith, Bool, true, false, [], ◌∷◌, leb, ltb, leb→le, ◌==◌, ◌&&◌, ap,
  u64_max, ==_ne, ==_refl, if◌then◌else◌,
}
use arb_reth.Host.{Host, IsStore, IsBank}
use arb_reth.Bytes.{to_be_bytes}
use arb_reth.World.{World, ok}
use arb_reth.World.Ends.{Ends}
use arb_reth.Storage.Slot.{IsWritable}
use arb_reth.Storage.Typed.Laws.{held}
use arb_reth.Storage.Space.{Storage, map_address, open_slot, open_sub_storage}
use arb_reth.Storage.Space.Keys.{page_hash, map_address-eq, map_address-ne_on_page}
use arb_reth.AddressSet.{is_member}
use arb_reth.BatchPoster.{internal_open}
use arb_reth.BatchPoster.Balance.{same_slot, Differs}
use arb_reth.L1Pricing.{open_l1_pricing_state}
use arb_reth.L1Pricing.Arith.{first_time, is_invalid_time}
use arb_reth.L1Pricing.Steps.{updated, invalid_time}
use arb_reth.L1Pricing.Update.{update_for_batch_poster_spending}
use arb_reth.L1Pricing.Payments.{Layout}
use arb_reth.L1Pricing.Covered.{counters, AllSmall, Backed, IsFree}
use arb_reth.L1Pricing.Before.{update_before-Ends}

module _ ⦃h : Host⦄ where
  -- The slots of two offsets of the first page.
  same_slot_near :
      (sto : Storage) (i j : ℕ)
      → (i == j) ≡ false
      → leb i 255 ≡ true
      → leb j 255 ≡ true
      → same_slot (open_slot sto i) (open_slot sto j) ≡ false
  unfolding open_slot
  same_slot_near sto i j ne p q =
      rw
        (
          ==_refl sto.account,
          ==_ne (map_address sto i) (map_address sto j)
              (map_address-ne_on_page sto i j (ground (arith, p, q)) (ground (arith, ne))),
        )
        refl

  -- The first slot of a storage with another page, and a slot of the first page.
  same_slot_far :
      (far sto : Storage) (j : ℕ)
      → page_hash sto 0 ≢ page_hash far 0
      → leb j 255 ≡ true
      → same_slot (open_slot far 0) (open_slot sto j) ≡ false
  unfolding open_slot
  same_slot_far far sto j ne p =
      rw (==_ne (map_address far 0) (map_address sto j) (slots ne))
        (and_false (far.account == sto.account))
    where
      and_false : (b : Bool) → (b && false) ≡ false
      and_false true = refl
      and_false false = refl

      slots : page_hash sto 0 ≢ page_hash far 0 → map_address far 0 ≢ map_address sto j
      slots ne e = ne (omega (arith, e, map_address-eq far 0, map_address-eq sto j, paged, small))
        where
          small : j ≤ 255
          small = leb→le j 255 p

          paged : page_hash sto (j / 256) ≡ page_hash sto 0
          paged = ap (page_hash sto) (omega (arith, small))

  -- The storage of the table, and that of a poster.
  abbrev pub table_storage : Storage → Storage
  table_storage sto = open_sub_storage sto (0 ∷ [])

  abbrev pub poster_storage : Storage → ℕ → Storage
  poster_storage sto poster =
      open_sub_storage (open_sub_storage (table_storage sto) (1 ∷ [])) (to_be_bytes 20 poster)

  module _ (l : IsStore h) (bank : IsBank h l) (sto : Storage) (v : ℕ) where
    far_IsFree :
        (far : Storage)
        → page_hash sto 0 ≢ page_hash far 0
        → IsFree l bank (open_l1_pricing_state sto v) (open_slot far 0)
    far_IsFree far ne = (
      apart 11 refl,
      (apart 6 refl, (apart 3 refl, (apart 4 refl, (apart 2 refl, (apart 10 refl, tt))))),
    )
      where
        apart : (j : ℕ) → leb j 255 ≡ true → same_slot (open_slot far 0) (open_slot sto j) ≡ false
        apart j p = same_slot_far far sto j ne p

    -- An offset of the first page, and the counters.
    near_counters :
        (k : ℕ)
        → leb k 255 ≡ true
        → (k == 6) ≡ false
        → (k == 3) ≡ false
        → (k == 4) ≡ false
        → (k == 2) ≡ false
        → (k == 10) ≡ false
        → Differs (open_slot sto k) (counters l bank (open_l1_pricing_state sto v))
    near_counters k p n6 n3 n4 n2 n10 = (
      same_slot_near sto k 6 n6 p refl,
      (
        same_slot_near sto k 3 n3 p refl,
        (
          same_slot_near sto k 4 n4 p refl,
          (same_slot_near sto k 2 n2 p refl, (same_slot_near sto k 10 n10 p refl, tt)),
        ),
      ),
    )

    opened-Layout :
        (poster : ℕ)
        → page_hash sto 0 ≢ page_hash (table_storage sto) 0
        → page_hash sto 0 ≢ page_hash (poster_storage sto poster) 0
        → Layout l bank
            (open_l1_pricing_state sto v)
            (internal_open (open_l1_pricing_state sto v).batch_poster_table poster)
    opened-Layout poster table_apart poster_apart = record {
      fees_apart = near_counters 11 refl refl refl refl refl refl;
      units_fees = same_slot_near sto 6 11 refl refl refl;
      time_fees = same_slot_near sto 4 11 refl refl refl;
      rewards_free =
          (same_slot_near sto 5 11 refl refl refl, near_counters 5 refl refl refl refl refl refl);
      surplus_free =
          (same_slot_near sto 8 11 refl refl refl, near_counters 8 refl refl refl refl refl refl);
      price_free =
          (same_slot_near sto 7 11 refl refl refl, near_counters 7 refl refl refl refl refl refl);
      due_free = far_IsFree (poster_storage sto poster) poster_apart;
      total_free = far_IsFree (table_storage sto) table_apart;
    }

    -- On a host with a store and balances and for a state that is opened on a storage, for the ArbOS
    -- versions from 2 to 9: for a poster of the table, a 64-bit update time and a writable world whose
    -- counters are 64-bit numbers, if the pages of the table and of the poster do not collide with that
    -- of the state, `update_for_batch_poster_spending` returns, with an error exactly for times that are
    -- not valid, and leaves such a world again, with the stored fees that it had.
    pub pre_version10_update_for_batch_poster_spending-Ends :
        (arbos_version update_time current_time batch_poster wei_spent l1_basefee : ℕ) (w : World h)
        → leb 2 arbos_version ≡ true
        → ltb arbos_version 10 ≡ true
        → update_time ≤ u64_max
        → page_hash sto 0 ≢ page_hash (table_storage sto) 0
        → page_hash sto 0 ≢ page_hash (poster_storage sto batch_poster) 0
        → is_member (open_l1_pricing_state sto v).batch_poster_table.poster_addrs batch_poster w
          ≡ ok true w
        → IsWritable w
        → AllSmall l bank
            (open_l1_pricing_state sto v)
            w
            (counters l bank (open_l1_pricing_state sto v))
        → Ends
            (update_for_batch_poster_spending
              (open_l1_pricing_state sto v)
              arbos_version
              update_time
              current_time
              batch_poster
              wei_spent
              l1_basefee)
            w
            (λ r w'.
              (r ≡ (
                if is_invalid_time
                  (first_time (held l w (open_l1_pricing_state sto v).last_update_time) update_time)
                  update_time
                  current_time
                then invalid_time
                else updated))
              × Backed l bank
                  (open_l1_pricing_state sto v)
                  (held l w (open_l1_pricing_state sto v).l1_fees_available)
                  0
                  w')
    pre_version10_update_for_batch_poster_spending-Ends arbos_version update_time current_time
          batch_poster wei_spent l1_basefee w from before small table_apart poster_apart member
          writable counted =
        update_before-Ends l bank (open_l1_pricing_state sto v) arbos_version update_time
          current_time batch_poster wei_spent l1_basefee w from before small
          (opened-Layout batch_poster table_apart poster_apart) member
          (record { writable = writable; stored = refl; in_pool = omega arith; small = counted })
