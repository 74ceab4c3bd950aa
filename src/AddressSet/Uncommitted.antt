-- ===== src/AddressSet/Uncommitted.antt =====
-- `rectify_mapping` of a wrong entry on a journal, whose reads do not see the writes before them.
use arb_reth.Prelude.{
  ℕ, ◌≤◌, ◌<◌, ◌≡◌, ◌≢◌, ◌⊎◌, refl, sym, ◌∙◌, arith, inl, inr, false, not, ◌&&◌, ◌==◌, ==_ne, leb,
  u64_max, if◌then◌else◌,
}
use arb_reth.Host.{Host, IsJournal}
use arb_reth.World.{World, ◌>>◌, ok, bind-ok}
use arb_reth.World.Loop.{Leaves}
use arb_reth.Storage.Slot.{get, after_get}
use arb_reth.Storage.Slot.Journaled.{
  committed_in, pending_in, read_committed, write_pending, get_committed,
}
use arb_reth.Storage.Typed.{get_uint64}
use arb_reth.Storage.Space.{
  Storage, map_address, map_address_by_key, open_slot, open_sub_storage, read_slot, get_by_key,
  clear_by_key, get_uint64_by_key,
}
use arb_reth.AddressSet.{open_set, is_member, add, add_if, rectify_mapping, rectify_if}
use arb_reth.AddressSet.Model.{places}

module _ ⦃h : Host⦄ (j : IsJournal h) (sto : Storage) (a : ℕ) where
  -- The committed entry of the address in the mapping.
  abbrev pub entry_in : World h → ℕ
  entry_in w = committed_in j w sto.account (map_address_by_key (places sto) a)

  is_member_committed : (w : World h) → is_member (open_set sto) a w ≡ ok (not (entry_in w == 0)) w
  unfolding is_member get_by_key open_sub_storage
  is_member_committed w =
      bind-ok (get_by_key (places sto) a) _ w
        (read_committed j sto.account (map_address_by_key (places sto) a) w)

  get_entry :
      (w : World h) → entry_in w ≤ u64_max → get_uint64_by_key (places sto) a w ≡ ok (entry_in w) w
  unfolding get_uint64_by_key get_by_key open_sub_storage
  get_entry w small =
      bind-ok (get_by_key (places sto) a) _ w
        (read_committed j sto.account (map_address_by_key (places sto) a) w)
      ∙ ground (arith, small)

  get_size :
      (w : World h)
      → committed_in j w sto.account (map_address sto 0) ≤ u64_max
      → get_uint64 (open_slot sto 0) w
        ≡ ok (committed_in j w sto.account (map_address sto 0)) (after_get (open_slot sto 0) w)
  unfolding get_uint64 open_slot
  get_size w room =
      bind-ok (get (open_slot sto 0)) _ w (get_committed j (open_slot sto 0) w)
      ∙ ground (arith, room)

  -- The world after the repair: the size was read, and the entry is cleared in the journal.
  with_cleared : World h → World h
  with_cleared w =
      let w1 = after_get (open_slot sto 0) w in
      record w1 { db = j.write w1.db sto.account (map_address_by_key (places sto) a) 0 }

  module _ (w : World h) (some : entry_in w ≢ 0) where
    -- The entry is cleared, and since its read still sees it nothing is added.
    repair_clears :
        (clear_by_key (places sto) a >> add (open_set sto) a) (after_get (open_slot sto 0) w)
        ≡ ok tt (with_cleared w)
    unfolding clear_by_key add add_if with_cleared open_sub_storage after_get
    repair_clears =
        bind-ok (clear_by_key (places sto) a) _ _
          (write_pending j sto.account (map_address_by_key (places sto) a) 0 _)
        ∙ bind-ok (is_member (open_set sto) a) _ (with_cleared w)
            (is_member_committed (with_cleared w))
        ∙ rw
            (==_ne (entry_in (with_cleared w)) 0
              (λ e. some (sym (j.committed-write w.db sto.account _ 0 sto.account _) ∙ e)))
            refl

    -- On a host that is a journal, whose reads see what was committed: for an address whose entry in
    -- the mapping is a number of 64 bits, but not zero, and is beyond the size, a number of 64 bits, or
    -- the offset of another address, `rectify_mapping` returns and writes one slot, the entry, which
    -- becomes zero: the address is not added, and once the call is committed it is no member.
    pub rectify_mapping_clears :
        entry_in w ≤ u64_max
        → committed_in j w sto.account (map_address sto 0) ≤ u64_max
        → (committed_in j w sto.account (map_address sto 0) < entry_in w)
          ⊎ (committed_in j w sto.account (map_address sto (entry_in w)) ≢ a)
        → Leaves (rectify_mapping (open_set sto) a) w (λ w'.
          (b k : ℕ)
          → pending_in j w' b k ≡ (
              if sto.account == b && map_address_by_key (places sto) a == k
              then 0
              else pending_in j w b k))
    unfolding rectify_mapping rectify_if with_cleared after_get read_slot open_sub_storage
    rectify_mapping_clears small room wrong = record {
      after = with_cleared w;
      returned =
          bind-ok (is_member (open_set sto) a) _ w (is_member_committed w)
          ∙ rw (==_ne (entry_in w) 0 some) (
              bind-ok (get_uint64_by_key (places sto) a) _ w (get_entry w small)
              ∙ bind-ok (read_slot sto (entry_in w)) _ w (read_committed j sto.account _ w)
              ∙ bind-ok (get_uint64 (open_slot sto 0)) _ w (get_size w room)
              ∙ rw (is_wrong wrong) repair_clears);
      left_with = λ b k. j.pending-write w.db sto.account _ 0 b k;
    }
      where
        is_wrong :
            (committed_in j w sto.account (map_address sto 0) < entry_in w)
              ⊎ (committed_in j w sto.account (map_address sto (entry_in w)) ≢ a)
            → (committed_in j w sto.account (map_address sto (entry_in w)) == a
                && leb (entry_in w) (committed_in j w sto.account (map_address sto 0)))
              ≡ false
        is_wrong (inl beyond) = ground (arith, beyond)
        is_wrong (inr other) = rw (==_ne _ a other) refl
