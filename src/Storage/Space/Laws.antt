-- ===== src/Storage/Space/Laws.antt =====
-- The calls of `Storage` on a host that is a store: each returns, and changes one offset's cell.
use arb_reth.Prelude.{
  ℕ, ◌^◌, ◌<◌, ◌≡◌, ◌∙◌, ap, inl, inr, Bool-cases, true, false, ◌&&◌, ◌==◌, ==_iff, ==_refl, ==_ne,
  if◌then◌else◌,
}
use arb_reth.Host.{Host, IsStore}
use arb_reth.MultiGas.{storage_access}
use arb_reth.Burn
use arb_reth.World.{World, ok, panic, read_only_burner, bind-ok}
use arb_reth.Storage.Slot.{
  value, after_set, after_write, IsWritable, read_lem, write_lem, write_cost, value-after_set,
  value-after_write, after_write-IsWritable,
}
use arb_reth.Storage.Space.{
  Storage, map_address, read_slot, write_slot, get_by_key, set_by_key, get_by_uint64, set,
  set_by_uint64, set_uint64_by_uint64, swap, open_slot,
}
use arb_reth.Storage.Space.Keys.{
  NoPageCollision, map_address-injective, map_address_by_key-eq-map_address,
}

module _ ⦃h : Host⦄ where
  -- The world after `burn`.
  pub after_charge : ℕ → World h → World h
  after_charge cost w = record w { burner = Burn.burn storage_access cost w.burner }

  module _ (l : IsStore h) where
    -- The word at an offset of a storage.
    abbrev pub cell : World h → Storage → ℕ → ℕ
    cell w sto offset = value l w sto.account (map_address sto offset)

    -- The world after `Storage::set`.
    abbrev pub after_store : Storage → ℕ → ℕ → World h → World h
    after_store sto key v w =
        after_write l sto.account (map_address sto key) v (after_charge (write_cost v) w)

    pub read_slot_lem :
        (sto : Storage) (i : ℕ) (w : World h) → read_slot sto i w ≡ ok (cell w sto i) w
    unfolding read_slot
    read_slot_lem sto i w = read_lem l sto.account (map_address sto i) w

    pub write_slot_lem :
        (sto : Storage) (i v : ℕ) (w : World h)
        → write_slot sto i v w ≡ ok tt (after_write l sto.account (map_address sto i) v w)
    unfolding write_slot
    write_slot_lem sto i v w = write_lem l sto.account (map_address sto i) v w

    pub get_by_key_lem :
        (sto : Storage) (k : ℕ) (w : World h) → get_by_key sto k w ≡ ok (cell w sto k) w
    unfolding get_by_key
    get_by_key_lem sto k w =
        rw (map_address_by_key-eq-map_address sto k) (read_lem l sto.account (map_address sto k) w)

    pub set_by_key_lem :
        (sto : Storage) (k v : ℕ) (w : World h)
        → set_by_key sto k v w ≡ ok tt (after_write l sto.account (map_address sto k) v w)
    unfolding set_by_key
    set_by_key_lem sto k v w =
        rw (map_address_by_key-eq-map_address sto k)
          (write_lem l sto.account (map_address sto k) v w)

    pub get_by_uint64_lem :
        (sto : Storage) (k : ℕ) (w : World h) → get_by_uint64 sto k w ≡ ok (cell w sto k) w
    unfolding get_by_uint64
    get_by_uint64_lem sto k w = get_by_key_lem sto k w

    pub set_lem :
        (sto : Storage) (k v : ℕ) (w : World h)
        → IsWritable w
        → set sto k v w ≡ ok tt (after_store sto k v w)
    unfolding set after_charge
    set_lem sto k v w p = rw (p, set) (set_by_key_lem sto k v _)

    pub set_by_uint64_lem :
        (sto : Storage) (k v : ℕ) (w : World h)
        → IsWritable w
        → set_by_uint64 sto k v w ≡ ok tt (after_store sto k v w)
    unfolding set_by_uint64
    set_by_uint64_lem sto k v w p = set_lem sto k v w p

    pub set_uint64_by_uint64_lem :
        (sto : Storage) (k v : ℕ) (w : World h)
        → IsWritable w
        → set_uint64_by_uint64 sto k v w ≡ ok tt (after_store sto k v w)
    unfolding set_uint64_by_uint64
    set_uint64_by_uint64_lem sto k v w p = set_lem sto k v w p

    pub swap_lem :
        (sto : Storage) (k v : ℕ) (w : World h)
        → IsWritable w
        → swap sto k v w ≡ ok (cell w sto k) (after_store sto k v w)
    unfolding swap
    swap_lem sto k v w p =
        bind-ok (get_by_key sto k) _ w (get_by_key_lem sto k w)
        ∙ bind-ok (set sto k v) _ w (set_lem sto k v w p)

    -- A write at an offset is seen at that offset alone, of all the 64-bit ones.
    module _ (sto : Storage) (free : NoPageCollision sto) where
      same_slot :
          (i j : ℕ)
          → i < 2 ^ 64
          → j < 2 ^ 64
          → (sto.account == sto.account && map_address sto i == map_address sto j) ≡ (i == j)
      same_slot i j p q = elim (Bool-cases (i == j)) [
        | inl same ↦
            rw (same, (==_iff i j).0 same, ==_refl sto.account) (==_refl (map_address sto j))
        | inr different ↦
            rw (different, ==_refl sto.account)
              (==_ne _ _ (λ e. false_of (map_address-injective sto i j free p q e) different))
      ]
        where
          false_of : i ≡ j → (i == j) ≡ false → ⊥
          false_of e d = cc (==_refl j, rw e at d)

      pub cell-after_set :
          (i v : ℕ) (w : World h) (j : ℕ)
          → i < 2 ^ 64
          → j < 2 ^ 64
          → cell (after_set l (open_slot sto i) v w) sto j ≡ (if i == j then v else cell w sto j)
      unfolding open_slot
      cell-after_set i v w j p q =
          value-after_set l (open_slot sto i) v w sto.account (map_address sto j)
          ∙ ap (λ b. if b then v else cell w sto j) (same_slot i j p q)

      pub cell-after_write :
          (i v : ℕ) (w : World h) (j : ℕ)
          → i < 2 ^ 64
          → j < 2 ^ 64
          → cell (after_write l sto.account (map_address sto i) v w) sto j
            ≡ (if i == j then v else cell w sto j)
      cell-after_write i v w j p q =
          value-after_write l sto.account (map_address sto i) v w sto.account (map_address sto j)
          ∙ ap (λ b. if b then v else cell w sto j) (same_slot i j p q)

      pub cell-after_store :
          (i v : ℕ) (w : World h) (j : ℕ)
          → i < 2 ^ 64
          → j < 2 ^ 64
          → cell (after_store sto i v w) sto j ≡ (if i == j then v else cell w sto j)
      unfolding after_charge value
      cell-after_store i v w j p q = cell-after_write i v (after_charge (write_cost v) w) j p q

    pub after_store-IsWritable :
        (sto : Storage) (k v : ℕ) (w : World h) → IsWritable w → IsWritable (after_store sto k v w)
    unfolding after_charge Burn.burn
    after_store-IsWritable sto k v w p =
        after_write-IsWritable l _ _ v (after_charge (write_cost v) w) p

  -- `Storage::set` on a read-only burner panics: nothing is charged or stored.
  pub set_read_only :
      (sto : Storage) (k v : ℕ) (w : World h)
      → w.burner.read_only ≡ true
      → set sto k v w ≡ panic read_only_burner
  unfolding set
  set_read_only sto k v w p = rw (p, set)
