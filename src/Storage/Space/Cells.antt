-- ===== src/Storage/Space/Cells.antt =====
-- The 64-bit slots of a storage, opened at an offset: what they do to the storage's cells.
use arb_reth.Prelude.{ℕ, ◌+◌, ◌-◌, ◌≤◌, ◌<◌, ◌≡◌, refl, ◌∙◌, ap, arith, ==_ne, u64_max}
use arb_reth.Host.{Host, IsStore}
use arb_reth.World.{World, ok, panic, increment_overflow}
use arb_reth.Storage.Slot.{StorageSlot, after_get, after_set, IsWritable, value-after_get}
use arb_reth.Storage.Typed.{get_uint64, increment, decrement}
use arb_reth.Storage.Typed.Laws.{held, get_uint64_lem, increment_lem, decrement_lem}
use arb_reth.Storage.Space.{Storage, map_address, open_slot}
use arb_reth.Storage.Space.Laws.{cell}

module _ ⦃h : Host⦄ (l : IsStore h) (sto : Storage) where
  pub held-cell : (w : World h) (i : ℕ) → held l w (open_slot sto i) ≡ cell l w sto i
  unfolding open_slot
  held-cell w i = refl

  pub cell-after_get :
      (s : StorageSlot) (w : World h) (j : ℕ) → cell l (after_get s w) sto j ≡ cell l w sto j
  cell-after_get s w j = value-after_get l s w sto.account (map_address sto j)

  module _ (w : World h) (i n : ℕ) (here : cell l w sto i ≡ n) where
    pub get_cell :
        n ≤ u64_max → get_uint64 (open_slot sto i) w ≡ ok n (after_get (open_slot sto i) w)
    get_cell p =
        get_uint64_lem l (open_slot sto i) w (omega (arith, held-cell w i, here))
        ∙ ap (λ x. ok x (after_get (open_slot sto i) w)) (held-cell w i ∙ here)

    pub increment_cell :
        IsWritable w
        → n < u64_max
        → increment (open_slot sto i) w
          ≡ ok (n + 1) (after_set l (open_slot sto i) (n + 1) (after_get (open_slot sto i) w))
    increment_cell p small =
        increment_lem l (open_slot sto i) w p (omega (arith, held-cell w i, here))
        ∙ rw (held-cell w i, here) (rw (==_ne n u64_max (omega arith)) refl)

    pub increment_full :
        IsWritable w → n ≡ u64_max → increment (open_slot sto i) w ≡ panic increment_overflow
    increment_full p full =
        increment_lem l (open_slot sto i) w p (omega (arith, held-cell w i, here))
        ∙ rw (held-cell w i, here, full) refl

    pub decrement_cell :
        IsWritable w
        → n ≤ u64_max
        → 0 < n
        → decrement (open_slot sto i) w
          ≡ ok (n - 1) (after_set l (open_slot sto i) (n - 1) (after_get (open_slot sto i) w))
    decrement_cell p small positive =
        decrement_lem l (open_slot sto i) w p (omega (arith, held-cell w i, here))
        ∙ rw (held-cell w i, here) (rw (==_ne n 0 (omega arith)) refl)
