-- ===== src/Pricing/Fees/Commit.antt =====
-- `commit_next_to_current`: the next block's fees become the current ones.
use arb_reth.Prelude.{
  ℕ, ◌+◌, ◌*◌, ◌^◌, ◌<◌, ◌≡◌, refl, ◌∙◌, ap, arith, inl, inr, ==_ne, false, if◌then◌else◌, ◌==◌,
  Bool-cases, ==_iff,
}
use arb_reth.Prelude.Int.{ℤ, to_raw, from_raw}
use arb_reth.Host.{Host, IsStore}
use arb_reth.MultiGas.{ResourceKind, index, index-lt-count}
use arb_reth.World.{World, ok, bind-ok}
use arb_reth.World.Loop.{Leaves, for_range_lem}
use arb_reth.Storage.Slot
use arb_reth.Storage.Slot.{
  StorageSlot, after_get, after_set, get_lem, set_lem, IsWritable, after_get-IsWritable,
  after_set-IsWritable,
}
use arb_reth.Storage.Typed.{i256_half, get_big_int, set_big_int}
use arb_reth.Storage.Space.{Storage, open_slot}
use arb_reth.Storage.Space.Keys.{NoPageCollision}
use arb_reth.Storage.Space.Laws.{cell, cell-after_set}
use arb_reth.Storage.Space.Cells.{held-cell, cell-after_get}
use arb_reth.Pricing.Fees.{
  open_fees, commit_kind, commit_next_to_current, get_current_block_fee, get_next_block_fee,
}

to_raw-from_raw : (half raw : ℕ) → raw < 2 * half → to_raw half (from_raw half raw) ≡ raw
to_raw-from_raw half raw p = ground arith

shift_eq : (i j : ℕ) → (8 + i == 8 + j) ≡ (i == j)
shift_eq i j = ground arith

below : (i j : ℕ) → j < i + 1 → (i == j) ≡ false → j < i
below i j p e = ground arith

module _ ⦃h : Host⦄ (l : IsStore h) (sto : Storage) (free : NoPageCollision sto) where
  -- The fee that an offset of a world holds.
  abbrev pub fee_at : World h → ℕ → ℤ
  fee_at w i = from_raw i256_half (cell l w sto i)

  get_fee :
      (w : World h) (i : ℕ)
      → get_big_int (open_slot sto i) w ≡ ok (fee_at w i) (after_get (open_slot sto i) w)
  unfolding get_big_int
  get_fee w i =
      bind-ok (Slot.get (open_slot sto i)) _ w (get_lem l (open_slot sto i) w)
      ∙ ap (λ x. ok (from_raw i256_half x) (after_get (open_slot sto i) w)) (held-cell l sto w i)

  get_fee_of :
      (w w0 : World h) (i j : ℕ)
      → cell l w sto i ≡ cell l w0 sto j
      → get_big_int (open_slot sto i) w ≡ ok (fee_at w0 j) (after_get (open_slot sto i) w)
  get_fee_of w w0 i j e =
      get_fee w i ∙ ap (λ x. ok (from_raw i256_half x) (after_get (open_slot sto i) w)) e

  -- The next fees are those of `w0`, and of the current fees those of the kinds below `i`.
  record Upto (w0 : World h) (i : ℕ) (w : World h) : Type 0 where
    writable : IsWritable w
    next_same : (j : ℕ) → j < 8 → cell l w sto j ≡ cell l w0 sto j
    current_done : (j : ℕ) → j < i → cell l w sto (8 + j) ≡ cell l w0 sto j

  -- The world after one round.
  after_round : ℕ → World h → World h
  after_round i w =
      after_set l (open_slot sto (8 + i)) (to_raw i256_half (fee_at w i))
        (after_get (open_slot sto i) w)

  round_cell :
      (i : ℕ) (w : World h) (j : ℕ)
      → i < 8
      → j < 16
      → cell l w sto i < 2 ^ 256
      → cell l (after_round i w) sto j ≡ (if 8 + i == j then cell l w sto i else cell l w sto j)
  unfolding after_round
  round_cell i w j p q small =
      cell-after_set l sto free (8 + i) _ _ j (omega arith) (omega arith)
      ∙ rw
          (
            cell-after_get l sto (open_slot sto i) w j,
            to_raw-from_raw i256_half (cell l w sto i) small,
          )
          refl

  round_next :
      (i : ℕ) (w : World h) (j : ℕ)
      → i < 8
      → j < 8
      → cell l w sto i < 2 ^ 256
      → cell l (after_round i w) sto j ≡ cell l w sto j
  round_next i w j p q small =
      round_cell i w j p (omega arith) small ∙ rw (==_ne (8 + i) j (omega arith)) refl

  round_current :
      (i : ℕ) (w : World h) (j : ℕ)
      → i < 8
      → j < i + 1
      → cell l w sto i < 2 ^ 256
      → cell l (after_round i w) sto (8 + j)
        ≡ (if i == j then cell l w sto i else cell l w sto (8 + j))
  round_current i w j p q small =
      round_cell i w (8 + j) p (omega arith) small
      ∙ ap (λ b. if b then cell l w sto i else cell l w sto (8 + j)) (shift_eq i j)

  commit_round :
      (w0 : World h)
      → ((i : ℕ) → cell l w0 sto i < 2 ^ 256)
      → (i : ℕ) (w : World h) → i < 8
      → Upto w0 i w
      → Leaves (commit_kind (open_fees sto) i) w (Upto w0 (i + 1))
  unfolding commit_kind set_big_int after_round
  commit_round w0 words i w p u = record {
    after = after_round i w;
    returned =
        bind-ok (get_big_int (open_slot sto i)) _ w (get_fee w i)
        ∙ set_lem l (open_slot sto (8 + i)) _ _
            (after_get-IsWritable (open_slot sto i) w u.writable);
    left_with = record {
      writable =
          after_set-IsWritable l (open_slot sto (8 + i)) _ _
            (after_get-IsWritable (open_slot sto i) w u.writable);
      next_same = λ j q. round_next i w j p q small ∙ u.next_same j q;
      current_done = current;
    };
  }
    where
      small : cell l w sto i < 2 ^ 256
      small = omega (arith, u.next_same i p, words i)

      current : (j : ℕ) → j < i + 1 → cell l (after_round i w) sto (8 + j) ≡ cell l w0 sto j
      current j q = elim (Bool-cases (i == j)) [
        | inl here ↦
            round_current i w j p q small
            ∙ rw here (u.next_same i p ∙ ap (cell l w0 sto) ((==_iff i j).0 here))
        | inr other ↦
            round_current i w j p q small
            ∙ rw other (u.current_done j (omega (arith, below i j q other)))
      ]

  -- What a world's fees of a kind read, the current and the next, are the fee that `w0` held as next.
  abbrev pub Committed : World h → World h → Type 0
  Committed w0 w =
      (kind : ResourceKind)
      → (get_current_block_fee (open_fees sto) kind w
          ≡ ok (fee_at w0 (index kind)) (after_get (open_slot sto (8 + index kind)) w))
        × (get_next_block_fee (open_fees sto) kind w
            ≡ ok (fee_at w0 (index kind)) (after_get (open_slot sto (index kind)) w))

  -- On a host that is a store and for a storage whose pages do not collide: on a writable world
  -- whose slots hold 256-bit words, `commit_next_to_current` returns, and from then on the current
  -- fee of every kind reads as the next fee did, which still reads the same.
  pub commit_next_to_current_lem :
      (w : World h)
      → IsWritable w
      → ((i : ℕ) → cell l w sto i < 2 ^ 256)
      → Leaves (commit_next_to_current (open_fees sto)) w (Committed w)
  unfolding commit_next_to_current get_current_block_fee get_next_block_fee
  commit_next_to_current_lem w p words = record {
    after = loop.after;
    returned = loop.returned;
    left_with = λ kind. (
      get_fee_of loop.after w (8 + index kind) (index kind)
          (loop.left_with.current_done (index kind) (index-lt-count kind)),
      get_fee_of loop.after w (index kind) (index kind)
          (loop.left_with.next_same (index kind) (index-lt-count kind)),
    );
  }
    where
      start : Upto w 0 w
      start = record {
        writable = p;
        next_same = λ j q. refl;
        current_done = λ j q. absurd (omega arith);
      }

      loop : Leaves (commit_next_to_current (open_fees sto)) w (Upto w 8)
      loop =
          for_range_lem (commit_kind (open_fees sto)) (Upto w) 8 (commit_round w words) 8 0 w refl
            start
