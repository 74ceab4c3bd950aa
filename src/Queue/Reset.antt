-- ===== src/Queue/Reset.antt =====
-- `initialize` and `shift` of a queue on the list that its storage holds.
use arb_reth.Prelude.{ℕ, ◌+◌, ◌≡◌, refl, ◌∙◌, ap, List, [], ◌∷◌, arith, length}
use arb_reth.Host.{Host, IsStore}
use arb_reth.World.{World, bind-ok}
use arb_reth.Storage.Slot.{after_set, IsWritable, after_set-IsWritable}
use arb_reth.Storage.Typed.{set_uint64}
use arb_reth.Storage.Typed.Laws.{set_uint64_lem}
use arb_reth.Storage.Space.{Storage, set_uint64_by_uint64, open_slot}
use arb_reth.Storage.Space.Keys.{NoPageCollision}
use arb_reth.Storage.Space.Laws.{
  cell, after_store, set_uint64_by_uint64_lem, cell-after_set, cell-after_store,
  after_store-IsWritable,
}
use arb_reth.Queue.{open_queue, initialize, shift, shift_if}
use arb_reth.Queue.Model.{Holds}
use arb_reth.Queue.Steps.{after_offsets, Holds-after_offsets, offsets, offsets_eq, is_nil}
use arb_reth.Queue.Take.{Returned}

module _ ⦃h : Host⦄ (l : IsStore h) (sto : Storage) (free : NoPageCollision sto) where
  -- A world whose two offsets are 2 holds the empty queue.
  Holds-reset :
      (w : World h) → IsWritable w → cell l w sto 0 ≡ 2 → cell l w sto 1 ≡ 2 → Holds l sto w 2 []
  Holds-reset w p put_at get_at = record {
    writable = p;
    first_ok = omega arith;
    room = omega arith;
    put_at = put_at;
    get_at = get_at;
    entries = refl;
  }

  -- On a host that is a store and for a storage whose pages do not collide: `initialize` on a
  -- writable world returns and leaves an empty queue.
  pub initialize_lem : (w : World h) → IsWritable w → Returned l sto free (initialize sto) w tt [] 2
  unfolding initialize
  initialize_lem w p = record {
    after = w2;
    first = 2;
    bounded = omega arith;
    returned =
        bind-ok (set_uint64_by_uint64 sto 0 2) _ w (set_uint64_by_uint64_lem l sto 0 2 w p)
        ∙ set_uint64_by_uint64_lem l sto 1 2 w1 w1-IsWritable;
    holds =
        Holds-reset w2 (after_store-IsWritable l sto 1 2 w1 w1-IsWritable)
          (cell-after_store l sto free 1 2 w1 0 (omega arith) (omega arith)
            ∙ cell-after_store l sto free 0 2 w 0 (omega arith) (omega arith))
          (cell-after_store l sto free 1 2 w1 1 (omega arith) (omega arith));
  }
    where
      w1 : World h
      w1 = after_store l sto 0 2 w

      w2 : World h
      w2 = after_store l sto 1 2 w1

      w1-IsWritable : IsWritable w1
      w1-IsWritable = after_store-IsWritable l sto 0 2 w p

  -- `shift` of an empty queue resets its offsets and returns true; of another it returns false.
  -- Either way the entries are as before.
  pub shift_lem :
      (w : World h) (first : ℕ) (xs : List ℕ)
      → Holds l sto w first xs
      → Returned l sto free (shift (open_queue sto)) w (is_nil xs) xs (first + length xs)
  unfolding shift shift_if
  shift_lem w first (x ∷ xs) q = record {
    after = after_offsets l sto free w;
    first = first;
    bounded = omega arith;
    returned =
        offsets l sto free w first (x ∷ xs) _ q
        ∙ ap (λ b. shift_if (open_queue sto) b (after_offsets l sto free w))
            (offsets_eq l sto free first (x ∷ xs));
    holds = Holds-after_offsets l sto free w first (x ∷ xs) q;
  }
  shift_lem w first [] q = record {
    after = w4;
    first = 2;
    bounded = omega (arith, q.first_ok);
    returned =
        offsets l sto free w first [] _ q
        ∙ ap (λ b. shift_if (open_queue sto) b w2) (offsets_eq l sto free first [])
        ∙ bind-ok (set_uint64 (open_slot sto 1) 2) _ w2
            (set_uint64_lem l (open_slot sto 1) 2 w2 q2.writable)
        ∙ bind-ok (set_uint64 (open_slot sto 0) 2) _ w3
            (set_uint64_lem l (open_slot sto 0) 2 w3 w3-IsWritable);
    holds =
        Holds-reset w4 (after_set-IsWritable l (open_slot sto 0) 2 w3 w3-IsWritable)
          (cell-after_set l sto free 0 2 w3 0 (omega arith) (omega arith))
          (cell-after_set l sto free 0 2 w3 1 (omega arith) (omega arith)
            ∙ cell-after_set l sto free 1 2 w2 1 (omega arith) (omega arith));
  }
    where
      w2 : World h
      w2 = after_offsets l sto free w

      q2 : Holds l sto w2 first []
      q2 = Holds-after_offsets l sto free w first [] q

      w3 : World h
      w3 = after_set l (open_slot sto 1) 2 w2

      w4 : World h
      w4 = after_set l (open_slot sto 0) 2 w3

      w3-IsWritable : IsWritable w3
      w3-IsWritable = after_set-IsWritable l (open_slot sto 1) 2 w2 q2.writable
