-- ===== src/Queue/Visit.antt =====
-- `for_each` of a queue, with a closure that neither fails nor touches the storage.
use arb_reth.Prelude.{
  ℕ, zero, suc, ◌+◌, ◌%◌, ◌^◌, ◌≤◌, ◌≡◌, refl, ◌∙◌, ap, inl, inr, Bool, Bool-cases, if◌then◌else◌,
  List, [], ◌∷◌, arith, length, u64_max,
}
use arb_reth.Host.{Host, IsStore}
use arb_reth.World.{World, ok, M, pure, bind-ok}
use arb_reth.Storage.Slot.{after_get}
use arb_reth.Storage.Typed.{get_uint64}
use arb_reth.Storage.Space.{Storage, get_by_uint64, open_slot}
use arb_reth.Storage.Space.Keys.{NoPageCollision}
use arb_reth.Storage.Space.Laws.{cell, get_by_uint64_lem}
use arb_reth.Storage.Space.Cells.{get_cell}
use arb_reth.Queue.{open_queue, size, for_each, for_each_from}
use arb_reth.Queue.Model.{Holds, window}
use arb_reth.Queue.Steps.{after_offsets, Holds-after_offsets, Holds-after_get, size_lem}
use arb_reth.Queue.Take.{Returned}

module _ {S : Type 0} (f : ℕ → ℕ → S → S × Bool) where
  -- The entries in order, numbered from `i` on, until the function says to stop.
  pub visit : ℕ → List ℕ → S → S
  visit i [] s = s
  visit i (x ∷ xs) s =
      let rest = visit (i + 1) xs (f i x s).0 in if (f i x s).1 then (f i x s).0 else rest

  module _ ⦃h : Host⦄ where
    -- The function as a closure.
    abbrev pub closure_of : ℕ → ℕ → S → M (S × Bool)
    closure_of i x s = pure (f i x s)

    module _ (l : IsStore h) (sto : Storage) (free : NoPageCollision sto) where
      rounds_lem :
          (w : World h) (first left i : ℕ) (s : S)
          → first + i + left ≤ u64_max
          → for_each_from closure_of (open_queue sto) first left i s w
            ≡ ok (visit i (window l sto w (first + i) left) s) w
      unfolding for_each_from visit
      rounds_lem w first zero i s p = refl
      rounds_lem w first (suc left) i s p =
          bind-ok (get_by_uint64 sto ((first + i) % 2 ^ 64)) _ w (get_by_uint64_lem l sto _ w)
          ∙ rw (in_range first i left p) (elim (Bool-cases (f i (cell l w sto (first + i)) s).1) [
            | inl stop ↦ rw stop refl
            | inr go ↦ rw go (
                rounds_lem w first left (i + 1) _ (omega arith)
                ∙ ap
                    (λ k.
                      ok
                        (visit (i + 1) (window l sto w k left) (f i (cell l w sto (first + i)) s).0)
                        w)
                    (omega arith))
          ])
        where
          in_range :
              (first i left : ℕ) → first + i + suc left ≤ u64_max → (first + i) % 2 ^ 64 ≡ first + i
          in_range first i left q = omega arith

      -- On a host that is a store and for a storage whose pages do not collide: `for_each` with a
      -- closure that only computes visits the entries of a queue in order, each with its index
      -- from 0 on, and stops where the closure says so; the entries are as before.
      pub for_each_lem :
          (w : World h) (first : ℕ) (xs : List ℕ) (s : S)
          → Holds l sto w first xs
          → Returned l sto free
              (for_each closure_of (open_queue sto) s)
              w
              (visit 0 xs s)
              xs
              (first + length xs)
      unfolding for_each
      for_each_lem w first xs s q = record {
        after = w2;
        first = first;
        bounded = omega arith;
        returned =
            bind-ok (size (open_queue sto)) _ w (size_lem l sto free w first xs q)
            ∙ bind-ok (get_uint64 (open_slot sto 1)) _ w1
                (get_cell l sto w1 1 first q1.get_at (omega (arith, q.room)))
            ∙ rounds_lem w2 first (length xs) 0 s (omega (arith, q.room))
            ∙ ap (λ k. ok (visit 0 (window l sto w2 k (length xs)) s) w2) (omega arith)
            ∙ ap (λ ys. ok (visit 0 ys s) w2) q2.entries;
        holds = q2;
      }
        where
          w1 : World h
          w1 = after_offsets l sto free w

          q1 : Holds l sto w1 first xs
          q1 = Holds-after_offsets l sto free w first xs q

          w2 : World h
          w2 = after_get (open_slot sto 1) w1

          q2 : Holds l sto w2 first xs
          q2 = Holds-after_get l sto free (open_slot sto 1) w1 first xs q1
