-- ===== src/Queue/Take.antt =====
-- `peek`, `get`, `shift` and `initialize` of a queue on the list that its storage holds.
use arb_reth.Prelude.{
  ℕ, ◌+◌, ◌^◌, ◌≤◌, ◌<◌, ◌≡◌, refl, ◌∙◌, ap, Option, none, some, List, [], ◌∷◌, arith, length, ◌==◌,
  ==_ne, if◌then◌else◌,
}
use arb_reth.Host.{Host, IsStore}
use arb_reth.World.{World, ok, M, ◌>>=◌, bind-ok}
use arb_reth.Storage.Slot.{
  after_get, after_set, IsWritable, after_get-IsWritable, after_set-IsWritable,
}
use arb_reth.Storage.Typed.{get_uint64, increment}
use arb_reth.Storage.Space.{Storage, get_by_uint64, swap, open_slot}
use arb_reth.Storage.Space.Keys.{NoPageCollision}
use arb_reth.Storage.Space.Laws.{
  cell, after_store, swap_lem, get_by_uint64_lem, cell-after_set, cell-after_store,
  after_store-IsWritable,
}
use arb_reth.Storage.Space.Cells.{cell-after_get, get_cell, increment_cell}
use arb_reth.Queue.{open_queue, is_empty, peek, peek_if, get, get_if}
use arb_reth.Queue.Model.{Holds, window_cong}
use arb_reth.Queue.Steps.{after_offsets, Holds-after_offsets, Holds-after_get, is_empty_lem}

-- The first entry of a list.
abbrev pub first_of_list : List ℕ → Option ℕ
first_of_list [] = none
first_of_list (x ∷ xs) = some x

abbrev pub rest_of_list : List ℕ → List ℕ
rest_of_list [] = []
rest_of_list (x ∷ xs) = xs

module _ ⦃h : Host⦄ (l : IsStore h) (sto : Storage) (free : NoPageCollision sto) where
  -- What a call returned, and the queue that it left, whose put offset is at most `top`.
  pub record Returned {A : Type 0} (call : M A) (w : World h) (a : A) (xs : List ℕ) (top : ℕ)
      : Type 0 where
    pub after : World h
    pub first : ℕ
    pub returned : call w ≡ ok a after
    pub holds : Holds l sto after first xs
    pub bounded : first + length xs ≤ top

  head_cell :
      (w : World h) (first : ℕ) (x : ℕ) (xs : List ℕ)
      → Holds l sto w first (x ∷ xs)
      → cell l w sto first ≡ x
  head_cell w first x xs q = ap (λ ys. elim ys [ [] ↦ x | y ∷ _ ↦ y ]) q.entries

  -- `peek` returns the first entry, or none of an empty queue, and leaves the entries.
  pub peek_lem :
      (w : World h) (first : ℕ) (xs : List ℕ)
      → Holds l sto w first xs
      → Returned (peek (open_queue sto)) w (first_of_list xs) xs (first + length xs)
  unfolding peek peek_if
  peek_lem w first [] q = record {
    after = after_offsets l sto free w;
    first = first;
    bounded = omega arith;
    returned = bind-ok (is_empty (open_queue sto)) _ w (is_empty_lem l sto free w first [] q);
    holds = Holds-after_offsets l sto free w first [] q;
  }
  peek_lem w first (x ∷ xs) q = record {
    after = after_get (open_slot sto 1) (after_offsets l sto free w);
    first = first;
    bounded = omega arith;
    returned =
        bind-ok (is_empty (open_queue sto)) _ w (is_empty_lem l sto free w first (x ∷ xs) q)
        ∙ bind-ok (get_uint64 (open_slot sto 1)) _ _ (
            get_cell l sto _ 1 first (Holds-after_offsets l sto free w first (x ∷ xs) q).get_at
              (omega (arith, q.room)))
        ∙ bind-ok (get_by_uint64 sto first) _ _ (get_by_uint64_lem l sto first _)
        ∙ ap (λ v. ok (some v) (after_get (open_slot sto 1) (after_offsets l sto free w)))
            (head_cell _ first x xs (
              Holds-after_get l sto free (open_slot sto 1) _ first _
                (Holds-after_offsets l sto free w first (x ∷ xs) q)));
    holds =
        Holds-after_get l sto free (open_slot sto 1) _ first _
          (Holds-after_offsets l sto free w first (x ∷ xs) q);
  }

  -- The world after the entry at offset `first` was taken.
  after_take : ℕ → World h → World h
  after_take first w =
      after_store l sto first 0
        (after_set l (open_slot sto 1) (first + 1) (after_get (open_slot sto 1) w))

  cell-after_take :
      (first : ℕ) (w : World h) (j : ℕ)
      → first < 2 ^ 64
      → j < 2 ^ 64
      → cell l (after_take first w) sto j
        ≡ (if first == j then 0 else if 1 == j then first + 1 else cell l w sto j)
  unfolding after_take
  cell-after_take first w j p q =
      cell-after_store l sto free first 0 _ j p q
      ∙ ap (λ x. if first == j then 0 else x)
          (cell-after_set l sto free 1 (first + 1) _ j (omega arith) q
            ∙ ap (λ x. if 1 == j then first + 1 else x)
                (cell-after_get l sto (open_slot sto 1) w j))

  Holds-after_take :
      (w : World h) (first x : ℕ) (xs : List ℕ)
      → Holds l sto w first (x ∷ xs)
      → Holds l sto (after_take first w) (first + 1) xs
  unfolding after_take
  Holds-after_take w first x xs q = record {
    writable = after_store-IsWritable l sto first 0 _ (
        after_set-IsWritable l (open_slot sto 1) (first + 1) _
          (after_get-IsWritable (open_slot sto 1) w q.writable));
    first_ok = omega (arith, q.first_ok);
    room = omega (arith, q.room);
    put_at =
        cell-after_take first w 0 (omega (arith, q.room)) (omega arith)
        ∙ rw (==_ne first 0 (omega (arith, q.first_ok))) (omega (arith, q.put_at));
    get_at =
        cell-after_take first w 1 (omega (arith, q.room)) (omega arith)
        ∙ rw (==_ne first 1 (omega (arith, q.first_ok))) refl;
    entries =
        window_cong l sto w (after_take first w) (length xs) (first + 1) kept
        ∙ ap rest_of_list q.entries;
  }
    where
      kept :
          (j : ℕ)
          → first + 1 ≤ j
          → j < first + 1 + length xs
          → cell l (after_take first w) sto j ≡ cell l w sto j
      kept j a b =
          cell-after_take first w j (omega (arith, q.room)) (omega (arith, q.room))
          ∙ rw (==_ne first j (omega arith), ==_ne 1 j (omega (arith, q.first_ok))) refl

  -- `get` returns the first entry and leaves the others; of an empty queue it returns none.
  pub get_lem :
      (w : World h) (first : ℕ) (xs : List ℕ)
      → Holds l sto w first xs
      → Returned (get (open_queue sto)) w (first_of_list xs) (rest_of_list xs) (first + length xs)
  unfolding get get_if after_take
  get_lem w first [] q = record {
    after = after_offsets l sto free w;
    first = first;
    bounded = omega arith;
    returned = bind-ok (is_empty (open_queue sto)) _ w (is_empty_lem l sto free w first [] q);
    holds = Holds-after_offsets l sto free w first [] q;
  }
  get_lem w first (x ∷ xs) q = record {
    after = after_take first w2;
    first = first + 1;
    bounded = omega arith;
    returned =
        bind-ok (is_empty (open_queue sto)) _ w (is_empty_lem l sto free w first (x ∷ xs) q)
        ∙ bind-ok (increment (open_slot sto 1)) _ w2
            (increment_cell l sto w2 1 first q2.get_at q2.writable (omega (arith, q.room)))
        ∙ ap (λ k. (swap sto k 0 >>= λ res. λ v. ok (some res) v) w3) {y = first} (omega arith)
        ∙ bind-ok (swap sto first 0) _ w3 (swap_lem l sto first 0 w3 w3-IsWritable)
        ∙ ap (λ v. ok (some v) (after_take first w2)) head_kept;
    holds = Holds-after_take w2 first x xs q2;
  }
    where
      w2 : World h
      w2 = after_offsets l sto free w

      q2 : Holds l sto w2 first (x ∷ xs)
      q2 = Holds-after_offsets l sto free w first (x ∷ xs) q

      w3 : World h
      w3 = after_set l (open_slot sto 1) (first + 1) (after_get (open_slot sto 1) w2)

      w3-IsWritable : IsWritable w3
      w3-IsWritable =
          after_set-IsWritable l (open_slot sto 1) (first + 1) _
            (after_get-IsWritable (open_slot sto 1) w2 q2.writable)

      head_kept : cell l w3 sto first ≡ x
      head_kept =
          cell-after_set l sto free 1 (first + 1) _ first (omega arith) (omega (arith, q.room))
          ∙ rw (==_ne 1 first (omega (arith, q.first_ok)))
              (cell-after_get l sto (open_slot sto 1) w2 first ∙ head_cell w2 first x xs q2)
