-- ===== src/Queue/Steps.antt =====
-- Each operation of a queue on the list that its storage holds.
use arb_reth.Prelude.{
  ℕ, suc, ◌+◌, ◌^◌, ◌≤◌, ◌<◌, ◌≡◌, refl, ◌∙◌, ap, ap₂, Bool, true, false, List, [], ◌∷◌, ◌++◌,
  arith, length, length-append, ◌==◌, ==_refl, ==_ne, if◌then◌else◌, u64_max,
}
use arb_reth.Host.{Host, IsStore}
use arb_reth.World.{World, ok, M, ◌>>=◌, bind-ok}
use arb_reth.Storage.Slot.{
  StorageSlot, after_get, after_set, IsWritable, after_get-IsWritable, after_set-IsWritable,
}
use arb_reth.Storage.Typed.{get_uint64, increment}
use arb_reth.Storage.Space.{Storage, set_by_uint64, open_slot}
use arb_reth.Storage.Space.Keys.{NoPageCollision}
use arb_reth.Storage.Space.Laws.{
  cell, after_store, set_by_uint64_lem, cell-after_set, cell-after_store, after_store-IsWritable,
}
use arb_reth.Storage.Space.Cells.{cell-after_get, get_cell, increment_cell}
use arb_reth.Queue.{open_queue, is_empty, size, put}
use arb_reth.Queue.Model.{Holds, window, window_cong, window-append_one}

abbrev pub is_nil : List ℕ → Bool
is_nil [] = true
is_nil (x ∷ xs) = false

module _ ⦃h : Host⦄ (l : IsStore h) (sto : Storage) (free : NoPageCollision sto) where
  -- The world after `put` of `v` at offset `n`.
  pub after_put : ℕ → ℕ → World h → World h
  after_put n v w =
      after_store l sto n v (after_set l (open_slot sto 0) (n + 1) (after_get (open_slot sto 0) w))

  cell-after_put :
      (n v : ℕ) (w : World h) (j : ℕ)
      → n < 2 ^ 64
      → j < 2 ^ 64
      → cell l (after_put n v w) sto j
        ≡ (if n == j then v else if 0 == j then n + 1 else cell l w sto j)
  unfolding after_put
  cell-after_put n v w j p q =
      cell-after_store l sto free n v _ j p q
      ∙ ap (λ x. if n == j then v else x)
          (cell-after_set l sto free 0 (n + 1) _ j (omega arith) q
            ∙ ap (λ x. if 0 == j then n + 1 else x) (cell-after_get l sto (open_slot sto 0) w j))

  -- `put` appends its entry, as long as the offsets stay 64-bit.
  pub put_lem :
      (w : World h) (first : ℕ) (xs : List ℕ) (v : ℕ)
      → Holds l sto w first xs
      → first + length xs < u64_max
      → (put (open_queue sto) v w ≡ ok tt (after_put (first + length xs) v w))
        × Holds l sto (after_put (first + length xs) v w) first (xs ++ v ∷ [])
  unfolding put after_put
  put_lem w first xs v q room = (run, holds)
    where
      n : ℕ
      n = first + length xs

      w1 : World h
      w1 = after_set l (open_slot sto 0) (n + 1) (after_get (open_slot sto 0) w)

      w1-IsWritable : IsWritable w1
      w1-IsWritable =
          after_set-IsWritable l (open_slot sto 0) (n + 1) (after_get (open_slot sto 0) w)
            (after_get-IsWritable (open_slot sto 0) w q.writable)

      run : put (open_queue sto) v w ≡ ok tt (after_put n v w)
      run =
          bind-ok (increment (open_slot sto 0)) _ w
            (increment_cell l sto w 0 n q.put_at q.writable room)
          ∙ ap (λ k. set_by_uint64 sto k v w1) (omega arith)
          ∙ set_by_uint64_lem l sto n v w1 w1-IsWritable

      holds : Holds l sto (after_put n v w) first (xs ++ v ∷ [])
      holds = record {
        writable = after_store-IsWritable l sto n v w1 w1-IsWritable;
        first_ok = q.first_ok;
        room = omega (arith, length-append xs (v ∷ []));
        put_at =
            cell-after_put n v w 0 (omega arith) (omega arith)
            ∙ rw (==_ne n 0 (omega (arith, q.first_ok))) (omega (arith, length-append xs (v ∷ [])));
        get_at =
            cell-after_put n v w 1 (omega arith) (omega arith)
            ∙ rw (==_ne n 1 (omega (arith, q.first_ok))) q.get_at;
        entries =
            ap (window l sto (after_put n v w) first) one_more
            ∙ window-append_one l sto (after_put n v w) (length xs) first
            ∙ ap₂ (λ ys x. ys ++ x ∷ [])
                (window_cong l sto w (after_put n v w) (length xs) first kept ∙ q.entries)
                (cell-after_put n v w n (omega arith) (omega arith) ∙ rw (==_refl n) refl);
      }
        where
          one_more : length (xs ++ v ∷ []) ≡ suc (length xs)
          one_more = omega (arith, length-append xs (v ∷ []))

          kept :
              (j : ℕ)
              → first ≤ j
              → j < first + length xs
              → cell l (after_put n v w) sto j ≡ cell l w sto j
          kept j p r =
              cell-after_put n v w j (omega arith) (omega arith)
              ∙ rw (==_ne n j (omega arith), ==_ne 0 j (omega (arith, q.first_ok))) refl

  -- A read of an offset leaves the queue as it was.
  pub Holds-after_get :
      (s : StorageSlot) (w : World h) (first : ℕ) (xs : List ℕ)
      → Holds l sto w first xs
      → Holds l sto (after_get s w) first xs
  Holds-after_get s w first xs q = record {
    writable = after_get-IsWritable s w q.writable;
    first_ok = q.first_ok;
    room = q.room;
    put_at = cell-after_get l sto s w 0 ∙ q.put_at;
    get_at = cell-after_get l sto s w 1 ∙ q.get_at;
    entries =
        window_cong l sto w (after_get s w) (length xs) first (λ j a b. cell-after_get l sto s w j)
        ∙ q.entries;
  }

  -- The world after both offsets were read.
  pub after_offsets : World h → World h
  after_offsets w = after_get (open_slot sto 1) (after_get (open_slot sto 0) w)

  pub Holds-after_offsets :
      (w : World h) (first : ℕ) (xs : List ℕ)
      → Holds l sto w first xs
      → Holds l sto (after_offsets w) first xs
  unfolding after_offsets
  Holds-after_offsets w first xs q =
      Holds-after_get (open_slot sto 1) _ first xs (Holds-after_get (open_slot sto 0) w first xs q)

  -- The two reads that `is_empty`, `size` and `shift` begin with.
  pub offsets :
      {A : Type 0} (w : World h) (first : ℕ) (xs : List ℕ) (f : ℕ → ℕ → M A)
      → Holds l sto w first xs
      → (get_uint64 (open_slot sto 0) >>= λ put. get_uint64 (open_slot sto 1) >>= f put) w
        ≡ f (first + length xs) first (after_offsets w)
  unfolding after_offsets
  offsets w first xs f q =
      bind-ok (get_uint64 (open_slot sto 0)) _ w (get_cell l sto w 0 _ q.put_at q.room)
      ∙ bind-ok (get_uint64 (open_slot sto 1)) _ _ (
          get_cell l sto (after_get (open_slot sto 0) w) 1 first
            (cell-after_get l sto (open_slot sto 0) w 1 ∙ q.get_at) (omega (arith, q.room)))

  pub offsets_eq : (first : ℕ) (xs : List ℕ) → (first + length xs == first) ≡ is_nil xs
  offsets_eq first [] = ground arith
  offsets_eq first (x ∷ xs) = ground arith

  pub is_empty_lem :
      (w : World h) (first : ℕ) (xs : List ℕ)
      → Holds l sto w first xs
      → is_empty (open_queue sto) w ≡ ok (is_nil xs) (after_offsets w)
  unfolding is_empty
  is_empty_lem w first xs q =
      offsets w first xs _ q ∙ ap (λ b. ok b (after_offsets w)) (offsets_eq first xs)

  -- `size` is the number of entries: the subtraction of the offsets does not wrap.
  pub size_lem :
      (w : World h) (first : ℕ) (xs : List ℕ)
      → Holds l sto w first xs
      → size (open_queue sto) w ≡ ok (length xs) (after_offsets w)
  unfolding size
  size_lem w first xs q =
      offsets w first xs _ q ∙ ap (λ n. ok n (after_offsets w)) (omega (arith, q.room))
