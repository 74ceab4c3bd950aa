-- ===== src/Vector/Laws.antt =====
-- `push` and `pop` of a vector of sub-storages: what they return and the length that they leave.
use arb_reth.Prelude.{ℕ, ◌+◌, ◌-◌, ◌^◌, ◌%◌, ◌≤◌, ◌<◌, ◌≡◌, ◌∙◌, ap, arith, u64_max, ==_ne}
use arb_reth.Host.{Host, IsStore}
use arb_reth.World.{World, M, ok, panic, pop_empty, ◌>>=◌, pure, bind-ok}
use arb_reth.Storage.Slot.{
  after_get, after_set, IsWritable, after_get-IsWritable, after_set-IsWritable,
}
use arb_reth.Storage.Typed.{get_uint64, set_uint64}
use arb_reth.Storage.Typed.Laws.{held, get_uint64_lem, set_uint64_lem, held-after_set_self}
use arb_reth.Storage.Space.{Storage}
use arb_reth.Vector.{SubStorageVector, push, pop, pop_if, at}

wrap_small : (n : ℕ) → n < u64_max → (n + 1) % 2 ^ 64 ≡ n + 1
wrap_small n p = omega arith

one_less : (n : ℕ) → n + 1 - 1 ≡ n
one_less n = omega arith

module _ ⦃h : Host⦄ (l : IsStore h) (v : SubStorageVector) where
  -- The world after a call that leaves the length `n`.
  unfoldable pub after_length : ℕ → World h → World h
  after_length n w = after_set l v.length n (after_get v.length w)

  -- The vector of the world has this length, and the world may be written.
  pub record HasLength (w : World h) (n : ℕ) : Type 0 where
    pub writable : IsWritable w
    pub length_at : held l w v.length ≡ n
    pub small : n ≤ u64_max

  HasLength-after :
      (w : World h) (n m : ℕ) → HasLength w n → m ≤ u64_max → HasLength (after_length m w) m
  unfolding after_length
  HasLength-after w n m q p = record {
    writable =
        after_set-IsWritable l v.length m (after_get v.length w)
          (after_get-IsWritable v.length w q.writable);
    length_at = held-after_set_self l v.length m (after_get v.length w);
    small = p;
  }

  -- Reads the length that a vector has.
  pub length_read :
      (w : World h) (n : ℕ) → HasLength w n → get_uint64 v.length w ≡ ok n (after_get v.length w)
  length_read w n q =
      get_uint64_lem l v.length w (omega (arith, q.length_at, q.small))
      ∙ ap (λ x. ok x (after_get v.length w)) q.length_at

  write_length :
      (w : World h) (n m : ℕ)
      → HasLength w n
      → set_uint64 v.length m (after_get v.length w) ≡ ok tt (after_length m w)
  unfolding after_length
  write_length w n m q =
      set_uint64_lem l v.length m (after_get v.length w)
        (after_get-IsWritable v.length w q.writable)

  -- `push` on a vector with room returns the sub-storage of the old length, and leaves one more.
  pub push_lem :
      (w : World h) (n : ℕ)
      → HasLength w n
      → n < u64_max
      → (push v w ≡ ok (at v n) (after_length (n + 1) w))
        × HasLength (after_length (n + 1) w) (n + 1)
  unfolding push
  push_lem w n q p = (
    bind-ok (get_uint64 v.length) _ w (length_read w n q)
        ∙ rw (wrap_small n p) (
            bind-ok (set_uint64 v.length (n + 1)) _ (after_get v.length w)
              (write_length w n (n + 1) q)),
    HasLength-after w n (n + 1) q (omega arith),
  )

  -- `pop` of a vector with elements returns the sub-storage of the last, and leaves one less.
  pub pop_lem :
      (w : World h) (n : ℕ)
      → HasLength w (n + 1)
      → (pop v w ≡ ok (at v n) (after_length n w)) × HasLength (after_length n w) n
  unfolding pop pop_if
  pop_lem w n q = (
    bind-ok (get_uint64 v.length) _ w (length_read w (n + 1) q)
        ∙ rw (==_ne (n + 1) 0 (omega arith), one_less n)
            (bind-ok (set_uint64 v.length n) _ (after_get v.length w) (write_length w (n + 1) n q)),
    HasLength-after w (n + 1) n q (omega (arith, q.small)),
  )

  pub pop_empty_lem : (w : World h) → HasLength w 0 → pop v w ≡ panic pop_empty
  unfolding pop pop_if
  pop_empty_lem w q = bind-ok (get_uint64 v.length) _ w (length_read w 0 q)

  -- A push and then a pop, with what each returned.
  abbrev pub push_then_pop : M (Storage × Storage)
  push_then_pop = push v >>= λ pushed. pop v >>= λ popped. pure (pushed, popped)

  -- On a host that is a store: on a writable world and a vector whose length `n` is below the
  -- largest 64-bit value, `push` and then `pop` both return the sub-storage of index `n`, and the
  -- length is `n` again.
  pub pop-push :
      (w : World h) (n : ℕ)
      → HasLength w n
      → n < u64_max
      → (push_then_pop w ≡ ok (at v n, at v n) (after_length n (after_length (n + 1) w)))
        × HasLength (after_length n (after_length (n + 1) w)) n
  pop-push w n q p =
      let pushed = push_lem w n q p in
      let popped = pop_lem (after_length (n + 1) w) n pushed.1 in
      (
        bind-ok (push v) _ w pushed.0 ∙ bind-ok (pop v) _ (after_length (n + 1) w) popped.0,
        popped.1,
      )
