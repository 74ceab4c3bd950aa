-- ===== src/Queue/Refine.antt =====
-- A queue in storage behaves as the list of its entries, over every sequence of calls.
use arb_reth.Prelude.{
  ℕ, ◌+◌, ◌≤◌, ◌<◌, refl, ◌∙◌, Bool, Option, List, [], ◌∷◌, ◌++◌, arith, length, length-append,
  u64_max,
}
use arb_reth.Host.{Host, IsStore}
use arb_reth.World.{World, M, ◌>>=◌, ◌>>◌, pure, bind-ok}
use arb_reth.Storage.Space.{Storage}
use arb_reth.Storage.Space.Keys.{NoPageCollision}
use arb_reth.Queue.{Queue, open_queue, is_empty, size, peek, get, put, shift}
use arb_reth.Queue.Model.{Holds}
use arb_reth.Queue.Steps.{
  after_put, put_lem, after_offsets, Holds-after_offsets, is_empty_lem, size_lem, is_nil,
}
use arb_reth.Queue.Take.{Returned, first_of_list, rest_of_list, peek_lem, get_lem}
use arb_reth.Queue.Reset.{shift_lem}

-- A call of the queue, and what the caller sees of it.
pub data Op : Type 0 where
  put_op : ℕ → Op
  get_op peek_op size_op is_empty_op shift_op : Op

pub data Reply : Type 0 where
  unit_reply : Reply
  entry_reply : Option ℕ → Reply
  size_reply : ℕ → Reply
  bool_reply : Bool → Reply

-- The list that specifies the queue.
abbrev pub spec_reply : Op → List ℕ → Reply
spec_reply (put_op v) xs = unit_reply
spec_reply get_op xs = entry_reply (first_of_list xs)
spec_reply peek_op xs = entry_reply (first_of_list xs)
spec_reply size_op xs = size_reply (length xs)
spec_reply is_empty_op xs = bool_reply (is_nil xs)
spec_reply shift_op xs = bool_reply (is_nil xs)

abbrev pub spec_next : Op → List ℕ → List ℕ
spec_next (put_op v) xs = xs ++ v ∷ []
spec_next get_op xs = rest_of_list xs
spec_next peek_op xs = xs
spec_next size_op xs = xs
spec_next is_empty_op xs = xs
spec_next shift_op xs = xs

unfoldable pub spec_replies : List Op → List ℕ → List Reply
spec_replies [] xs = []
spec_replies (op ∷ ops) xs = spec_reply op xs ∷ spec_replies ops (spec_next op xs)

unfoldable pub spec_last : List Op → List ℕ → List ℕ
spec_last [] xs = xs
spec_last (op ∷ ops) xs = spec_last ops (spec_next op xs)

module _ ⦃h : Host⦄ where
  abbrev pub run_op : Queue → Op → M Reply
  run_op q (put_op v) = put q v >> pure unit_reply
  run_op q get_op = get q >>= λ r. pure (entry_reply r)
  run_op q peek_op = peek q >>= λ r. pure (entry_reply r)
  run_op q size_op = size q >>= λ n. pure (size_reply n)
  run_op q is_empty_op = is_empty q >>= λ b. pure (bool_reply b)
  run_op q shift_op = shift q >>= λ b. pure (bool_reply b)

  -- The calls in order, with what each returned.
  pub run : Queue → List Op → M (List Reply)
  run q [] = pure []
  run q (op ∷ ops) = do r ← run_op q op; rs ← run q ops; pure (r ∷ rs)

  module _ (l : IsStore h) (sto : Storage) (free : NoPageCollision sto) where
    -- A queue of these entries, whose put offset is at most `top`.
    pub record Below (w : World h) (xs : List ℕ) (top : ℕ) : Type 0 where
      pub first : ℕ
      pub holds : Holds l sto w first xs
      pub bounded : first + length xs ≤ top

    -- A reply wrapped around what a call returned.
    relay :
        {A : Type 0} (call : M A) (wrap : A → Reply) (w : World h) (a : A) (xs : List ℕ) (top : ℕ)
        {old : ℕ}
        → Returned l sto free call w a xs old
        → old ≤ top
        → Returned l sto free (call >>= λ x. pure (wrap x)) w (wrap a) xs (top + 1)
    relay call wrap w a xs top r p = record {
      after = r.after;
      first = r.first;
      returned = bind-ok call _ w r.returned;
      holds = r.holds;
      bounded = omega (arith, r.bounded);
    }

    step_lem :
        (op : Op) (w : World h) (xs : List ℕ) (top : ℕ)
        → Below w xs top
        → top < u64_max
        → Returned l sto free
            (run_op (open_queue sto) op)
            w
            (spec_reply op xs)
            (spec_next op xs)
            (top + 1)
    step_lem (put_op v) w xs top b p =
        let (runs, holds) = put_lem l sto free w b.first xs v b.holds (omega (arith, b.bounded)) in
        record {
          after = after_put l sto free (b.first + length xs) v w;
          first = b.first;
          returned = bind-ok (put (open_queue sto) v) _ w runs;
          holds = holds;
          bounded = omega (arith, length-append xs (v ∷ []), b.bounded);
        }
    step_lem get_op w xs top b p =
        relay (get (open_queue sto)) entry_reply w _ _ top (get_lem l sto free w b.first xs b.holds)
          (omega (arith, b.bounded))
    step_lem peek_op w xs top b p =
        relay (peek (open_queue sto)) entry_reply w _ _ top
          (peek_lem l sto free w b.first xs b.holds) (omega (arith, b.bounded))
    step_lem shift_op w xs top b p =
        relay (shift (open_queue sto)) bool_reply w _ _ top
          (shift_lem l sto free w b.first xs b.holds) (omega (arith, b.bounded))
    step_lem size_op w xs top b p = record {
      after = after_offsets l sto free w;
      first = b.first;
      returned = bind-ok (size (open_queue sto)) _ w (size_lem l sto free w b.first xs b.holds);
      holds = Holds-after_offsets l sto free w b.first xs b.holds;
      bounded = omega (arith, b.bounded);
    }
    step_lem is_empty_op w xs top b p = record {
      after = after_offsets l sto free w;
      first = b.first;
      returned =
          bind-ok (is_empty (open_queue sto)) _ w (is_empty_lem l sto free w b.first xs b.holds);
      holds = Holds-after_offsets l sto free w b.first xs b.holds;
      bounded = omega (arith, b.bounded);
    }

    -- On a host that is a store and for a storage whose pages do not collide: from a queue of the
    -- entries `xs`, whose put offset leaves room for one put a call, every sequence of calls
    -- returns, replies as the list does, and leaves the list's entries.
    pub run_refines :
        (ops : List Op) (w : World h) (xs : List ℕ) (top : ℕ)
        → Below w xs top
        → top + length ops ≤ u64_max
        → Returned l sto free
            (run (open_queue sto) ops)
            w
            (spec_replies ops xs)
            (spec_last ops xs)
            (top + length ops)
    unfolding run spec_replies spec_last
    run_refines [] w xs top b p = record {
      after = w;
      first = b.first;
      returned = refl;
      holds = b.holds;
      bounded = omega (arith, b.bounded);
    }
    run_refines (op ∷ ops) w xs top b p =
        let r = step_lem op w xs top b (omega arith) in
        let rs =
          run_refines ops r.after (spec_next op xs) (top + 1)
            (record { first = r.first; holds = r.holds; bounded = r.bounded }) (omega arith) in
        record {
          after = rs.after;
          first = rs.first;
          returned =
              bind-ok (run_op (open_queue sto) op) _ w r.returned
              ∙ bind-ok (run (open_queue sto) ops) _ r.after rs.returned;
          holds = rs.holds;
          bounded = omega (arith, rs.bounded);
        }
