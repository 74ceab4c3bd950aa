-- ===== src/Queue/Order.antt =====
-- First in, first out: when an entry that was put leaves the queue.
use arb_reth.Prelude.{
  ℕ, suc, ◌+◌, ◌≤◌, ◌≡◌, refl, ◌∙◌, ap, arith, some, List, [], ◌∷◌, ◌++◌, length, length-append,
  u64_max,
}
use mathlib.Core.List.{append_assoc}
use arb_reth.Host.{Host, IsStore}
use arb_reth.World.{World}
use arb_reth.World.Ends.{Ends}
use arb_reth.Storage.Space.{Storage}
use arb_reth.Storage.Space.Keys.{NoPageCollision}
use arb_reth.Queue.{open_queue}
use arb_reth.Queue.Take.{first_of_list}
use arb_reth.Queue.Refine.{
  Op, put_op, get_op, peek_op, size_op, is_empty_op, shift_op, Reply, unit_reply, entry_reply, run,
  spec_reply, spec_next, spec_replies, spec_last, Below, run_refines,
}

-- How many of the calls are `get`.
abbrev pub gets : List Op → ℕ
gets [] = 0
gets (put_op v ∷ ops) = gets ops
gets (get_op ∷ ops) = suc (gets ops)
gets (peek_op ∷ ops) = gets ops
gets (size_op ∷ ops) = gets ops
gets (is_empty_op ∷ ops) = gets ops
gets (shift_op ∷ ops) = gets ops

-- After as many gets as there are entries before it, an entry is the first.
first_after :
    (ops : List Op) (before : List ℕ) (v : ℕ) (behind : List ℕ)
    → gets ops ≡ length before
    → first_of_list (spec_last ops (before ++ v ∷ behind)) ≡ some v
unfolding spec_last
first_after [] [] v behind e = refl
first_after [] (b ∷ before) v behind e = absurd (omega (arith, e))
first_after (put_op x ∷ ops) before v behind e =
    rw (append_assoc before (v ∷ behind) (x ∷ [])) (first_after ops before v (behind ++ x ∷ []) e)
first_after (get_op ∷ ops) [] v behind e = absurd (omega (arith, e))
first_after (get_op ∷ ops) (b ∷ before) v behind e =
    first_after ops before v behind (omega (arith, e))
first_after (peek_op ∷ ops) before v behind e = first_after ops before v behind e
first_after (size_op ∷ ops) before v behind e = first_after ops before v behind e
first_after (is_empty_op ∷ ops) before v behind e = first_after ops before v behind e
first_after (shift_op ∷ ops) before v behind e = first_after ops before v behind e

spec_replies_last :
    (ops : List Op) (op : Op) (xs : List ℕ)
    → spec_replies (ops ++ op ∷ []) xs
      ≡ spec_replies ops xs ++ spec_reply op (spec_last ops xs) ∷ []
unfolding spec_replies spec_last
spec_replies_last [] op xs = refl
spec_replies_last (o ∷ ops) op xs =
    ap (λ s. spec_reply o xs ∷ s) (spec_replies_last ops op (spec_next o xs))

module _ ⦃h : Host⦄ (l : IsStore h) (sto : Storage) (free : NoPageCollision sto) where
  -- On a host that is a store and for a storage whose pages do not collide: on a queue of the entries
  -- `xs`, whose put offset leaves room for the calls, a put of `v`, any calls of which as many are
  -- `get` as there are entries in `xs`, and one more `get` all return, and the last returns `v`.
  pub put-then-get :
      (ops : List Op) (w : World h) (xs : List ℕ) (v top : ℕ)
      → Below l sto free w xs top
      → top + length ops + 2 ≤ u64_max
      → gets ops ≡ length xs
      → Ends
          (run (open_queue sto) (put_op v ∷ ops ++ get_op ∷ []))
          w
          (λ replies w'. (front : List Reply) × (replies ≡ front ++ entry_reply (some v) ∷ []))
  unfolding spec_replies
  put-then-get ops w xs v top b p e =
      let r =
        run_refines l sto free (put_op v ∷ ops ++ get_op ∷ []) w xs top b
          (omega (arith, p, length-append ops (get_op ∷ []))) in
      record {
        result = _;
        after = r.after;
        returned = r.returned;
        left_with = (
          unit_reply ∷ spec_replies ops (xs ++ v ∷ []),
          ap (λ s. unit_reply ∷ s)
              (spec_replies_last ops get_op (xs ++ v ∷ [])
                ∙ ap (λ x. spec_replies ops (xs ++ v ∷ []) ++ entry_reply x ∷ [])
                    (first_after ops xs v [] e)),
        );
      }
