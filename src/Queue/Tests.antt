-- ===== src/Queue/Tests.antt =====
-- The theorems on queues at a concrete host, on a queue that was just initialized.
use arb_reth.Prelude.{
  ◌+◌, ◌≡◌, refl, List, [], ◌∷◌, length, arith, true, false, Bool, ℕ, none, some,
}
use arb_reth.Queue.{open_queue, initialize, for_each}
use arb_reth.Queue.Visit.{visit, closure_of, for_each_lem}
use arb_reth.Queue.Take.{Returned}
use arb_reth.Queue.Reset.{initialize_lem}
use arb_reth.Queue.Refine.{
  Op, put_op, get_op, peek_op, size_op, shift_op, entry_reply, unit_reply, size_reply, bool_reply,
  run, spec_replies, spec_last, run_refines,
}
use arb_reth.World.Ends.{Ends}
use arb_reth.Queue.Order.{put-then-get}
use arb_reth.Queue.Refine.{Reply}
use arb_reth.Prelude.{◌++◌}
use arb_reth.TestHost.{test_host, test_store, blank, test_storage, test_free}

abbrev script : List Op
script = put_op 5 ∷ put_op 6 ∷ peek_op ∷ get_op ∷ size_op ∷ get_op ∷ shift_op ∷ get_op ∷ []

spec_script :
    spec_replies script []
    ≡ unit_reply
      ∷ unit_reply
      ∷ entry_reply (some 5)
      ∷ entry_reply (some 5)
      ∷ size_reply 1
      ∷ entry_reply (some 6)
      ∷ bool_reply true
      ∷ entry_reply none
      ∷ []
unfolding spec_replies
spec_script = refl

initialize_lem_example :
    Returned test_store test_storage
      (test_free test_storage)
      (initialize test_storage)
      blank
      tt
      []
      2
initialize_lem_example = initialize_lem test_store test_storage (test_free test_storage) blank refl

abbrev fresh :
    Returned test_store test_storage
      (test_free test_storage)
      (initialize test_storage)
      blank
      tt
      []
      2
fresh = initialize_lem test_store test_storage (test_free test_storage) blank refl

run_refines_example :
    Returned test_store test_storage
      (test_free test_storage)
      (run (open_queue test_storage) script)
      fresh.after
      (spec_replies script [])
      (spec_last script [])
      (2 + length script)
run_refines_example =
    run_refines test_store test_storage (test_free test_storage) script fresh.after [] 2
      (record { first = fresh.first; holds = fresh.holds; bounded = fresh.bounded }) (omega arith)

abbrev filled :
    Returned test_store test_storage
      (test_free test_storage)
      (run (open_queue test_storage) (put_op 5 ∷ put_op 6 ∷ []))
      fresh.after
      (spec_replies (put_op 5 ∷ put_op 6 ∷ []) [])
      (spec_last (put_op 5 ∷ put_op 6 ∷ []) [])
      (2 + 2)
filled =
    run_refines test_store test_storage (test_free test_storage) (put_op 5 ∷ put_op 6 ∷ [])
      fresh.after [] 2
      (record { first = fresh.first; holds = fresh.holds; bounded = fresh.bounded }) (omega arith)

-- Adds up the entries.
abbrev add_entry : ℕ → ℕ → ℕ → ℕ × Bool
add_entry i x s = (s + x, false)

for_each_lem_example :
    Returned test_store test_storage
      (test_free test_storage)
      (for_each (closure_of add_entry) (open_queue test_storage) 0)
      filled.after
      (visit add_entry 0 (spec_last (put_op 5 ∷ put_op 6 ∷ []) []) 0)
      (spec_last (put_op 5 ∷ put_op 6 ∷ []) [])
      (filled.first + length (spec_last (put_op 5 ∷ put_op 6 ∷ []) []))
for_each_lem_example =
    for_each_lem add_entry test_store test_storage (test_free test_storage) filled.after
      filled.first (spec_last (put_op 5 ∷ put_op 6 ∷ []) []) 0 filled.holds

-- On an empty queue: a put, a peek and a second put, and the first get.
put-then-get_example :
    Ends
      (run (open_queue test_storage) (put_op 8 ∷ (peek_op ∷ put_op 9 ∷ []) ++ get_op ∷ []))
      fresh.after
      (λ replies w'. (front : List Reply) × (replies ≡ front ++ entry_reply (some 8) ∷ []))
put-then-get_example =
    put-then-get test_store test_storage (test_free test_storage) (peek_op ∷ put_op 9 ∷ [])
      fresh.after [] 8 2
      (record { first = fresh.first; holds = fresh.holds; bounded = fresh.bounded }) (omega arith)
      refl
