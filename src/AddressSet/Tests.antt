-- ===== src/AddressSet/Tests.antt =====
-- The theorems on address sets at a concrete host, on an empty set.
use arb_reth.Prelude.{if◌then◌else◌, ◌+◌, ◌%◌, ◌≡◌, refl, arith, false, List, [], ◌∷◌, length}
use arb_reth.Storage.Slot.{value}
use arb_reth.Storage.Space.{open_sub_storage}
use arb_reth.World.{panic, correctly_mapped, not_owner}
use arb_reth.AddressSet.{open_set, rectify_mapping}
use arb_reth.AddressSet.Model.{contains}
use arb_reth.AddressSet.Rectify.{rectify_mapping_panics}
use arb_reth.AddressSet.Model.{place, places, Apart, HoldsSet}
use arb_reth.AddressSet.Swap.{swap_remove}
use arb_reth.AddressSet.Calls.{
  Op, add_op, remove_op, is_member_op, all_members_op, clear_op, size_op, unit_reply, bool_reply,
  size_reply, members_reply, spec_replies, spec_last, run,
}
use arb_reth.AddressSet.Refine.{IsSetList, Returned, run_set_refines}
use arb_reth.TestHost.{
  test_host, test_store, blank, test_storage, test_free, page_hash-eq, length-test_hash,
}

key_length : (length (places test_storage).storage_key + 31) % 256 ≡ 63
unfolding open_sub_storage
key_length = omega (arith, length-test_hash (1 ∷ 2 ∷ 0 ∷ []))

abbrev test_apart : Apart test_storage
test_apart = record {
  own = test_free test_storage;
  keys = λ p q a b e.
      omega
        (arith, page_hash-eq (places test_storage) p a, page_hash-eq (places test_storage) q b, e);
  cross = λ p q a b e. omega (
    arith,
    page_hash-eq test_storage p (omega arith),
    page_hash-eq (places test_storage) q b,
    key_length,
    e,
  );
}

empty_set : HoldsSet test_storage test_apart test_store blank []
unfolding value place
empty_set = record {
  writable = refl;
  room = omega arith;
  size_at = refl;
  entries = λ i p. refl;
  mapped = λ a p. refl;
}

-- The calls: the second and third member, then the first away, and what is left.
abbrev calls : List Op
calls =
    add_op 5
    ∷ add_op 7
    ∷ add_op 9
    ∷ remove_op 5
    ∷ is_member_op 5
    ∷ all_members_op 8
    ∷ clear_op
    ∷ size_op
    ∷ []

empty-IsSetList : IsSetList []
empty-IsSetList = record { distinct = λ i p. absurd (omega (arith, p)); small = tt }

run_set_refines_example :
    Returned test_store test_storage test_apart
      (run 11 (open_set test_storage) calls)
      blank
      (spec_replies calls [])
      (spec_last calls [])
run_set_refines_example =
    run_set_refines test_store test_storage test_apart 11 (omega arith) calls blank [] empty_set
      empty-IsSetList
      (
        omega arith,
        (omega arith, (omega arith, (omega arith, (omega arith, (tt, (tt, (tt, tt))))))),
      )
      (omega arith)

-- The list says that the third member moved into the place of the first.
spec_moves :
    spec_replies calls []
    ≡ unit_reply
      ∷ unit_reply
      ∷ unit_reply
      ∷ unit_reply
      ∷ bool_reply false
      ∷ members_reply (9 ∷ 7 ∷ [])
      ∷ unit_reply
      ∷ size_reply 0
      ∷ []
unfolding spec_replies place swap_remove
spec_moves = refl

rectify_mapping_panics_example :
    rectify_mapping (open_set test_storage) 5 blank
    ≡ panic (if contains 5 [] then correctly_mapped else not_owner)
rectify_mapping_panics_example =
    rectify_mapping_panics test_store test_storage test_apart blank [] 5 empty_set (omega arith)
