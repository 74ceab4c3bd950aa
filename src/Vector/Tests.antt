-- ===== src/Vector/Tests.antt =====
-- The theorems on vectors of sub-storages at a concrete host, on an empty vector.
use arb_reth.Prelude.{◌≡◌, refl, arith}
use arb_reth.World.{ok}
use arb_reth.Storage.Slot.{value}
use arb_reth.Vector.{SubStorageVector, open_vector, at}
use arb_reth.Vector.Laws.{HasLength, after_length, push_then_pop, pop-push}
use arb_reth.TestHost.{test_host, test_store, blank, test_storage}

abbrev a_vector : SubStorageVector
a_vector = open_vector test_storage

empty_vector : HasLength test_store a_vector blank 0
unfolding value
empty_vector = record { writable = refl; length_at = refl; small = omega arith }

pop-push_example :
    (push_then_pop test_store a_vector blank
      ≡ ok
          (at a_vector 0, at a_vector 0)
          (after_length test_store a_vector 0 (after_length test_store a_vector 1 blank)))
    × HasLength test_store a_vector
        (after_length test_store a_vector 0 (after_length test_store a_vector 1 blank))
        0
pop-push_example = pop-push test_store a_vector blank 0 empty_vector (omega arith)
