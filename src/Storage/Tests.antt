-- ===== src/Storage/Tests.antt =====
-- The theorems on storage at a concrete host, slot and storage.
use arb_reth.Prelude.{
  ◌%◌, none, some, if◌then◌else◌, ◌==◌, ℕ, List, [], ◌∷◌, ◌++◌, ◌+◌, ◌≡◌, ◌≢◌, refl, some, arith,
  u64_max, if◌then◌else◌, ◌==◌,
}
use arb_reth.Prelude.Int.{negsuc, to_raw, from_raw}
use arb_reth.World.{ok, panic, increment_overflow, ◌>>◌}
use arb_reth.Prelude.{◌^◌, u64_max}
use arb_reth.Storage.Slot.{StorageSlot, value, after_get, after_set}
use arb_reth.Storage.Typed.{
  i256_half, get_int64, get_uint64, get_uint16, get_uint24, get_uint32, get_address, set_big_int,
  get_big_int, set_pre_version7, unsigned_abs, set_address_or_nil, get_address_or_nil,
  address_or_nil_word, increment,
}
use arb_reth.Storage.Typed.Laws.{
  held, increment_lem, get_big_int-set_big_int, get_address_or_nil-set_address_or_nil,
}
use arb_reth.Storage.Typed.Guards.{below, signed64, reads_guarded}
use arb_reth.Storage.Space.{map_address}
use arb_reth.Storage.Space.Keys.{map_address-ne}
use arb_reth.World.{World}
use arb_reth.Storage.Slot.{get_lem}
use arb_reth.World.Loop.{Leaves}
use arb_reth.Storage.Blob.{get_bytes, set_bytes}
use arb_reth.Storage.Blob.Laws.{get_bytes-set_bytes}
use arb_reth.Bytes.{all_bytes→IsBytes}
use arb_reth.TestHost.{test_host, test_store, blank, test_storage, test_free}

abbrev a_slot : StorageSlot
a_slot = record { account = 7; slot = 3 }

increment_lem_example : increment a_slot blank ≡ (
    if held test_store blank a_slot == u64_max
    then panic increment_overflow
    else ok
        (held test_store blank a_slot + 1)
        (after_set test_store a_slot (held test_store blank a_slot + 1) (after_get a_slot blank)))
unfolding value
increment_lem_example = increment_lem test_store a_slot blank refl (omega arith)

-- A word of 17 bits, which is too large for 16 bits alone.
abbrev wide : World test_host
wide = record blank { db = record { slots = λ a k. 70_000; balances = λ a. 0 } }

reads_guarded_example :
    (get_uint64 a_slot wide ≡ below (2 ^ 64) 70_000 70_000 (after_get a_slot wide))
    × (get_uint16 a_slot wide ≡ below (2 ^ 16) 70_000 70_000 (after_get a_slot wide))
    × (get_uint24 a_slot wide ≡ below (2 ^ 24) 70_000 70_000 (after_get a_slot wide))
    × (get_uint32 a_slot wide ≡ below (2 ^ 32) 70_000 70_000 (after_get a_slot wide))
    × (get_int64 a_slot wide ≡ below (2 ^ 64) 70_000 (signed64 70_000) (after_get a_slot wide))
    × (get_address a_slot wide ≡ ok (70_000 % 2 ^ 160) (after_get a_slot wide))
    × (get_address_or_nil a_slot wide
        ≡ ok (if 70_000 == 2 ^ 255 then none else some (70_000 % 2 ^ 160)) (after_get a_slot wide))
unfolding value
reads_guarded_example =
    reads_guarded a_slot 70_000 wide (after_get a_slot wide) (get_lem test_store a_slot wide)

get_big_int-set_big_int_example :
    ((set_big_int a_slot (negsuc 4) >> get_big_int a_slot) blank
      ≡ ok
          (negsuc 4)
          (after_get a_slot (after_set test_store a_slot (to_raw i256_half (negsuc 4)) blank)))
    × ((set_pre_version7 a_slot (negsuc 4) >> get_big_int a_slot) blank
        ≡ ok
            (from_raw i256_half (unsigned_abs (negsuc 4)))
            (after_get a_slot (after_set test_store a_slot (unsigned_abs (negsuc 4)) blank)))
get_big_int-set_big_int_example =
    get_big_int-set_big_int test_store a_slot (negsuc 4) blank refl (omega arith)

get_address_or_nil-set_address_or_nil_example :
    (set_address_or_nil a_slot (some 12) >> get_address_or_nil a_slot) blank
    ≡ ok
        (some 12)
        (after_get a_slot (after_set test_store a_slot (address_or_nil_word (some 12)) blank))
get_address_or_nil-set_address_or_nil_example =
    get_address_or_nil-set_address_or_nil test_store a_slot (some 12) blank refl (omega arith)

map_address-ne_example : map_address test_storage 3 ≢ map_address test_storage 300
map_address-ne_example =
    map_address-ne test_storage 3 300 (test_free test_storage) (omega arith) (omega arith)
      (omega arith)

-- Forty bytes: a word and a quarter.
abbrev eight_bytes : List ℕ
eight_bytes = 1 ∷ 2 ∷ 3 ∷ 255 ∷ 0 ∷ 6 ∷ 7 ∷ 8 ∷ []

abbrev some_bytes : List ℕ
some_bytes = eight_bytes ++ eight_bytes ++ eight_bytes ++ eight_bytes ++ eight_bytes

get_bytes-set_bytes_example :
    Leaves
      (set_bytes test_storage some_bytes)
      blank
      (λ w. get_bytes test_storage w ≡ ok some_bytes w)
unfolding value
get_bytes-set_bytes_example =
    get_bytes-set_bytes test_store test_storage (test_free test_storage) blank some_bytes
      (omega arith) (all_bytes→IsBytes some_bytes refl) (omega arith)
