-- ===== src/L1Pricing/Tests.antt =====
-- The theorems on the L1 price at concrete values.
use arb_reth.Prelude.{◌-◌, ◌≤◌, ◌≡◌, refl, arith, ltb, if◌then◌else◌}
use arb_reth.Prelude.Int.{pos, negsuc}
use arb_reth.Signed.{div_i256, mul_i256, sub_i256, neg_i256, wrapping_neg}
use arb_reth.World.{ok, panic, transfer_failed, inconsistent_balance}
use arb_reth.L1Pricing.{
  L1PricingState, open_l1_pricing_state, l1_pricer_funds_pool_address,
  transfer_from_l1_fees_available,
}
use arb_reth.L1Pricing.Arith.{
  first_time, allocation_numerator, allocation_denominator, units_allocated, capped,
  payment_for_rewards, new_price, price_change,
}
use arb_reth.L1Pricing.Arith.Bounds.{allocation-le}
use arb_reth.L1Pricing.Arith.Direction.{repriced, repriced-deficit, repriced-surplus}
use arb_reth.L1Pricing.Transfer.{balance_in, after_transfer, transfer_from_l1_fees_available_lem}
use arb_reth.Storage.Typed.Laws.{held}
use arb_reth.Storage.Slot.{value}
use arb_reth.Storage.Space.{open_sub_storage, get_by_key}
use arb_reth.Storage.Space.Keys.{page_hash}
use arb_reth.AddressSet.{is_member}
use arb_reth.World.{World}
use arb_reth.World.Ends.{Ends}
use arb_reth.L1Pricing.Arith.{is_invalid_time}
use arb_reth.L1Pricing.Steps.{updated, invalid_time}
use arb_reth.L1Pricing.Update.{update_for_batch_poster_spending}
use arb_reth.L1Pricing.Covered.{Backed}
use arb_reth.L1Pricing.Opened.{table_storage, pre_version10_update_for_batch_poster_spending-Ends}
use arb_reth.L1Pricing.Refused.{update_for_batch_poster_spending_refused}
use arb_reth.L1Pricing.{batch_poster_address}
use arb_reth.L1Pricing.PosterCost.{Codec, PosterTransaction, get_poster_info}
use arb_reth.L1Pricing.PosterCost.Cached.{IsCache, answer, get_poster_info_twice}
use arb_reth.Prelude.{Option, none, some, length, ◌==◌, ==_refl}
use arb_reth.TestHost.{test_hash, length-test_hash, page_hash-eq}
use arb_reth.Bytes.{to_be_bytes}
use arb_reth.Prelude.{List, ◌≢◌, [], ◌∷◌, ◌++◌, ℕ, true}
use arb_reth.TestHost.{test_host, test_store, test_bank, blank, test_storage}

abbrev test_pricing : L1PricingState
test_pricing = open_l1_pricing_state test_storage 11

-- A price of 1000 falls by 420 for a surplus of 6_000_000 wei that was 0.
repriced_run : repriced 1000 (pos 6_000_000) (pos 0) 10 100_000 5000 ≡ 580
unfolding new_price price_change div_i256 mul_i256 sub_i256 neg_i256 wrapping_neg
repriced_run = refl

allocation-le_example :
    let last = first_time 100 150 in
    let numerator = allocation_numerator last 150 200 in
    let allocated = units_allocated 1000 numerator (allocation_denominator last 200) in
    (allocated ≤ 1000)
    × (capped 7 allocated 5000 9_000 ≤ 9_000)
    × (payment_for_rewards 10 allocated 300 ≤ 300)
allocation-le_example = allocation-le 100 150 200 1000 7 5000 9_000 10 300 refl

repriced-deficit_example : 1000 ≤ repriced 1000 (negsuc 5_999_999) (pos 20) 10 100_000 5000
repriced-deficit_example =
    repriced-deficit 1000 (negsuc 5_999_999) (pos 20) 10 100_000 5000 (omega arith) refl
      (omega arith)

repriced-surplus_example : repriced 1000 (pos 6_000_000) (pos 20) 10 100_000 5000 ≤ 1000
repriced-surplus_example =
    repriced-surplus 1000 (pos 6_000_000) (pos 20) 10 100_000 5000 (omega arith) refl (omega arith)

-- The pool has 1000, and the stored fees are 0.
transfer_from_l1_fees_available_lem_example :
    transfer_from_l1_fees_available test_pricing 77 500 blank ≡ (
      if ltb (balance_in test_store test_bank blank l1_pricer_funds_pool_address) 500
      then panic transfer_failed
      else if ltb (held test_store blank test_pricing.l1_fees_available) 500
      then panic inconsistent_balance
      else ok
          (held test_store blank test_pricing.l1_fees_available - 500)
          (after_transfer test_store test_bank test_pricing 77 500 blank))
transfer_from_l1_fees_available_lem_example =
    transfer_from_l1_fees_available_lem test_store test_bank test_pricing 77 500 blank refl

-- Every slot is one, so every account is a poster and the stored fees are one.
abbrev ones : World test_host
ones = record blank { db = record { slots = λ a k. 1; balances = λ a. 1000 } }

-- The key of a storage has two bytes, that of a storage below it 32: their pages differ.
below_apart :
    (key : List ℕ)
    → page_hash test_storage 0 ≢ page_hash (record { account = 7; storage_key = test_hash key }) 0
below_apart key e = omega (
  arith,
  e,
  page_hash-eq test_storage 0 (omega arith),
  page_hash-eq (record { account = 7; storage_key = test_hash key }) 0 (omega arith),
  length-test_hash key,
)

ones_member : is_member test_pricing.batch_poster_table.poster_addrs 77 ones ≡ ok true ones
unfolding is_member get_by_key
ones_member = refl

-- In version 5 an update is paid from the balance of the pool.
pre_version10_update_for_batch_poster_spending-Ends_example :
    Ends (update_for_batch_poster_spending test_pricing 5 150 200 77 5 7) ones (λ r w'.
      (r ≡ (
        if is_invalid_time
          (first_time (held test_store ones test_pricing.last_update_time) 150)
          150
          200
        then invalid_time
        else updated))
      × Backed test_store test_bank test_pricing
          (held test_store ones test_pricing.l1_fees_available)
          0
          w')
unfolding open_sub_storage value
pre_version10_update_for_batch_poster_spending-Ends_example =
    pre_version10_update_for_batch_poster_spending-Ends test_store test_bank test_storage 11 5 150
      200 77 5 7 ones refl refl (omega arith) (below_apart (1 ∷ 2 ∷ 0 ∷ []))
      (below_apart
        ((open_sub_storage (table_storage test_storage) (1 ∷ [])).storage_key ++ to_be_bytes 20 77))
      ones_member refl (omega arith, (omega arith, (omega arith, (omega arith, (omega arith, tt)))))

-- The last update was at time 1; an update for time 250 at time 200 is refused.
update_for_batch_poster_spending_refused_example :
    Ends
      (update_for_batch_poster_spending test_pricing 11 250 200 77 5 7)
      ones
      (λ r w'. (r ≡ invalid_time) × (w'.db ≡ ones.db))
unfolding value
update_for_batch_poster_spending_refused_example =
    update_for_batch_poster_spending_refused test_store test_pricing 11 250 200 77 5 7 ones
      ones_member (omega arith) refl refl

-- Encodings that do nothing, and a compression that keeps the length.
abbrev test_codec : Codec
test_codec = record {
  encode_uint = λ n. n ∷ [];
  encode_bytes = λ bytes. bytes;
  encode_address = λ a. a ∷ [];
  encode_word = λ v. v ∷ [];
  list_header = λ n. n ∷ [];
  compressed_length = λ bytes level. length bytes;
}

-- A transaction of some bytes, with the units of one level cached.
abbrev TestTx : Type 0
TestTx = List ℕ × Option (ℕ × ℕ)

abbrev cached_at : ℕ → Option (ℕ × ℕ) → Option ℕ
cached_at level none = none
cached_at level (some entry) = if entry.0 == level then some entry.1 else none

abbrev test_transaction : PosterTransaction TestTx
test_transaction = record {
  encode = λ tx. tx.0;
  tx_type = λ tx. 2;
  get_cached_calldata_units = λ tx level. cached_at level tx.1;
  set_cached_calldata_units = λ tx level units. (tx.0, some (level, units));
}

test_transaction-IsCache : IsCache test_transaction
test_transaction-IsCache tx level units = rw (==_refl level) refl

abbrev a_transaction : TestTx
a_transaction = (5 ∷ 6 ∷ 7 ∷ [], none)

get_poster_info_twice_example :
    Ends
      (get_poster_info test_codec test_transaction test_pricing a_transaction batch_poster_address
        11)
      ones
      (λ r w'.
        (r
          ≡ answer test_codec test_transaction test_transaction-IsCache test_store test_pricing
              a_transaction batch_poster_address 11 ones)
        × Ends
            (get_poster_info test_codec test_transaction test_pricing r.1 batch_poster_address 11)
            w'
            (λ r' w''. r' ≡ r))
get_poster_info_twice_example =
    get_poster_info_twice test_codec test_transaction test_transaction-IsCache test_store
      test_pricing a_transaction batch_poster_address 11 ones
