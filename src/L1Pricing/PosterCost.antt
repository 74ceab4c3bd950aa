-- ===== src/L1Pricing/PosterCost.antt =====
-- What a transaction costs its poster: `poster_data_cost` and its parts in
-- crates/arb-arbos/src/l1pricing/l1pricing.rs. The RLP encoding of values and the length of a
-- brotli compression are third-party functions and parameters here.
pub mod Cached
use arb_reth.Prelude.{
  ℕ, ◌+◌, ◌*◌, ◌/◌, Bool, Option, none, some, List, [], ◌∷◌, ◌++◌, length, take, ◌==◌, ◌||◌, not,
  min, saturating_add, saturating_mul, u64_max, u256_max, if◌then◌else◌,
}
use arb_reth.Bytes.{from_be_bytes}
use arb_reth.Host.{Host}
use arb_reth.World.{M, ◌>>=◌, pure}
use arb_reth.L1Pricing.{L1PricingState, batch_poster_address, price_per_unit}

abbrev pub tx_data_non_zero_gas : ℕ
tx_data_non_zero_gas = 16

abbrev pub estimation_padding_units : ℕ
estimation_padding_units = tx_data_non_zero_gas * tx_data_non_zero_gas

abbrev pub estimation_padding_basis_points : ℕ
estimation_padding_basis_points = 100

abbrev pub arb_deposit_tx_type : ℕ
arb_deposit_tx_type = 100

abbrev pub arb_unsigned_tx_type : ℕ
arb_unsigned_tx_type = 101

abbrev pub arb_contract_tx_type : ℕ
arb_contract_tx_type = 102

abbrev pub arb_retry_tx_type : ℕ
arb_retry_tx_type = 104

abbrev pub arb_submit_retryable_tx_type : ℕ
arb_submit_retryable_tx_type = 105

abbrev pub arb_internal_tx_type : ℕ
arb_internal_tx_type = 106

abbrev pub arb_legacy_tx_type : ℕ
arb_legacy_tx_type = 120

-- The types 100, 101, 102, 104, 105, 106 and 120 have none.
unfoldable pub tx_type_has_poster_costs : ℕ → Bool
tx_type_has_poster_costs tx_type = not (
    tx_type == arb_deposit_tx_type
    || tx_type == arb_unsigned_tx_type
    || tx_type == arb_contract_tx_type
    || tx_type == arb_retry_tx_type
    || tx_type == arb_submit_retryable_tx_type
    || tx_type == arb_internal_tx_type
    || tx_type == arb_legacy_tx_type)

-- `trait PosterTransaction`.
pub record PosterTransaction (T : Type 0) : Type 0 where
  pub encode : T → List ℕ
  pub tx_type : T → ℕ
  pub get_cached_calldata_units : T → ℕ → Option ℕ
  pub set_cached_calldata_units : T → ℕ → ℕ → T

-- The encoded bytes of a transaction that stands for a message.
pub record FakeTx : Type 0 where
  pub encoded : List ℕ

-- `impl PosterTransaction for FakeTx`.
abbrev pub fake_transaction : PosterTransaction FakeTx
fake_transaction = record {
  encode = λ tx. tx.encoded;
  tx_type = λ tx. 2;
  get_cached_calldata_units = λ tx level. none;
  set_cached_calldata_units = λ tx level units. tx;
}

pub record Message (T : Type 0) : Type 0 where
  pub nonce : ℕ
  pub gas_tip_cap : ℕ
  pub gas_fee_cap : ℕ
  pub gas_limit : ℕ
  pub is_gas_estimation : Bool
  pub to : Option ℕ
  pub value : ℕ
  pub calldata : List ℕ
  pub access_list : List (ℕ × List ℕ)
  pub tx : Option T

-- `alloy_rlp`: the encodings of an integer, of bytes, of an address and of a 32-byte word, and the
-- header of a list whose payload has a length. `brotli`: the length of the bytes compressed at a
-- quality.
pub record Codec : Type 0 where
  pub encode_uint : ℕ → List ℕ
  pub encode_bytes : List ℕ → List ℕ
  pub encode_address : ℕ → List ℕ
  pub encode_word : ℕ → List ℕ
  pub list_header : ℕ → List ℕ
  pub compressed_length : List ℕ → ℕ → ℕ

module _ (c : Codec) where
  unfoldable pub byte_count_after_brotli_level : List ℕ → ℕ → ℕ
  byte_count_after_brotli_level input level = c.compressed_length input (min level 11)

  unfoldable pub encode_list : List ℕ → List ℕ
  encode_list payload = c.list_header (length payload) ++ payload

  unfoldable pub encode_keys : List ℕ → List ℕ
  encode_keys [] = []
  encode_keys (key ∷ keys) = c.encode_word key ++ encode_keys keys

  -- The payload of the list that `encode_access_list` encodes.
  unfoldable pub encode_entries : List (ℕ × List ℕ) → List ℕ
  unfolding encode_list encode_keys
  encode_entries [] = []
  encode_entries (e ∷ list) =
      encode_list (c.encode_address e.0 ++ encode_list (encode_keys e.1)) ++ encode_entries list

  unfoldable pub encode_access_list : List (ℕ × List ℕ) → List ℕ
  unfolding encode_list encode_entries
  encode_access_list list = encode_list (encode_entries list)

  module _ ⦃h : Host⦄ where
    -- The constants that stand for values that a message does not have: hashes of their names.
    abbrev pub random_nonce : ℕ
    random_nonce = from_be_bytes (take 8 (h.keccak256 (78 ∷ 111 ∷ 110 ∷ 99 ∷ 101 ∷ [])))

    abbrev pub random_gas_tip_cap : ℕ
    random_gas_tip_cap =
        from_be_bytes (take 4 (h.keccak256 (71 ∷ 97 ∷ 115 ∷ 84 ∷ 105 ∷ 112 ∷ 67 ∷ 97 ∷ 112 ∷ [])))

    abbrev pub random_gas_fee_cap : ℕ
    random_gas_fee_cap =
        from_be_bytes (take 4 (h.keccak256 (71 ∷ 97 ∷ 115 ∷ 70 ∷ 101 ∷ 101 ∷ 67 ∷ 97 ∷ 112 ∷ [])))

    abbrev pub random_gas : ℕ
    random_gas = from_be_bytes (take 4 (h.keccak256 (71 ∷ 97 ∷ 115 ∷ [])))

    abbrev pub rand_v : ℕ
    rand_v = 126_483

    abbrev pub rand_r : ℕ
    rand_r = from_be_bytes (h.keccak256 (82 ∷ []))

    abbrev pub rand_s : ℕ
    rand_s = from_be_bytes (h.keccak256 (83 ∷ []))

    abbrev encode_to : Option ℕ → List ℕ
    encode_to none = c.encode_bytes []
    encode_to (some addr) = c.encode_address addr

    unfoldable pub fake_eip1559_bytes :
        ℕ → ℕ → ℕ → ℕ → Option ℕ → ℕ → List ℕ → List (ℕ × List ℕ) → List ℕ
    unfolding encode_list encode_access_list
    fake_eip1559_bytes nonce gas_tip_cap gas_fee_cap gas to value calldata access_list =
        2
        ∷ encode_list (
            c.encode_uint 0
            ++ c.encode_uint nonce
            ++ c.encode_uint gas_tip_cap
            ++ c.encode_uint gas_fee_cap
            ++ c.encode_uint gas
            ++ encode_to to
            ++ c.encode_uint value
            ++ c.encode_bytes calldata
            ++ encode_access_list access_list
            ++ c.encode_uint rand_v
            ++ c.encode_uint rand_r
            ++ c.encode_uint rand_s)

    unfoldable pub make_fake_tx_for_message : {T : Type 0} → Message T → FakeTx
    unfolding fake_eip1559_bytes
    make_fake_tx_for_message m = record {
      encoded =
          fake_eip1559_bytes (if m.nonce == 0 then random_nonce else m.nonce)
            (if m.gas_tip_cap == 0 then random_gas_tip_cap else m.gas_tip_cap)
            (if m.gas_fee_cap == 0 then random_gas_fee_cap else m.gas_fee_cap)
            (if m.gas_limit == 0 || m.is_gas_estimation then random_gas else m.gas_limit) m.to
            m.value m.calldata m.access_list;
    }

    unfoldable pub get_poster_units_without_cache :
        {T : Type 0} → PosterTransaction T → T → ℕ → ℕ → ℕ
    unfolding byte_count_after_brotli_level
    get_poster_units_without_cache ops tx poster_addr level =
        if not (poster_addr == batch_poster_address)
        then 0
        else if not (tx_type_has_poster_costs (ops.tx_type tx))
        then 0
        else saturating_mul u64_max tx_data_non_zero_gas
            (byte_count_after_brotli_level (ops.encode tx) level)

    -- The units of a transaction and the transaction after the call, whose cache may have changed.
    unfoldable pub cached_units : {T : Type 0} → PosterTransaction T → T → ℕ → ℕ → ℕ × T
    cached_units ops tx poster level = elim (ops.get_cached_calldata_units tx level) [
      | some cached ↦ (cached, tx)
      | none ↦
          let computed = get_poster_units_without_cache ops tx poster level in
          (computed, ops.set_cached_calldata_units tx level computed)
    ]

    -- The cost, the units, and the transaction after the call.
    unfoldable pub get_poster_info :
        {T : Type 0} → PosterTransaction T → L1PricingState → T → ℕ → ℕ → M ((ℕ × ℕ) × T)
    get_poster_info ops s tx poster level =
        if not (poster == batch_poster_address)
        then pure ((0, 0), tx)
        else (price_per_unit s >>= λ price. pure (
          (
            saturating_mul u256_max price (cached_units ops tx poster level).0,
            (cached_units ops tx poster level).0,
          ),
          (cached_units ops tx poster level).1,
        ))

    -- The units of a message without a transaction, with the padding of an estimate.
    unfoldable pub padded_units : ℕ → ℕ
    padded_units units =
        saturating_mul u64_max (saturating_add u64_max units estimation_padding_units)
          (10_000 + estimation_padding_basis_points)
        / 10_000

    -- The cost, the units, and the message after the call.
    unfoldable pub poster_data_cost :
        {T : Type 0}
        → PosterTransaction T
        → L1PricingState
        → Message T
        → ℕ
        → ℕ
        → M ((ℕ × ℕ) × Message T)
    poster_data_cost ops s message poster level = elim message.tx [
      | some tx ↦ get_poster_info ops s tx poster level >>= λ r.
          pure (r.0, record message { tx = some r.1 })
      | none ↦ price_per_unit s >>= λ price.
          let units = padded_units (
            get_poster_units_without_cache fake_transaction (make_fake_tx_for_message message)
              poster level) in
          pure ((saturating_mul u256_max price units, units), message)
    ]
