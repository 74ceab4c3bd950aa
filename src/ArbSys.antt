-- ===== src/ArbSys.antt =====
-- The ArbSys precompile: crates/arb-revm/src/arb_precompiles/arbsys.rs. The selectors come from the
-- `sol!` macro and are parameters, numbers of four bytes; the context is what the calls read of the
-- block, the chain and the call depth. Bytes are numbers below 256, the highest first.
pub mod Window
pub mod Aliased
mod Tests
use arb_reth.Prelude.{
  ℕ, ◌-◌, Bool, Option, none, some, List, [], ◌∷◌, ◌++◌, length, take, drop, ltb, leb, ◌==◌, ◌||◌,
  u64_max, if◌then◌else◌,
}
use arb_reth.Bytes.{to_be_bytes, from_be_bytes}
use arb_reth.Storage.Blob.{zeros}
use arb_reth.Alias.{apply_l1_to_l2_alias}

-- The reasons of a `PrecompileError`.
pub data ArbSysError : Type 0 where
  out_of_gas calldata_too_short unknown_selector invalid_input_length : ArbSysError
  invalid_block_number block_number_out_of_range : ArbSysError
  requires_tx_processor requires_outbox requires_accumulator : ArbSysError

-- `PrecompileResult`: the gas used and the bytes returned, or an error.
pub data PrecompileResult : Type 0 where
  output : ℕ → List ℕ → PrecompileResult
  error : ArbSysError → PrecompileResult

-- What the calls read of the context. `block_hash` is none when the hash is not known.
pub record Context : Type 0 where
  pub block_number : ℕ
  pub block_hash : ℕ → Option ℕ
  pub chain_id : ℕ
  pub depth : ℕ

-- The selectors of the functions of the interface.
pub record Selectors : Type 0 where
  pub arb_block_number : ℕ
  pub arb_block_hash : ℕ
  pub arb_chain_id : ℕ
  pub arb_os_version : ℕ
  pub get_storage_gas_available : ℕ
  pub is_top_level_call : ℕ
  pub map_l1_sender_contract_address_to_l2_alias : ℕ
  pub was_my_callers_address_aliased : ℕ
  pub my_callers_address_without_aliasing : ℕ
  pub send_tx_to_l1 : ℕ
  pub send_merkle_tree_state : ℕ
  pub withdraw_eth : ℕ

unfoldable pub decode_u256 : List ℕ → Option ℕ
decode_u256 args = if ltb (length args) 32 then none else some (from_be_bytes (take 32 args))

-- The 20 bytes of an address.
unfoldable pub decode_address : List ℕ → Option (List ℕ)
decode_address args = if ltb (length args) 32 then none else some (take 20 (drop 12 args))

unfoldable pub encode_u256 : ℕ → List ℕ
encode_u256 val = to_be_bytes 32 val

unfoldable pub encode_bool : Bool → List ℕ
unfolding zeros
encode_bool val = zeros 31 ++ (if val then 1 else 0) ∷ []

unfoldable pub encode_b256 : ℕ → List ℕ
encode_b256 val = to_be_bytes 32 val

unfoldable pub encode_address : List ℕ → List ℕ
unfolding zeros
encode_address addr = zeros 12 ++ addr

unfoldable pub u256_to_u64 : ℕ → Option ℕ
u256_to_u64 val = if leb val u64_max then some val else none

-- A call that costs `gas`, checked against the limit first.
abbrev pub with_gas : ℕ → ℕ → PrecompileResult → PrecompileResult
with_gas gas gas_limit result = if ltb gas_limit gas then error out_of_gas else result

unfoldable pub arb_block_number : Context → ℕ → PrecompileResult
arb_block_number ctx gas_limit = with_gas 0 gas_limit (output 0 (encode_u256 ctx.block_number))

-- `unwrap_or(B256::ZERO)`.
abbrev pub hash_or_zero : Option ℕ → ℕ
hash_or_zero none = 0
hash_or_zero (some hash) = hash

-- The part of `arb_block_hash` behind the decoding.
unfoldable pub block_hash_of : Context → ℕ → PrecompileResult
block_hash_of ctx requested =
    if leb ctx.block_number requested || ltb 256 (ctx.block_number - requested)
    then error invalid_block_number
    else elim (u256_to_u64 requested) [
      | none ↦ error block_number_out_of_range
      | some number ↦ output 20 (encode_b256 (hash_or_zero (ctx.block_hash number)))
    ]

unfoldable pub arb_block_hash : Context → List ℕ → ℕ → PrecompileResult
unfolding block_hash_of
arb_block_hash ctx args gas_limit = with_gas 20 gas_limit (elim (decode_u256 args) [
  | none ↦ error invalid_input_length
  | some requested ↦ block_hash_of ctx requested
])

unfoldable pub arb_chain_id : Context → ℕ → PrecompileResult
arb_chain_id ctx gas_limit = with_gas 0 gas_limit (output 0 (encode_u256 ctx.chain_id))

unfoldable pub arb_os_version : ℕ → PrecompileResult
arb_os_version gas_limit = with_gas 0 gas_limit (output 0 (encode_u256 0))

unfoldable pub get_storage_gas_available : ℕ → PrecompileResult
get_storage_gas_available gas_limit = with_gas 0 gas_limit (output 0 (encode_u256 0))

unfoldable pub is_top_level_call : Context → ℕ → PrecompileResult
is_top_level_call ctx gas_limit = with_gas 0 gas_limit (output 0 (encode_bool (leb ctx.depth 2)))

unfoldable pub map_l1_sender_to_l2_alias : List ℕ → ℕ → PrecompileResult
map_l1_sender_to_l2_alias args gas_limit = with_gas 0 gas_limit (elim (decode_address args) [
  | none ↦ error invalid_input_length
  | some sender ↦ output 0 (encode_address (apply_l1_to_l2_alias sender))
])

abbrev pub was_my_callers_aliased : PrecompileResult
was_my_callers_aliased = error requires_tx_processor

abbrev pub my_callers_without_aliasing : PrecompileResult
my_callers_without_aliasing = error requires_tx_processor

abbrev pub send_tx_to_l1 : PrecompileResult
send_tx_to_l1 = error requires_outbox

abbrev pub send_merkle_tree_state : PrecompileResult
send_merkle_tree_state = error requires_accumulator

unfoldable pub withdraw_eth : List ℕ → PrecompileResult
withdraw_eth args = elim (decode_address args) [
  | none ↦ error invalid_input_length
  | some destination ↦ send_tx_to_l1
]

-- The part of `run` behind the split of the input.
unfoldable pub dispatch : Selectors → Context → ℕ → List ℕ → ℕ → PrecompileResult
dispatch s ctx sel args gas_limit =
    if sel == s.arb_block_number
    then arb_block_number ctx gas_limit
    else if sel == s.arb_block_hash
    then arb_block_hash ctx args gas_limit
    else if sel == s.arb_chain_id
    then arb_chain_id ctx gas_limit
    else if sel == s.arb_os_version
    then arb_os_version gas_limit
    else if sel == s.get_storage_gas_available
    then get_storage_gas_available gas_limit
    else if sel == s.is_top_level_call
    then is_top_level_call ctx gas_limit
    else if sel == s.map_l1_sender_contract_address_to_l2_alias
    then map_l1_sender_to_l2_alias args gas_limit
    else if sel == s.was_my_callers_address_aliased
    then was_my_callers_aliased
    else if sel == s.my_callers_address_without_aliasing
    then my_callers_without_aliasing
    else if sel == s.send_tx_to_l1
    then send_tx_to_l1
    else if sel == s.send_merkle_tree_state
    then send_merkle_tree_state
    else if sel == s.withdraw_eth
    then withdraw_eth args
    else error unknown_selector

unfoldable pub run : Selectors → Context → List ℕ → ℕ → PrecompileResult
run s ctx input gas_limit =
    if ltb (length input) 4
    then error calldata_too_short
    else dispatch s ctx (from_be_bytes (take 4 input)) (drop 4 input) gas_limit
