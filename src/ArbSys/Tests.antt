-- ===== src/ArbSys/Tests.antt =====
-- The precompile on concrete calls.
use arb_reth.Prelude.{
  ℕ, length, ◌++◌, ◌<◌, arith, ◌∷◌, ◌≡◌, refl, List, [], take, none, some, ◌==◌, if◌then◌else◌,
}
use arb_reth.Bytes.{to_be_bytes, from_be_bytes}
use arb_reth.ArbSys.{Context, Selectors, arb_block_hash, output, error, invalid_input_length}
use arb_reth.ArbSys.{run, decode_address, encode_address}
use arb_reth.Bytes.{all_bytes→IsBytes}
use arb_reth.Alias.{apply_l1_to_l2_alias, undo_l1_to_l2_alias}
use arb_reth.ArbSys.Aliased.{IsAliasSelector, alias_call, undo_l1_to_l2_alias-run}
use arb_reth.ArbSys.Window.{Answer, arb_block_hash-Answer}

abbrev test_context : Context
test_context = record {
  block_number = 300;
  block_hash = λ n. if n == 250 then some 77 else none;
  chain_id = 42161;
  depth = 1;
}

arb_block_hash-Answer_example :
    Answer test_context
      (to_be_bytes 32 250)
      20
      (from_be_bytes (take 32 (to_be_bytes 32 250)))
      (arb_block_hash test_context (to_be_bytes 32 250) 20)
arb_block_hash-Answer_example = arb_block_hash-Answer test_context (to_be_bytes 32 250) 20

abbrev test_selectors : Selectors
test_selectors = record {
  arb_block_number = 0xa3b1b31d;
  arb_block_hash = 0x2b407a82;
  arb_chain_id = 0xd127f54a;
  arb_os_version = 0x051038f2;
  get_storage_gas_available = 0xa94597ff;
  is_top_level_call = 0x08bd624c;
  map_l1_sender_contract_address_to_l2_alias = 0x4dbbd506;
  was_my_callers_address_aliased = 0x175a260b;
  my_callers_address_without_aliasing = 0xd74523b3;
  send_tx_to_l1 = 0x928c169a;
  send_merkle_tree_state = 0x7aeecd2a;
  withdraw_eth = 0x25e16063;
}

test_selectors-IsAliasSelector : IsAliasSelector test_selectors
test_selectors-IsAliasSelector = record {
  small = omega arith;
  not_number = λ e. omega (arith, e);
  not_hash = λ e. omega (arith, e);
  not_chain = λ e. omega (arith, e);
  not_version = λ e. omega (arith, e);
  not_gas = λ e. omega (arith, e);
  not_top = λ e. omega (arith, e);
}

abbrev test_sender : List ℕ
test_sender =
    255 ∷ 238 ∷ 0 ∷ 1 ∷ 2 ∷ 3 ∷ 4 ∷ 5 ∷ 6 ∷ 7 ∷ 8 ∷ 9 ∷ 10 ∷ 11 ∷ 12 ∷ 13 ∷ 14 ∷ 255 ∷ 255 ∷ 239
    ∷ []

-- The unused address of a call.
abbrev test_unused : List ℕ
test_unused = 0 ∷ 0 ∷ 0 ∷ 0 ∷ 0 ∷ 0 ∷ 0 ∷ 0 ∷ 0 ∷ 0 ∷ 0 ∷ 0 ∷ 0 ∷ 0 ∷ 0 ∷ 0 ∷ 0 ∷ 0 ∷ 0 ∷ 9 ∷ []

undo_l1_to_l2_alias-run_example :
    let aliased = apply_l1_to_l2_alias test_sender in
    (run test_selectors test_context (alias_call test_selectors test_sender test_unused) 0
      ≡ output 0 (encode_address aliased))
    × (decode_address (encode_address aliased) ≡ some aliased)
    × (undo_l1_to_l2_alias aliased ≡ test_sender)
    × ((args : List ℕ)
        → length args < 32
        → run test_selectors test_context (to_be_bytes 4 0x4dbbd506 ++ args) 0
          ≡ error invalid_input_length)
undo_l1_to_l2_alias-run_example =
    undo_l1_to_l2_alias-run test_selectors test_context test_sender test_unused 0
      test_selectors-IsAliasSelector (all_bytes→IsBytes test_sender refl) refl
