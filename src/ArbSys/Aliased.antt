-- ===== src/ArbSys/Aliased.antt =====
-- The alias of an address through the precompile: the encoded call and its decoded answer.
use arb_reth.Prelude.{
  ℕ, ◌^◌, ◌<◌, ◌≡◌, ◌≢◌, refl, ◌∙◌, ap, arith, false, List, none, some, ◌++◌, length, ltb, ==_ne,
  ==_refl, length-append, take-length_append, drop-length_append, take-length,
}
use arb_reth.Bytes.{IsBytes, to_be_bytes, from_be_bytes-to_be_bytes, length-to_be_bytes}
use arb_reth.Storage.Blob.{zeros}
use arb_reth.Alias.{
  apply_l1_to_l2_alias, undo_l1_to_l2_alias, length-apply_l1_to_l2_alias,
  undo_l1_to_l2_alias-apply_l1_to_l2_alias,
}
use arb_reth.ArbSys.{
  Context, Selectors, output, error, invalid_input_length, encode_address, decode_address,
  map_l1_sender_to_l2_alias, dispatch, run,
}

-- The selector of the alias is four bytes, and none of those before it.
pub record IsAliasSelector (s : Selectors) : Type 0 where
  pub small : s.map_l1_sender_contract_address_to_l2_alias < 256 ^ 4
  pub not_number : s.map_l1_sender_contract_address_to_l2_alias ≢ s.arb_block_number
  pub not_hash : s.map_l1_sender_contract_address_to_l2_alias ≢ s.arb_block_hash
  pub not_chain : s.map_l1_sender_contract_address_to_l2_alias ≢ s.arb_chain_id
  pub not_version : s.map_l1_sender_contract_address_to_l2_alias ≢ s.arb_os_version
  pub not_gas : s.map_l1_sender_contract_address_to_l2_alias ≢ s.get_storage_gas_available
  pub not_top : s.map_l1_sender_contract_address_to_l2_alias ≢ s.is_top_level_call

-- A word of 12 zeros and the 20 bytes of an address decodes to them.
decode_address-encode_address :
    (addr : List ℕ) → length addr ≡ 20 → decode_address (encode_address addr) ≡ some addr
unfolding decode_address encode_address zeros
decode_address-encode_address addr p = rw (p) (ap some (take-length addr 20 p))

-- Behind the word may be other words.
decode_address-append :
    (addr rest : List ℕ)
    → length addr ≡ 20
    → decode_address (encode_address addr ++ rest) ≡ some addr
unfolding decode_address encode_address zeros
decode_address-append addr rest p =
    rw (length-append addr rest, p) (ground (arith, take-length_append addr rest 20 p))

decode_address_short : (args : List ℕ) → length args < 32 → decode_address args ≡ none
unfolding decode_address
decode_address_short args p = ground (arith, p)

-- The call of the alias: its selector, the sender and an address that is not used, one word each.
abbrev pub alias_call : Selectors → List ℕ → List ℕ → List ℕ
alias_call s sender unused =
    to_be_bytes 4 s.map_l1_sender_contract_address_to_l2_alias
    ++ (encode_address sender ++ encode_address unused)

dispatch_alias :
    (s : Selectors) (ctx : Context) (args : List ℕ) (gas_limit : ℕ)
    → IsAliasSelector s
    → dispatch s ctx s.map_l1_sender_contract_address_to_l2_alias args gas_limit
      ≡ map_l1_sender_to_l2_alias args gas_limit
unfolding dispatch
dispatch_alias s ctx args gas_limit a =
    rw
      (
        ==_ne _ _ a.not_number,
        ==_ne _ _ a.not_hash,
        ==_ne _ _ a.not_chain,
        ==_ne _ _ a.not_version,
        ==_ne _ _ a.not_gas,
        ==_ne _ _ a.not_top,
        ==_refl s.map_l1_sender_contract_address_to_l2_alias,
      )
      refl

-- A call with the selector of the alias, whatever its arguments.
run_alias :
    (s : Selectors) (ctx : Context) (args : List ℕ) (gas_limit : ℕ)
    → IsAliasSelector s
    → run s ctx (to_be_bytes 4 s.map_l1_sender_contract_address_to_l2_alias ++ args) gas_limit
      ≡ map_l1_sender_to_l2_alias args gas_limit
unfolding run
run_alias s ctx args gas_limit a =
    rw
      (
        long,
        take-length_append sel args 4 (length-to_be_bytes 4 _),
        drop-length_append sel args 4 (length-to_be_bytes 4 _),
        from_be_bytes-to_be_bytes 4 _ a.small,
      )
      (dispatch_alias s ctx args gas_limit a)
  where
    sel : List ℕ
    sel = to_be_bytes 4 s.map_l1_sender_contract_address_to_l2_alias

    long : ltb (length (sel ++ args)) 4 ≡ false
    long = ground (
      arith,
      length-append sel args,
      length-to_be_bytes 4 s.map_l1_sender_contract_address_to_l2_alias,
    )

-- For selectors of which that of the alias is four bytes and none of those tried before it: the call
-- of the alias with a sender of 20 bytes and the unused address answers, for no gas, a word whose
-- address, when the alias is undone, is the sender; a call of the alias with less than one word of
-- arguments is refused.
pub undo_l1_to_l2_alias-run :
    (s : Selectors) (ctx : Context) (sender unused : List ℕ) (gas_limit : ℕ)
    → IsAliasSelector s
    → IsBytes sender
    → length sender ≡ 20
    → let aliased = apply_l1_to_l2_alias sender in
      (run s ctx (alias_call s sender unused) gas_limit ≡ output 0 (encode_address aliased))
      × (decode_address (encode_address aliased) ≡ some aliased)
      × (undo_l1_to_l2_alias aliased ≡ sender)
      × ((args : List ℕ)
          → length args < 32
          → run s ctx (to_be_bytes 4 s.map_l1_sender_contract_address_to_l2_alias ++ args) gas_limit
            ≡ error invalid_input_length)
unfolding map_l1_sender_to_l2_alias
undo_l1_to_l2_alias-run s ctx sender unused gas_limit a p size = (
  run_alias s ctx (encode_address sender ++ encode_address unused) gas_limit a
      ∙ rw (decode_address-append sender (encode_address unused) size, free) refl,
  decode_address-encode_address (apply_l1_to_l2_alias sender)
      (length-apply_l1_to_l2_alias sender ∙ size),
  (undo_l1_to_l2_alias-apply_l1_to_l2_alias sender p).0,
  λ args short. run_alias s ctx args gas_limit a ∙ rw (decode_address_short args short, free) refl,
)
  where
    free : ltb gas_limit 0 ≡ false
    free = ground arith
