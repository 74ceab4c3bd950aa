-- ===== src/Evm.antt =====
-- The EVM of Arbitrum: `ArbEvm` of crates/arb-revm/src/evm.rs, a wrapper around revm's `Evm`.
-- What the wrapper calls of revm is a record of functions, generic in the types of the `Evm`; the
-- calls that take `&mut self` return the `Evm` after the call.
use arb_reth.Prelude.{ℕ}
use arb_reth.Spec.{ArbSpecId, SpecId, into_eth_spec, EthSets, ArbPrecompiles, new_with_spec}

-- revm's `Evm`, by the fields that `ArbEvm::new` fills.
pub record Evm (FrameStack CTX INSP I P : Type 0) : Type 0 where
  pub ctx : CTX
  pub inspector : INSP
  pub instruction : I
  pub precompiles : P
  pub frame_stack : FrameStack

-- What the code takes from revm.
pub record Revm : Type 1 where
  pub FrameStack : Type 0
  pub Instructions : Type 0
  pub FrameInit : Type 0
  pub FrameResult : Type 0
  pub InitOutcome : Type 0
  pub RunOutcome : Type 0
  pub ReturnOutcome : Type 0
  pub new_prealloc : ℕ → FrameStack
  pub new_mainnet_with_spec : SpecId → Instructions
  pub with_inspector :
      {CTX INSP OINSP I P : Type 0}
      → Evm FrameStack CTX INSP I P
      → OINSP
      → Evm FrameStack CTX OINSP I P
  pub with_precompiles :
      {CTX INSP I P OP : Type 0} → Evm FrameStack CTX INSP I P → OP → Evm FrameStack CTX INSP I OP
  pub into_inspector : {CTX INSP I P : Type 0} → Evm FrameStack CTX INSP I P → INSP
  pub all : {CTX INSP I P : Type 0} → Evm FrameStack CTX INSP I P → CTX × (I × (P × FrameStack))
  pub all_inspector :
      {CTX INSP I P : Type 0} → Evm FrameStack CTX INSP I P → CTX × (I × (P × (FrameStack × INSP)))
  pub frame_init :
      {CTX INSP I P : Type 0}
      → Evm FrameStack CTX INSP I P
      → FrameInit
      → InitOutcome × Evm FrameStack CTX INSP I P
  pub frame_run :
      {CTX INSP I P : Type 0}
      → Evm FrameStack CTX INSP I P
      → RunOutcome × Evm FrameStack CTX INSP I P
  pub frame_return_result :
      {CTX INSP I P : Type 0}
      → Evm FrameStack CTX INSP I P
      → FrameResult
      → ReturnOutcome × Evm FrameStack CTX INSP I P

module _ (r : Revm) where
  pub record ArbEvm (CTX INSP I P : Type 0) : Type 0 where
    pub inner : Evm r.FrameStack CTX INSP I P

  -- A call that may change the inner `Evm`.
  abbrev pub changed :
      {Out CTX INSP I P : Type 0} → Out × Evm r.FrameStack CTX INSP I P → Out × ArbEvm CTX INSP I P
  changed result = (result.0, record { inner = result.1 })

  -- `ArbEvm::new`; `spec_of` is the fork in the configuration of a context.
  unfoldable pub new_evm :
      {CTX INSP : Type 0}
      → EthSets
      → (CTX → ArbSpecId)
      → CTX
      → INSP
      → ArbEvm CTX INSP r.Instructions ArbPrecompiles
  new_evm sets spec_of ctx inspector =
      let spec = spec_of ctx in
      record {
        inner = record {
          ctx = ctx;
          inspector = inspector;
          instruction = r.new_mainnet_with_spec (into_eth_spec spec);
          precompiles = new_with_spec sets spec;
          frame_stack = r.new_prealloc 8;
        };
      }

  unfoldable pub into_context : {CTX INSP I P : Type 0} → ArbEvm CTX INSP I P → CTX
  into_context e = e.inner.ctx

  unfoldable pub with_inspector :
      {CTX INSP OINSP I P : Type 0} → ArbEvm CTX INSP I P → OINSP → ArbEvm CTX OINSP I P
  with_inspector e inspector = record { inner = r.with_inspector e.inner inspector }

  unfoldable pub with_precompiles :
      {CTX INSP I P OP : Type 0} → ArbEvm CTX INSP I P → OP → ArbEvm CTX INSP I OP
  with_precompiles e precompiles = record { inner = r.with_precompiles e.inner precompiles }

  unfoldable pub into_inspector : {CTX INSP I P : Type 0} → ArbEvm CTX INSP I P → INSP
  into_inspector e = r.into_inspector e.inner

  -- `all`, and `all_mut`.
  unfoldable pub all :
      {CTX INSP I P : Type 0} → ArbEvm CTX INSP I P → CTX × (I × (P × r.FrameStack))
  all e = r.all e.inner

  -- `all_inspector`, and `all_mut_inspector`.
  unfoldable pub all_inspector :
      {CTX INSP I P : Type 0} → ArbEvm CTX INSP I P → CTX × (I × (P × (r.FrameStack × INSP)))
  all_inspector e = r.all_inspector e.inner

  unfoldable pub frame_init :
      {CTX INSP I P : Type 0}
      → ArbEvm CTX INSP I P
      → r.FrameInit
      → r.InitOutcome × ArbEvm CTX INSP I P
  frame_init e frame_input = changed (r.frame_init e.inner frame_input)

  unfoldable pub frame_run :
      {CTX INSP I P : Type 0} → ArbEvm CTX INSP I P → r.RunOutcome × ArbEvm CTX INSP I P
  frame_run e = changed (r.frame_run e.inner)

  unfoldable pub frame_return_result :
      {CTX INSP I P : Type 0}
      → ArbEvm CTX INSP I P
      → r.FrameResult
      → r.ReturnOutcome × ArbEvm CTX INSP I P
  frame_return_result e result = changed (r.frame_return_result e.inner result)
