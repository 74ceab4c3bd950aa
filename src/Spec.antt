-- ===== src/Spec.antt =====
-- The Arbitrum hard forks and their precompiles: crates/arb-revm/src/spec.rs and precompiles.rs.
-- revm's forks and its sets of precompiles are parameters; a set is a list of addresses.
pub mod Changes
mod Tests
use arb_reth.Prelude.{ℕ, Bool, true, false, List, [], ◌∷◌, ◌++◌, ◌==◌, if◌then◌else◌}

pub data ArbSpecId : Type 0 where
  arbitrum stylus dia : ArbSpecId

-- The discriminants of the enumeration.
abbrev pub discriminant : ArbSpecId → ℕ
discriminant arbitrum = 100
discriminant stylus = 101
discriminant dia = 102

-- The hard forks of `SpecId` that are used here.
pub data SpecId : Type 0 where
  berlin cancun osaka : SpecId

-- `ArbSpecId::into_eth_spec`, also `From`.
abbrev pub into_eth_spec : ArbSpecId → SpecId
into_eth_spec arbitrum = berlin
into_eth_spec stylus = cancun
into_eth_spec dia = osaka

-- `Precompiles::berlin()` and its siblings, and `P256VERIFY`, by their addresses.
pub record EthSets : Type 0 where
  pub berlin_set : List ℕ
  pub cancun_set : List ℕ
  pub osaka_set : List ℕ
  pub p256_verify : ℕ

pub record ArbPrecompiles : Type 0 where
  pub precompiles : List ℕ
  pub eth_spec : SpecId
  pub spec : ArbSpecId

module _ (e : EthSets) where
  abbrev pub arbitrum_set : List ℕ
  arbitrum_set = e.berlin_set

  abbrev pub stylus_set : List ℕ
  stylus_set = e.cancun_set ++ e.p256_verify ∷ []

  abbrev pub dia_set : List ℕ
  dia_set = e.osaka_set

  abbrev pub set_of : ArbSpecId → List ℕ
  set_of arbitrum = arbitrum_set
  set_of stylus = stylus_set
  set_of dia = dia_set

  unfoldable pub new_with_spec : ArbSpecId → ArbPrecompiles
  new_with_spec spec = record {
    precompiles = set_of spec;
    eth_spec = into_eth_spec spec;
    spec = spec;
  }

  -- `ArbPrecompiles::default`.
  unfoldable pub default_precompiles : ArbPrecompiles
  unfolding new_with_spec
  default_precompiles = new_with_spec dia

  -- Whether the spec changed, and the precompiles after the call.
  unfoldable pub set_spec : ArbPrecompiles → ArbSpecId → Bool × ArbPrecompiles
  unfolding new_with_spec
  set_spec p spec =
      if discriminant spec == discriminant p.spec then (false, p) else (true, new_with_spec spec)

-- `ArbPrecompiles::precompiles`.
abbrev pub precompiles_of : ArbPrecompiles → List ℕ
precompiles_of p = p.precompiles

-- `EthPrecompiles::warm_addresses` gives the addresses of the set.
abbrev pub warm_addresses : ArbPrecompiles → List ℕ
warm_addresses p = p.precompiles

-- `ArbPrecompiles::run`; `eth_run` is `EthPrecompiles::run` of a set and a fork, with the context after
-- the call.
module _ {Context Inputs Output : Type 0}
    (eth_run : List ℕ → SpecId → Context → Inputs → Output × Context) where
  unfoldable pub run_precompile : ArbPrecompiles → Context → Inputs → Output × Context
  run_precompile p context inputs = eth_run p.precompiles p.eth_spec context inputs

-- Whether the address is one of a list.
unfoldable pub contains : List ℕ → ℕ → Bool
contains [] address = false
contains (x ∷ xs) address = let rest = contains xs address in if address == x then true else rest
