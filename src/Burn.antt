-- ===== src/Burn.antt =====
-- Gas accounting and tracing: crates/arb-arbos/src/burn.rs and the types of
-- crates/arb-arbos/src/util/util.rs. `SystemBurner` keeps its gas in a `Cell`, so a method returns
-- the burner after the call. `gas_left`, `burn_out` and `handle_error` panic, which is `none` here.
use arb_reth.Prelude.{ℕ, Bool, true, false, Option, none, List}
use arb_reth.MultiGas.{
  MultiGas, ResourceKind, zero_gas, saturating_increment, add_saturating, single_gas,
}

pub data TracingScenario : Type 0 where
  before_evm during_evm after_evm : TracingScenario

-- `tracer` says whether there is one; its two callbacks are recorded as events of the world.
pub record TracingInfo : Type 0 where
  pub tracer : Bool
  pub scenario : TracingScenario
  pub depth : ℕ

pub record SystemBurner : Type 0 where
  pub gas_burnt : MultiGas
  pub tracing_info : Option TracingInfo
  pub read_only : Bool

pub new_burner : Option TracingInfo → Bool → SystemBurner
new_burner info read_only = record {
  gas_burnt = zero_gas;
  tracing_info = info;
  read_only = read_only;
}

-- The sources return `Ok(())` in every case.
unfoldable pub burn : ResourceKind → ℕ → SystemBurner → SystemBurner
burn kind amount b = record b { gas_burnt = saturating_increment b.gas_burnt kind amount }

unfoldable pub burn_multi_gas : MultiGas → SystemBurner → SystemBurner
burn_multi_gas amount b = record b { gas_burnt = add_saturating b.gas_burnt amount }

pub burned : SystemBurner → ℕ
burned b = single_gas b.gas_burnt

pub gas_left : SystemBurner → Option ℕ
gas_left b = none

unfoldable pub burn_out : SystemBurner → Option SystemBurner
burn_out b = none

-- `restrict` prints the error, if there is one.
unfoldable pub restrict : Option (List ℕ) → SystemBurner → SystemBurner
restrict error b = b

unfoldable pub handle_error : SystemBurner → List ℕ → Option (List ℕ)
handle_error b error = none

abbrev pub is_read_only : SystemBurner → Bool
is_read_only b = b.read_only

abbrev pub tracing_info_of : SystemBurner → Option TracingInfo
tracing_info_of b = b.tracing_info

-- Whether the scenario is `BeforeEVM`.
abbrev pub is_before_evm : TracingScenario → Bool
is_before_evm before_evm = true
is_before_evm during_evm = false
is_before_evm after_evm = false
