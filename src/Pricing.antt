-- ===== src/Pricing.antt =====
-- The L2 price: crates/arb-arbos/src/l2pricing/l2pricing.rs and multi_gas_fees.rs.
pub mod Fees
pub mod Start
pub mod Uncommitted
mod Tests
mod JournalTests
use arb_reth.Prelude.{
  ℕ, zero, suc, ◌+◌, Option, none, some, u64_max, saturating_sub, saturating_mul, min, List, [],
  ◌∷◌, ◌==◌, ◌||◌, if◌then◌else◌,
}
use arb_reth.Host.{Host}
use arb_reth.MultiGas.{
  computation, history_growth, storage_access, storage_growth, l2_calldata, wasm_computation, index,
}
use arb_reth.World.{M, ◌>>=◌, ◌>>◌, pure, for_range}
use arb_reth.Storage.Slot.{StorageSlot}
use arb_reth.Storage.Typed.{get_uint64, set_uint64, get_big_uint, set_big_uint, u32_max}
use arb_reth.Storage.Space.{Storage, open_slot, open_sub_storage, set_uint64_by_uint64}
use arb_reth.Vector.{SubStorageVector, open_vector, length_of, push, pop, at}
use arb_reth.Constraint.{
  GasConstraint, MultiGasConstraint, open_constraint, clear_constraint, set_target,
  set_adjustment_window, set_backlog, target, adjustment_window, backlog, open_multi_constraint,
  clear_multi_constraint, set_multi_target, set_multi_window, set_multi_backlog,
  set_resource_weights,
}
use arb_reth.Pricing.Fees.{MultiGasFees, open_fees}

-- The offsets of the slots, the keys of the sub-storages, and the initial values.
abbrev pub speed_limit_per_second_offset : ℕ
speed_limit_per_second_offset = 0

abbrev pub per_block_gas_limit_offset : ℕ
per_block_gas_limit_offset = 1

abbrev pub base_fee_wei_offset : ℕ
base_fee_wei_offset = 2

abbrev pub min_base_fee_wei_offset : ℕ
min_base_fee_wei_offset = 3

abbrev pub gas_backlog_offset : ℕ
gas_backlog_offset = 4

abbrev pub pricing_inertia_offset : ℕ
pricing_inertia_offset = 5

abbrev pub backlog_tolerance_offset : ℕ
backlog_tolerance_offset = 6

abbrev pub per_tx_gas_limit_offset : ℕ
per_tx_gas_limit_offset = 7

abbrev pub gas_constraints_key : List ℕ
gas_constraints_key = 0 ∷ []

abbrev pub multi_gas_constraints_key : List ℕ
multi_gas_constraints_key = 1 ∷ []

abbrev pub multi_gas_base_fees_key : List ℕ
multi_gas_base_fees_key = 2 ∷ []

abbrev pub initial_speed_limit_per_second : ℕ
initial_speed_limit_per_second = 1_000_000

abbrev pub initial_per_block_gas_limit : ℕ
initial_per_block_gas_limit = 20_000_000

abbrev pub initial_minimum_base_fee_wei : ℕ
initial_minimum_base_fee_wei = 100_000_000

abbrev pub initial_base_fee_wei : ℕ
initial_base_fee_wei = initial_minimum_base_fee_wei

abbrev pub initial_pricing_inertia : ℕ
initial_pricing_inertia = 102

abbrev pub initial_backlog_tolerance : ℕ
initial_backlog_tolerance = 10

pub record L2PricingState : Type 0 where
  pub storage : Storage
  pub speed_limit_per_second : StorageSlot
  pub per_block_gas_limit : StorageSlot
  pub base_fee_wei : StorageSlot
  pub min_base_fee_wei : StorageSlot
  pub gas_backlog : StorageSlot
  pub pricing_inertia : StorageSlot
  pub backlog_tolerance : StorageSlot
  pub per_tx_gas_limit : StorageSlot
  pub gas_constraints : SubStorageVector
  pub multi_gas_constraints : SubStorageVector
  pub multi_gas_fees : MultiGasFees
  pub arbos_version : ℕ

-- `old_backlog.saturating_sub(backlog_tolerance.saturating_mul(target))`.
abbrev pub legacy_backlog : ℕ → ℕ → ℕ → ℕ
legacy_backlog old_backlog backlog_tolerance target =
    saturating_sub old_backlog (saturating_mul u64_max backlog_tolerance target)

-- The kinds with weight 1 of a constraint that was one of single gas.
abbrev pub single_gas_weights : ℕ → Option ℕ
single_gas_weights i =
    if i == index computation
      || i == index history_growth
      || i == index storage_access
      || i == index storage_growth
      || i == index l2_calldata
      || i == index wasm_computation
    then some 1
    else none

module _ ⦃h : Host⦄ where
  abbrev pub open_pricing : Storage → ℕ → L2PricingState
  open_pricing sto arbos_version = record {
    storage = sto;
    speed_limit_per_second = open_slot sto speed_limit_per_second_offset;
    per_block_gas_limit = open_slot sto per_block_gas_limit_offset;
    base_fee_wei = open_slot sto base_fee_wei_offset;
    min_base_fee_wei = open_slot sto min_base_fee_wei_offset;
    gas_backlog = open_slot sto gas_backlog_offset;
    pricing_inertia = open_slot sto pricing_inertia_offset;
    backlog_tolerance = open_slot sto backlog_tolerance_offset;
    per_tx_gas_limit = open_slot sto per_tx_gas_limit_offset;
    gas_constraints = open_vector (open_sub_storage sto gas_constraints_key);
    multi_gas_constraints = open_vector (open_sub_storage sto multi_gas_constraints_key);
    multi_gas_fees = open_fees (open_sub_storage sto multi_gas_base_fees_key);
    arbos_version = arbos_version;
  }

  unfoldable pub initialize : Storage → M (Unit {0})
  initialize sto = do
    set_uint64_by_uint64 sto speed_limit_per_second_offset initial_speed_limit_per_second
    set_uint64_by_uint64 sto per_block_gas_limit_offset initial_per_block_gas_limit
    set_uint64_by_uint64 sto base_fee_wei_offset initial_base_fee_wei
    set_uint64_by_uint64 sto gas_backlog_offset 0
    set_uint64_by_uint64 sto pricing_inertia_offset initial_pricing_inertia
    set_uint64_by_uint64 sto backlog_tolerance_offset initial_backlog_tolerance
    set_uint64_by_uint64 sto min_base_fee_wei_offset initial_minimum_base_fee_wei

  unfoldable pub base_fee_wei : L2PricingState → M ℕ
  base_fee_wei s = get_big_uint s.base_fee_wei

  unfoldable pub set_base_fee_wei : L2PricingState → ℕ → M (Unit {0})
  set_base_fee_wei s val = set_big_uint s.base_fee_wei val

  unfoldable pub min_base_fee_wei : L2PricingState → M ℕ
  min_base_fee_wei s = get_big_uint s.min_base_fee_wei

  unfoldable pub set_min_base_fee_wei : L2PricingState → ℕ → M (Unit {0})
  set_min_base_fee_wei s val = set_big_uint s.min_base_fee_wei val

  unfoldable pub speed_limit_per_second : L2PricingState → M ℕ
  speed_limit_per_second s = get_uint64 s.speed_limit_per_second

  unfoldable pub set_speed_limit_per_second : L2PricingState → ℕ → M (Unit {0})
  set_speed_limit_per_second s limit = set_uint64 s.speed_limit_per_second limit

  unfoldable pub per_block_gas_limit : L2PricingState → M ℕ
  per_block_gas_limit s = get_uint64 s.per_block_gas_limit

  unfoldable pub set_max_per_block_gas_limit : L2PricingState → ℕ → M (Unit {0})
  set_max_per_block_gas_limit s limit = set_uint64 s.per_block_gas_limit limit

  unfoldable pub per_tx_gas_limit : L2PricingState → M ℕ
  per_tx_gas_limit s = get_uint64 s.per_tx_gas_limit

  unfoldable pub set_max_per_tx_gas_limit : L2PricingState → ℕ → M (Unit {0})
  set_max_per_tx_gas_limit s limit = set_uint64 s.per_tx_gas_limit limit

  unfoldable pub gas_backlog : L2PricingState → M ℕ
  gas_backlog s = get_uint64 s.gas_backlog

  unfoldable pub set_gas_backlog : L2PricingState → ℕ → M (Unit {0})
  set_gas_backlog s backlog = set_uint64 s.gas_backlog backlog

  unfoldable pub pricing_inertia : L2PricingState → M ℕ
  pricing_inertia s = get_uint64 s.pricing_inertia

  unfoldable pub set_pricing_inertia : L2PricingState → ℕ → M (Unit {0})
  set_pricing_inertia s val = set_uint64 s.pricing_inertia val

  unfoldable pub backlog_tolerance : L2PricingState → M ℕ
  backlog_tolerance s = get_uint64 s.backlog_tolerance

  unfoldable pub set_backlog_tolerance : L2PricingState → ℕ → M (Unit {0})
  set_backlog_tolerance s val = set_uint64 s.backlog_tolerance val

  unfoldable pub gas_constraints_length : L2PricingState → M ℕ
  gas_constraints_length s = length_of s.gas_constraints

  unfoldable pub open_gas_constraint_at : L2PricingState → ℕ → GasConstraint
  open_gas_constraint_at s i = open_constraint (at s.gas_constraints i)

  unfoldable pub add_gas_constraint : L2PricingState → ℕ → ℕ → ℕ → M (Unit {0})
  add_gas_constraint s target adjustment_window backlog = do
    sub_storage ← push s.gas_constraints
    set_target (open_constraint sub_storage) target
    set_adjustment_window (open_constraint sub_storage) adjustment_window
    set_backlog (open_constraint sub_storage) backlog

  -- One round of `clear_gas_constraints`.
  unfoldable pub clear_last_constraint : L2PricingState → M (Unit {0})
  clear_last_constraint s = do
    sub_storage ← pop s.gas_constraints
    clear_constraint (open_constraint sub_storage)

  unfoldable pub clear_gas_constraints : L2PricingState → M (Unit {0})
  clear_gas_constraints s = do
    length ← gas_constraints_length s
    for_range (λ _. clear_last_constraint s) length 0

  unfoldable pub multi_gas_constraints_length : L2PricingState → M ℕ
  multi_gas_constraints_length s = length_of s.multi_gas_constraints

  unfoldable pub open_multi_gas_constraint_at : L2PricingState → ℕ → MultiGasConstraint
  open_multi_gas_constraint_at s i = open_multi_constraint (at s.multi_gas_constraints i)

  unfoldable pub add_multi_gas_constraint :
      L2PricingState → ℕ → ℕ → ℕ → (ℕ → Option ℕ) → M (Unit {0})
  add_multi_gas_constraint s target adjustment_window backlog weights = do
    sub_storage ← push s.multi_gas_constraints
    set_multi_target (open_multi_constraint sub_storage) target
    set_multi_window (open_multi_constraint sub_storage) adjustment_window
    set_multi_backlog (open_multi_constraint sub_storage) backlog
    set_resource_weights (open_multi_constraint sub_storage) weights

  -- One round of `clear_multi_gas_constraints`.
  unfoldable pub clear_last_multi_constraint : L2PricingState → M (Unit {0})
  clear_last_multi_constraint s = do
    sub_storage ← pop s.multi_gas_constraints
    clear_multi_constraint (open_multi_constraint sub_storage)

  unfoldable pub clear_multi_gas_constraints : L2PricingState → M (Unit {0})
  clear_multi_gas_constraints s = do
    length ← multi_gas_constraints_length s
    for_range (λ _. clear_last_multi_constraint s) length 0

  unfoldable pub set_gas_constraints_from_legacy : L2PricingState → M (Unit {0})
  set_gas_constraints_from_legacy s = do
    clear_gas_constraints s
    target ← get_uint64 s.speed_limit_per_second
    adjustment_window ← get_uint64 s.pricing_inertia
    old_backlog ← get_uint64 s.gas_backlog
    backlog_tolerance ← get_uint64 s.backlog_tolerance
    add_gas_constraint s target adjustment_window
        (legacy_backlog old_backlog backlog_tolerance target)

  -- One round of `set_multi_gas_constraints_from_single_gas_constraints`.
  unfoldable pub add_from_single : L2PricingState → ℕ → M (Unit {0})
  add_from_single s i = do
    target ← target (open_gas_constraint_at s i)
    window ← adjustment_window (open_gas_constraint_at s i)
    backlog ← backlog (open_gas_constraint_at s i)
    add_multi_gas_constraint s target (min window u32_max) backlog single_gas_weights

  unfoldable pub set_multi_gas_constraints_from_single_gas_constraints :
      L2PricingState → M (Unit {0})
  set_multi_gas_constraints_from_single_gas_constraints s = do
    clear_multi_gas_constraints s
    length ← gas_constraints_length s
    for_range (add_from_single s) length 0
