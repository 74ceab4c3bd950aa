-- ===== src/Constraint.antt =====
-- The gas constraints of the L2 price: crates/arb-arbos/src/l2pricing/gas_constraint.rs and
-- multi_gas_constraint.rs. An array of slots is a function on its indices; a map of weights is a
-- function into an optional weight.
pub mod Weights
mod Tests
use arb_reth.Prelude.{ℕ, zero, suc, ◌+◌, Option, none, some, ltb, if◌then◌else◌}
use arb_reth.Host.{Host}
use arb_reth.MultiGas.{count}
use arb_reth.World.{M, ◌>>=◌, ◌>>◌, pure, for_range}
use arb_reth.Storage.Slot.{StorageSlot}
use arb_reth.Storage.Typed.{
  get_uint64, set_uint64, clear_uint64, get_uint32, set_uint32, clear_uint32,
}
use arb_reth.Storage.Space.{Storage, open_slot}

pub record GasConstraint : Type 0 where
  pub target : StorageSlot
  pub adjustment_window : StorageSlot
  pub backlog : StorageSlot

pub record MultiGasConstraint : Type 0 where
  pub target : StorageSlot
  pub adjustment_window : StorageSlot
  pub backlog : StorageSlot
  pub max_weight : StorageSlot
  pub weighted_resources : ℕ → StorageSlot

-- `weights.get(&i).copied().unwrap_or(0)`.
abbrev pub weight_of : (ℕ → Option ℕ) → ℕ → ℕ
weight_of weights i = elim (weights i) [ none ↦ 0 | some weight ↦ weight ]

module _ ⦃h : Host⦄ where
  abbrev pub open_constraint : Storage → GasConstraint
  open_constraint sto = record {
    target = open_slot sto 0;
    adjustment_window = open_slot sto 1;
    backlog = open_slot sto 2;
  }

  unfoldable pub clear_constraint : GasConstraint → M (Unit {0})
  clear_constraint c = do
    clear_uint64 c.target
    clear_uint64 c.adjustment_window
    clear_uint64 c.backlog

  unfoldable pub target : GasConstraint → M ℕ
  target c = get_uint64 c.target

  unfoldable pub set_target : GasConstraint → ℕ → M (Unit {0})
  set_target c val = set_uint64 c.target val

  unfoldable pub adjustment_window : GasConstraint → M ℕ
  adjustment_window c = get_uint64 c.adjustment_window

  unfoldable pub set_adjustment_window : GasConstraint → ℕ → M (Unit {0})
  set_adjustment_window c val = set_uint64 c.adjustment_window val

  unfoldable pub backlog : GasConstraint → M ℕ
  backlog c = get_uint64 c.backlog

  unfoldable pub set_backlog : GasConstraint → ℕ → M (Unit {0})
  set_backlog c val = set_uint64 c.backlog val

  abbrev pub open_multi_constraint : Storage → MultiGasConstraint
  open_multi_constraint sto = record {
    target = open_slot sto 0;
    adjustment_window = open_slot sto 1;
    backlog = open_slot sto 2;
    max_weight = open_slot sto 3;
    weighted_resources = λ i. open_slot sto (4 + i);
  }

  unfoldable pub clear_multi_constraint : MultiGasConstraint → M (Unit {0})
  clear_multi_constraint c = do
    clear_uint64 c.target
    clear_uint32 c.adjustment_window
    clear_uint64 c.backlog
    clear_uint64 c.max_weight
    for_range (λ i. clear_uint64 (c.weighted_resources i)) count 0

  -- The rounds left of the loop of `set_resource_weights`, from the index `i` on; the largest
  -- weight so far is returned at the end.
  unfoldable pub set_weights_from : MultiGasConstraint → (ℕ → Option ℕ) → ℕ → ℕ → ℕ → M ℕ
  set_weights_from c weights zero i max_weight = pure max_weight
  set_weights_from c weights (suc left) i max_weight = do
    let weight = weight_of weights i
    set_uint64 (c.weighted_resources i) weight
    set_weights_from c weights left (i + 1) (if ltb max_weight weight then weight else max_weight)

  unfoldable pub set_resource_weights : MultiGasConstraint → (ℕ → Option ℕ) → M (Unit {0})
  set_resource_weights c weights = do
    max_weight ← set_weights_from c weights count 0 0
    set_uint64 c.max_weight max_weight

  unfoldable pub multi_target : MultiGasConstraint → M ℕ
  multi_target c = get_uint64 c.target

  unfoldable pub set_multi_target : MultiGasConstraint → ℕ → M (Unit {0})
  set_multi_target c val = set_uint64 c.target val

  unfoldable pub multi_window : MultiGasConstraint → M ℕ
  multi_window c = get_uint32 c.adjustment_window

  unfoldable pub set_multi_window : MultiGasConstraint → ℕ → M (Unit {0})
  set_multi_window c val = set_uint32 c.adjustment_window val

  unfoldable pub multi_backlog : MultiGasConstraint → M ℕ
  multi_backlog c = get_uint64 c.backlog

  unfoldable pub set_multi_backlog : MultiGasConstraint → ℕ → M (Unit {0})
  set_multi_backlog c val = set_uint64 c.backlog val
