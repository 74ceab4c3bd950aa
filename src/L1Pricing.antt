-- ===== src/L1Pricing.antt =====
-- The L1 price: crates/arb-arbos/src/l1pricing/l1pricing.rs.
pub mod Arith
pub mod Steps
pub mod Old
pub mod Update
pub mod PosterCost
pub mod Transfer
pub mod Uncommitted
pub mod Covered
pub mod Payments
pub mod Reprice
pub mod Before
pub mod Opened
pub mod Refused
mod Tests
mod JournalTests
use arb_reth.Prelude.{
  ℕ, ◌-◌, Bool, true, false, List, [], ◌∷◌, ltb, leb, saturating_add, u64_max, u256_max,
  if◌then◌else◌,
}
use arb_reth.Prelude.Int.{ℤ, pos}
use arb_reth.Signed.{add_i256, sub_i256, to_i256}
use arb_reth.Host.{Host}
use arb_reth.World.{
  M, ◌>>=◌, ◌>>◌, pure, tick, crash, transfer, inconsistent_balance, unexpected_poster,
  wrong_version,
}
use arb_reth.Storage.Slot.{StorageSlot}
use arb_reth.Storage.Typed.{
  get_uint64, set_uint64, get_int64, set_int64, get_big_uint, set_big_uint, get_big_int,
  set_big_int, set_pre_version7, get_address, set_address,
}
use arb_reth.Storage.Space.{Storage, open_slot, open_sub_storage, set_uint64_by_uint64}
use arb_reth.BatchPoster
use arb_reth.BatchPoster.{
  BatchPostersTable, BatchPosterState, OpenPosterResult, opened, semantic, open_table, add_poster,
  total_funds_due,
}
use Arith.{surplus_of}

-- `BATCH_POSTER_ADDRESS` and `L1_PRICER_FUNDS_POOL_ADDRESS`.
abbrev pub batch_poster_address : ℕ
batch_poster_address = 0xa4b0_0000_0000_0000_0000_0073_6571_7565_6e63_6572

abbrev pub l1_pricer_funds_pool_address : ℕ
l1_pricer_funds_pool_address = 0x6c

abbrev pub initial_equilibration_units : ℕ
initial_equilibration_units = 96_000_000

-- The key of the sub-storage of the batch posters, and the offsets of the slots.
abbrev pub batch_poster_table_key : List ℕ
batch_poster_table_key = 0 ∷ []

abbrev pub pay_rewards_to_offset : ℕ
pay_rewards_to_offset = 0

abbrev pub equilibration_units_offset : ℕ
equilibration_units_offset = 1

abbrev pub inertia_offset : ℕ
inertia_offset = 2

abbrev pub per_unit_reward_offset : ℕ
per_unit_reward_offset = 3

abbrev pub last_update_time_offset : ℕ
last_update_time_offset = 4

abbrev pub funds_due_for_rewards_offset : ℕ
funds_due_for_rewards_offset = 5

abbrev pub units_since_offset : ℕ
units_since_offset = 6

abbrev pub price_per_unit_offset : ℕ
price_per_unit_offset = 7

abbrev pub last_surplus_offset : ℕ
last_surplus_offset = 8

abbrev pub per_batch_gas_cost_offset : ℕ
per_batch_gas_cost_offset = 9

abbrev pub amortized_cost_cap_bips_offset : ℕ
amortized_cost_cap_bips_offset = 10

abbrev pub l1_fees_available_offset : ℕ
l1_fees_available_offset = 11

abbrev pub gas_floor_per_token_offset : ℕ
gas_floor_per_token_offset = 12

abbrev pub initial_inertia : ℕ
initial_inertia = 10

abbrev pub initial_per_unit_reward : ℕ
initial_per_unit_reward = 10

pub record L1PricingState : Type 0 where
  pub batch_poster_table : BatchPostersTable
  pub pay_rewards_to : StorageSlot
  pub equilibration_units : StorageSlot
  pub inertia : StorageSlot
  pub per_unit_reward : StorageSlot
  pub last_update_time : StorageSlot
  pub funds_due_for_rewards : StorageSlot
  pub units_since_update : StorageSlot
  pub price_per_unit : StorageSlot
  pub last_surplus : StorageSlot
  pub per_batch_gas_cost : StorageSlot
  pub amortized_cost_cap_bips : StorageSlot
  pub l1_fees_available : StorageSlot
  pub gas_floor_per_token : StorageSlot
  pub arbos_version : ℕ

module _ ⦃h : Host⦄ where
  -- A poster that must have been opened: a `BatchPosterError` panics.
  abbrev pub expect_poster : OpenPosterResult BatchPosterState → M BatchPosterState
  expect_poster (opened poster) = pure poster
  expect_poster (semantic e) = crash unexpected_poster

  unfoldable pub initialize_l1_pricing_state : Storage → ℕ → ℕ → M (Unit {0})
  initialize_l1_pricing_state sto initial_rewards_recipient initial_l1_base_fee = do
    BatchPoster.initialize (open_sub_storage sto batch_poster_table_key)
    added ←
        add_poster (open_table (open_sub_storage sto batch_poster_table_key)) batch_poster_address
          batch_poster_address
    _ ← expect_poster added
    set_address (open_slot sto pay_rewards_to_offset) initial_rewards_recipient
    set_big_uint (open_slot sto equilibration_units_offset) initial_equilibration_units
    set_uint64_by_uint64 sto inertia_offset initial_inertia
    set_big_int (open_slot sto funds_due_for_rewards_offset) (pos 0)
    set_uint64_by_uint64 sto per_unit_reward_offset initial_per_unit_reward
    set_big_uint (open_slot sto price_per_unit_offset) initial_l1_base_fee

  abbrev pub open_l1_pricing_state : Storage → ℕ → L1PricingState
  open_l1_pricing_state sto arbos_version = record {
    batch_poster_table = open_table (open_sub_storage sto batch_poster_table_key);
    pay_rewards_to = open_slot sto pay_rewards_to_offset;
    equilibration_units = open_slot sto equilibration_units_offset;
    inertia = open_slot sto inertia_offset;
    per_unit_reward = open_slot sto per_unit_reward_offset;
    last_update_time = open_slot sto last_update_time_offset;
    funds_due_for_rewards = open_slot sto funds_due_for_rewards_offset;
    units_since_update = open_slot sto units_since_offset;
    price_per_unit = open_slot sto price_per_unit_offset;
    last_surplus = open_slot sto last_surplus_offset;
    per_batch_gas_cost = open_slot sto per_batch_gas_cost_offset;
    amortized_cost_cap_bips = open_slot sto amortized_cost_cap_bips_offset;
    l1_fees_available = open_slot sto l1_fees_available_offset;
    gas_floor_per_token = open_slot sto gas_floor_per_token_offset;
    arbos_version = arbos_version;
  }

  -- `batch_poster_table`.
  abbrev pub batch_poster_table_of : L1PricingState → BatchPostersTable
  batch_poster_table_of s = s.batch_poster_table

  unfoldable pub pay_rewards_to : L1PricingState → M ℕ
  pay_rewards_to s = get_address s.pay_rewards_to

  unfoldable pub set_pay_rewards_to : L1PricingState → ℕ → M (Unit {0})
  set_pay_rewards_to s addr = set_address s.pay_rewards_to addr

  unfoldable pub equilibration_units : L1PricingState → M ℕ
  equilibration_units s = get_big_uint s.equilibration_units

  unfoldable pub set_equilibration_units : L1PricingState → ℕ → M (Unit {0})
  set_equilibration_units s equil_units = set_big_uint s.equilibration_units equil_units

  unfoldable pub inertia : L1PricingState → M ℕ
  inertia s = get_uint64 s.inertia

  unfoldable pub set_inertia : L1PricingState → ℕ → M (Unit {0})
  set_inertia s inertia = set_uint64 s.inertia inertia

  unfoldable pub per_unit_reward : L1PricingState → M ℕ
  per_unit_reward s = get_uint64 s.per_unit_reward

  unfoldable pub set_per_unit_reward : L1PricingState → ℕ → M (Unit {0})
  set_per_unit_reward s wei_per_unit = set_uint64 s.per_unit_reward wei_per_unit

  unfoldable pub last_update_time : L1PricingState → M ℕ
  last_update_time s = get_uint64 s.last_update_time

  unfoldable pub set_last_update_time : L1PricingState → ℕ → M (Unit {0})
  set_last_update_time s t = set_uint64 s.last_update_time t

  unfoldable pub funds_due_for_rewards : L1PricingState → M ℤ
  funds_due_for_rewards s = get_big_int s.funds_due_for_rewards

  unfoldable pub set_funds_due_for_rewards : L1PricingState → ℤ → M (Unit {0})
  set_funds_due_for_rewards s amt = set_big_int s.funds_due_for_rewards amt

  unfoldable pub units_since_update : L1PricingState → M ℕ
  units_since_update s = get_uint64 s.units_since_update

  unfoldable pub set_units_since_update : L1PricingState → ℕ → M (Unit {0})
  set_units_since_update s units = set_uint64 s.units_since_update units

  unfoldable pub get_l1_pricing_surplus : L1PricingState → M ℤ
  get_l1_pricing_surplus s = do
    funds_due_for_refunds ← total_funds_due s.batch_poster_table
    funds_due_for_rewards ← get_big_int s.funds_due_for_rewards
    have_funds ← get_big_uint s.l1_fees_available
    pure (surplus_of have_funds funds_due_for_refunds funds_due_for_rewards)

  unfoldable pub last_surplus : L1PricingState → M ℤ
  last_surplus s = get_big_int s.last_surplus

  unfoldable pub set_last_surplus : L1PricingState → ℤ → ℕ → M (Unit {0})
  set_last_surplus s val arbos_version =
      if ltb arbos_version 7
      then set_pre_version7 s.last_surplus val
      else set_big_int s.last_surplus val

  unfoldable pub add_to_units_since_update : L1PricingState → ℕ → M (Unit {0})
  add_to_units_since_update s units = do
    old_units ← get_uint64 s.units_since_update
    set_uint64 s.units_since_update (saturating_add u64_max old_units units)

  unfoldable pub price_per_unit : L1PricingState → M ℕ
  price_per_unit s = get_big_uint s.price_per_unit

  unfoldable pub set_price_per_unit : L1PricingState → ℕ → M (Unit {0})
  set_price_per_unit s price = set_big_uint s.price_per_unit price

  unfoldable pub set_parent_gas_floor_per_token : L1PricingState → ℕ → M (Unit {0})
  set_parent_gas_floor_per_token s floor =
      if leb 50 s.arbos_version then set_uint64 s.gas_floor_per_token floor else crash wrong_version

  unfoldable pub parent_gas_floor_per_token : L1PricingState → M ℕ
  parent_gas_floor_per_token s =
      if ltb s.arbos_version 50 then pure 0 else get_uint64 s.gas_floor_per_token

  unfoldable pub per_batch_gas_cost : L1PricingState → M ℤ
  per_batch_gas_cost s = get_int64 s.per_batch_gas_cost

  unfoldable pub set_per_batch_gas_cost : L1PricingState → ℤ → M (Unit {0})
  set_per_batch_gas_cost s cost = set_int64 s.per_batch_gas_cost cost

  unfoldable pub amortized_cost_cap_bips : L1PricingState → M ℕ
  amortized_cost_cap_bips s = get_uint64 s.amortized_cost_cap_bips

  unfoldable pub set_amortized_cost_cap_bips : L1PricingState → ℕ → M (Unit {0})
  set_amortized_cost_cap_bips s cap = set_uint64 s.amortized_cost_cap_bips cap

  unfoldable pub l1_fees_available : L1PricingState → M ℕ
  l1_fees_available s = get_big_uint s.l1_fees_available

  unfoldable pub set_l1_fees_available : L1PricingState → ℕ → M (Unit {0})
  set_l1_fees_available s val = set_big_uint s.l1_fees_available val

  unfoldable pub add_to_l1_fees_available : L1PricingState → ℕ → M ℕ
  add_to_l1_fees_available s delta = do
    old ← get_big_uint s.l1_fees_available
    set_big_uint s.l1_fees_available (saturating_add u256_max old delta)
    pure (saturating_add u256_max old delta)

  -- The part of `transfer_from_l1_fees_available` behind its assertion.
  unfoldable pub transfer_checked : L1PricingState → ℕ → ℕ → Bool → M ℕ
  transfer_checked s old amount false = crash inconsistent_balance
  transfer_checked s old amount true = do
    set_big_uint s.l1_fees_available (old - amount)
    pure (old - amount)

  unfoldable pub transfer_from_l1_fees_available : L1PricingState → ℕ → ℕ → M ℕ
  transfer_from_l1_fees_available s recipient amount = do
    transfer l1_pricer_funds_pool_address recipient amount
    old ← get_big_uint s.l1_fees_available
    transfer_checked s old amount (leb amount old)
