-- ===== src/BatchPoster.antt =====
-- The batch posters and what they are due: crates/arb-arbos/src/l1pricing/batch_poster.rs. A call
-- that can refuse returns a `BatchPosterError` as a value; the database's error is the monad's.
pub mod Balance
pub mod DueList
pub mod Register
mod Tests
mod TableTests
use arb_reth.Prelude.{ℕ, Bool, true, false, List, [], ◌∷◌, u64_max, if◌then◌else◌}
use arb_reth.Prelude.Int.{ℤ, pos, is_positive}
use arb_reth.Signed.{add_i256, sub_i256}
use arb_reth.Bytes.{to_be_bytes}
use arb_reth.Host.{Host}
use arb_reth.World.{M, ◌>>=◌, ◌>>◌, pure}
use arb_reth.Storage.Slot.{StorageSlot}
use arb_reth.Storage.Typed.{get_big_int, set_big_int, get_address, set_address}
use arb_reth.Storage.Space.{Storage, open_slot, open_sub_storage}
use arb_reth.AddressSet
use arb_reth.AddressSet.{AddressSet, open_set, is_member, add}

pub data BatchPosterError : Type 0 where
  already_exists not_exist : BatchPosterError

pub record BatchPostersTable : Type 0 where
  pub poster_addrs : AddressSet
  pub poster_info : Storage
  pub total_funds_due : StorageSlot

pub record BatchPosterState : Type 0 where
  pub funds_due : StorageSlot
  pub pay_to : StorageSlot
  pub table_total_funds_due : StorageSlot

pub record FundsDueItem : Type 0 where
  pub due_to : ℕ
  pub balance : ℤ

-- `Result<A, OpenPosterResult>` without the database's error.
pub data OpenPosterResult (A : Type 0) : Type 0 where
  opened : A → OpenPosterResult A
  semantic : BatchPosterError → OpenPosterResult A

module _ ⦃h : Host⦄ where
  unfoldable pub initialize : Storage → M (Unit {0})
  initialize storage = do
    set_big_int (open_slot storage 0) (pos 0)
    AddressSet.initialize (open_sub_storage storage (0 ∷ []))

  abbrev pub open_table : Storage → BatchPostersTable
  open_table storage = record {
    poster_addrs = open_set (open_sub_storage storage (0 ∷ []));
    poster_info = open_sub_storage storage (1 ∷ []);
    total_funds_due = open_slot storage 0;
  }

  -- The storage of a poster is named by the 20 bytes of its address.
  abbrev pub internal_open : BatchPostersTable → ℕ → BatchPosterState
  internal_open t poster =
      let bp_storage = open_sub_storage t.poster_info (to_be_bytes 20 poster) in
      record {
        funds_due = open_slot bp_storage 0;
        pay_to = open_slot bp_storage 1;
        table_total_funds_due = t.total_funds_due;
      }

  -- The part of `add_poster` behind its test of membership.
  unfoldable pub add_poster_if :
      BatchPostersTable → ℕ → ℕ → Bool → M (OpenPosterResult BatchPosterState)
  add_poster_if t poster_address pay_to true = pure (semantic already_exists)
  add_poster_if t poster_address pay_to false = do
    let bp_state = internal_open t poster_address
    set_big_int bp_state.funds_due (pos 0)
    set_address bp_state.pay_to pay_to
    add t.poster_addrs poster_address
    pure (opened bp_state)

  unfoldable pub add_poster : BatchPostersTable → ℕ → ℕ → M (OpenPosterResult BatchPosterState)
  add_poster t poster_address pay_to = do
    is_batch_poster ← is_member t.poster_addrs poster_address
    add_poster_if t poster_address pay_to is_batch_poster

  -- The part of `open_poster` behind its test of membership.
  unfoldable pub open_poster_if :
      BatchPostersTable → ℕ → Bool → Bool → M (OpenPosterResult BatchPosterState)
  open_poster_if t poster create_if_not_exist true = pure (opened (internal_open t poster))
  open_poster_if t poster true false = add_poster t poster poster
  open_poster_if t poster false false = pure (semantic not_exist)

  unfoldable pub open_poster : BatchPostersTable → ℕ → Bool → M (OpenPosterResult BatchPosterState)
  open_poster t poster create_if_not_exist = do
    is_batch_poster ← is_member t.poster_addrs poster
    open_poster_if t poster create_if_not_exist is_batch_poster

  unfoldable pub contains_poster : BatchPostersTable → ℕ → M Bool
  contains_poster t poster = is_member t.poster_addrs poster

  unfoldable pub all_posters : BatchPostersTable → ℕ → M (List ℕ)
  all_posters t max_num_to_get = AddressSet.all_members t.poster_addrs max_num_to_get

  unfoldable pub total_funds_due : BatchPostersTable → M ℤ
  total_funds_due t = get_big_int t.total_funds_due

  unfoldable pub funds_due : BatchPosterState → M ℤ
  funds_due s = get_big_int s.funds_due

  unfoldable pub set_funds_due : BatchPosterState → ℤ → M (Unit {0})
  set_funds_due s val = do
    prev ← get_big_int s.funds_due
    prev_total ← get_big_int s.table_total_funds_due
    set_big_int s.table_total_funds_due (sub_i256 (add_i256 prev_total val) prev)
    set_big_int s.funds_due val

  unfoldable pub pay_to : BatchPosterState → M ℕ
  pay_to s = get_address s.pay_to

  unfoldable pub set_pay_to : BatchPosterState → ℕ → M (Unit {0})
  set_pay_to s addr = set_address s.pay_to addr

  -- What `get_funds_due_list` adds to its list, whose later items are `rest`.
  abbrev pub due_item : ℕ → ℤ → List FundsDueItem → List FundsDueItem
  due_item poster_addr due rest =
      if is_positive due then record { due_to = poster_addr; balance = due } ∷ rest else rest

  abbrev pub due_items :
      ℕ → ℤ → OpenPosterResult (List FundsDueItem) → OpenPosterResult (List FundsDueItem)
  due_items poster_addr due (opened rest) = opened (due_item poster_addr due rest)
  due_items poster_addr due (semantic e) = semantic e

  -- The rounds left of the loop of `get_funds_due_list`; an error of `open_poster` ends it.
  unfoldable pub funds_due_of :
      BatchPostersTable → List ℕ → M (OpenPosterResult (List FundsDueItem))
  funds_due_of t [] = pure (opened [])
  funds_due_of t (poster_addr ∷ posters) = do
    poster ← open_poster t poster_addr false
    elim poster [
      | semantic e ↦ pure (semantic e)
      | opened poster ↦ funds_due poster >>= λ due.
          funds_due_of t posters >>= λ rest. pure (due_items poster_addr due rest)
    ]

  unfoldable pub get_funds_due_list : BatchPostersTable → M (OpenPosterResult (List FundsDueItem))
  get_funds_due_list t = do all_posters ← all_posters t u64_max; funds_due_of t all_posters
