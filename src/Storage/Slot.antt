-- ===== src/Storage/Slot.antt =====
-- `StorageSlot`: one storage slot of an account, read and written with gas and tracing.
pub mod Journaled
use arb_reth.Prelude.{
  ℕ, ◌≡◌, refl, true, false, ◌&&◌, none, some, List, ◌∷◌, ◌==◌, if◌then◌else◌, arith,
}
use arb_reth.Host.{Host, IsStore}
use arb_reth.MultiGas.{storage_access}
use arb_reth.Burn
use arb_reth.Burn.{SystemBurner, TracingInfo, is_before_evm}
use arb_reth.World.{
  World, ok, panic, read_only_burner, Event, storage_get, storage_set, M, ◌>>◌, charge, read, write,
  emit, deny_read_only,
}

pub record StorageSlot : Type 0 where
  pub account : ℕ
  pub slot : ℕ

-- `StorageSlot::new`.
abbrev pub new_slot : ℕ → ℕ → StorageSlot
new_slot account slot = record { account = account; slot = slot }

abbrev pub storage_read_cost : ℕ
storage_read_cost = 800

abbrev pub storage_write_cost : ℕ
storage_write_cost = 20_000

abbrev pub storage_write_zero_cost : ℕ
storage_write_zero_cost = 2_900

abbrev pub write_cost : ℕ → ℕ
write_cost value = if value == 0 then storage_write_zero_cost else storage_write_cost

module _ ⦃h : Host⦄ where
  unfoldable pub get : StorageSlot → M ℕ
  get s = do
    charge storage_access storage_read_cost
    emit (λ info. storage_get s.slot info.depth (is_before_evm info.scenario))
    read s.account s.slot

  unfoldable pub set : StorageSlot → ℕ → M (Unit {0})
  set s value = do
    deny_read_only
    charge storage_access (write_cost value)
    emit (λ info. storage_set s.slot value info.depth (is_before_evm info.scenario))
    write s.account s.slot value

  -- The events after one more callback.
  abbrev pub emitted : (TracingInfo → Event) → World h → List Event
  emitted event w = elim w.burner.tracing_info [
    | none ↦ w.events
    | some info ↦ if info.tracer then event info ∷ w.events else w.events
  ]

  -- The world after a read: gas and an event, and the same store.
  unfoldable pub after_get : StorageSlot → World h → World h
  after_get s w = record {
    db = w.db;
    burner = Burn.burn storage_access storage_read_cost w.burner;
    events = emitted (λ info. storage_get s.slot info.depth (is_before_evm info.scenario)) w;
  }

  -- The world may be written: its burner is not read-only.
  abbrev pub IsWritable : World h → Type 0
  IsWritable w = w.burner.read_only ≡ false

  module _ (l : IsStore h) where
    -- The value of a slot.
    unfoldable pub value : World h → ℕ → ℕ → ℕ
    value w account slot = l.slot w.db account slot

    unfoldable pub after_set : StorageSlot → ℕ → World h → World h
    after_set s v w = record {
      db = l.write w.db s.account s.slot v;
      burner = Burn.burn storage_access (write_cost v) w.burner;
      events = emitted (λ info. storage_set s.slot v info.depth (is_before_evm info.scenario)) w;
    }

    -- A write past the burner, with no gas and no event.
    pub after_write : ℕ → ℕ → ℕ → World h → World h
    after_write account slot v w = record w { db = l.write w.db account slot v }

    pub read_lem :
        (account slot : ℕ) (w : World h) → read account slot w ≡ ok (value w account slot) w
    unfolding value
    read_lem account slot w = rw (l.storage_done w.db account slot, read)

    pub write_lem :
        (account slot v : ℕ) (w : World h)
        → write account slot v w ≡ ok tt (after_write account slot v w)
    unfolding after_write
    write_lem account slot v w = rw (l.sstore_done w.db account slot v, write)

    pub get_lem :
        (s : StorageSlot) (w : World h) → get s w ≡ ok (value w s.account s.slot) (after_get s w)
    unfolding get value after_get Burn.burn
    get_lem s w = ground (arith, l.storage_done w.db s.account s.slot)

    pub set_lem :
        (s : StorageSlot) (v : ℕ) (w : World h) → IsWritable w → set s v w ≡ ok tt (after_set s v w)
    unfolding set after_set Burn.burn
    set_lem s v w p = rw (p, set) (ground (arith, l.sstore_done w.db s.account s.slot v))

    pub value-after_get :
        (s : StorageSlot) (w : World h) (a k : ℕ) → value (after_get s w) a k ≡ value w a k
    unfolding value after_get
    value-after_get s w a k = refl

    pub value-after_set :
        (s : StorageSlot) (v : ℕ) (w : World h) (a k : ℕ)
        → value (after_set s v w) a k ≡ (if s.account == a && s.slot == k then v else value w a k)
    unfolding value after_set
    value-after_set s v w a k = l.slot-write w.db s.account s.slot v a k

    pub value-after_write :
        (account slot v : ℕ) (w : World h) (a k : ℕ)
        → value (after_write account slot v w) a k
          ≡ (if account == a && slot == k then v else value w a k)
    unfolding value after_write
    value-after_write account slot v w a k = l.slot-write w.db account slot v a k

    pub after_set-IsWritable :
        (s : StorageSlot) (v : ℕ) (w : World h) → IsWritable w → IsWritable (after_set s v w)
    unfolding after_set Burn.burn
    after_set-IsWritable s v w p = p

    pub after_write-IsWritable :
        (a k v : ℕ) (w : World h) → IsWritable w → IsWritable (after_write a k v w)
    unfolding after_write
    after_write-IsWritable a k v w p = p

  pub after_get-IsWritable :
      (s : StorageSlot) (w : World h) → IsWritable w → IsWritable (after_get s w)
  unfolding after_get Burn.burn
  after_get-IsWritable s w p = p

  -- On a read-only burner a write panics: nothing is charged, traced or stored.
  pub set_read_only :
      (s : StorageSlot) (v : ℕ) (w : World h)
      → w.burner.read_only ≡ true
      → set s v w ≡ panic read_only_burner
  unfolding set
  set_read_only s v w p = rw (p, set)
