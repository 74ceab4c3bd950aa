-- ===== src/World.antt =====
-- The state that the ArbOS code runs in, and its calls: the host's store, the burner that all
-- storage handles share (the handles hold clones of one `B: Burner`; here `B` is a handle to one
-- `SystemBurner`), and the events that its tracer has received, latest first.
-- A call returns a value, the database's error, or a panic.
pub mod Loop
pub mod Ends
use arb_reth.Prelude.{ℕ, zero, suc, ◌+◌, ◌≡◌, Bool, none, some, List, ◌∷◌, if◌then◌else◌}
use arb_reth.MultiGas.{ResourceKind}
use arb_reth.Host.{Host, done, fail}
use arb_reth.Burn
use arb_reth.Burn.{SystemBurner, TracingInfo, is_before_evm}

pub data Event : Type 0 where
  storage_get : ℕ → ℕ → Bool → Event
  storage_set : ℕ → ℕ → ℕ → Bool → Event

pub data Panic : Type 0 where
  read_only_burner invalid_value increment_overflow decrement_underflow : Panic
  pop_empty not_owner correctly_mapped invalid_length transfer_failed : Panic
  inconsistent_balance unexpected_poster wrong_version : Panic

pub record World (h : Host) : Type 0 where
  pub db : h.State
  pub burner : SystemBurner
  pub events : List Event

pub data Outcome (h : Host) (A : Type 0) : Type 0 where
  ok : A → World h → Outcome h A
  err : h.Error → World h → Outcome h A
  panic : Panic → Outcome h A

module _ ⦃h : Host⦄ where
  abbrev pub M : Type 0 → Type 0
  M A = World h → Outcome h A

  abbrev pub pure : {A : Type 0} → A → M A
  pure a w = ok a w

  infixl 5 ◌>>=◌ ◌>>◌
  abbrev pub ◌>>=◌ : {A B : Type 0} → M A → (A → M B) → M B
  ◌>>=◌ m f w = elim (m w) [ ok a w' ↦ f a w' | err e w' ↦ err e w' | panic p ↦ panic p ]

  abbrev pub ◌>>◌ : {A B : Type 0} → M A → M B → M B
  m >> k = m >>= λ _. k

  abbrev pub crash : {A : Type 0} → Panic → M A
  crash p w = panic p

  abbrev pub tick : M (Unit {0})
  tick w = ok tt w

  -- `burner.burn(kind, amount)`; its result is ignored, and it never fails.
  abbrev pub charge : ResourceKind → ℕ → M (Unit {0})
  charge kind amount w = ok tt (record w { burner = Burn.burn kind amount w.burner })

  -- `db.storage(account, slot)`.
  abbrev pub read : ℕ → ℕ → M ℕ
  read account slot w = elim (h.storage w.db account slot) [ done v ↦ ok v w | fail e ↦ err e w ]

  -- `ctx.journal_mut().sstore(account, slot, value)`.
  abbrev pub write : ℕ → ℕ → ℕ → M (Unit {0})
  write account slot value w = elim (h.sstore w.db account slot value) [
    | done s ↦ ok tt (record w { db = s })
    | fail e ↦ err e w
  ]

  -- `ctx.journal_mut().transfer(from, to, amount)`; its callers panic when it reports an error.
  abbrev pub transfer : ℕ → ℕ → ℕ → M (Unit {0})
  transfer from to amount w = elim (h.transfer w.db from to amount) [
    | done (some s) ↦ ok tt (record w { db = s })
    | done none ↦ panic transfer_failed
    | fail e ↦ err e w
  ]

  -- `ctx.journal_mut().load_account(account)` and its balance.
  abbrev pub balance_of : ℕ → M ℕ
  balance_of account w = elim (h.load_account w.db account) [
    | done (balance, s) ↦ ok balance (record w { db = s })
    | fail e ↦ err e w
  ]

  -- The tracer's callback, if the burner has tracing information with a tracer.
  abbrev pub emit : (TracingInfo → Event) → M (Unit {0})
  emit event w = elim w.burner.tracing_info [
    | none ↦ ok tt w
    | some info ↦
        if info.tracer then ok tt (record w { events = event info ∷ w.events }) else ok tt w
  ]

  -- `if self.burner.read_only() { panic!(...) }`.
  abbrev pub deny_read_only : M (Unit {0})
  deny_read_only w = if w.burner.read_only then panic read_only_burner else ok tt w

  -- `for i in from..from + left`.
  unfoldable pub for_range : (ℕ → M (Unit {0})) → ℕ → ℕ → M (Unit {0})
  for_range body zero from = tick
  for_range body (suc left) from = do body from; for_range body left (from + 1)

  -- A bind whose first call returns, and one whose first call panics or fails.
  pub bind-ok :
      {A B : Type 0} (m : M A) (f : A → M B) (w : World h) {a : A} {w' : World h}
      → m w ≡ ok a w'
      → (m >>= f) w ≡ f a w'
  bind-ok m f w e = rw (e, ◌>>=◌)

  pub bind-panic :
      {A B : Type 0} (m : M A) (f : A → M B) (w : World h) {p : Panic}
      → m w ≡ panic p
      → (m >>= f) w ≡ panic p
  bind-panic m f w e = rw (e, ◌>>=◌)

  pub bind-err :
      {A B : Type 0} (m : M A) (f : A → M B) (w : World h) {x : h.Error} {w' : World h}
      → m w ≡ err x w'
      → (m >>= f) w ≡ err x w'
  bind-err m f w e = rw (e, ◌>>=◌)
