-- ===== src/L1Pricing/Covered.antt =====
-- The fees that the L1 price stores are covered by the balance of the funds pool: what reads and
-- writes of slots do to that.
use arb_reth.Prelude.{
  ℕ, ◌≤◌, ◌≡◌, refl, ◌∙◌, Bool, true, false, List, [], ◌∷◌, u64_max, if◌then◌else◌,
}
use arb_reth.Prelude.Int.{ℤ, to_raw}
use arb_reth.Host.{Host, IsStore, IsBank}
use arb_reth.World.{World, bind-ok}
use arb_reth.World.Ends.{Ends}
use arb_reth.Signed.{i256_half}
use arb_reth.Storage.Slot
use arb_reth.Storage.Slot.{
  StorageSlot, value, after_get, after_set, get_lem, set_lem, IsWritable, after_get-IsWritable,
  after_set-IsWritable, value-after_get, value-after_set,
}
use arb_reth.Storage.Typed.{
  get_uint64, set_uint64, get_big_int, set_big_int, get_big_uint, set_big_uint, get_address,
}
use arb_reth.Storage.Typed.Laws.{held, get_uint64_lem, set_uint64_lem}
use arb_reth.BatchPoster.Balance.{same_slot, Differs}
use arb_reth.L1Pricing.{L1PricingState, l1_pricer_funds_pool_address}
use arb_reth.L1Pricing.Transfer.{balance_in}

module _ ⦃h : Host⦄ (l : IsStore h) (bank : IsBank h l) (s : L1PricingState) where
  -- The slots that hold 64-bit numbers.
  abbrev pub counters : List StorageSlot
  counters =
      s.units_since_update ∷ s.per_unit_reward ∷ s.last_update_time ∷ s.inertia
      ∷ s.amortized_cost_cap_bips ∷ []

  abbrev pub AllSmall : World h → List StorageSlot → Type 0
  AllSmall w [] = Unit
  AllSmall w (t ∷ ts) = (held l w t ≤ u64_max) × AllSmall w ts

  -- The world may be written, the stored fees are some amount, the pool has at least another, and the
  -- counters are 64-bit numbers.
  pub record Backed (fees available : ℕ) (w : World h) : Type 0 where
    pub writable : IsWritable w
    pub stored : held l w s.l1_fees_available ≡ fees
    pub in_pool : available ≤ balance_in l bank w l1_pricer_funds_pool_address
    pub small : AllSmall w counters

  -- A slot that is neither that of the fees nor a counter.
  abbrev pub IsFree : StorageSlot → Type 0
  IsFree t = (same_slot t s.l1_fees_available ≡ false) × Differs t counters

  pub balance-after_get :
      (t : StorageSlot) (w : World h) (a : ℕ)
      → balance_in l bank (after_get t w) a ≡ balance_in l bank w a
  unfolding after_get
  balance-after_get t w a = refl

  pub balance-after_set :
      (t : StorageSlot) (v : ℕ) (w : World h) (a : ℕ)
      → balance_in l bank (after_set l t v w) a ≡ balance_in l bank w a
  unfolding after_set
  balance-after_set t v w a = bank.balance-write w.db t.account t.slot v a

  pub AllSmall-after_get :
      (t : StorageSlot) (w : World h) (ts : List StorageSlot)
      → AllSmall w ts
      → AllSmall (after_get t w) ts
  AllSmall-after_get t w [] p = tt
  AllSmall-after_get t w (u ∷ ts) p =
      (rw (value-after_get l t w u.account u.slot) p.0, AllSmall-after_get t w ts p.1)

  pub AllSmall-after_set :
      (t : StorageSlot) (v : ℕ) (w : World h) (ts : List StorageSlot)
      → Differs t ts
      → AllSmall w ts
      → AllSmall (after_set l t v w) ts
  AllSmall-after_set t v w [] d p = tt
  AllSmall-after_set t v w (u ∷ ts) d p =
      (rw (value-after_set l t v w u.account u.slot, d.0) p.0, AllSmall-after_set t v w ts d.1 p.1)

  AllSmall-after_set_small :
      (t : StorageSlot) (v : ℕ) (w : World h) (ts : List StorageSlot)
      → v ≤ u64_max
      → AllSmall w ts
      → AllSmall (after_set l t v w) ts
  AllSmall-after_set_small t v w [] q p = tt
  AllSmall-after_set_small t v w (u ∷ ts) q p = (
    rw (value-after_set l t v w u.account u.slot) (either (same_slot t u)),
    AllSmall-after_set_small t v w ts q p.1,
  )
    where
      either : (b : Bool) → (if b then v else held l w u) ≤ u64_max
      either true = q
      either false = p.0

  module _ {fees available : ℕ} {w : World h} (c : Backed fees available w) where
    pub get-Backed : (t : StorageSlot) → Backed fees available (after_get t w)
    get-Backed t = record {
      writable = after_get-IsWritable t w c.writable;
      stored = value-after_get l t w _ _ ∙ c.stored;
      in_pool = rw (balance-after_get t w l1_pricer_funds_pool_address) c.in_pool;
      small = AllSmall-after_get t w counters c.small;
    }

    set-Backed :
        (t : StorageSlot) (v : ℕ)
        → same_slot t s.l1_fees_available ≡ false
        → AllSmall (after_set l t v w) counters
        → Backed fees available (after_set l t v w)
    set-Backed t v d small = record {
      writable = after_set-IsWritable l t v w c.writable;
      stored = value-after_set l t v w _ _ ∙ rw d c.stored;
      in_pool = rw (balance-after_set t v w l1_pricer_funds_pool_address) c.in_pool;
      small = small;
    }

    -- The reads and writes return and keep the fees covered.
    pub read_big_int : (t : StorageSlot) → Ends (get_big_int t) w (λ x w'. Backed fees available w')
    unfolding get_big_int
    read_big_int t = record {
      result = _;
      after = after_get t w;
      returned = bind-ok (Slot.get t) _ w (get_lem l t w);
      left_with = get-Backed t;
    }

    pub read_big_uint :
        (t : StorageSlot)
        → Ends (get_big_uint t) w (λ x w'. (x ≡ held l w t) × Backed fees available w')
    unfolding get_big_uint
    read_big_uint t = record {
      result = _;
      after = after_get t w;
      returned = get_lem l t w;
      left_with = (refl, get-Backed t);
    }

    pub read_address : (t : StorageSlot) → Ends (get_address t) w (λ x w'. Backed fees available w')
    unfolding get_address
    read_address t = record {
      result = _;
      after = after_get t w;
      returned = bind-ok (Slot.get t) _ w (get_lem l t w);
      left_with = get-Backed t;
    }

    pub read_counter :
        (t : StorageSlot)
        → held l w t ≤ u64_max
        → Ends
            (get_uint64 t)
            w
            (λ x w'. ((x ≡ held l w t) × (x ≤ u64_max)) × Backed fees available w')
    read_counter t p = record {
      result = held l w t;
      after = after_get t w;
      returned = get_uint64_lem l t w p;
      left_with = ((refl, p), get-Backed t);
    }

    pub write_big_int :
        (t : StorageSlot) (v : ℤ)
        → IsFree t
        → Ends (set_big_int t v) w (λ x w'. Backed fees available w')
    unfolding set_big_int
    write_big_int t v d = record {
      result = tt;
      after = after_set l t (to_raw i256_half v) w;
      returned = set_lem l t _ w c.writable;
      left_with = set-Backed t _ d.0 (AllSmall-after_set t _ w counters d.1 c.small);
    }

    pub write_big_uint :
        (t : StorageSlot) (v : ℕ)
        → IsFree t
        → Ends (set_big_uint t v) w (λ x w'. Backed fees available w')
    unfolding set_big_uint
    write_big_uint t v d = record {
      result = tt;
      after = after_set l t v w;
      returned = set_lem l t v w c.writable;
      left_with = set-Backed t v d.0 (AllSmall-after_set t v w counters d.1 c.small);
    }

    pub write_counter :
        (t : StorageSlot) (v : ℕ)
        → same_slot t s.l1_fees_available ≡ false
        → v ≤ u64_max
        → Ends (set_uint64 t v) w (λ x w'. Backed fees available w')
    write_counter t v d p = record {
      result = tt;
      after = after_set l t v w;
      returned = set_uint64_lem l t v w c.writable;
      left_with = set-Backed t v d (AllSmall-after_set_small t v w counters p c.small);
    }
