-- ===== src/Storage/Typed/Laws.antt =====
-- What the typed slots read back, and `increment` and `decrement` on every branch.
use arb_reth.Prelude.{
  ℕ, ◌+◌, ◌-◌, ◌^◌, ◌≤◌, ◌<◌, ◌≡◌, refl, inl, inr, true, ◌∙◌, Bool-cases, Option, none, some, leb,
  ◌==◌, ==_refl, ==_ne, ap, if◌then◌else◌, arith, u64_max,
}
use arb_reth.Prelude.Int.{ℤ, to_raw, from_raw, IsSigned, from_raw-to_raw, to_raw-lt}
use arb_reth.Host.{Host, IsStore}
use arb_reth.World.{
  World, ok, panic, bind-ok, M, ◌>>=◌, ◌>>◌, invalid_value, increment_overflow, decrement_underflow,
}
use arb_reth.Storage.Slot.{
  StorageSlot, get, set, value, after_get, after_set, IsWritable, get_lem, set_lem, value-after_set,
  after_get-IsWritable,
}
use arb_reth.Storage.Typed.{
  i64_half, i256_half, nil_word, unsigned_abs, get_uint64, set_uint64, increment, decrement,
  get_int64, set_int64, get_big_int, set_big_int, set_pre_version7, get_address_or_nil,
  set_address_or_nil, address_or_nil_word,
}

module _ ⦃h : Host⦄ (l : IsStore h) where
  -- The word in a slot.
  abbrev pub held : World h → StorageSlot → ℕ
  held w s = value l w s.account s.slot

  pub get_uint64_lem :
      (s : StorageSlot) (w : World h)
      → held w s ≤ u64_max
      → get_uint64 s w ≡ ok (held w s) (after_get s w)
  unfolding get_uint64
  get_uint64_lem s w p = bind-ok (get s) _ w (get_lem l s w) ∙ ground arith

  pub get_uint64_panic :
      (s : StorageSlot) (w : World h) → u64_max < held w s → get_uint64 s w ≡ panic invalid_value
  unfolding get_uint64
  get_uint64_panic s w p = bind-ok (get s) _ w (get_lem l s w) ∙ ground arith

  pub set_uint64_lem :
      (s : StorageSlot) (v : ℕ) (w : World h)
      → IsWritable w
      → set_uint64 s v w ≡ ok tt (after_set l s v w)
  unfolding set_uint64
  set_uint64_lem s v w p = set_lem l s v w p

  pub held-after_set_self : (s : StorageSlot) (v : ℕ) (w : World h) → held (after_set l s v w) s ≡ v
  held-after_set_self s v w =
      value-after_set l s v w s.account s.slot ∙ rw (==_refl s.account, ==_refl s.slot)

  -- On a host that is a store: on a writable world whose slot holds a 64-bit value, `increment`
  -- returns the value plus one and has stored it, unless the value is the largest: then it panics.
  pub increment_lem :
      (s : StorageSlot) (w : World h)
      → IsWritable w
      → held w s ≤ u64_max
      → increment s w ≡ (
          if held w s == u64_max
          then panic increment_overflow
          else ok (held w s + 1) (after_set l s (held w s + 1) (after_get s w)))
  unfolding increment
  increment_lem s w p small =
      bind-ok (get_uint64 s) _ w (get_uint64_lem s w small)
      ∙ (elim (Bool-cases (held w s == u64_max)) [
        | inl full ↦ rw full refl
        | inr room ↦ rw room (
            bind-ok (set_uint64 s (held w s + 1)) _ (after_get s w)
              (set_uint64_lem s _ _ (after_get-IsWritable s w p)))
      ])

  -- On a host that is a store: on a writable world whose slot holds a 64-bit value, `decrement`
  -- returns the value minus one and has stored it, unless the value is 0: then it panics.
  pub decrement_lem :
      (s : StorageSlot) (w : World h)
      → IsWritable w
      → held w s ≤ u64_max
      → decrement s w ≡ (
          if held w s == 0
          then panic decrement_underflow
          else ok (held w s - 1) (after_set l s (held w s - 1) (after_get s w)))
  unfolding decrement
  decrement_lem s w p small =
      bind-ok (get_uint64 s) _ w (get_uint64_lem s w small) ∙ (elim (Bool-cases (held w s == 0)) [
        | inl full ↦ rw full refl
        | inr room ↦ rw room (
            bind-ok (set_uint64 s (held w s - 1)) _ (after_get s w)
              (set_uint64_lem s _ _ (after_get-IsWritable s w p)))
      ])

  -- On a host that is a store: a signed 64-bit value that was stored in a writable world, negative
  -- or not, is what the slot reads back.
  pub get_int64-set_int64 :
      (s : StorageSlot) (v : ℤ) (w : World h)
      → IsWritable w
      → IsSigned i64_half v
      → (set_int64 s v >> get_int64 s) w ≡ ok v (after_get s (after_set l s (to_raw i64_half v) w))
  unfolding get_int64 set_int64
  get_int64-set_int64 s v w p fits =
      bind-ok (set s (to_raw i64_half v)) _ w (set_lem l s (to_raw i64_half v) w p)
      ∙ bind-ok (get s) _ _ (get_lem l s _)
      ∙ rw held-after_set_self (rw test_true (rw (from_raw-to_raw i64_half v fits)))
    where
      test_true : leb (to_raw i64_half v) u64_max ≡ true
      test_true = ground (arith, to_raw-lt i64_half v fits)

  -- What a slot holds right after it was stored.
  read_back :
      (s : StorageSlot) (v : ℕ) (w : World h) {B : Type 0} (f : ℕ → M B)
      → IsWritable w
      → (set s v >> (get s >>= f)) w ≡ f v (after_get s (after_set l s v w))
  read_back s v w f p =
      bind-ok (set s v) _ w (set_lem l s v w p)
      ∙ bind-ok (get s) f _ (get_lem l s _)
      ∙ ap (λ x. f x (after_get s (after_set l s v w))) (held-after_set_self s v w)

  -- On a host that is a store: in a writable world, a signed 256-bit value stored by `set_checked`
  -- is read back; one stored by `set_pre_version7` is read back as the signed value of its
  -- magnitude.
  pub get_big_int-set_big_int :
      (s : StorageSlot) (v : ℤ) (w : World h)
      → IsWritable w
      → IsSigned i256_half v
      → ((set_big_int s v >> get_big_int s) w
          ≡ ok v (after_get s (after_set l s (to_raw i256_half v) w)))
        × ((set_pre_version7 s v >> get_big_int s) w
            ≡ ok
                (from_raw i256_half (unsigned_abs v))
                (after_get s (after_set l s (unsigned_abs v) w)))
  unfolding get_big_int set_big_int set_pre_version7
  get_big_int-set_big_int s v w p fits = (
    read_back s (to_raw i256_half v) w _ p ∙ rw (from_raw-to_raw i256_half v fits),
    read_back s (unsigned_abs v) w _ p,
  )

  -- The address is a number of 160 bits, if there is one.
  abbrev pub IsAddressOrNil : Option ℕ → Type 0
  IsAddressOrNil none = Unit
  IsAddressOrNil (some a) = a < 2 ^ 160

  -- On a host that is a store: an optional address of 160 bits that was stored in a writable world
  -- is what the slot reads back, the absent one included.
  pub get_address_or_nil-set_address_or_nil :
      (s : StorageSlot) (a : Option ℕ) (w : World h)
      → IsWritable w
      → IsAddressOrNil a
      → (set_address_or_nil s a >> get_address_or_nil s) w
        ≡ ok a (after_get s (after_set l s (address_or_nil_word a) w))
  unfolding get_address_or_nil set_address_or_nil
  get_address_or_nil-set_address_or_nil s none w p fits = read_back s nil_word w _ p
  get_address_or_nil-set_address_or_nil s (some a) w p fits =
      read_back s a w _ p
      ∙ rw (==_ne a nil_word (omega arith))
          (ap (λ x. ok (some x) (after_get s (after_set l s a w))) (omega arith))
