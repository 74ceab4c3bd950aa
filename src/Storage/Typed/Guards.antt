-- ===== src/Storage/Typed/Guards.antt =====
-- What a typed slot reads of a word, and which words it refuses.
use arb_reth.Prelude.{
  ℕ, ◌+◌, ◌-◌, ◌%◌, ◌^◌, ◌≡◌, refl, ◌∙◌, arith, inl, inr, Bool-cases, true, none, some, ltb, leb,
  ◌==◌, if◌then◌else◌, u64_max,
}
use arb_reth.Prelude.Int.{ℤ, pos, negsuc, from_raw}
use arb_reth.Host.{Host}
use arb_reth.World.{World, Outcome, ok, panic, invalid_value, ◌>>=◌, pure, bind-ok}
use arb_reth.Storage.Slot.{StorageSlot, get}
use arb_reth.Storage.Typed.{
  i64_half, nil_word, word_to_addr, u16_max, u24_max, u32_max, try_u64, try_width, get_uint64,
  get_uint16, get_uint24, get_uint32, get_int64, get_address, get_address_or_nil,
}

-- The signed number of a word of 64 bits.
abbrev pub signed64 : ℕ → ℤ
signed64 raw = if ltb raw (2 ^ 63) then pos raw else negsuc (2 ^ 64 - 1 - raw)

module _ ⦃h : Host⦄ where
  -- A value, if the word is below a bound, and otherwise a panic.
  abbrev pub below : {A : Type 0} → ℕ → ℕ → A → World h → Outcome h A
  below bound raw a w = if ltb raw bound then ok a w else panic invalid_value

  try_u64_lem : (raw : ℕ) (w : World h) → try_u64 raw w ≡ below (2 ^ 64) raw raw w
  try_u64_lem raw w = elim (Bool-cases (ltb raw (2 ^ 64))) [
    | inl small ↦ ground (arith, small)
    | inr large ↦ ground (arith, large)
  ]

  -- The checks of a width below 64 bits, one behind the other.
  narrow :
      (top raw : ℕ) (w : World h)
      → leb top u64_max ≡ true
      → (try_u64 raw >>= λ v. try_width top v) w ≡ below (top + 1) raw raw w
  narrow top raw w p = elim (Bool-cases (leb raw u64_max)) [
    | inl small ↦ rw small (elim (Bool-cases (ltb top raw)) [
      | inl large ↦ ground (arith, small, large)
      | inr fits ↦ ground (arith, small, fits)
    ])
    | inr large ↦ ground (arith, p, large)
  ]

  signed :
      (raw : ℕ) (w : World h)
      → (try_u64 raw >>= λ v. pure (from_raw i64_half v)) w ≡ below (2 ^ 64) raw (signed64 raw) w
  signed raw w = elim (Bool-cases (leb raw u64_max)) [
    | inl small ↦ rw small (elim (Bool-cases (ltb raw i64_half)) [
      | inl low ↦ ground (arith, small, low)
      | inr high ↦ ground (arith, small, high)
    ])
    | inr large ↦ ground (arith, large)
  ]

  optional :
      (raw : ℕ) (w : World h)
      → (if raw == nil_word then pure none else pure (some (word_to_addr raw))) w
        ≡ ok (if raw == 2 ^ 255 then none else some (raw % 2 ^ 160)) w
  optional raw w = elim (Bool-cases (raw == nil_word)) [
    | inl nil ↦ rw nil refl
    | inr other ↦ rw other refl
  ]

  module _ (s : StorageSlot) (raw : ℕ) (w w' : World h) (word : get s w ≡ ok raw w') where
    -- On any host: where a slot reads a word, its typed reads give it as a number of 64, 16, 24 or 32
    -- bits, or as a signed number of 64 bits, and panic exactly for a word of more bits; a read as an
    -- address gives its low 160 bits, and one as an optional address gives none for the word 2 ^ 255 and
    -- otherwise those bits.
    pub reads_guarded :
        (get_uint64 s w ≡ below (2 ^ 64) raw raw w')
        × (get_uint16 s w ≡ below (2 ^ 16) raw raw w')
        × (get_uint24 s w ≡ below (2 ^ 24) raw raw w')
        × (get_uint32 s w ≡ below (2 ^ 32) raw raw w')
        × (get_int64 s w ≡ below (2 ^ 64) raw (signed64 raw) w')
        × (get_address s w ≡ ok (raw % 2 ^ 160) w')
        × (get_address_or_nil s w ≡ ok (if raw == 2 ^ 255 then none else some (raw % 2 ^ 160)) w')
    unfolding get_uint64 get_uint16 get_uint24 get_uint32 get_int64 get_address get_address_or_nil
    reads_guarded = (
      bind-ok (get s) _ w word ∙ try_u64_lem raw w',
      bind-ok (get s) _ w word ∙ narrow u16_max raw w' refl,
      bind-ok (get s) _ w word ∙ narrow u24_max raw w' refl,
      bind-ok (get s) _ w word ∙ narrow u32_max raw w' refl,
      bind-ok (get s) _ w word ∙ signed raw w',
      bind-ok (get s) _ w word,
      bind-ok (get s) _ w word ∙ optional raw w',
    )
