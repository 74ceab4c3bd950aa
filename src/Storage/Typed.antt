-- ===== src/Storage/Typed.antt =====
-- The slots with a type: `StorageBackedUint64`, `...Uint16`, `...Uint24`, `...Uint32`, `...Int64`,
-- `...BigUint`, `...BigInt`, `...Address` and `...AddressOrNil`. `StorageBackedBips` and
-- `StorageBackedUBips` wrap the 64-bit slots, signed and unsigned.
-- Signed values are integers; a slot holds their two's complement pattern. An address is a number
-- of 160 bits, the low 20 bytes of its word.
pub mod Laws
pub mod Guards
pub mod Journaled
use arb_reth.Prelude.{
  ℕ, suc, ◌+◌, ◌-◌, ◌%◌, ◌^◌, Option, none, some, List, ltb, leb, ◌==◌, if◌then◌else◌, u64_max,
}
use arb_reth.Prelude.Int.{ℤ, pos, negsuc, to_raw, from_raw}
use arb_reth.Host.{Host}
use arb_reth.World.{
  M, ◌>>=◌, ◌>>◌, pure, crash, invalid_value, increment_overflow, decrement_underflow,
}
use arb_reth.Storage.Slot.{StorageSlot, get, set}
pub use arb_reth.Signed.{i256_half}

abbrev pub u16_max : ℕ
u16_max = 2 ^ 16 - 1

abbrev pub u24_max : ℕ
u24_max = 0xff_ffff

-- `Uint24::new`, whose assertion fails on more than 24 bits; a `Uint24` is its number, as `get` gives it.
unfoldable pub new_uint24 : ℕ → Option ℕ
new_uint24 value = if leb value u24_max then some value else none

abbrev pub uint24_value : ℕ → ℕ
uint24_value n = n

abbrev pub u32_max : ℕ
u32_max = 2 ^ 32 - 1

-- Half the number of values of `i64`.
abbrev pub i64_half : ℕ
i64_half = 2 ^ 63

abbrev pub unsigned_abs : ℤ → ℕ
unsigned_abs (pos n) = n
unsigned_abs (negsuc n) = suc n

-- The word that stands for no address, 1 << 255.
abbrev pub nil_word : ℕ
nil_word = 2 ^ 255

-- The low 20 bytes of a word.
abbrev pub word_to_addr : ℕ → ℕ
word_to_addr raw = raw % 2 ^ 160

-- The word of an optional address.
abbrev pub address_or_nil_word : Option ℕ → ℕ
address_or_nil_word none = nil_word
address_or_nil_word (some addr) = addr

module _ ⦃h : Host⦄ where
  -- `u64::try_from(raw).unwrap_or_else(|_| panic!(...))`.
  abbrev pub try_u64 : ℕ → M ℕ
  try_u64 raw = if leb raw u64_max then pure raw else crash invalid_value

  -- The check of a width below 64 bits.
  abbrev pub try_width : ℕ → ℕ → M ℕ
  try_width top as_u64 = if ltb top as_u64 then crash invalid_value else pure as_u64

  unfoldable pub get_uint64 : StorageSlot → M ℕ
  get_uint64 s = do raw ← get s; try_u64 raw

  unfoldable pub set_uint64 : StorageSlot → ℕ → M (Unit {0})
  set_uint64 s value = set s value

  unfoldable pub clear_uint64 : StorageSlot → M (Unit {0})
  unfolding set_uint64
  clear_uint64 s = set_uint64 s 0

  -- The check and the write behind the read of `increment`.
  abbrev increment_from : StorageSlot → ℕ → M ℕ
  increment_from s old =
      if old == u64_max then crash increment_overflow else set_uint64 s (old + 1) >> pure (old + 1)

  unfoldable pub increment : StorageSlot → M ℕ
  unfolding get_uint64 set_uint64
  increment s = do old ← get_uint64 s; increment_from s old

  abbrev decrement_from : StorageSlot → ℕ → M ℕ
  decrement_from s old =
      if old == 0 then crash decrement_underflow else set_uint64 s (old - 1) >> pure (old - 1)

  unfoldable pub decrement : StorageSlot → M ℕ
  unfolding get_uint64 set_uint64
  decrement s = do old ← get_uint64 s; decrement_from s old

  unfoldable pub get_uint16 : StorageSlot → M ℕ
  get_uint16 s = do raw ← get s; as_u64 ← try_u64 raw; try_width u16_max as_u64

  unfoldable pub set_uint16 : StorageSlot → ℕ → M (Unit {0})
  set_uint16 s value = set s value

  unfoldable pub get_uint24 : StorageSlot → M ℕ
  get_uint24 s = do raw ← get s; as_u64 ← try_u64 raw; try_width u24_max as_u64

  unfoldable pub set_uint24 : StorageSlot → ℕ → M (Unit {0})
  set_uint24 s value = set s value

  unfoldable pub get_uint32 : StorageSlot → M ℕ
  get_uint32 s = do raw ← get s; as_u64 ← try_u64 raw; try_width u32_max as_u64

  unfoldable pub set_uint32 : StorageSlot → ℕ → M (Unit {0})
  set_uint32 s value = set s value

  unfoldable pub clear_uint32 : StorageSlot → M (Unit {0})
  unfolding set_uint32
  clear_uint32 s = set_uint32 s 0

  unfoldable pub get_int64 : StorageSlot → M ℤ
  get_int64 s = do raw ← get s; as_u64 ← try_u64 raw; pure (from_raw i64_half as_u64)

  unfoldable pub set_int64 : StorageSlot → ℤ → M (Unit {0})
  set_int64 s value = set s (to_raw i64_half value)

  -- `StorageBackedBips` and `StorageBackedUBips`.
  unfoldable pub get_bips : StorageSlot → M ℤ
  unfolding get_int64
  get_bips s = get_int64 s

  unfoldable pub set_bips : StorageSlot → ℤ → M (Unit {0})
  unfolding set_int64
  set_bips s value = set_int64 s value

  unfoldable pub get_ubips : StorageSlot → M ℕ
  unfolding get_uint64
  get_ubips s = get_uint64 s

  unfoldable pub set_ubips : StorageSlot → ℕ → M (Unit {0})
  unfolding set_uint64
  set_ubips s value = set_uint64 s value

  unfoldable pub get_big_uint : StorageSlot → M ℕ
  get_big_uint s = get s

  -- `set_checked` of `StorageBackedBigUint`.
  unfoldable pub set_big_uint : StorageSlot → ℕ → M (Unit {0})
  set_big_uint s value = set s value

  -- `set_saturating_with_warning`, whose name of the value is not used.
  unfoldable pub set_big_uint_saturating : StorageSlot → ℕ → List ℕ → M (Unit {0})
  set_big_uint_saturating s value name = set s value

  unfoldable pub get_big_int : StorageSlot → M ℤ
  get_big_int s = do raw ← get s; pure (from_raw i256_half raw)

  -- `set_checked` of `StorageBackedBigInt`.
  unfoldable pub set_big_int : StorageSlot → ℤ → M (Unit {0})
  set_big_int s value = set s (to_raw i256_half value)

  -- `set_saturating_with_warning`, whose name of the value is not used.
  unfoldable pub set_big_int_saturating : StorageSlot → ℤ → List ℕ → M (Unit {0})
  set_big_int_saturating s value name = set s (to_raw i256_half value)

  -- The sign is lost.
  unfoldable pub set_pre_version7 : StorageSlot → ℤ → M (Unit {0})
  set_pre_version7 s value = set s (unsigned_abs value)

  unfoldable pub set_by_uint : StorageSlot → ℕ → M (Unit {0})
  set_by_uint s value = set s value

  unfoldable pub get_address : StorageSlot → M ℕ
  get_address s = do raw ← get s; pure (word_to_addr raw)

  unfoldable pub set_address : StorageSlot → ℕ → M (Unit {0})
  set_address s addr = set s addr

  unfoldable pub get_address_or_nil : StorageSlot → M (Option ℕ)
  get_address_or_nil s = do
    raw ← get s
    if raw == nil_word then pure none else pure (some (word_to_addr raw))

  unfoldable pub set_address_or_nil : StorageSlot → Option ℕ → M (Unit {0})
  set_address_or_nil s addr = set s (address_or_nil_word addr)
