-- ===== src/ArbSys/Window.antt =====
-- `arb_block_hash` on every branch: the window of 256 blocks behind the current one.
use arb_reth.Prelude.{
  ℕ, ◌-◌, ◌+◌, ◌≤◌, ◌<◌, ◌≡◌, arith, inl, inr, false, Bool-cases, List, length, take, ltb, leb,
  ltb→lt, leb→le, ◌||◌, u64_max,
}
use arb_reth.Bytes.{from_be_bytes}
use arb_reth.ArbSys.{
  Context, PrecompileResult, output, error, out_of_gas, invalid_input_length, invalid_block_number,
  block_number_out_of_range, block_hash_of, arb_block_hash, encode_b256, hash_or_zero, decode_u256,
  u256_to_u64,
}

-- The blocks of the window: before the current one, and at most 256 before it.
abbrev pub InWindow : ℕ → ℕ → Type 0
InWindow current requested = (requested < current) × (current ≤ requested + 256)

-- The answers, each with its condition, for the number that the arguments hold.
pub data Answer (ctx : Context) (args : List ℕ) (gas_limit requested : ℕ)
    : PrecompileResult → Type 0 where
  poor : gas_limit < 20 → Answer ctx args gas_limit requested (error out_of_gas)
  short :
      20 ≤ gas_limit
      → length args < 32
      → Answer ctx args gas_limit requested (error invalid_input_length)
  outside :
      20 ≤ gas_limit
      → 32 ≤ length args
      → ¬ (InWindow ctx.block_number requested)
      → Answer ctx args gas_limit requested (error invalid_block_number)
  large :
      20 ≤ gas_limit
      → 32 ≤ length args
      → InWindow ctx.block_number requested
      → u64_max < requested
      → Answer ctx args gas_limit requested (error block_number_out_of_range)
  known :
      20 ≤ gas_limit
      → 32 ≤ length args
      → InWindow ctx.block_number requested
      → requested ≤ u64_max
      → Answer ctx args gas_limit requested
          (output 20 (encode_b256 (hash_or_zero (ctx.block_hash requested))))

module _ (ctx : Context) (args : List ℕ) (gas_limit : ℕ) (rich : 20 ≤ gas_limit)
    (long : 32 ≤ length args) where
  in_window :
      (n : ℕ)
      → (leb ctx.block_number n || ltb 256 (ctx.block_number - n)) ≡ false
      → InWindow ctx.block_number n
  in_window n within = (ground (arith, within), ground (arith, within))

  -- The answer behind the decoding.
  block_hash_of-Answer : (n : ℕ) → Answer ctx args gas_limit n (block_hash_of ctx n)
  unfolding block_hash_of u256_to_u64
  block_hash_of-Answer n =
      elim (Bool-cases (leb ctx.block_number n || ltb 256 (ctx.block_number - n))) [
        | inl out ↦ rw (out) (outside rich long (λ q. ground (arith, out, q)))
        | inr within ↦ elim (Bool-cases (leb n u64_max)) [
          | inl small ↦ rw (within, small) (known rich long (in_window n within) (leb→le _ _ small))
          | inr big ↦ rw (within, big) (large rich long (in_window n within) (ground (arith, big)))
        ]
      ]

-- `arb_block_hash` answers out of gas for a limit below 20, else an error for arguments shorter than
-- a word, else an error for a number outside of the window, else an error for one above 64 bits, and
-- else the hash of that block, or zero for one that is not known, for a gas of 20.
pub arb_block_hash-Answer :
    (ctx : Context) (args : List ℕ) (gas_limit : ℕ)
    → Answer ctx args gas_limit (from_be_bytes (take 32 args)) (arb_block_hash ctx args gas_limit)
unfolding arb_block_hash decode_u256
arb_block_hash-Answer ctx args gas_limit = elim (Bool-cases (ltb gas_limit 20)) [
  | inl less ↦ rw (less) (poor (ltb→lt _ _ less))
  | inr more ↦ elim (Bool-cases (ltb (length args) 32)) [
    | inl small ↦ rw (more, small) (short (ground (arith, more)) (ltb→lt _ _ small))
    | inr long ↦
        rw (more, long)
          (block_hash_of-Answer ctx args gas_limit (ground (arith, more)) (ground (arith, long))
            (from_be_bytes (take 32 args)))
  ]
]
