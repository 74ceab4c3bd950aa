-- ===== src/Storage/Blob/Chunks.antt =====
-- One chunk of bytes in a word, and what `read_chunks` reads of it.
use arb_reth.Prelude.{
  ℕ, zero, suc, ◌+◌, ◌-◌, ◌^◌, ◌≤◌, ◌<◌, ◌≡◌, refl, ◌∙◌, ap, arith, inl, inr, true, false,
  Bool-cases, ==_ne, ==_refl, List, [], ◌∷◌, ◌++◌, length, length-append, take, drop,
  append-take-drop, length-take, length-drop, AllLe, take-AllLe, append-AllLe, drop-length_append,
  leb, ltb, leb→le,
}
use arb_reth.Bytes.{to_be_bytes, from_be_bytes, to_be_bytes-from_be_bytes}
use arb_reth.Host.{Host, IsStore}
use arb_reth.World.{World, ok, bind-ok}
use arb_reth.Storage.Slot.{after_write}
use arb_reth.Storage.Space.{Storage, map_address, read_slot}
use arb_reth.Storage.Space.Keys.{NoPageCollision}
use arb_reth.Storage.Space.Laws.{cell, read_slot_lem, cell-after_write}
use arb_reth.Storage.Blob.{zeros, read_chunks}

length-zeros : (n : ℕ) → length (zeros n) ≡ n
unfolding zeros
length-zeros zero = refl
length-zeros (suc n) = ap suc (length-zeros n)

zeros-AllLe : (n : ℕ) → AllLe 255 (zeros n)
unfolding zeros
zeros-AllLe zero = tt
zeros-AllLe (suc n) = (omega arith, zeros-AllLe n)

-- 32 bytes at the front, and fewer than 32 behind zeros, as a word holds them.
to_be_bytes-take :
    (b : List ℕ)
    → AllLe 255 b
    → 32 ≤ length b
    → to_be_bytes 32 (from_be_bytes (take 32 b)) ≡ take 32 b
to_be_bytes-take b p q =
    to_be_bytes-from_be_bytes (take 32 b) 32 (length-take 32 b q) (take-AllLe 255 32 b p)

drop-padded :
    (b : List ℕ)
    → AllLe 255 b
    → length b < 32
    → drop (32 - length b) (to_be_bytes 32 (from_be_bytes (zeros (32 - length b) ++ b))) ≡ b
drop-padded b p q =
    ap (drop (32 - length b)) (
      to_be_bytes-from_be_bytes (zeros (32 - length b) ++ b) 32
        (omega (arith, length-append (zeros (32 - length b)) b, length-zeros (32 - length b)))
        (append-AllLe 255 (zeros (32 - length b)) b (zeros-AllLe (32 - length b)) p))
    ∙ drop-length_append (zeros (32 - length b)) b (32 - length b) (length-zeros (32 - length b))

pub leb-true : (a b : ℕ) → a ≤ b → leb a b ≡ true
leb-true a b p = ground arith

pub leb-false : (a b : ℕ) → b < a → leb a b ≡ false
leb-false a b p = ground arith

pub ltb-true : (a b : ℕ) → a < b → ltb a b ≡ true
ltb-true a b p = ground arith

-- An empty list, a short one, and one that fills a word.
pub data Shape (b : List ℕ) : Type 0 where
  empty : length b ≡ 0 → Shape b
  short : 0 < length b → length b < 32 → Shape b
  long : 32 ≤ length b → Shape b

pub shape : (b : List ℕ) → Shape b
shape [] = empty refl
shape (x ∷ xs) = elim (Bool-cases (leb 32 (length (x ∷ xs)))) [
  | inl big ↦ long (leb→le 32 (length (x ∷ xs)) big)
  | inr small ↦ short (omega arith) (ground (arith, small))
]

module _ ⦃h : Host⦄ (l : IsStore h) (sto : Storage) (free : NoPageCollision sto) where
  -- The bytes stand from `offset` on, and the words before it are those of `w0`.
  pub record Written (w0 : World h) (b : List ℕ) (offset : ℕ) (w : World h) : Type 0 where
    pub kept : (j : ℕ) → j < offset → cell l w sto j ≡ cell l w0 sto j
    pub reads : (fuel : ℕ) → length b ≤ fuel → read_chunks sto fuel (length b) offset w ≡ ok b w

  -- The world after a word was written.
  abbrev pub put_word : ℕ → ℕ → World h → World h
  put_word offset v w = after_write l sto.account (map_address sto offset) v w

  nil_of : (b : List ℕ) → length b ≡ 0 → b ≡ []
  nil_of [] e = refl
  nil_of (x ∷ xs) e = absurd (omega arith)

  pub Written-empty : (w : World h) (b : List ℕ) (offset : ℕ) → length b ≡ 0 → Written w b offset w
  unfolding read_chunks
  Written-empty w b offset e = rw (nil_of b e) (record { kept = λ j p. refl; reads = reads })
    where
      reads : (fuel : ℕ) → 0 ≤ fuel → read_chunks sto fuel 0 offset w ≡ ok [] w
      reads zero p = refl
      reads (suc fuel) p = refl

  pub Written-short :
      (w : World h) (b : List ℕ) (offset : ℕ)
      → AllLe 255 b
      → 0 < length b
      → length b < 32
      → offset < 2 ^ 64
      → Written w b offset (put_word offset (from_be_bytes (zeros (32 - length b) ++ b)) w)
  unfolding read_chunks
  Written-short w b offset all p q r = record { kept = kept; reads = reads }
    where
      v : ℕ
      v = from_be_bytes (zeros (32 - length b) ++ b)

      kept : (j : ℕ) → j < offset → cell l (put_word offset v w) sto j ≡ cell l w sto j
      kept j s =
          cell-after_write l sto free offset v w j r (omega arith)
          ∙ rw (==_ne offset j (omega arith)) refl

      reads :
          (fuel : ℕ)
          → length b ≤ fuel
          → read_chunks sto fuel (length b) offset (put_word offset v w)
            ≡ ok b (put_word offset v w)
      reads zero s = absurd (omega arith)
      reads (suc fuel) s =
          rw (leb-false 32 (length b) q, ltb-true 0 (length b) p)
            (bind-ok (read_slot sto offset) _ _ (read_slot_lem l sto offset _)
              ∙ ap (λ x. ok (drop (32 - length b) (to_be_bytes 32 x)) (put_word offset v w))
                  (cell-after_write l sto free offset v w offset r r ∙ rw (==_refl offset) refl)
              ∙ ap (λ x. ok x (put_word offset v w)) (drop-padded b all q))

  pub Written-long :
      (w w' : World h) (b : List ℕ) (offset : ℕ)
      → AllLe 255 b
      → 32 ≤ length b
      → offset < 2 ^ 64
      → Written (put_word offset (from_be_bytes (take 32 b)) w) (drop 32 b) (offset + 1) w'
      → Written w b offset w'
  unfolding read_chunks
  Written-long w w' b offset all p r rest = record { kept = kept; reads = reads }
    where
      v : ℕ
      v = from_be_bytes (take 32 b)

      kept : (j : ℕ) → j < offset → cell l w' sto j ≡ cell l w sto j
      kept j s =
          rest.kept j (omega arith)
          ∙ cell-after_write l sto free offset v w j r (omega arith)
          ∙ rw (==_ne offset j (omega arith)) refl

      here : cell l w' sto offset ≡ v
      here =
          rest.kept offset (omega arith)
          ∙ cell-after_write l sto free offset v w offset r r
          ∙ rw (==_refl offset) refl

      left : length b - 32 ≡ length (drop 32 b)
      left = omega (arith, length-drop 32 b p)

      reads : (fuel : ℕ) → length b ≤ fuel → read_chunks sto fuel (length b) offset w' ≡ ok b w'
      reads zero s = absurd (omega arith)
      reads (suc fuel) s = rw (leb-true 32 (length b) p) (
          bind-ok (read_slot sto offset) _ w' (read_slot_lem l sto offset w')
          ∙ rw (left, here)
              (bind-ok (read_chunks sto fuel (length (drop 32 b)) (offset + 1)) _ w'
                (rest.reads fuel (omega (arith, length-drop 32 b p))))
          ∙ ap (λ x. ok (x ++ drop 32 b) w') (to_be_bytes-take b all p)
          ∙ ap (λ x. ok x w') (append-take-drop 32 b))
