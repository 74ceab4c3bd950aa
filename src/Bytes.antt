-- ===== src/Bytes.antt =====
-- Big-endian bytes of the 256-bit words: `to_be_bytes`, `from_be_bytes`.
use native.Mathlib.Nat.{pow-suc}
use mathlib.Core.List.{append-nil, append_assoc}
use arb_reth.Prelude.{
  ℕ, zero, suc, ◌+◌, ◌*◌, ◌/◌, ◌%◌, ◌^◌, ◌<◌, ◌≡◌, refl, List, [], ◌∷◌, ◌++◌, arith, length,
  length-append, ◌∙◌, sym, ap, ap₂, AllLe, Bool, true, leb, leb→le, ◌&&◌, Bool-cases, inl, inr,
}

-- The last `k` bytes of a number, the highest first.
unfoldable pub to_be_bytes : ℕ → ℕ → List ℕ
to_be_bytes zero n = []
to_be_bytes (suc k) n = to_be_bytes k (n / 256) ++ (n % 256) ∷ []

pub to_be_bytes-suc : (k n : ℕ) → to_be_bytes (suc k) n ≡ to_be_bytes k (n / 256) ++ (n % 256) ∷ []
unfolding to_be_bytes
to_be_bytes-suc k n = refl

abbrev from_acc : ℕ → List ℕ → ℕ
from_acc acc [] = acc
from_acc acc (b ∷ bs) = from_acc (acc * 256 + b) bs

unfoldable pub from_be_bytes : List ℕ → ℕ
from_be_bytes bs = from_acc 0 bs

from_acc-append :
    (acc : ℕ) (xs ys : List ℕ) → from_acc acc (xs ++ ys) ≡ from_acc (from_acc acc xs) ys
from_acc-append acc [] ys = refl
from_acc-append acc (x ∷ xs) ys = from_acc-append (acc * 256 + x) xs ys

pub from_be_bytes-append_one :
    (xs : List ℕ) (b : ℕ) → from_be_bytes (xs ++ b ∷ []) ≡ from_be_bytes xs * 256 + b
unfolding from_be_bytes
from_be_bytes-append_one xs b = from_acc-append 0 xs (b ∷ [])

pub length-to_be_bytes : (k n : ℕ) → length (to_be_bytes k n) ≡ k
unfolding to_be_bytes
length-to_be_bytes zero n = refl
length-to_be_bytes (suc k) n =
    omega (
      arith,
      length-append (to_be_bytes k (n / 256)) (n % 256 ∷ []),
      length-to_be_bytes k (n / 256),
    )

-- A number below 256 ^ k is read back from its k bytes.
pub from_be_bytes-to_be_bytes : (k n : ℕ) → n < 256 ^ k → from_be_bytes (to_be_bytes k n) ≡ n
unfolding to_be_bytes from_be_bytes
from_be_bytes-to_be_bytes zero n h = omega arith
from_be_bytes-to_be_bytes (suc k) n h =
    from_be_bytes-append_one (to_be_bytes k (n / 256)) (n % 256)
    ∙ rw (from_be_bytes-to_be_bytes k (n / 256) (omega (arith, pow-suc 256 k))) (omega arith)

plus_zero : (k : ℕ) → k + 0 ≡ k
plus_zero k = omega arith

plus_suc : (k n : ℕ) → k + suc n ≡ suc k + n
plus_suc k n = omega arith

to_be_bytes-from_acc :
    (k a : ℕ) (bs : List ℕ)
    → AllLe 255 bs
    → to_be_bytes (k + length bs) (from_acc a bs) ≡ to_be_bytes k a ++ bs
unfolding to_be_bytes
to_be_bytes-from_acc k a [] p =
    ap (λ n. to_be_bytes n a) (plus_zero k) ∙ sym (append-nil (to_be_bytes k a))
to_be_bytes-from_acc k a (b ∷ bs) p =
    ap (λ n. to_be_bytes n (from_acc (a * 256 + b) bs)) (plus_suc k (length bs))
    ∙ to_be_bytes-from_acc (suc k) (a * 256 + b) bs p.1
    ∙ ap₂ (λ q r. (to_be_bytes k q ++ r ∷ []) ++ bs) (omega (arith, p.0)) (omega (arith, p.0))
    ∙ append_assoc (to_be_bytes k a) (b ∷ []) bs

all_of : (n k : ℕ) → n ≡ k → k ≡ 0 + n
all_of n k e = omega arith

-- The bytes of the number that some bytes stand for are those bytes.
pub to_be_bytes-from_be_bytes :
    (bs : List ℕ) (k : ℕ) → length bs ≡ k → AllLe 255 bs → to_be_bytes k (from_be_bytes bs) ≡ bs
unfolding from_be_bytes to_be_bytes
to_be_bytes-from_be_bytes bs k e p = rw (all_of (length bs) k e) (to_be_bytes-from_acc 0 0 bs p)

abbrev pub IsBytes : List ℕ → Type 0
IsBytes bs = AllLe 255 bs

-- The test of every byte.
abbrev pub all_bytes : List ℕ → Bool
all_bytes [] = true
all_bytes (b ∷ bs) = leb b 255 && all_bytes bs

pub all_bytes→IsBytes : (bs : List ℕ) → all_bytes bs ≡ true → IsBytes bs
all_bytes→IsBytes [] p = tt
all_bytes→IsBytes (b ∷ bs) p = elim (Bool-cases (leb b 255)) [
  | inl small ↦ (leb→le b 255 small, all_bytes→IsBytes bs (rw small at p))
  | inr large ↦ absurd (ground (arith, p, large))
]
