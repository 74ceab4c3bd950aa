-- ===== src/MultiGas/Safe.antt =====
-- The checked operations of `MultiGas` against exact arithmetic on unbounded numbers.
use native.Mathlib.Decide.{dec_le}
use mathlib.Core.Logic.{ite, if_pos, if_neg}
use arb_reth.Prelude.{
  ℕ, ◌+◌, ◌-◌, ◌≤◌, ◌≡◌, refl, true, false, none, some, List, [], ◌∷◌, arith, sum, AllLe, u64_max,
  min,
}
use arb_reth.MultiGas.{
  MultiGas, sum_loop, add_loop, add_scalars, safe_add, sub_loop, sub_refund, safe_sub,
}
use arb_reth.MultiGas.Bounds.{IsWord}

-- Entry by entry, on numbers with no bound.
abbrev pub add_exact : List ℕ → List ℕ → List ℕ
add_exact [] ys = []
add_exact (x ∷ xs) [] = x ∷ xs
add_exact (x ∷ xs) (y ∷ ys) = (x + y) ∷ add_exact xs ys

abbrev pub sub_exact : List ℕ → List ℕ → List ℕ
sub_exact [] ys = []
sub_exact (x ∷ xs) [] = x ∷ xs
sub_exact (x ∷ xs) (y ∷ ys) = (x - y) ∷ sub_exact xs ys

abbrev pub EachLe : List ℕ → List ℕ → Type 0
EachLe [] xs = Unit
EachLe (y ∷ ys) [] = Unit
EachLe (y ∷ ys) (x ∷ xs) = (y ≤ x) × EachLe ys xs

AllLe-dec : (b : ℕ) (xs : List ℕ) → Dec (AllLe b xs)
AllLe-dec b [] = yes tt
AllLe-dec b (x ∷ xs) = elim (dec_le x b) [
  | yes p ↦ elim (AllLe-dec b xs) [ yes q ↦ yes (p, q) | no q ↦ no (λ h. q h.1) ]
  | no p ↦ no (λ h. p h.0)
]

EachLe-dec : (ys xs : List ℕ) → Dec (EachLe ys xs)
EachLe-dec [] xs = yes tt
EachLe-dec (y ∷ ys) [] = yes tt
EachLe-dec (y ∷ ys) (x ∷ xs) = elim (dec_le y x) [
  | yes p ↦ elim (EachLe-dec ys xs) [ yes q ↦ yes (p, q) | no q ↦ no (λ h. q h.1) ]
  | no p ↦ no (λ h. p h.0)
]

add_loop-some :
    (xs ys : List ℕ) → AllLe u64_max (add_exact xs ys) → add_loop xs ys ≡ some (add_exact xs ys)
unfolding add_loop
add_loop-some [] ys h = refl
add_loop-some (x ∷ xs) [] h = refl
add_loop-some (x ∷ xs) (y ∷ ys) h = ground (arith, add_loop-some xs ys h.1)

add_loop-none :
    (xs ys : List ℕ) → AllLe u64_max xs → ¬ AllLe u64_max (add_exact xs ys) → add_loop xs ys ≡ none
unfolding add_loop
add_loop-none [] ys p h = absurd (h tt)
add_loop-none (x ∷ xs) [] p h = absurd (h p)
add_loop-none (x ∷ xs) (y ∷ ys) p h = elim (dec_le (x + y) u64_max) [
  | yes small ↦ ground (arith, add_loop-none xs ys p.1 (λ q. h (small, q)))
  | no big ↦ ground arith
]

sub_loop-some : (xs ys : List ℕ) → EachLe ys xs → sub_loop xs ys ≡ some (sub_exact xs ys)
unfolding sub_loop
sub_loop-some [] ys h = refl
sub_loop-some (x ∷ xs) [] h = refl
sub_loop-some (x ∷ xs) (y ∷ ys) h = ground (arith, sub_loop-some xs ys h.1)

sub_loop-none : (xs ys : List ℕ) → ¬ EachLe ys xs → sub_loop xs ys ≡ none
unfolding sub_loop
sub_loop-none [] [] h = absurd (h tt)
sub_loop-none [] (y ∷ ys) h = absurd (h tt)
sub_loop-none (x ∷ xs) [] h = absurd (h tt)
sub_loop-none (x ∷ xs) (y ∷ ys) h = elim (dec_le y x) [
  | yes small ↦ ground (arith, sub_loop-none xs ys (λ q. h (small, q)))
  | no big ↦ ground arith
]

-- `recompute_total` clamps the exact sum.
pub sum_loop-eq-min :
    (xs : List ℕ) (t : ℕ) → t ≤ u64_max → (sum_loop xs t).0 ≡ min u64_max (t + sum xs)
unfolding sum_loop
sum_loop-eq-min [] t h = omega arith
sum_loop-eq-min (x ∷ xs) t h = ground (arith, sum_loop-eq-min xs (t + x))

-- The exact sums of two values fit: every kind, the total and the refund.
abbrev pub SumFits : MultiGas → MultiGas → Type 0
SumFits g x =
    AllLe u64_max (add_exact g.gas x.gas)
    × (g.total + x.total ≤ u64_max)
    × (g.refund + x.refund ≤ u64_max)

-- Entry by entry and in the total and the refund, on numbers with no bound.
abbrev pub exact_sum : MultiGas → MultiGas → MultiGas
exact_sum g x = record {
  gas = add_exact g.gas x.gas;
  total = g.total + x.total;
  refund = g.refund + x.refund;
}

pub safe_add_lem :
    (g x : MultiGas)
    → IsWord g
    → (SumFits g x → safe_add g x ≡ (exact_sum g x, false))
      × (¬ SumFits g x → safe_add g x ≡ (g, true))
unfolding safe_add
safe_add_lem g x w = (fits, overflows)
  where
    fits : SumFits g x → safe_add g x ≡ (exact_sum g x, false)
    fits h = rw (add_loop-some g.gas x.gas h.0, safe_add) (ground arith)

    overflows : ¬ SumFits g x → safe_add g x ≡ (g, true)
    overflows h = elim (AllLe-dec u64_max (add_exact g.gas x.gas)) [
      | yes p ↦ rw (add_loop-some g.gas x.gas p, safe_add) (scalars p)
      | no q ↦ rw (add_loop-none g.gas x.gas w.kinds q, safe_add) refl
    ]
      where
        scalars :
            AllLe u64_max (add_exact g.gas x.gas)
            → add_scalars g x (add_exact g.gas x.gas) ≡ (g, true)
        scalars p = elim (dec_le (g.total + x.total) u64_max) [
          | yes small ↦ elim (dec_le (g.refund + x.refund) u64_max) [
            | yes small' ↦ absurd (h (p, small, small'))
            | no big ↦ ground arith
          ]
          | no big ↦ ground arith
        ]

-- Every kind and the refund of `x` is at most that of `g`.
abbrev pub Covers : MultiGas → MultiGas → Type 0
Covers g x = EachLe x.gas g.gas × (x.refund ≤ g.refund)

-- What is left of each kind and of the refund, with the total summed anew and held at 64 bits.
abbrev pub exact_difference : MultiGas → MultiGas → MultiGas
exact_difference g x = record {
  gas = sub_exact g.gas x.gas;
  total = min u64_max (sum (sub_exact g.gas x.gas));
  refund = g.refund - x.refund;
}

pub safe_sub_lem :
    (g x : MultiGas)
    → (Covers g x → safe_sub g x ≡ (exact_difference g x, false))
      × (¬ Covers g x → safe_sub g x ≡ (g, true))
unfolding safe_sub
safe_sub_lem g x = (covered, underflows)
  where
    covered : Covers g x → safe_sub g x ≡ (exact_difference g x, false)
    covered h =
        rw (sub_loop-some g.gas x.gas h.0, safe_sub)
          (ground (arith, sum_loop-eq-min (sub_exact g.gas x.gas) 0))

    underflows : ¬ Covers g x → safe_sub g x ≡ (g, true)
    underflows h = elim (EachLe-dec x.gas g.gas) [
      | yes p ↦ rw (sub_loop-some g.gas x.gas p, safe_sub) (refunds p)
      | no q ↦ rw (sub_loop-none g.gas x.gas q, safe_sub) refl
    ]
      where
        refunds : EachLe x.gas g.gas → sub_refund g x (sub_exact g.gas x.gas) ≡ (g, true)
        refunds p = elim (dec_le x.refund g.refund) [
          | yes small ↦ absurd (h (p, small))
          | no big ↦ ground arith
        ]

pub SumFits-dec : (g x : MultiGas) → Dec (SumFits g x)
SumFits-dec g x = elim (AllLe-dec u64_max (add_exact g.gas x.gas)) [
  | yes p ↦ elim (dec_le (g.total + x.total) u64_max) [
    | yes q ↦ elim (dec_le (g.refund + x.refund) u64_max) [
      | yes r ↦ yes (p, q, r)
      | no r ↦ no (λ h. r h.2)
    ]
    | no q ↦ no (λ h. q h.1)
  ]
  | no p ↦ no (λ h. p h.0)
]

pub Covers-dec : (g x : MultiGas) → Dec (Covers g x)
Covers-dec g x = elim (EachLe-dec x.gas g.gas) [
  | yes p ↦ elim (dec_le x.refund g.refund) [ yes q ↦ yes (p, q) | no q ↦ no (λ h. q h.1) ]
  | no p ↦ no (λ h. p h.0)
]

-- For a representable first argument `safe_add` is exact addition with the flag down if every kind, the
-- total and the refund fit in 64 bits, and otherwise its first argument unchanged with the flag up.
pub safe_add-eq-ite :
    (g x : MultiGas)
    → IsWord g
    → safe_add g x ≡ ite (SumFits-dec g x) (exact_sum g x, false) (g, true)
safe_add-eq-ite g x w = elim (SumFits-dec g x) [
  | yes c ↦ rw (if_pos (SumFits-dec g x) c) ((safe_add_lem g x w).0 c)
  | no c ↦ rw (if_neg (SumFits-dec g x) c) ((safe_add_lem g x w).1 c)
]

-- `safe_sub` subtracts each kind and the refund exactly, with the flag down and the total summed anew
-- from what is left (held at 64 bits), if no kind and not the refund underflows; otherwise it returns
-- its first argument unchanged with the flag up.
pub safe_sub-eq-ite :
    (g x : MultiGas) → safe_sub g x ≡ ite (Covers-dec g x) (exact_difference g x, false) (g, true)
safe_sub-eq-ite g x = elim (Covers-dec g x) [
  | yes c ↦ rw (if_pos (Covers-dec g x) c) ((safe_sub_lem g x).0 c)
  | no c ↦ rw (if_neg (Covers-dec g x) c) ((safe_sub_lem g x).1 c)
]
