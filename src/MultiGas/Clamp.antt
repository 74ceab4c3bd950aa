-- ===== src/MultiGas/Clamp.antt =====
-- The saturating methods of `MultiGas`, kind by kind.
use arb_reth.Prelude.{
  ℕ, zero, suc, ◌+◌, ◌-◌, ◌≡◌, refl, ◌∙◌, ap, sym, arith, inl, inr, Bool-cases, min, List, [], ◌∷◌,
  length, set, ◌<◌, get_or, get_or-set_self, get_or-set_ne, ◌==◌, ==_iff, u64_max, if◌then◌else◌,
}
use arb_reth.MultiGas.Kind.{ResourceKind, index, index-lt-count}
use arb_reth.MultiGas.{
  MultiGas, get, add_saturating, saturating_add_loop, sub_saturating, saturating_sub_loop,
  saturating_increment, saturating_decrement,
}
use arb_reth.MultiGas.Bounds.{IsWord}

get_or-saturating_add_loop :
    (xs ys : List ℕ) (i : ℕ)
    → length xs ≡ length ys
    → get_or (saturating_add_loop xs ys) i 0 ≡ min u64_max (get_or xs i 0 + get_or ys i 0)
unfolding saturating_add_loop
get_or-saturating_add_loop [] [] i h = refl
get_or-saturating_add_loop [] (y ∷ ys) i h = absurd (omega (arith, h))
get_or-saturating_add_loop (x ∷ xs) [] i h = absurd (omega (arith, h))
get_or-saturating_add_loop (x ∷ xs) (y ∷ ys) zero h = ground arith
get_or-saturating_add_loop (x ∷ xs) (y ∷ ys) (suc i) h =
    get_or-saturating_add_loop xs ys i (omega (arith, h))

get_or-saturating_sub_loop :
    (xs ys : List ℕ) (i : ℕ)
    → length xs ≡ length ys
    → get_or (saturating_sub_loop xs ys) i 0 ≡ get_or xs i 0 - get_or ys i 0
unfolding saturating_sub_loop
get_or-saturating_sub_loop [] [] i h = refl
get_or-saturating_sub_loop [] (y ∷ ys) i h = absurd (omega (arith, h))
get_or-saturating_sub_loop (x ∷ xs) [] i h = absurd (omega (arith, h))
get_or-saturating_sub_loop (x ∷ xs) (y ∷ ys) zero h = ground arith
get_or-saturating_sub_loop (x ∷ xs) (y ∷ ys) (suc i) h =
    get_or-saturating_sub_loop xs ys i (omega (arith, h))

-- The array after a change of one kind.
get_or-set :
    (xs : List ℕ) (i j v : ℕ)
    → i < length xs
    → get_or (set xs i v) j 0 ≡ (if i == j then v else get_or xs j 0)
get_or-set xs i j v p = elim (Bool-cases (i == j)) [
  | inl same ↦
      rw same
        (ap (λ k. get_or (set xs i v) k 0) (sym ((==_iff i j).0 same)) ∙ get_or-set_self xs i v 0 p)
  | inr other ↦ rw other (get_or-set_ne xs i j v 0 (λ e. ground (arith, e, other)))
]

-- For two representable values, and for every kind: `saturating_add` gives the sum of its amounts, or
-- the largest 64-bit value if that is less, and of the refunds likewise; `saturating_sub` gives their
-- differences, or zero; `saturating_increment` and `saturating_decrement` of a kind do so to its
-- amount with the number that they are given, and keep the amounts of the other kinds and the refund.
pub saturating-get :
    (g x : MultiGas) (k j : ResourceKind) (a : ℕ)
    → IsWord g
    → IsWord x
    → (get (add_saturating g x) j ≡ min u64_max (get g j + get x j))
      × ((add_saturating g x).refund ≡ min u64_max (g.refund + x.refund))
      × (get (sub_saturating g x) j ≡ get g j - get x j)
      × ((sub_saturating g x).refund ≡ g.refund - x.refund)
      × (get (saturating_increment g k a) j
          ≡ (if index k == index j then min u64_max (get g k + a) else get g j))
      × ((saturating_increment g k a).refund ≡ g.refund)
      × (get (saturating_decrement g k a) j ≡ (if index k == index j then get g k - a else get g j))
      × ((saturating_decrement g k a).refund ≡ g.refund)
unfolding get add_saturating sub_saturating saturating_increment saturating_decrement
saturating-get g x k j a w v = (
  get_or-saturating_add_loop g.gas x.gas (index j) shapes,
  ground arith,
  get_or-saturating_sub_loop g.gas x.gas (index j) shapes,
  ground arith,
  get_or-set g.gas (index k) (index j) _ inside ∙ ground arith,
  refl,
  get_or-set g.gas (index k) (index j) _ inside ∙ ground arith,
  refl,
)
  where
    shapes : length g.gas ≡ length x.gas
    shapes = omega (arith, w.shape, v.shape)

    inside : index k < length g.gas
    inside = omega (arith, index-lt-count k, w.shape)
