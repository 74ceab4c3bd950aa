-- ===== src/MultiGas/Total.antt =====
-- The single-dimensional total against the amounts of the eight kinds.
use arb_reth.Prelude.{
  ℕ, ◌+◌, ◌-◌, ◌%◌, ◌^◌, ◌≤◌, ◌<◌, ◌≡◌, refl, false, List, [], ◌∷◌, arith, length, get_or, sum,
  AllLe, u64_max, ap₂, min, sum-set, get_or-le-sum, saturating_add, get_or-AllLe,
}
use arb_reth.MultiGas.Kind.{ResourceKind, index, index-lt-count}
use arb_reth.MultiGas.{
  MultiGas, with_amount, with_refund, safe_add, safe_sub, safe_increment, add_saturating,
  saturating_add_loop, saturating_increment, saturating_decrement, saturating_sub_loop,
  sub_saturating,
}
use arb_reth.MultiGas.Bounds.{IsWord, Update, ArgsFit, run_update}
use arb_reth.MultiGas.Safe.{
  add_exact, sub_exact, EachLe, SumFits, SumFits-dec, Covers-dec, safe_add_lem, safe_sub_lem,
  sum_loop-eq-min,
}

-- The total is the sum of the kinds.
abbrev pub IsExact : MultiGas → Type 0
IsExact g = g.total ≡ sum g.gas

-- The total is the sum of the kinds, held at the largest 64-bit value.
abbrev pub IsClamped : MultiGas → Type 0
IsClamped g = g.total ≡ min u64_max (sum g.gas)

sum-add_exact : (xs ys : List ℕ) → length xs ≡ length ys → sum (add_exact xs ys) ≡ sum xs + sum ys
sum-add_exact [] [] h = refl
sum-add_exact [] (y ∷ ys) h = absurd (omega arith)
sum-add_exact (x ∷ xs) [] h = absurd (omega arith)
sum-add_exact (x ∷ xs) (y ∷ ys) h = omega (arith, sum-add_exact xs ys (omega arith))

sum-sub_exact-le : (xs ys : List ℕ) → sum (sub_exact xs ys) ≤ sum xs
sum-sub_exact-le [] ys = omega arith
sum-sub_exact-le (x ∷ xs) [] = omega arith
sum-sub_exact-le (x ∷ xs) (y ∷ ys) = omega (arith, sum-sub_exact-le xs ys)

saturating_sub_loop-eq-sub_exact : (xs ys : List ℕ) → saturating_sub_loop xs ys ≡ sub_exact xs ys
unfolding saturating_sub_loop
saturating_sub_loop-eq-sub_exact [] ys = refl
saturating_sub_loop-eq-sub_exact (x ∷ xs) [] = refl
saturating_sub_loop-eq-sub_exact (x ∷ xs) (y ∷ ys) = rw (saturating_sub_loop-eq-sub_exact xs ys)

sum-saturating_add_loop :
    (xs ys : List ℕ)
    → length xs ≡ length ys
    → min u64_max (sum (saturating_add_loop xs ys)) ≡ min u64_max (sum xs + sum ys)
unfolding saturating_add_loop
sum-saturating_add_loop [] [] h = refl
sum-saturating_add_loop [] (y ∷ ys) h = absurd (omega arith)
sum-saturating_add_loop (x ∷ xs) [] h = absurd (omega arith)
sum-saturating_add_loop (x ∷ xs) (y ∷ ys) h =
    ground (arith, sum-saturating_add_loop xs ys (omega arith))

module _ (g : MultiGas) (w : IsWord g) where
  in_range : (k : ResourceKind) → index k < length g.gas
  in_range k = omega (arith, index-lt-count k, w.shape)

  -- `with`: where the flag stays down the total of an exact value moves with the kind's amount.
  with_amount-IsExact :
      (k : ResourceKind) (a : ℕ)
      → IsExact g
      → (with_amount g k a).1 ≡ false
      → IsExact (with_amount g k a).0
  unfolding with_amount
  with_amount-IsExact k a e f =
      ground
        (arith, sum-set g.gas (index k) a (in_range k), get_or-le-sum g.gas (index k), w.total_word)

  safe_increment-IsExact :
      (k : ResourceKind) (a : ℕ)
      → IsExact g
      → (safe_increment g k a).1 ≡ false
      → IsExact (safe_increment g k a).0
  unfolding safe_increment
  safe_increment-IsExact k a e f = ground (
    arith,
    sum-set g.gas (index k) ((get_or g.gas (index k) 0 + a) % 2 ^ 64) (in_range k),
    get_or-le-sum g.gas (index k),
    w.total_word,
  )

  saturating_decrement-IsExact :
      (k : ResourceKind) (a : ℕ) → IsExact g → IsExact (saturating_decrement g k a)
  unfolding saturating_decrement
  saturating_decrement-IsExact k a e = omega (
    arith,
    sum-set g.gas (index k) (get_or g.gas (index k) 0 - min a (get_or g.gas (index k) 0))
        (in_range k),
    get_or-le-sum g.gas (index k),
  )

  safe_sub-IsExact : (x : MultiGas) → IsExact g → IsExact (safe_sub g x).0
  safe_sub-IsExact x e = elim (Covers-dec g x) [
    | yes c ↦
        rw ((safe_sub_lem g x).0 c) (omega (arith, sum-sub_exact-le g.gas x.gas, w.total_word))
    | no c ↦ rw ((safe_sub_lem g x).1 c) e
  ]

  sub_saturating-IsExact : (x : MultiGas) → IsExact g → IsExact (sub_saturating g x)
  unfolding sub_saturating
  sub_saturating-IsExact x e = rw saturating_sub_loop-eq-sub_exact (
      omega (
        arith,
        sum_loop-eq-min (sub_exact g.gas x.gas) 0 (omega arith),
        sum-sub_exact-le g.gas x.gas,
        w.total_word,
      ))

  module _ (x : MultiGas) (v : IsWord x) where
    same_shape : length g.gas ≡ length x.gas
    same_shape = omega (arith, w.shape, v.shape)

    safe_add-IsExact : IsExact g → IsExact x → IsExact (safe_add g x).0
    safe_add-IsExact e f = elim (SumFits-dec g x) [
      | yes c ↦ rw ((safe_add_lem g x w).0 c) (omega (arith, sum-add_exact g.gas x.gas same_shape))
      | no c ↦ rw ((safe_add_lem g x w).1 c) e
    ]

    add_saturating-IsClamped : IsClamped g → IsClamped x → IsClamped (add_saturating g x)
    unfolding add_saturating
    add_saturating-IsClamped e f = ground (arith, sum-saturating_add_loop g.gas x.gas same_shape)

  saturating_increment-IsClamped :
      (k : ResourceKind) (a : ℕ) → IsClamped g → IsClamped (saturating_increment g k a)
  unfolding saturating_increment
  saturating_increment-IsClamped k a e = ground (
    arith,
    sum-set g.gas (index k) (saturating_add u64_max (get_or g.gas (index k) 0) a) (in_range k),
    get_or-le-sum g.gas (index k),
    get_or-AllLe u64_max g.gas (index k) w.kinds,
  )

-- What an update asks of its arguments: no overflow of those that report one, and an exact value.
abbrev pub ExactArgs : Update → MultiGas → Type 0
ExactArgs (Update.with_amount_of k a) g = (with_amount g k a).1 ≡ false
ExactArgs (Update.safe_increment_of k a) g = (safe_increment g k a).1 ≡ false
ExactArgs (Update.saturating_increment_of k a) g = Unit
ExactArgs (Update.saturating_decrement_of k a) g = Unit
ExactArgs (Update.safe_add_of x) g = IsExact x
ExactArgs (Update.add_saturating_of x) g = IsExact x
ExactArgs (Update.safe_sub_of x) g = Unit
ExactArgs (Update.sub_saturating_of x) g = Unit
ExactArgs (Update.with_refund_of a) g = Unit

-- The total that an update leaves: held at the largest value by those that saturate upwards, and
-- otherwise exact.
abbrev pub IsTotalled : Update → MultiGas → Type 0
IsTotalled (Update.saturating_increment_of k a) g = IsClamped g
IsTotalled (Update.add_saturating_of x) g = IsClamped g
IsTotalled (Update.with_amount_of k a) g = IsExact g
IsTotalled (Update.safe_increment_of k a) g = IsExact g
IsTotalled (Update.saturating_decrement_of k a) g = IsExact g
IsTotalled (Update.safe_add_of x) g = IsExact g
IsTotalled (Update.safe_sub_of x) g = IsExact g
IsTotalled (Update.sub_saturating_of x) g = IsExact g
IsTotalled (Update.with_refund_of a) g = IsExact g

IsExact-IsClamped : (g : MultiGas) → IsWord g → IsExact g → IsClamped g
IsExact-IsClamped g w e = omega (arith, e, w.total_word)

-- From a representable value whose total is the sum of its kinds: `with` and `safe_increment` that
-- report no overflow, `safe_add` of another such value, `safe_sub`, `saturating_sub`,
-- `saturating_decrement` and `with_refund` return a value whose total is again the sum of its kinds;
-- `saturating_increment`, and `saturating_add` of another such value, one whose total is the sum of
-- its kinds or the largest 64-bit value if that is less.
pub update-IsTotalled :
    (u : Update) (g : MultiGas)
    → IsWord g
    → ArgsFit u
    → IsExact g
    → ExactArgs u g
    → IsTotalled u (run_update u g)
unfolding with_refund
update-IsTotalled (Update.with_amount_of k a) g w p e x = with_amount-IsExact g w k a e x
update-IsTotalled (Update.safe_increment_of k a) g w p e x = safe_increment-IsExact g w k a e x
update-IsTotalled (Update.saturating_decrement_of k a) g w p e x =
    saturating_decrement-IsExact g w k a e
update-IsTotalled (Update.safe_add_of y) g w p e x = safe_add-IsExact g w y p e x
update-IsTotalled (Update.safe_sub_of y) g w p e x = safe_sub-IsExact g w y e
update-IsTotalled (Update.sub_saturating_of y) g w p e x = sub_saturating-IsExact g w y e
update-IsTotalled (Update.with_refund_of a) g w p e x = e
update-IsTotalled (Update.saturating_increment_of k a) g w p e x =
    saturating_increment-IsClamped g w k a (IsExact-IsClamped g w e)
update-IsTotalled (Update.add_saturating_of y) g w p e x =
    add_saturating-IsClamped g w y p (IsExact-IsClamped g w e) (IsExact-IsClamped y p x)

sub_exact-add_exact : (xs ys : List ℕ) → length xs ≡ length ys → sub_exact (add_exact xs ys) ys ≡ xs
sub_exact-add_exact [] [] h = refl
sub_exact-add_exact [] (y ∷ ys) h = refl
sub_exact-add_exact (x ∷ xs) [] h = refl
sub_exact-add_exact (x ∷ xs) (y ∷ ys) h =
    ap₂ ◌∷◌ (omega arith) (sub_exact-add_exact xs ys (omega arith))

EachLe-add_exact : (xs ys : List ℕ) → EachLe ys (add_exact xs ys)
EachLe-add_exact [] [] = tt
EachLe-add_exact [] (y ∷ ys) = tt
EachLe-add_exact (x ∷ xs) [] = tt
EachLe-add_exact (x ∷ xs) (y ∷ ys) = (omega arith, EachLe-add_exact xs ys)

-- `safe_sub` undoes `safe_add`: where the sum of two representable values fits and the first is
-- exact, subtracting the second from the sum gives back the first with no underflow.
pub safe_sub-safe_add :
    (g x : MultiGas)
    → IsWord g
    → IsWord x
    → IsExact g
    → SumFits g x
    → safe_sub (safe_add g x).0 x ≡ (g, false)
safe_sub-safe_add g x w v e fits = rw ((safe_add_lem g x w).0 fits) (
    rw ((safe_sub_lem sum_of x).0 (EachLe-add_exact g.gas x.gas, omega arith))
      (ground (arith, sub_exact-add_exact g.gas x.gas (same_shape g w x v), w.total_word)))
  where
    sum_of : MultiGas
    sum_of = record {
      gas = add_exact g.gas x.gas;
      total = g.total + x.total;
      refund = g.refund + x.refund;
    }

saturating_add_loop-eq-add_exact :
    (xs ys : List ℕ) → AllLe u64_max (add_exact xs ys) → saturating_add_loop xs ys ≡ add_exact xs ys
unfolding saturating_add_loop
saturating_add_loop-eq-add_exact [] ys h = refl
saturating_add_loop-eq-add_exact (x ∷ xs) [] h = refl
saturating_add_loop-eq-add_exact (x ∷ xs) (y ∷ ys) h =
    ground (arith, saturating_add_loop-eq-add_exact xs ys h.1)

-- For a representable first argument and where the sums fit, `saturating_add` returns what
-- `safe_add` does.
pub add_saturating-eq-safe_add :
    (g x : MultiGas) → IsWord g → SumFits g x → add_saturating g x ≡ (safe_add g x).0
unfolding add_saturating
add_saturating-eq-safe_add g x w fits =
    rw ((safe_add_lem g x w).0 fits)
      (ground (arith, saturating_add_loop-eq-add_exact g.gas x.gas fits.0))
