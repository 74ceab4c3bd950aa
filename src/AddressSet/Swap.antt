-- ===== src/AddressSet/Swap.antt =====
-- Lists without repetition, and the removal that moves the last entry into the gap.
use arb_reth.Prelude.{
  ℕ, zero, suc, ◌+◌, ◌-◌, ◌≤◌, ◌<◌, ◌≡◌, ◌≢◌, refl, sym, ◌∙◌, ap, arith, inl, inr, true, false,
  Bool-cases, ◌==◌, ==_iff, ==_ne, ==_refl, List, [], ◌∷◌, length, get_or, set, take, length-set,
  length-take, get_or-set_self, get_or-set_ne, if◌then◌else◌,
}
use arb_reth.AddressSet.Model.{place}

pub place-le-length : (a : ℕ) (xs : List ℕ) → place a xs ≤ length xs
unfolding place
place-le-length a [] = omega arith
place-le-length a (x ∷ xs) = ground (arith, place-le-length a xs)

-- The entry at the place of an address is the address.
pub get_or-place : (a : ℕ) (xs : List ℕ) (i : ℕ) → place a xs ≡ i + 1 → get_or xs i 0 ≡ a
unfolding place
get_or-place a [] i e = absurd (omega (arith, e))
get_or-place a (x ∷ xs) zero e = ground (arith, e)
get_or-place a (x ∷ xs) (suc i) e = get_or-place a xs i (ground (arith, e))

-- Every entry stands at its place, so no entry stands twice.
abbrev pub IsDistinct : List ℕ → Type 0
IsDistinct xs = (i : ℕ) → i < length xs → place (get_or xs i 0) xs ≡ i + 1

same_place :
    (xs : List ℕ) (i j : ℕ)
    → IsDistinct xs
    → i < length xs
    → j < length xs
    → get_or xs i 0 ≡ get_or xs j 0
    → i ≡ j
same_place xs i j d p q e = omega (arith, d i p, d j q, ap (λ a. place a xs) e)

-- The place is that of the first such entry.
place-get_or :
    (ys : List ℕ) (j : ℕ)
    → j < length ys
    → ((k : ℕ) → k < j → get_or ys k 0 ≢ get_or ys j 0)
    → place (get_or ys j 0) ys ≡ j + 1
unfolding place
place-get_or [] j p first = absurd (omega arith)
place-get_or (y ∷ ys) zero p first = rw (==_refl y) refl
place-get_or (y ∷ ys) (suc j) p first =
    rw (==_ne (get_or ys j 0) y (λ e. first 0 (omega arith) (sym e)))
      (rw (place-get_or ys j (omega arith) (λ k q. first (suc k) (omega arith))) (ground arith))

place-zero : (b : ℕ) (ys : List ℕ) → ((k : ℕ) → k < length ys → get_or ys k 0 ≢ b) → place b ys ≡ 0
place-zero b ys none = elim (Bool-cases (place b ys == 0)) [
  | inl zero_place ↦ (==_iff (place b ys) 0).0 zero_place
  | inr some ↦ absurd (
      none (place b ys - 1) (ground (arith, some, place-le-length b ys))
        (get_or-place b ys (place b ys - 1) (ground (arith, some))))
]

get_or-take : (n : ℕ) (xs : List ℕ) (j : ℕ) → j < n → get_or (take n xs) j 0 ≡ get_or xs j 0
get_or-take zero xs j p = absurd (omega arith)
get_or-take (suc n) [] j p = refl
get_or-take (suc n) (x ∷ xs) zero p = refl
get_or-take (suc n) (x ∷ xs) (suc j) p = get_or-take n xs j (omega arith)

-- The list without its last entry, which stands at offset `i` instead of the one there.
unfoldable pub swap_remove : ℕ → List ℕ → List ℕ
swap_remove i xs = take (length xs - 1) (set xs i (get_or xs (length xs - 1) 0))

-- The list without an address.
abbrev pub without : ℕ → List ℕ → List ℕ
without a xs = if place a xs == 0 then xs else swap_remove (place a xs - 1) xs

module _ (xs : List ℕ) (i : ℕ) (p : i < length xs) where
  pub length-swap_remove : length (swap_remove i xs) ≡ length xs - 1
  unfolding swap_remove
  length-swap_remove =
      length-take (length xs - 1) _ (omega (arith, length-set xs i (get_or xs (length xs - 1) 0)))

  -- Where an entry of the new list stood.
  abbrev pub source : ℕ → ℕ
  source j = if j == i then length xs - 1 else j

  pub get_or-swap_remove :
      (j : ℕ) → j < length xs - 1 → get_or (swap_remove i xs) j 0 ≡ get_or xs (source j) 0
  unfolding swap_remove
  get_or-swap_remove j q =
      get_or-take (length xs - 1) (set xs i (get_or xs (length xs - 1) 0)) j q
      ∙ (elim (Bool-cases (j == i)) [
        | inl here ↦ rw (here, (==_iff j i).0 here) (get_or-set_self xs i _ 0 p)
        | inr other ↦ rw other (get_or-set_ne xs i j _ 0 (λ e. ground (arith, e, other)))
      ])

  module _ (d : IsDistinct xs) where
    source_injective :
        (j k : ℕ) → j < length xs - 1 → k < length xs - 1 → source j ≡ source k → j ≡ k
    source_injective j k q r e = ground (arith, q, r, e, p)

    from_same :
        (j k : ℕ)
        → j < length xs - 1
        → k < length xs - 1
        → get_or (swap_remove i xs) j 0 ≡ get_or (swap_remove i xs) k 0
        → j ≡ k
    from_same j k q r e = source_injective j k q r (
        same_place xs (source j) (source k) d (ground (arith, q)) (ground (arith, r))
          (sym (get_or-swap_remove j q) ∙ e ∙ get_or-swap_remove k r))

    pub swap_remove-IsDistinct : IsDistinct (swap_remove i xs)
    swap_remove-IsDistinct j q = place-get_or (swap_remove i xs) j q (λ k r e. ground (
      arith,
      r,
      from_same k j (omega (arith, q, r, length-swap_remove)) (omega (arith, q, length-swap_remove))
          e,
    ))

    place_at :
        (b j : ℕ)
        → j < length xs - 1
        → get_or (swap_remove i xs) j 0 ≡ b
        → place b (swap_remove i xs) ≡ j + 1
    place_at b j q e =
        ap (λ x. place x (swap_remove i xs)) (sym e)
        ∙ swap_remove-IsDistinct j (omega (arith, q, length-swap_remove))

    -- The entry that is removed stands nowhere in the new list.
    removed :
        (b k : ℕ)
        → (b == get_or xs i 0) ≡ true
        → k < length xs - 1
        → get_or (swap_remove i xs) k 0 ≢ b
    removed b k gone q e = ground (
      arith,
      q,
      p,
      same_place xs (source k) i d (ground (arith, q)) p
          (sym (get_or-swap_remove k q) ∙ e ∙ (==_iff b (get_or xs i 0)).0 gone),
    )

    -- Neither does an address that stood nowhere in the old one.
    not_added : (b k : ℕ) → place b xs ≡ 0 → k < length xs - 1 → get_or (swap_remove i xs) k 0 ≢ b
    not_added b k absent q e = omega (
      arith,
      absent,
      d (source k) (ground (arith, q)),
      ap (λ x. place x xs) (sym (get_or-swap_remove k q) ∙ e),
    )

    -- An address that stands at an offset of the old list which is not `i`.
    kept : (b j : ℕ) → (b == get_or xs i 0) ≡ false → place b xs ≡ j + 1 → j ≢ i
    kept b j stays at e = ground (arith, stays, get_or-place b xs i (at ∙ ap (λ n. n + 1) e))

    -- The places after the removal: none for the entry that is removed, its place for the last entry,
    -- and the place before for the others.
    pub place-swap_remove :
        (b : ℕ)
        → place b (swap_remove i xs) ≡ (
            if b == get_or xs i 0 then 0 else if place b xs == length xs then i + 1 else place b xs)
    place-swap_remove b = elim (Bool-cases (b == get_or xs i 0)) [
      | inl gone ↦ rw gone (
          place-zero b (swap_remove i xs)
            (λ k q. removed b k gone (omega (arith, q, length-swap_remove))))
      | inr stays ↦ rw stays (elim (Bool-cases (place b xs == length xs)) [
        | inl last ↦ rw last (moved stays ((==_iff (place b xs) (length xs)).0 last))
        | inr inner ↦ rw inner (elim (Bool-cases (place b xs == 0)) [
          | inl absent ↦ nowhere ((==_iff (place b xs) 0).0 absent)
          | inr present ↦ stayed stays inner present
        ])
      ])
    ]
      where
        moved :
            (b == get_or xs i 0) ≡ false
            → place b xs ≡ length xs
            → place b (swap_remove i xs) ≡ i + 1
        moved stays last =
            place_at b i (omega (arith, p, kept b (length xs - 1) stays (omega (arith, last, p)))) (
              get_or-swap_remove i
                (omega (arith, p, kept b (length xs - 1) stays (omega (arith, last, p))))
              ∙ rw (==_refl i) (get_or-place b xs (length xs - 1) (omega (arith, last, p))))

        nowhere : place b xs ≡ 0 → place b (swap_remove i xs) ≡ place b xs
        nowhere absent =
            place-zero b (swap_remove i xs)
              (λ k q. not_added b k absent (omega (arith, q, length-swap_remove)))
            ∙ sym absent

        stayed :
            (b == get_or xs i 0) ≡ false
            → (place b xs == length xs) ≡ false
            → (place b xs == 0) ≡ false
            → place b (swap_remove i xs) ≡ place b xs
        stayed stays inner present =
            place_at b (place b xs - 1) before (
              get_or-swap_remove (place b xs - 1) before
              ∙ rw (==_ne (place b xs - 1) i (kept b (place b xs - 1) stays one))
                  (get_or-place b xs (place b xs - 1) one))
            ∙ ground (arith, present)
          where
            one : place b xs ≡ place b xs - 1 + 1
            one = ground (arith, present)

            before : place b xs - 1 < length xs - 1
            before = ground (arith, inner, present, place-le-length b xs)
