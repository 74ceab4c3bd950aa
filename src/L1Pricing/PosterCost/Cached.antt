-- ===== src/L1Pricing/PosterCost/Cached.antt =====
-- `get_poster_info` asked twice: the cache of the transaction does not change the answer.
use arb_reth.Prelude.{
  ℕ, ◌≡◌, refl, sym, ◌∙◌, ap, Bool, Bool-cases, inl, inr, true, false, Option, none, some, ◌==◌,
  saturating_mul, u256_max, if◌then◌else◌,
}
use arb_reth.Host.{Host, IsStore}
use arb_reth.World.{World}
use arb_reth.World.Ends.{Ends, Ends-pure, Ends-bind_ok}
use arb_reth.Storage.Slot.{after_get, get_lem, value}
use arb_reth.Storage.Typed.{get_big_uint}
use arb_reth.Storage.Typed.Laws.{held}
use arb_reth.L1Pricing.{L1PricingState, batch_poster_address, price_per_unit}
use arb_reth.L1Pricing.PosterCost.{
  PosterTransaction, Codec, cached_units, get_poster_info, get_poster_units_without_cache,
}

-- The units that are stored for a level are the units that are cached for it.
abbrev pub IsCache : {T : Type 0} → PosterTransaction T → Type 0
IsCache {T} ops =
    (tx : T) (level units : ℕ)
    → ops.get_cached_calldata_units (ops.set_cached_calldata_units tx level units) level
      ≡ some units

module _ (c : Codec) ⦃h : Host⦄ {T : Type 0} (ops : PosterTransaction T) (cache : IsCache ops) where
  -- What `get_poster_units_without_cache` computes.
  abbrev computed : T → ℕ → ℕ → ℕ
  computed tx poster level = get_poster_units_without_cache c ops tx poster level

  cached_units-none :
      (tx : T) (poster level : ℕ)
      → ops.get_cached_calldata_units tx level ≡ none
      → cached_units c ops tx poster level ≡ (
        computed tx poster level,
        ops.set_cached_calldata_units tx level (computed tx poster level),
      )
  unfolding cached_units
  cached_units-none tx poster level e = rw (e, cached_units) refl

  cached_units-some :
      (tx : T) (poster level units : ℕ)
      → ops.get_cached_calldata_units tx level ≡ some units
      → cached_units c ops tx poster level ≡ (units, tx)
  unfolding cached_units
  cached_units-some tx poster level units e = rw (e, cached_units) refl

  cached_units_twice :
      (tx : T) (poster level : ℕ)
      → cached_units c ops (cached_units c ops tx poster level).1 poster level
        ≡ cached_units c ops tx poster level
  cached_units_twice tx poster level = known (ops.get_cached_calldata_units tx level) refl
    where
      known :
          (found : Option ℕ)
          → ops.get_cached_calldata_units tx level ≡ found
          → cached_units c ops (cached_units c ops tx poster level).1 poster level
            ≡ cached_units c ops tx poster level
      known none e =
          ap (λ r. cached_units c ops r.1 poster level) (cached_units-none tx poster level e)
          ∙ cached_units-some _ poster level _ (cache tx level (computed tx poster level))
          ∙ sym (cached_units-none tx poster level e)
      known (some units) e =
          ap (λ r. cached_units c ops r.1 poster level) (cached_units-some tx poster level units e)

  module _ (l : IsStore h) (s : L1PricingState) where
    -- The answer: nothing for another poster, and else the units times the stored price.
    abbrev pub answer : T → ℕ → ℕ → World h → (ℕ × ℕ) × T
    answer tx poster level w =
        if poster == batch_poster_address
        then (
          (
            saturating_mul u256_max (held l w s.price_per_unit)
                (cached_units c ops tx poster level).0,
            (cached_units c ops tx poster level).0,
          ),
          (cached_units c ops tx poster level).1,
        )
        else ((0, 0), tx)

    answer_twice :
        (tx : T) (poster level : ℕ) (w w' : World h)
        → held l w' s.price_per_unit ≡ held l w s.price_per_unit
        → answer (answer tx poster level w).1 poster level w' ≡ answer tx poster level w
    answer_twice tx poster level w w' same = elim (Bool-cases (poster == batch_poster_address)) [
      | inl e ↦
          rw (e, same)
            (ap (λ r. ((saturating_mul u256_max (held l w s.price_per_unit) r.0, r.0), r.1))
              (cached_units_twice tx poster level))
      | inr e ↦ rw e refl
    ]

    get_poster_info_ends :
        (tx : T) (poster level : ℕ) (w : World h)
        → Ends (get_poster_info c ops s tx poster level) w (λ r w'.
          (r ≡ answer tx poster level w) × (held l w' s.price_per_unit ≡ held l w s.price_per_unit))
    unfolding get_poster_info price_per_unit get_big_uint after_get value
    get_poster_info_ends tx poster level w = decided (poster == batch_poster_address) refl
      where
        decided :
            (b : Bool)
            → (poster == batch_poster_address) ≡ b
            → Ends (get_poster_info c ops s tx poster level) w (λ r w'.
              (r ≡ answer tx poster level w)
              × (held l w' s.price_per_unit ≡ held l w s.price_per_unit))
        decided true e = rw (e) (
            Ends-bind_ok (get_big_uint s.price_per_unit) _ w (get_lem l s.price_per_unit w)
              (Ends-pure _ _ (refl, refl)))
        decided false e = rw (e) (Ends-pure _ w (refl, refl))

    -- On a host that is a store and for a transaction whose cache returns what it was given:
    -- `get_poster_info` returns the units times the stored price for the batch poster and nothing for
    -- another, and asked again of the transaction it leaves it returns the same cost, units and
    -- transaction.
    pub get_poster_info_twice :
        (tx : T) (poster level : ℕ) (w : World h)
        → Ends (get_poster_info c ops s tx poster level) w (λ r w'.
          (r ≡ answer tx poster level w)
          × Ends (get_poster_info c ops s r.1 poster level) w' (λ r' w''. r' ≡ r))
    get_poster_info_twice tx poster level w =
        let first = get_poster_info_ends tx poster level w in
        let second = get_poster_info_ends first.result.1 poster level first.after in
        record {
          result = first.result;
          after = first.after;
          returned = first.returned;
          left_with = (
            first.left_with.0,
            record {
              result = second.result;
              after = second.after;
              returned = second.returned;
              left_with =
                  second.left_with.0
                  ∙ ap (λ r. answer r.1 poster level first.after) first.left_with.0
                  ∙ answer_twice tx poster level w first.after first.left_with.1
                  ∙ sym first.left_with.0;
            },
          );
        }
