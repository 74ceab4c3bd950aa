-- ===== src/MultiGas/Tests.antt =====
-- Runs of the gas accounting, and its theorems at concrete values.
use arb_reth.Prelude.{◌+◌, ◌-◌, min, ◌≡◌, refl, true, false, [], ◌∷◌, arith, u64_max}
use mathlib.Core.Logic.{ite}
use arb_reth.MultiGas.{
  MultiGas, computation, get, add_saturating, sub_saturating, saturating_increment,
  saturating_decrement, safe_add, safe_sub, saturating_scalar_add,
}
use arb_reth.MultiGas.Bounds.{IsWord, Update, run_update}
use arb_reth.MultiGas.Clamp.{saturating-get}
use arb_reth.MultiGas.Safe.{
  SumFits-dec, Covers-dec, exact_sum, exact_difference, safe_add-eq-ite, safe_sub-eq-ite,
}
use arb_reth.MultiGas.Total.{IsClamped, update-IsTotalled, safe_sub-safe_add}

abbrev sample : MultiGas
sample = record { gas = 0 ∷ 5 ∷ 0 ∷ 8 ∷ 0 ∷ 0 ∷ 0 ∷ 2 ∷ []; total = 15; refund = 1 }

abbrev other : MultiGas
other = record { gas = 0 ∷ 1 ∷ 0 ∷ 0 ∷ 0 ∷ 4 ∷ 0 ∷ 0 ∷ []; total = 5; refund = 2 }

sample-IsWord : IsWord sample
sample-IsWord = omega arith

other-IsWord : IsWord other
other-IsWord = omega arith

overflow_is_clamped : saturating_scalar_add u64_max 1 ≡ (u64_max, true)
unfolding saturating_scalar_add
overflow_is_clamped = refl

saturating-get_example :
    (get (add_saturating sample other) computation ≡ min u64_max (5 + 1))
    × ((add_saturating sample other).refund ≡ min u64_max (1 + 2))
    × (get (sub_saturating sample other) computation ≡ 5 - 1)
    × ((sub_saturating sample other).refund ≡ 1 - 2)
    × (get (saturating_increment sample computation u64_max) computation
        ≡ min u64_max (5 + u64_max))
    × ((saturating_increment sample computation u64_max).refund ≡ 1)
    × (get (saturating_decrement sample computation u64_max) computation ≡ 5 - u64_max)
    × ((saturating_decrement sample computation u64_max).refund ≡ 1)
unfolding get
saturating-get_example =
    saturating-get sample other computation computation u64_max sample-IsWord other-IsWord

safe_add-eq-ite_example :
    safe_add sample other
    ≡ ite (SumFits-dec sample other) (exact_sum sample other, false) (sample, true)
safe_add-eq-ite_example = safe_add-eq-ite sample other sample-IsWord

safe_sub-eq-ite_example :
    safe_sub sample other
    ≡ ite (Covers-dec sample other) (exact_difference sample other, false) (sample, true)
safe_sub-eq-ite_example = safe_sub-eq-ite sample other

update-IsTotalled_example : IsClamped (run_update (Update.add_saturating_of other) sample)
update-IsTotalled_example =
    update-IsTotalled (Update.add_saturating_of other) sample sample-IsWord other-IsWord refl refl

safe_sub-safe_add_example : safe_sub (safe_add sample other).0 other ≡ (sample, false)
safe_sub-safe_add_example =
    safe_sub-safe_add sample other sample-IsWord other-IsWord refl (omega arith)
