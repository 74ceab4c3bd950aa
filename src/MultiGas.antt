-- ===== src/MultiGas.antt =====
-- Multi-dimensional gas: crates/arbitrum/src/multigas/resources.rs.
-- `ResourceKind` is a data type, `index` its `as usize`; the array `[u64; 8]` is a list of numbers.
-- A loop `for i in 0..COUNT` over two arrays is a recursion on both lists; the lists have the same
-- length wherever the code runs, so the clauses for lists of different lengths are never reached.
-- `from_pairs` panics on overflow, which is `none` here.
mod Kind
pub mod Bounds
pub mod Clamp
pub mod Safe
pub mod Total
mod Tests
pub use Kind.*
use arb_reth.Prelude.{
  ℕ, ◌+◌, ◌-◌, ◌%◌, ◌^◌, min, Bool, true, false, ◌&&◌, Option, none, some, List, [], ◌∷◌, get_or,
  set, ltb, ◌==◌, if◌then◌else◌, u64_max, saturating_add, saturating_sub, wrapping_sub64,
}

pub record MultiGas : Type 0 where
  pub gas : List ℕ
  pub total : ℕ
  pub refund : ℕ

pub record Pair : Type 0 where
  pub kind : ResourceKind
  pub amount : ℕ

-- `overflowing_add` returns the sum modulo 2 ^ 64 and whether it wrapped.
pub saturating_scalar_add : ℕ → ℕ → ℕ × Bool
saturating_scalar_add a b =
    if ltb u64_max (a + b) then (u64_max, true) else ((a + b) % 2 ^ 64, false)

pub saturating_scalar_sub : ℕ → ℕ → ℕ × Bool
saturating_scalar_sub a b = if ltb a b then (0, true) else (a - b, false)

-- `MultiGas::default`, also `MultiGas::zero`.
abbrev pub zero_gas : MultiGas
zero_gas = record { gas = 0 ∷ 0 ∷ 0 ∷ 0 ∷ 0 ∷ 0 ∷ 0 ∷ 0 ∷ []; total = 0; refund = 0 }

-- `MultiGas::new`.
pub new : ResourceKind → ℕ → MultiGas
new kind amount = record { gas = set zero_gas.gas (index kind) amount; total = amount; refund = 0 }

-- The loop of `recompute_total`: the total so far and whether it overflowed.
pub sum_loop : List ℕ → ℕ → ℕ × Bool
unfolding saturating_scalar_add
sum_loop [] total = (total, false)
sum_loop (g ∷ gas) total =
    let r = saturating_scalar_add total g in
    let rest = sum_loop gas r.0 in if r.1 then (u64_max, true) else rest

pub recompute_total : MultiGas → MultiGas × Bool
unfolding sum_loop
recompute_total g = let r = sum_loop g.gas 0 in (record g { total = r.0 }, r.1)

pub assign_pairs : List Pair → List ℕ → List ℕ
assign_pairs [] gas = gas
assign_pairs (p ∷ ps) gas = assign_pairs ps (set gas (index p.kind) p.amount)

pub from_pairs : List Pair → Option MultiGas
unfolding assign_pairs recompute_total
from_pairs ps =
    let r = recompute_total (record zero_gas { gas = assign_pairs ps zero_gas.gas }) in
    if r.1 then none else some r.0

unfoldable pub of_computation : ℕ → MultiGas
unfolding new
of_computation amount = new computation amount

unfoldable pub of_history_growth : ℕ → MultiGas
unfolding new
of_history_growth amount = new history_growth amount

unfoldable pub of_storage_access : ℕ → MultiGas
unfolding new
of_storage_access amount = new storage_access amount

unfoldable pub of_storage_growth : ℕ → MultiGas
unfolding new
of_storage_growth amount = new storage_growth amount

unfoldable pub of_l1_calldata : ℕ → MultiGas
unfolding new
of_l1_calldata amount = new l1_calldata amount

unfoldable pub of_l2_calldata : ℕ → MultiGas
unfolding new
of_l2_calldata amount = new l2_calldata amount

unfoldable pub of_wasm_computation : ℕ → MultiGas
unfolding new
of_wasm_computation amount = new wasm_computation amount

pub get : MultiGas → ResourceKind → ℕ
get g kind = get_or g.gas (index kind) 0

-- `MultiGas::with`; the flag is true on overflow, and the value is then unchanged.
pub with_amount : MultiGas → ResourceKind → ℕ → MultiGas × Bool
unfolding saturating_scalar_add get
with_amount g kind amount =
    let r = saturating_scalar_add (wrapping_sub64 g.total (get g kind)) amount in
    if r.1
    then (g, true)
    else (record g { gas = set g.gas (index kind) amount; total = r.0 }, false)

abbrev pub get_refund : MultiGas → ℕ
get_refund g = g.refund

pub with_refund : MultiGas → ℕ → MultiGas
with_refund g amount = record g { refund = amount }

pub single_gas : MultiGas → ℕ
single_gas g = saturating_sub g.total g.refund

all_zero : List ℕ → Bool
all_zero [] = true
all_zero (x ∷ xs) = x == 0 && all_zero xs

pub is_zero : MultiGas → Bool
unfolding all_zero
is_zero g = g.total == 0 && (g.refund == 0 && all_zero g.gas)

-- The loop of `safe_add`; `none` is the early return on overflow.
pub add_loop : List ℕ → List ℕ → Option (List ℕ)
unfolding saturating_scalar_add
add_loop [] ys = some []
add_loop (x ∷ xs) [] = some (x ∷ xs)
add_loop (x ∷ xs) (y ∷ ys) =
    let r = saturating_scalar_add x y in
    let rest = add_loop xs ys in
    if r.1 then none else elim rest [ none ↦ none | some zs ↦ some (r.0 ∷ zs) ]

-- The part of `safe_add` behind its loop.
pub add_scalars : MultiGas → MultiGas → List ℕ → MultiGas × Bool
unfolding saturating_scalar_add
add_scalars g x gas =
    let total = saturating_scalar_add g.total x.total in
    let refund = saturating_scalar_add g.refund x.refund in
    if total.1
    then (g, true)
    else if refund.1
    then (g, true)
    else (record { gas = gas; total = total.0; refund = refund.0 }, false)

pub safe_add : MultiGas → MultiGas → MultiGas × Bool
unfolding add_loop add_scalars
safe_add g x = elim (add_loop g.gas x.gas) [ none ↦ (g, true) | some gas ↦ add_scalars g x gas ]

pub saturating_add_loop : List ℕ → List ℕ → List ℕ
saturating_add_loop [] ys = []
saturating_add_loop (x ∷ xs) [] = x ∷ xs
saturating_add_loop (x ∷ xs) (y ∷ ys) = saturating_add u64_max x y ∷ saturating_add_loop xs ys

-- `MultiGas::saturating_add`, and in place `saturating_add_into`.
pub add_saturating : MultiGas → MultiGas → MultiGas
unfolding saturating_add_loop
add_saturating g x = record {
  gas = saturating_add_loop g.gas x.gas;
  total = saturating_add u64_max g.total x.total;
  refund = saturating_add u64_max g.refund x.refund;
}

-- The loop of `safe_sub`; `none` is the early return on underflow.
pub sub_loop : List ℕ → List ℕ → Option (List ℕ)
unfolding saturating_scalar_sub
sub_loop [] ys = some []
sub_loop (x ∷ xs) [] = some (x ∷ xs)
sub_loop (x ∷ xs) (y ∷ ys) =
    let r = saturating_scalar_sub x y in
    let rest = sub_loop xs ys in
    if r.1 then none else elim rest [ none ↦ none | some zs ↦ some (r.0 ∷ zs) ]

-- The part of `safe_sub` behind its loop: the refund, then the total anew.
pub sub_refund : MultiGas → MultiGas → List ℕ → MultiGas × Bool
unfolding saturating_scalar_sub recompute_total
sub_refund g x gas =
    let refund = saturating_scalar_sub g.refund x.refund in
    if refund.1
    then (g, true)
    else ((recompute_total (record g { gas = gas; refund = refund.0 })).0, false)

pub safe_sub : MultiGas → MultiGas → MultiGas × Bool
unfolding sub_loop sub_refund
safe_sub g x = elim (sub_loop g.gas x.gas) [ none ↦ (g, true) | some gas ↦ sub_refund g x gas ]

pub saturating_sub_loop : List ℕ → List ℕ → List ℕ
saturating_sub_loop [] ys = []
saturating_sub_loop (x ∷ xs) [] = x ∷ xs
saturating_sub_loop (x ∷ xs) (y ∷ ys) = saturating_sub x y ∷ saturating_sub_loop xs ys

-- `MultiGas::saturating_sub`.
pub sub_saturating : MultiGas → MultiGas → MultiGas
unfolding saturating_sub_loop recompute_total
sub_saturating g x =
    (recompute_total (record g {
      gas = saturating_sub_loop g.gas x.gas;
      refund = saturating_sub g.refund x.refund;
    })).0

pub safe_increment : MultiGas → ResourceKind → ℕ → MultiGas × Bool
unfolding saturating_scalar_add get
safe_increment g kind amount =
    let v = saturating_scalar_add (get g kind) amount in
    let total = saturating_scalar_add g.total amount in
    if v.1
    then (g, true)
    else if total.1
    then (g, true)
    else (record g { gas = set g.gas (index kind) v.0; total = total.0 }, false)

-- `MultiGas::saturating_increment`.
pub saturating_increment : MultiGas → ResourceKind → ℕ → MultiGas
unfolding get
saturating_increment g kind amount = record g {
  gas = set g.gas (index kind) (saturating_add u64_max (get g kind) amount);
  total = saturating_add u64_max g.total amount;
}

-- The amounts that `saturating_increment_into` leaves in place.
unfoldable pub saturating_increment_into : MultiGas → ResourceKind → ℕ → MultiGas
unfolding get
saturating_increment_into g kind amount = record {
  gas = set g.gas (index kind) (saturating_add u64_max (get g kind) amount);
  total = saturating_add u64_max g.total amount;
  refund = g.refund;
}

pub saturating_decrement : MultiGas → ResourceKind → ℕ → MultiGas
unfolding get
saturating_decrement g kind amount =
    let reduced = min amount (get g kind) in
    record g {
      gas = set g.gas (index kind) (get g kind - reduced);
      total = saturating_sub g.total reduced;
    }
