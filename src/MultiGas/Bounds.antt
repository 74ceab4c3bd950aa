-- ===== src/MultiGas/Bounds.antt =====
-- The representation of `MultiGas`, eight amounts, each of them, the total and the refund a `u64`, and
-- its updates.
use arb_reth.Prelude.{ℕ, ◌≤◌, ◌≡◌, length, AllLe, u64_max}
use arb_reth.MultiGas.Kind.{ResourceKind}
use arb_reth.MultiGas.{
  MultiGas, with_refund, with_amount, safe_add, add_saturating, safe_sub, sub_saturating,
  safe_increment, saturating_increment, saturating_decrement,
}

pub record IsWord (g : MultiGas) : Type 0 where
  pub shape : length g.gas ≡ 8
  pub kinds : AllLe u64_max g.gas
  pub total_word : g.total ≤ u64_max
  pub refund_word : g.refund ≤ u64_max

-- A method that returns a new value of `MultiGas`.
pub data Update : Type 0 where
  with_amount_of saturating_increment_of saturating_decrement_of : ResourceKind → ℕ → Update
  safe_increment_of : ResourceKind → ℕ → Update
  safe_add_of add_saturating_of safe_sub_of sub_saturating_of : MultiGas → Update
  with_refund_of : ℕ → Update

-- What the method returns, without its overflow flag.
abbrev pub run_update : Update → MultiGas → MultiGas
run_update (with_amount_of k a) g = (with_amount g k a).0
run_update (saturating_increment_of k a) g = saturating_increment g k a
run_update (saturating_decrement_of k a) g = saturating_decrement g k a
run_update (safe_increment_of k a) g = (safe_increment g k a).0
run_update (safe_add_of x) g = (safe_add g x).0
run_update (add_saturating_of x) g = add_saturating g x
run_update (safe_sub_of x) g = (safe_sub g x).0
run_update (sub_saturating_of x) g = sub_saturating g x
run_update (with_refund_of a) g = with_refund g a

-- The arguments of a method are themselves 64-bit values.
abbrev pub ArgsFit : Update → Type 0
ArgsFit (with_amount_of k a) = a ≤ u64_max
ArgsFit (saturating_increment_of k a) = a ≤ u64_max
ArgsFit (saturating_decrement_of k a) = a ≤ u64_max
ArgsFit (safe_increment_of k a) = a ≤ u64_max
ArgsFit (safe_add_of x) = IsWord x
ArgsFit (add_saturating_of x) = IsWord x
ArgsFit (safe_sub_of x) = IsWord x
ArgsFit (sub_saturating_of x) = IsWord x
ArgsFit (with_refund_of a) = a ≤ u64_max
