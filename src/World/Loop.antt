-- ===== src/World/Loop.antt =====
-- A loop over a range whose every round returns and moves an invariant on by one.
use arb_reth.Prelude.{ℕ, zero, suc, ◌+◌, ◌<◌, ◌≡◌, refl, ◌∙◌, arith}
use arb_reth.Host.{Host}
use arb_reth.World.{World, M, ok, ◌>>◌, for_range, bind-ok}

reached : (limit from : ℕ) → from + 0 ≡ limit → from ≡ limit
reached limit from e = omega arith

module _ ⦃h : Host⦄ where
  -- A call returns, and leaves a world of which `P` holds.
  pub record Leaves (call : M (Unit {0})) (w : World h) (P : World h → Type 0) : Type 0 where
    pub after : World h
    pub returned : call w ≡ ok tt after
    pub left_with : P after

  pub Leaves-then :
      (m k : M (Unit {0})) (w : World h) (P Q : World h → Type 0)
      → Leaves m w P
      → ((w' : World h) → P w' → Leaves k w' Q)
      → Leaves (m >> k) w Q
  Leaves-then m k w P Q first second =
      let rest = second first.after first.left_with in
      record {
        after = rest.after;
        returned = bind-ok m _ w first.returned ∙ rest.returned;
        left_with = rest.left_with;
      }

  module _ (body : ℕ → M (Unit {0})) (I : ℕ → World h → Type 0) (limit : ℕ)
      (round : (i : ℕ) (w : World h) → i < limit → I i w → Leaves (body i) w (I (i + 1))) where
    pub for_range_lem :
        (left from : ℕ) (w : World h)
        → from + left ≡ limit
        → I from w
        → Leaves (for_range body left from) w (I limit)
    unfolding for_range
    for_range_lem zero from w e i = record {
      after = w;
      returned = refl;
      left_with = rw (reached limit from e) at i;
    }
    for_range_lem (suc left) from w e i =
        Leaves-then (body from) (for_range body left (from + 1)) w (I (from + 1)) (I limit)
          (round from w (omega arith) i)
          (λ w' i'. for_range_lem left (from + 1) w' (omega arith) i')
