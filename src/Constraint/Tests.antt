-- ===== src/Constraint/Tests.antt =====
-- The theorem on weights at a concrete host: two kinds have a weight.
use arb_reth.Prelude.{ℕ, refl, Option, some, none, ◌==◌, if◌then◌else◌}
use arb_reth.World.Loop.{Leaves}
use arb_reth.Constraint.{open_multi_constraint, set_resource_weights}
use arb_reth.Constraint.Weights.{Weighted, set_resource_weights_lem}
use arb_reth.TestHost.{test_host, test_store, blank, test_storage, test_free}

abbrev two_weights : ℕ → Option ℕ
two_weights i = if i == 1 then some 5 else if i == 3 then some 9 else none

set_resource_weights_lem_example :
    Leaves
      (set_resource_weights (open_multi_constraint test_storage) two_weights)
      blank
      (Weighted test_store test_storage (test_free test_storage) two_weights)
set_resource_weights_lem_example =
    set_resource_weights_lem test_store test_storage (test_free test_storage) two_weights blank refl
