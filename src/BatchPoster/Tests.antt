-- ===== src/BatchPoster/Tests.antt =====
-- `set_funds_due` on a table with a second poster.
use arb_reth.Prelude.{◌≡◌, refl, arith, [], ◌∷◌, ◌==◌, if◌then◌else◌}
use arb_reth.Prelude.Int.{pos, ◌+ℤ◌, ◌-ℤ◌}
use arb_reth.World.{World}
use arb_reth.World.Loop.{Leaves}
use arb_reth.Storage.Slot.{StorageSlot, value}
use arb_reth.BatchPoster.{BatchPosterState, set_funds_due}
use arb_reth.BatchPoster.Balance.{due, total_of, Balanced, set_funds_due-Balanced}
use arb_reth.TestHost.{test_host, test_store, blank}

abbrev poster : BatchPosterState
poster = record {
  funds_due = record { account = 7; slot = 1 };
  pay_to = record { account = 7; slot = 2 };
  table_total_funds_due = record { account = 7; slot = 3 };
}

abbrev second_poster : StorageSlot
second_poster = record { account = 7; slot = 4 }

-- The poster is due 30, the second 20.
abbrev owing : World test_host
owing = record blank {
  db = record {
    slots = λ a k. if k == 1 then 30 else if k == 3 then 50 else if k == 4 then 20 else 0;
    balances = λ a. 1000;
  };
}

set_funds_due-Balanced_example : Leaves (set_funds_due poster (pos 40)) owing (λ w'.
    (due test_store w' poster.funds_due ≡ pos 40)
    × Balanced test_store poster refl (second_poster ∷ []) w')
unfolding due total_of value ◌+ℤ◌ ◌-ℤ◌
set_funds_due-Balanced_example =
    set_funds_due-Balanced test_store poster refl owing (pos 40) (second_poster ∷ []) refl
      (omega arith) (omega arith) (omega arith) (refl, tt) (refl, tt) refl
