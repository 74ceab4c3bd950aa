-- ===== src/TestJournal.antt =====
-- A host for the tests whose reads see what was committed: its state has the committed slots, those
-- that the journal has, and the balances.
use arb_reth.Prelude.{
  ℕ, ◌-◌, ◌+◌, ◌≤◌, ◌≡◌, ◌≢◌, [], ◌∷◌, refl, false, none, some, leb, ◌&&◌, ◌==◌, arith,
  if◌then◌else◌,
}
use arb_reth.Host.{Host, IsJournal, HasBalances, done}
use arb_reth.MultiGas.{zero_gas}
use arb_reth.World.{World}
use arb_reth.Storage.Space.{Storage}
use arb_reth.TestTable.{table_hash}

pub record Journal : Type 0 where
  pub committed : ℕ → ℕ → ℕ
  pub pending : ℕ → ℕ → ℕ
  pub balances : ℕ → ℕ

abbrev pub write_pending : ℕ → ℕ → ℕ → Journal → Journal
write_pending a k v s = record s { pending = λ b j. if a == b && k == j then v else s.pending b j }

abbrev pub move_balance : ℕ → ℕ → ℕ → Journal → Journal
move_balance from to amount s = record s {
  balances = λ b.
      if b == from
      then s.balances b - amount
      else if b == to
      then s.balances b + amount
      else s.balances b;
}

instance abbrev pub journal_host : Host
journal_host = record {
  State = Journal;
  Error = Unit {0};
  storage = λ s a k. done (s.committed a k);
  sstore = λ s a k v. done (write_pending a k v s);
  transfer = λ s from to amount.
      done (if leb amount (s.balances from) then some (move_balance from to amount s) else none);
  load_account = λ s a. done (s.balances a, s);
  keccak256 = table_hash;
}

abbrev pub test_journal : IsJournal journal_host
test_journal = record {
  committed = λ s a k. s.committed a k;
  pending = λ s a k. s.pending a k;
  write = λ s a k v. write_pending a k v s;
  storage_done = λ s a k. refl;
  sstore_done = λ s a k v. refl;
  committed-write = λ s a k v b j. refl;
  pending-write = λ s a k v b j. refl;
}

pub journal_moves :
    (s : Journal) (from to amount : ℕ)
    → amount ≤ s.balances from
    → journal_host.transfer s from to amount ≡ done (some (move_balance from to amount s))
journal_moves s from to amount p = ground arith

pub balance-move_balance :
    (s : Journal) (from to amount : ℕ)
    → from ≢ to
    → amount ≤ s.balances from
    → (move_balance from to amount s).balances from ≡ s.balances from - amount
balance-move_balance s from to amount ne p = ground arith

abbrev pub journal_balances : HasBalances journal_host test_journal
journal_balances = record {
  balance = λ s a. s.balances a;
  moved = λ s from to amount. move_balance from to amount s;
  transfer_done = journal_moves;
  committed-moved = λ s from to amount a k. refl;
  balance-write = λ s a k v b. refl;
  balance-moved_from = balance-move_balance;
}

-- Every slot is committed to one number, and every account has a balance of 1000.
abbrev pub filled : ℕ → World journal_host
filled n = record {
  db = record { committed = λ a k. n; pending = λ a k. n; balances = λ a. 1000 };
  burner = record { gas_burnt = zero_gas; tracing_info = none; read_only = false };
  events = [];
}

abbrev pub journal_storage : Storage
journal_storage = record { account = 7; storage_key = 1 ∷ 2 ∷ [] }
