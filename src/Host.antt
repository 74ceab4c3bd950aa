-- ===== src/Host.antt =====
-- What the sources call and do not contain: revm's database and journal, and keccak256. A host is a
-- record of those calls; `IsStore` states what the code relies on when the calls succeed.
use arb_reth.Prelude.{
  ℕ, ◌-◌, ◌≤◌, ◌<◌, ◌≡◌, ◌≢◌, ◌&&◌, Option, some, none, List, ◌==◌, if◌then◌else◌,
}

pub data Result (E A : Type 0) : Type 0 where
  done : A → Result E A
  fail : E → Result E A

pub record Host : Type 1 where
  pub State : Type 0
  pub Error : Type 0
  -- `Database::storage(account, slot)`.
  pub storage : State → ℕ → ℕ → Result Error ℕ
  -- `JournalTr::sstore(account, slot, value)`.
  pub sstore : State → ℕ → ℕ → ℕ → Result Error State
  -- `JournalTr::transfer(from, to, amount)`: none if it reports a `TransferError`.
  pub transfer : State → ℕ → ℕ → ℕ → Result Error (Option State)
  -- `JournalTr::load_account(account)`: the balance of the account.
  pub load_account : State → ℕ → Result Error (ℕ × State)
  -- `keccak256`, from bytes to 32 bytes.
  pub keccak256 : List ℕ → List ℕ

-- The host is a store: every slot has a value, a read returns it and a later read sees what was
-- written. The sources read through `Database::storage` and write through `JournalTr::sstore`, so
-- they rely on a context whose database shows the journal's writes.
pub record IsStore (h : Host) : Type 0 where
  pub slot : h.State → ℕ → ℕ → ℕ
  pub write : h.State → ℕ → ℕ → ℕ → h.State
  pub storage_done : (s : h.State) (a k : ℕ) → h.storage s a k ≡ done (slot s a k)
  pub sstore_done : (s : h.State) (a k v : ℕ) → h.sstore s a k v ≡ done (write s a k v)
  pub slot-write :
      (s : h.State) (a k v b j : ℕ)
      → slot (write s a k v) b j ≡ (if a == b && k == j then v else slot s b j)

-- The host is a journal over a database: a read of the database returns what was committed, and the
-- journal keeps what was written, which a read of the database does not see before a commit. Nothing
-- commits during a call.
pub record IsJournal (h : Host) : Type 0 where
  pub committed : h.State → ℕ → ℕ → ℕ
  pub pending : h.State → ℕ → ℕ → ℕ
  pub write : h.State → ℕ → ℕ → ℕ → h.State
  pub storage_done : (s : h.State) (a k : ℕ) → h.storage s a k ≡ done (committed s a k)
  pub sstore_done : (s : h.State) (a k v : ℕ) → h.sstore s a k v ≡ done (write s a k v)
  pub committed-write :
      (s : h.State) (a k v b j : ℕ) → committed (write s a k v) b j ≡ committed s b j
  pub pending-write :
      (s : h.State) (a k v b j : ℕ)
      → pending (write s a k v) b j ≡ (if a == b && k == j then v else pending s b j)

-- The journal keeps balances: a transfer moves what the sender has, and commits nothing.
pub record HasBalances (h : Host) (j : IsJournal h) : Type 0 where
  pub balance : h.State → ℕ → ℕ
  pub moved : h.State → ℕ → ℕ → ℕ → h.State
  pub transfer_done :
      (s : h.State) (from to amount : ℕ)
      → amount ≤ balance s from
      → h.transfer s from to amount ≡ done (some (moved s from to amount))
  pub committed-moved :
      (s : h.State) (from to amount a k : ℕ)
      → j.committed (moved s from to amount) a k ≡ j.committed s a k
  pub balance-write : (s : h.State) (a k v b : ℕ) → balance (j.write s a k v) b ≡ balance s b
  pub balance-moved_from :
      (s : h.State) (from to amount : ℕ)
      → from ≢ to
      → amount ≤ balance s from
      → balance (moved s from to amount) from ≡ balance s from - amount

-- The host keeps balances: a transfer moves an amount that the sender has and reports an error for
-- one that it has not (the supply fits in 256 bits, so the recipient's balance does not overflow),
-- loading an account returns its balance, and neither touches a slot.
pub record IsBank (h : Host) (l : IsStore h) : Type 0 where
  pub balance : h.State → ℕ → ℕ
  pub moved : h.State → ℕ → ℕ → ℕ → h.State
  pub loaded : h.State → ℕ → h.State
  pub transfer_done :
      (s : h.State) (from to amount : ℕ)
      → amount ≤ balance s from
      → h.transfer s from to amount ≡ done (some (moved s from to amount))
  pub transfer_short :
      (s : h.State) (from to amount : ℕ)
      → balance s from < amount
      → h.transfer s from to amount ≡ done none
  pub load_done : (s : h.State) (a : ℕ) → h.load_account s a ≡ done (balance s a, loaded s a)
  pub slot-moved :
      (s : h.State) (from to amount a k : ℕ) → l.slot (moved s from to amount) a k ≡ l.slot s a k
  pub slot-loaded : (s : h.State) (b a k : ℕ) → l.slot (loaded s b) a k ≡ l.slot s a k
  pub balance-write : (s : h.State) (a k v b : ℕ) → balance (l.write s a k v) b ≡ balance s b
  pub balance-loaded : (s : h.State) (a b : ℕ) → balance (loaded s a) b ≡ balance s b
