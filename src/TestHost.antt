-- ===== src/TestHost.antt =====
-- A host for the tests: its state is a function from accounts and slots to words and one from
-- accounts to balances, no call fails, and the hash of some bytes is the low 30 of their last 31,
-- their number and a zero.
use arb_reth.Prelude.{
  ℕ, ◌≤◌, ◌+◌, ◌*◌, ◌%◌, ◌∙◌, ap, ◌-◌, ◌<◌, ◌^◌, ◌≡◌, refl, false, none, some, leb, ◌&&◌, List, [],
  ◌∷◌, ◌++◌, arith, length, length-append, drop, drop-length_append, take-length_append, ◌==◌,
  if◌then◌else◌,
}
use arb_reth.Bytes.{
  to_be_bytes, from_be_bytes, from_be_bytes-append_one, length-to_be_bytes,
  from_be_bytes-to_be_bytes,
}
use arb_reth.Host.{Host, IsStore, IsBank, done}
use arb_reth.MultiGas.{zero_gas}
use arb_reth.World.{World}
use arb_reth.Storage.Space.{Storage}
use arb_reth.Storage.Space.Keys.{NoPageCollision, page_hash}

abbrev pub test_hash : List ℕ → List ℕ
test_hash x =
    (to_be_bytes 30 (from_be_bytes (drop (length x - 31) x)) ++ length x % 256 ∷ []) ++ 0 ∷ []

pub length-test_hash : (x : List ℕ) → length (test_hash x) ≡ 32
length-test_hash x = omega (
  arith,
  length-append (to_be_bytes 30 number ++ length x % 256 ∷ []) (0 ∷ []),
  length-append (to_be_bytes 30 number) (length x % 256 ∷ []),
  length-to_be_bytes 30 number,
)
  where
    number : ℕ
    number = from_be_bytes (drop (length x - 31) x)

pub record Bank : Type 0 where
  pub slots : ℕ → ℕ → ℕ
  pub balances : ℕ → ℕ

abbrev pub write_slots : ℕ → ℕ → ℕ → Bank → Bank
write_slots a k v s = record s { slots = λ b j. if a == b && k == j then v else s.slots b j }

abbrev pub move_balance : ℕ → ℕ → ℕ → Bank → Bank
move_balance from to amount s = record s {
  balances = λ b.
      if b == from
      then s.balances b - amount
      else if b == to
      then s.balances b + amount
      else s.balances b;
}

instance abbrev pub test_host : Host
test_host = record {
  State = Bank;
  Error = Unit {0};
  storage = λ s a k. done (s.slots a k);
  sstore = λ s a k v. done (write_slots a k v s);
  transfer = λ s from to amount.
      done (if leb amount (s.balances from) then some (move_balance from to amount s) else none);
  load_account = λ s a. done (s.balances a, s);
  keccak256 = test_hash;
}

abbrev pub test_store : IsStore test_host
test_store = record {
  slot = λ s a k. s.slots a k;
  write = λ s a k v. write_slots a k v s;
  storage_done = λ s a k. refl;
  sstore_done = λ s a k v. refl;
  slot-write = λ s a k v b j. refl;
}

pub bank_moves :
    (s : Bank) (from to amount : ℕ)
    → amount ≤ s.balances from
    → test_host.transfer s from to amount ≡ done (some (move_balance from to amount s))
bank_moves s from to amount p = ground arith

pub bank_refuses :
    (s : Bank) (from to amount : ℕ)
    → s.balances from < amount
    → test_host.transfer s from to amount ≡ done none
bank_refuses s from to amount p = ground arith

abbrev pub test_bank : IsBank test_host test_store
test_bank = record {
  balance = λ s a. s.balances a;
  moved = λ s from to amount. move_balance from to amount s;
  loaded = λ s a. s;
  transfer_done = bank_moves;
  transfer_short = bank_refuses;
  load_done = λ s a. refl;
  slot-moved = λ s from to amount a k. refl;
  slot-loaded = λ s b a k. refl;
  balance-write = λ s a k v b. refl;
  balance-loaded = λ s a b. refl;
}

-- Every slot is zero, every account has a balance of 1000, no gas is burnt, and the burner may write.
abbrev pub blank : World test_host
blank = record {
  db = record { slots = λ a k. 0; balances = λ a. 1000 };
  burner = record { gas_burnt = zero_gas; tracing_info = none; read_only = false };
  events = [];
}

abbrev pub test_storage : Storage
test_storage = record { account = 7; storage_key = 1 ∷ 2 ∷ [] }

-- The page's number, and the length of what is hashed.
pub page_hash-eq :
    (sto : Storage) (p : ℕ)
    → p < 2 ^ 152
    → page_hash sto p ≡ p * 256 + (length sto.storage_key + 31) % 256
page_hash-eq sto p small =
    rw (hashed, from_be_bytes-to_be_bytes 31 p (omega arith))
      (ap from_be_bytes (take-length_append (front p) (0 ∷ []) 31 (front_length p))
        ∙ from_be_bytes-append_one (to_be_bytes 30 p) _
        ∙ rw (from_be_bytes-to_be_bytes 30 p (omega arith)) (ap (λ n. p * 256 + n % 256) size))
  where
    hashed :
        drop
          (length (sto.storage_key ++ to_be_bytes 31 p) - 31)
          (sto.storage_key ++ to_be_bytes 31 p)
        ≡ to_be_bytes 31 p
    hashed =
        drop-length_append sto.storage_key (to_be_bytes 31 p) _
          (omega (arith, length-append sto.storage_key (to_be_bytes 31 p), length-to_be_bytes 31 p))

    size : length (sto.storage_key ++ to_be_bytes 31 p) ≡ length sto.storage_key + 31
    size = omega (arith, length-append sto.storage_key (to_be_bytes 31 p), length-to_be_bytes 31 p)

    front : ℕ → List ℕ
    front q = to_be_bytes 30 q ++ length (sto.storage_key ++ to_be_bytes 31 p) % 256 ∷ []

    front_length : (q : ℕ) → length (front q) ≡ 31
    front_length q = omega (
      arith,
      length-to_be_bytes 30 q,
      length-append (to_be_bytes 30 q) (length (sto.storage_key ++ to_be_bytes 31 p) % 256 ∷ []),
    )

pub test_free : (sto : Storage) → NoPageCollision sto
test_free sto p q a b e =
    omega (arith, page_hash-eq sto p (omega arith), page_hash-eq sto q (omega arith), e)
