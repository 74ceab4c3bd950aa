-- ===== src/TestTable.antt =====
-- A host for the tests on a table of batch posters, whose hash tells the storages of the table apart: the
-- low 30 of the last 31 bytes of what is hashed, then a tag of the bytes before them, and a zero.
use arb_reth.Prelude.{
  ℕ, ◌+◌, ◌*◌, ◌%◌, ◌∙◌, ap, ◌-◌, ◌<◌, ◌^◌, ◌≡◌, ◌≢◌, refl, List, [], ◌∷◌, ◌++◌, arith, length,
  length-append, drop, take, drop-length_append, take-length_append, none, some, false, leb,
  if◌then◌else◌,
}
use arb_reth.Bytes.{
  to_be_bytes, from_be_bytes, from_be_bytes-append_one, length-to_be_bytes,
  from_be_bytes-to_be_bytes,
}
use arb_reth.Host.{Host, IsStore, done}
use arb_reth.World.{World}
use arb_reth.Storage.Space.{Storage}
use arb_reth.Storage.Space.Keys.{page_hash}
use arb_reth.TestHost.{Bank, write_slots, move_balance}
use arb_reth.MultiGas.{zero_gas}

-- A tag of a key: its bytes weighed by their places, from the last on.
unfoldable pub tag : List ℕ → ℕ
tag [] = 0
tag (x ∷ xs) = x + 3 * tag xs

abbrev pub table_hash : List ℕ → List ℕ
table_hash x =
    (to_be_bytes 30 (from_be_bytes (drop (length x - 31) x))
      ++ tag (take (length x - 31) x) % 256 ∷ [])
    ++ 0 ∷ []

instance abbrev pub table_host : Host
table_host = record {
  State = Bank;
  Error = Unit {0};
  storage = λ s a k. done (s.slots a k);
  sstore = λ s a k v. done (write_slots a k v s);
  transfer = λ s from to amount.
      done (if leb amount (s.balances from) then some (move_balance from to amount s) else none);
  load_account = λ s a. done (s.balances a, s);
  keccak256 = table_hash;
}

abbrev pub table_store : IsStore table_host
table_store = record {
  slot = λ s a k. s.slots a k;
  write = λ s a k v. write_slots a k v s;
  storage_done = λ s a k. refl;
  sstore_done = λ s a k v. refl;
  slot-write = λ s a k v b j. refl;
}

-- Every slot is zero.
abbrev pub empty_world : World table_host
empty_world = record {
  db = record { slots = λ a k. 0; balances = λ a. 1000 };
  burner = record { gas_burnt = zero_gas; tracing_info = none; read_only = false };
  events = [];
}

abbrev pub table_storage : Storage
table_storage = record { account = 7; storage_key = 1 ∷ 2 ∷ [] }

-- The page's number, and the tag of the key.
pub tagged_page :
    (sto : Storage) (p : ℕ) → p < 2 ^ 152 → page_hash sto p ≡ p * 256 + tag sto.storage_key % 256
tagged_page sto p small =
    rw (hashed, key, from_be_bytes-to_be_bytes 31 p (omega arith))
      (ap from_be_bytes (take-length_append (front p) (0 ∷ []) 31 (front_length p))
        ∙ from_be_bytes-append_one (to_be_bytes 30 p) _
        ∙ rw (from_be_bytes-to_be_bytes 30 p (omega arith)) refl)
  where
    before : length sto.storage_key ≡ length (sto.storage_key ++ to_be_bytes 31 p) - 31
    before =
        omega (arith, length-append sto.storage_key (to_be_bytes 31 p), length-to_be_bytes 31 p)

    hashed :
        drop
          (length (sto.storage_key ++ to_be_bytes 31 p) - 31)
          (sto.storage_key ++ to_be_bytes 31 p)
        ≡ to_be_bytes 31 p
    hashed = drop-length_append sto.storage_key (to_be_bytes 31 p) _ before

    key :
        take
          (length (sto.storage_key ++ to_be_bytes 31 p) - 31)
          (sto.storage_key ++ to_be_bytes 31 p)
        ≡ sto.storage_key
    key = take-length_append sto.storage_key (to_be_bytes 31 p) _ before

    front : ℕ → List ℕ
    front q = to_be_bytes 30 q ++ tag sto.storage_key % 256 ∷ []

    front_length : (q : ℕ) → length (front q) ≡ 31
    front_length q = omega (
      arith,
      length-to_be_bytes 30 q,
      length-append (to_be_bytes 30 q) (tag sto.storage_key % 256 ∷ []),
    )

-- Storages with different tags have different pages.
pub tags_differ :
    (s t : Storage) (p q : ℕ)
    → tag s.storage_key % 256 ≢ tag t.storage_key % 256
    → p < 2 ^ 152
    → q < 2 ^ 152
    → page_hash s p ≢ page_hash t q
tags_differ s t p q ne a b e = ne (omega (arith, tagged_page s p a, tagged_page t q b, e))

pub same_pages :
    (s : Storage) (p q : ℕ) → p < 2 ^ 152 → q < 2 ^ 152 → page_hash s p ≡ page_hash s q → p ≡ q
same_pages s p q a b e = omega (arith, tagged_page s p a, tagged_page s q b, e)
