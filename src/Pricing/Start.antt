-- ===== src/Pricing/Start.antt =====
-- `initialize` of the L2 price: what its state reads right after.
use arb_reth.Prelude.{
  ℕ, ◌^◌, ◌<◌, ◌≤◌, ◌≡◌, refl, ◌∙◌, ap, arith, List, [], ◌∷◌, ◌==◌, if◌then◌else◌, u64_max,
}
use arb_reth.Host.{Host, IsStore}
use arb_reth.World.{World, M, ok, tick, ◌>>◌, bind-ok}
use arb_reth.World.Loop.{Leaves}
use arb_reth.Storage.Slot.{IsWritable, after_get, get_lem}
use arb_reth.Storage.Typed.{get_uint64, get_big_uint}
use arb_reth.Storage.Space.{Storage, open_slot, set_uint64_by_uint64}
use arb_reth.Storage.Space.Keys.{NoPageCollision}
use arb_reth.Storage.Space.Laws.{
  cell, after_store, set_uint64_by_uint64_lem, cell-after_store, after_store-IsWritable,
}
use arb_reth.Storage.Space.Cells.{get_cell, held-cell}
use arb_reth.Pricing.{
  open_pricing, initialize, speed_limit_per_second, per_block_gas_limit, base_fee_wei,
  min_base_fee_wei, gas_backlog, pricing_inertia, backlog_tolerance,
}

-- The last value that a list of stores gives an offset.
abbrev stored_at : List (ℕ × ℕ) → ℕ → ℕ → ℕ
stored_at [] j old = old
stored_at (s ∷ rest) j old = stored_at rest j (if s.0 == j then s.1 else old)

-- The stores of `initialize`, in order.
abbrev initial_stores : List (ℕ × ℕ)
initial_stores =
    (0, 1000000)
    ∷ (1, 20000000)
    ∷ (2, 100000000)
    ∷ (4, 0)
    ∷ (5, 102)
    ∷ (6, 10)
    ∷ (3, 100000000)
    ∷ []

-- The offsets of the stores are 64-bit.
abbrev OffsetsFit : List (ℕ × ℕ) → Type 0
OffsetsFit [] = Unit
OffsetsFit (s ∷ rest) = (s.0 < 2 ^ 64) × OffsetsFit rest

module _ ⦃h : Host⦄ (l : IsStore h) (sto : Storage) (free : NoPageCollision sto) where
  abbrev after_stores : List (ℕ × ℕ) → World h → World h
  after_stores [] w = w
  after_stores (s ∷ rest) w = after_stores rest (after_store l sto s.0 s.1 w)

  cell-after_stores :
      (ss : List (ℕ × ℕ)) (w : World h) (j : ℕ)
      → OffsetsFit ss
      → j < 2 ^ 64
      → cell l (after_stores ss w) sto j ≡ stored_at ss j (cell l w sto j)
  cell-after_stores [] w j p q = refl
  cell-after_stores (s ∷ rest) w j p q =
      cell-after_stores rest (after_store l sto s.0 s.1 w) j p.1 q
      ∙ ap (stored_at rest j) (cell-after_store l sto free s.0 s.1 w j p.0 q)

  initial : World h → World h
  initial w = after_stores initial_stores w

  cell-initial :
      (w : World h) (j : ℕ)
      → j < 2 ^ 64
      → cell l (initial w) sto j ≡ stored_at initial_stores j (cell l w sto j)
  unfolding initial
  cell-initial w j p =
      cell-after_stores initial_stores w j
        (
          omega arith,
          (
            omega arith,
            (omega arith, (omega arith, (omega arith, (omega arith, (omega arith, tt))))),
          ),
        )
        p

  -- The calls of a list of stores.
  run_stores : List (ℕ × ℕ) → M (Unit {0})
  run_stores [] = tick
  run_stores (s ∷ []) = set_uint64_by_uint64 sto s.0 s.1
  run_stores (s ∷ t ∷ rest) = set_uint64_by_uint64 sto s.0 s.1 >> run_stores (t ∷ rest)

  run_stores_lem :
      (ss : List (ℕ × ℕ)) (w : World h) → IsWritable w → run_stores ss w ≡ ok tt (after_stores ss w)
  unfolding run_stores
  run_stores_lem [] w p = refl
  run_stores_lem (s ∷ []) w p = set_uint64_by_uint64_lem l sto s.0 s.1 w p
  run_stores_lem (s ∷ t ∷ rest) w p =
      bind-ok (set_uint64_by_uint64 sto s.0 s.1) _ w (set_uint64_by_uint64_lem l sto s.0 s.1 w p)
      ∙ run_stores_lem (t ∷ rest) (after_store l sto s.0 s.1 w)
          (after_store-IsWritable l sto s.0 s.1 w p)

  -- What the state reads from a world that holds the initial values.
  abbrev pub Initialized : ℕ → World h → Type 0
  Initialized version w =
      (speed_limit_per_second (open_pricing sto version) w
        ≡ ok 1000000 (after_get (open_slot sto 0) w))
      × (per_block_gas_limit (open_pricing sto version) w
          ≡ ok 20000000 (after_get (open_slot sto 1) w))
      × (base_fee_wei (open_pricing sto version) w ≡ ok 100000000 (after_get (open_slot sto 2) w))
      × (min_base_fee_wei (open_pricing sto version) w
          ≡ ok 100000000 (after_get (open_slot sto 3) w))
      × (gas_backlog (open_pricing sto version) w ≡ ok 0 (after_get (open_slot sto 4) w))
      × (pricing_inertia (open_pricing sto version) w ≡ ok 102 (after_get (open_slot sto 5) w))
      × (backlog_tolerance (open_pricing sto version) w ≡ ok 10 (after_get (open_slot sto 6) w))

  fee_read :
      (w : World h) (i n : ℕ)
      → cell l w sto i ≡ n
      → get_big_uint (open_slot sto i) w ≡ ok n (after_get (open_slot sto i) w)
  unfolding get_big_uint
  fee_read w i n e =
      get_lem l (open_slot sto i) w
      ∙ ap (λ x. ok x (after_get (open_slot sto i) w)) (held-cell l sto w i ∙ e)

  cell_read :
      (w : World h) (i : ℕ)
      → i < 2 ^ 64
      → stored_at initial_stores i (cell l w sto i) ≤ u64_max
      → get_uint64 (open_slot sto i) (initial w)
        ≡ ok (stored_at initial_stores i (cell l w sto i)) (after_get (open_slot sto i) (initial w))
  cell_read w i p q = get_cell l sto (initial w) i _ (cell-initial w i p) q

  -- On a host that is a store and for a storage whose pages do not collide: `initialize` of the L2
  -- price on a writable world returns, and the state, opened for any version, then reads the
  -- initial speed limit, block gas limit, base fee, least base fee, backlog, inertia and backlog
  -- tolerance.
  pub initialize-Initialized :
      (w : World h) (version : ℕ) → IsWritable w → Leaves (initialize sto) w (Initialized version)
  unfolding initial initialize run_stores speed_limit_per_second per_block_gas_limit base_fee_wei
      min_base_fee_wei gas_backlog pricing_inertia backlog_tolerance
  initialize-Initialized w version p = record {
    after = initial w;
    returned = run_stores_lem initial_stores w p;
    left_with = (
      cell_read w 0 (omega arith) (omega arith),
      cell_read w 1 (omega arith) (omega arith),
      fee_read (initial w) 2 _ (cell-initial w 2 (omega arith)),
      fee_read (initial w) 3 _ (cell-initial w 3 (omega arith)),
      cell_read w 4 (omega arith) (omega arith),
      cell_read w 5 (omega arith) (omega arith),
      cell_read w 6 (omega arith) (omega arith),
    );
  }
