-- ===== src/Constraint/Weights.antt =====
-- `set_resource_weights`: the weights of a constraint by kind, and the largest of them.
use arb_reth.Prelude.{
  ℕ, zero, suc, ◌+◌, ◌≤◌, ◌<◌, ◌≡◌, refl, ◌∙◌, sym, ap, arith, inl, inr, ◌⊎◌, false, ◌==◌,
  Bool-cases, ==_iff, ==_ne, ==_refl, ltb, if◌then◌else◌, Option,
}
use arb_reth.Host.{Host, IsStore}
use arb_reth.MultiGas.{ResourceKind, index, index-lt-count}
use arb_reth.World.{World, ok, bind-ok}
use arb_reth.World.Loop.{Leaves}
use arb_reth.Storage.Slot.{after_set, IsWritable, after_set-IsWritable}
use arb_reth.Storage.Typed.{set_uint64}
use arb_reth.Storage.Typed.Laws.{set_uint64_lem}
use arb_reth.Storage.Space.{Storage, open_slot}
use arb_reth.Storage.Space.Keys.{NoPageCollision}
use arb_reth.Storage.Space.Laws.{cell, cell-after_set}
use arb_reth.Constraint.{open_multi_constraint, set_resource_weights, set_weights_from, weight_of}

below : (i j : ℕ) → j < i + 1 → (i == j) ≡ false → j < i
below i j p e = ground arith

all_done : (i : ℕ) → i + 0 ≡ 8 → i ≡ 8
all_done i e = omega arith

-- The larger of two weights, as the loop keeps it.
abbrev keep_larger : ℕ → ℕ → ℕ
keep_larger m weight = if ltb m weight then weight else m

keep_larger-le : (m weight : ℕ) → (m ≤ keep_larger m weight) × (weight ≤ keep_larger m weight)
keep_larger-le m weight = ground arith

keep_larger-if :
    (m weight : ℕ) → (keep_larger m weight ≡ weight) ⊎ ((keep_larger m weight ≡ m) × (weight ≤ m))
keep_larger-if m weight = elim (Bool-cases (ltb m weight)) [
  | inl less ↦ inl (rw less refl)
  | inr more ↦ inr (rw more refl, ground (arith, more))
]

-- The value is 0 and there is no weight below `i`, or it is a weight below `i`.
abbrev Attained : (ℕ → Option ℕ) → ℕ → ℕ → Type 0
Attained weights i m = ((i ≡ 0) × (m ≡ 0)) ⊎ ((j : ℕ) × (j < i) × (weight_of weights j ≡ m))

Attained-next :
    (weights : ℕ → Option ℕ) (i m : ℕ)
    → Attained weights i m
    → Attained weights (i + 1) (keep_larger m (weight_of weights i))
Attained-next weights i m a = elim (keep_larger-if m (weight_of weights i)) [
  | inl last ↦ inr (i, omega arith, sym last)
  | inr (same, small) ↦ elim a [
    | inl (none_yet, zero_so_far) ↦ inr (i, omega arith, omega (arith, same, small, zero_so_far))
    | inr (j, p, e) ↦ inr (j, omega (arith, p), e ∙ sym same)
  ]
]

module _ ⦃h : Host⦄ (l : IsStore h) (sto : Storage) (free : NoPageCollision sto)
    (weights : ℕ → Option ℕ) where
  -- The weights below `i` are stored, and `m` is the largest of them, or 0 if there is none.
  record Stored (w : World h) (i m : ℕ) : Type 0 where
    writable : IsWritable w
    stored : (j : ℕ) → j < i → cell l w sto (4 + j) ≡ weight_of weights j
    largest : (j : ℕ) → j < i → weight_of weights j ≤ m
    attained : Attained weights i m

  -- The loop returned the largest weight.
  record Looped (left i m : ℕ) (w : World h) : Type 0 where
    after : World h
    last : ℕ
    returned : set_weights_from (open_multi_constraint sto) weights left i m w ≡ ok last after
    state : Stored after 8 last

  after_weight : ℕ → World h → World h
  after_weight i w = after_set l (open_slot sto (4 + i)) (weight_of weights i) w

  Stored-next :
      (w : World h) (i m : ℕ)
      → i < 8
      → Stored w i m
      → Stored (after_weight i w) (i + 1) (keep_larger m (weight_of weights i))
  unfolding after_weight
  Stored-next w i m p q = record {
    writable = after_set-IsWritable l (open_slot sto (4 + i)) _ w q.writable;
    stored = stored_next;
    largest = λ j r. elim (Bool-cases (i == j)) [
      | inl here ↦ omega (
        arith,
        ap (weight_of weights) ((==_iff i j).0 here),
        (keep_larger-le m (weight_of weights i)).1,
      )
      | inr other ↦
          omega (arith, q.largest j (below i j r other), (keep_larger-le m (weight_of weights i)).0)
    ];
    attained = Attained-next weights i m q.attained;
  }
    where
      stored_next :
          (j : ℕ) → j < i + 1 → cell l (after_weight i w) sto (4 + j) ≡ weight_of weights j
      stored_next j r =
          cell-after_set l sto free (4 + i) _ w (4 + j) (omega arith) (omega arith)
          ∙ (elim (Bool-cases (i == j)) [
            | inl here ↦ rw ((==_iff i j).0 here, ==_refl (4 + j)) refl
            | inr other ↦
                rw (==_ne (4 + i) (4 + j) (omega (arith, below i j r other)))
                  (q.stored j (below i j r other))
          ])

  rounds_lem : (left i m : ℕ) (w : World h) → i + left ≡ 8 → Stored w i m → Looped left i m w
  unfolding set_weights_from after_weight
  rounds_lem zero i m w e q = record {
    after = w;
    last = m;
    returned = refl;
    state = rw (all_done i e) at q;
  }
  rounds_lem (suc left) i m w e q =
      let rest =
        rounds_lem left (i + 1) _ (after_weight i w) (omega arith)
          (Stored-next w i m (omega arith) q) in
      record {
        after = rest.after;
        last = rest.last;
        returned =
            bind-ok (set_uint64 (open_slot sto (4 + i)) (weight_of weights i)) _ w
              (set_uint64_lem l (open_slot sto (4 + i)) _ w q.writable)
            ∙ rest.returned;
        state = rest.state;
      }

  -- The weight of every kind is stored at its offset, and offset 3 holds the largest: no weight is
  -- above it, and it is the weight of some index of a kind.
  pub record Weighted (w : World h) : Type 0 where
    pub stored_weights :
        (kind : ResourceKind) → cell l w sto (4 + index kind) ≡ weight_of weights (index kind)
    pub no_larger : (kind : ResourceKind) → weight_of weights (index kind) ≤ cell l w sto 3
    pub reached : (i : ℕ) × (i < 8) × (weight_of weights i ≡ cell l w sto 3)

  -- On a host that is a store and for a storage whose pages do not collide: on a writable world
  -- `set_resource_weights` returns, and leaves the weight of every kind at the kind's offset and
  -- the largest of the weights as the maximum.
  pub set_resource_weights_lem :
      (w : World h)
      → IsWritable w
      → Leaves (set_resource_weights (open_multi_constraint sto) weights) w Weighted
  unfolding set_resource_weights
  set_resource_weights_lem w p = record {
    after = w2;
    returned =
        bind-ok (set_weights_from (open_multi_constraint sto) weights 8 0 0) _ w loop.returned
        ∙ set_uint64_lem l (open_slot sto 3) loop.last loop.after loop.state.writable;
    left_with = record {
      stored_weights = λ kind.
          cell-after_set l sto free 3 loop.last loop.after (4 + index kind) (omega arith)
            (omega (arith, index-lt-count kind))
          ∙ rw (==_ne 3 (4 + index kind) (omega arith))
              (loop.state.stored (index kind) (index-lt-count kind));
      no_larger =
          λ kind. omega (arith, maximum, loop.state.largest (index kind) (index-lt-count kind));
      reached = elim loop.state.attained [
        | inl (none_yet, zero_so_far) ↦ absurd (omega (arith, none_yet))
        | inr (j, q, e) ↦ (j, q, e ∙ sym maximum)
      ];
    };
  }
    where
      loop : Looped 8 0 0 w
      loop = rounds_lem 8 0 0 w refl (record {
        writable = p;
        stored = λ j q. absurd (omega arith);
        largest = λ j q. absurd (omega arith);
        attained = inl (refl, refl);
      })

      w2 : World h
      w2 = after_set l (open_slot sto 3) loop.last loop.after

      maximum : cell l w2 sto 3 ≡ loop.last
      maximum = cell-after_set l sto free 3 loop.last loop.after 3 (omega arith) (omega arith)
