-- ===== src/AddressSet/Refine.antt =====
-- An address set in storage behaves as the list of its members, over every sequence of calls.
use arb_reth.Prelude.{
  ℕ, suc, ◌+◌, ◌-◌, ◌^◌, ◌≤◌, ◌<◌, ◌≡◌, refl, ◌∙◌, arith, inl, inr, ◌==◌, ==_iff, ==_ne, ==_refl,
  Bool-cases, List, [], ◌∷◌, ◌++◌, length, length-append, get_or, u64_max, AllLe, get_or-AllLe,
}
use arb_reth.Host.{Host, IsStore}
use arb_reth.World.{World, M, ◌>>=◌, ◌>>◌, ok, pure, bind-ok}
use arb_reth.World.Loop.{Leaves}
use arb_reth.Storage.Slot.{after_get}
use arb_reth.Storage.Typed.{get_uint64}
use arb_reth.Storage.Space.{Storage, open_slot, read_slot}
use arb_reth.Storage.Space.Laws.{read_slot_lem}
use arb_reth.Storage.Space.Cells.{cell-after_get, get_cell}
use arb_reth.AddressSet.{
  open_set, size_of, is_member, get_any_member, any_member_if, clear, all_members, add, remove,
}
use arb_reth.AddressSet.Model.{
  HoldsSet-after_get, place, insert, place-append, Apart, HoldsSet, is_member_lem,
}
use arb_reth.AddressSet.Swap.{
  IsDistinct, swap_remove, without, source, get_or-swap_remove, length-swap_remove,
  swap_remove-IsDistinct, place-le-length,
}
use arb_reth.AddressSet.Members.{all_members_lem, word_to_addr-small}
use arb_reth.AddressSet.Add.{add_lem, get_or-append}
use arb_reth.AddressSet.Clear.{clear_lem}
use arb_reth.AddressSet.Remove.{remove_lem}
use arb_reth.AddressSet.Calls.{
  Op, add_op, remove_op, is_member_op, all_members_op, size_op, any_member_op, clear_op, Reply,
  unit_reply, bool_reply, size_reply, member_reply, members_reply, any_of, spec_reply, spec_next,
  spec_replies, spec_last, run_op, run,
}

-- What every call keeps of the list: no member twice, and all of them of 160 bits.
pub record IsSetList (xs : List ℕ) : Type 0 where
  pub distinct : IsDistinct xs
  pub small : AllLe (2 ^ 160 - 1) xs

-- The addresses of the calls are of 160 bits.
abbrev pub HasAddresses : Op → Type 0
HasAddresses (add_op a) = a < 2 ^ 160
HasAddresses (remove_op a) = a < 2 ^ 160
HasAddresses (is_member_op a) = a < 2 ^ 160
HasAddresses (all_members_op limit) = Unit {0}
HasAddresses size_op = Unit {0}
HasAddresses any_member_op = Unit {0}
HasAddresses clear_op = Unit {0}

abbrev pub AllHaveAddresses : List Op → Type 0
AllHaveAddresses [] = Unit {0}
AllHaveAddresses (op ∷ ops) = HasAddresses op × AllHaveAddresses ops

AllLe-by_entries :
    (b : ℕ) (xs : List ℕ) → ((i : ℕ) → i < length xs → get_or xs i 0 ≤ b) → AllLe b xs
AllLe-by_entries b [] f = tt
AllLe-by_entries b (x ∷ xs) f =
    (f 0 (omega arith), AllLe-by_entries b xs (λ i p. f (suc i) (omega (arith, p))))

AllLe-append : (b : ℕ) (xs : List ℕ) (a : ℕ) → AllLe b xs → a ≤ b → AllLe b (xs ++ a ∷ [])
AllLe-append b [] a h p = (p, tt)
AllLe-append b (x ∷ xs) a h p = (h.0, AllLe-append b xs a h.1 p)

append-IsDistinct :
    (xs : List ℕ) (a : ℕ) → IsDistinct xs → place a xs ≡ 0 → IsDistinct (xs ++ a ∷ [])
append-IsDistinct xs a d new i p = elim (Bool-cases (length xs == i)) [
  | inl last ↦
      rw (get_or-append xs a i (omega (arith, p, length-append xs (a ∷ []))), last)
        (place-append a a xs ∙ rw (new, ==_refl a) (ground (arith, last)))
  | inr before ↦
      rw (get_or-append xs a i (omega (arith, p, length-append xs (a ∷ []))), before)
        (place-append (get_or xs i 0) a xs
          ∙ rw (d i (ground (arith, before, p, length-append xs (a ∷ [])))) (ground arith))
]

insert-IsSetList : (xs : List ℕ) (a : ℕ) → IsSetList xs → a < 2 ^ 160 → IsSetList (insert a xs)
insert-IsSetList xs a s p = elim (Bool-cases (place a xs == 0)) [
  | inl new ↦ rw new (record {
    distinct = append-IsDistinct xs a s.distinct ((==_iff (place a xs) 0).0 new);
    small = AllLe-append (2 ^ 160 - 1) xs a s.small (omega (arith, p));
  })
  | inr member ↦ rw member s
]

without-IsSetList : (xs : List ℕ) (a : ℕ) → IsSetList xs → IsSetList (without a xs)
without-IsSetList xs a s = elim (Bool-cases (place a xs == 0)) [
  | inl absent ↦ rw absent s
  | inr present ↦ rw present (left (place a xs - 1) (ground (arith, present, place-le-length a xs)))
]
  where
    left : (i : ℕ) → i < length xs → IsSetList (swap_remove i xs)
    left i p = record {
      distinct = swap_remove-IsDistinct xs i p s.distinct;
      small = AllLe-by_entries (2 ^ 160 - 1) (swap_remove i xs) (λ j q.
          rw (get_or-swap_remove xs i p j (omega (arith, q, length-swap_remove xs i p)))
            (get_or-AllLe (2 ^ 160 - 1) xs (source xs i p j) s.small));
    }

spec_next-IsSetList :
    (op : Op) (xs : List ℕ) → IsSetList xs → HasAddresses op → IsSetList (spec_next op xs)
spec_next-IsSetList (add_op a) xs s p = insert-IsSetList xs a s p
spec_next-IsSetList (remove_op a) xs s p = without-IsSetList xs a s
spec_next-IsSetList (is_member_op a) xs s p = s
spec_next-IsSetList (all_members_op limit) xs s p = s
spec_next-IsSetList size_op xs s p = s
spec_next-IsSetList any_member_op xs s p = s
spec_next-IsSetList clear_op xs s p = record {
  distinct = λ i q. absurd (omega (arith, q));
  small = tt;
}

length-spec_next : (op : Op) (xs : List ℕ) → length (spec_next op xs) ≤ length xs + 1
length-spec_next (add_op a) xs = ground (arith, length-append xs (a ∷ []))
length-spec_next (remove_op a) xs = elim (Bool-cases (place a xs == 0)) [
  | inl absent ↦ rw absent (omega arith)
  | inr present ↦ rw present (
      omega (
        arith,
        length-swap_remove xs (place a xs - 1) (ground (arith, present, place-le-length a xs)),
      ))
]
length-spec_next (is_member_op a) xs = omega arith
length-spec_next (all_members_op limit) xs = omega arith
length-spec_next size_op xs = omega arith
length-spec_next any_member_op xs = omega arith
length-spec_next clear_op xs = omega arith

module _ ⦃h : Host⦄ (l : IsStore h) (sto : Storage) (apart : Apart sto) where
  -- A call returns a value and leaves the set of the list.
  pub record Returned {A : Type 0} (call : M A) (w : World h) (value : A) (xs : List ℕ)
      : Type 0 where
    pub after : World h
    pub returned : call w ≡ ok value after
    pub left_with : HoldsSet sto apart l after xs

  size_lem :
      (w : World h) (xs : List ℕ)
      → HoldsSet sto apart l w xs
      → size_of (open_set sto) w ≡ ok (length xs) (after_get (open_slot sto 0) w)
  unfolding size_of
  size_lem w xs q = get_cell l sto w 0 (length xs) q.size_at q.room

  get_any_member_lem :
      (w : World h) (xs : List ℕ)
      → HoldsSet sto apart l w xs
      → AllLe (2 ^ 160 - 1) xs
      → get_any_member (open_set sto) w ≡ ok (any_of xs) (after_get (open_slot sto 0) w)
  unfolding get_any_member any_member_if
  get_any_member_lem w [] q small =
      bind-ok (get_uint64 (open_slot sto 0)) _ w (get_cell l sto w 0 0 q.size_at q.room)
  get_any_member_lem w (x ∷ xs) q small =
      bind-ok (get_uint64 (open_slot sto 0)) _ w
        (get_cell l sto w 0 (suc (length xs)) q.size_at q.room)
      ∙ rw (==_ne (suc (length xs)) 0 (omega arith)) (
          bind-ok (read_slot sto 1) _ _ (read_slot_lem l sto 1 _)
          ∙ rw (cell-after_get l sto (open_slot sto 0) w 1 ∙ q.entries 0 (omega arith))
              (rw (word_to_addr-small x small.0) refl))

  relay :
      {A : Type 0} (call : M A) (wrap : A → Reply) (w : World h) (a : A) (xs : List ℕ)
      → Returned call w a xs
      → Returned (call >>= λ x. pure (wrap x)) w (wrap a) xs
  relay call wrap w a xs r = record {
    after = r.after;
    returned = bind-ok call _ w r.returned;
    left_with = r.left_with;
  }

  -- A call for its effect.
  relay_unit :
      (call : M (Unit {0})) (w : World h) (xs : List ℕ)
      → Leaves call w (λ w'. HoldsSet sto apart l w' xs)
      → Returned (call >> pure unit_reply) w unit_reply xs
  relay_unit call w xs r = record {
    after = r.after;
    returned = bind-ok call _ w r.returned;
    left_with = r.left_with;
  }

  module _ (version : ℕ) (new : 11 ≤ version) where
    step_lem :
        (op : Op) (w : World h) (xs : List ℕ)
        → HoldsSet sto apart l w xs
        → IsSetList xs
        → HasAddresses op
        → length xs < u64_max
        → Returned (run_op version (open_set sto) op) w (spec_reply op xs) (spec_next op xs)
    step_lem (add_op a) w xs q s p room =
        relay_unit (add (open_set sto) a) w _ (add_lem l sto apart w xs a q p room)
    step_lem (remove_op a) w xs q s p room =
        relay_unit (remove (open_set sto) a version) w _
          (remove_lem l sto apart w xs a version q s.distinct s.small p new)
    step_lem clear_op w xs q s p room =
        relay_unit (clear (open_set sto)) w _ (clear_lem l sto apart xs s.small room w q)
    step_lem (is_member_op a) w xs q s p room =
        relay (is_member (open_set sto) a) bool_reply w _ xs
          (record { after = w; returned = is_member_lem sto apart l w xs a q p; left_with = q })
    step_lem (all_members_op limit) w xs q s p room =
        relay (all_members (open_set sto) limit) members_reply w _ xs (record {
          after = after_get (open_slot sto 0) w;
          returned = all_members_lem l sto apart w xs limit q s.small;
          left_with = HoldsSet-after_get sto apart l (open_slot sto 0) w xs q;
        })
    step_lem size_op w xs q s p room = relay (size_of (open_set sto)) size_reply w _ xs (record {
      after = after_get (open_slot sto 0) w;
      returned = size_lem w xs q;
      left_with = HoldsSet-after_get sto apart l (open_slot sto 0) w xs q;
    })
    step_lem any_member_op w xs q s p room =
        relay (get_any_member (open_set sto)) member_reply w _ xs (record {
          after = after_get (open_slot sto 0) w;
          returned = get_any_member_lem w xs q s.small;
          left_with = HoldsSet-after_get sto apart l (open_slot sto 0) w xs q;
        })

    -- On a host that is a store and for a storage whose list and mapping do not collide, from ArbOS
    -- version 11 on: from a set of the 160-bit addresses `xs`, none of them twice, with room for one
    -- more a call, every sequence of calls with 160-bit addresses returns, replies as the list of the
    -- members does, and leaves the list's members.
    pub run_set_refines :
        (ops : List Op) (w : World h) (xs : List ℕ)
        → HoldsSet sto apart l w xs
        → IsSetList xs
        → AllHaveAddresses ops
        → length xs + length ops ≤ u64_max
        → Returned (run version (open_set sto) ops) w (spec_replies ops xs) (spec_last ops xs)
    unfolding run spec_replies spec_last
    run_set_refines [] w xs q s p room = record { after = w; returned = refl; left_with = q }
    run_set_refines (op ∷ ops) w xs q s p room =
        let first = step_lem op w xs q s p.0 (omega (arith, room)) in
        let rest =
          run_set_refines ops first.after (spec_next op xs) first.left_with
            (spec_next-IsSetList op xs s p.0) p.1 (omega (arith, room, length-spec_next op xs)) in
        record {
          after = rest.after;
          returned =
              bind-ok (run_op version (open_set sto) op) _ w first.returned
              ∙ bind-ok (run version (open_set sto) ops) _ first.after rest.returned;
          left_with = rest.left_with;
        }
