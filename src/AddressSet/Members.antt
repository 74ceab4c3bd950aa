-- ===== src/AddressSet/Members.antt =====
-- `all_members` of an address set on the list of its members.
use arb_reth.Prelude.{
  ℕ, zero, suc, ◌+◌, ◌-◌, ◌^◌, ◌≤◌, ◌<◌, ◌≡◌, refl, sym, ◌∙◌, ap, ap₂, arith, min, List, [], ◌∷◌,
  length, get_or, take, drop, AllLe, get_or-AllLe,
}
use arb_reth.Host.{Host, IsStore}
use arb_reth.World.{World, ok, bind-ok}
use arb_reth.Storage.Slot.{after_get}
use arb_reth.Storage.Typed.{get_uint64, word_to_addr}
use arb_reth.Storage.Space.{Storage, open_slot, read_slot}
use arb_reth.Storage.Space.Laws.{cell, read_slot_lem}
use arb_reth.Storage.Space.Cells.{cell-after_get, get_cell}
use arb_reth.AddressSet.{open_set, all_members, members_from}
use arb_reth.AddressSet.Model.{Apart, HoldsSet}

take-drop :
    (left i : ℕ) (xs : List ℕ)
    → i < length xs
    → take (suc left) (drop i xs) ≡ get_or xs i 0 ∷ take left (drop (suc i) xs)
take-drop left i [] p = absurd (omega arith)
take-drop left zero (x ∷ xs) p = refl
take-drop left (suc i) (x ∷ xs) p = take-drop left i xs (omega arith)

pub word_to_addr-small : (n : ℕ) → n ≤ 2 ^ 160 - 1 → word_to_addr n ≡ n
word_to_addr-small n p = omega arith

plus_one : (i : ℕ) → i + 1 ≡ suc i
plus_one i = omega arith

module _ ⦃h : Host⦄ (l : IsStore h) (sto : Storage) (apart : Apart sto) where
  rounds_lem :
      (w : World h) (xs : List ℕ) (left i : ℕ)
      → AllLe (2 ^ 160 - 1) xs
      → ((j : ℕ) → j < length xs → cell l w sto (j + 1) ≡ get_or xs j 0)
      → i + left ≤ length xs
      → members_from (open_set sto) left i w ≡ ok (take left (drop i xs)) w
  unfolding members_from
  rounds_lem w xs zero i small entries p = refl
  rounds_lem w xs (suc left) i small entries p =
      bind-ok (read_slot sto (i + 1)) _ w (read_slot_lem l sto (i + 1) w)
      ∙ bind-ok (members_from (open_set sto) left (i + 1)) _ w
          (rounds_lem w xs left (i + 1) small entries (omega arith))
      ∙ ap₂ (λ x k. ok (x ∷ take left (drop k xs)) w)
          (ap word_to_addr (entries i (omega arith))
            ∙ word_to_addr-small (get_or xs i 0) (get_or-AllLe (2 ^ 160 - 1) xs i small))
          (plus_one i)
      ∙ ap (λ ys. ok ys w) (sym (take-drop left i xs (omega arith)))

  -- On a host that is a store and for a storage whose list and mapping do not collide:
  -- `all_members` of a set of 160-bit addresses returns its first members, at most `limit` of
  -- them, in the order of the list, and leaves the world after one charged read of the size.
  pub all_members_lem :
      (w : World h) (xs : List ℕ) (limit : ℕ)
      → HoldsSet sto apart l w xs
      → AllLe (2 ^ 160 - 1) xs
      → all_members (open_set sto) limit w
        ≡ ok (take (min (length xs) limit) xs) (after_get (open_slot sto 0) w)
  unfolding all_members
  all_members_lem w xs limit q small =
      bind-ok (get_uint64 (open_slot sto 0)) _ w (get_cell l sto w 0 (length xs) q.size_at q.room)
      ∙ rounds_lem (after_get (open_slot sto 0) w) xs (min (length xs) limit) 0 small
          (λ j p. cell-after_get l sto (open_slot sto 0) w (j + 1) ∙ q.entries j p) (omega arith)
