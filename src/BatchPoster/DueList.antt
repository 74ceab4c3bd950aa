-- ===== src/BatchPoster/DueList.antt =====
-- `get_funds_due_list`: the posters with a positive amount due, in the order of the table.
use arb_reth.Prelude.{
  ℕ, ◌-◌, ◌^◌, ◌≤◌, ◌≡◌, refl, ◌∙◌, ap, arith, true, false, List, [], ◌∷◌, length, take, min, AllLe,
  u64_max, if◌then◌else◌, ==_refl,
}
use arb_reth.Prelude.Int.{ℤ, is_positive}
use arb_reth.Host.{Host, IsStore}
use arb_reth.World.{World, M, ok, bind-ok}
use arb_reth.World.Ends.{Ends, Ends-pure, Ends-bind, Ends-bind_ok}
use arb_reth.Storage.Slot.{StorageSlot, after_get}
use arb_reth.Storage.Typed.{get_big_int}
use arb_reth.Storage.Space.{Storage, open_slot, open_sub_storage}
use arb_reth.AddressSet.{is_member}
use arb_reth.AddressSet.Model.{place, contains, Apart, HoldsSet, HoldsSet-after_get, is_member_lem}
use arb_reth.AddressSet.Members.{all_members_lem}
use arb_reth.BatchPoster.{
  FundsDueItem, OpenPosterResult, opened, open_table, internal_open, open_poster, open_poster_if,
  all_posters, funds_due, funds_due_of, get_funds_due_list,
}
use arb_reth.BatchPoster.Balance.{due, get_due, due-after_get}

-- All the addresses are members.
abbrev AllIn : List ℕ → List ℕ → Type 0
AllIn [] xs = Unit
AllIn (y ∷ ys) xs = (contains y xs ≡ true) × AllIn ys xs

contains-cons : (y x : ℕ) (xs : List ℕ) → contains y xs ≡ true → contains y (x ∷ xs) ≡ true
unfolding place
contains-cons y x xs e = ground (arith, e)

AllIn-cons : (ys : List ℕ) (x : ℕ) (xs : List ℕ) → AllIn ys xs → AllIn ys (x ∷ xs)
AllIn-cons [] x xs p = tt
AllIn-cons (y ∷ ys) x xs p = (contains-cons y x xs p.0, AllIn-cons ys x xs p.1)

AllIn-self : (xs : List ℕ) → AllIn xs xs
unfolding place
AllIn-self [] = tt
AllIn-self (x ∷ xs) = (rw (==_refl x) refl, AllIn-cons xs x xs (AllIn-self xs))

take_whole : (xs : List ℕ) → take (length xs) xs ≡ xs
take_whole [] = refl
take_whole (x ∷ xs) = ap (λ ys. x ∷ ys) (take_whole xs)

min_first : (m n : ℕ) → m ≤ n → min m n ≡ m
min_first m n p = omega (arith, p)

take-min : (n : ℕ) (xs : List ℕ) → length xs ≤ n → take (min (length xs) n) xs ≡ xs
take-min n xs p = ap (λ k. take k xs) (min_first (length xs) n p) ∙ take_whole xs

module _ ⦃h : Host⦄ (l : IsStore h) (sto : Storage)
    (apart : Apart (open_sub_storage sto (0 ∷ []))) where
  -- What a poster is due.
  abbrev pub due_to_poster : World h → ℕ → ℤ
  due_to_poster w poster = due l w (internal_open (open_table sto) poster).funds_due

  -- The posters that are due a positive amount, with that amount.
  unfoldable pub due_list : World h → List ℕ → List FundsDueItem
  due_list w [] = []
  due_list w (x ∷ xs) =
      if is_positive (due_to_poster w x)
      then record { due_to = x; balance = due_to_poster w x } ∷ due_list w xs
      else due_list w xs

  module _ (w : World h) (xs : List ℕ) where
    -- The members stand, and every slot has the amount that it had.
    record Unchanged (w' : World h) : Type 0 where
      members : HoldsSet (open_sub_storage sto (0 ∷ [])) apart l w' xs
      dues : (s : StorageSlot) → due l w' s ≡ due l w s

    Unchanged-after_get :
        (s : StorageSlot) (w' : World h) → Unchanged w' → Unchanged (after_get s w')
    Unchanged-after_get s w' u = record {
      members = HoldsSet-after_get (open_sub_storage sto (0 ∷ [])) apart l s w' xs u.members;
      dues = λ t. due-after_get l s t w' ∙ u.dues t;
    }

    rounds_lem :
        (ys : List ℕ) (w' : World h)
        → AllIn ys xs
        → AllLe (2 ^ 160 - 1) ys
        → Unchanged w'
        → Ends
            (funds_due_of (open_table sto) ys)
            w'
            (λ r w''. (r ≡ opened (due_list w ys)) × Unchanged w'')
    unfolding funds_due_of due_list open_poster open_poster_if funds_due
    rounds_lem [] w' p small u = Ends-pure _ w' (refl, u)
    rounds_lem (y ∷ ys) w' p small u =
        Ends-bind_ok (open_poster (open_table sto) y false) _ w' found (
          Ends-bind_ok (get_big_int (internal_open (open_table sto) y).funds_due) _ w'
            (get_due l (internal_open (open_table sto) y).funds_due w')
            (Ends-bind (funds_due_of (open_table sto) ys) _ w1
              (rounds_lem ys w1 p.1 small.1
                (Unchanged-after_get (internal_open (open_table sto) y).funds_due w' u))
              (λ r w2 c.
                Ends-pure _ w2
                  (rw (c.0, u.dues (internal_open (open_table sto) y).funds_due) refl, c.1))))
      where
        w1 : World h
        w1 = after_get (internal_open (open_table sto) y).funds_due w'

        found :
            open_poster (open_table sto) y false w'
            ≡ ok (opened (internal_open (open_table sto) y)) w'
        found =
            bind-ok (is_member (open_table sto).poster_addrs y) _ w' (
              is_member_lem (open_sub_storage sto (0 ∷ [])) apart l w' xs y u.members
                (omega (arith, small.0)))
            ∙ rw p.0 refl

    -- On a host that is a store, for a table on a storage whose set of posters has a list and a mapping
    -- that do not collide: if the table holds the posters `xs`, 160-bit addresses, then
    -- `get_funds_due_list` returns those that are due a positive amount, in their order and with the
    -- amount, and leaves the table with the same posters and the same amounts.
    pub get_funds_due_list_lem :
        HoldsSet (open_sub_storage sto (0 ∷ [])) apart l w xs
        → AllLe (2 ^ 160 - 1) xs
        → Ends (get_funds_due_list (open_table sto)) w (λ r w'.
          (r ≡ opened (due_list w xs))
          × HoldsSet (open_sub_storage sto (0 ∷ [])) apart l w' xs
          × ((s : StorageSlot) → due l w' s ≡ due l w s))
    unfolding get_funds_due_list all_posters
    get_funds_due_list_lem q small =
        Ends-bind_ok (all_posters (open_table sto) u64_max) _ w
          (all_members_lem l (open_sub_storage sto (0 ∷ [])) apart w xs u64_max q small
            ∙ ap (λ ys. ok ys (after_get (open_slot (open_sub_storage sto (0 ∷ [])) 0) w))
                (take-min u64_max xs q.room))
          (flat (
            rounds_lem xs (after_get (open_slot (open_sub_storage sto (0 ∷ [])) 0) w)
              (AllIn-self xs) small
              (Unchanged-after_get (open_slot (open_sub_storage sto (0 ∷ [])) 0) w
                (record { members = q; dues = λ s. refl }))))
      where
        flat :
            {m : M (OpenPosterResult (List FundsDueItem))} {w' : World h}
            → Ends m w' (λ r w''. (r ≡ opened (due_list w xs)) × Unchanged w'')
            → Ends m w' (λ r w''.
              (r ≡ opened (due_list w xs))
              × HoldsSet (open_sub_storage sto (0 ∷ [])) apart l w'' xs
              × ((s : StorageSlot) → due l w'' s ≡ due l w s))
        flat e = record {
          result = e.result;
          after = e.after;
          returned = e.returned;
          left_with = (e.left_with.0, e.left_with.1.members, e.left_with.1.dues);
        }
