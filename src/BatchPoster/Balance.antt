-- ===== src/BatchPoster/Balance.antt =====
-- `set_funds_due` keeps the table's total the sum of what its posters are due.
use arb_reth.Prelude.{
  ℕ, ◌≡◌, refl, sym, ◌∙◌, ap, ap₂, arith, Bool, true, false, ◌&&◌, ◌==◌, ==_refl, List, [], ◌∷◌,
  if◌then◌else◌,
}
use arb_reth.Prelude.Int.{
  ℤ, pos, pos_part, neg_part, ◌+ℤ◌, ◌-ℤ◌, from_raw, to_raw, from_raw-to_raw, IsSigned, clamp_self,
  +ℤ_parts, -ℤ_parts, eq_of_parts,
}
use arb_reth.Signed.{i256_half, add_i256, sub_i256}
use arb_reth.Host.{Host, IsStore}
use arb_reth.World.{World, ok, ◌>>◌, bind-ok}
use arb_reth.World.Loop.{Leaves}
use arb_reth.Storage.Slot
use arb_reth.Storage.Slot.{
  StorageSlot, value, after_get, after_set, get_lem, set_lem, IsWritable, after_get-IsWritable,
  after_set-IsWritable, value-after_get, value-after_set,
}
use arb_reth.Storage.Typed.{get_big_int, set_big_int}
use arb_reth.Storage.Typed.Laws.{held}
use arb_reth.BatchPoster.{BatchPosterState, set_funds_due}

abbrev pub same_slot : StorageSlot → StorageSlot → Bool
same_slot s t = s.account == t.account && s.slot == t.slot

same_slot_refl : (s : StorageSlot) → same_slot s s ≡ true
same_slot_refl s = rw (==_refl s.account) (==_refl s.slot)

same_slot-sym : (s t : StorageSlot) → same_slot s t ≡ false → same_slot t s ≡ false
same_slot-sym s t e = ground (arith, e)

-- Taking off what was due before and adding what is due now.
moved_total : (t f r v : ℤ) → t ≡ f +ℤ r → t +ℤ v -ℤ f ≡ v +ℤ r
moved_total t f r v e = eq_of_parts (t +ℤ v -ℤ f) (v +ℤ r) (
    omega (
      arith,
      ap pos_part e,
      ap neg_part e,
      +ℤ_parts f r,
      +ℤ_parts t v,
      +ℤ_parts v r,
      -ℤ_parts (t +ℤ v) f,
    ))

-- The slot is none of these.
abbrev pub Differs : StorageSlot → List StorageSlot → Type 0
Differs s [] = Unit
Differs s (t ∷ ts) = (same_slot s t ≡ false) × Differs s ts

module _ ⦃h : Host⦄ (l : IsStore h) where
  -- The signed value of a slot.
  unfoldable pub due : World h → StorageSlot → ℤ
  due w s = from_raw i256_half (held l w s)

  unfoldable pub total_of : World h → List StorageSlot → ℤ
  total_of w [] = pos 0
  total_of w (s ∷ ss) = due w s +ℤ total_of w ss

  pub get_due : (s : StorageSlot) (w : World h) → get_big_int s w ≡ ok (due w s) (after_get s w)
  unfolding get_big_int due
  get_due s w = bind-ok (Slot.get s) _ w (get_lem l s w)

  pub due-after_get : (s t : StorageSlot) (w : World h) → due (after_get s w) t ≡ due w t
  unfolding due
  due-after_get s t w = ap (from_raw i256_half) (value-after_get l s w t.account t.slot)

  pub after_due : StorageSlot → ℤ → World h → World h
  after_due s v w = after_set l s (to_raw i256_half v) w

  pub set_due :
      (s : StorageSlot) (v : ℤ) (w : World h)
      → IsWritable w
      → set_big_int s v w ≡ ok tt (after_due s v w)
  unfolding set_big_int after_due
  set_due s v w p = set_lem l s _ w p

  pub after_due-IsWritable :
      (s : StorageSlot) (v : ℤ) (w : World h) → IsWritable w → IsWritable (after_due s v w)
  unfolding after_due
  after_due-IsWritable s v w p = after_set-IsWritable l s _ w p

  pub due-after_due :
      (s t : StorageSlot) (v : ℤ) (w : World h)
      → IsSigned i256_half v
      → due (after_due s v w) t ≡ (if same_slot s t then v else due w t)
  unfolding due after_due
  due-after_due s t v w p =
      ap (from_raw i256_half) (value-after_set l s (to_raw i256_half v) w t.account t.slot)
      ∙ raw_if (same_slot s t) v (held l w t) p
    where
      raw_if :
          (b : Bool) (v : ℤ) (raw : ℕ)
          → IsSigned i256_half v
          → from_raw i256_half (if b then to_raw i256_half v else raw)
            ≡ (if b then v else from_raw i256_half raw)
      raw_if true v raw p = from_raw-to_raw i256_half v p
      raw_if false v raw p = refl

  -- The total of slots that neither call touches.
  total_of-kept :
      (w w' : World h) (s t : StorageSlot) (others : List StorageSlot)
      → Differs s others
      → Differs t others
      → ((o : StorageSlot) → same_slot s o ≡ false → same_slot t o ≡ false → due w' o ≡ due w o)
      → total_of w' others ≡ total_of w others
  unfolding total_of
  total_of-kept w w' s t [] p q same = refl
  total_of-kept w w' s t (o ∷ others) p q same =
      ap₂ ◌+ℤ◌ (same o p.0 q.0) (total_of-kept w w' s t others p.1 q.1 same)

  module _ (s : BatchPosterState)
      (apart : same_slot s.table_total_funds_due s.funds_due ≡ false) where
    -- The table's total is the sum of what this poster and the others are due.
    abbrev pub Balanced : List StorageSlot → World h → Type 0
    Balanced others w = due w s.table_total_funds_due ≡ due w s.funds_due +ℤ total_of w others

    -- The total after the call, where nothing saturates.
    abbrev pub new_total : World h → ℤ → ℤ
    new_total w val = due w s.table_total_funds_due +ℤ val -ℤ due w s.funds_due

    after_funds : ℤ → World h → World h
    after_funds val w = after_due s.funds_due val (
        after_due s.table_total_funds_due (new_total w val)
          (after_get s.table_total_funds_due (after_get s.funds_due w)))

    new_total-eq :
        (w : World h) (val : ℤ)
        → IsSigned i256_half (due w s.table_total_funds_due +ℤ val)
        → IsSigned i256_half (new_total w val)
        → sub_i256 (add_i256 (due w s.table_total_funds_due) val) (due w s.funds_due)
          ≡ new_total w val
    unfolding sub_i256 add_i256
    new_total-eq w val p q =
        ap (λ x. sub_i256 x (due w s.funds_due)) (clamp_self i256_half _ p)
        ∙ clamp_self i256_half _ q

    due-after_funds :
        (w : World h) (val : ℤ) (o : StorageSlot)
        → IsSigned i256_half val
        → IsSigned i256_half (new_total w val)
        → due (after_funds val w) o ≡ (
            if same_slot s.funds_due o
            then val
            else if same_slot s.table_total_funds_due o
            then new_total w val
            else due w o)
    unfolding after_funds
    due-after_funds w val o p q =
        due-after_due s.funds_due o val _ p
        ∙ ap (λ x. if same_slot s.funds_due o then val else x)
            (due-after_due s.table_total_funds_due o (new_total w val) _ q
              ∙ ap (λ x. if same_slot s.table_total_funds_due o then new_total w val else x)
                  (due-after_get s.table_total_funds_due o _ ∙ due-after_get s.funds_due o w))

    -- On a host that is a store: on a writable world whose table total is the sum of what a poster and
    -- the others are due, `set_funds_due` of a signed 256-bit value returns, the poster is then due
    -- that value and the total is again the sum, as long as the slots are different and the totals on
    -- the way are signed 256-bit values.
    pub set_funds_due-Balanced :
        (w : World h) (val : ℤ) (others : List StorageSlot)
        → IsWritable w
        → IsSigned i256_half val
        → IsSigned i256_half (due w s.table_total_funds_due +ℤ val)
        → IsSigned i256_half (new_total w val)
        → Differs s.table_total_funds_due others
        → Differs s.funds_due others
        → Balanced others w
        → Leaves (set_funds_due s val) w (λ w'. (due w' s.funds_due ≡ val) × Balanced others w')
    unfolding set_funds_due after_funds
    set_funds_due-Balanced w val others p small grown total_fits totals funds balanced = record {
      after = after_funds val w;
      returned =
          bind-ok (get_big_int s.funds_due) _ w (get_due s.funds_due w)
          ∙ bind-ok (get_big_int s.table_total_funds_due) _ w1 (get_due s.table_total_funds_due w1)
          ∙ ap (λ x. (set_big_int s.table_total_funds_due x >> set_big_int s.funds_due val) w2)
              (ap (λ x. sub_i256 (add_i256 x val) (due w s.funds_due))
                  (due-after_get s.funds_due s.table_total_funds_due w)
                ∙ new_total-eq w val grown total_fits)
          ∙ bind-ok (set_big_int s.table_total_funds_due (new_total w val)) _ w2
              (set_due s.table_total_funds_due (new_total w val) w2 p2)
          ∙ set_due s.funds_due val _
              (after_due-IsWritable s.table_total_funds_due (new_total w val) w2 p2);
      left_with = (
        due_now,
        total_now
            ∙ moved_total _ _ (total_of w others) val balanced
            ∙ ap₂ ◌+ℤ◌ (sym due_now) (sym others_kept),
      );
    }
      where
        w1 : World h
        w1 = after_get s.funds_due w

        w2 : World h
        w2 = after_get s.table_total_funds_due w1

        p2 : IsWritable w2
        p2 = after_get-IsWritable s.table_total_funds_due w1 (after_get-IsWritable s.funds_due w p)

        due_now : due (after_funds val w) s.funds_due ≡ val
        due_now =
            due-after_funds w val s.funds_due small total_fits
            ∙ rw (same_slot_refl s.funds_due) refl

        total_now : due (after_funds val w) s.table_total_funds_due ≡ new_total w val
        total_now =
            due-after_funds w val s.table_total_funds_due small total_fits
            ∙ rw
                (
                  same_slot-sym s.table_total_funds_due s.funds_due apart,
                  same_slot_refl s.table_total_funds_due,
                )
                refl

        others_kept : total_of (after_funds val w) others ≡ total_of w others
        others_kept =
            total_of-kept w (after_funds val w) s.funds_due s.table_total_funds_due others funds
              totals (λ o f t. due-after_funds w val o small total_fits ∙ rw (f, t) refl)
