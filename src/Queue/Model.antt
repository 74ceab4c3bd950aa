-- ===== src/Queue/Model.antt =====
-- The list that a queue's storage holds: the abstract state of the queue.
use arb_reth.Prelude.{
  ℕ, zero, suc, ◌+◌, ◌≤◌, ◌<◌, ◌≡◌, refl, ◌∙◌, ap, ap₂, List, [], ◌∷◌, ◌++◌, arith, length, u64_max,
}
use arb_reth.Host.{Host, IsStore}
use arb_reth.World.{World}
use arb_reth.Storage.Slot.{IsWritable}
use arb_reth.Storage.Space.{Storage}
use arb_reth.Storage.Space.Laws.{cell}

module _ ⦃h : Host⦄ (l : IsStore h) (sto : Storage) where
  -- The words at `n` offsets from `i` on.
  abbrev pub window : World h → ℕ → ℕ → List ℕ
  window w i zero = []
  window w i (suc n) = cell l w sto i ∷ window w (i + 1) n

  -- The storage holds a queue of these entries, the first of them at offset `first`.
  pub record Holds (w : World h) (first : ℕ) (xs : List ℕ) : Type 0 where
    pub writable : IsWritable w
    pub first_ok : 2 ≤ first
    pub room : first + length xs ≤ u64_max
    pub put_at : cell l w sto 0 ≡ first + length xs
    pub get_at : cell l w sto 1 ≡ first
    pub entries : window w first (length xs) ≡ xs

  -- Worlds with the same words in a range have the same window.
  pub window_cong :
      (w w' : World h) (n i : ℕ)
      → ((j : ℕ) → i ≤ j → j < i + n → cell l w' sto j ≡ cell l w sto j)
      → window w' i n ≡ window w i n
  window_cong w w' zero i same = refl
  window_cong w w' (suc n) i same =
      ap₂ ◌∷◌ (same i (omega arith) (omega arith))
        (window_cong w w' n (i + 1) (λ j p q. same j (omega arith) (omega arith)))

  pub window-append_one :
      (w : World h) (n i : ℕ) → window w i (suc n) ≡ window w i n ++ cell l w sto (i + n) ∷ []
  window-append_one w zero i = ap (λ j. cell l w sto j ∷ []) (omega arith)
  window-append_one w (suc n) i =
      ap (λ t. cell l w sto i ∷ t)
        (window-append_one w n (i + 1)
          ∙ ap (λ j. window w (i + 1) n ++ cell l w sto j ∷ []) (omega arith))
