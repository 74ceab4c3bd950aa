-- ===== src/Alias/Tests.antt =====
-- The aliases of a concrete address.
use arb_reth.Prelude.{◌≡◌, refl, List, ℕ, [], ◌∷◌}
use arb_reth.Bytes.{all_bytes→IsBytes}
use arb_reth.Alias.{
  apply_l1_to_l2_alias, undo_l1_to_l2_alias, undo_l1_to_l2_alias-apply_l1_to_l2_alias,
}

abbrev an_address : List ℕ
an_address =
    255 ∷ 238 ∷ 0 ∷ 1 ∷ 2 ∷ 3 ∷ 4 ∷ 5 ∷ 6 ∷ 7 ∷ 8 ∷ 9 ∷ 10 ∷ 11 ∷ 12 ∷ 13 ∷ 14 ∷ 255 ∷ 255 ∷ 239
    ∷ []

undo_l1_to_l2_alias-apply_l1_to_l2_alias_example :
    (undo_l1_to_l2_alias (apply_l1_to_l2_alias an_address) ≡ an_address)
    × (apply_l1_to_l2_alias (undo_l1_to_l2_alias an_address) ≡ an_address)
undo_l1_to_l2_alias-apply_l1_to_l2_alias_example =
    undo_l1_to_l2_alias-apply_l1_to_l2_alias an_address (all_bytes→IsBytes an_address refl)
