-- ===== src/Spec/Tests.antt =====
-- Changes of the hard fork, with sets of a few addresses.
use arb_reth.Prelude.{◌≡◌, refl, [], ◌∷◌, true, false}
use arb_reth.Spec.{arbitrum, stylus, dia, into_eth_spec, EthSets, set_of, default_precompiles}
use arb_reth.Spec.Changes.{set_specs, last_spec, changes, set_specs_lem}

abbrev test_sets : EthSets
test_sets = record {
  berlin_set = 1 ∷ 2 ∷ [];
  cancun_set = 1 ∷ 2 ∷ 10 ∷ [];
  osaka_set = 1 ∷ 2 ∷ 10 ∷ 256 ∷ [];
  p256_verify = 256;
}

changes_run : changes test_sets dia (stylus ∷ stylus ∷ arbitrum ∷ []) ≡ true ∷ false ∷ true ∷ []
changes_run = refl

set_specs_lem_example :
    let specs = stylus ∷ stylus ∷ arbitrum ∷ [] in
    let last = last_spec test_sets dia specs in
    let after = (set_specs test_sets (default_precompiles test_sets) specs).1 in
    (after.spec ≡ last)
    × (after.eth_spec ≡ into_eth_spec last)
    × (after.precompiles ≡ set_of test_sets last)
    × ((set_specs test_sets (default_precompiles test_sets) specs).0 ≡ changes test_sets dia specs)
set_specs_lem_example = set_specs_lem test_sets (stylus ∷ stylus ∷ arbitrum ∷ [])
