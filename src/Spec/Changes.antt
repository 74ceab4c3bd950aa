-- ===== src/Spec/Changes.antt =====
-- Any sequence of changes of the hard fork leaves the precompiles of the last one.
use arb_reth.Prelude.{◌≡◌, refl, Bool, true, false, List, [], ◌∷◌}
use arb_reth.Spec.{
  ArbSpecId, arbitrum, stylus, dia, into_eth_spec, EthSets, ArbPrecompiles, set_of, new_with_spec,
  default_precompiles, set_spec,
}

module _ (e : EthSets) where
  -- The precompiles after some changes, and what the calls returned.
  abbrev pub set_specs : ArbPrecompiles → List ArbSpecId → List Bool × ArbPrecompiles
  set_specs p [] = ([], p)
  set_specs p (spec ∷ specs) =
      let r = set_spec e p spec in let rest = set_specs r.1 specs in (r.0 ∷ rest.0, rest.1)

  -- The fork that is in force after some changes, and whether each change was one.
  abbrev pub last_spec : ArbSpecId → List ArbSpecId → ArbSpecId
  last_spec spec [] = spec
  last_spec spec (next ∷ specs) = last_spec next specs

  abbrev pub is_change : ArbSpecId → ArbSpecId → Bool
  is_change arbitrum arbitrum = false
  is_change stylus stylus = false
  is_change dia dia = false
  is_change old new = true

  abbrev pub changes : ArbSpecId → List ArbSpecId → List Bool
  changes spec [] = []
  changes spec (next ∷ specs) = is_change spec next ∷ changes next specs

  set_spec_lem :
      (old spec : ArbSpecId)
      → set_spec e (new_with_spec e old) spec ≡ (is_change old spec, new_with_spec e spec)
  unfolding set_spec new_with_spec
  set_spec_lem arbitrum arbitrum = refl
  set_spec_lem arbitrum stylus = refl
  set_spec_lem arbitrum dia = refl
  set_spec_lem stylus arbitrum = refl
  set_spec_lem stylus stylus = refl
  set_spec_lem stylus dia = refl
  set_spec_lem dia arbitrum = refl
  set_spec_lem dia stylus = refl
  set_spec_lem dia dia = refl

  set_specs_from :
      (old : ArbSpecId) (specs : List ArbSpecId)
      → set_specs (new_with_spec e old) specs
        ≡ (changes old specs, new_with_spec e (last_spec old specs))
  set_specs_from old [] = refl
  set_specs_from old (spec ∷ specs) = rw (set_spec_lem old spec, set_specs_from spec specs) refl

  -- After any changes from the default precompiles, the precompiles, the Ethereum fork and the fork
  -- are those of the last change, or of Dia without one, and each call returned whether its fork
  -- differed from the one before.
  pub set_specs_lem :
      (specs : List ArbSpecId)
      → let last = last_spec dia specs in
        let after = (set_specs (default_precompiles e) specs).1 in
        (after.spec ≡ last)
        × (after.eth_spec ≡ into_eth_spec last)
        × (after.precompiles ≡ set_of e last)
        × ((set_specs (default_precompiles e) specs).0 ≡ changes dia specs)
  unfolding default_precompiles new_with_spec
  set_specs_lem specs = rw (set_specs_from dia specs) (refl, refl, refl, refl)
