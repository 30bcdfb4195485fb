-- ===== src/Provenance/Lineage.antt =====
-- The walk along the lineage of a claim, in `_validate_claim_lineage`. Fuel bounds its depth.
use vheatm.Prelude.{
  ℕ, zero, suc, ◌+◌, ◌<◌, ◌≡◌, ◌≢◌, refl, ◌∙◌, String, Bool, true, false, Bool-cases, inl, inr,
  none, some, List, [], ◌∷◌, arith, has, has-head, select, strip_prefix, Outcome, ok, raised,
  Outcome-cases, ◌>>◌, if◌then◌else◌,
}
use vheatm.Router.{Graph, children, nodes}
use vheatm.Router.Missing.{missing, missing-lt, has-tail}
use vheatm.Provenance.{ProvenanceError, lineage_cycle, out_of_fuel}

-- `parent.startswith("CLM-")`
abbrev is_claim : String → Bool
is_claim id = elim (strip_prefix "CLM-" id) [ none ↦ false | some rest ↦ true ]

-- The loop over the parents.
unfoldable pub visit_each :
    (String → Outcome ProvenanceError (Unit {0})) → List String → Outcome ProvenanceError (Unit {0})
visit_each visit [] = ok tt
visit_each visit (p ∷ ps) = visit p >> visit_each visit ps

module _ (graph : Graph) where
  -- `visit`
  unfoldable pub visit : ℕ → List String → String → Outcome ProvenanceError (Unit {0})
  unfolding visit_each
  visit zero path current = raised out_of_fuel
  visit (suc fuel) path current =
      let parents =
        visit_each (visit fuel (current ∷ path)) (select is_claim (children graph current)) in
      if has path current then raised lineage_cycle else parents

each-ends :
    (step : String → Outcome ProvenanceError (Unit {0})) (ps : List String)
    → ((p : String) → step p ≢ raised out_of_fuel)
    → visit_each step ps ≢ raised out_of_fuel
unfolding visit_each
each-ends step [] ends h = cc
each-ends step (p ∷ ps) ends h = elim (Outcome-cases (step p)) [
  | inl (u, e) ↦ each-ends step ps ends (rw e at h)
  | inr (error, e) ↦ ends p (e ∙ rw e at h)
]

no_parents : (graph : Graph) (n : String) → has (nodes graph) n ≡ false → children graph n ≡ []
no_parents [] n h = refl
no_parents ((k, ds) ∷ graph) n h = ground (arith, no_parents graph n)

module _ (graph : Graph) where
  -- The walk has enough fuel with two units more than the claims that are not on the path.
  pub visit-ends :
      (fuel : ℕ) (path : List String) (current : String)
      → missing path (nodes graph) + 1 < fuel
      → visit graph fuel path current ≢ raised out_of_fuel
  unfolding visit
  visit-ends zero path current b h = absurd (omega arith)
  visit-ends (suc fuel) path current b h = elim (Bool-cases (has path current)) [
    | inl again ↦ cc (rw again at h)
    | inr fresh ↦ elim (Bool-cases (has (nodes graph) current)) [
      | inl known ↦
          each-ends (visit graph fuel (current ∷ path)) (select is_claim (children graph current))
            (λ p. visit-ends fuel (current ∷ path) p (
              omega (
                arith,
                missing-lt path (current ∷ path) (nodes graph) current
                    (λ k. has-tail current k path) known fresh (has-head current path),
              )))
            (rw fresh at h)
      | inr unknown ↦ cc (rw (fresh, no_parents graph current unknown) at h)
    ]
  ]
