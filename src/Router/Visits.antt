-- ===== src/Router/Visits.antt =====
-- What the search of _find_cycle says is said by one of its steps; how many nodes a path misses.
use vheatm.Prelude.{
  suc, ◌<◌, ◌≡◌, ◌≢◌, refl, ap, ◌∙◌, String, true, false, inl, inr, ◌⊎◌, List, [], ◌∷◌, ◌++◌, arith,
  has, has-head, length,
}
use vheatm.Router.{Graph, nodes}
use vheatm.Router.Missing.{missing, missing-lt, has-append}
use vheatm.Router.Cycle.{Visit, cycle, visited, out_of_fuel, visit_each}

pub Visit-cases :
    (v : Visit)
    → ((path : List String) × (v ≡ cycle path))
      ⊎ (((seen : List String) × (v ≡ visited seen)) ⊎ (v ≡ out_of_fuel))
Visit-cases (cycle path) = inl (path, refl)
Visit-cases (visited seen) = inr (inl (seen, refl))
Visit-cases out_of_fuel = inr (inr refl)

-- The dependency that made a search report a cycle.
pub each-cycle :
    (step : String → List String → Visit) (ds seen : List String) (c : List String)
    → visit_each step ds seen ≡ cycle c
    → (d : String) × (at : List String) × (has ds d ≡ true) × (step d at ≡ cycle c)
unfolding visit_each
each-cycle step [] seen c h = cc
each-cycle step (d ∷ ds) seen c h = elim (Visit-cases (step d seen)) [
  | inl (path, e) ↦ (d, seen, has-head d ds, e ∙ (rw e at h))
  | inr (inl (more, e)) ↦
      let (d', at, member, found) = each-cycle step ds more c (rw e at h) in
      (d', at, ground arith, found)
  | inr (inr e) ↦ cc (rw e at h)
]

pub each-ends :
    (step : String → List String → Visit) (ds seen : List String)
    → ((d : String) (at : List String) → step d at ≢ out_of_fuel)
    → visit_each step ds seen ≢ out_of_fuel
unfolding visit_each
each-ends step [] seen ends h = cc
each-ends step (d ∷ ds) seen ends h = elim (Visit-cases (step d seen)) [
  | inl (path, e) ↦ cc (rw e at h)
  | inr (inl (more, e)) ↦ each-ends step ds more ends (rw e at h)
  | inr (inr e) ↦ ends d seen e
]

pub no_children :
    (step : String → List String → Visit) (seen ds : List String)
    → ds ≡ []
    → visit_each step ds seen ≢ out_of_fuel
unfolding visit_each
no_children step seen [] e h = cc
no_children step seen (d ∷ ds) e h = cc

pub missing-pushed :
    (stack ks : List String) (node : String)
    → has ks node ≡ true
    → has stack node ≡ false
    → missing (stack ++ node ∷ []) ks < missing stack ks
missing-pushed stack ks node key fresh =
    missing-lt stack (stack ++ node ∷ []) ks node
      (λ k held. (rw (has-append stack (node ∷ []) k, held) refl)) key fresh
      (rw (has-append stack (node ∷ []) node, fresh) (has-head node []))

pub length-nodes : (g : Graph) → length (nodes g) ≡ length g
length-nodes [] = refl
length-nodes ((k, ds) ∷ g) = ap suc (length-nodes g)
