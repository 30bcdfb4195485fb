-- ===== src/Provenance/Ends.antt =====
-- The additions end: the walk along a lineage does not run out of fuel.
use vheatm.Prelude.{
  ◌+◌, ◌≢◌, ap, String, Bool, true, false, not, Option, List, [], ◌∷◌, arith, all, has, length,
  Outcome, ok, raised, ◌>>=◌, guard,
}
use vheatm.Json.{Json, Fields, get}
use vheatm.Router.{nodes}
use vheatm.Router.Missing.{missing-le-length}
use vheatm.Router.Visits.{length-nodes}
use vheatm.Provenance.{
  Services, ProvenanceError, out_of_fuel, str_set, iterated, unknown_lineage, own_lineage,
}
use vheatm.Provenance.Lineage.{visit-ends}
use vheatm.Provenance.Registry.{
  Records, Registry, lineage_graph, put_node, validate_claim_lineage, known_id,
}

both_end :
    {A B : Type 0} (step : Outcome ProvenanceError A) (rest : A → Outcome ProvenanceError B)
    → step ≢ raised out_of_fuel
    → ((a : A) → rest a ≢ raised out_of_fuel)
    → (step >>= rest) ≢ raised out_of_fuel
both_end (ok a) rest s r h = r a h
both_end (raised error) rest s r h = s (ap raised (cc h))

ok_ends : {A : Type 0} (a : A) → ◌≢◌ {A = Outcome ProvenanceError A} (ok a) (raised out_of_fuel)
ok_ends a h = cc h

guard_ends : (b : Bool) (e : ProvenanceError) → e ≢ out_of_fuel → guard b e ≢ raised out_of_fuel
guard_ends true e n h = cc h
guard_ends false e n h = n (cc h)

iterated-ends : (v : Option Json) → iterated v ≢ raised out_of_fuel
iterated-ends v h = ground arith

module _ (S : Services) where
  str_set-ends : (k : String) (d : Fields) → str_set S.python k d ≢ raised out_of_fuel
  unfolding str_set
  str_set-ends k d = both_end (iterated (get k d)) _ (iterated-ends (get k d)) (λ vs. ok_ends _)

  lineage_graph-ends : (claims : Records) → lineage_graph S claims ≢ raised out_of_fuel
  unfolding lineage_graph
  lineage_graph-ends [] h = cc h
  lineage_graph-ends ((id, r) ∷ rs) h =
      both_end (str_set S.python "lineage_refs" r) _ (str_set-ends "lineage_refs" r)
        (λ refs. both_end (lineage_graph S rs) _ (lineage_graph-ends rs) (λ graph. ok_ends _)) h

  -- The check of a claim's lineage ends, whatever the claims of the registry refer to: the walk along the
  -- lineage has enough fuel, since a path holds no claim twice.
  pub validate_claim_lineage-ends :
      (r : Registry) (id : String) (refs : List String)
      → validate_claim_lineage S r id refs ≢ raised out_of_fuel
  unfolding validate_claim_lineage
  validate_claim_lineage-ends r id refs =
      both_end (guard (all (known_id r) refs) unknown_lineage) _ (guard_ends _ _ (λ h. cc h)) (λ u.
        both_end (guard (not (has refs id)) own_lineage) _ (guard_ends _ _ (λ h. cc h)) (λ v.
          both_end (lineage_graph S r.claims) _ (lineage_graph-ends r.claims) (λ graph.
            let full = put_node S id refs graph in
            visit-ends full (length full + 2) [] id
              (omega (arith, missing-le-length [] (nodes full), length-nodes full)))))
