-- ===== src/Provenance/Scenarios.antt =====
-- A source, a receipt and a claim that are added, and witnesses of the registry's theorems.
use vheatm.Prelude.{
  ◌≡◌, ◌≢◌, refl, String, true, false, Option, none, some, List, [], ◌∷◌, length, ok, raised,
  Outcome,
}
use vheatm.Json.{Fields, Python, Json, str, arr, obj, nil, cons, end, field}
use vheatm.Provenance.{Services, ProvenanceError, empty_actor, unknown_sources}
use vheatm.Provenance.Registry.{
  Registry, Addition, source, receipt, claim, empty_registry, add, add_all, ids_of,
  validate_claim_lineage,
}
use vheatm.Provenance.Consistent.{IsConsistent}
use vheatm.Provenance.Preserved.{add_all-IsConsistent}
use vheatm.Provenance.Chain.{IsChain, add_all-IsChain}
use vheatm.Provenance.Load.{load_document}
use vheatm.Provenance.Loaded.{IsJournaled, load_document-IsConsistent}
use vheatm.Provenance.Ends.{validate_claim_lineage-ends}

abbrev python : Python
python = record {
  repr = λ v. "None";
  float_eq = λ x y. false;
  float_lt = λ x y. false;
  float_le = λ x y. false;
}

abbrev services : Services
services = record {
  python = python;
  dumps = λ v. "d";
  sha256 = λ s. s;
  upper = λ s. s;
  lower = λ s. s;
  has_timezone = λ s. some true;
  now = "2026-01-01T00:00:00Z";
}

abbrev digest : Fields
digest =
    field "algorithm" (str "sha256")
      (field "value" (str "aaaaaaaaaaaaaaaabbbbbbbbbbbbbbbbccccccccccccccccdddddddddddddddd") end)

abbrev some_source : Fields
some_source = field "id" (str "SRC-d") (
    field "source_type" (str "file") (
      field "locator" (str "src/a.py") (
        field "digest" (obj digest)
          (field "trust_zone" (str "artifact_content") (field "taint_state" (str "tainted") end)))))

abbrev some_receipt : Fields
some_receipt = field "id" (str "VRF-d") (
    field "source_refs" (arr (cons (str "SRC-d") nil)) (
      field "validator" (str "ci") (
        field "method" (str "replay")
          (field "result" (str "validated") (field "input_digest" (str "") end)))))

abbrev some_claim : Fields
some_claim = field "id" (str "CLM-d") (
    field "text" (str "a  holds") (
      field "epistemic_status" (str "verified") (
        field "source_refs" (arr (cons (str "SRC-d") nil)) (
          field "validation_receipt_refs" (arr (cons (str "VRF-d") nil)) (
            field "lineage_refs" (arr (cons (str "SRC-d") nil))
              (field "gate_trace" (arr (cons (str "HG-01") nil)) end))))))

abbrev calls : List Addition
calls =
    claim some_claim "ci" none
    ∷ source some_source "ci" none
    ∷ receipt some_receipt "ci" none
    ∷ claim some_claim "ci" none
    ∷ []

empty_holds : IsConsistent services empty_registry
empty_holds = record {
  sources_hold = λ id q h. cc;
  receipts_hold = λ id q h. cc;
  claims_hold = λ id q h. cc;
}

-- The first call is refused, since the claim's source is not there yet.
refused_first :
    (add services (claim some_claim "ci" none) empty_registry).0 ≡ raised unknown_sources
unfolding add vheatm.Prelude.sort_unique vheatm.Json.json_eq
refused_first = refl

three_logged : length (add_all services calls empty_registry).journal ≡ 3
unfolding add_all vheatm.Prelude.sort_unique vheatm.Json.json_eq vheatm.Prelude.join
three_logged = refl

-- An empty actor is refused after the record has been put in.
left_behind : (add services (source some_source "" none) empty_registry).0 ≡ raised empty_actor
unfolding add vheatm.Prelude.sort_unique vheatm.Json.json_eq
left_behind = refl

left_behind_ids :
    ids_of (add services (source some_source "" none) empty_registry).1.sources ≡ "SRC-d" ∷ []
unfolding add vheatm.Prelude.sort_unique vheatm.Json.json_eq
left_behind_ids = refl

add_all-IsConsistent_example : IsConsistent services (add_all services calls empty_registry)
add_all-IsConsistent_example = add_all-IsConsistent services calls empty_registry empty_holds

add_all-IsChain_example : IsChain services (str "") (add_all services calls empty_registry).journal
add_all-IsChain_example = add_all-IsChain services calls empty_registry tt

validate_claim_lineage-ends_example :
    validate_claim_lineage services (add_all services calls empty_registry) "CLM-e" ("CLM-d" ∷ [])
    ≢ raised ProvenanceError.out_of_fuel
validate_claim_lineage-ends_example =
    validate_claim_lineage-ends services (add_all services calls empty_registry) "CLM-e"
      ("CLM-d" ∷ [])

abbrev document : Fields
document =
    field "schema_version" (str "1.0.0") (field "sources" (arr (cons (obj some_source) nil)) end)

abbrev loaded : Outcome ProvenanceError Registry → Registry
loaded (ok r) = r
loaded (raised e) = empty_registry

loads : load_document services document ≡ ok (loaded (load_document services document))
unfolding load_document vheatm.Json.json_eq
loads = refl

load_document-IsConsistent_example :
    IsConsistent services (loaded (load_document services document))
    × IsJournaled services (loaded (load_document services document))
load_document-IsConsistent_example =
    load_document-IsConsistent services document (loaded (load_document services document)) loads
