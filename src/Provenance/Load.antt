-- ===== src/Provenance/Load.antt =====
-- `_load_document`: a registry is built from a document by adding its records, in their order.
use vheatm.Prelude.{
  String, Bool, true, false, Option, none, some, List, [], ◌∷◌, ◌++◌, lookup, sort_unique, Outcome,
  ok, raised, ◌>>=◌, ◌>>◌, guard, if◌then◌else◌,
}
use vheatm.Json.{
  Json, Fields, null, str, arr, obj, end, field, get, field_is, json_eq, str_field, to_list,
  from_list,
}
use vheatm.Evaluator.{truthy}
use vheatm.Provenance.{
  Services, ProvenanceError, iterated, unsupported_schema, journal_not_array, root_mismatch,
  not_object,
}
use vheatm.Provenance.Registry.{
  Records, Registry, Added, empty_registry, ids_of, last_hash, make_journal_event, add_source,
  add_validation_receipt, add_claim,
}
use vheatm.Provenance.Journal.{validate_journal}

-- A loop of additions, which ends with the first that raises.
unfoldable pub read_all :
    (Registry → Fields → Added) → List Json → Registry → Outcome ProvenanceError Registry
read_all add [] r = ok r
read_all add (obj d ∷ vs) r = (add r d).0 >>= λ u. read_all add vs (add r d).1
read_all add (v ∷ vs) r = raised not_object

-- `[deepcopy(dict(event)) for event in supplied_journal]`
unfoldable pub events_of : List Json → Outcome ProvenanceError (List Fields)
events_of [] = ok []
events_of (obj d ∷ vs) = do later ← events_of vs; ok (d ∷ later)
events_of (v ∷ vs) = raised not_object

-- `[records[key] for key in sorted(records)]`
abbrev records_in_order : Records → List String → List Json
records_in_order records [] = []
records_in_order records (id ∷ ids) = elim (lookup id records) [
  | none ↦ records_in_order records ids
  | some r ↦ obj r ∷ records_in_order records ids
]

module _ (S : Services) where
  -- `root_hash`
  unfoldable pub root_hash : Registry → String
  unfolding sort_unique
  root_hash r =
      let sorted = λ (records : Records).
        arr (from_list (records_in_order records (sort_unique (ids_of records)))) in
      S.sha256 (
        S.dumps (
          obj (
            field "schema_version" (str "1.0.0") (
              field "sources" (sorted r.sources) (
                field "validation_receipts" (sorted r.validation_receipts)
                  (field "claims" (sorted r.claims) end))))))

  -- The loop of `_legacy_journal` over one kind of records.
  unfoldable pub legacy_events :
      String → String → Records → List Fields → Outcome ProvenanceError (List Fields)
  unfolding make_journal_event last_hash
  legacy_events record_type key [] events = ok events
  legacy_events record_type key ((id, r) ∷ rs) events = do
    let recorded = elim (get key r) as (λ _. String) [
      | none ↦ "1970-01-01T00:00:00Z"
      | some v ↦ if truthy S.python v then str_field S.python key r else "1970-01-01T00:00:00Z"
    ]
    event ← make_journal_event S record_type id "legacy-import" recorded (last_hash events)
    legacy_events record_type key rs (events ++ event ∷ [])

  -- `_legacy_journal`
  unfoldable pub legacy_journal : Registry → Outcome ProvenanceError (List Fields)
  unfolding legacy_events
  legacy_journal r = do
    sources ← legacy_events "source" "captured_at" r.sources []
    receipts ← legacy_events "validation_receipt" "validated_at" r.validation_receipts sources
    legacy_events "claim" "captured_at" r.claims receipts

  -- The journal of a document.
  unfoldable pub journal_of : Registry → Option Json → Outcome ProvenanceError (List Fields)
  unfolding legacy_journal events_of
  journal_of r none = legacy_journal r
  journal_of r (some null) = legacy_journal r
  journal_of r (some (arr vs)) = events_of (to_list vs)
  journal_of r (some v) = raised journal_not_array

  -- `declared_root is None or declared_root == self.root_hash`
  abbrev pub root_agrees : String → Option Json → Bool
  root_agrees root none = true
  root_agrees root (some null) = true
  root_agrees root (some v) = json_eq S.python v (str root)

  -- The records of a document, in a registry that does not log them.
  unfoldable pub load_records : Fields → Outcome ProvenanceError Registry
  unfolding read_all add_source add_validation_receipt add_claim
  load_records document = do
    sources ← iterated (get "sources" document)
    r ←
        read_all (λ r d. add_source S r d "system" none) sources
          (record empty_registry { loading = true })
    receipts ← iterated (get "validation_receipts" document)
    r ← read_all (λ r d. add_validation_receipt S r d "system" none) receipts r
    claims ← iterated (get "claims" document)
    read_all (λ r d. add_claim S r d "system" none) claims r

  unfoldable pub load_document : Fields → Outcome ProvenanceError Registry
  unfolding load_records journal_of validate_journal root_hash
  load_document document = do
    guard (field_is S.python (get "schema_version" document) (str "1.0.0")) unsupported_schema
    r ← load_records document
    journal ← journal_of r (get "journal" document)
    let loaded = record r { journal = journal; loading = false }
    validate_journal S loaded
    guard (root_agrees (root_hash loaded) (get "root_hash" document)) root_mismatch
    ok loaded
