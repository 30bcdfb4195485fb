-- ===== src/Provenance/Registry.antt =====
-- `ProvenanceRegistry`: the additions and the journal.
use vheatm.Prelude.{
  ◌+◌, String, Bool, true, false, not, ◌&&◌, ◌||◌, Option, none, some, List, [], ◌∷◌, ◌++◌, ◌==◌,
  has, all, length, lookup, is_blank, pos, Outcome, ok, raised, ◌>>=◌, ◌>>◌, guard, if◌then◌else◌,
}
use vheatm.Json.{
  Json, Fields, null, str, arr, obj, end, field, get, put, remove, number, number_le, whole,
  json_eq, str_field,
}
use vheatm.Evaluator.{truthy}
use vheatm.Router.{Graph}
use vheatm.Provenance.{
  Services, ProvenanceError, str_set, is_nil, or_else, unknown_with_confidence, bad_confidence,
  verified_without_sources, unknown_sources, unknown_receipts, unknown_superseded, unknown_lineage,
  own_lineage, id_mismatch, mutation, empty_actor, not_hashable,
}
use vheatm.Provenance.Identity.{
  content_id, expected_source_id, validate_source_trust_state, claim_identity, expected_claim_id,
  validation_receipt_identity, expected_validation_receipt_id,
}
use vheatm.Provenance.Lineage.{visit}

-- A dictionary of records by their ids, in order of insertion.
abbrev pub Records : Type 0
Records = List (String × Fields)

abbrev pub ids_of : Records → List String
ids_of [] = []
ids_of ((id, r) ∷ rs) = id ∷ ids_of rs

-- `target[id] = record`
unfoldable pub put_record : String → Fields → Records → Records
put_record id r [] = (id, r) ∷ []
put_record id r ((j, q) ∷ rs) =
    let rest = put_record id r rs in if j == id then (j, r) ∷ rs else (j, q) ∷ rest

pub record Registry : Type 0 where
  pub sources : Records
  pub validation_receipts : Records
  pub claims : Records
  pub journal : List Fields
  pub loading : Bool

-- `ProvenanceRegistry()`
abbrev pub empty_registry : Registry
empty_registry = record {
  sources = [];
  validation_receipts = [];
  claims = [];
  journal = [];
  loading = false;
}

-- What an addition leaves: whether it raised, and the registry, which it may have changed before.
abbrev pub Added : Type 0
Added = Outcome ProvenanceError (Unit {0}) × Registry

-- A call that adds a record, with its actor and its time.
pub data Addition : Type 0 where
  source : Fields → String → Option String → Addition
  receipt : Fields → String → Option String → Addition
  claim : Fields → String → Option String → Addition

-- Is every one of these a key?
abbrev pub all_known : List String → Records → Bool
all_known refs records = all (has (ids_of records)) refs

-- `set(self._sources) | set(self._claims) | set(self._validation_receipts)`
abbrev pub known_id : Registry → String → Bool
known_id r id =
    has (ids_of r.sources) id || has (ids_of r.claims) id || has (ids_of r.validation_receipts) id

-- `self._journal[-1]["event_hash"] if self._journal else ""`
unfoldable pub last_hash : List Fields → Json
last_hash [] = str ""
last_hash (event ∷ []) = elim (get "event_hash" event) [ none ↦ null | some v ↦ v ]
last_hash (event ∷ next ∷ events) = last_hash (next ∷ events)

module _ (S : Services) where
  -- `expected_journal_event_id`
  unfoldable pub expected_journal_event_id : Fields → String
  unfolding content_id remove
  expected_journal_event_id event =
      content_id S "EVT" (obj (remove "id" (remove "event_hash" event)))

  -- `_expected_event_hash`
  unfoldable pub expected_event_hash : Fields → String
  unfolding remove
  expected_event_hash event = S.sha256 (S.dumps (obj (remove "event_hash" event)))

  -- `_make_journal_event`
  unfoldable pub make_journal_event :
      String → String → String → String → Json → Outcome ProvenanceError Fields
  unfolding expected_journal_event_id expected_event_hash is_blank put
  make_journal_event record_type record_id actor occurred_at previous_hash = do
    guard (not (is_blank actor)) empty_actor
    let event = field "id" (str "") (
        field "record_type" (str record_type) (
          field "record_id" (str record_id) (
            field "action" (str "add") (
              field "actor" (str actor) (
                field "occurred_at" (str occurred_at) (field "previous_hash" previous_hash end))))))
    let named = put "id" (str (expected_journal_event_id event)) event
    ok (put "event_hash" (str (expected_event_hash named)) named)

  -- `_append_journal`
  unfoldable pub append_journal : String → String → String → String → Registry → Added
  unfolding make_journal_event last_hash
  append_journal record_type record_id actor occurred_at r =
      elim (make_journal_event record_type record_id actor occurred_at (last_hash r.journal)) [
        | raised e ↦ (raised e, r)
        | ok event ↦ (ok tt, record r { journal = r.journal ++ event ∷ [] })
      ]

  -- `not (previous is not None and previous != candidate)`
  abbrev pub unchanged : Option Fields → Fields → Bool
  unchanged none candidate = true
  unchanged (some previous) candidate = json_eq S.python (obj previous) (obj candidate)

  -- `_insert`
  unfoldable pub insert : Records → Fields → String → Outcome ProvenanceError Records
  unfolding put_record
  insert target candidate expected_id = do
    guard (str_field S.python "id" candidate == expected_id) id_mismatch
    guard (unchanged (lookup expected_id target) candidate) mutation
    ok (put_record expected_id candidate target)

  -- `occurred_at or str(record.get(key) or now)`
  abbrev pub occurred : Option String → String → Fields → String
  occurred given key record' =
      let recorded : String = elim (get key record') [
        | none ↦ S.now
        | some v ↦ if truthy S.python v then str_field S.python key record' else S.now
      ] in
      elim given [ none ↦ recorded | some at ↦ or_else at recorded ]

  -- `if not existed and not self._loading: self._append_journal(...)`
  unfoldable pub log : Bool → String → String → String → String → Registry → Added
  unfolding append_journal
  log existed record_type record_id actor occurred_at r =
      if existed || r.loading
      then (ok tt, r)
      else append_journal record_type record_id actor occurred_at r

  -- The id of a source that may be added, and the sources with it.
  unfoldable pub checked_source : Registry → Fields → Outcome ProvenanceError (String × Records)
  unfolding validate_source_trust_state expected_source_id insert
  checked_source r record' = do
    validate_source_trust_state S record'
    id ← expected_source_id S record'
    sources ← insert r.sources record' id
    ok (id, sources)

  unfoldable pub add_source : Registry → Fields → String → Option String → Added
  unfolding checked_source log
  add_source r record' actor occurred_at = elim (checked_source r record') [
    | raised e ↦ (raised e, r)
    | ok (id, sources) ↦
        log (has (ids_of r.sources) id) "source" id actor
          (occurred occurred_at "captured_at" record') (record r { sources = sources })
  ]

  unfoldable pub checked_receipt : Registry → Fields → Outcome ProvenanceError (String × Records)
  unfolding validation_receipt_identity expected_validation_receipt_id insert
  checked_receipt r record' = do
    identity ← validation_receipt_identity S record'
    guard (all_known identity.source_refs r.sources) unknown_sources
    id ← expected_validation_receipt_id S record'
    receipts ← insert r.validation_receipts record' id
    ok (id, receipts)

  unfoldable pub add_validation_receipt : Registry → Fields → String → Option String → Added
  unfolding checked_receipt log
  add_validation_receipt r record' actor occurred_at = elim (checked_receipt r record') [
    | raised e ↦ (raised e, r)
    | ok (id, receipts) ↦
        log (has (ids_of r.validation_receipts) id) "validation_receipt" id actor
          (occurred occurred_at "validated_at" record')
          (record r { validation_receipts = receipts })
  ]

  -- The lineages of the claims that are there.
  unfoldable pub lineage_graph : Records → Outcome ProvenanceError Graph
  unfolding str_set
  lineage_graph [] = ok []
  lineage_graph ((id, r) ∷ rs) = do
    refs ← str_set S.python "lineage_refs" r
    graph ← lineage_graph rs
    ok ((id, refs) ∷ graph)

  -- `graph[claim_id] = set(refs)`
  unfoldable pub put_node : String → List String → Graph → Graph
  put_node id refs [] = (id, refs) ∷ []
  put_node id refs ((j, ds) ∷ graph) =
      let rest = put_node id refs graph in if j == id then (j, refs) ∷ graph else (j, ds) ∷ rest

  -- `_validate_claim_lineage`
  unfoldable pub validate_claim_lineage :
      Registry → String → List String → Outcome ProvenanceError (Unit {0})
  unfolding lineage_graph put_node visit
  validate_claim_lineage r claim_id refs = do
    guard (all (known_id r) refs) unknown_lineage
    guard (not (has refs claim_id)) own_lineage
    graph ← lineage_graph r.claims
    visit (put_node claim_id refs graph) (length (put_node claim_id refs graph) + 2) [] claim_id

  -- `not isinstance(confidence, (int, float)) or not 0 <= confidence <= 1`
  abbrev in_unit : Json → Bool
  in_unit v = elim (number v) [
    | none ↦ false
    | some n ↦ number_le S.python (whole (pos 0)) n && number_le S.python n (whole (pos 1))
  ]

  -- The checks of the confidence, which is None where it is missing.
  unfoldable pub check_confidence : String → Option Json → Outcome ProvenanceError (Unit {0})
  check_confidence status none = ok tt
  check_confidence status (some null) = ok tt
  check_confidence status (some v) = do
    guard (not (status == "unknown")) unknown_with_confidence
    guard (in_unit v) bad_confidence

  unfoldable pub check_superseded : Records → Option Json → Outcome ProvenanceError (Unit {0})
  check_superseded claims none = ok tt
  check_superseded claims (some null) = ok tt
  check_superseded claims (some (str id)) = guard (has (ids_of claims) id) unknown_superseded
  check_superseded claims (some (arr vs)) = raised not_hashable
  check_superseded claims (some (obj d)) = raised not_hashable
  check_superseded claims (some v) = raised unknown_superseded

  unfoldable pub checked_claim : Registry → Fields → Outcome ProvenanceError (String × Records)
  unfolding claim_identity check_confidence check_superseded expected_claim_id
      validate_claim_lineage insert
  checked_claim r record' = do
    identity ← claim_identity S record'
    check_confidence identity.epistemic_status (get "confidence" record')
    guard (not (identity.epistemic_status == "verified" && is_nil identity.source_refs))
        verified_without_sources
    guard (all_known identity.source_refs r.sources) unknown_sources
    check_superseded r.claims (get "supersedes" record')
    guard (all_known identity.validation_receipt_refs r.validation_receipts) unknown_receipts
    id ← expected_claim_id S record'
    validate_claim_lineage r id identity.lineage_refs
    claims ← insert r.claims record' id
    ok (id, claims)

  unfoldable pub add_claim : Registry → Fields → String → Option String → Added
  unfolding checked_claim log
  add_claim r record' actor occurred_at = elim (checked_claim r record') [
    | raised e ↦ (raised e, r)
    | ok (id, claims) ↦
        log (has (ids_of r.claims) id) "claim" id actor (occurred occurred_at "captured_at" record')
          (record r { claims = claims })
  ]

  -- A call of one of the three methods.
  unfoldable pub add : Addition → Registry → Added
  unfolding add_source add_validation_receipt add_claim
  add (source q actor at) r = add_source r q actor at
  add (receipt q actor at) r = add_validation_receipt r q actor at
  add (claim q actor at) r = add_claim r q actor at

  -- Calls in their order, of which some may raise.
  unfoldable pub add_all : List Addition → Registry → Registry
  unfolding add
  add_all [] r = r
  add_all (a ∷ as') r = add_all as' (add a r).1
