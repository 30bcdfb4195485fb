-- ===== src/Provenance/Identity.antt =====
-- The content ids of provenance.py: what of a record its id is made from, and the checks on the way.
use Prim.Native.String.{◌++◌ as concat}
use vheatm.Prelude.{
  ℕ, String, Bool, false, not, ◌&&◌, ◌||◌, Option, none, some, List, [], ◌∷◌, map, ◌==◌, eqb, leb,
  has, all, length, chars, all_chars, words, join, is_blank, strip_prefix, sort_unique, Outcome, ok,
  raised, ◌>>=◌, ◌>>◌, guard, if◌then◌else◌,
}
use vheatm.Json.{
  Json, Fields, str, arr, obj, end, field, get, field_is, to_list, from_list, to_str, str_field,
}
use vheatm.Provenance.{
  Services, ProvenanceError, str_set, is_nil, bad_digest, digest_not_object, wrong_algorithm,
  empty_locator, untrusted_not_tainted, trace_not_array, trace_repeats, trace_empty, bad_gate_ids,
  empty_text, receipt_without_sources, receipt_without_validator, bad_result, bad_input_digest,
}

abbrev pub texts : List String → Json
texts xs = arr (from_list (map str xs))

-- `char in "0123456789abcdef"`
abbrev is_hex : ℕ → Bool
is_hex c = leb 48 c && leb c 57 || leb 97 c && leb c 102

-- `re.fullmatch(r"HG-[A-Z0-9]+", s)`
unfoldable pub is_gate_id : String → Bool
unfolding strip_prefix all_chars
is_gate_id s = elim (strip_prefix "HG-" s) [
  | none ↦ false
  | some rest ↦
      not (rest == "") && all_chars (λ c. leb 65 c && leb c 90 || leb 48 c && leb c 57) rest
]

pub record ClaimIdentity : Type 0 where
  pub text : String
  pub epistemic_status : String
  pub source_refs : List String
  pub validation_receipt_refs : List String
  pub evidence_kind : String
  pub lineage_refs : List String
  pub gate_trace : List String

pub record ReceiptIdentity : Type 0 where
  pub source_refs : List String
  pub validator : String
  pub method : String
  pub result : String
  pub input_digest : String

abbrev listed_trace : Option Json → Outcome ProvenanceError (List Json)
listed_trace (some (arr vs)) = ok (to_list vs)
listed_trace _ = raised trace_not_array

-- A key that is put only with a value that is not empty.
abbrev with_texts : String → List String → Fields → Fields
with_texts k [] d = d
with_texts k (x ∷ xs) d = field k (texts (x ∷ xs)) d

abbrev pub claim_document : ClaimIdentity → Json
claim_document i = obj (
    field "text" (str i.text) (
      field "epistemic_status" (str i.epistemic_status) (
        field "source_refs" (texts i.source_refs) (
          field "validation_receipt_refs" (texts i.validation_receipt_refs) (
            field "evidence_kind" (str i.evidence_kind) (
              with_texts "lineage_refs" i.lineage_refs
                (with_texts "gate_trace" i.gate_trace end)))))))

abbrev pub receipt_document : ReceiptIdentity → Json
receipt_document i = obj (
    field "source_refs" (texts i.source_refs) (
      field "validator" (str i.validator) (
        field "method" (str i.method)
          (field "result" (str i.result) (field "input_digest" (str i.input_digest) end)))))

module _ (S : Services) where
  -- `_content_id`
  unfoldable pub content_id : String → Json → String
  content_id prefix value = concat prefix (concat "-" (S.upper (S.sha256 (S.dumps value))))

  -- `_validate_digest`
  unfoldable pub validate_digest : String → Outcome ProvenanceError String
  unfolding all_chars
  validate_digest digest =
      let normalized = S.lower digest in
      if eqb (chars normalized) 64 && all_chars is_hex normalized
      then ok normalized
      else raised bad_digest

  -- `_source_identity`
  unfoldable pub source_identity : Fields → Outcome ProvenanceError Json
  unfolding validate_digest
  source_identity record' = elim (get "digest" record') [
    | some (obj digest) ↦ do
      guard (field_is S.python (get "algorithm" digest) (str "sha256")) wrong_algorithm
      value ← validate_digest (str_field S.python "value" digest)
      ok (
          obj (
            field "source_type" (str (str_field S.python "source_type" record')) (
              field "locator" (str (str_field S.python "locator" record')) (
                field "digest"
                  (obj (field "algorithm" (str "sha256") (field "value" (str value) end))) end))))
    | _ ↦ raised digest_not_object
  ]

  unfoldable pub expected_source_id : Fields → Outcome ProvenanceError String
  unfolding source_identity content_id is_blank
  expected_source_id record' = do
    identity ← source_identity record'
    guard (not (is_blank (str_field S.python "locator" record'))) empty_locator
    ok (content_id "SRC" identity)

  -- `_validate_source_trust_state`
  unfoldable pub validate_source_trust_state : Fields → Outcome ProvenanceError (Unit {0})
  validate_source_trust_state record' =
      guard
        (not (
            has ("artifact_content" ∷ "model_output" ∷ "external_data" ∷ [])
              (str_field S.python "trust_zone" record'))
          || str_field S.python "taint_state" record' == "tainted")
        untrusted_not_tainted

  -- `_normalize_gate_trace`
  unfoldable pub normalize_gate_trace : Fields → Outcome ProvenanceError (List String)
  unfolding is_gate_id
  normalize_gate_trace record' =
      let raw = get "gate_trace" record' in
      let checked = do
        listed ← listed_trace raw
        let values = map (to_str S.python) listed
        let trace = sort_unique values
        guard (eqb (length values) (length trace)) trace_repeats
        guard (not (is_nil trace)) trace_empty
        guard (all is_gate_id trace) bad_gate_ids
        ok trace
      in elim raw [ none ↦ ok [] | some v ↦ checked ]

  -- `_claim_identity`
  unfoldable pub claim_identity : Fields → Outcome ProvenanceError ClaimIdentity
  unfolding str_set normalize_gate_trace words
  claim_identity record' = do
    refs ← str_set S.python "source_refs" record'
    receipts ← str_set S.python "validation_receipt_refs" record'
    lineage ← str_set S.python "lineage_refs" record'
    trace ← normalize_gate_trace record'
    ok (record {
      text = join " " (words (str_field S.python "text" record'));
      epistemic_status = str_field S.python "epistemic_status" record';
      source_refs = refs;
      validation_receipt_refs = receipts;
      evidence_kind = str_field S.python "evidence_kind" record';
      lineage_refs = lineage;
      gate_trace = trace;
    })

  unfoldable pub expected_claim_id : Fields → Outcome ProvenanceError String
  unfolding claim_identity content_id
  expected_claim_id record' = do
    identity ← claim_identity record'
    guard (not (identity.text == "")) empty_text
    ok (content_id "CLM" (claim_document identity))

  -- `_validation_receipt_identity`
  unfoldable pub validation_receipt_identity : Fields → Outcome ProvenanceError ReceiptIdentity
  unfolding str_set is_blank all_chars
  validation_receipt_identity record' =
      let validator = str_field S.python "validator" record' in
      let method = str_field S.python "method" record' in
      let result = str_field S.python "result" record' in
      let input_digest = str_field S.python "input_digest" record' in
      do
        refs ← str_set S.python "source_refs" record'
        guard (not (is_nil refs)) receipt_without_sources
        guard (not (is_blank validator) && not (is_blank method)) receipt_without_validator
        guard (has ("validated" ∷ "rejected" ∷ []) result) bad_result
        guard
            (input_digest == ""
              || eqb (chars input_digest) 64 && all_chars is_hex (S.lower input_digest))
            bad_input_digest
        ok (record {
          source_refs = refs;
          validator = validator;
          method = method;
          result = result;
          input_digest = input_digest;
        })

  unfoldable pub expected_validation_receipt_id : Fields → Outcome ProvenanceError String
  unfolding validation_receipt_identity content_id
  expected_validation_receipt_id record' = do
    identity ← validation_receipt_identity record'
    ok (content_id "VRF" (receipt_document identity))
