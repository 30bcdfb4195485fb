-- ===== src/Evaluator/Scenarios.antt =====
-- Runs of the evaluator on a manifest of two gates, and the theorems on them.
use vheatm.Prelude.{
  ◌≡◌, refl, String, true, false, if◌then◌else◌, none, some, List, [], ◌∷◌, map, ok, raised,
  Outcome, pos, length, any, All, ◌==◌, ◌+◌, strip, is_blank, sort_unique,
}
use vheatm.Json.{
  Json, Fields, Python, null, int, str, arr, obj, end, field, get, put, json_eq, from_list,
}
use vheatm.Activation.{comparison, literal, eq, empty_expression}
use vheatm.Activation.Evaluate.{
  evaluate, compare_resolved, compare_values, resolve_reference, resolve_value, references,
  unknown_references,
}
use vheatm.Evaluator.{EvaluatorError}
use vheatm.Evaluator.Context.{
  normalize_context, merge_supplied, update, with_v2, mandatory_findings,
}
use vheatm.Evaluator.Merge.{
  merge_context, merge_fields, merge_field, merge_declarations, lift_facts, lift_ledger,
}
use vheatm.Evaluator.Plan.{
  Runtime, Plan, evaluate_manifest, evaluate_gate, gate_state, manifest_gates, read_gates,
  read_gate, lineage_of, checked_root, fallback_bundle_root, canonical_digest, session_root_of,
  plan_document, plan_digest, plan_body, gate_document, summary_document, count_gates, count_state,
  completion_blocked, state_text, no_counts, is_unknown,
}
use vheatm.Evaluator.Integrity.{
  assert_plan_matches, recompute, check_binding, check_gates, gates_of, identified, gate_named,
  is_active, dropped, revise_plan, expected_gates,
}
use vheatm.Evaluator.Counts.{IsJudged, evaluate_manifest-IsJudged, count_gates-total}
use vheatm.Evaluator.Revision.{revise_plan-is_active}
use vheatm.Evaluator.Kept.{merge_declarations-keeps}
use vheatm.Evaluator.Immutable.{merge_context-keeps}

-- No float occurs in these runs.
abbrev python : Python
python = record {
  repr = λ v. "";
  float_eq = λ a b. false;
  float_lt = λ a b. false;
  float_le = λ a b. false;
}

-- A digest of 64 characters.
abbrev digest : String
digest = "00000000000000000000000000000000000000000000000000000000000000aa"

-- An expression is the name of a field that must be "yes".
abbrev runtime : Runtime
runtime = record {
  python = python;
  dumps = λ v. "";
  sha256 = λ s. digest;
  reads_hex = λ s. true;
  compile_activation =
      λ s. if s == "" then raised empty_expression else ok (comparison s eq (literal (str "yes")));
  error_text = λ e. "empty";
}

abbrev gate : String → String → Json
gate id expression = obj (
    field "id" (str id) (
      field "layer" (str "L1")
        (field "phase" (str "P1") (field "activation" (str expression) end))))

abbrev manifest : Fields
manifest = field "framework" (obj (field "version" (str "17") end)) (
    field "gates"
      (obj (field "items" (arr (from_list (gate "G1" "pii" ∷ gate "G2" "multi_tenant" ∷ []))) end))
      end)

abbrev context : Fields
context = field "pii" (str "yes") (field "mode" (str "deep") end)

abbrev discovered : Fields
discovered = field "multi_tenant" (str "no") end

abbrev plan_or : Outcome EvaluatorError Plan → Plan
plan_or (ok p) = p
plan_or (raised e) = record {
  framework_version = null;
  manifest_digest = "";
  bundle_root = "";
  context_digest = "";
  plan_revision = 0;
  session_root = "";
  context = end;
  gates = [];
  lineage = none;
}

abbrev initial : Plan
initial = plan_or (evaluate_manifest runtime manifest (some context) (int (pos 0)) null null null)

abbrev document : Fields
document = plan_document runtime initial

abbrev revised : Plan
revised = plan_or (revise_plan runtime manifest document discovered " late ")

initial_run :
    evaluate_manifest runtime manifest (some context) (int (pos 0)) null null null ≡ ok initial
unfolding evaluate_manifest evaluate_gate gate_state manifest_gates read_gates read_gate lineage_of
    checked_root fallback_bundle_root canonical_digest session_root_of normalize_context
    merge_supplied update with_v2 mandatory_findings evaluate compare_resolved compare_values
    resolve_reference resolve_value unknown_references references json_eq put plan_document
    plan_digest plan_body gate_document summary_document count_gates count_state completion_blocked
    state_text assert_plan_matches recompute check_binding check_gates gates_of identified
    gate_named is_active dropped revise_plan merge_context merge_fields merge_field lift_facts
    lift_ledger is_blank sort_unique strip
initial_run = refl

revised_run : revise_plan runtime manifest document discovered " late " ≡ ok revised
unfolding evaluate_manifest evaluate_gate gate_state manifest_gates read_gates read_gate lineage_of
    checked_root fallback_bundle_root canonical_digest session_root_of normalize_context
    merge_supplied update with_v2 mandatory_findings evaluate compare_resolved compare_values
    resolve_reference resolve_value unknown_references references json_eq put plan_document
    plan_digest plan_body gate_document summary_document count_gates count_state completion_blocked
    state_text assert_plan_matches recompute check_binding check_gates gates_of identified
    gate_named is_active dropped revise_plan merge_context merge_fields merge_field lift_facts
    lift_ledger is_blank sort_unique strip
revised_run = refl

evaluate_manifest-IsJudged_example :
    (manifest_gates manifest ≡ ok (map (λ g. g.gate) initial.gates))
    × All (IsJudged runtime initial.context) initial.gates
evaluate_manifest-IsJudged_example =
    evaluate_manifest-IsJudged runtime manifest (some context) (int (pos 0)) null null null initial
      initial_run

count_gates-total_example :
    let n = count_gates initial.gates no_counts in
    (n.active + n.inactive + n.unknown ≡ length initial.gates)
    × (completion_blocked n ≡ any (λ g. is_unknown g.state) initial.gates)
count_gates-total_example = count_gates-total initial.gates

revise_plan-is_active_example :
    (listed : List Json) × (gates : List Fields) × (gates_of (get "gates" document) ≡ ok listed)
    × (identified listed ≡ ok gates)
    × ((id : String)
        → is_active runtime id gates ≡ true
        → is_active runtime id (expected_gates runtime revised) ≡ true)
revise_plan-is_active_example =
    revise_plan-is_active runtime manifest document discovered " late " revised revised_run

abbrev resolved : Fields
resolved = field "pii" (str "yes") (field "export" (str "unknown") end)

abbrev further : Fields
further = field "export" (str "no") (field "pii" (str "yes") end)

abbrev both : Fields
both = field "pii" (str "yes") (field "export" (str "no") end)

further_run : merge_declarations python resolved further ≡ ok both
unfolding merge_declarations json_eq put
further_run = refl

merge_declarations-keeps_example : get "pii" both ≡ some (str "yes")
merge_declarations-keeps_example =
    merge_declarations-keeps python "pii" "yes" resolved further both refl refl further_run

abbrev merged : Fields
merged = field "pii" (str "yes") (field "mode" (str "deep") (field "multi_tenant" (str "no") end))

merged_run : merge_context python context discovered ≡ ok merged
unfolding merge_context merge_fields merge_field json_eq put lift_facts lift_ledger
merged_run = refl

merge_context-keeps_example : get "mode" merged ≡ some (str "deep")
merge_context-keeps_example =
    merge_context-keeps python "mode" "deep" context discovered merged refl refl merged_run
