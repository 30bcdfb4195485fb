-- ===== src/Evaluator/Integrity.antt =====
-- `assert_plan_matches` and `revise_plan`: a plan is accepted only if it is what the evaluator
-- computes, and revised only by a plan that keeps its active gates active.
use vheatm.Prelude.{
  characters, zero, suc, String, Bool, true, false, not, ◌||◌, ◌&&◌, Option, none, some, List, [],
  ◌∷◌, map, ◌==◌, pos, negsuc, has, all, select, sort_unique, strip, is_blank, Outcome, ok, raised,
  ◌>>=◌, ◌>>◌, guard, if◌then◌else◌,
}
use vheatm.Json.{
  Json, Fields, null, int, str, arr, obj, end, field, get, field_is, to_str, to_list, keys,
}
use vheatm.Evaluator.{
  EvaluatorError, bad_revision, object_or_raise, not_an_array, empty_context, not_an_object, truthy,
  incomplete_binding, mismatched_binding, mismatched_coverage, mismatched_gate, mismatched_summary,
  empty_reason, deactivated,
}
use vheatm.Evaluator.Context.{get_or}
use vheatm.Evaluator.Merge.{get_or_null, merge_context}
use vheatm.Evaluator.Plan.{
  Runtime, Plan, gate_document, summary_document, plan_document, fallback_bundle_root,
  evaluate_manifest, require,
}

abbrev required_binding_fields : List String
required_binding_fields =
    "manifest_digest" ∷ "bundle_root" ∷ "context_digest" ∷ "evaluator_build" ∷ "evaluator_digest"
    ∷ "plan_revision" ∷ "session_root" ∷ "plan_digest" ∷ "plan_id" ∷ []

abbrev binding_fields : List String
binding_fields = "parent_plan_id" ∷ "revision_reason" ∷ required_binding_fields

abbrev compared_fields : List String
compared_fields = "layer" ∷ "phase" ∷ "activation" ∷ "activation_state" ∷ "unknown_references" ∷ []

abbrev pub no_gate : List String → Bool
no_gate [] = true
no_gate (id ∷ ids) = false

-- The items of a list that are objects.
abbrev pub objects : List Json → List Fields
objects [] = []
objects (obj d ∷ vs) = d ∷ objects vs
objects (_ ∷ vs) = objects vs

-- What a loop over `plan.get("gates", [])` goes through: over a text or an object, texts.
unfoldable pub gates_of : Option Json → Outcome EvaluatorError (List Json)
gates_of none = ok []
gates_of (some (arr vs)) = ok (to_list vs)
gates_of (some (str s)) = ok (map str (characters s))
gates_of (some (obj d)) = ok (map str (keys d))
gates_of (some v) = raised (not_an_array "gates")

-- The gates that a revision reads, each with an id.
unfoldable pub identified : List Json → Outcome EvaluatorError (List Fields)
identified [] = ok []
identified (obj d ∷ vs) = do _ ← require "id" d; rest ← identified vs; ok (d ∷ rest)
identified (_ ∷ vs) = raised (not_an_object "gates")

module _ (R : Runtime) where
  -- `str(gate.get("id"))`
  abbrev pub gate_id : Fields → String
  gate_id gate = to_str R.python (get_or_null "id" gate)

  -- The gate that a dictionary keyed by the ids holds: the last of the list.
  unfoldable pub gate_named : String → List Fields → Option Fields
  gate_named id [] = none
  gate_named id (g ∷ gs) =
      let later = gate_named id gs in
      elim later [ some d ↦ some d | none ↦ if gate_id g == id then some g else none ]

  -- `a.get(k) == b.get(k)`
  abbrev pub agrees : String → Fields → Fields → Bool
  agrees k a b = field_is R.python (get k a) (get_or_null k b)

  abbrev is_present : Fields → String → Bool
  is_present plan k = has (keys plan) k

  unfoldable pub check_binding : Bool → Fields → Fields → Outcome EvaluatorError (Unit {0})
  check_binding require_binding plan expected = do
    guard (not require_binding || all (is_present plan) required_binding_fields) incomplete_binding
    guard (all (λ k. agrees k plan expected) (select (is_present plan) binding_fields))
        mismatched_binding

  -- `set(actual_gates) != set(expected_gates)`
  abbrev pub same_ids : List String → List String → Bool
  same_ids xs ys = all (has ys) xs && all (has xs) ys

  abbrev gate_agrees : Fields → Fields → Bool
  gate_agrees actual expected = all (λ k. agrees k actual expected) compared_fields

  abbrev pub found_agrees : Option Fields → Option Fields → Bool
  found_agrees (some actual) (some expected) = gate_agrees actual expected
  found_agrees _ _ = false

  unfoldable pub check_gates : List Fields → List Fields → Outcome EvaluatorError (Unit {0})
  unfolding gate_named
  check_gates actual expected = do
    guard (same_ids (map gate_id actual) (map gate_id expected)) mismatched_coverage
    guard
        (all (λ id. found_agrees (gate_named id actual) (gate_named id expected))
          (map gate_id expected))
        mismatched_gate

  abbrev pub plan_context : Fields → Outcome EvaluatorError Fields
  plan_context plan = elim (get_or "context" (obj end) plan) [
    | obj end ↦ raised empty_context
    | obj (field k v d) ↦ ok (field k v d)
    | _ ↦ raised (not_an_object "context")
  ]

  abbrev pub value_or : Json → Json → Json
  value_or v other = if truthy R.python v then v else other

  abbrev pub expected_gates : Plan → List Fields
  expected_gates p = map (gate_document R) p.gates

  -- The plan that the evaluator computes for the context, revision and lineage of a plan.
  unfoldable pub recompute : Fields → Fields → Json → Outcome EvaluatorError Plan
  recompute manifest plan bundle_root = do
    context ← plan_context plan
    evaluate_manifest R manifest (some context) (get_or "plan_revision" (int (pos 0)) plan)
        (get_or_null "parent_plan_id" plan) (get_or_null "revision_reason" plan)
        (value_or bundle_root
          (value_or (get_or_null "bundle_root" plan) (str (fallback_bundle_root R manifest))))

  unfoldable pub assert_plan_matches : Fields → Fields → Bool → Json → Outcome EvaluatorError Plan
  assert_plan_matches manifest plan require_binding bundle_root = do
    expected ← recompute manifest plan bundle_root
    check_binding require_binding plan (plan_document R expected)
    actual ← gates_of (get "gates" plan)
    check_gates (objects actual) (expected_gates expected)
    guard (field_is R.python (get "summary" plan) (obj (summary_document R expected.gates)))
        mismatched_summary
    ok expected

  -- `states.get(gate_id) == "active"`, for the dictionary of the states of some gates
  unfoldable pub is_active : String → List Fields → Bool
  unfolding gate_named
  is_active id gs = elim (gate_named id gs) [
    | none ↦ false
    | some g ↦ field_is R.python (get "activation_state" g) (str "active")
  ]

  unfoldable pub dropped : List Fields → List Fields → List String
  unfolding is_active
  dropped previous revised =
      sort_unique
        (select (λ id. is_active id previous && not (is_active id revised)) (map gate_id previous))

  abbrev next_revision : Json → Outcome EvaluatorError Json
  next_revision (int (pos n)) = ok (int (pos (suc n)))
  next_revision (int (negsuc zero)) = ok (int (pos 0))
  next_revision (int (negsuc (suc n))) = ok (int (negsuc n))
  next_revision v = raised bad_revision

  unfoldable pub revise_plan : Fields → Fields → Fields → String → Outcome EvaluatorError Plan
  revise_plan manifest previous discovered reason = do
    guard (not (is_blank reason)) empty_reason
    _ ← assert_plan_matches manifest previous true null
    revision ← next_revision (get_or_null "plan_revision" previous)
    value ← require "context" previous
    base ← object_or_raise "context" (some value)
    merged ← merge_context R.python base discovered
    id ← require "plan_id" previous
    root ← require "bundle_root" previous
    revised ←
        evaluate_manifest R manifest (some merged) revision (str (to_str R.python id))
          (str (strip reason)) (str (to_str R.python root))
    listed ← gates_of (get "gates" previous)
    gates ← identified listed
    let gone = dropped gates (expected_gates revised)
    guard (no_gate gone) (deactivated gone)
    ok revised
