-- ===== src/Evaluator.antt =====
-- src/vheatm_control/evaluator.py: the audit context, the activation plan that is computed from it
-- and a manifest, and the revision of a plan. `Context` has normalize_context, `Merge` has
-- _merge_context, `Plan` has evaluate_manifest, `Integrity` has assert_plan_matches and revise_plan.
pub mod Context
pub mod Merge
pub mod Plan
pub mod Integrity
pub mod Counts
pub mod Revision
pub mod Accepted
pub mod Holding
pub mod Kept
pub mod Immutable
pub mod Scenarios
use vheatm.Prelude.{
  ℕ, String, Bool, true, false, not, Option, none, some, List, Outcome, ok, raised, ◌==◌, pos,
}
use vheatm.Json.{
  Json, Items, Fields, Number, Python, null, bool, int, str, arr, obj, nil, cons, end, field, get,
  number_eq, whole,
}
use vheatm.Activation.{ActivationError}

pub data EvaluatorError : Type 0 where
  empty_context : EvaluatorError
  not_an_object : String → EvaluatorError
  not_an_array : String → EvaluatorError
  not_hashable : EvaluatorError
  missing_key : String → EvaluatorError
  bad_revision : EvaluatorError
  initial_with_parent : EvaluatorError
  revision_without_parent : EvaluatorError
  bad_bundle_root : EvaluatorError
  changed_field : String → EvaluatorError
  changed_declaration : String → EvaluatorError
  reduced_fact : String → EvaluatorError
  reduced_findings : EvaluatorError
  changed_finding : String → EvaluatorError
  changed_risk_field : String → EvaluatorError
  incomplete_binding : EvaluatorError
  mismatched_binding : EvaluatorError
  mismatched_coverage : EvaluatorError
  mismatched_gate : EvaluatorError
  mismatched_summary : EvaluatorError
  empty_reason : EvaluatorError
  deactivated : List String → EvaluatorError

-- `value or other`
abbrev pub truthy : Python → Json → Bool
truthy P null = false
truthy P (bool b) = b
truthy P (str s) = not (s == "")
truthy P (arr nil) = false
truthy P (arr (cons v vs)) = true
truthy P (obj end) = false
truthy P (obj (field k v d)) = true
truthy P (int n) = not (number_eq P (whole n) (whole (pos 0)))
truthy P (Json.float s) = not (number_eq P (Number.float s) (whole (pos 0)))

-- `d.get(key, {})`, which must be an object
abbrev pub object_or_raise : String → Option Json → Outcome EvaluatorError Fields
object_or_raise key none = ok end
object_or_raise key (some (obj d)) = ok d
object_or_raise key (some v) = raised (not_an_object key)

-- `d.get(key, [])`, which must be an array
abbrev pub array_or_raise : String → Option Json → Outcome EvaluatorError Items
array_or_raise key none = ok nil
array_or_raise key (some (arr vs)) = ok vs
array_or_raise key (some v) = raised (not_an_array key)

abbrev pub as_object : String → Json → Outcome EvaluatorError Fields
as_object key v = object_or_raise key (some v)

abbrev pub as_array : String → Json → Outcome EvaluatorError Items
as_array key v = array_or_raise key (some v)
