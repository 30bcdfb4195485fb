-- ===== src/Activation/Scenarios.antt =====
-- Runs of activation expressions, and the theorems on them at concrete contexts.
use vheatm.Prelude.{String, ◌≡◌, refl, Bool, none, ok, pos, has, eq_iff, arith}
use vheatm.Json.{Fields, Python, int, str, obj, end, field, json_eq}
use vheatm.Activation.{true, unknown, ge, eq, and, or, literal, Expr, comparison, boolean_operation}
use vheatm.Activation.Order.{json_order}
use vheatm.Activation.Evaluate.{
  resolve_reference, resolve_value, compare_values, compare_resolved, combine, evaluate, references,
  unknown_references,
}
use vheatm.Activation.Kleene.{Keeps, Extends, kleene}
use vheatm.Activation.Stable.{evaluate-Keeps, evaluate-kleene, evaluate-unknown_references}

-- No float occurs in these runs.
abbrev python : Python
python = record {
  repr = λ v. "";
  float_eq = λ a b. Bool.false;
  float_lt = λ a b. Bool.false;
  float_le = λ a b. Bool.false;
}

abbrev personal : Expr
personal = comparison "pii" eq (literal (str "yes"))

abbrev wide : Expr
wide = comparison "blast_radius" ge (literal (int (pos 3)))

abbrev early : Fields
early = field "blast_radius" (int (pos 5)) (field "pii" (str "unknown") end)

abbrev late : Fields
late =
    field "blast_radius" (int (pos 5)) (field "declarations" (obj (field "pii" (str "no") end)) end)

either_early : evaluate python (boolean_operation or personal wide) early ≡ ok true
unfolding evaluate combine compare_resolved resolve_reference resolve_value compare_values json_eq
    json_order
either_early = refl

either_late : evaluate python (boolean_operation or personal wide) late ≡ ok true
unfolding evaluate combine compare_resolved resolve_reference resolve_value compare_values json_eq
    json_order
either_late = refl

both_early : evaluate python (boolean_operation and personal wide) early ≡ ok unknown
unfolding evaluate combine compare_resolved resolve_reference resolve_value compare_values json_eq
    json_order
both_early = refl

personal-early : evaluate python personal early ≡ ok unknown
unfolding evaluate combine compare_resolved resolve_reference resolve_value compare_values json_eq
    json_order
personal-early = refl

wide-early : evaluate python wide early ≡ ok true
unfolding evaluate combine compare_resolved resolve_reference resolve_value compare_values json_eq
    json_order
wide-early = refl

early-Extends : Extends early late
unfolding Extends resolve_reference
early-Extends name v h = ground (arith, eq_iff "blast_radius" name, eq_iff "pii" name)

evaluate-Keeps_example : Keeps true true
evaluate-Keeps_example =
    evaluate-Keeps python (boolean_operation or personal wide) early late true true early-Extends
      either_early either_late

evaluate-kleene_example :
    evaluate python (boolean_operation and personal wide) early ≡ ok (kleene and unknown true)
evaluate-kleene_example =
    evaluate-kleene python and personal wide early unknown true personal-early wide-early

evaluate-unknown_references_example :
    (name : String) × (has (unknown_references (boolean_operation and personal wide) early) name
      ≡ Bool.true)
    × (has (references (boolean_operation and personal wide)) name ≡ Bool.true)
    × (resolve_reference name early ≡ none)
evaluate-unknown_references_example =
    evaluate-unknown_references python (boolean_operation and personal wide) early both_early
