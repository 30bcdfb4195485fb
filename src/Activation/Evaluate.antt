-- ===== src/Activation/Evaluate.antt =====
-- The evaluation of activation expressions, and the fields that they refer to.
use vheatm.Prelude.{
  String, Bool, not, Option, none, some, List, [], ◌∷◌, ◌++◌, ◌==◌, Outcome, ok, raised, ◌>>=◌,
  or_raise, any, select, sort_unique, if◌then◌else◌,
}
use vheatm.Json.{Json, Fields, Python, null, str, arr, obj, get, json_eq, from_list, to_list}
use vheatm.Activation.{
  TruthValue, true, unknown, false, from_bool, Operator, eq, ne, ge, le, gt, lt, member, not_member,
  Connective, and, or, Value, reference, literal, list_literal, Expr, boolean_literal, comparison,
  boolean_operation, ActivationError, not_a_list, incompatible,
}
use vheatm.Activation.Order.{below, at_most, above, at_least, json_order}

-- None and "unknown" stand for what is not known.
abbrev pub known : Option Json → Option Json
known none = none
known (some null) = none
known (some (str s)) = if s == "unknown" then none else some (str s)
known (some v) = some v

abbrev declared : String → Option Json → Option Json
declared name (some (obj declarations)) = get name declarations
declared name _ = none

abbrev found_or : Option Json → Option Json → Option Json
found_or (some v) other = some v
found_or none other = other

-- Nothing is `_UNKNOWN`.
unfoldable pub resolve_reference : String → Fields → Option Json
resolve_reference name context =
    known (found_or (get name context) (declared name (get "declarations" context)))

-- A literal list holds literals only, so none of its items is unknown.
unfoldable pub resolve_value : Value → Fields → Option Json
unfolding resolve_reference
resolve_value (reference name) context = resolve_reference name context
resolve_value (literal v) context = some v
resolve_value (list_literal vs) context = some (arr (from_list vs))

abbrev ordered : Option Bool → Outcome ActivationError Bool
ordered found = or_raise found incompatible

-- `BooleanOperation.evaluate`: the right side is evaluated only where the left does not decide.
unfoldable pub combine :
    Connective
    → Outcome ActivationError TruthValue
    → Outcome ActivationError TruthValue
    → Outcome ActivationError TruthValue
combine op (raised e) right = raised e
combine and (ok false) right = ok false
combine and (ok left) (raised e) = raised e
combine and (ok left) (ok false) = ok false
combine and (ok true) (ok true) = ok true
combine and (ok left) (ok right) = ok unknown
combine or (ok true) right = ok true
combine or (ok left) (raised e) = raised e
combine or (ok left) (ok true) = ok true
combine or (ok false) (ok false) = ok false
combine or (ok left) (ok right) = ok unknown

module _ (P : Python) where
  -- `left in right`, where `right` is a list
  abbrev listed : Json → Json → Outcome ActivationError Bool
  listed v (arr vs) = ok (any (λ w. json_eq P v w) (to_list vs))
  listed v _ = raised not_a_list

  unfoldable pub compare_values : Operator → Json → Json → Outcome ActivationError Bool
  compare_values eq v w = ok (json_eq P v w)
  compare_values ne v w = ok (not (json_eq P v w))
  compare_values ge v w = ordered (json_order P at_least v w)
  compare_values le v w = ordered (json_order P at_most v w)
  compare_values gt v w = ordered (json_order P above v w)
  compare_values lt v w = ordered (json_order P below v w)
  compare_values member v w = listed v w
  compare_values not_member v w = do found ← listed v w; ok (not found)

  -- `Comparison.evaluate`, on the resolved sides
  unfoldable pub compare_resolved :
      Operator → Option Json → Option Json → Outcome ActivationError TruthValue
  compare_resolved op (some v) (some w) = do holds ← compare_values op v w; ok (from_bool holds)
  compare_resolved op _ _ = ok unknown

  unfoldable pub evaluate : Expr → Fields → Outcome ActivationError TruthValue
  unfolding combine compare_resolved
  evaluate (boolean_literal b) context = ok (from_bool b)
  evaluate (comparison name op right) context =
      compare_resolved op (resolve_reference name context) (resolve_value right context)
  evaluate (boolean_operation op left right) context =
      let first = evaluate left context in
      let second = evaluate right context in combine op first second

abbrev pub value_references : Value → List String
value_references (reference name) = name ∷ []
value_references _ = []

-- `references`, in order of appearance and with repetitions; the source has them as a set.
unfoldable pub references : Expr → List String
references (boolean_literal b) = []
references (comparison name op right) = name ∷ value_references right
references (boolean_operation op left right) = references left ++ references right

abbrev pub is_none : Option Json → Bool
is_none none = Bool.true
is_none (some v) = Bool.false

-- `sorted(name for name in self.references if ... is _UNKNOWN)`
unfoldable pub unknown_references : Expr → Fields → List String
unfolding references
unknown_references e context =
    sort_unique (select (λ name. is_none (resolve_reference name context)) (references e))
