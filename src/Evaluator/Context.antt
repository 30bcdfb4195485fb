-- ===== src/Evaluator/Context.antt =====
-- `normalize_context`, and the count of open mandatory findings that it shares with the merge.
use vheatm.Prelude.{
  ℕ, suc, String, Bool, true, false, not, ◌||◌, Option, none, some, ◌==◌, pos, Outcome, ok, raised,
  ◌>>=◌, if◌then◌else◌,
}
use vheatm.Json.{
  Json, Items, Fields, Python, null, int, str, arr, obj, nil, cons, end, field, get, put, field_is,
}
use vheatm.Evaluator.{
  EvaluatorError, empty_context, not_hashable, object_or_raise, as_object, as_array,
}

-- `d.get(k, default)`
abbrev pub get_or : String → Json → Fields → Json
get_or k default d = elim (get k d) [ none ↦ default | some v ↦ v ]

-- `state not in {"resolved", "closed", "rejected"}`: a list or a dict cannot be looked up in a set.
abbrev open_state : Option Json → Outcome EvaluatorError Bool
open_state (some (arr vs)) = raised not_hashable
open_state (some (obj d)) = raised not_hashable
open_state (some (str s)) = ok (not (s == "resolved" || s == "closed" || s == "rejected"))
open_state _ = ok true

abbrev is_open : Python → Json → Outcome EvaluatorError Bool
is_open P (obj finding) =
    if field_is P (get "priority" finding) (str "mandatory")
    then open_state (get "state" finding)
    else ok false
is_open P _ = ok false

-- The sum over the findings of a ledger.
unfoldable pub mandatory_findings : Python → Items → Outcome EvaluatorError ℕ
mandatory_findings P nil = ok 0
mandatory_findings P (cons finding ledger) = do
  is_counted ← is_open P finding
  rest ← mandatory_findings P ledger
  ok (if is_counted then suc rest else rest)

-- `d.update(e)`
unfoldable pub update : Fields → Fields → Fields
update d end = d
update d (field k v e) = update (put k v d) e

unfoldable pub merge_supplied : Fields → Fields → Outcome EvaluatorError Fields
unfolding update
merge_supplied end normalized = ok normalized
merge_supplied (field key value supplied) normalized =
    if key == "declarations"
    then (do
      given ← as_object "declarations" value
      old ← object_or_raise "declarations" (get "declarations" normalized)
      merge_supplied supplied (put "declarations" (obj (update old given)) normalized))
    else merge_supplied supplied (put key value normalized)

-- `if value is not None: d[key] = value`
abbrev put_given : String → Option Json → Fields → Fields
put_given key none d = d
put_given key (some null) d = d
put_given key (some v) d = put key v d

abbrev context_mode : Python → Json → Json
context_mode P v =
    if field_is P (some v) (str "single-team") then str "single" else str "enterprise"

abbrev put_mode : Python → Option Json → Fields → Fields
put_mode P none d = d
put_mode P (some null) d = d
put_mode P (some v) d = put "context_mode" (context_mode P v) d

-- `if key in facts: d[key] = facts[key]`
abbrev copy_fact : String → Fields → Fields → Fields
copy_fact key facts d = elim (get key facts) [ none ↦ d | some v ↦ put key v d ]

abbrev copy_facts : Option Json → Fields → Fields
copy_facts (some (obj facts)) d =
    copy_fact "write_chain_components" facts (copy_fact "blast_radius" facts d)
copy_facts _ d = d

abbrev count_ledger : Python → Option Json → Fields → Outcome EvaluatorError Fields
count_ledger P none d = ok d
count_ledger P (some v) d = do
  ledger ← as_array "finding_ledger" v
  n ← mandatory_findings P ledger
  ok (put "mandatory_findings" (int (pos n)) d)

-- What a context of schema 2.0.0 adds under the names that the gates refer to.
unfoldable pub with_v2 : Python → Fields → Fields → Outcome EvaluatorError Fields
with_v2 P supplied normalized = count_ledger P (get "finding_ledger" supplied) (
    copy_facts (get "facts" supplied) (
      put_mode P (get "organization_scope" supplied)
        (put_given "mode" (get "execution_profile" supplied) normalized)))

abbrev is_empty : Fields → Bool
is_empty end = true
is_empty (field k v d) = false

-- No context at all is read as an empty one, but an empty one is refused.
abbrev supplied_or_empty : Option Fields → Outcome EvaluatorError Fields
supplied_or_empty none = ok end
supplied_or_empty (some d) = if is_empty d then raised empty_context else ok d

abbrev pub is_v2 : Python → Fields → Bool
is_v2 P d = field_is P (get "schema_version" d) (str "2.0.0")

unfoldable pub normalize_context : Python → Fields → Option Fields → Outcome EvaluatorError Fields
normalize_context P manifest given = do
  supplied ← supplied_or_empty given
  defaults ← object_or_raise "defaults" (get "defaults" manifest)
  declarations ← object_or_raise "declarations" (get "declarations" defaults)
  let start = field "mode" (get_or "mode" (str "standard") defaults) (
      field "target_tier" (get_or "target_tier" (int (pos 2)) defaults)
        (field "declarations" (obj declarations) end))
  normalized ← merge_supplied supplied start
  if is_v2 P supplied then with_v2 P supplied normalized else ok normalized
