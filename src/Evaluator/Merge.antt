-- ===== src/Evaluator/Merge.antt =====
-- `_merge_context`: an amendment is merged into the context of a plan, field by field.
use vheatm.Prelude.{
  String, Bool, true, false, not, ◌||◌, ◌&&◌, Option, none, some, List, [], ◌∷◌, ◌++◌, ◌==◌, ℤ, pos,
  ltb_ℤ, has, any, lookup, Outcome, ok, raised, ◌>>=◌, ◌>>◌, guard, if◌then◌else◌,
}
use vheatm.Json.{
  Json, Items, Fields, Python, null, bool, int, str, arr, obj, nil, cons, end, field, get, put,
  json_eq, to_str, to_list, from_list,
}
use vheatm.Evaluator.{
  EvaluatorError, not_an_object, changed_field, changed_declaration, reduced_fact, reduced_findings,
  changed_finding, changed_risk_field, object_or_raise, array_or_raise, as_object, as_array,
}
use vheatm.Evaluator.Context.{get_or, mandatory_findings, is_v2}

abbrev pub immutable_fields : List String
immutable_fields =
    "schema_version" ∷ "goal" ∷ "decision_owner" ∷ "stakeholder" ∷ "subject" ∷ "scope"
    ∷ "audit_stage" ∷ "legacy_state" ∷ "organization_scope" ∷ "execution_profile" ∷ "audit_intent"
    ∷ "mode" ∷ "context_mode" ∷ "target_tier" ∷ []

abbrev pub tri_state_fields : List String
tri_state_fields = "pii" ∷ "multi_tenant" ∷ "post_incident" ∷ []

abbrev pub is_risk_field : String → Bool
is_risk_field key = key == "blast_radius" || key == "write_chain_components"

-- The value of an instance of int; a bool is one.
abbrev pub int_of : Json → Option ℤ
int_of (int n) = some n
int_of (bool true) = some (pos 1)
int_of (bool false) = some (pos 0)
int_of _ = none

-- `isinstance(a, int) and isinstance(b, int) and b < a`
abbrev pub drops_ints : Option ℤ → Option ℤ → Bool
drops_ints (some a) (some b) = ltb_ℤ b a
drops_ints _ _ = false

abbrev pub drops : Json → Json → Bool
drops current candidate = drops_ints (int_of current) (int_of candidate)

-- `max(a, b) if both are ints else b`
abbrev pub larger : Json → Json → Json
larger a b = elim (int_of a) [
  | none ↦ b
  | some m ↦ elim (int_of b) [ none ↦ b | some n ↦ if ltb_ℤ m n then b else a ]
]

-- `d.get(k)`
abbrev pub get_or_null : String → Fields → Json
get_or_null k d = get_or k null d

module _ (P : Python) where
  -- Is a value neither "unknown" nor the candidate?
  abbrev pub conflicts : Json → Json → Bool
  conflicts current candidate =
      not (json_eq P current (str "unknown")) && not (json_eq P current candidate)

  unfoldable pub merge_declarations : Fields → Fields → Outcome EvaluatorError Fields
  merge_declarations combined end = ok combined
  merge_declarations combined (field name candidate rest) = do
    guard (not (conflicts (get_or name (str "unknown") combined) candidate))
        (changed_declaration name)
    merge_declarations (put name candidate combined) rest

  unfoldable pub merge_facts : Fields → Fields → Outcome EvaluatorError Fields
  merge_facts combined end = ok combined
  merge_facts combined (field name candidate rest) = do
    guard (not (drops (get_or_null name combined) candidate)) (reduced_fact name)
    merge_facts (put name candidate combined) rest

  -- `{str(item.get("id")): item for item in existing if isinstance(item, Mapping)}`, the last first
  abbrev by_id : List (String × Fields) → Items → List (String × Fields)
  by_id known nil = known
  by_id known (cons (obj item) rest) = by_id ((to_str P (get_or_null "id" item), item) ∷ known) rest
  by_id known (cons _ rest) = by_id known rest

  -- The entries of a ledger that are new, in order.
  unfoldable pub merge_entries :
      List (String × Fields) → List Json → Outcome EvaluatorError (List Json)
  merge_entries known [] = ok []
  merge_entries known (obj item ∷ rest) =
      let id = to_str P (get_or "id" (str "") item) in
      let known_rest = merge_entries known rest in
      let new_rest = merge_entries ((id, item) ∷ known) rest in
      elim (lookup id known) [
        | none ↦ (do added ← new_rest; ok (obj item ∷ added))
        | some previous ↦
            if json_eq P (obj previous) (obj item) then known_rest else raised (changed_finding id)
      ]
  merge_entries known (_ ∷ rest) = raised (not_an_object "finding_ledger")

  unfoldable pub merge_ledger : Items → Items → Outcome EvaluatorError Items
  unfolding merge_entries
  merge_ledger existing given = do
    added ← merge_entries (by_id [] existing) (to_list given)
    ok (from_list (to_list existing ++ added))

  unfoldable pub merge_amendments : List Json → List Json → List Json
  merge_amendments existing [] = existing
  merge_amendments existing (item ∷ rest) =
      let kept = merge_amendments existing rest in
      let added = merge_amendments (existing ++ item ∷ []) rest in
      if any (λ w. json_eq P item w) existing then kept else added

  -- A fact that the context holds under its own name.
  unfoldable pub merge_risk : String → Json → Fields → Outcome EvaluatorError Fields
  merge_risk key value merged = do
    guard (not (drops (get_or_null key merged) value)) (reduced_fact key)
    ok (put key (larger (get_or_null key merged) value) merged)

  abbrev pub merge_given_risk : String → Fields → Fields → Outcome EvaluatorError Fields
  merge_given_risk key facts merged = elim (get key facts) [
    | none ↦ ok merged
    | some v ↦ merge_risk key v merged
  ]

  unfoldable pub merge_findings : Json → Fields → Outcome EvaluatorError Fields
  merge_findings value merged = do
    ledger ← as_array "finding_ledger" value
    discovered ← mandatory_findings P ledger
    let current = get_or "mandatory_findings" (int (pos 0)) merged
    guard (not (drops current (int (pos discovered)))) reduced_findings
    ok (put "mandatory_findings" (larger current (int (pos discovered))) merged)

  abbrev pub merge_immutable : String → Json → Fields → Outcome EvaluatorError Fields
  merge_immutable key value merged = do
    guard (elim (get key merged) [ none ↦ true | some v ↦ json_eq P v value ]) (changed_field key)
    ok (put key value merged)

  abbrev pub merge_tri_state : String → Json → Fields → Outcome EvaluatorError Fields
  merge_tri_state key value merged = do
    guard (not (conflicts (get_or key (str "unknown") merged) value)) (changed_risk_field key)
    ok (put key value merged)

  abbrev pub merge_declared : Json → Fields → Outcome EvaluatorError Fields
  merge_declared value merged = do
    given ← as_object "declarations" value
    existing ← object_or_raise "declarations" (get "declarations" merged)
    combined ← merge_declarations existing given
    ok (put "declarations" (obj combined) merged)

  abbrev pub merge_v1_facts : Json → Fields → Outcome EvaluatorError Fields
  merge_v1_facts value merged = do
    facts ← as_object "facts" value
    next ← merge_given_risk "blast_radius" facts merged
    merge_given_risk "write_chain_components" facts next

  abbrev pub merge_v2_facts : Json → Fields → Outcome EvaluatorError Fields
  merge_v2_facts value merged = do
    given ← as_object "facts" value
    existing ← object_or_raise "facts" (get "facts" merged)
    combined ← merge_facts existing given
    ok (put "facts" (obj combined) merged)

  abbrev pub merge_v2_ledger : Json → Fields → Outcome EvaluatorError Fields
  merge_v2_ledger value merged = do
    given ← as_array "finding_ledger" value
    existing ← array_or_raise "finding_ledger" (get "finding_ledger" merged)
    combined ← merge_ledger existing given
    ok (put "finding_ledger" (arr combined) merged)

  abbrev pub merge_amended : Json → Fields → Outcome EvaluatorError Fields
  merge_amended value merged = do
    given ← as_array "amendments" value
    existing ← array_or_raise "amendments" (get "amendments" merged)
    let combined = merge_amendments (to_list existing) (to_list given)
    ok (put "amendments" (arr (from_list combined)) merged)

  -- One round of the loop over the amendment's fields.
  unfoldable pub merge_field : Bool → String → Json → Fields → Outcome EvaluatorError Fields
  merge_field v2 key value merged =
      if has immutable_fields key
      then merge_immutable key value merged
      else if key == "declarations"
      then merge_declared value merged
      else if key == "facts" && not v2
      then merge_v1_facts value merged
      else if key == "finding_ledger" && not v2
      then merge_findings value merged
      else if key == "facts"
      then merge_v2_facts value merged
      else if key == "finding_ledger"
      then merge_v2_ledger value merged
      else if key == "amendments"
      then merge_amended value merged
      else if is_risk_field key
      then merge_risk key value merged
      else if has tri_state_fields key
      then merge_tri_state key value merged
      else ok (put key value merged)

  unfoldable pub merge_fields : Bool → Fields → Fields → Outcome EvaluatorError Fields
  merge_fields v2 end merged = ok merged
  merge_fields v2 (field key value rest) merged = do
    next ← merge_field v2 key value merged
    merge_fields v2 rest next

  abbrev pub lift_fact : String → Fields → Fields → Fields
  lift_fact key facts merged = elim (get key facts) [
    | none ↦ merged
    | some candidate ↦ put key (larger (get_or_null key merged) candidate) merged
  ]

  -- The facts of a context of schema 2.0.0, under the names that the gates refer to.
  unfoldable pub lift_facts : Option Json → Fields → Fields
  lift_facts (some (obj facts)) merged =
      lift_fact "write_chain_components" facts (lift_fact "blast_radius" facts merged)
  lift_facts _ merged = merged

  unfoldable pub lift_ledger : Option Json → Fields → Outcome EvaluatorError Fields
  lift_ledger (some (arr ledger)) merged = do
    n ← mandatory_findings P ledger
    ok (put "mandatory_findings" (int (pos n)) merged)
  lift_ledger _ merged = ok merged

  unfoldable pub merge_context : Fields → Fields → Outcome EvaluatorError Fields
  merge_context base amendment = do
    merged ← merge_fields (is_v2 P base || is_v2 P amendment) amendment base
    let lifted = lift_facts (get "facts" merged) merged
    lift_ledger (get "finding_ledger" lifted) lifted
