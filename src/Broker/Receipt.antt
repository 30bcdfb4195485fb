-- ===== src/Broker/Receipt.antt =====
-- `validate_policy_decision` and `build_tool_receipt` of tool_broker.py: the checks where a decision
-- is used, and the receipt that is kept of it.
use Prim.Native.Char.{code}
use Prim.Native.String.{◌++◌ as concat}
use vheatm.Prelude.{
  ℕ, zero, suc, String, ◌≡◌, refl, Bool, true, false, not, ◌&&◌, ◌||◌, subst, sym, Option, none,
  some, List, [], ◌∷◌, arith, ◌==◌, leb, has, is_blank, strip_prefix, replace_zone, Outcome, ok,
  raised, ◌>>◌, guard, if◌then◌else◌,
}
use vheatm.Json.{
  Json, Items, Fields, null, str, arr, nil, cons, end, field, get, put, remove, field_is, to_str,
}
use vheatm.Broker.{Services}
use vheatm.Broker.Approval.{canonical_digest, request_digest, action_digest, parse_utc}

pub data ReceiptError : Type 0 where
  bad_request_version bad_tool_class bad_decision_version other_request bad_decision bad_reason
        bad_controls bad_timestamp bad_approval_token no_approval_token bad_recorded_at
        naive_recorded_at not_hashable :
      ReceiptError

abbrev tool_classes : List String
tool_classes = "read" ∷ "execute" ∷ "write" ∷ "network" ∷ "secrets" ∷ []

-- Whether a value can be looked up in a set.
unfoldable pub is_hashable : Option Json → Bool
is_hashable (some (arr vs)) = false
is_hashable (some (Json.obj d)) = false
is_hashable _ = true

unfoldable pub is_text_of : List String → Option Json → Bool
is_text_of texts (some (str s)) = has texts s
is_text_of texts _ = false

unfoldable pub is_reason : Option Json → Bool
is_reason (some (str s)) = not (is_blank s)
is_reason _ = false

-- The items that are texts and not empty, or nothing if there are others.
abbrev control_names : Items → Option (List String)
control_names nil = some []
control_names (cons (str s) vs) = elim (control_names vs) [
  | none ↦ none
  | some ss ↦ if s == "" then none else some (s ∷ ss)
]
control_names (cons _ vs) = none

abbrev distinct : List String → Bool
distinct [] = true
distinct (s ∷ ss) = not (has ss s) && distinct ss

abbrev some_distinct : Option (List String) → Bool
some_distinct (some (s ∷ ss)) = distinct (s ∷ ss)
some_distinct _ = false

unfoldable pub are_controls : Option Json → Bool
are_controls (some (arr vs)) = some_distinct (control_names vs)
are_controls _ = false

abbrev is_hex_upper : ℕ → Bool
is_hex_upper c = leb 65 c && leb c 70 || leb 48 c && leb c 57

-- `[A-F0-9]{n}`, to the end
unfoldable pub is_hex_of : ℕ → String → Bool
is_hex_of zero String.[] = true
is_hex_of (suc n) (String.◌∷◌ c s) = is_hex_upper (code c) && is_hex_of n s
is_hex_of _ _ = false

-- `re.fullmatch(r"APR-[A-F0-9]{64}", s)`
unfoldable pub is_token_id : String → Bool
is_token_id s = elim (strip_prefix "APR-" s) [ none ↦ false | some digits ↦ is_hex_of 64 digits ]

unfoldable pub null_or_token_id : Option Json → Bool
null_or_token_id none = true
null_or_token_id (some null) = true
null_or_token_id (some (str s)) = is_token_id s
null_or_token_id _ = false

unfoldable pub is_absent : Option Json → Bool
is_absent none = true
is_absent (some null) = true
is_absent _ = false

abbrev value_of : Option Json → Json
value_of none = null
value_of (some v) = v

module _ (S : Services) where
  unfoldable pub is_time : Option Json → Bool
  is_time (some (str s)) = elim (parse_utc S s) [ ok t ↦ true | raised e ↦ false ]
  is_time _ = false

  abbrev is_str : String → Fields → String → Bool
  is_str k d s = field_is S.python (get k d) (str s)

  unfoldable pub validate_policy_decision : Fields → Fields → Outcome ReceiptError (Unit {0})
  validate_policy_decision decision request = do
    guard (is_str "schema_version" request "1.0.0") bad_request_version
    guard (is_hashable (get "tool_class" request)) not_hashable
    guard (is_text_of tool_classes (get "tool_class" request)) bad_tool_class
    guard (is_str "schema_version" decision "1.0.0") bad_decision_version
    guard (field_is S.python (get "request_id" decision) (value_of (get "request_id" request)))
        other_request
    guard (is_hashable (get "decision" decision)) not_hashable
    guard (is_text_of ("allow" ∷ "deny" ∷ []) (get "decision" decision)) bad_decision
    guard (is_reason (get "reason" decision)) bad_reason
    guard (are_controls (get "controls" decision)) bad_controls
    guard (is_time (get "evaluated_at" decision)) bad_timestamp
    guard (null_or_token_id (get "approval_token_id" decision)) bad_approval_token
    guard
        (not (
          is_str "decision" decision "allow"
          && not (is_str "tool_class" request "read")
          && is_absent (get "approval_token_id" decision)))
        no_approval_token

  unfoldable pub expected_tool_receipt_id : Fields → String
  unfolding canonical_digest remove
  expected_tool_receipt_id receipt =
      concat "TRC-" (S.upper (canonical_digest S (remove "id" receipt)))

  abbrev checked_time : String → Outcome ReceiptError (Unit {0})
  checked_time recorded_at = elim (S.parse_datetime (replace_zone recorded_at)) [
    | raised e ↦ raised bad_recorded_at
    | ok none ↦ raised naive_recorded_at
    | ok (some t) ↦ ok tt
  ]

  abbrev str_or : String → String → Fields → String
  str_or k default d = elim (get k d) [ none ↦ default | some v ↦ to_str S.python v ]

  -- The receipt before it has an id.
  abbrev receipt_body : Fields → Fields → String → Fields
  receipt_body request decision recorded_at =
      field "request_id" (str (str_or "request_id" "" request)) (
        field "request_digest" (str (request_digest S request)) (
          field "tool_class" (str (str_or "tool_class" "" request)) (
            field "decision" (str (str_or "decision" "unknown" decision)) (
              field "action_digest" (str (action_digest S request)) (
                field "recorded_at" (str recorded_at)
                  (field "approval_token_id" (value_of (get "approval_token_id" decision)) end))))))

  unfoldable pub build_tool_receipt : Fields → Fields → String → Outcome ReceiptError Fields
  unfolding expected_tool_receipt_id put
  build_tool_receipt request decision recorded_at = do
    validate_policy_decision decision request
    checked_time recorded_at
    let value = receipt_body request decision recorded_at
    ok (put "id" (str (expected_tool_receipt_id value)) value)

  unfoldable receipt_of : Fields → Fields → String → Fields
  unfolding expected_tool_receipt_id put
  receipt_of request decision recorded_at =
      let value = receipt_body request decision recorded_at in
      put "id" (str (expected_tool_receipt_id value)) value

  built :
      (request decision : Fields) (recorded_at : String) (receipt : Fields)
      → build_tool_receipt request decision recorded_at ≡ ok receipt
      → (validate_policy_decision decision request ≡ ok tt)
        × (receipt ≡ receipt_of request decision recorded_at)
  unfolding build_tool_receipt receipt_of
  built request decision recorded_at receipt h = ground arith

  unfoldable pub IsAuthentic : Fields → Fields → Type 0
  IsAuthentic request receipt =
      (get "id" receipt ≡ some (str (expected_tool_receipt_id receipt)))
      × (get "request_digest" receipt ≡ some (str (request_digest S request)))
      × (get "action_digest" receipt ≡ some (str (action_digest S request)))

  receipt_of-IsAuthentic :
      (request decision : Fields) (recorded_at : String)
      → IsAuthentic request (receipt_of request decision recorded_at)
  unfolding receipt_of put expected_tool_receipt_id remove IsAuthentic
  receipt_of-IsAuthentic request decision recorded_at = (refl, refl, refl)

  -- A receipt that is built is of a decision that is valid for the request. It carries the id that
  -- its own content has, and the digests of the whole request and of its action.
  pub build_tool_receipt-IsAuthentic :
      (request decision : Fields) (recorded_at : String) (receipt : Fields)
      → build_tool_receipt request decision recorded_at ≡ ok receipt
      → (validate_policy_decision decision request ≡ ok tt) × IsAuthentic request receipt
  build_tool_receipt-IsAuthentic request decision recorded_at receipt h =
      let (valid, same) = built request decision recorded_at receipt h in
      (
        valid,
        subst (IsAuthentic request) (sym same)
            (receipt_of-IsAuthentic request decision recorded_at),
      )
