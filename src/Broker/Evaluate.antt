-- ===== src/Broker/Evaluate.antt =====
-- `ToolBroker.evaluate` and `_decision` of tool_broker.py, over any token ledger. The ledger comes
-- back beside an error, since a token stays consumed when the broker raises after it.
use Prim.Native.String.{◌++◌ as concat}
use vheatm.Prelude.{
  ℕ, String, Bool, true, false, not, ◌||◌, Option, none, some, List, [], ◌∷◌, ◌++◌, map, ◌==◌,
  Outcome, ok, raised, has, if◌then◌else◌,
}
use vheatm.Json.{Json, Fields, null, str, arr, obj, end, field, get, from_list, str_field}
use vheatm.Broker.{
  Services, BrokerError, naive_clock, invalid_decision, Broker, is_true, object_field, list_field,
}
use vheatm.Broker.Paths.{PurePosixPath, PathError, workspace_scope}
use vheatm.Broker.Ledger.{TokenLedger}
use vheatm.Broker.Classes.{Verdict, path_message, listed, evaluate_class}
use vheatm.Broker.Approval.{verify_approval}

pub record Decision : Type 0 where
  pub request_id : String
  pub allowed : Bool
  pub reason : String
  pub controls : List String
  pub evaluated_at : ℕ
  pub approval_token_id : Option String

-- `list(dict.fromkeys(controls))`: the first occurrence of each.
unfoldable pub unique_after : List String → List String → List String
unique_after seen [] = []
unique_after seen (c ∷ cs) =
    let kept = unique_after (c ∷ seen) cs in
    let dropped = unique_after seen cs in if has seen c then dropped else c ∷ kept

abbrev pub text_or_null : Option String → Json
text_or_null none = null
text_or_null (some s) = str s

-- `request.get("request_id")` if that is a text with at least one character
abbrev pub named_request : Option Json → String
named_request (some (str s)) = if s == "" then "invalid-request" else s
named_request _ = "invalid-request"

abbrev pub fail_closed : List String → List String
fail_closed controls = controls ++ "policy:fail-closed" ∷ []

abbrev pub base_controls : List String
base_controls = "schema:tool-request" ∷ "scope:workspace" ∷ "policy:tools.default-deny" ∷ []

abbrev pub approved_controls : List String
approved_controls = base_controls ++ "approval:verified" ∷ "approval:single-use" ∷ []

module _ (S : Services) where
  unfoldable pub decision_document : Decision → Fields
  decision_document d = field "schema_version" (str "1.0.0") (
      field "request_id" (str d.request_id) (
        field "decision" (str (if d.allowed then "allow" else "deny")) (
          field "reason" (str d.reason) (
            field "controls" (arr (from_list (map str d.controls))) (
              field "evaluated_at" (str (S.format_utc d.evaluated_at))
                (field "approval_token_id" (text_or_null d.approval_token_id) end))))))

  abbrev pub checked_decision : Decision → List String → Outcome BrokerError Decision
  checked_decision d [] = ok d
  checked_decision d (e ∷ es) = raised (invalid_decision e)

  -- `_decision`
  unfoldable pub decide :
      String → ℕ → Bool → String → List String → Option String → Outcome BrokerError Decision
  unfolding unique_after
  decide request_id now allowed reason controls token_id =
      let d : Decision = record {
        request_id = request_id;
        allowed = allowed;
        reason = reason;
        controls = unique_after [] controls;
        evaluated_at = now;
        approval_token_id = token_id;
      } in
      checked_decision d (S.decision_errors (decision_document d))

  abbrev pub deny : String → ℕ → String → List String → Option String → Outcome BrokerError Decision
  deny request_id now reason controls token_id =
      decide request_id now false reason controls token_id

  -- From the call of the class's evaluator on.
  abbrev pub judge :
      String
      → ℕ
      → String
      → List String
      → Option String
      → Option Verdict
      → Outcome BrokerError Decision
  judge request_id now tool_class controls token_id none =
      deny request_id now
        (concat "tool class " (concat (S.quote tool_class) " is unsupported by the broker"))
        (fail_closed controls) token_id
  judge request_id now tool_class controls token_id (some (allowed, reason, class_controls)) =
      if allowed
      then decide request_id now true reason (controls ++ class_controls) token_id
      else deny request_id now reason (fail_closed (controls ++ class_controls)) token_id

  -- `tool_class in token_required_for or tool_policy.get("allowed_without_approval") is not True`
  unfoldable pub requires_approval : Broker → String → Fields → Bool
  requires_approval b tool_class tool_policy =
      listed S (str tool_class)
        (list_field "token_required_for" (object_field "human_approval" b.policy))
      || not (is_true (get "allowed_without_approval" tool_policy))

  module _ {L : Type 0} (T : TokenLedger L) where
    -- The token is consumed, and only then is the request judged.
    unfoldable pub with_approval :
        Broker
        → String
        → Fields
        → PurePosixPath
        → String
        → ℕ
        → Option String × String
        → L
        → Outcome BrokerError Decision × L
    with_approval b tool_class request scope request_id now (none, reason) l = (
      deny request_id now reason (base_controls ++ "approval:required" ∷ "policy:fail-closed" ∷ [])
          none,
      l,
    )
    with_approval b tool_class request scope request_id now (some id, reason) l =
        let (fresh, l') = T.consume id l in
        (
          if fresh
              then judge request_id now tool_class approved_controls (some id)
                  (evaluate_class S b tool_class request scope)
              else deny request_id now "approval token has already been consumed"
                  (approved_controls ++ "approval:replay-blocked" ∷ "policy:fail-closed" ∷ [])
                  (some id),
          l',
        )

    abbrev pub without_approval :
        Broker
        → String
        → Fields
        → PurePosixPath
        → String
        → ℕ
        → Option Fields
        → Outcome BrokerError Decision
    without_approval b tool_class request scope request_id now (some token) =
        deny request_id now
          "approval token supplied for a tool class that does not require approval"
          (base_controls ++ "approval:unexpected" ∷ "policy:fail-closed" ∷ []) none
    without_approval b tool_class request scope request_id now none =
        judge request_id now tool_class base_controls none
          (evaluate_class S b tool_class request scope)

    unfoldable pub with_policy :
        Broker
        → String
        → Fields
        → Fields
        → PurePosixPath
        → Option Fields
        → String
        → ℕ
        → L
        → Outcome BrokerError Decision × L
    with_policy b tool_class tool_policy request scope token request_id now l =
        if requires_approval b tool_class tool_policy
        then with_approval b tool_class request scope request_id now
            (verify_approval S b request token now) l
        else (without_approval b tool_class request scope request_id now token, l)

    abbrev pub find_policy :
        Broker
        → String
        → Fields
        → PurePosixPath
        → Option Fields
        → String
        → ℕ
        → Option Json
        → L
        → Outcome BrokerError Decision × L
    find_policy b tool_class request scope token request_id now (some (obj tool_policy)) l =
        with_policy b tool_class tool_policy request scope token request_id now l
    find_policy b tool_class request scope token request_id now _ l = (
      deny request_id now
          (concat "tool class " (concat (S.quote tool_class) " has no validated policy"))
          ("policy:tools.default-deny" ∷ []) none,
      l,
    )

    abbrev pub tool_class_of : Fields → String
    tool_class_of request = str_field S.python "tool_class" request

    abbrev pub class_policy : Broker → String → Option Json
    class_policy b tool_class =
        get tool_class (object_field "classes" (object_field "tools" b.policy))

    unfoldable pub with_scope :
        Broker
        → Fields
        → Outcome PathError PurePosixPath
        → Option Fields
        → String
        → ℕ
        → L
        → Outcome BrokerError Decision × L
    with_scope b request (raised e) token request_id now l = (
      deny request_id now (path_message "workspace scope" e)
          ("scope:workspace" ∷ "policy:fail-closed" ∷ []) none,
      l,
    )
    with_scope b request (ok scope) token request_id now l =
        let tool_class = tool_class_of request in
        find_policy b tool_class request scope token request_id now (class_policy b tool_class) l

    abbrev pub scope_of_request : Fields → Outcome PathError PurePosixPath
    scope_of_request request = workspace_scope (str_field S.python "scope" request)

    abbrev pub with_schema :
        Broker
        → Fields
        → List String
        → Option Fields
        → String
        → ℕ
        → L
        → Outcome BrokerError Decision × L
    with_schema b request (e ∷ es) token request_id now l = (
      deny request_id now (concat "tool request schema validation failed: " e)
          ("schema:tool-request" ∷ "policy:fail-closed" ∷ []) none,
      l,
    )
    with_schema b request [] token request_id now l =
        with_scope b request (scope_of_request request) token request_id now l

    -- The clock reads nothing if its time has no zone.
    unfoldable pub evaluate :
        Broker → Fields → Option Fields → Option ℕ → L → Outcome BrokerError Decision × L
    evaluate b request token none l = (raised naive_clock, l)
    evaluate b request token (some now) l =
        with_schema b request (S.request_errors request) token
          (named_request (get "request_id" request)) now l
