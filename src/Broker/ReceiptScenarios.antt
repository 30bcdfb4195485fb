-- ===== src/Broker/ReceiptScenarios.antt =====
-- A receipt of an allowed execution, and the theorems on receipts at it.
use vheatm.Prelude.{
  String, ◌≡◌, refl, false, some, [], Outcome, ok, raised, is_blank, strip_prefix, replace_zone,
}
use vheatm.Json.{Fields, Python, str, arr, nil, cons, end, field, put, remove, json_eq}
use vheatm.Broker.{Services}
use vheatm.Broker.Approval.{canonical_digest, request_digest, action_digest, parse_utc}
use vheatm.Broker.Receipt.{
  ReceiptError, validate_policy_decision, build_tool_receipt, expected_tool_receipt_id, is_hashable,
  is_text_of, is_reason, are_controls, is_time, null_or_token_id, is_absent, is_token_id, is_hex_of,
  IsAuthentic, build_tool_receipt-IsAuthentic,
}

abbrev python : Python
python = record {
  repr = λ v. "";
  float_eq = λ a b. false;
  float_lt = λ a b. false;
  float_le = λ a b. false;
}

abbrev services : Services
services = record {
  python = python;
  dumps = λ d. "";
  sha256 = λ s. "digest";
  upper = λ s. s;
  hmac_sha256 = λ k s. "";
  quote = λ s. s;
  parse_datetime = λ s. ok (some 5);
  format_utc = λ t. "now";
  request_errors = λ d. [];
  token_errors = λ d. [];
  decision_errors = λ d. [];
}

abbrev token : String
token = "APR-0123456789ABCDEF0123456789ABCDEF0123456789ABCDEF0123456789ABCDEF"

abbrev request : Fields
request =
    field "schema_version" (str "1.0.0")
      (field "request_id" (str "R1") (field "tool_class" (str "execute") end))

abbrev decision : Fields
decision = field "schema_version" (str "1.0.0") (
    field "request_id" (str "R1") (
      field "decision" (str "allow") (
        field "reason" (str "granted") (
          field "controls" (arr (cons (str "scope:workspace") nil))
            (field "evaluated_at" (str "now") (field "approval_token_id" (str token) end))))))

abbrev receipt_or : Outcome ReceiptError Fields → Fields
receipt_or (ok d) = d
receipt_or (raised e) = end

abbrev receipt : Fields
receipt = receipt_or (build_tool_receipt services request decision "now")

valid_run : validate_policy_decision services decision request ≡ ok tt
unfolding validate_policy_decision build_tool_receipt expected_tool_receipt_id canonical_digest
    request_digest action_digest parse_utc is_hashable is_text_of is_reason are_controls is_time
    null_or_token_id is_absent is_token_id is_hex_of json_eq put remove is_blank strip_prefix
    replace_zone
valid_run = refl

built_run : build_tool_receipt services request decision "now" ≡ ok receipt
unfolding validate_policy_decision build_tool_receipt expected_tool_receipt_id canonical_digest
    request_digest action_digest parse_utc is_hashable is_text_of is_reason are_controls is_time
    null_or_token_id is_absent is_token_id is_hex_of json_eq put remove is_blank strip_prefix
    replace_zone
built_run = refl

build_tool_receipt-IsAuthentic_example :
    (validate_policy_decision services decision request ≡ ok tt)
    × IsAuthentic services request receipt
build_tool_receipt-IsAuthentic_example =
    build_tool_receipt-IsAuthentic services request decision "now" receipt built_run
