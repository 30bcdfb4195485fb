-- ===== src/Broker/Scenarios.antt =====
-- An execution and a write under approval, a replayed token, and witnesses of the broker's theorems.
use vheatm.Prelude.{
  String, ◌≡◌, refl, true, false, some, [], ◌∷◌, ok, All, ◌==◌, if◌then◌else◌, is_blank, strip,
  has_char,
}
use vheatm.Json.{Fields, Python, Items, bool, str, arr, obj, end, field, get, json_eq}
use vheatm.Broker.{Services, Broker}
use vheatm.Broker.Paths.{
  PurePosixPath, posix_path, here, workspace_scope, workspace_relative_path, path_text,
  is_within_scope, root_of,
}
use vheatm.Broker.Ledger.{in_memory, consume_in_memory}
use vheatm.Broker.Classes.{evaluate_class, evaluate_execute, evaluate_write, normalize_paths}
use vheatm.Broker.Approval.{
  verify_approval, check_claims, check_times, check_signature, parse_utc, request_digest,
  expected_approval_token_id, approval_signing_payload,
}
use vheatm.Broker.Evaluate.{
  Decision, decide, requires_approval, with_approval, with_policy, with_scope, evaluate,
}
use vheatm.Broker.Safety.{IsAuthorized, evaluate-IsAuthorized}
use vheatm.Broker.SingleUse.{Call, run, run_all, single_use}
use vheatm.Broker.Contained.{IsInside, evaluate_write-IsInside}

abbrev python : Python
python = record {
  repr = λ _. "?";
  float_eq = λ _ _. false;
  float_lt = λ _ _. false;
  float_le = λ _ _. false;
}

abbrev services : Services
services = record {
  python = python;
  dumps = λ _. "d";
  sha256 = λ _. "h";
  upper = λ s. s;
  hmac_sha256 = λ _ _. "sig";
  quote = λ s. s;
  parse_datetime = λ s. ok (some (if s == "later" then 20 else 5));
  format_utc = λ _. "now";
  request_errors = λ _. [];
  token_errors = λ _. [];
  decision_errors = λ _. [];
}

abbrev policy : Fields
policy =
    field "tools"
      (obj (
        field "classes"
          (obj (field "execute" (obj (field "allowed_without_approval" (bool false) end)) end))
          end))
      (field "egress" (obj (field "destinations" (arr (Items.cons (str "host") Items.nil)) end))
        end)

abbrev broker : Broker
broker = record {
  policy = policy;
  keyring = ("k", "secret") ∷ [];
  capabilities = record { exact_command_allowlist = "ls" ∷ []; known_secret_names = [] };
}

abbrev request : Fields
request = field "request_id" (str "R1") (
    field "requester" (str "agent") (
      field "tool_class" (str "execute") (
        field "scope" (str "workspace:") (
          field "sandboxed" (bool true) (
            field "network_enabled" (bool false)
              (field "inherit_secrets" (bool false) (field "command" (str "ls") end)))))))

abbrev token : Fields
token = field "token_id" (str "APR-h") (
    field "requester" (str "agent") (
      field "tool_class" (str "execute") (
        field "exact_scope" (str "workspace:") (
          field "request_digest" (str "h") (
            field "issued_at" (str "now") (
              field "expires_at" (str "later") (
                field "signature" (obj (field "key_id" (str "k") (field "value" (str "sig") end)))
                  end)))))))

abbrev call : Call services in_memory
call = record { broker = broker; request = request; token = some token; clock = some 10 }

abbrev allowed : Decision
allowed = record {
  request_id = "R1";
  allowed = true;
  reason = "execute request satisfies sandbox and exact-command controls";
  controls =
      "schema:tool-request" ∷ "scope:workspace" ∷ "policy:tools.default-deny" ∷ "approval:verified"
      ∷ "approval:single-use" ∷ "execute:sandbox" ∷ "execute:network-disabled"
      ∷ "execute:no-secret-inheritance" ∷ "execute:command-allowlist" ∷ [];
  evaluated_at = 10;
  approval_token_id = some "APR-h";
}

abbrev replayed : Decision
replayed = record {
  request_id = "R1";
  allowed = false;
  reason = "approval token has already been consumed";
  controls =
      "schema:tool-request" ∷ "scope:workspace" ∷ "policy:tools.default-deny" ∷ "approval:verified"
      ∷ "approval:single-use" ∷ "approval:replay-blocked" ∷ "policy:fail-closed" ∷ [];
  evaluated_at = 10;
  approval_token_id = some "APR-h";
}

first_call : run services in_memory call [] ≡ (ok allowed, "APR-h" ∷ [])
unfolding evaluate with_scope workspace_scope with_policy requires_approval with_approval
    verify_approval check_claims json_eq request_digest check_times parse_utc check_signature
    expected_approval_token_id approval_signing_payload consume_in_memory evaluate_class
    evaluate_execute strip decide has_char
first_call = refl

second_call :
    run services in_memory call (run_all services in_memory (call ∷ []) ("APR-h" ∷ []))
    ≡ (ok replayed, "APR-h" ∷ [])
unfolding evaluate with_scope workspace_scope with_policy requires_approval with_approval
    verify_approval check_claims json_eq request_digest check_times parse_utc check_signature
    expected_approval_token_id approval_signing_payload consume_in_memory evaluate_class
    evaluate_execute strip decide run_all
second_call = refl

evaluate-IsAuthorized_example :
    IsAuthorized services in_memory broker request (some token) (some 10) [] ("APR-h" ∷ []) allowed
evaluate-IsAuthorized_example =
    evaluate-IsAuthorized services in_memory broker request (some token) (some 10) [] ("APR-h" ∷ [])
      allowed first_call refl

single_use_example : replayed.allowed ≡ false
single_use_example =
    single_use services in_memory call call (call ∷ []) [] ("APR-h" ∷ []) ("APR-h" ∷ []) allowed
      replayed "APR-h" first_call refl refl second_call refl

abbrev source_scope : PurePosixPath
source_scope = record { root = ""; parts = "src" ∷ [] }

abbrev write : Fields
write =
    field "diff_paths" (arr (Items.cons (str "src/app.py") Items.nil))
      (field "rollback_plan" (str "git revert") end)

evaluate_write-IsInside_example :
    All (IsInside source_scope) ("src/app.py" ∷ [])
    × ((plan : String) × (get "rollback_plan" write ≡ some (str plan)) × (is_blank plan ≡ false))
unfolding workspace_scope workspace_relative_path posix_path root_of path_text evaluate_write
    normalize_paths is_within_scope is_blank has_char
evaluate_write-IsInside_example =
    evaluate_write-IsInside services write "workspace:src" source_scope
      "write request satisfies scoped-diff and rollback controls"
      ("write:scoped-diff" ∷ "write:rollback-plan" ∷ []) refl refl

-- A path that climbs out is refused.
climb_refused :
    (evaluate_write services
      (field "diff_paths" (arr (Items.cons (str "src/../etc") Items.nil)) end)
      source_scope).0
    ≡ false
unfolding evaluate_write normalize_paths workspace_relative_path posix_path root_of path_text
    has_char
climb_refused = refl

-- The text "." is accepted as a path, and names the workspace itself.
dot_accepted : workspace_relative_path "." ≡ ok here
unfolding workspace_relative_path posix_path root_of path_text has_char
dot_accepted = refl
