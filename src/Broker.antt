-- ===== src/Broker.antt =====
-- src/vheatm_control/tool_broker.py: the fail-closed evaluator of guarded tool requests. `Paths`
-- holds the workspace paths, `Ledger` the single-use token ledgers, `Classes` the controls of each
-- tool class, `Approval` the approval tokens, `Evaluate` the broker's decision and `Receipt` the
-- checks at the boundary where a decision is used. This file has the types that they share.
pub mod Paths
pub mod Ledger
pub mod Classes
pub mod Approval
pub mod Evaluate
pub mod Safety
pub mod SingleUse
pub mod Contained
pub mod Receipt
mod Scenarios
mod ReceiptScenarios
use vheatm.Prelude.{ℕ, String, Bool, true, false, Option, none, some, List, [], Outcome}
use vheatm.Json.{Json, Fields, Python, bool, str, arr, obj, end, get, to_list}

-- What the broker takes from Python's libraries and from jsonschema.
pub record Services : Type 0 where
  pub python : Python
  -- `json.dumps(value, sort_keys=True, ...)`, the hex SHA-256 of its bytes, and `str.upper`
  pub dumps : Fields → String
  pub sha256 : String → String
  pub upper : String → String
  -- `hmac.new(key, payload, hashlib.sha256).hexdigest()`
  pub hmac_sha256 : String → String → String
  -- `repr` of a text
  pub quote : String → String
  -- `datetime.fromisoformat`: the message of its ValueError, nothing for a result without a time
  -- zone, or the instant in UTC, in microseconds
  pub parse_datetime : String → Outcome String (Option ℕ)
  pub format_utc : ℕ → String
  -- the messages of `Draft202012Validator` for the three schemas
  pub request_errors : Fields → List String
  pub token_errors : Fields → List String
  pub decision_errors : Fields → List String

pub data BrokerError : Type 0 where
  naive_clock : BrokerError
  invalid_decision : String → BrokerError

pub record Capabilities : Type 0 where
  pub exact_command_allowlist : List String
  pub known_secret_names : List String

pub record Broker : Type 0 where
  pub policy : Fields
  pub keyring : List (String × String)
  pub capabilities : Capabilities

-- `v is True` and `v is False`
abbrev pub is_true : Option Json → Bool
is_true (some (bool true)) = true
is_true _ = false

abbrev pub is_false : Option Json → Bool
is_false (some (bool false)) = true
is_false _ = false

-- `d.get(k, {})` where the value is an object, and `d.get(k, [])` where it is an array.
abbrev object_or : Option Json → Fields
object_or (some (obj d)) = d
object_or _ = end

abbrev pub object_field : String → Fields → Fields
object_field k d = object_or (get k d)

abbrev list_or : Option Json → List Json
list_or (some (arr vs)) = to_list vs
list_or _ = []

abbrev pub list_field : String → Fields → List Json
list_field k d = list_or (get k d)

-- A value that the schema makes a text.
abbrev text_or : Option Json → String
text_or (some (str s)) = s
text_or _ = ""

abbrev pub text_field : String → Fields → String
text_field k d = text_or (get k d)
