-- ===== src/Broker/Classes.antt =====
-- The controls of each tool class in tool_broker.py: `_evaluate_read` and its four siblings.
use Prim.Native.String.{◌++◌ as concat}
use vheatm.Prelude.{
  map, String, Bool, true, false, not, ◌&&◌, Option, none, some, List, [], ◌∷◌, ◌==◌, Outcome, ok,
  raised, ◌>>=◌, any, all, has, has_char, is_blank, strip, if◌then◌else◌,
}
use vheatm.Json.{Json, Fields, null, str, get, json_eq, to_str}
use vheatm.Broker.{Services, Broker, is_true, is_false, object_field, list_field}
use vheatm.Broker.Paths.{
  PurePosixPath, PathError, not_posix, not_normalized, not_relative, bad_scope_prefix,
  workspace_relative_path, is_within_scope,
}

-- (allowed, reason, controls)
abbrev pub Verdict : Type 0
Verdict = Bool × String × List String

abbrev refuse : String → String → Verdict
refuse reason control = (false, reason, control ∷ [])

unfoldable pub path_message : String → PathError → String
path_message label not_posix = concat label " must be a normalized POSIX path"
path_message label not_normalized =
    concat label " must be normalized without redundant separators or dot segments"
path_message label not_relative = concat label " must be a safe workspace-relative path"
path_message label bad_scope_prefix = "scope must start with 'workspace:'"

-- `normalized = tuple(_workspace_relative_path(...) for value in diff_paths)`
unfoldable pub normalize_paths : List String → Outcome PathError (List PurePosixPath)
normalize_paths [] = ok []
normalize_paths (v ∷ vs) = do
  path ← workspace_relative_path v
  rest ← normalize_paths vs
  ok (path ∷ rest)

-- A command that is a text with no NUL and no white space at its ends.
abbrev pub command_is_normal : Option Json → Bool
command_is_normal (some (str c)) = c == strip c && not (has_char 0 c)
command_is_normal _ = false

abbrev pub names_one_of : List String → Option Json → Bool
names_one_of names (some (str s)) = has names s
names_one_of names _ = false

abbrev pub has_text : Option Json → Bool
has_text (some (str s)) = not (is_blank s)
has_text _ = false

abbrev pub or_null : Option Json → Json
or_null none = null
or_null (some v) = v

module _ (S : Services) where
  -- `v in vs`
  abbrev pub listed : Json → List Json → Bool
  listed v vs = any (λ w. json_eq S.python v w) vs

  unfoldable pub evaluate_read : Fields → Verdict
  evaluate_read request =
      if not (is_false (get "secret_expansion" request))
      then refuse "read requests must explicitly disable secret expansion"
          "read:no-secret-expansion"
      else if not (is_false (get "contains_secrets" request))
      then refuse "read requests must explicitly declare that the target contains no secrets"
          "read:no-secret-content"
      else (
        true,
        "read request satisfies workspace and secret-boundary controls",
        "read:workspace-only" ∷ "read:no-secret-expansion" ∷ "read:no-secret-content" ∷ [],
      )

  unfoldable pub evaluate_execute : Broker → Fields → Verdict
  evaluate_execute b request =
      if not (is_true (get "sandboxed" request))
      then refuse "execute requests require an active sandbox" "execute:sandbox"
      else if not (is_false (get "network_enabled" request))
      then refuse "execute sandbox network must be disabled" "execute:network-disabled"
      else if not (is_false (get "inherit_secrets" request))
      then refuse "execute sandbox must not inherit environment secrets"
          "execute:no-secret-inheritance"
      else if not (command_is_normal (get "command" request))
      then refuse "execute command must be a normalized non-null string"
          "execute:normalized-command"
      else if not (names_one_of b.capabilities.exact_command_allowlist (get "command" request))
      then refuse "execute command is not present in the exact command allowlist"
          "execute:command-allowlist"
      else (
        true,
        "execute request satisfies sandbox and exact-command controls",
        "execute:sandbox" ∷ "execute:network-disabled" ∷ "execute:no-secret-inheritance"
            ∷ "execute:command-allowlist" ∷ [],
      )

  -- `str(value) for value in request.get("diff_paths", [])`
  abbrev pub diff_paths : Fields → List String
  diff_paths request = map (to_str S.python) (list_field "diff_paths" request)

  abbrev pub judge_paths : Fields → PurePosixPath → Outcome PathError (List PurePosixPath) → Verdict
  judge_paths request scope (raised e) = refuse (path_message "diff path" e) "write:scoped-diff"
  judge_paths request scope (ok normalized) =
      if not (all (λ p. is_within_scope p scope) normalized)
      then refuse "write diff path escapes the approved workspace scope" "write:scoped-diff"
      else if not (has_text (get "rollback_plan" request))
      then refuse "write requests require a non-empty rollback plan" "write:rollback-plan"
      else (
        true,
        "write request satisfies scoped-diff and rollback controls",
        "write:scoped-diff" ∷ "write:rollback-plan" ∷ [],
      )

  unfoldable pub evaluate_write : Fields → PurePosixPath → Verdict
  evaluate_write request scope = judge_paths request scope (normalize_paths (diff_paths request))

  unfoldable pub evaluate_network : Broker → Fields → Verdict
  evaluate_network b request =
      let egress = object_field "egress" b.policy in
      let prohibited = list_field "prohibited_data" egress in
      if not (listed (or_null (get "destination" request)) (list_field "destinations" egress))
      then refuse "network destination is not allowlisted by runtime policy"
          "network:destination-allowlist"
      else if any (λ d. listed d prohibited) (list_field "data_classes" request)
      then refuse "network request contains prohibited data classes" "network:data-classification"
      else if is_true (get "requires_redaction" egress) && not (is_true (get "redacted" request))
      then refuse "network request must confirm redaction" "network:redaction"
      else (
        true,
        "network request satisfies destination, data-class, and redaction controls",
        "network:destination-allowlist" ∷ "network:data-classification" ∷ "network:redaction" ∷ [],
      )

  unfoldable pub evaluate_secrets : Broker → Fields → Verdict
  evaluate_secrets b request =
      if not (names_one_of b.capabilities.known_secret_names (get "secret_name" request))
      then refuse "secret name is not registered with the broker" "secrets:named-secret"
      else if not (is_true (get "least_privilege" request))
      then refuse "secret requests must assert least-privilege use" "secrets:least-privilege"
      else if not (is_true (get "no_model_echo" request))
      then refuse "secret requests must prohibit model echo" "secrets:no-model-echo"
      else (
        true,
        "secret request satisfies named-secret and non-disclosure controls",
        "secrets:named-secret" ∷ "secrets:least-privilege" ∷ "secrets:no-model-echo" ∷ [],
      )

  -- `getattr(self, f"_evaluate_{tool_class}", None)`, applied.
  unfoldable pub evaluate_class : Broker → String → Fields → PurePosixPath → Option Verdict
  evaluate_class b tool_class request scope =
      if tool_class == "read"
      then some (evaluate_read request)
      else if tool_class == "execute"
      then some (evaluate_execute b request)
      else if tool_class == "write"
      then some (evaluate_write request scope)
      else if tool_class == "network"
      then some (evaluate_network b request)
      else if tool_class == "secrets"
      then some (evaluate_secrets b request)
      else none
