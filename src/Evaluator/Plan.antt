-- ===== src/Evaluator/Plan.antt =====
-- `evaluate_manifest`: the state of each gate of a manifest under a context, and the plan's document.
use Prim.Native.String.{◌++◌ as concat}
use vheatm.Prelude.{
  ℕ, zero, suc, ◌+◌, String, Bool, true, false, ◌&&◌, Option, none, some, List, [], ◌∷◌, map, ◌==◌,
  pos, eqb, ltb, length, join, Outcome, ok, raised, ◌>>=◌, ◌>>◌, guard, or_raise, if◌then◌else◌,
}
use vheatm.Json.{
  Json, Fields, Python, null, bool, int, str, arr, obj, end, field, get, put, to_list, from_list,
}
use vheatm.Activation.{TruthValue, Expr, ActivationError}
use vheatm.Activation.Evaluate.{evaluate, unknown_references}
use vheatm.Evaluator.{
  EvaluatorError, not_an_object, not_an_array, missing_key, bad_revision, initial_with_parent,
  revision_without_parent, bad_bundle_root, truthy,
}
use vheatm.Evaluator.Context.{normalize_context}

pub record Runtime : Type 0 where
  pub python : Python
  -- `json.dumps(value, sort_keys=True, ...)`, and the hex SHA-256 of its UTF-8
  pub dumps : Json → String
  pub sha256 : String → String
  -- Does `int(text, 16)` read the text?
  pub reads_hex : String → Bool
  -- `compile_activation`, whose errors are the activation's
  pub compile_activation : String → Outcome ActivationError Expr
  -- `str(error)`
  pub error_text : ActivationError → String

pub data GateState : Type 0 where
  active inactive unknown : GateState

unfoldable pub gate_state : TruthValue → GateState
gate_state TruthValue.true = active
gate_state TruthValue.false = inactive
gate_state TruthValue.unknown = GateState.unknown

unfoldable pub state_text : GateState → String
state_text active = "active"
state_text inactive = "inactive"
state_text GateState.unknown = "unknown"

abbrev pub is_unknown : GateState → Bool
is_unknown GateState.unknown = true
is_unknown _ = false

-- What a manifest says of a gate.
pub record Gate : Type 0 where
  pub id : Json
  pub layer : Json
  pub phase : Json
  pub activation : String

pub record GateResult : Type 0 where
  pub gate : Gate
  pub state : GateState
  pub unknown_references : List String
  pub error : Option ActivationError

-- `counts`
pub record Counts : Type 0 where
  pub active : ℕ
  pub inactive : ℕ
  pub unknown : ℕ

pub record Plan : Type 0 where
  pub framework_version : Json
  pub manifest_digest : String
  pub bundle_root : String
  pub context_digest : String
  pub plan_revision : ℕ
  pub session_root : String
  pub context : Fields
  pub gates : List GateResult
  -- the parent's id and the reason, of a revised plan
  pub lineage : Option (Json × Json)

-- `d[k]`
abbrev pub require : String → Fields → Outcome EvaluatorError Json
require k d = or_raise (get k d) (missing_key k)

abbrev as_mapping : String → Json → Outcome EvaluatorError Fields
as_mapping k (obj d) = ok d
as_mapping k v = raised (not_an_object k)

abbrev as_list : String → Json → Outcome EvaluatorError (List Json)
as_list k (arr vs) = ok (to_list vs)
as_list k v = raised (not_an_array k)

abbrev as_text : String → Json → Outcome EvaluatorError String
as_text k (str s) = ok s
as_text k v = raised (not_an_object k)

unfoldable pub read_gate : Json → Outcome EvaluatorError Gate
read_gate v = do
  d ← as_mapping "gate" v
  expression ← require "activation" d
  activation ← as_text "activation" expression
  id ← require "id" d
  layer ← require "layer" d
  phase ← require "phase" d
  ok (record { id = id; layer = layer; phase = phase; activation = activation })

unfoldable pub read_gates : List Json → Outcome EvaluatorError (List Gate)
read_gates [] = ok []
read_gates (v ∷ vs) = do gate ← read_gate v; rest ← read_gates vs; ok (gate ∷ rest)

-- `manifest["gates"]["items"]`
unfoldable pub manifest_gates : Fields → Outcome EvaluatorError (List Gate)
unfolding read_gates
manifest_gates manifest = do
  gates ← require "gates" manifest
  d ← as_mapping "gates" gates
  items ← require "items" d
  vs ← as_list "items" items
  read_gates vs

unfoldable pub count_state : GateState → Counts → Counts
count_state active c = record c { active = c.active + 1 }
count_state inactive c = record c { inactive = c.inactive + 1 }
count_state GateState.unknown c = record c { unknown = c.unknown + 1 }

-- The counts after the loop over the gates, from those before it.
unfoldable pub count_gates : List GateResult → Counts → Counts
unfolding count_state
count_gates [] c = c
count_gates (g ∷ gs) c = count_gates gs (count_state g.state c)

abbrev pub no_counts : Counts
no_counts = record { active = 0; inactive = 0; unknown = 0 }

unfoldable pub completion_blocked : Counts → Bool
completion_blocked c = ltb 0 c.unknown

abbrev truth_text : GateState → String
truth_text active = "true"
truth_text inactive = "false"
truth_text GateState.unknown = "unknown"

abbrev references_text : List String → String
references_text [] = ""
references_text (n ∷ ns) = concat "; unresolved: " (join ", " (n ∷ ns))

abbrev text_length : String → ℕ
text_length String.[] = 0
text_length (String.◌∷◌ c s) = suc (text_length s)

module _ (R : Runtime) where
  -- The three values of a gate: its state, the fields that are not known, the error.
  abbrev pub judged :
      Expr
      → Fields
      → Outcome ActivationError TruthValue
      → GateState × List String × Option ActivationError
  judged e context (ok TruthValue.unknown) = (GateState.unknown, unknown_references e context, none)
  judged e context (ok t) = (gate_state t, [], none)
  judged e context (raised error) = (GateState.unknown, [], some error)

  abbrev pub judge_compiled :
      Fields → Outcome ActivationError Expr → GateState × List String × Option ActivationError
  judge_compiled context (ok e) = judged e context (evaluate R.python e context)
  judge_compiled context (raised error) = (GateState.unknown, [], some error)

  -- One round of the loop over the manifest's gates.
  unfoldable pub evaluate_gate : Fields → Gate → GateResult
  evaluate_gate context gate =
      let (state, names, error) = judge_compiled context (R.compile_activation gate.activation) in
      record { gate = gate; state = state; unknown_references = names; error = error }

  abbrev error_reason : Option ActivationError → String
  error_reason none = ""
  error_reason (some e) = if R.error_text e == "" then "" else concat "; error: " (R.error_text e)

  unfoldable pub gate_document : GateResult → Fields
  gate_document g = field "id" g.gate.id (
      field "layer" g.gate.layer (
        field "phase" g.gate.phase (
          field "activation" (str g.gate.activation) (
            field "activation_state" (str (state_text g.state)) (
              field "unknown_references" (arr (from_list (map str g.unknown_references))) (
                field "reason"
                  (str (
                    concat "activation evaluated to " (
                      concat (truth_text g.state)
                        (concat (references_text g.unknown_references) (error_reason g.error)))))
                  end))))))

  unfoldable pub canonical_digest : Json → String
  canonical_digest v = R.sha256 (R.dumps v)

  abbrev pub evaluator_build : String
  evaluator_build = "vheatm-control-evaluator-v1"

  unfoldable pub fallback_bundle_root : Fields → String
  unfolding canonical_digest
  fallback_bundle_root manifest = canonical_digest (
      obj (
        field "manifest_digest" (str (canonical_digest (obj manifest)))
          (field "bundle_mode" (str "in-memory-manifest-only") end)))

  unfoldable pub session_root_of : Fields → String → String
  unfolding canonical_digest
  session_root_of context bundle_root = canonical_digest (
      obj (
        field "context" (obj context) (
          field "bundle_root" (str bundle_root)
            (field "evaluator_build" (str evaluator_build) end))))

  unfoldable pub summary_document : List GateResult → Fields
  unfolding count_gates completion_blocked
  summary_document gs =
      let c = count_gates gs no_counts in
      field "active" (int (pos c.active)) (
        field "inactive" (int (pos c.inactive)) (
          field "unknown" (int (pos c.unknown)) (
            field "total" (int (pos (length gs)))
              (field "completion_blocked" (bool (completion_blocked c)) end))))

  abbrev gates_value : List GateResult → Json
  gates_value gs = arr (from_list (map (λ g. obj (gate_document g)) gs))

  abbrev lineage_fields : Option (Json × Json) → Fields → Fields
  lineage_fields none d = d
  lineage_fields (some (parent, reason)) d =
      put "revision_reason" reason (put "parent_plan_id" parent d)

  -- The plan before it has a digest and an id.
  unfoldable pub plan_body : Plan → Fields
  unfolding summary_document gate_document canonical_digest
  plan_body p = lineage_fields p.lineage (
      field "schema_version" (str "1.0.0") (
        field "framework_version" p.framework_version (
          field "manifest_digest" (str p.manifest_digest) (
            field "bundle_root" (str p.bundle_root) (
              field "context_digest" (str p.context_digest) (
                field "evaluator_build" (str evaluator_build) (
                  field "evaluator_digest" (str (canonical_digest (str evaluator_build))) (
                    field "plan_revision" (int (pos p.plan_revision)) (
                      field "session_root" (str p.session_root) (
                        field "context" (obj p.context) (
                          field "summary" (obj (summary_document p.gates))
                            (field "gates" (gates_value p.gates) end))))))))))))

  unfoldable pub plan_digest : Plan → String
  unfolding canonical_digest plan_body
  plan_digest p = canonical_digest (obj (plan_body p))

  unfoldable pub plan_document : Plan → Fields
  unfolding plan_digest plan_body
  plan_document p =
      put "plan_id" (str (concat "PLN-" (plan_digest p)))
        (put "plan_digest" (str (plan_digest p)) (plan_body p))

  -- A bool is no revision.
  abbrev revision_number : Json → Outcome EvaluatorError ℕ
  revision_number (int (pos n)) = ok n
  revision_number v = raised bad_revision

  abbrev is_null : Json → Bool
  is_null null = true
  is_null v = false

  -- An initial plan has no parent and no reason, a revised one has both.
  unfoldable pub lineage_of : ℕ → Json → Json → Outcome EvaluatorError (Option (Json × Json))
  lineage_of zero parent reason = do
    guard (is_null parent && is_null reason) initial_with_parent
    ok none
  lineage_of (suc n) parent reason = do
    guard (truthy R.python parent && truthy R.python reason) revision_without_parent
    ok (some (parent, reason))

  -- `bundle_root or _fallback_bundle_root(manifest)`, which must be 64 characters of hexadecimal
  unfoldable pub checked_root : Json → Outcome EvaluatorError String
  checked_root (str s) = do guard (eqb (text_length s) 64 && R.reads_hex s) bad_bundle_root; ok s
  checked_root v = raised bad_bundle_root

  abbrev root_or_fallback : Json → Fields → Json
  root_or_fallback given manifest =
      if truthy R.python given then given else str (fallback_bundle_root manifest)

  abbrev framework_version_of : Fields → Outcome EvaluatorError Json
  framework_version_of manifest = do
    framework ← require "framework" manifest
    d ← as_mapping "framework" framework
    require "version" d

  unfoldable pub evaluate_manifest :
      Fields → Option Fields → Json → Json → Json → Json → Outcome EvaluatorError Plan
  unfolding canonical_digest
  evaluate_manifest manifest supplied revision parent reason bundle_root = do
    n ← revision_number revision
    lineage ← lineage_of n parent reason
    context ← normalize_context R.python manifest supplied
    root ← checked_root (root_or_fallback bundle_root manifest)
    gates ← manifest_gates manifest
    version ← framework_version_of manifest
    ok (record {
      framework_version = version;
      manifest_digest = canonical_digest (obj manifest);
      bundle_root = root;
      context_digest = canonical_digest (obj context);
      plan_revision = n;
      session_root = session_root_of context root;
      context = context;
      gates = map (evaluate_gate context) gates;
      lineage = lineage;
    })
