-- ===== src/Lifecycle.antt =====
-- src/vheatm_control/lifecycle.py: the audit's state machine, its append-only event log, and the
-- replay of a stored document. Hashing, `json.dumps` and `datetime.fromisoformat` are parameters.
pub mod Edges
pub mod Replay
pub mod RoundTrip
pub mod Walks
mod Scenarios
use Prim.Native.String.{◌++◌ as concat}
use vheatm.Prelude.{
  ℕ, ◌+◌, String, Bool, true, false, not, ◌||◌, Option, none, some, List, [], ◌∷◌, ◌++◌, map, ◌==◌,
  Outcome, ok, raised, ◌>>=◌, ◌>>◌, guard, or_raise, pos, length, any, lookup, is_blank,
  replace_zone, sort_unique, if◌then◌else◌,
}
use vheatm.Json.{
  Json, Items, Fields, Python, int, str, arr, obj, end, field, get, remove, to_list, from_list,
  items_eq, field_is, str_field,
}

pub data State : Type 0 where
  created context_validated planned running blocked partial complete attested : State

abbrev pub state_name : State → String
state_name created = "created"
state_name context_validated = "context_validated"
state_name planned = "planned"
state_name running = "running"
state_name blocked = "blocked"
state_name partial = "partial"
state_name complete = "complete"
state_name attested = "attested"

-- The keys of `ALLOWED_TRANSITIONS`.
abbrev state_keys : List (String × State)
state_keys =
    ("created", created)
    ∷ ("context_validated", context_validated)
    ∷ ("planned", planned)
    ∷ ("running", running)
    ∷ ("blocked", blocked)
    ∷ ("partial", partial)
    ∷ ("complete", complete)
    ∷ ("attested", attested)
    ∷ []

unfoldable pub state_of : String → Option State
state_of s = lookup s state_keys

-- `ALLOWED_TRANSITIONS`
unfoldable pub allowed_transitions : State → List State
allowed_transitions created = context_validated ∷ []
allowed_transitions context_validated = planned ∷ []
allowed_transitions planned = running ∷ []
allowed_transitions running = blocked ∷ partial ∷ complete ∷ []
allowed_transitions blocked = running ∷ []
allowed_transitions partial = running ∷ []
allowed_transitions complete = attested ∷ []
allowed_transitions attested = []

unfoldable pub permits : State → State → Bool
unfolding allowed_transitions
permits s t = any (λ u. state_name u == state_name t) (allowed_transitions s)

pub data LifecycleError : Type 0 where
  empty_audit_id : LifecycleError
  unknown_state : String → LifecycleError
  invalid_transition : State → String → LifecycleError
  no_actor_or_reason : LifecycleError
  bad_timestamp : String → LifecycleError
  naive_timestamp : LifecycleError
  unsupported_schema : LifecycleError
  events_not_array : LifecycleError
  event_not_object : ℕ → LifecycleError
  sequence_gap : ℕ → LifecycleError
  audit_id_mismatch : ℕ → LifecycleError
  from_state_mismatch : ℕ → LifecycleError
  event_no_actor : ℕ → LifecycleError
  refs_not_sorted : ℕ → LifecycleError
  refs_type_error : ℕ → LifecycleError
  id_mismatch : ℕ → LifecycleError
  declared_state_mismatch : LifecycleError

-- What the code takes from Python's libraries.
pub record Runtime : Type 0 where
  pub python : Python
  -- `json.dumps(dict(payload), sort_keys=True, ...)`, and the upper-case hex SHA-256 of its bytes
  pub dumps : Fields → String
  pub sha256 : String → String
  -- `datetime.fromisoformat`: nothing if it raises, else whether the result has a time zone
  pub parse_time : String → Option Bool
  -- `sorted(set(refs))` of a list that is not all texts: nothing if it raises a TypeError
  pub sort_mixed : Items → Option Items

pub record AuditLifecycle : Type 0 where
  pub audit_id : String
  pub state : State
  pub events : List Fields

-- The texts of a list, if all its items are texts.
unfoldable pub all_texts : Items → Option (List String)
all_texts Items.nil = some []
all_texts (Items.cons (str s) vs) = elim (all_texts vs) [ none ↦ none | some ss ↦ some (s ∷ ss) ]
all_texts (Items.cons v vs) = none

abbrev pub texts : List String → Json
texts ss = arr (from_list (map str ss))

module _ (R : Runtime) where
  unfoldable pub event_id : Fields → String
  event_id payload = concat "EVT-" (R.sha256 (R.dumps payload))

  abbrev checked_zone : String → Option Bool → Outcome LifecycleError (Unit {0})
  checked_zone value none = raised (bad_timestamp value)
  checked_zone value (some false) = raised naive_timestamp
  checked_zone value (some true) = ok tt

  unfoldable pub validate_time : String → Outcome LifecycleError (Unit {0})
  validate_time value = checked_zone value (R.parse_time (replace_zone value))

  -- `AuditLifecycle(audit_id, state)` with `__post_init__`
  unfoldable pub create : String → String → Outcome LifecycleError AuditLifecycle
  create audit_id state = do
    guard (not (is_blank audit_id)) empty_audit_id
    s ← or_raise (state_of state) (unknown_state state)
    ok (record { audit_id = audit_id; state = s; events = [] })

  -- `occurred_at or datetime.now().astimezone().isoformat()`
  unfoldable pub timestamp_or : Option String → String → String
  timestamp_or none now = now
  timestamp_or (some t) now = if t == "" then now else t

  abbrev pub payload_of :
      String → State → State → String → String → String → List String → ℕ → Fields
  payload_of audit_id from to actor reason timestamp refs sequence =
      field "audit_id" (str audit_id) (
        field "from" (str (state_name from)) (
          field "to" (str (state_name to)) (
            field "actor" (str actor) (
              field "reason" (str reason) (
                field "occurred_at" (str timestamp) (
                  field "evidence_refs" (texts refs)
                    (field "sequence" (int (pos sequence)) end)))))))

  unfoldable pub transition :
      AuditLifecycle
      → String
      → String
      → String
      → Option String
      → String
      → List String
      → Outcome LifecycleError (AuditLifecycle × Fields)
  unfolding event_id timestamp_or
  transition lc target actor reason occurred_at now evidence_refs = do
    to ← or_raise (state_of target) (unknown_state target)
    guard (permits lc.state to) (invalid_transition lc.state target)
    guard (not (is_blank actor || is_blank reason)) no_actor_or_reason
    let timestamp = timestamp_or occurred_at now
    validate_time timestamp
    let payload =
        payload_of lc.audit_id lc.state to actor reason timestamp (sort_unique evidence_refs)
          (length lc.events + 1)
    let event = field "id" (str (event_id payload)) payload
    ok (record lc { events = lc.events ++ event ∷ []; state = to }, event)

  unfoldable pub to_document : AuditLifecycle → Fields
  to_document lc = field "schema_version" (str "1.0.0") (
      field "audit_id" (str lc.audit_id) (
        field "state" (str (state_name lc.state))
          (field "events" (arr (from_list (map obj lc.events))) end)))

  -- `sorted(set(refs))`
  unfoldable pub sorted_set : Items → Option Items
  unfolding all_texts
  sorted_set refs = elim (all_texts refs) [
    | none ↦ R.sort_mixed refs
    | some ss ↦ some (from_list (map str (sort_unique ss)))
  ]

  abbrev checked_refs : ℕ → Option Json → Outcome LifecycleError (Unit {0})
  checked_refs index (some (arr refs)) = do
    sorted ← or_raise (sorted_set refs) (refs_type_error index)
    guard (items_eq R.python refs sorted) (refs_not_sorted index)
  checked_refs index _ = raised (refs_not_sorted index)

  abbrev pub permitted_target : State → String → Outcome LifecycleError State
  permitted_target from target = do
    to ← or_raise (state_of target) (invalid_transition from target)
    guard (permits from to) (invalid_transition from target)
    ok to

  -- One round of the loop of `from_document`, for an event that is an object.
  unfoldable pub replay_event : ℕ → Fields → AuditLifecycle → Outcome LifecycleError AuditLifecycle
  unfolding event_id
  replay_event index raw replay = do
    let id = str_field R.python "id" raw
    let event = remove "id" raw
    guard (field_is R.python (get "sequence" event) (int (pos index))) (sequence_gap index)
    guard (field_is R.python (get "audit_id" event) (str replay.audit_id)) (audit_id_mismatch index)
    guard (field_is R.python (get "from" event) (str (state_name replay.state)))
        (from_state_mismatch index)
    to ← permitted_target replay.state (str_field R.python "to" event)
    guard
        (not (
          is_blank (str_field R.python "actor" event)
          || is_blank (str_field R.python "reason" event)))
        (event_no_actor index)
    validate_time (str_field R.python "occurred_at" event)
    checked_refs index (get "evidence_refs" event)
    guard (id == event_id event) (id_mismatch index)
    ok (record replay { events = replay.events ++ field "id" (str id) event ∷ []; state = to })

  unfoldable pub replay_events :
      ℕ → List Json → AuditLifecycle → Outcome LifecycleError AuditLifecycle
  replay_events index [] replay = ok replay
  replay_events index (obj raw ∷ rest) replay = do
    next ← replay_event index raw replay
    replay_events (index + 1) rest next
  replay_events index (_ ∷ rest) replay = raised (event_not_object index)

  abbrev pub event_list : Option Json → Outcome LifecycleError (List Json)
  event_list (some (arr vs)) = ok (to_list vs)
  event_list _ = raised events_not_array

  unfoldable pub from_document : Fields → Outcome LifecycleError AuditLifecycle
  from_document document = do
    guard (field_is R.python (get "schema_version" document) (str "1.0.0")) unsupported_schema
    start ← create (str_field R.python "audit_id" document) "created"
    events ← event_list (get "events" document)
    replay ← replay_events 1 events start
    guard (field_is R.python (get "state" document) (str (state_name replay.state)))
        declared_state_mismatch
    ok replay
