-- ===== src/Router/Select.antt =====
-- The selection of modules by the states of their gates, and its closure under dependencies.
use Prim.Native.String.{◌++◌ as concat}
use vheatm.Prelude.{
  ℕ, zero, suc, String, Bool, true, false, not, ◌&&◌, ◌||◌, Option, none, some, List, [], ◌∷◌, ◌++◌,
  map, ◌==◌, eqb, has, length, lookup, select, join, precedes, Outcome, ok, raised, ◌>>=◌, ◌>>◌,
  guard, or_raise, if◌then◌else◌,
}
use vheatm.Json.{Json, Fields, Python, null, str, obj, get, to_str}
use vheatm.Evaluator.Plan.{GateState, active, inactive, unknown}
use vheatm.Router.{
  LoadedModule, ModuleRoutingError, gate_without_id, duplicate_gate, bad_activation_state,
  unknown_module, out_of_fuel, module_of, ids,
}
use vheatm.Router.Sorting.{sort_keyed, values}

-- `gate_states`, in the order of the plan
abbrev pub GateStates : Type 0
GateStates = List (String × GateState)

abbrev pub state_of_text : String → Option GateState
state_of_text s =
    if s == "active"
    then some active
    else if s == "inactive"
    then some inactive
    else if s == "unknown"
    then some unknown
    else none

abbrev pub has_key : String → GateStates → Bool
has_key id [] = false
has_key id ((j, v) ∷ states) = j == id || has_key id states

-- The id of a gate plan's entry.
abbrev pub id_of_gate : Json → Option (String × Fields)
id_of_gate (obj gate) = elim (get "id" gate) [ some (str id) ↦ some (id, gate) | _ ↦ none ]
id_of_gate v = none

module _ (P : Python) where
  -- `str(gate.get("activation_state"))`
  abbrev pub state_text_of : Fields → String
  state_text_of gate = elim (get "activation_state" gate) [
    | none ↦ to_str P null
    | some v ↦ to_str P v
  ]

  unfoldable pub read_gate_states : List Json → GateStates → Outcome ModuleRoutingError GateStates
  read_gate_states [] states = ok states
  read_gate_states (v ∷ rest) states = do
    found ← or_raise (id_of_gate v) gate_without_id
    guard (not (has_key found.0 states)) (duplicate_gate found.0)
    state ← or_raise (state_of_text (state_text_of found.1)) (bad_activation_state found.0)
    read_gate_states rest (states ++ (found.0, state) ∷ [])

-- `gate_states.get(gate) == ...`
abbrev is_state : GateState → GateState → Bool
is_state active active = true
is_state inactive inactive = true
is_state unknown unknown = true
is_state _ _ = false

abbrev pub gate_in : GateStates → GateState → String → Bool
gate_in states s gate = elim (lookup gate states) [ none ↦ false | some t ↦ is_state s t ]

-- `sorted` of texts
unfoldable pub sort_texts : List String → List String
unfolding sort_keyed
sort_texts names = values (sort_keyed precedes (map (λ s. (s, s)) names))

abbrev is_empty : List String → Bool
is_empty [] = true
is_empty (x ∷ xs) = false

-- Do the states of a module's gates select it?
unfoldable pub should_select : GateStates → LoadedModule → Bool
should_select states m =
    let chosen = select (gate_in states active) m.gate_coverage in
    if m.policy == "any_active_gate"
    then not (is_empty chosen)
    else not (is_empty m.gate_coverage) && eqb (length chosen) (length m.gate_coverage)

pub record Selection : Type 0 where
  pub selected : List String
  pub reasons : List (String × List String)
  pub unresolved : List (String × List String)
  pub unselected : List String

-- `reasons[id].append(reason)`
unfoldable pub add_reason :
    String → String → List (String × List String) → List (String × List String)
add_reason id reason [] = []
add_reason id reason ((j, rs) ∷ reasons) =
    let rest = add_reason id reason reasons in
    if j == id then (j, rs ++ reason ∷ []) ∷ reasons else (j, rs) ∷ rest

-- The round of the loop for one module.
unfoldable pub triage : GateStates → LoadedModule → Selection → Selection
unfolding should_select sort_texts add_reason
triage states m s =
    let waiting = sort_texts (select (gate_in states unknown) m.gate_coverage) in
    if should_select states m
    then record s {
      selected = s.selected ++ m.id ∷ [];
      reasons =
          add_reason m.id
            (concat "active gate coverage: "
              (join ", " (sort_texts (select (gate_in states active) m.gate_coverage))))
            s.reasons;
    }
    else if is_empty waiting
    then record s { unselected = s.unselected ++ m.id ∷ [] }
    else record s { unresolved = s.unresolved ++ (m.id, waiting) ∷ [] }

unfoldable pub triage_all : GateStates → List LoadedModule → Selection → Selection
unfolding triage
triage_all states [] s = s
triage_all states (m ∷ ms) s = triage_all states ms (triage states m s)

abbrev pub nothing_selected : List LoadedModule → Selection
nothing_selected modules = record {
  selected = [];
  reasons = map (λ id. (id, [])) (ids modules);
  unresolved = [];
  unselected = [];
}

module _ (modules : List LoadedModule) where
  -- The loop over the dependencies of a module that left the queue. The queue's last is its first
  -- here.
  unfoldable pub add_dependencies :
      String
      → List String
      → List String
      → Selection
      → Outcome ModuleRoutingError (List String × Selection)
  unfolding add_reason
  add_dependencies id [] queue s = ok (queue, s)
  add_dependencies id (d ∷ ds) queue s =
      let old = add_dependencies id ds queue s in
      let new = add_dependencies id ds (d ∷ queue) (record s {
        selected = s.selected ++ d ∷ [];
        reasons = add_reason d (concat "dependency of " id) s.reasons;
      }) in
      if has s.selected d
      then old
      else if has (ids modules) d
      then new
      else raised (unknown_module d)

  -- The loop over the queue.
  unfoldable pub close : ℕ → List String → Selection → Outcome ModuleRoutingError Selection
  unfolding add_dependencies
  close fuel [] s = ok s
  close zero (id ∷ queue) s = raised out_of_fuel
  close (suc fuel) (id ∷ queue) s = do
    m ← module_of modules id
    next ← add_dependencies id m.dependencies queue s
    close fuel next.0 next.1
