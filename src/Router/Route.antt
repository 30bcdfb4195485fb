-- ===== src/Router/Route.antt =====
-- `_route_modules_unchecked`: the modules that are disclosed, in order, and what blocks completion.
use vheatm.Prelude.{
  ℕ, ◌+◌, ◌-◌, String, Bool, true, false, not, ◌&&◌, ◌||◌, Option, none, some, List, [], ◌∷◌, ◌++◌,
  map, ltb, leb, has, any, all, length, lookup, select, precedes, ℤ, pos, negsuc, Outcome, ok,
  raised, ◌>>=◌, ◌>>◌, guard, or_raise, if◌then◌else◌,
}
use mathlib.Core.List.{reverse}
use vheatm.Json.{Json, Fields, Python, arr, get, field_is, to_list}
use vheatm.Evaluator.Plan.{unknown}
use vheatm.Router.{
  LoadedModule, ModuleRoutingError, version_mismatch, no_gates_array, coverage_mismatch,
  phase_not_given, phase_without_disclosure, unknown_phase, unknown_module, module_of,
}
use vheatm.Router.Sorting.{sort_keyed, values}
use vheatm.Router.Topological.{PhaseOrder, topological_order}
use vheatm.Router.Select.{
  GateStates, Selection, read_gate_states, gate_in, sort_texts, triage_all, nothing_selected, close,
}

-- What routing reads of the manifest, which has passed its schema.
pub record Manifest : Type 0 where
  pub framework_version : Json
  pub gate_ids : List String
  pub phases : PhaseOrder

-- What routing reads of the registry. The disclosure budget is `int(hard_budget * ratio)`.
pub record Registry : Type 0 where
  pub hard_token_budget : ℕ
  pub disclosure_budget : ℕ

-- What the code takes from outside: Python, the order in which a set is listed, and the text of a
-- module's instruction file.
pub record Environment : Type 0 where
  pub python : Python
  pub list_set : List String → List String
  pub read_instructions : String → String

pub record Entry : Type 0 where
  pub loaded : LoadedModule
  pub reasons : List String
  pub instructions : Option String

pub record PhaseDisclosure : Type 0 where
  pub phase : String
  pub module_ids : List String
  pub estimated_tokens : ℕ
  pub headroom_tokens : ℤ
  pub budget_exceeded : Bool

pub record Routing : Type 0 where
  pub selected_modules : List Entry
  pub estimated_tokens : ℕ
  pub phase_disclosures : List PhaseDisclosure
  pub unselected_modules : List String
  pub unresolved_modules : List (String × List String)
  pub unknown_gates : List String
  pub conflicts : List (String × String)
  pub budget_exceeded : Bool
  pub completion_blocked : Bool
  pub disclosed_phase : Option String

abbrev pub is_nil {ℓ} : {A : Type ℓ} → List A → Bool
is_nil [] = true
is_nil (x ∷ xs) = false

abbrev pub keys : GateStates → List String
keys [] = []
keys ((id, s) ∷ states) = id ∷ keys states

abbrev pub phase_ids : PhaseOrder → List String
phase_ids [] = []
phase_ids ((id, n) ∷ phases) = id ∷ phase_ids phases

abbrev same_set : List String → List String → Bool
same_set xs ys = all (has ys) xs && all (has xs) ys

abbrev pub listed_gates : Option Json → Outcome ModuleRoutingError (List Json)
listed_gates (some (arr vs)) = ok (to_list vs)
listed_gates _ = raised no_gates_array

-- The checks on the phase whose instructions are disclosed.
unfoldable pub check_phase :
    PhaseOrder → Bool → Option String → Outcome ModuleRoutingError (Unit {0})
check_phase phases true none = raised phase_not_given
check_phase phases false none = ok tt
check_phase phases false (some phase) = raised phase_without_disclosure
check_phase phases true (some phase) = guard (has (phase_ids phases) phase) (unknown_phase phase)

-- The conflicts of one module with others that are selected, each pair once.
abbrev pub conflict_pairs : List String → String → List String → List (String × String)
conflict_pairs selected id conflicts =
    map (λ c. (id, c)) (select (λ c. has selected c && precedes id c) conflicts)

unfoldable pub find_conflicts :
    List LoadedModule
    → List String
    → List String
    → Outcome ModuleRoutingError (List (String × String))
find_conflicts modules selected [] = ok []
find_conflicts modules selected (id ∷ rest) = do
  m ← module_of modules id
  later ← find_conflicts modules selected rest
  ok (conflict_pairs selected id m.conflicts ++ later)

unfoldable pub sum_tokens : List Entry → ℕ
sum_tokens [] = 0
sum_tokens (e ∷ es) = e.loaded.estimated_tokens + sum_tokens es

-- `a - b`
abbrev minus : ℕ → ℕ → ℤ
minus a b = if leb b a then pos (a - b) else negsuc (b - a - 1)

abbrev pub in_phase : String → Entry → Bool
in_phase phase e = has e.loaded.phase_coverage phase

unfoldable pub phase_disclosure : Registry → List Entry → String → PhaseDisclosure
unfolding sum_tokens
phase_disclosure r entries phase =
    let members = select (in_phase phase) entries in
    let tokens = sum_tokens members in
    record {
      phase = phase;
      module_ids = map (λ e. e.loaded.id) members;
      estimated_tokens = tokens;
      headroom_tokens = minus r.hard_token_budget tokens;
      budget_exceeded = ltb r.disclosure_budget tokens;
    }

-- `sorted(phase_items, key=order)`
unfoldable pub sorted_phases : PhaseOrder → List String
unfolding sort_keyed
sorted_phases phases = values (sort_keyed ltb (map (λ p. (p.1, p.0)) phases))

abbrev with_instructions : Environment → Bool → Option String → LoadedModule → Option String
with_instructions E true (some phase) m =
    if has m.phase_coverage phase then some (E.read_instructions m.id) else none
with_instructions E _ _ m = none

unfoldable pub entries_of :
    Environment
    → List LoadedModule
    → List (String × List String)
    → Bool
    → Option String
    → List String
    → Outcome ModuleRoutingError (List Entry)
entries_of E modules reasons include phase [] = ok []
entries_of E modules reasons include phase (id ∷ rest) = do
  m ← module_of modules id
  why ← or_raise (lookup id reasons) (unknown_module id)
  later ← entries_of E modules reasons include phase rest
  ok (
      record { loaded = m; reasons = why; instructions = with_instructions E include phase m }
      ∷ later)

abbrev unresolved_of : List (String × List String) → String → String × List String
unresolved_of unresolved id = elim (lookup id unresolved) [
  | none ↦ (id, [])
  | some gates ↦ (id, gates)
]

abbrev unresolved_ids : List (String × List String) → List String
unresolved_ids [] = []
unresolved_ids ((id, gates) ∷ rest) = id ∷ unresolved_ids rest

-- The result, from what was found.
unfoldable pub routing_of :
    Manifest
    → Registry
    → GateStates
    → Option String
    → Selection
    → List (String × String)
    → List Entry
    → Routing
unfolding phase_disclosure sorted_phases sort_texts sum_tokens
routing_of manifest registry states phase s conflicts entries =
    let disclosures = map (phase_disclosure registry entries) (sorted_phases manifest.phases) in
    let over = any (λ d. d.budget_exceeded) disclosures in
    let unknowns = sort_texts (select (gate_in states unknown) (keys states)) in
    record {
      selected_modules = entries;
      estimated_tokens = sum_tokens entries;
      phase_disclosures = disclosures;
      unselected_modules = sort_texts (select (λ id. not (has s.selected id)) s.unselected);
      unresolved_modules =
          map (unresolved_of s.unresolved) (sort_texts (unresolved_ids s.unresolved));
      unknown_gates = unknowns;
      conflicts = conflicts;
      budget_exceeded = over;
      completion_blocked =
          not (is_nil conflicts) || not (is_nil s.unresolved) || not (is_nil unknowns) || over;
      disclosed_phase = phase;
    }

-- The checks of the plan against the manifest.
unfoldable pub checked_states :
    Environment → Manifest → Fields → Outcome ModuleRoutingError GateStates
unfolding read_gate_states
checked_states E manifest plan = do
  guard (field_is E.python (get "framework_version" plan) manifest.framework_version)
      version_mismatch
  listed ← listed_gates (get "gates" plan)
  states ← read_gate_states E.python listed []
  guard (same_set (keys states) manifest.gate_ids) coverage_mismatch
  ok states

-- The modules that are selected, with those that they need.
unfoldable pub select_modules :
    Environment → List LoadedModule → GateStates → Outcome ModuleRoutingError Selection
unfolding triage_all close
select_modules E modules states =
    let s = triage_all states modules (nothing_selected modules) in
    close modules (length (E.list_set s.selected) + length modules)
      (reverse (E.list_set s.selected)) s

unfoldable pub route_modules_unchecked :
    Environment
    → Manifest
    → Registry
    → List LoadedModule
    → Fields
    → Bool
    → Option String
    → Outcome ModuleRoutingError Routing
route_modules_unchecked E manifest registry modules plan include phase = do
  states ← checked_states E manifest plan
  check_phase manifest.phases include phase
  s ← select_modules E modules states
  conflicts ← find_conflicts modules s.selected (sort_texts s.selected)
  order ← topological_order modules manifest.phases s.selected
  entries ← entries_of E modules s.reasons include phase order
  ok (routing_of manifest registry states phase s conflicts entries)
