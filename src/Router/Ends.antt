-- ===== src/Router/Ends.antt =====
-- Routing ends: no search in it runs out of fuel.
use mathlib.Core.List.{reverse}
use vheatm.Prelude.{
  ◌+◌, ◌≢◌, String, Bool, true, false, not, Option, some, none, List, [], ◌∷◌, ◌++◌, arith, length,
  Outcome, ok, raised, ◌>>=◌, ◌>>◌, or_raise, lookup, guard,
}
use vheatm.Json.{Json, Fields, Python, get}
use vheatm.Router.{
  LoadedModule, ModuleRoutingError, out_of_fuel, module_of, ids, unknown_module, gate_without_id,
  duplicate_gate, bad_activation_state, version_mismatch, coverage_mismatch,
}
use vheatm.Router.Missing.{missing-le-length}
use vheatm.Router.Topological.{PhaseOrder, topological_order}
use vheatm.Router.Ordered.{same_error, module_of-ends, topological_order-IsOrdered}
use vheatm.Router.Select.{
  GateStates, triage_all, nothing_selected, read_gate_states, sort_texts, id_of_gate, has_key,
  state_of_text, state_text_of,
}
use vheatm.Router.Closure.{close-ends}
use vheatm.Router.Route.{
  Manifest, Registry, Environment, entries_of, find_conflicts, checked_states, check_phase,
  select_modules, route_modules_unchecked, listed_gates,
}
use vheatm.Router.Routed.{length-reverse, length-ids}

module _ {A B : Type 0} where
  -- Steps end where each of them does.
  both_end :
      (step : Outcome ModuleRoutingError A) (rest : A → Outcome ModuleRoutingError B)
      → step ≢ raised out_of_fuel
      → ((a : A) → rest a ≢ raised out_of_fuel)
      → (step >>= rest) ≢ raised out_of_fuel
  both_end (ok a) rest s r h = r a h
  both_end (raised error) rest s r h = s (same_error h)

  read_end :
      (found : Option A) (error : ModuleRoutingError) (rest : A → Outcome ModuleRoutingError B)
      → error ≢ out_of_fuel
      → ((a : A) → rest a ≢ raised out_of_fuel)
      → (or_raise found error >>= rest) ≢ raised out_of_fuel
  read_end none error rest s r h = s (cc h)
  read_end (some a) error rest s r h = r a h

ok_ends : {A : Type 0} (a : A) → ◌≢◌ {A = Outcome ModuleRoutingError A} (ok a) (raised out_of_fuel)
ok_ends a h = cc

checked_end :
    {B : Type 0} (test : Bool) (error : ModuleRoutingError) (rest : Outcome ModuleRoutingError B)
    → error ≢ out_of_fuel
    → rest ≢ raised out_of_fuel
    → (guard test error >> rest) ≢ raised out_of_fuel
checked_end true error rest s r h = r h
checked_end false error rest s r h = s (cc h)

read_gate_states-ends :
    (P : Python) (listed : List Json) (states : GateStates)
    → read_gate_states P listed states ≢ raised out_of_fuel
unfolding read_gate_states
read_gate_states-ends P [] states h = cc
read_gate_states-ends P (v ∷ rest) states h =
    read_end (id_of_gate v) gate_without_id _ (λ e. cc)
      (λ found.
        checked_end (not (has_key found.0 states)) (duplicate_gate found.0) _ (λ e. cc)
          (read_end (state_of_text (state_text_of P found.1)) (bad_activation_state found.0) _
            (λ e. cc) (λ state. read_gate_states-ends P rest (states ++ (found.0, state) ∷ []))))
      h

checked_states-ends :
    (E : Environment) (manifest : Manifest) (plan : Fields)
    → checked_states E manifest plan ≢ raised out_of_fuel
unfolding checked_states
checked_states-ends E manifest plan =
    checked_end _ version_mismatch _ (λ e. cc)
      (both_end _ _ listed_end (λ listed.
        both_end _ _ (read_gate_states-ends E.python listed [])
          (λ states. checked_end _ coverage_mismatch _ (λ e. cc) (ok_ends states))))
  where
    listed_end : listed_gates (get "gates" plan) ≢ raised out_of_fuel
    listed_end h = ground arith

check_phase-ends :
    (phases : PhaseOrder) (include : Bool) (phase : Option String)
    → check_phase phases include phase ≢ raised out_of_fuel
unfolding check_phase
check_phase-ends phases true none h = cc
check_phase-ends phases false none h = cc
check_phase-ends phases false (some name) h = cc
check_phase-ends phases true (some name) h = ground arith

module _ (modules : List LoadedModule) where
  find_conflicts-ends :
      (selected names : List String) → find_conflicts modules selected names ≢ raised out_of_fuel
  unfolding find_conflicts
  find_conflicts-ends selected [] h = cc
  find_conflicts-ends selected (id ∷ rest) h =
      both_end (module_of modules id) _ (module_of-ends modules id)
        (λ m.
          both_end (find_conflicts modules selected rest) _ (find_conflicts-ends selected rest)
            (λ later e. cc))
        h

  entries_of-ends :
      (E : Environment) (reasons : List (String × List String)) (include : Bool)
      (phase : Option String) (order : List String)
      → entries_of E modules reasons include phase order ≢ raised out_of_fuel
  unfolding entries_of
  entries_of-ends E reasons include phase [] h = cc
  entries_of-ends E reasons include phase (id ∷ rest) h =
      both_end (module_of modules id) _ (module_of-ends modules id)
        (λ m.
          read_end (lookup id reasons) (unknown_module id) _ (λ e. cc)
            (λ why.
              both_end (entries_of E modules reasons include phase rest) _
                (entries_of-ends E reasons include phase rest) (λ later e. cc)))
        h

  select_modules-ends :
      (E : Environment) (states : GateStates) → select_modules E modules states ≢ raised out_of_fuel
  unfolding select_modules
  select_modules-ends E states h =
      let s = triage_all states modules (nothing_selected modules) in
      close-ends modules (length (E.list_set s.selected) + length modules)
        (reverse (E.list_set s.selected)) s
        (omega (
          arith,
          length-reverse (E.list_set s.selected),
          length-ids modules,
          missing-le-length s.selected (ids modules),
        ))
        h

  -- Routing ends on each input: the searches in it, the closure of the selection under dependencies
  -- and the walk that orders it, never run out of the fuel that they are given, whatever the modules
  -- declare and in whatever order a set is listed.
  pub route_modules_unchecked-ends :
      (E : Environment) (manifest : Manifest) (registry : Registry) (plan : Fields) (include : Bool)
      (phase : Option String)
      → route_modules_unchecked E manifest registry modules plan include phase ≢ raised out_of_fuel
  unfolding route_modules_unchecked
  route_modules_unchecked-ends E manifest registry plan include phase =
      both_end (checked_states E manifest plan) _ (checked_states-ends E manifest plan) (λ states.
        both_end (check_phase manifest.phases include phase) _
          (check_phase-ends manifest.phases include phase)
          (λ u. both_end (select_modules E modules states) _ (select_modules-ends E states) (λ s.
            both_end (find_conflicts modules s.selected (sort_texts s.selected)) _
              (find_conflicts-ends s.selected (sort_texts s.selected))
              (λ conflicts.
                both_end (topological_order modules manifest.phases s.selected) _
                  (topological_order-IsOrdered modules manifest.phases s.selected).0
                  (λ order.
                    both_end (entries_of E modules s.reasons include phase order) _
                      (entries_of-ends E s.reasons include phase order) (λ entries h. cc))))))
