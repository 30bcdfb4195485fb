-- ===== src/Router/Scenarios.antt =====
-- A routing that discloses two modules of three, a cycle of dependencies, and witnesses of the
-- router's theorems.
use vheatm.Prelude.{
  ℕ, ◌≡◌, ◌≢◌, refl, String, true, false, Option, none, some, List, [], ◌∷◌, ◌++◌, has, Outcome, ok,
  raised,
}
use vheatm.Json.{Fields, Python, Items, str, arr, obj, nil, cons, end, field}
use vheatm.Router.{LoadedModule, ModuleRoutingError, out_of_fuel, Graph}
use vheatm.Router.Cycle.{Visit, cycle, visited, find_cycle, visit, visit_each, from_node}
use vheatm.Router.Acyclic.{IsCycle, find_cycle-IsCycle}
use vheatm.Router.Acyclic.{IsOrdered as IsAcyclicOrder}
use vheatm.Router.Topological.{PhaseOrder, topological_order}
use vheatm.Router.Order.{Distinct, Depends}
use vheatm.Router.Ordered.{topological_order-IsOrdered}
use vheatm.Router.Route
use vheatm.Router.Route.{Manifest, Registry, Environment, Routing, route_modules_unchecked}
use vheatm.Router.Route
use vheatm.Router.Routed.{disclosed}
use vheatm.Router.Correct.{ListsSets, IsDisclosed, route_modules_unchecked-IsDisclosed}
use vheatm.Router.Blocking.{IsUnblocked, route_modules_unchecked-IsUnblocked}
use vheatm.Router.Ends.{route_modules_unchecked-ends}

abbrev ring : Graph
ring = ("a", "b" ∷ []) ∷ ("b", "a" ∷ []) ∷ []

find_cycle_of_ring : find_cycle ring ≡ cycle ("a" ∷ "b" ∷ "a" ∷ [])
unfolding find_cycle visit visit_each from_node vheatm.Prelude.sort_unique vheatm.Prelude.precedes
find_cycle_of_ring = refl

find_cycle-IsCycle_example :
    (find_cycle ring ≢ Visit.out_of_fuel)
    × ((path : List String) → find_cycle ring ≡ cycle path → IsCycle ring path)
    × ((order : List String)
        → find_cycle ring ≡ visited order
        → IsAcyclicOrder ring order × ((path : List String) → ¬ IsCycle ring path))
find_cycle-IsCycle_example = find_cycle-IsCycle ring

abbrev loaded : String → List String → List String → LoadedModule
loaded id gates dependencies = record {
  id = id;
  gate_coverage = gates;
  phase_coverage = "P" ∷ [];
  policy = "any_active_gate";
  priority = 50;
  dependencies = dependencies;
  conflicts = "fast" ∷ [];
  estimated_tokens = 40;
}

abbrev three_modules : List LoadedModule
three_modules =
    loaded "scan" ("G1" ∷ []) ("base" ∷ [])
    ∷ loaded "base" ("G2" ∷ []) []
    ∷ loaded "fast" ("G2" ∷ []) []
    ∷ []

abbrev phases : PhaseOrder
phases = ("P", 1) ∷ ("V", 2) ∷ []

topological_order-IsOrdered_example :
    (topological_order three_modules phases ("scan" ∷ "base" ∷ []) ≢ raised out_of_fuel)
    × ((order : List String)
        → topological_order three_modules phases ("scan" ∷ "base" ∷ []) ≡ ok order
        → Distinct order
          × ((k : String) → has order k ≡ has ("scan" ∷ "base" ∷ []) k)
          × ((front rest : List String) (id d : String)
              → order ≡ front ++ id ∷ rest
              → Depends three_modules phases ("scan" ∷ "base" ∷ []) id d
              → has front d ≡ true))
topological_order-IsOrdered_example =
    topological_order-IsOrdered three_modules phases ("scan" ∷ "base" ∷ [])

abbrev environment : Environment
environment = record {
  python = record {
    repr = λ v. "None";
    float_eq = λ x y. false;
    float_lt = λ x y. false;
    float_le = λ x y. false;
  };
  list_set = λ names. names;
  read_instructions = λ id. "text";
}

abbrev manifest : Manifest
manifest = record { framework_version = str "17"; gate_ids = "G1" ∷ "G2" ∷ []; phases = phases }

abbrev registry : Registry
registry = record { hard_token_budget = 100; disclosure_budget = 80 }

abbrev gate : String → String → Fields
gate id state = field "id" (str id) (field "activation_state" (str state) end)

abbrev plan : Fields
plan = field "framework_version" (str "17") (
    field "gates" (arr (cons (obj (gate "G1" "active")) (cons (obj (gate "G2" "inactive")) nil)))
      end)

abbrev result : Outcome ModuleRoutingError Routing → Routing
result (ok r) = r
result (raised e) = record {
  selected_modules = [];
  estimated_tokens = 0;
  phase_disclosures = [];
  unselected_modules = [];
  unresolved_modules = [];
  unknown_gates = [];
  conflicts = [];
  budget_exceeded = false;
  completion_blocked = true;
  disclosed_phase = none;
}

abbrev ids_of : Routing → List String
ids_of r = disclosed r.selected_modules

abbrev routing : Routing
routing =
    result (route_modules_unchecked environment manifest registry three_modules plan false none)

routing_is_ok :
    route_modules_unchecked environment manifest registry three_modules plan false none ≡ ok routing
unfolding route_modules_unchecked Route.checked_states vheatm.Json.json_eq Route.check_phase
    Route.select_modules Route.find_conflicts vheatm.Prelude.precedes topological_order
    Route.entries_of Route.routing_of
routing_is_ok = refl

listed_as_is : ListsSets environment
listed_as_is names k = refl

route_modules_unchecked-IsDisclosed_example :
    IsDisclosed environment manifest registry three_modules plan false none routing
route_modules_unchecked-IsDisclosed_example =
    route_modules_unchecked-IsDisclosed environment manifest registry three_modules plan false none
      routing listed_as_is routing_is_ok

routing_is_free : routing.completion_blocked ≡ false
unfolding route_modules_unchecked Route.checked_states vheatm.Json.json_eq Route.check_phase
    Route.select_modules Route.find_conflicts vheatm.Prelude.precedes topological_order
    Route.entries_of Route.routing_of
routing_is_free = refl

route_modules_unchecked-IsUnblocked_example :
    IsUnblocked environment manifest registry three_modules plan false none routing
route_modules_unchecked-IsUnblocked_example =
    route_modules_unchecked-IsUnblocked environment manifest registry three_modules plan false none
      routing routing_is_ok routing_is_free

route_modules_unchecked-ends_example :
    route_modules_unchecked environment manifest registry three_modules plan true (some "P")
    ≢ raised ModuleRoutingError.out_of_fuel
route_modules_unchecked-ends_example =
    route_modules_unchecked-ends three_modules environment manifest registry plan true (some "P")

routed_ids : ids_of routing ≡ "base" ∷ "scan" ∷ []
unfolding route_modules_unchecked Route.checked_states vheatm.Json.json_eq Route.check_phase
    Route.select_modules Route.find_conflicts vheatm.Prelude.precedes topological_order
    Route.entries_of Route.routing_of
routed_ids = refl
