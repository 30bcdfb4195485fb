-- ===== src/Router.antt =====
-- src/vheatm_control/module_router.py: which instruction modules a gate plan discloses, and in which
-- order. `Cycle` has _find_cycle, `Topological` _topological_order, `Select` the selection and its
-- closure under dependencies, `Route` the whole of _route_modules_unchecked. The other children are
-- proofs: `Missing` has the measure by which the searches end.
pub mod Missing
pub mod Cycle
pub mod Visits
pub mod Acyclic
pub mod Sorting
pub mod Topological
pub mod Order
pub mod Ordered
pub mod Select
pub mod Closure
pub mod Route
pub mod Triage
pub mod Routed
pub mod Correct
pub mod Blocking
pub mod Ends
mod Scenarios
use vheatm.Prelude.{
  ℕ, String, Bool, true, false, Option, none, some, List, [], ◌∷◌, ◌==◌, has, Outcome, or_raise,
  if◌then◌else◌,
}
use vheatm.Json.{Json}

-- A dictionary from a node to the tuple of the nodes that it depends on.
abbrev pub Graph : Type 0
Graph = List (String × List String)

-- `graph.get(node, ())`
abbrev pub children : Graph → String → List String
children [] node = []
children ((k, ds) ∷ g) node = if k == node then ds else children g node

abbrev pub nodes : Graph → List String
nodes [] = []
nodes ((k, ds) ∷ g) = k ∷ nodes g

-- What routing reads of a `LoadedModule`, whose document has passed the module schema.
pub record LoadedModule : Type 0 where
  pub id : String
  pub gate_coverage : List String
  pub phase_coverage : List String
  -- `selection`
  pub policy : String
  pub priority : ℕ
  pub dependencies : List String
  pub conflicts : List String
  pub estimated_tokens : ℕ

pub data ModuleRoutingError : Type 0 where
  version_mismatch : ModuleRoutingError
  no_gates_array : ModuleRoutingError
  gate_without_id : ModuleRoutingError
  duplicate_gate : String → ModuleRoutingError
  bad_activation_state : String → ModuleRoutingError
  coverage_mismatch : ModuleRoutingError
  phase_not_given : ModuleRoutingError
  phase_without_disclosure : ModuleRoutingError
  unknown_phase : String → ModuleRoutingError
  -- a KeyError
  unknown_module : String → ModuleRoutingError
  dependency_cycle : String → ModuleRoutingError
  out_of_fuel : ModuleRoutingError

-- The dictionary of the modules, by their ids.
abbrev pub find_module : String → List LoadedModule → Option LoadedModule
find_module id [] = none
find_module id (m ∷ ms) = if m.id == id then some m else find_module id ms

-- `modules[module_id]`
abbrev pub module_of : List LoadedModule → String → Outcome ModuleRoutingError LoadedModule
module_of modules id = or_raise (find_module id modules) (unknown_module id)

abbrev pub ids : List LoadedModule → List String
ids [] = []
ids (m ∷ ms) = m.id ∷ ids ms
