-- ===== src/Router/Cycle.antt =====
-- `_find_cycle`: a depth-first search for a cycle of dependencies. `stack` holds the nodes of
-- `visiting` in the order in which they were entered, and fuel bounds its depth.
use vheatm.Prelude.{
  ℕ, zero, suc, ◌+◌, String, List, [], ◌∷◌, ◌++◌, ◌==◌, has, length, sort_unique, if◌then◌else◌,
}
use vheatm.Router.{Graph, children, nodes}

-- The cycle that was found, or the nodes visited, the last first.
pub data Visit : Type 0 where
  cycle : List String → Visit
  visited : List String → Visit
  out_of_fuel : Visit

-- `stack[stack.index(node):]`
unfoldable pub from_node : String → List String → List String
from_node node [] = []
from_node node (x ∷ stack) =
    let rest = from_node node stack in if x == node then x ∷ stack else rest

abbrev pub and_then : Visit → (List String → Visit) → Visit
and_then (visited seen) next = next seen
and_then (cycle path) next = cycle path
and_then out_of_fuel next = out_of_fuel

-- The loop over the dependencies of a node, or over all nodes.
unfoldable pub visit_each : (String → List String → Visit) → List String → List String → Visit
visit_each visit [] seen = visited seen
visit_each visit (d ∷ ds) seen = and_then (visit d seen) (visit_each visit ds)

-- Leaving a node adds it to the nodes visited.
abbrev pub leave : Visit → String → Visit
leave explored node = and_then explored (λ seen. visited (node ∷ seen))

module _ (graph : Graph) where
  unfoldable pub visit : ℕ → List String → String → List String → Visit
  unfolding visit_each from_node
  visit zero stack node seen = out_of_fuel
  visit (suc fuel) stack node seen =
      let explored = visit_each (visit fuel (stack ++ node ∷ [])) (children graph node) seen in
      if has stack node
      then cycle (from_node node stack ++ node ∷ [])
      else if has seen node
      then visited seen
      else leave explored node

  unfoldable pub find_cycle : Visit
  unfolding visit
  find_cycle = visit_each (visit (length graph + 1) []) (sort_unique (nodes graph)) []
