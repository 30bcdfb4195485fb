-- ===== src/Router/Topological.antt =====
-- `_topological_order`: the selected modules, each behind those that it depends on. `path` holds the
-- nodes of `temporary`, `done` those of `permanent` and of `result`, the last first.
use vheatm.Prelude.{
  ℕ, zero, suc, ◌+◌, min, String, none, some, List, [], ◌∷◌, has, length, lookup, select, Outcome,
  ok, raised, ◌>>=◌, if◌then◌else◌,
}
use mathlib.Core.List.{reverse}
use vheatm.Router.{LoadedModule, ModuleRoutingError, dependency_cycle, out_of_fuel, module_of}
use vheatm.Router.Sorting.{SortKey, key_before, sort_keyed, values}

-- `phase_order`
abbrev pub PhaseOrder : Type 0
PhaseOrder = List (String × ℕ)

abbrev order_of : PhaseOrder → String → ℕ
order_of phases phase = elim (lookup phase phases) [ none ↦ 10000 | some n ↦ n ]

-- `min(..., default=10_000)`
unfoldable pub first_phase : PhaseOrder → List String → ℕ
first_phase phases [] = 10000
first_phase phases (p ∷ []) = order_of phases p
first_phase phases (p ∷ q ∷ ps) = min (order_of phases p) (first_phase phases (q ∷ ps))

-- The loop over some modules.
unfoldable pub visit_each :
    (String → List String → Outcome ModuleRoutingError (List String))
    → List String
    → List String
    → Outcome ModuleRoutingError (List String)
visit_each visit [] done = ok done
visit_each visit (d ∷ ds) done = do next ← visit d done; visit_each visit ds next

module _ (modules : List LoadedModule) (phases : PhaseOrder) where
  unfoldable pub sort_key : LoadedModule → SortKey
  unfolding first_phase
  sort_key m = (first_phase phases m.phase_coverage, m.priority, m.id)

  unfoldable pub with_keys : List String → Outcome ModuleRoutingError (List (SortKey × String))
  unfolding sort_key
  with_keys [] = ok []
  with_keys (id ∷ rest) = do
    m ← module_of modules id
    keyed ← with_keys rest
    ok ((sort_key m, id) ∷ keyed)

  -- `sorted(names, key=sort_key)`
  unfoldable pub sort_modules : List String → Outcome ModuleRoutingError (List String)
  unfolding with_keys sort_keyed key_before
  sort_modules names = do keyed ← with_keys names; ok (values (sort_keyed key_before keyed))

  module _ (selected : List String) where
    -- The dependencies that the loop of `visit` goes down to.
    unfoldable pub selected_dependencies : String → Outcome ModuleRoutingError (List String)
    unfolding sort_modules
    selected_dependencies id = do
      m ← module_of modules id
      sorted ← sort_modules m.dependencies
      ok (select (has selected) sorted)

    unfoldable pub visit :
        ℕ → List String → String → List String → Outcome ModuleRoutingError (List String)
    unfolding visit_each selected_dependencies
    visit zero path id done = raised out_of_fuel
    visit (suc fuel) path id done =
        let explored =
          selected_dependencies id >>= λ ds. visit_each (visit fuel (id ∷ path)) ds done in
        if has done id
        then ok done
        else if has path id
        then raised (dependency_cycle id)
        else (explored >>= λ at. ok (id ∷ at))

    unfoldable pub topological_order : Outcome ModuleRoutingError (List String)
    unfolding visit visit_each sort_modules
    topological_order = do
      sorted ← sort_modules selected
      done ← visit_each (visit (length selected + 1) []) sorted []
      ok (reverse done)
