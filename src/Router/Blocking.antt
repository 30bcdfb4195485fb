-- ===== src/Router/Blocking.antt =====
-- What keeps a routing from blocking completion.
use vheatm.Prelude.{
  ◌≤◌, ◌≡◌, refl, sym, ap, ◌∙◌, subst, String, Bool, true, false, not, ◌||◌, Bool-cases, inl, inr,
  Option, some, List, [], ◌∷◌, map, any, has, select, has-select, precedes, ltb, ok,
}
use vheatm.Json.{Fields}
use vheatm.Evaluator.Plan.{unknown}
use vheatm.Router.{LoadedModule, find_module}
use vheatm.Router.Sorting.{has-sort_keyed, values}
use vheatm.Router.Topological.{PhaseOrder}
use vheatm.Router.Ordered.{topological_order-IsOrdered}
use vheatm.Router.Select.{GateStates, sort_texts, gate_in}
use vheatm.Router.Route.{
  Manifest, Registry, Environment, Routing, routing_of, checked_states, route_modules_unchecked,
  sorted_phases, sum_tokens, in_phase, keys, phase_ids, phase_disclosure, is_nil,
}
use vheatm.Router.Routed.{disclosed, has-sort_texts, no_conflict, within_budget, routed}

none_blocks :
    {A B C : Type 0} (xs : List A) (ys : List B) (zs : List C) (over : Bool)
    → not (is_nil xs) || not (is_nil ys) || not (is_nil zs) || over ≡ false
    → (xs ≡ []) × (ys ≡ []) × (zs ≡ []) × (over ≡ false)
none_blocks [] [] [] over h = (refl, refl, refl, h)
none_blocks (x ∷ xs) ys zs over h = cc
none_blocks [] (y ∷ ys) zs over h = cc
none_blocks [] [] (z ∷ zs) over h = cc

none_select :
    (p : String → Bool) (xs : List String)
    → sort_texts (select p xs) ≡ []
    → (k : String) → has xs k ≡ true
    → p k ≡ false
none_select p xs h k member = elim (Bool-cases (p k)) [
  | inr out ↦ out
  | inl passed ↦ cc (
      sym (has-select p k xs member passed)
      ∙ sym (has-sort_texts (select p xs) k)
      ∙ ap (λ z. has z k) h)
]

phase_listed :
    (phases : PhaseOrder) (name : String)
    → has (phase_ids phases) name ≡ has (sorted_phases phases) name
unfolding sorted_phases
phase_listed phases name =
    sym (
      has-sort_keyed ltb (map (λ p. (p.1, p.0)) phases) name ∙ ap (λ z. has z name) (paired phases))
  where
    paired : (ps : PhaseOrder) → values (map (λ p. (p.1, p.0)) ps) ≡ phase_ids ps
    paired [] = refl
    paired ((id, n) ∷ ps) = ap (λ z. id ∷ z) (paired ps)

module _ (E : Environment) (manifest : Manifest) (registry : Registry) (modules : List LoadedModule)
    (plan : Fields) (include : Bool) (phase : Option String) where
  -- What must hold of a routing for completion: no gate is unknown, no conflict, no phase over budget.
  abbrev pub IsUnblocked : Routing → Type 0
  IsUnblocked r =
      ((states : GateStates) × (checked_states E manifest plan ≡ ok states)
        × ((gate : String) → has (keys states) gate ≡ true → gate_in states unknown gate ≡ false))
      × ((id c : String) (m : LoadedModule)
          → has (disclosed r.selected_modules) id ≡ true
          → find_module id modules ≡ some m
          → has m.conflicts c ≡ true
          → has (disclosed r.selected_modules) c ≡ true
          → precedes id c ≡ false)
      × ((name : String)
          → has (phase_ids manifest.phases) name ≡ true
          → sum_tokens (select (in_phase name) r.selected_modules) ≤ registry.disclosure_budget)

  -- A routing that is returned and does not block completion has no gate of the plan in the state
  -- unknown, discloses no two modules of which one declares a conflict with the other and stands
  -- before it in the order of the ids, and keeps the modules of each phase within the budget.
  pub route_modules_unchecked-IsUnblocked :
      (r : Routing)
      → route_modules_unchecked E manifest registry modules plan include phase ≡ ok r
      → r.completion_blocked ≡ false
      → IsUnblocked r
  unfolding routing_of
  route_modules_unchecked-IsUnblocked r h free =
      let p = routed E manifest registry modules plan include phase r h in
      let (pairs, _, unknowns, over) =
        none_blocks p.pairs p.s.unresolved
          (sort_texts (select (gate_in p.states unknown) (keys p.states)))
          (any (λ d. d.budget_exceeded)
            (map (phase_disclosure registry p.entries) (sorted_phases manifest.phases)))
          (subst (λ (z : Routing). z.completion_blocked ≡ false) p.result free) in
      let e : disclosed r.selected_modules ≡ p.order =
        ap (λ (z : Routing). disclosed z.selected_modules) p.result ∙ p.disclosing in
      let held : (k : String)
          → has (disclosed r.selected_modules) k ≡ true
          → has p.s.selected k ≡ true =
        λ k there.
          sym (
            ((topological_order-IsOrdered modules manifest.phases p.s.selected).1 p.order
                p.in_order).1
              k)
          ∙ sym (ap (λ z. has z k) e)
          ∙ there in
      (
        (p.states, p.checked, none_select (gate_in p.states unknown) (keys p.states) unknowns),
        λ id c m there found declared chosen.
            no_conflict modules p.s.selected (sort_texts p.s.selected) (p.conflicting ∙ ap ok pairs)
              id c m (has-sort_texts p.s.selected id ∙ held id there) found declared
              (held c chosen),
        λ name listed.
            subst
              (λ (z : Routing).
                sum_tokens (select (in_phase name) z.selected_modules) ≤ registry.disclosure_budget)
              (sym p.result)
              (within_budget registry p.entries (sorted_phases manifest.phases) over name
                (sym (phase_listed manifest.phases name) ∙ listed)),
      )
