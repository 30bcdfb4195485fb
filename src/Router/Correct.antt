-- ===== src/Router/Correct.antt =====
-- `_route_modules_unchecked` as a whole.
use mathlib.Core.List.{reverse}
use vheatm.Prelude.{
  ◌≡◌, sym, ap, ◌∙◌, subst, String, Bool, true, Option, some, List, [], ◌∷◌, ◌++◌, has, has-head,
  ok, inl, inr,
}
use vheatm.Json.{Fields}
use vheatm.Router.{LoadedModule, find_module}
use vheatm.Router.Missing.{has-tail}
use vheatm.Router.Order.{Distinct}
use vheatm.Router.Ordered.{has-reverse, topological_order-IsOrdered}
use vheatm.Router.Select.{GateStates, Selection, should_select, triage_all, nothing_selected}
use vheatm.Router.Closure.{Needs, IsClosure, close-IsClosure}
use vheatm.Router.Route.{
  Manifest, Registry, Environment, Routing, routing_of, checked_states, select_modules,
  route_modules_unchecked,
}
use vheatm.Router.Routed.{disclosed, routed}
use vheatm.Router.Triage.{Listed, triage_all-selects, triage_all-cases}

-- Listing a set lists its members.
abbrev pub ListsSets : Environment → Type 0
ListsSets E = (names : List String) (k : String) → has (E.list_set names) k ≡ has names k

has-middle :
    (front : List String) (id : String) (rest : List String) → has (front ++ id ∷ rest) id ≡ true
has-middle [] id rest = has-head id rest
has-middle (x ∷ front) id rest = has-tail x id (front ++ id ∷ rest) (has-middle front id rest)

module _ (E : Environment) (manifest : Manifest) (registry : Registry) (modules : List LoadedModule)
    (plan : Fields) (include : Bool) (phase : Option String) where
  abbrev start : GateStates → Selection
  start states = triage_all states modules (nothing_selected modules)

  select_modules-IsClosure :
      (states : GateStates) (s : Selection)
      → ListsSets E
      → select_modules E modules states ≡ ok s
      → IsClosure modules (start states) s
  unfolding select_modules
  select_modules-IsClosure states s lists h =
      close-IsClosure modules _ (reverse (E.list_set (start states).selected)) (start states) s
        (λ k. has-reverse (E.list_set (start states).selected) k ∙ lists (start states).selected k)
        h

  started_at :
      (states : GateStates) (P : String → Type 0)
      → ((m : LoadedModule) → Listed m modules → should_select states m ≡ true → P m.id)
      → (k : String) → has (start states).selected k ≡ true
      → P k
  started_at states P at k h =
      elim (triage_all-cases states modules (nothing_selected modules) k h) [
        | inl none_before ↦ cc
        | inr (m, listed, chosen, same) ↦ subst P same (at m listed chosen)
      ]

  -- What a routing discloses: each module once and behind all modules that it depends on; each module
  -- that the states of its gates select; and only ids that every property has which holds of these
  -- modules and, with a module, of each of its dependencies.
  abbrev pub IsDisclosed : Routing → Type 1
  IsDisclosed r =
      Distinct (disclosed r.selected_modules)
      × ((front rest : List String) (id d : String)
          → disclosed r.selected_modules ≡ front ++ id ∷ rest
          → Needs modules id d
          → has front d ≡ true)
      × ((states : GateStates) × (checked_states E manifest plan ≡ ok states)
          × ((m : LoadedModule)
              → find_module m.id modules ≡ some m
              → should_select states m ≡ true
              → has (disclosed r.selected_modules) m.id ≡ true)
          × ((P : String → Type 0)
              → ((k d : String) → P k → Needs modules k d → P d)
              → ((m : LoadedModule) → Listed m modules → should_select states m ≡ true → P m.id)
              → (k : String) → has (disclosed r.selected_modules) k ≡ true
              → P k))

  -- Of a routing that is returned, where listing a set lists its members: each module is disclosed
  -- once, behind all modules that it depends on; each module that the states of its gates select is
  -- disclosed; and so are, besides the listed modules that these states select, only modules that
  -- these depend on, directly or not.
  pub route_modules_unchecked-IsDisclosed :
      (r : Routing)
      → ListsSets E
      → route_modules_unchecked E manifest registry modules plan include phase ≡ ok r
      → IsDisclosed r
  unfolding routing_of
  route_modules_unchecked-IsDisclosed r lists h =
      let p = routed E manifest registry modules plan include phase r h in
      let closure = select_modules-IsClosure p.states p.s lists p.selects in
      let (distinct, same, behind) =
        (topological_order-IsOrdered modules manifest.phases p.s.selected).1 p.order p.in_order in
      let e : p.order ≡ disclosed r.selected_modules =
        sym p.disclosing ∙ ap (λ (z : Routing). disclosed z.selected_modules) (sym p.result) in
      let held : (k : String) → has (disclosed r.selected_modules) k ≡ has p.s.selected k =
        λ k. subst (λ z. has z k ≡ has p.s.selected k) e (same k) in
      (
        subst Distinct e distinct,
        λ front rest id d q n.
            let there : has p.s.selected id ≡ true =
              sym (held id) ∙ ap (λ z. has z id) q ∙ has-middle front id rest in
            behind front rest id d (e ∙ q) (n.0, n.1, n.2, closure.closed id d there n),
        (
          p.states,
          p.checked,
          λ m found chosen.
              held m.id
              ∙ closure.kept m.id
                  (triage_all-selects p.states modules (nothing_selected modules) m found chosen),
          λ P step at k there.
              closure.least P step (λ j. started_at p.states P at j) k (sym (held k) ∙ there),
        ),
      )
