-- ===== src/Router/Routed.antt =====
-- The parts of a routing that is returned, and what each of them gives.
use mathlib.Core.List.{reverse, reverse-cons}
use vheatm.Prelude.{
  some_inj, ok_inj, suc, ◌≤◌, ◌≡◌, refl, sym, ap, ◌∙◌, subst, String, Bool, true, false, ◌&&◌,
  Bool-cases, inl, inr, Option, some, List, [], ◌∷◌, ◌++◌, map, arith, ◌==◌, eq_iff, any, has,
  length, length-append, select, lookup, precedes, or_raise, ok, ok_steps,
}
use vheatm.Json.{Fields}
use vheatm.Router.{LoadedModule, find_module, module_of, ids, unknown_module}
use vheatm.Router.Missing.{has-cons}
use vheatm.Router.Sorting.{values, has-sort_keyed}
use vheatm.Router.Topological.{topological_order}
use vheatm.Router.Select.{GateStates, Selection, sort_texts}
use vheatm.Router.Closure.{module_of_found}
use vheatm.Router.Route.{
  Manifest, Registry, Environment, Entry, Routing, entries_of, find_conflicts, routing_of,
  checked_states, check_phase, select_modules, route_modules_unchecked, phase_disclosure,
  sum_tokens, in_phase,
}

-- The ids of the modules disclosed, in order.
abbrev pub disclosed : List Entry → List String
disclosed [] = []
disclosed (e ∷ es) = e.loaded.id ∷ disclosed es

and_false : {a b : Bool} → a ≡ true → a && b ≡ false → b ≡ false
and_false {a} {b} e h = ground arith

pub has-sort_texts : (xs : List String) (k : String) → has (sort_texts xs) k ≡ has xs k
unfolding sort_texts
has-sort_texts xs k =
    has-sort_keyed precedes (map (λ s. (s, s)) xs) k ∙ ap (λ z. has z k) (paired xs)
  where
    paired : (ys : List String) → values (map (λ s. (s, s)) ys) ≡ ys
    paired [] = refl
    paired (y ∷ ys) = ap (λ z. y ∷ z) (paired ys)

find_module-id :
    (ms : List LoadedModule) (id : String) (m : LoadedModule)
    → find_module id ms ≡ some m
    → m.id ≡ id
find_module-id [] id m h = cc
find_module-id (n ∷ ms) id m h = elim (Bool-cases (n.id == id)) [
  | inl same ↦
      ap (λ (z : LoadedModule). z.id) (some_inj (sym (rw same at h))) ∙ (eq_iff n.id id).0 same
  | inr other ↦ find_module-id ms id m (rw other at h)
]

pairs_empty :
    (p : String → Bool) (id : String) (xs : List String) (rest : List (String × String))
    → map (λ c. (id, c)) (select p xs) ++ rest ≡ []
    → (rest ≡ []) × ((c : String) → has xs c ≡ true → p c ≡ false)
pairs_empty p id [] rest h = (h, λ c. cc)
pairs_empty p id (x ∷ xs) rest h = elim (Bool-cases (p x)) [
  | inl passed ↦ cc (rw passed at h)
  | inr out ↦
      let (e, none_else) = pairs_empty p id xs rest (rw out at h) in
      (
        e,
        λ c m. elim (has-cons x c xs m) [
          | inl same ↦ subst (λ z. p z ≡ false) same out
          | inr later ↦ none_else c later
        ],
      )
]

module _ (modules : List LoadedModule) where
  disclosed-entries_of :
      (E : Environment) (reasons : List (String × List String)) (include : Bool)
      (phase : Option String) (order : List String) (entries : List Entry)
      → entries_of E modules reasons include phase order ≡ ok entries
      → disclosed entries ≡ order
  unfolding entries_of
  disclosed-entries_of E reasons include phase [] entries h = ap disclosed (sym (ok_inj h))
  disclosed-entries_of E reasons include phase (id ∷ rest) entries h =
      let (m, em, h1) = ok_steps (module_of modules id) _ h in
      let (why, ew, h2) = ok_steps (or_raise (lookup id reasons) (unknown_module id)) _ h1 in
      let (later, el, h3) = ok_steps (entries_of E modules reasons include phase rest) _ h2 in
      subst (λ z. disclosed z ≡ id ∷ rest) (ok_inj h3)
        (ap (λ z. z ∷ disclosed later)
            (find_module-id modules id m (module_of_found modules id m em))
          ∙ ap (λ z. id ∷ z) (disclosed-entries_of E reasons include phase rest later el))

  pub no_conflict :
      (selected rest : List String)
      → find_conflicts modules selected rest ≡ ok []
      → (id c : String) (m : LoadedModule) → has rest id ≡ true
      → find_module id modules ≡ some m
      → has m.conflicts c ≡ true
      → has selected c ≡ true
      → precedes id c ≡ false
  unfolding find_conflicts
  no_conflict selected [] h id c m member found declared chosen = cc
  no_conflict selected (k ∷ rest) h id c m member found declared chosen =
      let (n, en, h1) = ok_steps (module_of modules k) _ h in
      let (later, el, h2) = ok_steps (find_conflicts modules selected rest) _ h1 in
      let (e, none_here) =
        pairs_empty (λ z. has selected z && precedes k z) k n.conflicts later (ok_inj h2) in
      elim (has-cons k id rest member) [
        | inr there ↦ no_conflict selected rest (el ∙ ap ok e) id c m there found declared chosen
        | inl same ↦
            let q : n ≡ m = some_inj (
              sym (module_of_found modules k n en)
              ∙ ap (λ z. find_module z modules) same
              ∙ found) in
            subst (λ z. precedes z c ≡ false) same
              (and_false chosen
                (none_here c (subst (λ z. has z.conflicts c ≡ true) (sym q) declared)))
      ]

pub within_budget :
    (r : Registry) (entries : List Entry) (phases : List String)
    → any (λ d. d.budget_exceeded) (map (phase_disclosure r entries) phases) ≡ false
    → (phase : String) → has phases phase ≡ true
    → sum_tokens (select (in_phase phase) entries) ≤ r.disclosure_budget
unfolding phase_disclosure
within_budget r entries [] h phase member = cc
within_budget r entries (p ∷ phases) h phase member = elim (has-cons p phase phases member) [
  | inl same ↦
      subst (λ z. sum_tokens (select (in_phase z) entries) ≤ r.disclosure_budget) same
        (ground arith)
  | inr later ↦ within_budget r entries phases (ground arith) phase later
]

pub length-reverse : {A : Type 0} (xs : List A) → length (reverse xs) ≡ length xs
length-reverse [] = refl
length-reverse (x ∷ xs) =
    ap length (reverse-cons x xs)
    ∙ omega (arith, length-append (reverse xs) (x ∷ []), length-reverse xs)

pub length-ids : (ms : List LoadedModule) → length (ids ms) ≡ length ms
length-ids [] = refl
length-ids (m ∷ ms) = ap suc (length-ids ms)

-- The parts of a routing that is returned.
pub record IsRouting (E : Environment) (manifest : Manifest) (registry : Registry)
    (modules : List LoadedModule) (plan : Fields) (phase : Option String) (r : Routing)
    : Type 0 where
  pub states : GateStates
  pub s : Selection
  pub pairs : List (String × String)
  pub order : List String
  pub entries : List Entry
  pub checked : checked_states E manifest plan ≡ ok states
  pub selects : select_modules E modules states ≡ ok s
  pub conflicting : find_conflicts modules s.selected (sort_texts s.selected) ≡ ok pairs
  pub in_order : topological_order modules manifest.phases s.selected ≡ ok order
  pub disclosing : disclosed entries ≡ order
  pub result : r ≡ routing_of manifest registry states phase s pairs entries

module _ (E : Environment) (manifest : Manifest) (registry : Registry) (modules : List LoadedModule)
    (plan : Fields) (include : Bool) (phase : Option String) where
  pub routed :
      (r : Routing)
      → route_modules_unchecked E manifest registry modules plan include phase ≡ ok r
      → IsRouting E manifest registry modules plan phase r
  unfolding route_modules_unchecked
  routed r h =
      let (states, ec, h1) = ok_steps (checked_states E manifest plan) _ h in
      let (u, ep, h2) = ok_steps (check_phase manifest.phases include phase) _ h1 in
      let (s, es, h3) = ok_steps (select_modules E modules states) _ h2 in
      let (pairs, ef, h4) =
        ok_steps (find_conflicts modules s.selected (sort_texts s.selected)) _ h3 in
      let (order, eo, h5) = ok_steps (topological_order modules manifest.phases s.selected) _ h4 in
      let (entries, ee, h6) = ok_steps (entries_of E modules s.reasons include phase order) _ h5 in
      record {
        states = states;
        s = s;
        pairs = pairs;
        order = order;
        entries = entries;
        checked = ec;
        selects = es;
        conflicting = ef;
        in_order = eo;
        disclosing = disclosed-entries_of modules E s.reasons include phase order entries ee;
        result = sym (ok_inj h6);
      }
