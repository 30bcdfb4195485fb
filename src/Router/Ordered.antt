-- ===== src/Router/Ordered.antt =====
-- `_topological_order` as a whole: what it returns, and that its fuel is enough.
use mathlib.Core.List.{reverse, reverse-cons, reverse-append, reverse-reverse, append_assoc}
use vheatm.Prelude.{
  ok_inj, ℕ, zero, suc, ◌+◌, ◌<◌, ◌≡◌, ◌≢◌, refl, sym, ap, ◌∙◌, subst, String, Bool, true, false,
  Bool-cases, Option-cases, inl, inr, List, [], ◌∷◌, ◌++◌, arith, eq_iff, has, has-head, length,
  Outcome, ok, raised, ok_steps, Outcome-cases, ◌>>=◌,
}
use vheatm.Router.{LoadedModule, ModuleRoutingError, out_of_fuel, find_module, module_of}
use vheatm.Router.Missing.{missing, missing-le-length, missing-lt, has-append, has-tail}
use vheatm.Router.Topological.{
  PhaseOrder, with_keys, sort_modules, selected_dependencies, visit_each, visit, topological_order,
}
use vheatm.Router.Order.{
  Distinct, Depends, IsOrdered, has-sort_modules, dependencies_lem, visited_all,
}

pub Bool-ext : (a b : Bool) → (a ≡ true → b ≡ true) → (b ≡ true → a ≡ true) → a ≡ b
Bool-ext true b f g = sym (f refl)
Bool-ext false true f g = g refl
Bool-ext false false f g = refl

pub has-reverse : (xs : List String) (k : String) → has (reverse xs) k ≡ has xs k
has-reverse [] k = refl
has-reverse (x ∷ xs) k =
    rw (reverse-cons x xs, has-append (reverse xs) (x ∷ []) k) (ground (arith, has-reverse xs k))

Distinct-append :
    (xs : List String) (x : String) → Distinct xs → has xs x ≡ false → Distinct (xs ++ x ∷ [])
Distinct-append [] x d h = (refl, tt)
Distinct-append (y ∷ ys) x d h = (
  has-append ys (x ∷ []) y ∙ ground (arith, eq_iff x y, eq_iff y x),
  Distinct-append ys x d.1 (ground arith),
)

Distinct-reverse : (xs : List String) → Distinct xs → Distinct (reverse xs)
Distinct-reverse [] d = tt
Distinct-reverse (x ∷ xs) d =
    subst Distinct (sym (reverse-cons x xs))
      (Distinct-append (reverse xs) x (Distinct-reverse xs d.1) (has-reverse xs x ∙ d.0))

visit_each-ends :
    (step : String → List String → Outcome ModuleRoutingError (List String)) (ds done : List String)
    → ((d : String) (at : List String) → has ds d ≡ true → step d at ≢ raised out_of_fuel)
    → visit_each step ds done ≢ raised out_of_fuel
unfolding visit_each
visit_each-ends step [] done ends h = cc
visit_each-ends step (d ∷ ds) done ends h = elim (Outcome-cases (step d done)) [
  | inl (next, e) ↦
      visit_each-ends step ds next (λ k at m. ends k at (has-tail d k ds m)) (rw e at h)
  | inr (error, e) ↦ ends d done (has-head d ds) (e ∙ (rw e at h))
]

pub same_error :
    {A B : Type 0} {e f : ModuleRoutingError}
    → ◌≡◌ {A = Outcome ModuleRoutingError A} (raised e) (raised f)
    → ◌≡◌ {A = Outcome ModuleRoutingError B} (raised e) (raised f)
same_error h = ap raised (cc h)

reverse-split :
    (front rest : List String) (id : String)
    → reverse (front ++ id ∷ rest) ≡ reverse rest ++ id ∷ reverse front
reverse-split front rest id = simp (reverse-append, reverse-cons, append_assoc)

leave-out :
    (r : Outcome ModuleRoutingError (List String)) (id : String)
    → (r >>= λ at. ok (id ∷ at)) ≡ raised out_of_fuel
    → r ≡ raised out_of_fuel
leave-out (ok at) id h = cc
leave-out (raised e) id h = cc h

reversed_out :
    (r : Outcome ModuleRoutingError (List String))
    → (r >>= λ done. ok (reverse done)) ≡ raised out_of_fuel
    → r ≡ raised out_of_fuel
reversed_out (ok done) h = cc
reversed_out (raised e) h = cc h

module _ (modules : List LoadedModule) where
  pub module_of-ends : (id : String) → module_of modules id ≢ raised out_of_fuel
  module_of-ends id h = elim (Option-cases (find_module id modules)) [
    | inl absent ↦ cc (rw absent at h)
    | inr (m, found) ↦ cc (rw found at h)
  ]

module _ (modules : List LoadedModule) (phases : PhaseOrder) where
  with_keys-ends : (names : List String) → with_keys modules phases names ≢ raised out_of_fuel
  unfolding with_keys
  with_keys-ends [] h = cc
  with_keys-ends (id ∷ rest) h = ground (arith, with_keys-ends rest)

  sort_modules-ends : (names : List String) → sort_modules modules phases names ≢ raised out_of_fuel
  unfolding sort_modules
  sort_modules-ends names h = ground (arith, with_keys-ends names)

  module _ (selected : List String) where
    dependencies-ends :
        (id : String) → selected_dependencies modules phases selected id ≢ raised out_of_fuel
    unfolding selected_dependencies
    dependencies-ends id h = elim (Outcome-cases (module_of modules id)) [
      | inr (error, e) ↦ module_of-ends modules id (e ∙ same_error (rw e at h))
      | inl (m, e) ↦ elim (Outcome-cases (sort_modules modules phases m.dependencies)) [
        | inl (sorted, es) ↦ cc (rw (e, es) at h)
        | inr (error, es) ↦ sort_modules-ends m.dependencies (es ∙ same_error (rw (e, es) at h))
      ]
    ]

    IsOrdered-split :
        (front rest : List String) (id : String)
        → IsOrdered modules phases selected (front ++ id ∷ rest)
        → (d : String) → Depends modules phases selected id d
        → has rest d ≡ true
    IsOrdered-split [] rest id o = o.0
    IsOrdered-split (x ∷ front) rest id o = IsOrdered-split front rest id o.1

    visit-ends :
        (fuel : ℕ) (path : List String) (id : String) (done : List String)
        → has selected id ≡ true
        → missing path selected < fuel
        → visit modules phases selected fuel path id done ≢ raised out_of_fuel
    unfolding visit
    visit-ends zero path id done chosen h out = absurd (omega arith)
    visit-ends (suc fuel) path id done chosen h out = elim (Bool-cases (has done id)) [
      | inl old ↦ cc (rw old at out)
      | inr new ↦ elim (Bool-cases (has path id)) [
        | inl again ↦ cc (rw (new, again) at out)
        | inr fresh ↦
            let stuck = leave-out _ id (rw (new, fresh) at out) in
            elim (Outcome-cases (selected_dependencies modules phases selected id)) [
              | inr (error, e) ↦ dependencies-ends id (e ∙ (rw e at stuck))
              | inl (ds, e) ↦
                  let less =
                    missing-lt path (id ∷ path) selected id (λ k m. has-tail id k path m) chosen
                      fresh (has-head id path) in
                  visit_each-ends (visit modules phases selected fuel (id ∷ path)) ds done
                    (λ d at m.
                      visit-ends fuel (id ∷ path) d at
                        ((dependencies_lem modules phases selected id ds e).1 d m) (omega arith))
                    (rw e at stuck)
            ]
      ]
    ]

    -- The order of the selected modules never runs out of fuel. An order that is returned has each
    -- selected module once and nothing else, and each module behind those selected modules that it
    -- depends on.
    pub topological_order-IsOrdered :
        (topological_order modules phases selected ≢ raised out_of_fuel)
        × ((order : List String)
            → topological_order modules phases selected ≡ ok order
            → Distinct order
              × ((k : String) → has order k ≡ has selected k)
              × ((front rest : List String) (id d : String)
                  → order ≡ front ++ id ∷ rest
                  → Depends modules phases selected id d
                  → has front d ≡ true))
    unfolding topological_order
    topological_order-IsOrdered = (
      λ out. elim (Outcome-cases (sort_modules modules phases selected)) [
        | inr (error, e) ↦ sort_modules-ends selected (e ∙ same_error (rw e at out))
        | inl (sorted, e) ↦
            visit_each-ends (visit modules phases selected (length selected + 1) []) sorted []
              (λ d at m.
                visit-ends (length selected + 1) [] d at
                  (sym (has-sort_modules modules phases selected sorted d e) ∙ m)
                  (omega (arith, missing-le-length [] selected)))
              (reversed_out _ (rw e at out))
      ],
      λ order h.
          let (sorted, es, h1) = ok_steps (sort_modules modules phases selected) _ h in
          let (done, ed, h2) =
            ok_steps (visit_each (visit modules phases selected (length selected + 1) []) sorted [])
              _ h1 in
          let (g, all) = visited_all modules phases selected sorted done es ed in
          let e : reverse done ≡ order = ok_inj h2 in
          (
            subst Distinct e (Distinct-reverse done g.distinct),
            λ k.
                subst (λ z. has z k ≡ has selected k) e
                  (has-reverse done k ∙ Bool-ext _ _ (g.within k) (all k)),
            λ front rest id d q dep.
                let r : done ≡ reverse rest ++ id ∷ reverse front =
                  sym (reverse-reverse done) ∙ ap reverse (e ∙ q) ∙ reverse-split front rest id in
                sym (has-reverse front d)
                ∙ IsOrdered-split (reverse rest) (reverse front) id
                    (subst (IsOrdered modules phases selected) r g.in_order) d dep,
          ),
    )
