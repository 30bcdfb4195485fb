-- ===== src/Router/Order.antt =====
-- What the visits of `_topological_order` keep: the modules done are in order, each once, and apart
-- from those on the path.
use vheatm.Prelude.{
  ok_inj, ℕ, zero, suc, ◌+◌, ◌≡◌, refl, sym, ap, ◌∙◌, subst, String, Bool, true, false, Bool-cases,
  inl, inr, some, List, [], ◌∷◌, arith, ◌==◌, eq_iff, has, has-head, length, select, has-select,
  Outcome, ok, raised, ok_steps, ◌>>=◌,
}
use vheatm.Router.{LoadedModule, ModuleRoutingError, find_module, module_of}
use vheatm.Router.Missing.{has-cons, has-tail}
use vheatm.Router.Sorting.{key_before, values, has-sort_keyed}
use vheatm.Router.Topological.{
  PhaseOrder, with_keys, sort_modules, selected_dependencies, visit_each, visit,
}

abbrev pub Distinct : List String → Type 0
Distinct [] = Unit
Distinct (x ∷ xs) = (has xs x ≡ false) × Distinct xs

-- What is selected passes the test.
pub select_passes :
    (p : String → Bool) (xs : List String) (k : String) → has (select p xs) k ≡ true → p k ≡ true
select_passes p [] k h = cc
select_passes p (x ∷ xs) k h = elim (Bool-cases (p x)) [
  | inr out ↦ select_passes p xs k (rw out at h)
  | inl passed ↦ elim (has-cons x k (select p xs) (rw passed at h)) [
    | inl same ↦ subst (λ z. p z ≡ true) same passed
    | inr later ↦ select_passes p xs k later
  ]
]

module _ (modules : List LoadedModule) where
  pub found_module :
      (id : String) (m n : LoadedModule)
      → find_module id modules ≡ some m
      → module_of modules id ≡ ok n
      → m ≡ n
  found_module id m n found h = cc (rw found at h)

module _ (modules : List LoadedModule) (phases : PhaseOrder) where
  with_keys-values :
      (names : List String) {keyed : List _}
      → with_keys modules phases names ≡ ok keyed
      → values keyed ≡ names
  unfolding with_keys
  with_keys-values [] h = ground arith
  with_keys-values (id ∷ rest) h =
      let (m, em, h1) = ok_steps (module_of modules id) _ h in
      let (keyed', ek, h2) = ok_steps (with_keys modules phases rest) _ h1 in
      subst (λ z. values z ≡ id ∷ rest) (ok_inj h2) (ap (λ z. id ∷ z) (with_keys-values rest ek))

  pub has-sort_modules :
      (names sorted : List String) (k : String)
      → sort_modules modules phases names ≡ ok sorted
      → has sorted k ≡ has names k
  unfolding sort_modules
  has-sort_modules names sorted k h =
      let (keyed, ek, h1) = ok_steps (with_keys modules phases names) _ h in
      subst (λ z. has z k ≡ has names k) (ok_inj h1)
        (has-sort_keyed key_before keyed k ∙ ap (λ z. has z k) (with_keys-values names ek))

  module _ (selected : List String) where
    -- A selected dependency of a module.
    abbrev pub Depends : String → String → Type 0
    Depends id d =
        (m : LoadedModule) × (find_module id modules ≡ some m)
        × (has m.dependencies d ≡ true)
        × (has selected d ≡ true)

    abbrev pub IsOrdered : List String → Type 0
    IsOrdered [] = Unit
    IsOrdered (id ∷ rest) = ((d : String) → Depends id d → has rest d ≡ true) × IsOrdered rest

    pub record IsGood (path done : List String) : Type 0 where
      pub in_order : IsOrdered done
      pub distinct : Distinct done
      pub apart : (k : String) → has path k ≡ true → has done k ≡ false
      pub within : (k : String) → has done k ≡ true → has selected k ≡ true

    pub dependencies_lem :
        (id : String) (ds : List String)
        → selected_dependencies modules phases selected id ≡ ok ds
        → ((d : String) → Depends id d → has ds d ≡ true)
          × ((d : String) → has ds d ≡ true → has selected d ≡ true)
    unfolding selected_dependencies
    dependencies_lem id ds h =
        let (m, em, h1) = ok_steps (module_of modules id) _ h in
        let (sorted, es, h2) = ok_steps (sort_modules modules phases m.dependencies) _ h1 in
        let e : select (has selected) sorted ≡ ds = ok_inj h2 in
        (
          λ d dep.
              let (m', found, member, chosen) = dep in
              let same : m' ≡ m = found_module modules id m' m found em in
              subst (λ z. has z d ≡ true) e
                (has-select (has selected) d sorted
                  (has-sort_modules m.dependencies sorted d es
                    ∙ subst (λ z. has z.dependencies d ≡ true) same member)
                  chosen),
          λ d member.
              select_passes (has selected) sorted d (subst (λ z. has z d ≡ true) (sym e) member),
        )

    leave_lem :
        (r : Outcome ModuleRoutingError (List String)) (id : String) (more : List String)
        → (r >>= λ at. ok (id ∷ at)) ≡ ok more
        → (at : List String) × (r ≡ ok at) × (more ≡ id ∷ at)
    leave_lem (ok at) id more h = (at, refl, sym (ok_inj h))
    leave_lem (raised e) id more h = cc

    -- What a visit leaves: the module itself, with all that was there.
    record IsVisit (path done : List String) (id : String) (more : List String) : Type 0 where
      pub good : IsGood path more
      pub there : has more id ≡ true
      pub grown : (k : String) → has done k ≡ true → has more k ≡ true

    visit_each_lem :
        (step : String → List String → Outcome ModuleRoutingError (List String))
        (path ds done more : List String)
        → ((d : String) (at next : List String)
            → has selected d ≡ true
            → IsGood path at
            → step d at ≡ ok next
            → IsVisit path at d next)
        → ((d : String) → has ds d ≡ true → has selected d ≡ true)
        → IsGood path done
        → visit_each step ds done ≡ ok more
        → IsGood path more
          × ((d : String) → has ds d ≡ true → has more d ≡ true)
          × ((k : String) → has done k ≡ true → has more k ≡ true)
    unfolding visit_each
    visit_each_lem step path [] done more each chosen g h =
        let same : done ≡ more = ok_inj h in
        (subst (IsGood path) same g, λ d k. cc k, λ k held. subst (λ z. has z k ≡ true) same held)
    visit_each_lem step path (d ∷ ds) done more each chosen g h =
        let (next, e, rest) = ok_steps (step d done) _ h in
        let v = each d done next (chosen d (has-head d ds)) g e in
        let (g', all, kept) =
          visit_each_lem step path ds next more each (λ k m. chosen k (has-tail d k ds m)) v.good
            rest in
        (
          g',
          λ d' m. elim (has-cons d d' ds m) [
            | inl same ↦ subst (λ z. has more z ≡ true) same (kept d v.there)
            | inr later ↦ all d' later
          ],
          λ k held. kept k (v.grown k held),
        )

    pushed :
        (id : String) (path done : List String)
        → has done id ≡ false
        → IsGood path done
        → IsGood (id ∷ path) done
    pushed id path done new g = record {
      in_order = g.in_order;
      distinct = g.distinct;
      apart = λ k m. elim (has-cons id k path m) [
        | inl same ↦ subst (λ z. has done z ≡ false) same new
        | inr later ↦ g.apart k later
      ];
      within = g.within;
    }

    popped :
        (id : String) (path at : List String)
        → has selected id ≡ true
        → has path id ≡ false
        → ((d : String) → Depends id d → has at d ≡ true)
        → IsGood (id ∷ path) at
        → IsGood path (id ∷ at)
    popped id path at chosen fresh deps g = record {
      in_order = (deps, g.in_order);
      distinct = (g.apart id (has-head id path), g.distinct);
      apart = λ k m. elim (Bool-cases (id == k)) [
        | inl same ↦ cc (rw (← (eq_iff id k).0 same) at m, fresh)
        | inr other ↦ rw other (g.apart k (has-tail id k path m))
      ];
      within = λ k m. elim (has-cons id k at m) [
        | inl same ↦ subst (λ z. has selected z ≡ true) same chosen
        | inr later ↦ g.within k later
      ];
    }

    visit-IsVisit :
        (fuel : ℕ) (path : List String) (id : String) (done more : List String)
        → has selected id ≡ true
        → IsGood path done
        → visit modules phases selected fuel path id done ≡ ok more
        → IsVisit path done id more
    unfolding visit
    visit-IsVisit zero path id done more chosen g h = cc
    visit-IsVisit (suc fuel) path id done more chosen g h = elim (Bool-cases (has done id)) [
      | inl old ↦
          let same : done ≡ more = ok_inj (rw old at h) in
          subst (IsVisit path done id) same
            (record { good = g; there = old; grown = λ k held. held })
      | inr new ↦ elim (Bool-cases (has path id)) [
        | inl again ↦ cc (rw (new, again) at h)
        | inr fresh ↦
            let (at, e, grown) = leave_lem _ id more (rw (new, fresh) at h) in
            let (ds, eds, h1) = ok_steps (selected_dependencies modules phases selected id) _ e in
            let (deps, inside) = dependencies_lem id ds eds in
            let (g', all, kept) =
              visit_each_lem (visit modules phases selected fuel (id ∷ path)) (id ∷ path) ds done at
                (λ d from next. visit-IsVisit fuel (id ∷ path) d from next) inside
                (pushed id path done new g) h1 in
            subst (IsVisit path done id) (sym grown) (record {
              good = popped id path at chosen fresh (λ d dep. all d (deps d dep)) g';
              there = has-head id at;
              grown = λ k held. has-tail id k at (kept k held);
            })
      ]
    ]

    pub visited_all :
        (sorted done : List String)
        → sort_modules modules phases selected ≡ ok sorted
        → visit_each (visit modules phases selected (length selected + 1) []) sorted [] ≡ ok done
        → IsGood [] done × ((k : String) → has selected k ≡ true → has done k ≡ true)
    visited_all sorted done es h =
        let (g, all, kept) =
          visit_each_lem (visit modules phases selected (length selected + 1) []) [] sorted [] done
            (λ d from next. visit-IsVisit (length selected + 1) [] d from next)
            (λ k m. sym (has-sort_modules selected sorted k es) ∙ m)
            (record { in_order = tt; distinct = tt; apart = λ k m. cc; within = λ k m. cc }) h in
        (g, λ k m. all k (has-sort_modules selected sorted k es ∙ m))
