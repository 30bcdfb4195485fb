-- ===== src/Router/Closure.antt =====
-- The closure of a selection under dependencies: it ends, is closed, and holds nothing else.
use vheatm.Prelude.{
  ok_inj, ℕ, zero, suc, ◌+◌, ◌≤◌, ◌≡◌, ◌≢◌, refl, sym, ap, ◌∙◌, subst, String, true, false,
  Bool-cases, Option-cases, inl, inr, ◌⊎◌, some, List, [], ◌∷◌, ◌++◌, arith, has, has-head, length,
  ok, raised, ok_steps, Outcome-cases,
}
use vheatm.Router.{LoadedModule, out_of_fuel, find_module, module_of, ids}
use vheatm.Router.Missing.{missing, missing-lt, has-append, has-cons, has-tail}
use vheatm.Router.Order.{found_module}
use vheatm.Router.Ordered.{same_error, module_of-ends}
use vheatm.Router.Select.{Selection, add_dependencies, close}

later_dependency :
    {A : Type 0} (d k : String) (ds : List String)
    → A ⊎ (has ds k ≡ true)
    → A ⊎ (has (d ∷ ds) k ≡ true)
later_dependency d k ds (inl a) = inl a
later_dependency d k ds (inr m) = inr (has-tail d k ds m)

pub has-snoc : (xs : List String) (d : String) → has (xs ++ d ∷ []) d ≡ true
has-snoc [] d = has-head d []
has-snoc (x ∷ xs) d = has-tail x d (xs ++ d ∷ []) (has-snoc xs d)

pub has-front : (xs : List String) (d k : String) → has xs k ≡ true → has (xs ++ d ∷ []) k ≡ true
has-front xs d k h = rw (has-append xs (d ∷ []) k, h) refl

pub snoc-cases :
    (xs : List String) (d k : String) → has (xs ++ d ∷ []) k ≡ true → (has xs k ≡ true) ⊎ (d ≡ k)
snoc-cases [] d k h = elim (has-cons d k [] h) [ inl same ↦ inr same | inr m ↦ inl m ]
snoc-cases (x ∷ xs) d k h = elim (has-cons x k (xs ++ d ∷ []) h) [
  | inl same ↦ inl (subst (λ z. has (x ∷ xs) z ≡ true) same (has-head x xs))
  | inr m ↦ elim (snoc-cases xs d k m) [ inl l ↦ inl (has-tail x k xs l) | inr same ↦ inr same ]
]

module _ (modules : List LoadedModule) where
  -- A module's declared dependency.
  abbrev pub Needs : String → String → Type 0
  Needs id d =
      (m : LoadedModule) × (find_module id modules ≡ some m) × (has m.dependencies d ≡ true)

  -- What the round for one module leaves: its dependencies are selected, nothing is dropped, what is
  -- new stands in the queue, and the queue and what is not selected yet have not grown together.
  record IsAdded (id : String) (ds queue : List String) (s : Selection) (queue' : List String)
      (s' : Selection) : Type 0 where
    pub covered : (d : String) → has ds d ≡ true → has s'.selected d ≡ true
    pub grown : (k : String) → has s.selected k ≡ true → has s'.selected k ≡ true
    pub queued : (k : String) → has queue k ≡ true → has queue' k ≡ true
    pub new_queued :
        (k : String) → has s'.selected k ≡ true → (has s.selected k ≡ true) ⊎ (has queue' k ≡ true)
    pub reached :
        (k : String) → has s'.selected k ≡ true → (has s.selected k ≡ true) ⊎ (has ds k ≡ true)
    pub queue_reached :
        (k : String) → has queue' k ≡ true → (has queue k ≡ true) ⊎ (has ds k ≡ true)
    pub bounded :
        length queue' + missing s'.selected (ids modules)
        ≤ length queue + missing s.selected (ids modules)

  nothing-IsAdded :
      (id : String) (queue : List String) (s : Selection) → IsAdded id [] queue s queue s
  nothing-IsAdded id queue s = record {
    covered = λ d. cc;
    grown = λ k h. h;
    queued = λ k h. h;
    new_queued = λ k h. inl h;
    reached = λ k h. inl h;
    queue_reached = λ k h. inl h;
    bounded = omega arith;
  }

  skipped :
      (id d : String) (ds queue : List String) (s : Selection) (queue' : List String)
      (s' : Selection)
      → has s.selected d ≡ true
      → IsAdded id ds queue s queue' s'
      → IsAdded id (d ∷ ds) queue s queue' s'
  skipped id d ds queue s queue' s' old r = record {
    covered = λ k h. elim (has-cons d k ds h) [
      | inl same ↦ subst (λ z. has s'.selected z ≡ true) same (r.grown d old)
      | inr later ↦ r.covered k later
    ];
    grown = r.grown;
    queued = r.queued;
    new_queued = r.new_queued;
    reached = λ k h. later_dependency d k ds (r.reached k h);
    queue_reached = λ k h. later_dependency d k ds (r.queue_reached k h);
    bounded = r.bounded;
  }

  entered :
      (id d : String) (ds queue : List String) (s s1 : Selection) (queue' : List String)
      (s' : Selection)
      → s1.selected ≡ s.selected ++ d ∷ []
      → has s.selected d ≡ false
      → has (ids modules) d ≡ true
      → IsAdded id ds (d ∷ queue) s1 queue' s'
      → IsAdded id (d ∷ ds) queue s queue' s'
  entered id d ds queue s s1 queue' s' e new known r = record {
    covered = λ k h. elim (has-cons d k ds h) [
      | inl same ↦
          subst (λ z. has s'.selected z ≡ true) same (r.grown d (rw e (has-snoc s.selected d)))
      | inr later ↦ r.covered k later
    ];
    grown = λ k h. r.grown k (rw e (has-front s.selected d k h));
    queued = λ k h. r.queued k (has-tail d k queue h);
    new_queued = λ k h. elim (r.new_queued k h) [
      | inr there ↦ inr there
      | inl at ↦ elim (snoc-cases s.selected d k (rw e at at)) [
        | inl old ↦ inl old
        | inr same ↦ inr (subst (λ z. has queue' z ≡ true) same (r.queued d (has-head d queue)))
      ]
    ];
    reached = λ k h. elim (r.reached k h) [
      | inr later ↦ inr (has-tail d k ds later)
      | inl at ↦ elim (snoc-cases s.selected d k (rw e at at)) [
        | inl old ↦ inl old
        | inr same ↦ inr (subst (λ z. has (d ∷ ds) z ≡ true) same (has-head d ds))
      ]
    ];
    queue_reached = λ k h. elim (r.queue_reached k h) [
      | inr later ↦ inr (has-tail d k ds later)
      | inl at ↦ elim (has-cons d k queue at) [
        | inl same ↦ inr (subst (λ z. has (d ∷ ds) z ≡ true) same (has-head d ds))
        | inr old ↦ inl old
      ]
    ];
    bounded = omega (
      arith,
      r.bounded,
      missing-lt s.selected s1.selected (ids modules) d (λ k h. (rw e (has-front s.selected d k h)))
          known new (rw e (has-snoc s.selected d)),
    );
  }

  add_dependencies-IsAdded :
      (id : String) (ds queue : List String) (s : Selection) (queue' : List String) (s' : Selection)
      → add_dependencies modules id ds queue s ≡ ok (queue', s')
      → IsAdded id ds queue s queue' s'
  unfolding add_dependencies
  add_dependencies-IsAdded id [] queue s queue' s' h =
      subst (λ (p : List String × Selection). IsAdded id [] queue s p.0 p.1) (ok_inj h)
        (nothing-IsAdded id queue s)
  add_dependencies-IsAdded id (d ∷ ds) queue s queue' s' h = elim (Bool-cases (has s.selected d)) [
    | inl old ↦
        skipped id d ds queue s queue' s' old
          (add_dependencies-IsAdded id ds queue s queue' s' (rw old at h))
    | inr new ↦ elim (Bool-cases (has (ids modules) d)) [
      | inr unknown ↦ cc (rw (new, unknown) at h)
      | inl known ↦
          entered id d ds queue s _ queue' s' refl new known
            (add_dependencies-IsAdded id ds (d ∷ queue) _ queue' s' (rw (new, known) at h))
    ]
  ]

  add_dependencies-ends :
      (id : String) (ds queue : List String) (s : Selection)
      → add_dependencies modules id ds queue s ≢ raised out_of_fuel
  unfolding add_dependencies
  add_dependencies-ends id [] queue s h = cc
  add_dependencies-ends id (d ∷ ds) queue s h = elim (Bool-cases (has s.selected d)) [
    | inl old ↦ add_dependencies-ends id ds queue s (rw old at h)
    | inr new ↦ elim (Bool-cases (has (ids modules) d)) [
      | inr unknown ↦ cc (rw (new, unknown) at h)
      | inl known ↦ add_dependencies-ends id ds (d ∷ queue) _ (rw (new, known) at h)
    ]
  ]

  pub close-ends :
      (fuel : ℕ) (queue : List String) (s : Selection)
      → length queue + missing s.selected (ids modules) ≤ fuel
      → close modules fuel queue s ≢ raised out_of_fuel
  unfolding close
  close-ends zero [] s b h = cc
  close-ends (suc fuel) [] s b h = cc
  close-ends zero (id ∷ queue) s b h = absurd (omega arith)
  close-ends (suc fuel) (id ∷ queue) s b h = elim (Outcome-cases (module_of modules id)) [
    | inr (error, e) ↦ module_of-ends modules id (e ∙ same_error (rw e at h))
    | inl (m, e) ↦ elim (Outcome-cases (add_dependencies modules id m.dependencies queue s)) [
      | inr (error, a) ↦
          add_dependencies-ends id m.dependencies queue s (a ∙ same_error (rw (e, a) at h))
      | inl (next, a) ↦
          let r = add_dependencies-IsAdded id m.dependencies queue s next.0 next.1 a in
          close-ends fuel next.0 next.1 (omega (arith, r.bounded)) (rw (e, a) at h)
    ]
  ]

  -- What is selected is waiting in the queue or has its dependencies selected.
  abbrev IsExplored : List String → Selection → Type 0
  IsExplored queue s =
      (k : String)
      → has s.selected k ≡ true
      → (has queue k ≡ true) ⊎ ((d : String) → Needs k d → has s.selected d ≡ true)

  IsExplored-next :
      (id : String) (m : LoadedModule) (queue : List String) (s : Selection) (queue' : List String)
      (s' : Selection)
      → module_of modules id ≡ ok m
      → IsAdded id m.dependencies queue s queue' s'
      → IsExplored (id ∷ queue) s
      → IsExplored queue' s'
  IsExplored-next id m queue s queue' s' e r x k h = elim (r.new_queued k h) [
    | inr waiting ↦ inl waiting
    | inl old ↦ elim (x k old) [
      | inr done ↦ inr (λ d n. r.grown d (done d n))
      | inl waiting ↦ elim (has-cons id k queue waiting) [
        | inr later ↦ inl (r.queued k later)
        | inl same ↦ inr (λ d n.
            let (m', found, member) = n in
            r.covered d (
              subst (λ z. has z.dependencies d ≡ true)
                (found_module modules id m' m
                  (subst (λ z. find_module z modules ≡ some m') (sym same) found) e)
                member))
      ]
    ]
  ]

  -- A closure that is returned keeps what was selected, is closed under dependencies, and lies in each
  -- class of modules that holds what was selected and is closed under dependencies.
  pub record IsClosure (s s' : Selection) : Type 1 where
    pub kept : (k : String) → has s.selected k ≡ true → has s'.selected k ≡ true
    pub closed : (k d : String) → has s'.selected k ≡ true → Needs k d → has s'.selected d ≡ true
    pub least :
        (P : String → Type 0)
        → ((k d : String) → P k → Needs k d → P d)
        → ((k : String) → has s.selected k ≡ true → P k)
        → (k : String) → has s'.selected k ≡ true
        → P k

  explored_all :
      (s : Selection)
      → IsExplored [] s
      → (k d : String) → has s.selected k ≡ true
      → Needs k d
      → has s.selected d ≡ true
  explored_all s x k d h n = elim (x k h) [ inl waiting ↦ cc waiting | inr done ↦ done d n ]

  pub module_of_found :
      (id : String) (m : LoadedModule)
      → module_of modules id ≡ ok m
      → find_module id modules ≡ some m
  module_of_found id m h = elim (Option-cases (find_module id modules)) [
    | inl absent ↦ cc (rw absent at h)
    | inr (n, found) ↦ found ∙ ap some (ok_inj (rw found at h))
  ]

  closed_now :
      (s s' : Selection)
      → IsExplored [] s
      → s ≡ s'
      → ((k : String) → has s.selected k ≡ true → has s'.selected k ≡ true)
        × ((k d : String) → has s'.selected k ≡ true → Needs k d → has s'.selected d ≡ true)
  closed_now s s' x e = (
    λ k h. subst (λ z. has z.selected k ≡ true) e h,
    λ k d h n.
        subst (λ z. has z.selected d ≡ true) e
          (explored_all s x k d (subst (λ z. has z.selected k ≡ true) (sym e) h) n),
  )

  close_keeps :
      (fuel : ℕ) (queue : List String) (s s' : Selection)
      → IsExplored queue s
      → close modules fuel queue s ≡ ok s'
      → ((k : String) → has s.selected k ≡ true → has s'.selected k ≡ true)
        × ((k d : String) → has s'.selected k ≡ true → Needs k d → has s'.selected d ≡ true)
  unfolding close
  close_keeps zero [] s s' x h = closed_now s s' x (ok_inj h)
  close_keeps (suc fuel) [] s s' x h = closed_now s s' x (ok_inj h)
  close_keeps zero (id ∷ queue) s s' x h = cc
  close_keeps (suc fuel) (id ∷ queue) s s' x h =
      let (m, em, h1) = ok_steps (module_of modules id) _ h in
      let (next, a, h2) = ok_steps (add_dependencies modules id m.dependencies queue s) _ h1 in
      let r = add_dependencies-IsAdded id m.dependencies queue s next.0 next.1 a in
      let (kept, closed) =
        close_keeps fuel next.0 next.1 s' (IsExplored-next id m queue s next.0 next.1 em r x) h2 in
      (λ k held. kept k (r.grown k held), closed)

  close_least :
      (P : String → Type 0) (fuel : ℕ) (queue : List String) (s s' : Selection)
      → ((k d : String) → P k → Needs k d → P d)
      → ((k : String) → has s.selected k ≡ true → P k)
      → ((k : String) → has queue k ≡ true → P k)
      → close modules fuel queue s ≡ ok s'
      → (k : String) → has s'.selected k ≡ true
      → P k
  unfolding close
  close_least P zero [] s s' step at wait h k m =
      at k (subst (λ z. has z.selected k ≡ true) (sym (ok_inj h)) m)
  close_least P (suc fuel) [] s s' step at wait h k m =
      at k (subst (λ z. has z.selected k ≡ true) (sym (ok_inj h)) m)
  close_least P zero (id ∷ queue) s s' step at wait h k m = cc
  close_least P (suc fuel) (id ∷ queue) s s' step at wait h k m =
      let (mod', em, h1) = ok_steps (module_of modules id) _ h in
      let (next, a, h2) = ok_steps (add_dependencies modules id mod'.dependencies queue s) _ h1 in
      let r = add_dependencies-IsAdded id mod'.dependencies queue s next.0 next.1 a in
      let needed : (d : String) → has mod'.dependencies d ≡ true → P d =
        λ d dep. step id d (wait id (has-head id queue)) (mod', module_of_found id mod' em, dep) in
      close_least P fuel next.0 next.1 s' step
        (λ j held. elim (r.reached j held) [ inl old ↦ at j old | inr new ↦ needed j new ])
        (λ j held. elim (r.queue_reached j held) [
          | inl old ↦ wait j (has-tail id j queue old)
          | inr new ↦ needed j new
        ])
        h2 k m

  pub close-IsClosure :
      (fuel : ℕ) (queue : List String) (s s' : Selection)
      → ((k : String) → has queue k ≡ has s.selected k)
      → close modules fuel queue s ≡ ok s'
      → IsClosure s s'
  close-IsClosure fuel queue s s' same h =
      let (kept, closed) = close_keeps fuel queue s s' (λ k m. inl (same k ∙ m)) h in
      record {
        kept = kept;
        closed = closed;
        least =
            λ P step at. close_least P fuel queue s s' step at (λ k m. at k (sym (same k) ∙ m)) h;
      }
