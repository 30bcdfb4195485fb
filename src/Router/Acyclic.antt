-- ===== src/Router/Acyclic.antt =====
-- `_find_cycle` returns a cycle exactly if there is one, and its fuel is enough.
use vheatm.Prelude.{
  ℕ, zero, suc, ◌+◌, ◌<◌, ◌≡◌, ◌≢◌, refl, sym, ap, ◌∙◌, subst, String, true, false, Bool-cases, inl,
  inr, List, [], ◌∷◌, ◌++◌, arith, ◌==◌, eq_iff, has, has-head, length, sort_unique,
  has-sort_unique,
}
use vheatm.Router.{Graph, children, nodes}
use vheatm.Router.Missing.{missing, missing-le-length, has-cons, has-tail}
use vheatm.Router.Cycle.{
  Visit, cycle, visited, out_of_fuel, from_node, leave, visit_each, visit, find_cycle,
}
use vheatm.Router.Visits.{
  Visit-cases, each-cycle, each-ends, no_children, missing-pushed, length-nodes,
}

module _ (graph : Graph) where
  abbrev pub Edge : String → String → Type 0
  Edge x y = has (children graph x) y ≡ true

  abbrev pub Walk : List String → Type 0
  Walk [] = Unit
  Walk (x ∷ []) = Unit
  Walk (x ∷ y ∷ path) = Edge x y × Walk (y ∷ path)

  -- A walk along at least one edge that ends where it starts.
  abbrev pub IsCycle : List String → Type 0
  IsCycle path = (n : String) × (between : List String) × (path ≡ n ∷ between ++ n ∷ []) × Walk path

  Walk-step :
      (path : List String) (x y : String)
      → Walk (path ++ x ∷ [])
      → Edge x y
      → Walk ((path ++ x ∷ []) ++ y ∷ [])
  Walk-step [] x y w e = (e, tt)
  Walk-step (a ∷ []) x y w e = (w.0, (e, tt))
  Walk-step (a ∷ b ∷ path) x y w e = (w.0, Walk-step (b ∷ path) x y w.1 e)

  Walk-tail : (x : String) (path : List String) → Walk (x ∷ path) → Walk path
  Walk-tail x [] w = tt
  Walk-tail x (y ∷ path) w = w.1

  Walk-from :
      (node : String) (path rest : List String)
      → Walk (path ++ rest)
      → has path node ≡ true
      → (between : List String) × (from_node node path ≡ node ∷ between)
        × Walk (from_node node path ++ rest)
  unfolding from_node
  Walk-from node [] rest w h = cc
  Walk-from node (x ∷ path) rest w h = elim (Bool-cases (x == node)) [
    | inl same ↦ rw same (path, ap (λ z. z ∷ path) ((eq_iff x node).0 same), w)
    | inr other ↦ rw other (Walk-from node path rest (Walk-tail x (path ++ rest) w) (ground arith))
  ]

  leave-cycle : (r : Visit) (node : String) (c : List String) → leave r node ≡ cycle c → r ≡ cycle c
  leave-cycle (cycle path) node c h = h
  leave-cycle (visited seen) node c h = cc
  leave-cycle out_of_fuel node c h = cc

  visit-IsCycle :
      (fuel : ℕ) (stack : List String) (node : String) (seen c : List String)
      → Walk (stack ++ node ∷ [])
      → visit graph fuel stack node seen ≡ cycle c
      → IsCycle c
  unfolding visit
  visit-IsCycle zero stack node seen c w h = cc
  visit-IsCycle (suc fuel) stack node seen c w h = elim (Bool-cases (has stack node)) [
    | inl again ↦
        let (between, e, w') = Walk-from node stack (node ∷ []) w again in
        let q : from_node node stack ++ node ∷ [] ≡ c = cc (rw again at h) in
        (node, between, sym q ∙ ap (λ path. path ++ node ∷ []) e, subst Walk q w')
    | inr fresh ↦ elim (Bool-cases (has seen node)) [
      | inl old ↦ ground arith
      | inr new ↦
          let inner =
            leave-cycle
              (visit_each (visit graph fuel (stack ++ node ∷ [])) (children graph node) seen) node c
              (rw (fresh, new) at h) in
          let (d, at, member, found) = each-cycle _ (children graph node) seen c inner in
          visit-IsCycle fuel (stack ++ node ∷ []) d at c (Walk-step stack node d w member) found
    ]
  ]

  leave-out : (r : Visit) (node : String) → leave r node ≡ out_of_fuel → r ≡ out_of_fuel
  leave-out (cycle path) node h = cc
  leave-out (visited seen) node h = cc
  leave-out out_of_fuel node h = refl

  children-stranger :
      (g : Graph) (node : String) → has (nodes g) node ≡ false → children g node ≡ []
  children-stranger [] node h = refl
  children-stranger ((k, ds) ∷ g) node h = ground (arith, children-stranger g node)

  visit-ends :
      (fuel : ℕ) (stack : List String) (node : String) (seen : List String)
      → missing stack (nodes graph) < fuel
      → visit graph fuel stack node seen ≢ out_of_fuel
  unfolding visit
  visit-ends zero stack node seen h out = absurd (omega arith)
  visit-ends (suc fuel) stack node seen h out = elim (Bool-cases (has stack node)) [
    | inl again ↦ cc (rw again at out)
    | inr fresh ↦ elim (Bool-cases (has seen node)) [
      | inl old ↦ cc (rw (fresh, old) at out)
      | inr new ↦
          let stuck =
            leave-out
              (visit_each (visit graph fuel (stack ++ node ∷ [])) (children graph node) seen) node
              (rw (fresh, new) at out) in
          elim (Bool-cases (has (nodes graph) node)) [
            | inl key ↦
                let less = missing-pushed stack (nodes graph) node key fresh in
                each-ends _ (children graph node) seen
                  (λ d at. visit-ends fuel (stack ++ node ∷ []) d at (omega arith)) stuck
            | inr stranger ↦
                no_children _ seen (children graph node) (children-stranger graph node stranger)
                  stuck
          ]
    ]
  ]

  -- Each node stands before the nodes that it depends on, which are all there.
  abbrev pub IsOrdered : List String → Type 0
  IsOrdered [] = Unit
  IsOrdered (v ∷ vs) = ((d : String) → Edge v d → has vs d ≡ true) × IsOrdered vs

  each-visited :
      (step : String → List String → Visit) (ds seen more : List String)
      → ((d : String) (at next : List String)
          → IsOrdered at
          → step d at ≡ visited next
          → IsOrdered next
            × (has next d ≡ true)
            × ((k : String) → has at k ≡ true → has next k ≡ true))
      → IsOrdered seen
      → visit_each step ds seen ≡ visited more
      → IsOrdered more
        × ((d : String) → has ds d ≡ true → has more d ≡ true)
        × ((k : String) → has seen k ≡ true → has more k ≡ true)
  unfolding visit_each
  each-visited step [] seen more each o h =
      let same : seen ≡ more = cc h in
      (subst IsOrdered same o, λ d k. cc k, λ k held. (rw (← same) held))
  each-visited step (d ∷ ds) seen more each o h = elim (Visit-cases (step d seen)) [
    | inl (path, e) ↦ cc (rw e at h)
    | inr (inl (next, e)) ↦
        let (o', member, kept) = each d seen next o e in
        let (o'', all, kept') = each-visited step ds next more each o' (rw e at h) in
        (
          o'',
          λ d' m. elim (has-cons d d' ds m) [
            | inl same ↦ subst (λ z. has more z ≡ true) same (kept' d member)
            | inr later ↦ all d' later
          ],
          λ k held. kept' k (kept k held),
        )
    | inr (inr e) ↦ cc (rw e at h)
  ]

  leave-visited :
      (r : Visit) (node : String) (more : List String)
      → leave r node ≡ visited more
      → (at : List String) × (r ≡ visited at) × (more ≡ node ∷ at)
  leave-visited (cycle path) node more h = cc
  leave-visited (visited at) node more h = (at, refl, cc h)
  leave-visited out_of_fuel node more h = cc

  visit-IsOrdered :
      (fuel : ℕ) (stack : List String) (node : String) (seen more : List String)
      → IsOrdered seen
      → visit graph fuel stack node seen ≡ visited more
      → IsOrdered more
        × (has more node ≡ true)
        × ((k : String) → has seen k ≡ true → has more k ≡ true)
  unfolding visit
  visit-IsOrdered zero stack node seen more o h = cc
  visit-IsOrdered (suc fuel) stack node seen more o h = elim (Bool-cases (has stack node)) [
    | inl again ↦ cc (rw again at h)
    | inr fresh ↦ elim (Bool-cases (has seen node)) [
      | inl old ↦
          let same : seen ≡ more = cc (rw (fresh, old) at h) in
          (
            subst IsOrdered same o,
            subst (λ z. has z node ≡ true) same old,
            λ k held. subst (λ z. has z k ≡ true) same held,
          )
      | inr new ↦
          let (at, e, grown) =
            leave-visited
              (visit_each (visit graph fuel (stack ++ node ∷ [])) (children graph node) seen) node
              more (rw (fresh, new) at h) in
          let (o', all, kept) =
            each-visited (visit graph fuel (stack ++ node ∷ [])) (children graph node) seen at
              (visit-IsOrdered fuel (stack ++ node ∷ [])) o e in
          subst
            (λ z.
              IsOrdered z
              × (has z node ≡ true)
              × ((k : String) → has seen k ≡ true → has z k ≡ true))
            (sym grown) ((all, o'), has-head node at, λ k held. has-tail node k at (kept k held))
    ]
  ]

  closed :
      (vs : List String) (x y : String)
      → IsOrdered vs
      → has vs x ≡ true
      → Edge x y
      → has vs y ≡ true
  closed [] x y o h e = cc
  closed (v ∷ vs) x y o h e = elim (has-cons v x vs h) [
    | inl same ↦ has-tail v y vs (o.0 y (subst (λ z. Edge z y) (sym same) e))
    | inr later ↦ has-tail v y vs (closed vs x y o.1 later e)
  ]

  successor_in :
      (v : String) (vs : List String) (x y : String)
      → IsOrdered (v ∷ vs)
      → has (v ∷ vs) x ≡ true
      → Edge x y
      → has vs y ≡ true
  successor_in v vs x y o h e = elim (has-cons v x vs h) [
    | inl same ↦ o.0 y (subst (λ z. Edge z y) (sym same) e)
    | inr later ↦ closed vs x y o.1 later e
  ]

  last_in :
      (vs : List String) (x : String) (between : List String) (n : String)
      → IsOrdered vs
      → has vs x ≡ true
      → Walk (x ∷ between ++ n ∷ [])
      → has vs n ≡ true
  last_in vs x [] n o h w = closed vs x n o h w.0
  last_in vs x (y ∷ between) n o h w = last_in vs y between n o (closed vs x y o h w.0) w.1

  -- Through a node of an ordered list goes no cycle.
  no_cycle :
      (vs : List String) (n : String) (between : List String)
      → IsOrdered vs
      → has vs n ≡ true
      → ¬ Walk (n ∷ between ++ n ∷ [])
  no_cycle [] n between o member w = cc
  no_cycle (v ∷ vs) n [] o member w = no_cycle vs n [] o.1 (successor_in v vs n n o member w.0) w
  no_cycle (v ∷ vs) n (m ∷ between) o member w =
      no_cycle vs n (m ∷ between) o.1
        (last_in vs m between n o.1 (successor_in v vs n m o member w.0) w.1) w

  key_of_Edge : (x y : String) → Edge x y → has (nodes graph) x ≡ true
  key_of_Edge x y e = elim (Bool-cases (has (nodes graph) x)) [
    | inl key ↦ key
    | inr stranger ↦ cc (rw (children-stranger graph x stranger) at e)
  ]

  first-Edge :
      (n : String) (between : List String) → Walk (n ∷ between ++ n ∷ []) → (y : String) × Edge n y
  first-Edge n [] w = (n, w.0)
  first-Edge n (m ∷ between) w = (m, w.0)

  enough : missing [] (nodes graph) < length graph + 1
  enough = omega (arith, missing-le-length [] (nodes graph), length-nodes graph)

  -- The search for a cycle has enough fuel. A path that it reports is a cycle of the graph, and if it
  -- reports none, then the graph has none: the nodes that it visited can be put in an order in which
  -- each stands before those that it depends on.
  pub find_cycle-IsCycle :
      (find_cycle graph ≢ out_of_fuel)
      × ((path : List String) → find_cycle graph ≡ cycle path → IsCycle path)
      × ((order : List String)
          → find_cycle graph ≡ visited order
          → IsOrdered order × ((path : List String) → ¬ IsCycle path))
  unfolding find_cycle
  find_cycle-IsCycle = (
    each-ends _ (sort_unique (nodes graph)) []
        (λ d at. visit-ends (length graph + 1) [] d at enough),
    λ path h.
        let (d, at, member, found) = each-cycle _ (sort_unique (nodes graph)) [] path h in
        visit-IsCycle (length graph + 1) [] d at path tt found,
    λ order h.
        let (o, all, kept) =
          each-visited (visit graph (length graph + 1) []) (sort_unique (nodes graph)) [] order
            (visit-IsOrdered (length graph + 1) []) tt h in
        (
          o,
          λ path c.
              let (n, between, e, w) = c in
              let w' = subst Walk e w in
              let (y, edge) = first-Edge n between w' in
              no_cycle order n between o
                (all n (has-sort_unique n (nodes graph) ∙ key_of_Edge n y edge)) w',
        ),
  )
