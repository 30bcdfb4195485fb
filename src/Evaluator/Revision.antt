-- ===== src/Evaluator/Revision.antt =====
-- What a revised plan is known to be.
use vheatm.Prelude.{
  has-select, ◌≡◌, refl, ◌∙◌, String, Bool, true, not, ◌&&◌, Bool-cases, Option-cases, some, List,
  [], ◌∷◌, map, arith, has, select, sort_unique, has-sort_unique, ok, Outcome-cases, inl, inr,
}
use vheatm.Json.{Json, Fields, get}
use vheatm.Evaluator.Plan.{Runtime, Plan}
use vheatm.Evaluator.Integrity.{
  gate_id, gate_named, is_active, dropped, gates_of, identified, expected_gates, revise_plan,
  no_gate,
}

none_in :
    {A : Type 0} (id : String) (ids : List String) → no_gate ids ≡ true → has ids id ≡ true → A
none_in id [] h e = cc
none_in id (i ∷ ids) h e = cc

module _ (R : Runtime) where
  pub gate_named-has :
      (id : String) (gs : List Fields) {g : Fields}
      → gate_named R id gs ≡ some g
      → has (map (gate_id R) gs) id ≡ true
  unfolding gate_named
  gate_named-has id [] h = cc
  gate_named-has id (g ∷ gs) h = elim (Option-cases (gate_named R id gs)) [
    | inl absent ↦ ground arith
    | inr (later, e) ↦ ground (arith, gate_named-has id gs e)
  ]

  is_active-has :
      (id : String) (gs : List Fields)
      → is_active R id gs ≡ true
      → has (map (gate_id R) gs) id ≡ true
  unfolding is_active
  is_active-has id gs h = elim (Option-cases (gate_named R id gs)) [
    | inl absent ↦ ground arith
    | inr (g, e) ↦ gate_named-has id gs e
  ]

  dropped-none :
      (previous revised : List Fields)
      → no_gate (dropped R previous revised) ≡ true
      → (id : String) → is_active R id previous ≡ true
      → is_active R id revised ≡ true
  unfolding dropped
  dropped-none previous revised h id active = elim (Bool-cases (is_active R id revised)) [
    | inl kept ↦ kept
    | inr lost ↦
        let gone : String → Bool = λ i. is_active R i previous && not (is_active R i revised) in
        let ids = map (gate_id R) previous in
        let member =
          has-select gone id ids (is_active-has id previous active) (rw (active, lost) refl) in
        none_in id (sort_unique (select gone ids)) h (has-sort_unique id (select gone ids) ∙ member)
  ]

  -- A revision that is returned comes from a plan whose gates are all objects with an id, and each
  -- gate that is active in that plan is active in the revised one.
  pub revise_plan-is_active :
      (manifest previous discovered : Fields) (reason : String) (revised : Plan)
      → revise_plan R manifest previous discovered reason ≡ ok revised
      → (listed : List Json) × (gates : List Fields) × (gates_of (get "gates" previous) ≡ ok listed)
        × (identified listed ≡ ok gates)
        × ((id : String)
            → is_active R id gates ≡ true
            → is_active R id (expected_gates R revised) ≡ true)
  unfolding revise_plan
  revise_plan-is_active manifest previous discovered reason revised h =
      elim (Outcome-cases (gates_of (get "gates" previous))) [
        | inr (e, l) ↦ ground arith
        | inl (listed, l) ↦ elim (Outcome-cases (identified listed)) [
          | inr (e, i) ↦ ground arith
          | inl (gates, i) ↦
              (listed, gates, l, i, dropped-none gates (expected_gates R revised) (ground arith))
        ]
      ]
