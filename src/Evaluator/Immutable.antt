-- ===== src/Evaluator/Immutable.antt =====
-- The fields of a context that no amendment changes.
use vheatm.Prelude.{
  ◌≡◌, refl, subst, ◌∙◌, String, Bool, true, false, not, ◌||◌, ◌&&◌, Bool-cases, Option-cases,
  Option, none, some, ◌==◌, has, ok, inl, inr,
}
use vheatm.Json.{Json, Fields, Python, str, arr, obj, end, field, get}
use vheatm.Evaluator.Context.{is_v2, mandatory_findings}
use vheatm.Evaluator.Merge.{
  immutable_fields, merge_field, merge_fields, merge_immutable, merge_context, merge_declared,
  merge_v2_facts, merge_v2_ledger, merge_amended, merge_v1_facts, merge_tri_state, is_risk_field,
  tri_state_fields, lift_fact, lift_facts, lift_ledger, merge_risk, merge_findings,
}
use vheatm.Evaluator.Holding.{
  put-other, mutable_key, Holds, held, bind-Holds, put-Holds, ok_Holds, then-Holds, if-Holds,
}
use vheatm.Evaluator.Kept.{
  merge_risk-Holds, merge_declared-Holds, merge_v1_facts-Holds, merge_v2_facts-Holds,
  merge_v2_ledger-Holds, merge_amended-Holds, merge_findings-Holds, merge_tri_state-Holds,
  merge_immutable-Holds,
}

module _ (P : Python) where
  -- A field that is not immutable is merged without a change to those that are.
  merge_field-Holds :
      (v2 : Bool) (k key : String) (value : Json) (d : Fields)
      → has immutable_fields key ≡ false
      → has immutable_fields k ≡ true
      → Holds k (get k d) (merge_field P v2 key value d)
  unfolding merge_field
  merge_field-Holds v2 k key value d free fixed =
      let w = get k d in
      let free_of : (j : String) → has immutable_fields j ≡ false → (j == k) ≡ false =
        λ j out. mutable_key j k out fixed in
      if-Holds k w (has immutable_fields key) (merge_immutable P key value d) _ (λ t. cc (t, free))
        (λ _.
          if-Holds k w (key == "declarations") (merge_declared P value d) _
            (λ _. merge_declared-Holds P k value d (free_of "declarations" refl))
            (λ _.
              if-Holds k w (key == "facts" && not v2) (merge_v1_facts P value d) _
                (λ _.
                  merge_v1_facts-Holds P k value d (free_of "blast_radius" refl)
                    (free_of "write_chain_components" refl))
                (λ _.
                  if-Holds k w (key == "finding_ledger" && not v2) (merge_findings P value d) _
                    (λ _. merge_findings-Holds P k value d (free_of "mandatory_findings" refl))
                    (λ _.
                      if-Holds k w (key == "facts") (merge_v2_facts P value d) _
                        (λ _. merge_v2_facts-Holds P k value d (free_of "facts" refl))
                        (λ _.
                          if-Holds k w (key == "finding_ledger") (merge_v2_ledger P value d) _
                            (λ _. merge_v2_ledger-Holds P k value d (free_of "finding_ledger" refl))
                            (λ _.
                              if-Holds k w (key == "amendments") (merge_amended P value d) _
                                (λ _. merge_amended-Holds P k value d (free_of "amendments" refl))
                                (λ _.
                                  if-Holds k w (is_risk_field key) (merge_risk P key value d) _
                                    (λ _. merge_risk-Holds P k key value d (free_of key free))
                                    (λ _.
                                      if-Holds k w (has tri_state_fields key)
                                        (merge_tri_state P key value d) _
                                        (λ _.
                                          merge_tri_state-Holds P k key value d (free_of key free))
                                        (λ _. put-Holds key k value d (free_of key free))))))))))

  merge_field-text :
      (v2 : Bool) (k key s : String) (value : Json) (d : Fields)
      → has immutable_fields k ≡ true
      → get k d ≡ some (str s)
      → Holds k (some (str s)) (merge_field P v2 key value d)
  unfolding merge_field Holds
  merge_field-text v2 k key s value d fixed h = elim (Bool-cases (has immutable_fields key)) [
    | inl same ↦ rw (same, merge_field) (merge_immutable-Holds P k key s value d h)
    | inr free ↦
        subst (λ w. Holds k w (merge_field P v2 key value d)) h
          (merge_field-Holds v2 k key value d free fixed)
  ]

  merge_fields-text :
      (v2 : Bool) (k s : String) (amendment d : Fields)
      → has immutable_fields k ≡ true
      → get k d ≡ some (str s)
      → Holds k (some (str s)) (merge_fields P v2 amendment d)
  unfolding merge_fields Holds
  merge_fields-text v2 k s end d fixed h = h
  merge_fields-text v2 k s (field key value rest) d fixed h =
      then-Holds k (some (str s)) (merge_field P v2 key value d) (merge_fields P v2 rest)
        (merge_field-text v2 k key s value d fixed h)
        (λ next same. merge_fields-text v2 k s rest next fixed same)

  lift_fact-other :
      (key k : String) (facts d : Fields)
      → (key == k) ≡ false
      → get k (lift_fact P key facts d) ≡ get k d
  lift_fact-other key k facts d e = elim (Option-cases (get key facts)) [
    | inl absent ↦ (rw (absent, lift_fact) refl)
    | inr (v, found) ↦ (rw (found, lift_fact) (put-other key k _ d e))
  ]

  lift_facts-other :
      (k : String) (facts : Option Json) (d : Fields)
      → ("blast_radius" == k) ≡ false
      → ("write_chain_components" == k) ≡ false
      → get k (lift_facts P facts d) ≡ get k d
  unfolding lift_facts
  lift_facts-other k none d e f = refl
  lift_facts-other k (some (obj facts)) d e f =
      lift_fact-other "write_chain_components" k facts (lift_fact P "blast_radius" facts d) f
      ∙ lift_fact-other "blast_radius" k facts d e
  lift_facts-other k (some _) d e f = refl

  lift_ledger-Holds :
      (k : String) (ledger : Option Json) (d : Fields)
      → ("mandatory_findings" == k) ≡ false
      → Holds k (get k d) (lift_ledger P ledger d)
  unfolding lift_ledger
  lift_ledger-Holds k none d e = ok_Holds k d
  lift_ledger-Holds k (some (arr vs)) d e =
      bind-Holds k (get k d) (mandatory_findings P vs) _
        (λ n. put-Holds "mandatory_findings" k _ d e)
  lift_ledger-Holds k (some _) d e = ok_Holds k d

  merge_context-Holds :
      (k s : String) (base amendment : Fields)
      → has immutable_fields k ≡ true
      → get k base ≡ some (str s)
      → Holds k (some (str s)) (merge_context P base amendment)
  unfolding merge_context
  merge_context-Holds k s base amendment fixed h =
      let free_of : (j : String) → has immutable_fields j ≡ false → (j == k) ≡ false =
        λ j out. mutable_key j k out fixed in
      then-Holds k (some (str s))
        (merge_fields P (is_v2 P base || is_v2 P amendment) amendment base) _
        (merge_fields-text _ k s amendment base fixed h)
        (λ merged same.
          subst
            (λ w. Holds k w (
              lift_ledger P (get "finding_ledger" (lift_facts P (get "facts" merged) merged))
                (lift_facts P (get "facts" merged) merged)))
            (lift_facts-other k (get "facts" merged) merged (free_of "blast_radius" refl)
                (free_of "write_chain_components" refl)
              ∙ same)
            (lift_ledger-Holds k _ _ (free_of "mandatory_findings" refl)))

  -- No amendment changes an immutable field that holds a text: where the merge returns a context, the
  -- field holds the same text in it.
  pub merge_context-keeps :
      (k s : String) (base amendment merged : Fields)
      → has immutable_fields k ≡ true
      → get k base ≡ some (str s)
      → merge_context P base amendment ≡ ok merged
      → get k merged ≡ some (str s)
  merge_context-keeps k s base amendment merged fixed h went =
      held k s (merge_context P base amendment) merged
        (merge_context-Holds k s base amendment fixed h) went
