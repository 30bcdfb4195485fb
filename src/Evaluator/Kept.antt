-- ===== src/Evaluator/Kept.antt =====
-- What a merge of an amendment into a context keeps.
use vheatm.Prelude.{
  ◌≡◌, sym, ap, subst, ◌∙◌, String, true, false, Bool-cases, Option-cases, none, some, arith, ◌==◌,
  eq_iff, guard, ok, inl, inr,
}
use vheatm.Json.{
  Json, Fields, Python, null, bool, int, str, arr, obj, end, field, get, put, json_eq,
}
use vheatm.Evaluator.{changed_field, as_object, as_array, object_or_raise, array_or_raise}
use vheatm.Evaluator.Context.{get_or, mandatory_findings}
use vheatm.Evaluator.Merge.{
  merge_declarations, merge_facts, merge_ledger, merge_immutable, merge_declared, merge_v2_facts,
  merge_v2_ledger, merge_amended, merge_v1_facts, merge_given_risk, merge_tri_state, merge_risk,
  merge_findings, conflicts,
}
use vheatm.Evaluator.Holding.{
  Holds, bind-Holds, put-Holds, ok_Holds, then-Holds, guard-Holds, put-text,
}

-- A text equals only itself.
str_eq : (P : Python) (s : String) (v : Json) → json_eq P (str s) v ≡ true → v ≡ str s
unfolding json_eq
str_eq P s null h = cc
str_eq P s (bool b) h = cc
str_eq P s (int n) h = cc
str_eq P s (Json.float t) h = cc
str_eq P s (str t) h = ap str (sym ((eq_iff s t).0 h))
str_eq P s (arr vs) h = cc
str_eq P s (obj d) h = cc

module _ (P : Python) where
  same_text :
      (s : String) (candidate : Json)
      → (s == "unknown") ≡ false
      → conflicts P (str s) candidate ≡ false
      → candidate ≡ str s
  unfolding json_eq
  same_text s candidate known h = str_eq P s candidate (ground arith)

  current_text :
      (key name s : String) (candidate : Json) (d : Fields)
      → key ≡ name
      → get name d ≡ some (str s)
      → conflicts P (get_or key (str "unknown") d) candidate ≡ false
      → conflicts P (str s) candidate ≡ false
  current_text key name s candidate d e h fine =
      subst (λ o. conflicts P (elim o [ none ↦ str "unknown" | some v ↦ v ]) candidate ≡ false)
        (ap (λ j. get j d) e ∙ h) fine

  -- A declaration that is resolved to a text other than "unknown" holds the same text in what a merge
  -- of further declarations returns.
  pub merge_declarations-keeps :
      (name s : String) (combined given result : Fields)
      → get name combined ≡ some (str s)
      → (s == "unknown") ≡ false
      → merge_declarations P combined given ≡ ok result
      → get name result ≡ some (str s)
  unfolding merge_declarations
  merge_declarations-keeps name s combined end result h known went = ground arith
  merge_declarations-keeps name s combined (field key candidate given) result h known went =
      elim (Bool-cases (conflicts P (get_or key (str "unknown") combined) candidate)) [
        | inl bad ↦ ground arith
        | inr fine ↦
            merge_declarations-keeps name s (put key candidate combined) given result
              (put-text key name s candidate combined h (λ e.
                same_text s candidate known (current_text key name s candidate combined e h fine)))
              known (ground arith)
      ]

  pub merge_risk-Holds :
      (k key : String) (value : Json) (d : Fields)
      → (key == k) ≡ false
      → Holds k (get k d) (merge_risk P key value d)
  unfolding merge_risk
  merge_risk-Holds k key value d e =
      bind-Holds k (get k d) (guard _ _) _ (λ u. put-Holds key k _ d e)

  pub merge_declared-Holds :
      (k : String) (value : Json) (d : Fields)
      → ("declarations" == k) ≡ false
      → Holds k (get k d) (merge_declared P value d)
  merge_declared-Holds k value d e =
      bind-Holds k (get k d) (as_object "declarations" value) _ (λ given.
        bind-Holds k (get k d) (object_or_raise "declarations" (get "declarations" d)) _
          (λ existing.
            bind-Holds k (get k d) (merge_declarations P existing given) _
              (λ combined. put-Holds "declarations" k (obj combined) d e)))

  pub merge_v2_facts-Holds :
      (k : String) (value : Json) (d : Fields)
      → ("facts" == k) ≡ false
      → Holds k (get k d) (merge_v2_facts P value d)
  merge_v2_facts-Holds k value d e = bind-Holds k (get k d) (as_object "facts" value) _ (λ given.
      bind-Holds k (get k d) (object_or_raise "facts" (get "facts" d)) _ (λ existing.
        bind-Holds k (get k d) (merge_facts P existing given) _
          (λ combined. put-Holds "facts" k (obj combined) d e)))

  pub merge_v2_ledger-Holds :
      (k : String) (value : Json) (d : Fields)
      → ("finding_ledger" == k) ≡ false
      → Holds k (get k d) (merge_v2_ledger P value d)
  merge_v2_ledger-Holds k value d e =
      bind-Holds k (get k d) (as_array "finding_ledger" value) _ (λ given.
        bind-Holds k (get k d) (array_or_raise "finding_ledger" (get "finding_ledger" d)) _
          (λ existing.
            bind-Holds k (get k d) (merge_ledger P existing given) _
              (λ combined. put-Holds "finding_ledger" k (arr combined) d e)))

  pub merge_amended-Holds :
      (k : String) (value : Json) (d : Fields)
      → ("amendments" == k) ≡ false
      → Holds k (get k d) (merge_amended P value d)
  merge_amended-Holds k value d e = bind-Holds k (get k d) (as_array "amendments" value) _ (λ given.
      bind-Holds k (get k d) (array_or_raise "amendments" (get "amendments" d)) _
        (λ existing. put-Holds "amendments" k _ d e))

  pub merge_findings-Holds :
      (k : String) (value : Json) (d : Fields)
      → ("mandatory_findings" == k) ≡ false
      → Holds k (get k d) (merge_findings P value d)
  unfolding merge_findings
  merge_findings-Holds k value d e =
      bind-Holds k (get k d) (as_array "finding_ledger" value) _ (λ given.
        bind-Holds k (get k d) (mandatory_findings P given) _ (λ existing.
          bind-Holds k (get k d) (guard _ _) _
            (λ combined. put-Holds "mandatory_findings" k _ d e)))

  merge_given_risk-Holds :
      (k key : String) (facts d : Fields)
      → (key == k) ≡ false
      → Holds k (get k d) (merge_given_risk P key facts d)
  merge_given_risk-Holds k key facts d e = elim (Option-cases (get key facts)) [
    | inl absent ↦ rw (absent, merge_given_risk) (ok_Holds k d)
    | inr (v, found) ↦ rw (found, merge_given_risk) (merge_risk-Holds k key v d e)
  ]

  pub merge_v1_facts-Holds :
      (k : String) (value : Json) (d : Fields)
      → ("blast_radius" == k) ≡ false
      → ("write_chain_components" == k) ≡ false
      → Holds k (get k d) (merge_v1_facts P value d)
  merge_v1_facts-Holds k value d e f = bind-Holds k (get k d) (as_object "facts" value) _ (λ facts.
      then-Holds k (get k d) (merge_given_risk P "blast_radius" facts d) _
        (merge_given_risk-Holds k "blast_radius" facts d e)
        (λ next same. rw (← same) (merge_given_risk-Holds k "write_chain_components" facts next f)))

  pub merge_immutable-Holds :
      (k key s : String) (value : Json) (d : Fields)
      → get k d ≡ some (str s)
      → Holds k (some (str s)) (merge_immutable P key value d)
  unfolding Holds
  merge_immutable-Holds k key s value d h =
      guard-Holds k (some (str s)) _ (changed_field key) (ok (put key value d)) (λ passed.
        put-text key k s value d h (λ e. str_eq P s value (
          subst (λ o. elim o [ none ↦ true | some v ↦ json_eq P v value ] ≡ true)
            (ap (λ j. get j d) e ∙ h) passed)))

  pub merge_tri_state-Holds :
      (k key : String) (value : Json) (d : Fields)
      → (key == k) ≡ false
      → Holds k (get k d) (merge_tri_state P key value d)
  merge_tri_state-Holds k key value d e =
      bind-Holds k (get k d) (guard _ _) _ (λ u. put-Holds key k value d e)
