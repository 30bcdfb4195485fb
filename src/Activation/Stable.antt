-- ===== src/Activation/Stable.antt =====
-- What the evaluation of an expression keeps: results under a context in which more is known, and
-- the reason for an unknown result.
use vheatm.Prelude.{
  has-select, String, ◌≡◌, refl, sym, ◌∙◌, Bool, Option, none, some, arith, ok, ok_steps, has,
  select, has-sort_unique, ◌⊎◌, inl, inr, eq_refl,
}
use vheatm.Json.{Json, Fields, Python}
use vheatm.Activation.{
  TruthValue, unknown, from_bool, Operator, Connective, Expr, boolean_literal, comparison,
  boolean_operation,
}
use vheatm.Activation.Evaluate.{
  resolve_reference, resolve_value, compare_values, compare_resolved, evaluate, references,
  unknown_references, is_none,
}
use vheatm.Activation.Kleene.{
  Keeps, Extends, kleene, combine_ok, combine-Keeps, Keeps-same, Keeps-unknown,
  resolve_value-Extends, combine-kleene, kleene_unknown, from_bool_known, Unresolved, has-left,
  has-right, resolve_value-none,
}

module _ (P : Python) where
  compare_resolved-Keeps :
      (op : Operator) (l r l' r' : Option Json) {t u : TruthValue}
      → ((v : Json) → l ≡ some v → l' ≡ some v)
      → ((v : Json) → r ≡ some v → r' ≡ some v)
      → compare_resolved P op l r ≡ ok t
      → compare_resolved P op l' r' ≡ ok u
      → Keeps t u
  unfolding compare_resolved
  compare_resolved-Keeps op none r l' r' {t} {u} left right h h' = Keeps-unknown u cc
  compare_resolved-Keeps op (some v) none l' r' {t} {u} left right h h' = Keeps-unknown u cc
  compare_resolved-Keeps op (some v) (some w) l' r' {t} {u} left right h h' =
      Keeps-same (cc (h, rw (left v refl, right w refl) at h'))

  -- When a context is extended, a result that was true or false stays what it was, wherever the
  -- evaluation under the extended context has a result.
  pub evaluate-Keeps :
      (e : Expr) (c d : Fields) (t u : TruthValue)
      → Extends c d
      → evaluate P e c ≡ ok t
      → evaluate P e d ≡ ok u
      → Keeps t u
  unfolding evaluate Extends
  evaluate-Keeps (boolean_literal b) c d t u more h h' = Keeps-same cc
  evaluate-Keeps (comparison name op right) c d t u more h h' =
      compare_resolved-Keeps op (resolve_reference name c) (resolve_value right c)
        (resolve_reference name d) (resolve_value right d) (more name)
        (resolve_value-Extends right c d more) h h'
  evaluate-Keeps (boolean_operation op left right) c d t u more h h' =
      combine-Keeps op (evaluate P left c) (evaluate P right c) (evaluate P left d)
        (evaluate P right d) (λ x x'. evaluate-Keeps left c d x x' more)
        (λ y y'. evaluate-Keeps right c d y y' more) h h'

  -- Where both sides of a connective have a result, the whole has the one that the strong Kleene
  -- table of the connective gives.
  pub evaluate-kleene :
      (op : Connective) (left right : Expr) (c : Fields) (x y : TruthValue)
      → evaluate P left c ≡ ok x
      → evaluate P right c ≡ ok y
      → evaluate P (boolean_operation op left right) c ≡ ok (kleene op x y)
  unfolding evaluate
  evaluate-kleene op left right c x y h k = rw (h, k) (combine-kleene op x y)

  compare_resolved-unknown :
      (op : Operator) (l r : Option Json)
      → compare_resolved P op l r ≡ ok unknown
      → (l ≡ none) ⊎ (r ≡ none)
  unfolding compare_resolved
  compare_resolved-unknown op none r h = inl refl
  compare_resolved-unknown op (some v) none h = inr refl
  compare_resolved-unknown op (some v) (some w) h =
      let (b, e, same) = ok_steps (compare_values P op v w) (λ b. ok (from_bool b)) h in
      from_bool_known b (cc same)

  -- Some reference of an expression with an unknown result is unresolved.
  unresolved : (e : Expr) (c : Fields) → evaluate P e c ≡ ok unknown → Unresolved (references e) c
  unfolding evaluate references
  unresolved (boolean_literal b) c h = from_bool_known b (cc h)
  unresolved (comparison name op right) c h =
      elim (compare_resolved-unknown op (resolve_reference name c) (resolve_value right c) h) [
        | inl left ↦ (name, ground (arith, eq_refl name), left)
        | inr absent ↦
            let (n, member, e) = resolve_value-none right c absent in (n, ground arith, e)
      ]
  unresolved (boolean_operation op left right) c h =
      let (x, y, ea, eb, e) = combine_ok op (evaluate P left c) (evaluate P right c) h in
      elim (kleene_unknown op x y (sym e)) [
        | inl first ↦
            let (n, member, absent) = unresolved left c (rw first at ea) in
            (n, has-left n (references left) (references right) member, absent)
        | inr (open_left, second) ↦
            let (n, member, absent) =
              unresolved right c (elim eb [ inl seen ↦ (rw second at seen) | inr early ↦ cc ]) in
            (n, has-right n (references left) (references right) member, absent)
      ]

  -- An unknown result is explained: some field is listed among the unknown references, and is a
  -- reference of the expression that the context leaves unresolved.
  pub evaluate-unknown_references :
      (e : Expr) (c : Fields)
      → evaluate P e c ≡ ok unknown
      → (name : String) × (has (unknown_references e c) name ≡ Bool.true)
        × (has (references e) name ≡ Bool.true)
        × (resolve_reference name c ≡ none)
  unfolding unknown_references
  evaluate-unknown_references e c h =
      let (name, member, absent) = unresolved e c h in
      (
        name,
        has-sort_unique name (select (λ n. is_none (resolve_reference n c)) (references e))
            ∙ has-select (λ n. is_none (resolve_reference n c)) name (references e) member
                (rw absent refl),
        member,
        absent,
      )
