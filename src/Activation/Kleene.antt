-- ===== src/Activation/Kleene.antt =====
-- The three values together: the strong Kleene tables, which `BooleanOperation.evaluate` follows, and
-- what a result keeps when more is known.
use vheatm.Prelude.{
  String, ◌≡◌, refl, subst, ◌∙◌, Bool, none, some, List, [], ◌∷◌, ◌++◌, arith, Outcome, ok, raised,
  has, ◌⊎◌, inl, inr, has-head,
}
use vheatm.Json.{Json, Fields}
use vheatm.Activation.{
  TruthValue, true, unknown, false, from_bool, Connective, and, or, Value, reference, literal,
  list_literal, ActivationError,
}
use vheatm.Activation.Evaluate.{resolve_reference, resolve_value, combine, value_references}

-- A later result keeps an earlier one that was not unknown.
unfoldable pub Keeps : TruthValue → TruthValue → Type 0
Keeps unknown u = Unit
Keeps true u = u ≡ true
Keeps false u = u ≡ false

-- What an earlier context resolves, a later one resolves to the same value.
unfoldable pub Extends : Fields → Fields → Type 0
Extends c d =
    (name : String) (v : Json)
    → resolve_reference name c ≡ some v
    → resolve_reference name d ≡ some v

-- The result that a left and a right side give together.
unfoldable pub kleene : Connective → TruthValue → TruthValue → TruthValue
kleene and true y = y
kleene and false y = false
kleene and unknown false = false
kleene and unknown _ = unknown
kleene or true y = true
kleene or false y = y
kleene or unknown true = true
kleene or unknown _ = unknown

unfoldable pub decides : Connective → TruthValue → Bool
decides and false = Bool.true
decides or true = Bool.true
decides _ _ = Bool.false

pub kleene-Keeps :
    (op : Connective) (x y x' y' : TruthValue)
    → Keeps x x'
    → Keeps y y'
    → Keeps (kleene op x y) (kleene op x' y')
unfolding kleene Keeps
kleene-Keeps and true y x' y' h k = ground arith
kleene-Keeps and false y x' y' h k = ground arith
kleene-Keeps and unknown true x' y' h k = tt
kleene-Keeps and unknown unknown x' y' h k = tt
kleene-Keeps and unknown false true y' h k = k
kleene-Keeps and unknown false unknown y' h k = ground arith
kleene-Keeps and unknown false false y' h k = refl
kleene-Keeps or true y x' y' h k = ground arith
kleene-Keeps or false y x' y' h k = ground arith
kleene-Keeps or unknown true true y' h k = refl
kleene-Keeps or unknown true unknown y' h k = ground arith
kleene-Keeps or unknown true false y' h k = k
kleene-Keeps or unknown unknown x' y' h k = tt
kleene-Keeps or unknown false x' y' h k = tt

-- What two sides give, of which the right one is read only where the left does not decide.
pub combine_ok :
    (op : Connective) (a b : Outcome ActivationError TruthValue) {t : TruthValue}
    → combine op a b ≡ ok t
    → (x y : TruthValue) × (a ≡ ok x)
      × ((b ≡ ok y) ⊎ (decides op x ≡ Bool.true))
      × (t ≡ kleene op x y)
unfolding combine decides kleene
combine_ok op (raised e) b h = cc
combine_ok and (ok false) b h = (false, false, refl, inr refl, ground arith)
combine_ok and (ok true) (raised e) h = cc
combine_ok and (ok unknown) (raised e) h = cc
combine_ok and (ok true) (ok true) h = (true, true, refl, inl refl, ground arith)
combine_ok and (ok true) (ok unknown) h = (true, unknown, refl, inl refl, ground arith)
combine_ok and (ok true) (ok false) h = (true, false, refl, inl refl, ground arith)
combine_ok and (ok unknown) (ok true) h = (unknown, true, refl, inl refl, ground arith)
combine_ok and (ok unknown) (ok unknown) h = (unknown, unknown, refl, inl refl, ground arith)
combine_ok and (ok unknown) (ok false) h = (unknown, false, refl, inl refl, ground arith)
combine_ok or (ok true) b h = (true, true, refl, inr refl, ground arith)
combine_ok or (ok false) (raised e) h = cc
combine_ok or (ok unknown) (raised e) h = cc
combine_ok or (ok false) (ok true) h = (false, true, refl, inl refl, ground arith)
combine_ok or (ok false) (ok unknown) h = (false, unknown, refl, inl refl, ground arith)
combine_ok or (ok false) (ok false) h = (false, false, refl, inl refl, ground arith)
combine_ok or (ok unknown) (ok true) h = (unknown, true, refl, inl refl, ground arith)
combine_ok or (ok unknown) (ok unknown) h = (unknown, unknown, refl, inl refl, ground arith)
combine_ok or (ok unknown) (ok false) h = (unknown, false, refl, inl refl, ground arith)

pub decided_kleene :
    (op : Connective) (x y z : TruthValue)
    → decides op x ≡ Bool.true
    → kleene op x y ≡ kleene op x z
unfolding decides kleene
decided_kleene and true y z h = cc
decided_kleene and false y z h = refl
decided_kleene and unknown y z h = cc
decided_kleene or true y z h = refl
decided_kleene or false y z h = cc
decided_kleene or unknown y z h = cc

pub Keeps-refl : (t : TruthValue) → Keeps t t
unfolding Keeps
Keeps-refl true = refl
Keeps-refl unknown = tt
Keeps-refl false = refl

pub combine-Keeps :
    (op : Connective) (a b a' b' : Outcome ActivationError TruthValue) {t u : TruthValue}
    → ((x x' : TruthValue) → a ≡ ok x → a' ≡ ok x' → Keeps x x')
    → ((y y' : TruthValue) → b ≡ ok y → b' ≡ ok y' → Keeps y y')
    → combine op a b ≡ ok t
    → combine op a' b' ≡ ok u
    → Keeps t u
combine-Keeps op a b a' b' {t} {u} left right h h' =
    let (x, y, ea, eb, et) = combine_ok op a b h in
    let (x', y', ea', eb', eu) = combine_ok op a' b' h' in
    let kept = left x x' ea ea' in
    elim eb [
      | inr early ↦
          rw (et ∙ decided_kleene op x y y' early, eu)
            (kleene-Keeps op x y' x' y' kept (Keeps-refl y'))
      | inl seen ↦ elim eb' [
        | inr early ↦
            rw (et, eu ∙ decided_kleene op x' y' y early)
              (kleene-Keeps op x y x' y kept (Keeps-refl y))
        | inl seen' ↦ rw (et, eu) (kleene-Keeps op x y x' y' kept (right y y' seen seen'))
      ]
    ]

pub Keeps-same : {t u : TruthValue} → t ≡ u → Keeps t u
Keeps-same {t} e = subst (λ s. Keeps t s) e (Keeps-refl t)

pub Keeps-unknown : {t : TruthValue} (u : TruthValue) → unknown ≡ t → Keeps t u
unfolding Keeps
Keeps-unknown u e = subst (λ s. Keeps s u) e tt

pub resolve_value-Extends :
    (right : Value) (c d : Fields)
    → Extends c d
    → (v : Json) → resolve_value right c ≡ some v
    → resolve_value right d ≡ some v
unfolding resolve_value Extends
resolve_value-Extends (reference name) c d more v h = more name v h
resolve_value-Extends (literal w) c d more v h = h
resolve_value-Extends (list_literal ws) c d more v h = h

pub combine-kleene :
    (op : Connective) (x y : TruthValue) → combine op (ok x) (ok y) ≡ ok (kleene op x y)
unfolding combine kleene
combine-kleene and true true = refl
combine-kleene and true unknown = refl
combine-kleene and true false = refl
combine-kleene and unknown true = refl
combine-kleene and unknown unknown = refl
combine-kleene and unknown false = refl
combine-kleene and false y = refl
combine-kleene or true y = refl
combine-kleene or unknown true = refl
combine-kleene or unknown unknown = refl
combine-kleene or unknown false = refl
combine-kleene or false true = refl
combine-kleene or false unknown = refl
combine-kleene or false false = refl

pub kleene_unknown :
    (op : Connective) (x y : TruthValue)
    → kleene op x y ≡ unknown
    → (x ≡ unknown) ⊎ ((decides op x ≡ Bool.false) × (y ≡ unknown))
unfolding kleene decides
kleene_unknown op unknown y h = inl refl
kleene_unknown and true y h = inr (refl, h)
kleene_unknown and false y h = cc
kleene_unknown or true y h = cc
kleene_unknown or false y h = inr (refl, h)

pub from_bool_known : {A : Type 0} (b : Bool) → from_bool b ≡ unknown → A
from_bool_known Bool.true h = cc
from_bool_known Bool.false h = cc

abbrev pub Unresolved : List String → Fields → Type 0
Unresolved names c =
    (name : String) × (has names name ≡ Bool.true) × (resolve_reference name c ≡ none)

pub has-left :
    (n : String) (xs ys : List String) → has xs n ≡ Bool.true → has (xs ++ ys) n ≡ Bool.true
has-left n [] ys h = cc
has-left n (x ∷ xs) ys h = ground (arith, has-left n xs ys)

pub has-right :
    (n : String) (xs ys : List String) → has ys n ≡ Bool.true → has (xs ++ ys) n ≡ Bool.true
has-right n [] ys h = h
has-right n (x ∷ xs) ys h = ground (arith, has-right n xs ys)

pub resolve_value-none :
    (right : Value) (c : Fields)
    → resolve_value right c ≡ none
    → (name : String) × (has (value_references right) name ≡ Bool.true)
      × (resolve_reference name c ≡ none)
unfolding resolve_value
resolve_value-none (reference name) c h = (name, has-head name [], h)
resolve_value-none (literal w) c h = cc
resolve_value-none (list_literal ws) c h = cc
