-- ===== src/Evaluator/Holding.antt =====
-- Results that may be errors, by the value that a returned context holds under a key.
use vheatm.Prelude.{
  ◌≡◌, refl, subst, ◌∙◌, String, Bool, true, false, Bool-cases, Option, some, ◌==◌, eq_iff, has,
  guard, if◌then◌else◌, ◌>>◌, Outcome, ok, raised, inl, inr, ◌>>=◌,
}
use vheatm.Json.{Json, Fields, str, get, put}
use vheatm.Json.Laws.{get-put}
use vheatm.Evaluator.{EvaluatorError}
use vheatm.Evaluator.Merge.{immutable_fields}

pub put-other :
    (key k : String) (v : Json) (d : Fields) → (key == k) ≡ false → get k (put key v d) ≡ get k d
put-other key k v d e = get-put key k v d ∙ (rw e refl)

pub mutable_key :
    (key k : String)
    → has immutable_fields key ≡ false
    → has immutable_fields k ≡ true
    → (key == k) ≡ false
mutable_key key k free fixed = elim (Bool-cases (key == k)) [
  | inl same ↦ cc (rw ((eq_iff key k).0 same) at free, fixed)
  | inr other ↦ other
]

-- A result that is returned holds a value under a key.
unfoldable pub Holds : String → Option Json → Outcome EvaluatorError Fields → Type 0
Holds k w (raised e) = Unit
Holds k w (ok d) = get k d ≡ w

pub held :
    (k s : String) (o : Outcome EvaluatorError Fields) (d : Fields)
    → Holds k (some (str s)) o
    → o ≡ ok d
    → get k d ≡ some (str s)
unfolding Holds
held k s o d h e = subst (Holds k (some (str s))) e h

pub bind-Holds :
    {A : Type 0} (k : String) (w : Option Json) (step : Outcome EvaluatorError A)
    (rest : A → Outcome EvaluatorError Fields)
    → ((a : A) → Holds k w (rest a))
    → Holds k w (step >>= rest)
unfolding Holds
bind-Holds k w (raised e) rest each = tt
bind-Holds k w (ok a) rest each = each a

pub put-Holds :
    (key k : String) (v : Json) (d : Fields)
    → (key == k) ≡ false
    → Holds k (get k d) (ok (put key v d))
unfolding Holds
put-Holds = put-other

pub ok_Holds : (k : String) (d : Fields) → Holds k (get k d) (ok d)
unfolding Holds
ok_Holds k d = refl

pub then-Holds :
    (k : String) (w : Option Json) (step : Outcome EvaluatorError Fields)
    (rest : Fields → Outcome EvaluatorError Fields)
    → Holds k w step
    → ((d : Fields) → get k d ≡ w → Holds k w (rest d))
    → Holds k w (step >>= rest)
unfolding Holds
then-Holds k w (raised e) rest first each = tt
then-Holds k w (ok d) rest first each = each d first

pub guard-Holds :
    (k : String) (w : Option Json) (b : Bool) (e : EvaluatorError)
    (rest : Outcome EvaluatorError Fields)
    → (b ≡ true → Holds k w rest)
    → Holds k w (guard b e >> rest)
unfolding Holds
guard-Holds k w true e rest each = each refl
guard-Holds k w false e rest each = tt

pub if-Holds :
    (k : String) (w : Option Json) (b : Bool) (x y : Outcome EvaluatorError Fields)
    → (b ≡ true → Holds k w x)
    → (b ≡ false → Holds k w y)
    → Holds k w (if b then x else y)
if-Holds k w true x y on off = on refl
if-Holds k w false x y on off = off refl

pub put-text :
    (key name s : String) (candidate : Json) (d : Fields)
    → get name d ≡ some (str s)
    → (key ≡ name → candidate ≡ str s)
    → get name (put key candidate d) ≡ some (str s)
put-text key name s candidate d h same = elim (Bool-cases (key == name)) [
  | inl e ↦ get-put key name candidate d ∙ (rw (e, same ((eq_iff key name).0 e)) refl)
  | inr e ↦ get-put key name candidate d ∙ (rw e h)
]
