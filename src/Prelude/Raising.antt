-- ===== src/Prelude/Raising.antt =====
-- The outcome of code that may raise, with the component's own type of errors.
use mathlib.Core.Path.{◌≡◌, refl}
use mathlib.Core.Logic.{◌⊎◌, inl, inr}
use mathlib.Core.Bool.{Bool, true, false}
use mathlib.Core.Option.{Option, none, some}

pub data Outcome {ℓ} (E : Type 0) (A : Type ℓ) : Type ℓ where
  ok : A → Outcome E A
  raised : E → Outcome E A

module _ {E : Type 0} where
  infixl 5 ◌>>=◌ ◌>>◌
  -- The statements behind one that may raise.
  abbrev pub ◌>>=◌ {κ ℓ} :
      {A : Type κ} {B : Type ℓ} (step : Outcome E A) (rest : A → Outcome E B) → Outcome E B
  raised e >>= rest = raised e
  ok a >>= rest = rest a

  abbrev pub ◌>>◌ {ℓ} : {B : Type ℓ} → Outcome E (Unit {0}) → Outcome E B → Outcome E B
  step >> rest = step >>= λ _. rest

  -- `if not b: raise e`
  abbrev pub guard : Bool → E → Outcome E (Unit {0})
  guard b e = elim b [ true ↦ ok tt | false ↦ raised e ]

  abbrev pub or_raise {ℓ} : {A : Type ℓ} → Option A → E → Outcome E A
  or_raise found e = elim found [ none ↦ raised e | some a ↦ ok a ]

  -- Steps that end well have each gone well.
  pub ok_steps {κ ℓ} :
      {A : Type κ} {B : Type ℓ} (step : Outcome E A) (rest : A → Outcome E B) {end : B}
      → (step >>= rest) ≡ ok end
      → (a : A) × (step ≡ ok a) × (rest a ≡ ok end)
  ok_steps (raised e) rest went = cc
  ok_steps (ok a) rest went = (a, refl, went)

  pub >>=-ok {ℓ} : {A : Type ℓ} (step : Outcome E A) → (step >>= ok) ≡ step
  >>=-ok (raised e) = refl
  >>=-ok (ok a) = refl

  pub ok_inj {ℓ} : {A : Type ℓ} {x y : A} → ◌≡◌ {A = Outcome E A} (ok x) (ok y) → x ≡ y
  ok_inj h = cc h

  pub Outcome-cases {ℓ} :
      {A : Type ℓ} (o : Outcome E A) → ((a : A) × (o ≡ ok a)) ⊎ ((e : E) × (o ≡ raised e))
  Outcome-cases (ok a) = inl (a, refl)
  Outcome-cases (raised e) = inr (e, refl)
