-- ===== src/Activation/Fronts.antt =====
-- Each part of the regular expression matches a front of the text.
use Prim.Native.String.{◌++◌ as concat}
use text.Mathlib.TextLemmas.{append_assoc, nil-append, cons-append}
use vheatm.Prelude.{
  chars, ℕ, ◌+◌, ◌≤◌, ◌≡◌, refl, ap, ◌∙◌, subst, String, Bool, false, not, ◌&&◌, Option, none, some,
  Option-cases, Bool-cases, inl, inr, arith, ◌==◌, eqb, Char, code,
}
use vheatm.Activation.Token.{
  span, closing, decimal, fraction, unsigned, with_fraction, match_number,
}

pub chars-append : (s t : String) → chars (concat s t) ≡ chars s + chars t
chars-append String.[] t = ap chars (nil-append t) ∙ omega arith
chars-append (String.◌∷◌ c s) t = ap chars (cons-append c s t) ∙ omega (arith, chars-append s t)

pub cons_front :
    (c : Char) (front rest s : String)
    → concat front rest ≡ s
    → concat (String.◌∷◌ c front) rest ≡ String.◌∷◌ c s
cons_front c front rest s h = cons-append c front rest ∙ ap (String.◌∷◌ c) h

pub span-append : (p : ℕ → Bool) (s : String) → concat (span p s).0 (span p s).1 ≡ s
unfolding span
span-append p String.[] = nil-append ""
span-append p (String.◌∷◌ c s) = elim (Bool-cases (p (code c))) [
  | inl e ↦ rw e (cons_front c (span p s).0 (span p s).1 s (span-append p s))
  | inr e ↦ rw e (nil-append (String.◌∷◌ c s))
]

-- A front of the text, if one is found, and what is behind it.
abbrev pub Splits : String → Option (String × String) → Type 0
Splits s none = Unit
Splits s (some found) = (concat found.0 found.1 ≡ s) × (1 ≤ chars found.0)

pub cons-Splits :
    (c : Char) (front rest s : String)
    → concat front rest ≡ s
    → (concat (String.◌∷◌ c front) rest ≡ String.◌∷◌ c s) × (1 ≤ chars (String.◌∷◌ c front))
cons-Splits c front rest s h = (cons_front c front rest s h, omega arith)

some_chars : (s : String) → s == "" ≡ false → 1 ≤ chars s
some_chars String.[] h = cc h
some_chars (String.◌∷◌ c s) h = omega arith

module _ (is_digit : ℕ → Bool) where
  with_fraction-append :
      (whole s : String)
      → concat (with_fraction is_digit whole s).0 (with_fraction is_digit whole s).1
        ≡ concat whole s
  unfolding with_fraction
  with_fraction-append whole String.[] = refl
  with_fraction-append whole (String.◌∷◌ c s) = elim (Bool-cases (eqb (code c) b'.')) [
    | inl e ↦ rw e (
        append_assoc whole (String.◌∷◌ c (span is_digit s).0) (span is_digit s).1
        ∙ ap (concat whole)
            (cons_front c (span is_digit s).0 (span is_digit s).1 s (span-append is_digit s)))
    | inr e ↦ rw e refl
  ]

  with_fraction-chars :
      (whole s : String) → 1 ≤ chars whole → 1 ≤ chars (with_fraction is_digit whole s).0
  unfolding with_fraction
  with_fraction-chars whole String.[] h = h
  with_fraction-chars whole (String.◌∷◌ c s) h = elim (Bool-cases (eqb (code c) b'.')) [
    | inl e ↦ rw e (omega (arith, chars-append whole (String.◌∷◌ c (span is_digit s).0)))
    | inr e ↦ rw e h
  ]

  decimal-Splits : (s : String) → Splits s (decimal is_digit s)
  unfolding decimal
  decimal-Splits s = elim (Bool-cases ((span is_digit s).0 == "")) [
    | inl e ↦ rw e tt
    | inr e ↦ rw e (
      with_fraction-append (span is_digit s).0 (span is_digit s).1 ∙ span-append is_digit s,
      with_fraction-chars (span is_digit s).0 (span is_digit s).1
          (some_chars (span is_digit s).0 e),
    )
  ]

  fraction-Splits : (s : String) → Splits s (fraction is_digit s)
  unfolding fraction
  fraction-Splits String.[] = tt
  fraction-Splits (String.◌∷◌ c s) =
      elim (Bool-cases (eqb (code c) b'.' && not ((span is_digit s).0 == ""))) [
        | inl e ↦
            rw e (cons-Splits c (span is_digit s).0 (span is_digit s).1 s (span-append is_digit s))
        | inr e ↦ rw e tt
      ]

  unsigned-Splits : (s : String) → Splits s (unsigned is_digit s)
  unfolding unsigned
  unsigned-Splits s = elim (Option-cases (decimal is_digit s)) [
    | inl e ↦ rw (e, Splits) (fraction-Splits s)
    | inr (found, e) ↦ rw (e, Splits) (subst (Splits s) e (decimal-Splits s))
  ]

  pub match_number-Splits : (s : String) → Splits s (match_number is_digit s)
  unfolding match_number
  match_number-Splits String.[] = tt
  match_number-Splits (String.◌∷◌ c s) = elim (Bool-cases (eqb (code c) b'-')) [
    | inr e ↦ rw e (unsigned-Splits (String.◌∷◌ c s))
    | inl e ↦ elim (Option-cases (unsigned is_digit s)) [
      | inl m ↦ rw (e, m) tt
      | inr (found, m) ↦
          rw (e, m) (cons-Splits c found.0 found.1 s (subst (Splits s) m (unsigned-Splits s)).0)
    ]
  ]

pub closing-Splits : (q : ℕ) (s : String) → Splits s (closing q s)
unfolding closing
closing-Splits q String.[] = tt
closing-Splits q (String.◌∷◌ c String.[]) = elim (Bool-cases (eqb (code c) q)) [
  | inl e ↦ rw e (cons-Splits c "" "" "" (nil-append ""))
  | inr e ↦ rw e tt
]
closing-Splits q (String.◌∷◌ c (String.◌∷◌ d s)) = elim (Bool-cases (eqb (code c) q)) [
  | inl e ↦ rw e (cons-Splits c "" (String.◌∷◌ d s) (String.◌∷◌ d s) (nil-append (String.◌∷◌ d s)))
  | inr e ↦ elim (Bool-cases (eqb (code c) 92)) [
    | inr plain ↦ elim (Option-cases (closing q (String.◌∷◌ d s))) [
      | inl m ↦ rw (e, plain, m) tt
      | inr (found, m) ↦
          rw (e, plain, m)
            (cons-Splits c found.0 found.1 (String.◌∷◌ d s)
              (subst (Splits (String.◌∷◌ d s)) m (closing-Splits q (String.◌∷◌ d s))).0)
    ]
    | inl escape ↦ elim (Bool-cases (eqb (code d) 10)) [
      | inl line ↦ rw (e, escape, line) tt
      | inr other ↦ elim (Option-cases (closing q s)) [
        | inl m ↦ rw (e, escape, other, m) tt
        | inr (found, m) ↦
            rw (e, escape, other, m)
              (cons-Splits c (String.◌∷◌ d (found.0)) found.1 (String.◌∷◌ d s)
                (cons-Splits d found.0 found.1 s (subst (Splits s) m (closing-Splits q s)).0).0)
      ]
    ]
  ]
]
