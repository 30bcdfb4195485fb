-- ===== src/Activation/Positions.antt =====
-- Where the tokens of an expression stand in it, and that the tokenizer ends.
use Prim.Native.String.{◌++◌ as concat}
use text.Mathlib.TextLemmas.{append_assoc, nil-append}
use vheatm.Prelude.{
  chars, ℕ, zero, suc, ◌+◌, ◌≤◌, ◌<◌, ◌≡◌, refl, sym, ap, ◌∙◌, subst, String, Bool, true, false,
  ◌&&◌, ◌||◌, Option, none, some, Option-cases, Bool-cases, inl, inr, arith, eqb, leb, Char, code,
  is_space, Outcome, ok, raised, ◌>>=◌, if◌then◌else◌,
}
use vheatm.Activation.{ActivationError, syntax}
use vheatm.Activation.Token.{
  Token, Tokens, Match, eof, token, span, closing, match_number, match_sign, two_signs, one_sign,
  sign_kind, op, match_token, tokenize_from, tokenize, is_letter, with_token, is_gap,
}
use vheatm.Activation.Fronts.{
  chars-append, cons_front, span-append, Splits, cons-Splits, match_number-Splits, closing-Splits,
}

-- What is matched is a front of the text, of at least one character.
abbrev IsFront : String → Option Match → Type 0
IsFront s none = Unit
IsFront s (some m) = (concat m.value m.rest ≡ s) × (1 ≤ chars m.value)

IsFront-if :
    (s : String) (b : Bool) (x y : Option Match)
    → IsFront s x
    → IsFront s y
    → IsFront s (if b then x else y)
IsFront-if s true x y f g = f
IsFront-if s false x y f g = g

IsFront-or :
    (s : String) (x y : Option Match)
    → IsFront s x
    → IsFront s y
    → IsFront s (elim x [ some found ↦ some found | none ↦ y ])
IsFront-or s none y f g = g
IsFront-or s (some m) y f g = f

two_signs-IsFront : (c : Char) (s : String) → IsFront (String.◌∷◌ c s) (two_signs c s)
unfolding two_signs
two_signs-IsFront c String.[] = tt
two_signs-IsFront c (String.◌∷◌ d s) =
    IsFront-if (String.◌∷◌ c (String.◌∷◌ d s)) (eqb (code d) b'=') _ none
      (cons-Splits c (String.◌∷◌ d "") s (String.◌∷◌ d s) (cons_front d "" s s (nil-append s))) tt

match_sign-IsFront : (c : Char) (s : String) → IsFront (String.◌∷◌ c s) (match_sign c s)
unfolding match_sign
match_sign-IsFront c s = elim (Bool-cases (eqb (code c) b'=' || eqb (code c) b'!')) [
  | inl e ↦ rw e (two_signs-IsFront c s)
  | inr e ↦ elim (Bool-cases (eqb (code c) b'>' || eqb (code c) b'<')) [
    | inl f ↦
        rw (e, f)
          (IsFront-or (String.◌∷◌ c s) (two_signs c s) (one_sign op c s) (two_signs-IsFront c s)
            (cons-Splits c "" s s (nil-append s)))
    | inr f ↦ elim (Option-cases (sign_kind c)) [
      | inl m ↦ rw (e, f, m) tt
      | inr (k, m) ↦ rw (e, f, m) (cons-Splits c "" s s (nil-append s))
    ]
  ]
]

module _ (is_digit : ℕ → Bool) where
  match_token-IsFront : (s : String) → IsFront s (match_token is_digit s)
  unfolding match_token
  match_token-IsFront String.[] = tt
  match_token-IsFront (String.◌∷◌ c s) = elim (Bool-cases (is_space (code c))) [
    | inl e ↦
        rw e (cons-Splits c (span is_space s).0 (span is_space s).1 s (span-append is_space s))
    | inr e ↦ elim (Option-cases (match_number is_digit (String.◌∷◌ c s))) [
      | inr (found, m) ↦
          rw (e, m)
            (subst (Splits (String.◌∷◌ c s)) m (match_number-Splits is_digit (String.◌∷◌ c s)))
      | inl m ↦ elim (Bool-cases (eqb (code c) 39 || eqb (code c) 34)) [
        | inl quoted ↦ elim (Option-cases (closing (code c) s)) [
          | inl n ↦ rw (e, m, quoted, n) tt
          | inr (found, n) ↦
              rw (e, m, quoted, n)
                (cons-Splits c found.0 found.1 s (subst (Splits s) n (closing-Splits (code c) s)).0)
        ]
        | inr other ↦ elim (Bool-cases (is_letter (code c))) [
          | inl letter ↦
              let p : ℕ → Bool = λ d. is_letter d || leb 48 d && leb d 57 in
              rw (e, m, other, letter) (cons-Splits c (span p s).0 (span p s).1 s (span-append p s))
          | inr sign ↦ rw (e, m, other, sign) (match_sign-IsFront c s)
        ]
      ]
    ]
  ]

-- The token's text stands at the token's offset.
abbrev pub StandsIn : String → Token → Type 0
StandsIn expression t =
    (before : String) × (after : String) × (expression ≡ concat before (concat t.value after))
    × (chars before ≡ t.offset)

abbrev pub AllStandIn : String → Tokens → Type 0
AllStandIn expression (eof n) = n ≡ chars expression
AllStandIn expression (token t ts) = StandsIn expression t × AllStandIn expression ts

-- Tokens that stand in the expression, or the offset in it of what is no token.
abbrev pub IsTokenized : String → Outcome ActivationError Tokens → Type 0
IsTokenized expression (ok ts) = AllStandIn expression ts
IsTokenized expression (raised e) = (n : ℕ) × (e ≡ syntax n) × (n < chars expression)

module _ (is_digit : ℕ → Bool) (expression : String) where
  IsTokenized-with_token :
      (m : Match) (offset : ℕ) (later : Outcome ActivationError Tokens)
      → StandsIn expression (record { kind = m.kind; value = m.value; offset = offset })
      → IsTokenized expression later
      → IsTokenized expression (later >>= λ ts. ok (with_token m offset ts))
  IsTokenized-with_token m offset (raised e) at l = l
  IsTokenized-with_token m offset (ok ts) at l = elim (Bool-cases (is_gap m.kind)) [
    | inl gap ↦ rw gap l
    | inr kept ↦ rw kept (at, l)
  ]

  tokenize_from-IsTokenized :
      (fuel offset : ℕ) (before s : String)
      → expression ≡ concat before s
      → chars before ≡ offset
      → chars s ≤ fuel
      → IsTokenized expression (tokenize_from is_digit fuel offset s)
  unfolding tokenize_from
  tokenize_from-IsTokenized fuel offset before String.[] e at b =
      omega (arith, ap chars e, chars-append before "", at)
  tokenize_from-IsTokenized zero offset before (String.◌∷◌ c s) e at b = absurd (omega arith)
  tokenize_from-IsTokenized (suc fuel) offset before (String.◌∷◌ c s) e at b =
      elim (Option-cases (match_token is_digit (String.◌∷◌ c s))) [
        | inl none_fits ↦
            rw (none_fits, IsTokenized)
              (offset, refl, omega (arith, ap chars e, chars-append before (String.◌∷◌ c s), at))
        | inr (m, found) ↦
            let (split, some_matched) =
              subst (IsFront (String.◌∷◌ c s)) found
                (match_token-IsFront is_digit (String.◌∷◌ c s)) in
            rw (found, IsTokenized)
              (IsTokenized-with_token m offset
                (tokenize_from is_digit fuel (offset + chars m.value) m.rest)
                (before, m.rest, e ∙ ap (concat before) (sym split), at)
                (tokenize_from-IsTokenized fuel (offset + chars m.value) (concat before m.value)
                  m.rest
                  (e ∙ ap (concat before) (sym split) ∙ sym (append_assoc before m.value m.rest))
                  (omega (arith, chars-append before m.value, at))
                  (omega (arith, chars-append m.value m.rest, ap chars split, some_matched))))
      ]

  -- The tokenizer yields tokens whose texts stand in the expression at the tokens' offsets, with the
  -- end of the tokens at the length of the expression, or it raises a syntax error with an offset
  -- inside the expression; so it never runs out of fuel.
  pub tokenize-IsTokenized : IsTokenized expression (tokenize is_digit expression)
  unfolding tokenize
  tokenize-IsTokenized =
      tokenize_from-IsTokenized (chars expression) 0 "" expression (sym (nil-append expression))
        refl (omega arith)
