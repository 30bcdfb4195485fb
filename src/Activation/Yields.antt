-- ===== src/Activation/Yields.antt =====
-- Results of parsing that have a property, and those of the parser's steps that read no expression.
use vheatm.Prelude.{
  ℕ, ◌≤◌, ◌<◌, ◌≡◌, ◌≢◌, refl, String, Bool, true, false, not, Option-cases, arith, inl, inr,
  Outcome, ok, raised, ◌>>=◌, if◌then◌else◌,
}
use vheatm.Activation.{ActivationError, out_of_fuel}
use vheatm.Activation.Token.{Token, Tokens, eof, token, op, lbracket, Kind}
use vheatm.Activation.Parser.{
  same_kind, is_word, is_kind, advance, expect, symbol_of, is_literal_word, count, parse_operator,
  symbol_operator,
}
use vheatm.Activation.Grammar.{OperatorText, symbol, one_word, two_words}

-- What is parsed has the property, with fewer than `n` tokens behind it; or the error is one of the
-- source's.
pub data Yields {A : Type 0} (P : A → Tokens → Type 0) (n : ℕ)
    : Outcome ActivationError (A × Tokens) → Type 0 where
  yields : {a : A} {rest : Tokens} → P a rest → count rest < n → Yields P n (ok (a, rest))
  fails : {e : ActivationError} → e ≢ out_of_fuel → Yields P n (raised e)

pub Yields-bind :
    {A B : Type 0} {P : A → Tokens → Type 0} {Q : B → Tokens → Type 0} {n m : ℕ}
    {step : Outcome ActivationError (A × Tokens)}
    (rest : A × Tokens → Outcome ActivationError (B × Tokens))
    → Yields P n step
    → ((a : A) (ts : Tokens) → P a ts → count ts < n → Yields Q m (rest (a, ts)))
    → Yields Q m (step >>= rest)
Yields-bind rest (fails e) k = fails e
Yields-bind rest (yields p b) k = k _ _ p b

pub Yields-if :
    {A : Type 0} {P : A → Tokens → Type 0} {n : ℕ} {x y : Outcome ActivationError (A × Tokens)}
    (b : Bool)
    → (b ≡ true → Yields P n x)
    → (b ≡ false → Yields P n y)
    → Yields P n (if b then x else y)
Yields-if true f g = f refl
Yields-if false f g = g refl

pub weaker :
    {A : Type 0} {P Q : A → Tokens → Type 0} {n m : ℕ} (o : Outcome ActivationError (A × Tokens))
    → Yields P n o
    → ((a : A) (ts : Tokens) → P a ts → count ts < n → Q a ts × (count ts < m))
    → Yields Q m o
weaker _ (fails e) k = fails e
weaker _ (yields p b) k = let r = k _ _ p b in yields r.0 r.1

pub is_word-count : (w : String) (ts : Tokens) → is_word w ts ≡ true → count (advance ts) < count ts
unfolding is_word
is_word-count w (eof n) h = cc h
is_word-count w (token t ts) h = omega arith

pub is_kind-count : (k : Kind) (ts : Tokens) → is_kind k ts ≡ true → count (advance ts) < count ts
unfolding is_kind
is_kind-count k (eof n) h = cc h
is_kind-count k (token t ts) h = omega arith

pub count_pos : (ts : Tokens) → 1 ≤ count ts
count_pos (eof n) = omega arith
count_pos (token t ts) = omega arith

pub literal_word-count : (ts : Tokens) → is_literal_word ts ≡ true → count (advance ts) < count ts
unfolding is_word
literal_word-count (eof n) h = cc h
literal_word-count (token t ts) h = omega arith

pub expect-Yields :
    (k : Kind) (ts : Tokens)
    → Yields
        (λ t rest.
          (ts ≡ token t rest)
          × (same_kind t.kind k ≡ true)
          × (rest ≡ advance ts)
          × (is_kind k ts ≡ true))
        (count ts)
        (expect k ts)
unfolding expect is_kind
expect-Yields k (eof n) = fails (λ h. cc)
expect-Yields k (token t ts) =
    Yields-if (same_kind t.kind k) (λ e. yields (refl, e, refl, e) (omega arith))
      (λ e. fails (λ h. cc))

symbol-Yields : (ts : Tokens) → Yields (OperatorText ts) (count ts) (symbol_operator ts)
unfolding symbol_operator
symbol-Yields (eof n) = fails (λ h. cc)
symbol-Yields (token t rest) =
    Yields-if (same_kind t.kind op)
      (λ e. elim (Option-cases (symbol_of t.value)) [
        | inl none_fits ↦ rw none_fits (fails (λ h. cc))
        | inr (o, found) ↦ rw found (yields (symbol e found) (omega arith))
      ])
      (λ e. fails (λ h. cc))

pub opened :
    (t : Token) (rest : Tokens)
    → not (same_kind t.kind lbracket) ≡ false
    → is_kind lbracket (token t rest) ≡ true
unfolding is_kind
opened t rest h = ground arith

pub parse_operator-Yields : (ts : Tokens) → Yields (OperatorText ts) (count ts) (parse_operator ts)
unfolding parse_operator
parse_operator-Yields ts =
    Yields-if (is_word "in" ts) (λ e. yields (one_word e) (is_word-count "in" ts e))
      (λ e.
        Yields-if (is_word "not" ts)
          (λ f.
            Yields-if (is_word "in" (advance ts))
              (λ g.
                yields (two_words f g)
                  (omega (arith, is_word-count "not" ts f, is_word-count "in" (advance ts) g)))
              (λ g. fails (λ h. cc)))
          (λ f. symbol-Yields ts))
