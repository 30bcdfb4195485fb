-- ===== src/Activation/Complete.antt =====
-- Each expression of the grammar is compiled, to what the grammar says.
use mathlib.Core.List.{append_assoc}
use vheatm.Prelude.{
  ℕ, zero, suc, ◌+◌, ◌*◌, ◌≤◌, ◌<◌, ◌≡◌, refl, ap, ◌∙◌, true, false, Bool-cases, Option, none, some,
  List, [], ◌∷◌, ◌++◌, arith, has, inl, inr, Outcome, ok, ◌>>=◌,
}
use vheatm.Json.{Json}
use vheatm.Activation.{
  Expr, Value, Operator, and, or, literal, boolean_operation, comparison, ActivationError,
}
use vheatm.Activation.Token.{
  Token, Tokens, eof, token, lparen, rparen, lbracket, rbracket, comma, ident,
}
use vheatm.Activation.Parser.{
  Reader, same_kind, is_word, is_kind, advance, read_literal, is_literal_word, count, parse_value,
  parse_items, parse_comparison, parse_primary, parse_and, and_more, parse_or, or_more,
}
use vheatm.Activation.Grammar.{
  OperatorText, ItemsText, last, next, ValueText, scalar, empty_list, full_list, Disjunction,
  Conjunction, Primary, one_conjunction, or_conjunction, one_primary, and_primary, parentheses,
  literal_word, compared,
}
use vheatm.Activation.Yields.{is_word-count, is_kind-count, literal_word-count, count_pos}
use vheatm.Activation.Words.{
  same_kind-eq, kind_is, word_is, no_word, expect_found, OperatorText-count, operator_found,
}

chosen :
    (found : Option (Outcome ActivationError Json))
    (list : Outcome ActivationError (Value × Tokens)) (rest : Tokens) (v : Json)
    → found ≡ some (ok v)
    → elim found as (λ _. Outcome ActivationError (Value × Tokens)) [
      | some r ↦ (r >>= λ w. ok (literal w, rest))
      | none ↦ list
    ]
      ≡ ok (literal v, rest)
chosen found list rest v e = rw e refl

no_scalar :
    (found : Option (Outcome ActivationError Json))
    (list : Outcome ActivationError (Value × Tokens)) (rest : Tokens)
    → found ≡ none
    → elim found as (λ _. Outcome ActivationError (Value × Tokens)) [
      | some r ↦ (r >>= λ w. ok (literal w, rest))
      | none ↦ list
    ]
      ≡ list
no_scalar found list rest e = rw e refl

module _ (R : Reader) where
  ItemsText-count :
      {ts rest : Tokens} {vs : List Json} → ItemsText R ts vs rest → count rest < count ts
  ItemsText-count (last {mid} e f) = omega (arith, is_kind-count rbracket mid f)
  ItemsText-count (next {mid} e f is) = omega (arith, is_kind-count comma mid f, ItemsText-count is)

  ValueText-count : {ts rest : Tokens} {v : Value} → ValueText R ts v rest → count rest < count ts
  ValueText-count (scalar e) = omega arith
  ValueText-count (empty_list {ts} e f) =
      omega (arith, is_kind-count lbracket ts e, is_kind-count rbracket (advance ts) f)
  ValueText-count (full_list {ts} e is) =
      omega (arith, is_kind-count lbracket ts e, ItemsText-count is)

  mutual
    Disjunction-count :
        {ts rest : Tokens} {e : Expr} → Disjunction R ts e rest → count rest < count ts
    Disjunction-count (one_conjunction c) = Conjunction-count c
    Disjunction-count (or_conjunction {mid} d w c) =
        omega (arith, Disjunction-count d, is_word-count "or" mid w, Conjunction-count c)

    Conjunction-count :
        {ts rest : Tokens} {e : Expr} → Conjunction R ts e rest → count rest < count ts
    Conjunction-count (one_primary p) = Primary-count p
    Conjunction-count (and_primary {mid} c w p) =
        omega (arith, Conjunction-count c, is_word-count "and" mid w, Primary-count p)

    Primary-count : {ts rest : Tokens} {e : Expr} → Primary R ts e rest → count rest < count ts
    Primary-count (parentheses {ts} {mid} e d f) =
        omega (arith, is_kind-count lparen ts e, Disjunction-count d, is_kind-count rparen mid f)
    Primary-count (literal_word {ts} e) = literal_word-count ts e
    Primary-count (compared e f g o v) = omega (arith, OperatorText-count o, ValueText-count v)

  value_scalar :
      (fuel : ℕ) (t : Token) (rest : Tokens) (v : Json)
      → read_literal R t ≡ some (ok v)
      → parse_value R (suc fuel) (token t rest) ≡ ok (literal v, rest)
  unfolding parse_value
  value_scalar fuel t rest v e = chosen (read_literal R t) _ rest v e

  mutual
    unfolding parse_value

    items_found :
        (fuel : ℕ) (items : List Json) {ts rest : Tokens} {vs : List Json}
        → ItemsText R ts vs rest
        → 2 * count ts ≤ fuel
        → parse_items R (suc fuel) items ts ≡ ok (items ++ vs, rest)
    items_found zero items (last e f) b = absurd (omega arith)
    items_found zero items (next e f is) b = absurd (omega arith)
    items_found (suc fuel) items (last {t} {mid} {v} e f) b =
        let (closing, x) = expect_found rbracket mid f in
        rw (value_scalar fuel t mid v e, kind_is rbracket comma mid f refl, x) refl
    items_found (suc fuel) items (next {t} {mid} {rest} {v} {vs} e f is) b =
        rw (value_scalar fuel t mid v e, f)
          (items_found fuel (items ++ v ∷ []) is (omega (arith, is_kind-count comma mid f))
            ∙ ap (λ z. ok (z, rest)) (append_assoc items (v ∷ []) vs))

  scalar_open :
      (t : Token) (ts : Tokens) (v : Json)
      → read_literal R t ≡ some (ok v)
      → is_kind rbracket (token t ts) ≡ false
  unfolding read_literal is_kind
  scalar_open t ts v e = elim (Bool-cases (same_kind t.kind rbracket)) [
    | inr other ↦ other
    | inl closing ↦ cc (rw (same_kind-eq t.kind rbracket closing) at e)
  ]

  -- The items of a list do not begin with its closing bracket.
  items_open :
      {ts rest : Tokens} {vs : List Json} → ItemsText R ts vs rest → is_kind rbracket ts ≡ false
  unfolding is_kind
  items_open (last {t} {mid} e f) = scalar_open t mid _ e
  items_open (next {t} {mid} e f is) = scalar_open t mid _ e

  bracket_scalar :
      (t : Token) (ts : Tokens) → is_kind lbracket (token t ts) ≡ true → read_literal R t ≡ none
  unfolding read_literal is_kind
  bracket_scalar t ts h = rw (same_kind-eq t.kind lbracket h) refl

  value_found :
      (fuel : ℕ) {ts rest : Tokens} {v : Value}
      → ValueText R ts v rest
      → 2 * count ts ≤ fuel + 1
      → parse_value R (suc fuel) ts ≡ ok (v, rest)
  unfolding parse_value is_kind
  value_found fuel (scalar {t} {rest} {v} e) b = value_scalar fuel t rest v e
  value_found fuel (empty_list {ts = eof n} e f) b = cc e
  value_found fuel (empty_list {ts = token t ts} e f) b =
      no_scalar (read_literal R t) _ ts (bracket_scalar t ts e) ∙ rw (e, f) refl
  value_found fuel (full_list {ts = eof n} e is) b = cc e
  value_found zero (full_list {ts = token t ts} e is) b = absurd (omega (arith, count_pos ts))
  value_found (suc fuel) (full_list {ts = token t ts} e is) b =
      no_scalar (read_literal R t) _ ts (bracket_scalar t ts e)
      ∙ rw (e, items_open is, items_found fuel [] is (omega arith)) refl

  comparison_found :
      (fuel : ℕ) (t : Token) {ts mid rest : Tokens} {o : Operator} {v : Value}
      → same_kind t.kind ident ≡ true
      → has ("and" ∷ "or" ∷ "in" ∷ "not" ∷ []) t.value ≡ false
      → OperatorText ts o mid
      → ValueText R mid v rest
      → 2 * count mid ≤ fuel + 1
      → parse_comparison R (suc fuel) (token t ts) ≡ ok (comparison t.value o v, rest)
  unfolding parse_comparison
  comparison_found fuel t {ts} {mid} {rest} {o} {v} e free q r b =
      rw (e, free, operator_found q, value_found fuel r b) refl

  and_stops :
      (fuel : ℕ) (e : Expr) (ts : Tokens)
      → is_word "and" ts ≡ false
      → 4 * count ts ≤ fuel
      → and_more R fuel e ts ≡ ok (e, ts)
  unfolding and_more
  and_stops zero e ts h b = absurd (omega (arith, count_pos ts))
  and_stops (suc fuel) e ts h b = rw h refl

  or_stops :
      (fuel : ℕ) (e : Expr) (ts : Tokens)
      → is_word "or" ts ≡ false
      → 4 * count ts ≤ fuel
      → or_more R fuel e ts ≡ ok (e, ts)
  unfolding or_more
  or_stops zero e ts h b = absurd (omega (arith, count_pos ts))
  or_stops (suc fuel) e ts h b = rw h refl

  identified_token :
      (t : Token) (ts : Tokens) → same_kind t.kind ident ≡ true → is_kind ident (token t ts) ≡ true
  unfolding is_kind
  identified_token t ts h = h

  literal_word_kind : (ts : Tokens) → is_literal_word ts ≡ true → is_kind lparen ts ≡ false
  unfolding is_word is_kind
  literal_word_kind (eof n) h = refl
  literal_word_kind (token t ts) h = elim (Bool-cases (same_kind t.kind lparen)) [
    | inr other ↦ other
    | inl opening ↦ cc (rw (same_kind-eq t.kind lparen opening) at h)
  ]

  and_step :
      {o : Outcome ActivationError (Expr × Tokens)} {rest : Tokens} {r : Expr} (l : Expr)
      (mid : Tokens)
      → is_word "and" mid ≡ true
      → count rest < count (advance mid)
      → ((g : ℕ)
          → 4 * count (advance mid) ≤ g + 3
          → parse_primary R (suc g) (advance mid) ≡ ok (r, rest))
      → (f : ℕ) × (4 * count mid ≤ f) × (o ≡ and_more R f l mid)
      → (f : ℕ) × (4 * count rest ≤ f) × (o ≡ and_more R f (boolean_operation and l r) rest)
  unfolding and_more
  and_step l mid w m p (zero, b, e) = absurd (omega (arith, count_pos mid))
  and_step l mid w m p (suc zero, b, e) = absurd (omega (arith, count_pos mid))
  and_step l mid w m p (suc (suc f), b, e) =
      let shorter = is_word-count "and" mid w in
      (suc f, omega arith, e ∙ rw (w, p f (omega arith)) refl)

  or_step :
      {o : Outcome ActivationError (Expr × Tokens)} (rest : Tokens) (r l : Expr) (mid : Tokens)
      → is_word "or" mid ≡ true
      → count rest < count (advance mid)
      → is_word "and" rest ≡ false
      → ((g : ℕ)
          → 4 * count (advance mid) ≤ g + 2
          → (f : ℕ) × (4 * count rest ≤ f)
            × (parse_and R (suc g) (advance mid) ≡ and_more R f r rest))
      → (f : ℕ) × (4 * count mid ≤ f) × (o ≡ or_more R f l mid)
      → (f : ℕ) × (4 * count rest ≤ f) × (o ≡ or_more R f (boolean_operation or l r) rest)
  unfolding or_more
  or_step rest r l mid w m a c (zero, b, e) = absurd (omega (arith, count_pos mid))
  or_step rest r l mid w m a c (suc zero, b, e) = absurd (omega (arith, count_pos mid))
  or_step rest r l mid w m a c (suc (suc f), b, e) =
      let shorter = is_word-count "or" mid w in
      let (g, d, q) = c f (omega arith) in
      (suc f, omega arith, e ∙ rw (w, q, and_stops g r rest a d) refl)

  mutual
    unfolding parse_primary

    Primary-found :
        (fuel : ℕ) {ts rest : Tokens} {e : Expr}
        → Primary R ts e rest
        → 4 * count ts ≤ fuel + 3
        → parse_primary R (suc fuel) ts ≡ ok (e, rest)
    Primary-found fuel (parentheses {ts} {mid} {e} opening d close) b =
        let (closing, x) = expect_found rparen mid close in
        let (f, c, q) =
          or_reached fuel d (no_word rparen "and" mid close refl)
            (omega (arith, is_kind-count lparen ts opening)) in
        rw (opening, q, or_stops f e mid (no_word rparen "or" mid close refl) c, x) refl
    Primary-found fuel (literal_word {ts} w) b = rw (literal_word_kind ts w, w) refl
    Primary-found zero (compared {t} {ts} e w free o v) b =
        absurd (omega (arith, OperatorText-count o, count_pos ts))
    Primary-found (suc fuel) (compared {t} {ts} e w free o v) b =
        rw (kind_is ident lparen (token t ts) (identified_token t ts e) refl, w)
          (comparison_found fuel t e free o v (omega (arith, OperatorText-count o)))

    -- A conjunction so far is what the loop holds when it stands behind it.
    and_found :
        (fuel : ℕ) {ts mid : Tokens} {e : Expr}
        → Conjunction R ts e mid
        → 4 * count ts ≤ fuel + 2
        → (f : ℕ) × (4 * count mid ≤ f) × (parse_and R (suc fuel) ts ≡ and_more R f e mid)
    and_found zero (one_primary {ts} p) b = absurd (omega (arith, count_pos ts))
    and_found (suc fuel) (one_primary {ts} {rest} {e} p) b =
        (suc fuel, omega (arith, Primary-count p), rw (Primary-found fuel p (omega arith)) refl)
    and_found fuel (and_primary {mid} {rest} {l} {r} c w p) b =
        and_step l mid w (Primary-count p) (λ g. Primary-found g p) (and_found fuel c b)

    -- A disjunction so far, of which the last conjunction has ended.
    or_reached :
        (fuel : ℕ) {ts mid : Tokens} {e : Expr}
        → Disjunction R ts e mid
        → is_word "and" mid ≡ false
        → 4 * count ts ≤ fuel
        → (f : ℕ) × (4 * count mid ≤ f) × (parse_or R fuel ts ≡ or_more R f e mid)
    or_reached zero {ts} d a b = absurd (omega (arith, count_pos ts))
    or_reached (suc zero) {ts} d a b = absurd (omega (arith, count_pos ts))
    or_reached (suc (suc fuel)) (one_conjunction {ts} {rest} {e} c) a b =
        let (f, d, q) = and_found fuel c (omega arith) in
        (suc fuel, omega (arith, Conjunction-count c), rw (q, and_stops f e rest a d) refl)
    or_reached (suc (suc fuel)) (or_conjunction {mid} {rest} {l} {r} d w c) a b =
        or_step rest r l mid w (Conjunction-count c) a (λ g. and_found g c)
          (or_reached (suc (suc fuel)) d (word_is "or" "and" mid w refl) b)
