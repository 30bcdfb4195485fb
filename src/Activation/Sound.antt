-- ===== src/Activation/Sound.antt =====
-- The parser ends and yields what the grammar says.
use mathlib.Core.List.{append_assoc}
use vheatm.Prelude.{
  ok_inj, ℕ, zero, suc, ◌+◌, ◌*◌, ◌≤◌, ◌<◌, ◌≡◌, ◌≢◌, refl, sym, ap, ◌∙◌, subst, String, Bool, true,
  false, not, Bool-cases, Option, none, some, List, [], ◌∷◌, ◌++◌, arith, has, inl, inr, Outcome,
  Outcome-cases, ok, raised, strip, ◌==◌, ◌>>=◌, ◌>>◌, guard, if◌then◌else◌,
}
use vheatm.Json.{Json}
use vheatm.Activation.{
  Expr, Value, and, or, literal, boolean_operation, comparison, ActivationError, out_of_fuel,
  reserved_keyword,
}
use vheatm.Activation.Positions.{IsTokenized, tokenize-IsTokenized}
use vheatm.Activation.Token.{
  tokenize, Token, Tokens, eof, token, lparen, rparen, lbracket, rbracket, comma, ident,
}
use vheatm.Activation.Parser.{
  Reader, same_kind, is_word, is_kind, advance, expect, read_literal, literal_only, is_literal_word,
  count, parse_value, parse_items, parse_comparison, parse_primary, parse_and, and_more, parse_or,
  or_more, parse, at_end, compile_activation,
}
use vheatm.Activation.Grammar.{
  ItemsText, last, next, ValueText, scalar, empty_list, full_list, Disjunction, Conjunction,
  Primary, one_conjunction, or_conjunction, one_primary, and_primary, parentheses, literal_word,
  compared,
}
use vheatm.Activation.Yields.{
  Yields, yields, fails, Yields-bind, Yields-if, weaker, is_word-count, is_kind-count, count_pos,
  literal_word-count, expect-Yields, opened, parse_operator-Yields,
}

module _ (R : Reader) where
  read_literal-ends : (t : Token) → read_literal R t ≢ some (raised out_of_fuel)
  unfolding read_literal
  read_literal-ends t h = ground arith

  value-Yields :
      (t : Token) (rest : Tokens) (found : Option (Outcome ActivationError Json))
      (list : Outcome ActivationError (Value × Tokens))
      → read_literal R t ≡ found
      → Yields (ValueText R (token t rest)) (suc (count rest)) list
      → Yields
          (ValueText R (token t rest))
          (suc (count rest))
          (elim found [ some r ↦ (r >>= λ v. ok (literal v, rest)) | none ↦ list ])
  value-Yields t rest none list e y = y
  value-Yields t rest (some (ok v)) list e y = yields (scalar e) (omega arith)
  value-Yields t rest (some (raised error)) list e y =
      fails (λ h. read_literal-ends t (e ∙ ap (λ z. some (raised z)) h))

  -- Some items, and those that a text holds behind them.
  abbrev IsExtended : List Json → Tokens → List Json → Tokens → Type 0
  IsExtended items ts all rest = (vs : List Json) × (all ≡ items ++ vs) × ItemsText R ts vs rest

  items-Yields :
      (items : List Json) (ts : Tokens) (v : Value) (mid : Tokens)
      (later : List Json → Outcome ActivationError (List Json × Tokens))
      → ValueText R ts v mid
      → count mid < count ts
      → ((more : List Json)
          → is_kind comma mid ≡ true
          → Yields (IsExtended more (advance mid)) (count (advance mid)) (later more))
      → Yields (IsExtended items ts) (count ts) (
          literal_only v >>= λ item.
          if is_kind comma mid
          then later (items ++ item ∷ [])
          else (expect rbracket mid >>= λ closed. ok (items ++ item ∷ [], closed.1)))
  items-Yields items ts v mid later (empty_list e f) b next_items = fails (λ h. cc)
  items-Yields items ts v mid later (full_list e is) b next_items = fails (λ h. cc)
  items-Yields items ts v mid later (scalar {t} {rest} {v = j} e) b next_items =
      Yields-if (is_kind comma mid)
        (λ f. weaker _ (next_items (items ++ j ∷ []) f) λ all rest' p m. (
          (j ∷ p.0, p.1 ∙ append_assoc items (j ∷ []) p.0, next e f p.2),
          omega (arith, is_kind-count comma mid f),
        ))
        (λ f. Yields-bind _ (expect-Yields rbracket mid) λ closing rest' p m.
          yields (j ∷ [], refl, subst (ItemsText R (token t mid) (j ∷ [])) (sym p.2) (last e p.3))
            (omega arith))

  mutual
    unfolding parse_value

    parse_value-Yields :
        (fuel : ℕ) (ts : Tokens)
        → 2 * count ts ≤ fuel
        → Yields (ValueText R ts) (count ts) (parse_value R fuel ts)
    parse_value-Yields zero ts b = absurd (omega (arith, count_pos ts))
    parse_value-Yields (suc fuel) (eof n) b = fails (λ h. cc)
    parse_value-Yields (suc fuel) (token t rest) b = value-Yields t rest (read_literal R t) _ refl (
        Yields-if (not (same_kind t.kind lbracket)) (λ e. fails (λ h. cc))
          (λ e.
            Yields-if (is_kind rbracket rest)
              (λ f.
                yields (empty_list (opened t rest e) f)
                  (omega (arith, is_kind-count rbracket rest f)))
              (λ f. Yields-bind _ (parse_items-Yields fuel [] rest (omega arith)) λ all mid p m.
                yields
                  (full_list (opened t rest e) (subst (λ z. ItemsText R rest z mid) (sym p.1) p.2))
                  (omega arith))))

    parse_items-Yields :
        (fuel : ℕ) (items : List Json) (ts : Tokens)
        → 2 * count ts + 1 ≤ fuel
        → Yields (IsExtended items ts) (count ts) (parse_items R fuel items ts)
    parse_items-Yields zero items ts b = absurd (omega arith)
    parse_items-Yields (suc fuel) items ts b =
        Yields-bind _ (parse_value-Yields fuel ts (omega arith)) λ v mid p m.
          items-Yields items ts v mid (λ more. parse_items R fuel more (advance mid)) p m
            (λ more f.
              parse_items-Yields fuel more (advance mid) (omega (arith, is_kind-count comma mid f)))

  guard-Yields :
      {A : Type 0} {P : A → Tokens → Type 0} {n : ℕ} (b : Bool) (e : ActivationError)
      {rest : Outcome ActivationError (A × Tokens)}
      → e ≢ out_of_fuel
      → (b ≡ true → Yields P n rest)
      → Yields P n (guard b e >> rest)
  guard-Yields true e n y = y refl
  guard-Yields false e n y = fails n

  parse_comparison-Yields :
      (fuel : ℕ) (ts : Tokens)
      → is_literal_word ts ≡ false
      → 2 * count ts ≤ fuel + 2
      → Yields (Primary R ts) (count ts) (parse_comparison R fuel ts)
  unfolding parse_comparison
  parse_comparison-Yields fuel ts w b = Yields-bind _ (expect-Yields ident ts) λ t rest p m.
      guard-Yields (not (has ("and" ∷ "or" ∷ "in" ∷ "not" ∷ []) t.value)) (reserved_keyword t.value)
        (λ h. cc)
        λ free. Yields-bind _ (parse_operator-Yields rest) λ o mid q n.
          Yields-bind _ (parse_value-Yields fuel mid (omega arith)) λ v end r k.
            yields
              (subst (λ z. Primary R z (comparison t.value o v) end) (sym p.0)
                (compared p.1 (subst (λ z. is_literal_word z ≡ false) p.0 w) (ground arith) q r))
              (omega arith)

  mutual
    unfolding parse_primary

    parse_primary-Yields :
        (fuel : ℕ) (ts : Tokens)
        → 4 * count ts ≤ fuel + 2
        → Yields (Primary R ts) (count ts) (parse_primary R fuel ts)
    parse_primary-Yields zero ts b = absurd (omega (arith, count_pos ts))
    parse_primary-Yields (suc fuel) ts b =
        Yields-if (is_kind lparen ts)
          (λ e.
            let shorter = is_kind-count lparen ts e in
            Yields-bind _ (parse_or-Yields fuel (advance ts) (omega arith)) λ inner mid p m.
              Yields-bind _ (expect-Yields rparen mid) λ closing rest q n.
                yields (subst (Primary R ts inner) (sym q.2) (parentheses e p q.3)) (omega arith))
          (λ e.
            Yields-if (is_literal_word ts) (λ f. yields (literal_word f) (literal_word-count ts f))
              (λ f. parse_comparison-Yields fuel ts f (omega (arith, count_pos ts))))

    parse_and-Yields :
        (fuel : ℕ) (ts : Tokens)
        → 4 * count ts ≤ fuel + 1
        → Yields (Conjunction R ts) (count ts) (parse_and R fuel ts)
    parse_and-Yields zero ts b = absurd (omega (arith, count_pos ts))
    parse_and-Yields (suc fuel) ts b =
        Yields-bind _ (parse_primary-Yields fuel ts (omega arith))
          λ left mid p m. and_more-Yields fuel ts left mid (one_primary p) m (omega arith)

    and_more-Yields :
        (fuel : ℕ) (ts : Tokens) (left : Expr) (mid : Tokens)
        → Conjunction R ts left mid
        → count mid < count ts
        → 4 * count mid ≤ fuel
        → Yields (Conjunction R ts) (count ts) (and_more R fuel left mid)
    and_more-Yields zero ts left mid p m b = absurd (omega (arith, count_pos mid))
    and_more-Yields (suc fuel) ts left mid p m b =
        Yields-if (is_word "and" mid)
          (λ e.
            let shorter = is_word-count "and" mid e in
            Yields-bind _ (parse_primary-Yields fuel (advance mid) (omega arith)) λ right rest q n.
              and_more-Yields fuel ts (boolean_operation and left right) rest (and_primary p e q)
                (omega arith) (omega arith))
          (λ e. yields p m)

    parse_or-Yields :
        (fuel : ℕ) (ts : Tokens)
        → 4 * count ts ≤ fuel
        → Yields (Disjunction R ts) (count ts) (parse_or R fuel ts)
    parse_or-Yields zero ts b = absurd (omega (arith, count_pos ts))
    parse_or-Yields (suc fuel) ts b =
        Yields-bind _ (parse_and-Yields fuel ts (omega arith))
          λ left mid p m. or_more-Yields fuel ts left mid (one_conjunction p) m (omega arith)

    or_more-Yields :
        (fuel : ℕ) (ts : Tokens) (left : Expr) (mid : Tokens)
        → Disjunction R ts left mid
        → count mid < count ts
        → 4 * count mid ≤ fuel
        → Yields (Disjunction R ts) (count ts) (or_more R fuel left mid)
    or_more-Yields zero ts left mid p m b = absurd (omega (arith, count_pos mid))
    or_more-Yields (suc fuel) ts left mid p m b =
        Yields-if (is_word "or" mid)
          (λ e.
            let shorter = is_word-count "or" mid e in
            Yields-bind _ (parse_and-Yields fuel (advance mid) (omega arith)) λ right rest q n.
              or_more-Yields fuel ts (boolean_operation or left right) rest (or_conjunction p e q)
                (omega arith) (omega arith))
          (λ e. yields p m)

-- What a compiled expression says by the grammar.
abbrev pub IsGrammatical : Reader → String → Expr → Type 0
IsGrammatical R expression e =
    (ts : Tokens) × (n : ℕ) × (tokenize R.is_digit (strip expression) ≡ ok ts)
    × Disjunction R ts e (eof n)

module _ (R : Reader) where
  parse-Disjunction :
      (ts : Tokens)
      → (parse R ts ≢ raised out_of_fuel)
        × ((e : Expr) → parse R ts ≡ ok e → (n : ℕ) × Disjunction R ts e (eof n))
  unfolding parse
  parse-Disjunction ts = ended _ (parse_or-Yields R (4 * count ts) ts (omega arith))
    where
      ended :
          (o : Outcome ActivationError (Expr × Tokens))
          → Yields (Disjunction R ts) (count ts) o
          → ((o >>= at_end) ≢ raised out_of_fuel)
            × ((e : Expr) → (o >>= at_end) ≡ ok e → (n : ℕ) × Disjunction R ts e (eof n))
      ended _ (fails f) = (λ h. f (cc h), λ e h. cc h)
      ended _ (yields {a} {rest = eof n} p b) =
          (λ h. cc h, λ e h. (n, subst (λ z. Disjunction R ts z (eof n)) (ok_inj h) p))
      ended _ (yields {a} {rest = token t rest} p b) = (λ h. cc h, λ e h. cc h)

  pub compile_activation-IsGrammatical :
      (expression : String)
      → (compile_activation R expression ≢ raised out_of_fuel)
        × ((e : Expr) → compile_activation R expression ≡ ok e → IsGrammatical R expression e)
  unfolding compile_activation
  compile_activation-IsGrammatical expression = elim (Bool-cases (strip expression == "")) [
    | inl empty ↦ rw empty (λ h. cc h, λ e h. cc h)
    | inr full ↦ elim (Outcome-cases (tokenize R.is_digit (strip expression))) [
      | inr (error, s) ↦
          let (n, at, inside) =
            subst (IsTokenized (strip expression)) s
              (tokenize-IsTokenized R.is_digit (strip expression)) in
          rw (full, s, at) (λ h. cc h, λ e h. cc h)
      | inl (ts, s) ↦
          let (ends, sound) = parse-Disjunction ts in
          rw (full, s) (ends, λ e h. let (n, d) = sound e h in (ts, n, refl, d))
    ]
  ]

  -- Compiling an expression ends, whatever the text: neither the tokenizer nor the parser runs out of
  -- the fuel that it is given.
  pub compile_activation-ends :
      (expression : String) → compile_activation R expression ≢ raised out_of_fuel
  compile_activation-ends expression = (compile_activation-IsGrammatical expression).0
