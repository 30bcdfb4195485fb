-- ===== src/Activation/Parser.antt =====
-- `_Parser` and `compile_activation`. The tokens from `self.index` on are an argument and come back
-- with what is parsed; each call of a method costs a unit of fuel.
use vheatm.Prelude.{
  ℕ, zero, suc, ◌*◌, String, Bool, true, false, not, ◌&&◌, ◌||◌, Option, none, some, List, [], ◌∷◌,
  ◌++◌, ◌==◌, has, has_char, strip, ℤ, Outcome, ok, raised, ◌>>=◌, ◌>>◌, or_raise, guard,
  if◌then◌else◌,
}
use vheatm.Json.{Json, null, str}
use vheatm.Activation.{
  Expr, Value, Operator, eq, ne, ge, le, gt, lt, member, not_member, and, or, literal, list_literal,
  boolean_literal, comparison, boolean_operation, ActivationError, syntax, reserved_keyword,
  nested_list, bad_literal, empty_expression, out_of_fuel,
}
use vheatm.Activation.Token.{
  Kind, Token, Tokens, eof, token, number, text, op, lparen, rparen, lbracket, rbracket, comma,
  ident, tokenize,
}

-- What the parser takes from Python: which characters are decimal digits, and `int` of a text and
-- `ast.literal_eval` of a quoted string, each with nothing where Python raises.
pub record Reader : Type 0 where
  pub is_digit : ℕ → Bool
  pub read_int : String → Option ℤ
  pub read_string : String → Option Json

-- `self.current.offset`
abbrev pub offset_of : Tokens → ℕ
offset_of (eof n) = n
offset_of (token t ts) = t.offset

abbrev pub same_kind : Kind → Kind → Bool
same_kind number number = true
same_kind text text = true
same_kind op op = true
same_kind lparen lparen = true
same_kind rparen rparen = true
same_kind lbracket lbracket = true
same_kind rbracket rbracket = true
same_kind comma comma = true
same_kind ident ident = true
same_kind _ _ = false

-- `self.expect`, which moves on and returns the token.
unfoldable pub expect : Kind → Tokens → Outcome ActivationError (Token × Tokens)
expect k (eof n) = raised (syntax n)
expect k (token t ts) = if same_kind t.kind k then ok (t, ts) else raised (syntax t.offset)

-- Is the current token this word?
unfoldable pub is_word : String → Tokens → Bool
is_word w (eof n) = false
is_word w (token t ts) = same_kind t.kind ident && t.value == w

-- `self.accept`, as a test.
unfoldable pub is_kind : Kind → Tokens → Bool
is_kind k (eof n) = false
is_kind k (token t ts) = same_kind t.kind k

-- `self.advance`, behind a test of the current token.
abbrev pub advance : Tokens → Tokens
advance (eof n) = eof n
advance (token t ts) = ts

abbrev pub symbol_of : String → Option Operator
symbol_of s =
    if s == "=="
    then some eq
    else if s == "!="
    then some ne
    else if s == ">="
    then some ge
    else if s == "<="
    then some le
    else if s == ">"
    then some gt
    else if s == "<"
    then some lt
    else none

-- An operator of signs.
unfoldable pub symbol_operator : Tokens → Outcome ActivationError (Operator × Tokens)
symbol_operator (eof n) = raised (syntax n)
symbol_operator (token t rest) =
    if same_kind t.kind op
    then elim (symbol_of t.value) [ none ↦ raised (syntax t.offset) | some o ↦ ok (o, rest) ]
    else raised (syntax t.offset)

-- The operator of a comparison.
unfoldable pub parse_operator : Tokens → Outcome ActivationError (Operator × Tokens)
unfolding is_word symbol_operator
parse_operator ts =
    if is_word "in" ts
    then ok (member, advance ts)
    else if is_word "not" ts
    then (if is_word "in" (advance ts)
        then ok (not_member, advance (advance ts))
        else raised (syntax (offset_of (advance ts))))
    else symbol_operator ts

-- The value of an identifier.
abbrev word_value : String → Json
word_value w =
    if w == "null"
    then null
    else if w == "true"
    then Json.bool true
    else if w == "false"
    then Json.bool false
    else str w

-- `isinstance(value, Literal)`
abbrev pub literal_only : Value → Outcome ActivationError Json
literal_only (literal v) = ok v
literal_only _ = raised nested_list

abbrev pub is_literal_word : Tokens → Bool
is_literal_word ts = is_word "always" ts || is_word "true" ts || is_word "false" ts

-- The number of the tokens.
abbrev pub count : Tokens → ℕ
count (eof n) = 1
count (token t ts) = suc (count ts)

-- `self.expect("EOF")`
abbrev pub at_end : Expr × Tokens → Outcome ActivationError Expr
at_end (e, eof n) = ok e
at_end (e, token t ts) = raised (syntax t.offset)

module _ (R : Reader) where
  -- A number, a string or an identifier as a literal.
  unfoldable pub read_literal : Token → Option (Outcome ActivationError Json)
  read_literal t =
      if same_kind t.kind number
      then some (
          if has_char b'.' t.value
          then ok (Json.float t.value)
          else (or_raise (R.read_int t.value) (bad_literal t.value) >>= λ n. ok (Json.int n)))
      else if same_kind t.kind text
      then some (or_raise (R.read_string t.value) (bad_literal t.value))
      else if same_kind t.kind ident
      then some (ok (word_value t.value))
      else none

  unfoldable mutual
    unfolding read_literal is_kind expect

    -- `parse_value`
    pub parse_value : ℕ → Tokens → Outcome ActivationError (Value × Tokens)
    parse_value zero ts = raised out_of_fuel
    parse_value (suc fuel) (eof n) = raised (syntax n)
    parse_value (suc fuel) (token t rest) =
        let items = parse_items fuel [] rest in
        elim (read_literal t) [
          | some found ↦ (found >>= λ v. ok (literal v, rest))
          | none ↦
              if not (same_kind t.kind lbracket)
              then raised (syntax t.offset)
              else if is_kind rbracket rest
              then ok (list_literal [], advance rest)
              else (items >>= λ r. ok (list_literal r.0, r.1))
        ]

    -- The loop over the items of a list.
    pub parse_items : ℕ → List Json → Tokens → Outcome ActivationError (List Json × Tokens)
    parse_items zero items ts = raised out_of_fuel
    parse_items (suc fuel) items ts = do
      value ← parse_value fuel ts
      item ← literal_only value.0
      let later = parse_items fuel (items ++ item ∷ []) (advance value.1)
      (if is_kind comma value.1
          then later
          else (expect rbracket value.1 >>= λ closed. ok (items ++ item ∷ [], closed.1)))

  -- `parse_comparison`
  unfoldable pub parse_comparison : ℕ → Tokens → Outcome ActivationError (Expr × Tokens)
  unfolding parse_value parse_operator expect
  parse_comparison fuel ts = do
    left ← expect ident ts
    guard (not (has ("and" ∷ "or" ∷ "in" ∷ "not" ∷ []) left.0.value))
        (reserved_keyword left.0.value)
    operator ← parse_operator left.1
    right ← parse_value fuel operator.1
    ok (comparison left.0.value operator.0 right.0, right.1)

  unfoldable mutual
    unfolding parse_comparison is_kind is_word expect

    -- `parse_primary`
    pub parse_primary : ℕ → Tokens → Outcome ActivationError (Expr × Tokens)
    parse_primary zero ts = raised out_of_fuel
    parse_primary (suc fuel) ts =
        let inner = parse_or fuel (advance ts) in
        if is_kind lparen ts
        then (inner >>= λ e. expect rparen e.1 >>= λ closed. ok (e.0, closed.1))
        else if is_literal_word ts
        then ok (boolean_literal (not (is_word "false" ts)), advance ts)
        else parse_comparison fuel ts

    -- `parse_and`
    pub parse_and : ℕ → Tokens → Outcome ActivationError (Expr × Tokens)
    parse_and zero ts = raised out_of_fuel
    parse_and (suc fuel) ts = do left ← parse_primary fuel ts; and_more fuel left.0 left.1

    -- The loop of `parse_and`.
    pub and_more : ℕ → Expr → Tokens → Outcome ActivationError (Expr × Tokens)
    and_more zero left ts = raised out_of_fuel
    and_more (suc fuel) left ts =
        let more = parse_primary fuel (advance ts) >>= λ right.
        and_more fuel (boolean_operation and left right.0) right.1 in
        if is_word "and" ts then more else ok (left, ts)

    -- `parse_or`
    pub parse_or : ℕ → Tokens → Outcome ActivationError (Expr × Tokens)
    parse_or zero ts = raised out_of_fuel
    parse_or (suc fuel) ts = do left ← parse_and fuel ts; or_more fuel left.0 left.1

    -- The loop of `parse_or`.
    pub or_more : ℕ → Expr → Tokens → Outcome ActivationError (Expr × Tokens)
    or_more zero left ts = raised out_of_fuel
    or_more (suc fuel) left ts =
        let more = parse_and fuel (advance ts) >>= λ right.
        or_more fuel (boolean_operation or left right.0) right.1 in
        if is_word "or" ts then more else ok (left, ts)

  -- `parse`
  unfoldable pub parse : Tokens → Outcome ActivationError Expr
  unfolding parse_or
  parse ts = parse_or (4 * count ts) ts >>= at_end

  unfoldable pub compile_activation : String → Outcome ActivationError Expr
  unfolding tokenize parse
  compile_activation expression =
      let normalized = strip expression in
      if normalized == ""
      then raised empty_expression
      else (tokenize R.is_digit normalized >>= parse)
