-- ===== src/Activation/Grammar.antt =====
-- The grammar of activation expressions, as relations: some tokens, what they say, and the tokens
-- behind. `and` binds closer than `or`, and both group to the left.
use vheatm.Prelude.{◌≡◌, true, false, not, some, List, [], ◌∷◌, has, ok}
use vheatm.Json.{Json}
use vheatm.Activation.{
  Expr, Value, Operator, member, not_member, and, or, literal, list_literal, boolean_literal,
  comparison, boolean_operation,
}
use vheatm.Activation.Token.{
  Token, Tokens, token, op, lparen, rparen, lbracket, rbracket, comma, ident,
}
use vheatm.Activation.Parser.{
  Reader, same_kind, is_word, is_kind, advance, symbol_of, read_literal, is_literal_word,
}

pub data OperatorText : Tokens → Operator → Tokens → Type 0 where
  symbol :
      {t : Token} {rest : Tokens} {o : Operator}
      → same_kind t.kind op ≡ true
      → symbol_of t.value ≡ some o
      → OperatorText (token t rest) o rest
  one_word : {ts : Tokens} → is_word "in" ts ≡ true → OperatorText ts member (advance ts)
  two_words :
      {ts : Tokens}
      → is_word "not" ts ≡ true
      → is_word "in" (advance ts) ≡ true
      → OperatorText ts not_member (advance (advance ts))

module _ (R : Reader) where
  -- The items of a list, to its closing bracket.
  pub data ItemsText : Tokens → List Json → Tokens → Type 0 where
    last :
        {t : Token} {mid : Tokens} {v : Json}
        → read_literal R t ≡ some (ok v)
        → is_kind rbracket mid ≡ true
        → ItemsText (token t mid) (v ∷ []) (advance mid)
    next :
        {t : Token} {mid rest : Tokens} {v : Json} {vs : List Json}
        → read_literal R t ≡ some (ok v)
        → is_kind comma mid ≡ true
        → ItemsText (advance mid) vs rest
        → ItemsText (token t mid) (v ∷ vs) rest

  pub data ValueText : Tokens → Value → Tokens → Type 0 where
    scalar :
        {t : Token} {rest : Tokens} {v : Json}
        → read_literal R t ≡ some (ok v)
        → ValueText (token t rest) (literal v) rest
    empty_list :
        {ts : Tokens}
        → is_kind lbracket ts ≡ true
        → is_kind rbracket (advance ts) ≡ true
        → ValueText ts (list_literal []) (advance (advance ts))
    full_list :
        {ts rest : Tokens} {vs : List Json}
        → is_kind lbracket ts ≡ true
        → ItemsText (advance ts) vs rest
        → ValueText ts (list_literal vs) rest

  mutual
    pub data Disjunction : Tokens → Expr → Tokens → Type 0 where
      one_conjunction :
          {ts rest : Tokens} {e : Expr} → Conjunction ts e rest → Disjunction ts e rest
      or_conjunction :
          {ts mid rest : Tokens} {l r : Expr}
          → Disjunction ts l mid
          → is_word "or" mid ≡ true
          → Conjunction (advance mid) r rest
          → Disjunction ts (boolean_operation or l r) rest

    pub data Conjunction : Tokens → Expr → Tokens → Type 0 where
      one_primary : {ts rest : Tokens} {e : Expr} → Primary ts e rest → Conjunction ts e rest
      and_primary :
          {ts mid rest : Tokens} {l r : Expr}
          → Conjunction ts l mid
          → is_word "and" mid ≡ true
          → Primary (advance mid) r rest
          → Conjunction ts (boolean_operation and l r) rest

    pub data Primary : Tokens → Expr → Tokens → Type 0 where
      parentheses :
          {ts mid : Tokens} {e : Expr}
          → is_kind lparen ts ≡ true
          → Disjunction (advance ts) e mid
          → is_kind rparen mid ≡ true
          → Primary ts e (advance mid)
      literal_word :
          {ts : Tokens}
          → is_literal_word ts ≡ true
          → Primary ts (boolean_literal (not (is_word "false" ts))) (advance ts)
      compared :
          {t : Token} {ts mid rest : Tokens} {o : Operator} {v : Value}
          → same_kind t.kind ident ≡ true
          → is_literal_word (token t ts) ≡ false
          → has ("and" ∷ "or" ∷ "in" ∷ "not" ∷ []) t.value ≡ false
          → OperatorText ts o mid
          → ValueText mid v rest
          → Primary (token t ts) (comparison t.value o v) rest
