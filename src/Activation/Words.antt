-- ===== src/Activation/Words.antt =====
-- A token is of one kind and a word is one word; operators are parsed.
use vheatm.Prelude.{◌<◌, ◌≡◌, refl, ap, ◌∙◌, String, true, false, arith, ok, ◌==◌, eq_iff}
use vheatm.Activation.{Operator}
use vheatm.Activation.Token.{
  Token, Tokens, eof, token, op, lparen, rparen, lbracket, rbracket, comma, ident, number, text,
  Kind,
}
use vheatm.Activation.Parser.{same_kind, is_word, is_kind, advance, expect, count, parse_operator}
use vheatm.Activation.Grammar.{OperatorText, symbol, one_word, two_words}
use vheatm.Activation.Yields.{is_word-count}

pub same_kind-eq : (k j : Kind) → same_kind k j ≡ true → k ≡ j
same_kind-eq number number h = refl
same_kind-eq text text h = refl
same_kind-eq op op h = refl
same_kind-eq lparen lparen h = refl
same_kind-eq rparen rparen h = refl
same_kind-eq lbracket lbracket h = refl
same_kind-eq rbracket rbracket h = refl
same_kind-eq comma comma h = refl
same_kind-eq ident ident h = refl
same_kind-eq _ _ h = cc

-- A token is of one kind, and a word is one word.
pub kind_is :
    (k j : Kind) (ts : Tokens) → is_kind k ts ≡ true → same_kind k j ≡ false → is_kind j ts ≡ false
unfolding is_kind
kind_is k j (eof n) h d = refl
kind_is k j (token t ts) h d = ap (λ z. same_kind z j) (same_kind-eq t.kind k h) ∙ d

pub word_is :
    (v w : String) (ts : Tokens) → is_word v ts ≡ true → v == w ≡ false → is_word w ts ≡ false
unfolding is_word
word_is v w (eof n) h d = refl
word_is v w (token t ts) h d = ground (arith, eq_iff t.value v)

pub no_word :
    (k : Kind) (w : String) (ts : Tokens)
    → is_kind k ts ≡ true
    → same_kind k ident ≡ false
    → is_word w ts ≡ false
unfolding is_word is_kind
no_word k w (eof n) h d = refl
no_word k w (token t ts) h d = rw (same_kind-eq t.kind k h, d) refl

pub expect_found :
    (k : Kind) (ts : Tokens)
    → is_kind k ts ≡ true
    → (t : Token) × (expect k ts ≡ ok (t, advance ts))
unfolding expect is_kind
expect_found k (eof n) h = cc h
expect_found k (token t ts) h = (t, rw h refl)

pub OperatorText-count :
    {ts rest : Tokens} {o : Operator} → OperatorText ts o rest → count rest < count ts
OperatorText-count (symbol e f) = omega arith
OperatorText-count (one_word {ts} e) = is_word-count "in" ts e
OperatorText-count (two_words {ts} e f) =
    omega (arith, is_word-count "not" ts e, is_word-count "in" (advance ts) f)

pub operator_found :
    {ts rest : Tokens} {o : Operator} → OperatorText ts o rest → parse_operator ts ≡ ok (o, rest)
unfolding parse_operator is_kind
operator_found (symbol {t} {rest} e f) =
    rw (no_word op "in" (token t rest) e refl, no_word op "not" (token t rest) e refl, e, f) refl
operator_found (one_word e) = rw e refl
operator_found (two_words {ts} e f) = rw (word_is "not" "in" ts e refl, e, f) refl
