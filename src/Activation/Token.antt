-- ===== src/Activation/Token.antt =====
-- The tokens of an expression, `_TOKEN_RE` by hand, and `_tokenize`. A text is read from its front, and
-- what Python's `re` takes for a decimal digit is a parameter.
use Prim.Native.String.{◌++◌ as concat}
use vheatm.Prelude.{
  chars, ℕ, zero, suc, ◌+◌, String, Bool, true, false, not, ◌&&◌, ◌||◌, Option, none, some, ◌==◌,
  eqb, leb, Char, code, is_space, Outcome, ok, raised, ◌>>=◌, if◌then◌else◌,
}
use vheatm.Activation.{ActivationError, syntax, out_of_fuel}

pub data Kind : Type 0 where
  space number text op lparen rparen lbracket rbracket comma ident : Kind

pub record Token : Type 0 where
  pub kind : Kind
  pub value : String
  pub offset : ℕ

-- The list of the tokens. The last is the one of kind EOF, at the end of the expression.
pub data Tokens : Type 0 where
  eof : ℕ → Tokens
  token : Token → Tokens → Tokens

-- What is matched, and the text behind it.
pub record Match : Type 0 where
  pub kind : Kind
  pub value : String
  pub rest : String

-- `[A-Za-z_]`
unfoldable pub is_letter : ℕ → Bool
is_letter c = leb 65 c && leb c 90 || eqb c 95 || leb 97 c && leb c 122

-- The longest front of characters that pass the test.
unfoldable pub span : (ℕ → Bool) → String → String × String
span p String.[] = ("", "")
span p (String.◌∷◌ c s) =
    let (front, rest) = span p s in
    if p (code c) then (String.◌∷◌ c front, rest) else ("", String.◌∷◌ c s)

-- `(?:\\.|[^q\\])*q`, behind the quote `q` that opens a string.
unfoldable pub closing : ℕ → String → Option (String × String)
closing q String.[] = none
closing q (String.◌∷◌ c String.[]) = if eqb (code c) q then some (String.◌∷◌ c "", "") else none
closing q (String.◌∷◌ c (String.◌∷◌ d s)) =
    let plain = closing q (String.◌∷◌ d s) in
    let escaped = closing q s in
    if eqb (code c) q
    then some (String.◌∷◌ c "", String.◌∷◌ d s)
    else if not (eqb (code c) 92)
    then elim plain [ none ↦ none | some found ↦ some (String.◌∷◌ c (found.0), found.1) ]
    else if eqb (code d) 10
    then none
    else elim escaped [
      | none ↦ none
      | some found ↦ some (String.◌∷◌ c (String.◌∷◌ d (found.0)), found.1)
    ]

-- The second character of `==|!=|>=|<=`.
unfoldable pub two_signs : Char → String → Option Match
two_signs c String.[] = none
two_signs c (String.◌∷◌ d s) =
    if eqb (code d) b'='
    then some (record { kind = op; value = String.◌∷◌ c (String.◌∷◌ d ""); rest = s })
    else none

abbrev pub one_sign : Kind → Char → String → Option Match
one_sign k c s = some (record { kind = k; value = String.◌∷◌ c ""; rest = s })

unfoldable pub sign_kind : Char → Option Kind
sign_kind c =
    if eqb (code c) b'('
    then some lparen
    else if eqb (code c) b')'
    then some rparen
    else if eqb (code c) b'['
    then some lbracket
    else if eqb (code c) b']'
    then some rbracket
    else if eqb (code c) b','
    then some comma
    else none

-- `==|!=|>=|<=|>|<` and the signs of one character.
unfoldable pub match_sign : Char → String → Option Match
unfolding two_signs sign_kind
match_sign c s =
    if eqb (code c) b'=' || eqb (code c) b'!'
    then two_signs c s
    else if eqb (code c) b'>' || eqb (code c) b'<'
    then elim (two_signs c s) [ some found ↦ some found | none ↦ one_sign op c s ]
    else elim (sign_kind c) [ none ↦ none | some k ↦ one_sign k c s ]

abbrev pub is_gap : Kind → Bool
is_gap space = true
is_gap k = false

-- `if kind != "SPACE": tokens.append(...)`
abbrev pub with_token : Match → ℕ → Tokens → Tokens
with_token m offset later =
    if is_gap m.kind
    then later
    else token (record { kind = m.kind; value = m.value; offset = offset }) later

module _ (is_digit : ℕ → Bool) where
  -- `(?:\.\d*)?`, behind the digits of the whole part.
  unfoldable pub with_fraction : String → String → String × String
  unfolding span
  with_fraction whole String.[] = (whole, "")
  with_fraction whole (String.◌∷◌ c after) =
      let (part, end) = span is_digit after in
      if eqb (code c) b'.'
      then (concat whole (String.◌∷◌ c part), end)
      else (whole, String.◌∷◌ c after)

  -- `\d+(?:\.\d*)?`
  unfoldable pub decimal : String → Option (String × String)
  unfolding span with_fraction
  decimal s =
      let (whole, rest) = span is_digit s in
      if whole == "" then none else some (with_fraction whole rest)

  -- `\.\d+`
  unfoldable pub fraction : String → Option (String × String)
  unfolding span
  fraction String.[] = none
  fraction (String.◌∷◌ c s) =
      let (part, rest) = span is_digit s in
      if eqb (code c) b'.' && not (part == "") then some (String.◌∷◌ c part, rest) else none

  unfoldable pub unsigned : String → Option (String × String)
  unfolding decimal fraction
  unsigned s = elim (decimal s) [ some found ↦ some found | none ↦ fraction s ]

  -- `-?(?:...)`
  unfoldable pub match_number : String → Option (String × String)
  unfolding unsigned
  match_number String.[] = none
  match_number (String.◌∷◌ c s) =
      if eqb (code c) b'-'
      then elim (unsigned s) [ none ↦ none | some found ↦ some (String.◌∷◌ c (found.0), found.1) ]
      else unsigned (String.◌∷◌ c s)

  -- `_TOKEN_RE.match`: the alternatives in their order, of which at most one fits, since they differ in
  -- the characters that they begin with.
  unfoldable pub match_token : String → Option Match
  unfolding span closing match_number is_space is_letter
  match_token String.[] = none
  match_token (String.◌∷◌ c s) =
      if is_space (code c)
      then (let (front, rest) = span is_space s in
          some (record { kind = space; value = String.◌∷◌ c front; rest = rest }))
      else elim (match_number (String.◌∷◌ c s)) [
        | some found ↦ some (record { kind = number; value = found.0; rest = found.1 })
        | none ↦
            if eqb (code c) 39 || eqb (code c) 34
            then elim (closing (code c) s) [
              | none ↦ none
              | some found ↦
                  some (record { kind = text; value = String.◌∷◌ c (found.0); rest = found.1 })
            ]
            else if is_letter (code c)
            then (let (front, rest) = span (λ d. is_letter d || leb 48 d && leb d 57) s in
                some (record { kind = ident; value = String.◌∷◌ c front; rest = rest }))
            else match_sign c s
      ]

  -- `_tokenize` from an offset on.
  unfoldable pub tokenize_from : ℕ → ℕ → String → Outcome ActivationError Tokens
  unfolding match_token
  tokenize_from fuel offset String.[] = ok (eof offset)
  tokenize_from zero offset (String.◌∷◌ c s) = raised out_of_fuel
  tokenize_from (suc fuel) offset (String.◌∷◌ c s) = elim (match_token (String.◌∷◌ c s)) [
    | none ↦ raised (syntax offset)
    | some m ↦ do
      later ← tokenize_from fuel (offset + chars m.value) m.rest
      ok (with_token m offset later)
  ]

  unfoldable pub tokenize : String → Outcome ActivationError Tokens
  unfolding tokenize_from
  tokenize expression = tokenize_from (chars expression) 0 expression
