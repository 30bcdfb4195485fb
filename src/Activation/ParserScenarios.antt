-- ===== src/Activation/ParserScenarios.antt =====
-- Expressions that are compiled or refused, and witnesses of the parser's theorems.
use vheatm.Prelude.{
  ℕ, zero, suc, ◌+◌, ◌*◌, ◌-◌, ◌≡◌, ◌≢◌, refl, String, Bool, true, false, ◌&&◌, some, [], ◌∷◌, leb,
  code, pos, ok, raised,
}
use vheatm.Json.{int, str}
use vheatm.Activation.{
  Expr, eq, member, not_member, and, or, literal, list_literal, comparison, boolean_literal,
  boolean_operation, syntax, reserved_keyword, nested_list, empty_expression, ActivationError,
}
use vheatm.Activation.Token.{tokenize}
use vheatm.Activation.Positions.{IsTokenized, tokenize-IsTokenized}
use vheatm.Activation.Parser.{Reader, compile_activation}
use vheatm.Activation.Sound.{compile_activation-ends}

abbrev digits : ℕ → String → ℕ
digits n String.[] = n
digits n (String.◌∷◌ c s) = digits (n * 10 + (code c - 48)) s

abbrev without_last : String → String
without_last String.[] = ""
without_last (String.◌∷◌ c String.[]) = ""
without_last (String.◌∷◌ c (String.◌∷◌ d s)) = String.◌∷◌ c (without_last (String.◌∷◌ d s))

abbrev unquoted : String → String
unquoted String.[] = ""
unquoted (String.◌∷◌ c s) = without_last s

abbrev reader : Reader
reader = record {
  is_digit = λ c. leb 48 c && leb c 57;
  read_int = λ s. some (pos (digits 0 s));
  read_string = λ s. some (str (unquoted s));
}

abbrev three_parts : Expr
three_parts =
    boolean_operation or
      (boolean_operation and (comparison "a" eq (literal (int (pos 12))))
        (comparison "b" not_member (list_literal (str "x y" ∷ str "z" ∷ []))))
      (boolean_literal true)

closer : compile_activation reader "a == 12 and b not in ['x y', z] or always" ≡ ok three_parts
unfolding compile_activation vheatm.Prelude.strip vheatm.Activation.Token.match_sign
    vheatm.Prelude.has_char
closer = refl

refused : compile_activation reader "a in [[b]]" ≡ raised nested_list
unfolding compile_activation vheatm.Prelude.strip vheatm.Activation.Token.match_sign
    vheatm.Prelude.has_char
refused = refl

unfinished : compile_activation reader "(a == b" ≡ raised (syntax 7)
unfolding compile_activation vheatm.Prelude.strip vheatm.Activation.Token.match_sign
    vheatm.Prelude.has_char
unfinished = refl

tokenize-IsTokenized_example :
    IsTokenized "a >= -1.5" (tokenize (λ c. leb 48 c && leb c 57) "a >= -1.5")
tokenize-IsTokenized_example = tokenize-IsTokenized (λ c. leb 48 c && leb c 57) "a >= -1.5"

compile_activation-ends_example :
    compile_activation reader "a == 'b" ≢ raised ActivationError.out_of_fuel
compile_activation-ends_example = compile_activation-ends reader "a == 'b"
