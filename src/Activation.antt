-- ===== src/Activation.antt =====
-- src/vheatm_control/activation.py: the expressions that say when a gate is active, and their
-- evaluation in three values. `Order` has Python's `<` and its like, `Kleene`
-- the tables of the connectives, `Stable` the theorems on evaluation. `Token` has the tokenizer,
-- `Parser` the parser, `Grammar` the grammar of the expressions.
pub mod Order
pub mod Evaluate
pub mod Kleene
pub mod Stable
pub mod Token
pub mod Fronts
pub mod Positions
pub mod Parser
pub mod Grammar
pub mod Yields
pub mod Sound
pub mod Words
pub mod Complete
mod ParserScenarios
pub mod Scenarios
use vheatm.Prelude.{ℕ, String, Bool, List}
use vheatm.Json.{Json}

pub data TruthValue : Type 0 where
  true unknown false : TruthValue

abbrev pub from_bool : Bool → TruthValue
from_bool Bool.true = TruthValue.true
from_bool Bool.false = TruthValue.false

-- The operators that the parser yields.
pub data Operator : Type 0 where
  eq ne ge le gt lt member not_member : Operator

pub data Connective : Type 0 where
  and or : Connective

-- `Reference | Literal | ListLiteral`
pub data Value : Type 0 where
  reference : String → Value
  literal : Json → Value
  list_literal : List Json → Value

pub data Expr : Type 0 where
  boolean_literal : Bool → Expr
  comparison : String → Operator → Value → Expr
  boolean_operation : Connective → Expr → Expr → Expr

pub data ActivationError : Type 0 where
  not_a_list : ActivationError
  incompatible : ActivationError
  syntax : ℕ → ActivationError
  reserved_keyword : String → ActivationError
  nested_list : ActivationError
  -- what Python raises on a literal that it does not read: no ActivationError in the source
  bad_literal : String → ActivationError
  empty_expression : ActivationError
  out_of_fuel : ActivationError
