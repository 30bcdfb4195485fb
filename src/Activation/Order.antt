-- ===== src/Activation/Order.antt =====
-- Python's `<`, `<=`, `>` and `>=` between values of a document. Nothing is a TypeError.
use vheatm.Prelude.{
  String, Bool, true, false, not, ◌||◌, Option, none, some, ◌==◌, precedes, if◌then◌else◌,
}
use vheatm.Json.{
  Json, Items, Number, Python, str, arr, nil, cons, number, number_lt, number_le, json_eq,
}

pub data Order : Type 0 where
  below at_most above at_least : Order

abbrev number_order : Python → Order → Option Number → Option Number → Option Bool
number_order P below (some a) (some b) = some (number_lt P a b)
number_order P at_most (some a) (some b) = some (number_le P a b)
number_order P above (some a) (some b) = some (number_lt P b a)
number_order P at_least (some a) (some b) = some (number_le P b a)
number_order P o _ _ = none

unfoldable pub text_order : Order → String → String → Bool
text_order below s t = precedes s t
text_order at_most s t = precedes s t || s == t
text_order above s t = precedes t s
text_order at_least s t = precedes t s || s == t

-- Of lists with a common beginning: does the left end first, do both end, does the right.
abbrev left_shorter : Order → Bool
left_shorter below = true
left_shorter at_most = true
left_shorter above = false
left_shorter at_least = false

abbrev both_end : Order → Bool
both_end below = false
both_end at_most = true
both_end above = false
both_end at_least = true

unfoldable mutual
  unfolding text_order

  pub json_order : Python → Order → Json → Json → Option Bool
  json_order P o (str s) (str t) = some (text_order o s t)
  json_order P o (arr vs) (arr ws) = items_order P o vs ws
  json_order P o v w = number_order P o (number v) (number w)

  -- The first unequal pair decides.
  pub items_order : Python → Order → Items → Items → Option Bool
  items_order P o nil nil = some (both_end o)
  items_order P o nil (cons w ws) = some (left_shorter o)
  items_order P o (cons v vs) nil = some (not (left_shorter o))
  items_order P o (cons v vs) (cons w ws) =
      let rest = items_order P o vs ws in
      let first = json_order P o v w in if json_eq P v w then rest else first
