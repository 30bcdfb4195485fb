-- ===== src/Json.antt =====
-- The values of a JSON or YAML document as Python holds them, and Python's operations on them:
-- `get`, assignment to a key, `==` and `str`. A float is the text that Python reads it from; what
-- Python does with it is a parameter.
pub mod Laws
pub mod Equality
use vheatm.Prelude.{
  ℕ, suc, String, Bool, true, false, ◌&&◌, Option, none, some, List, [], ◌∷◌, ◌==◌, ℤ, pos, eqb_ℤ,
  ltb_ℤ, leb_ℤ, eqb, if◌then◌else◌,
}

mutual
  pub data Json : Type 0 where
    null : Json
    bool : Bool → Json
    int : ℤ → Json
    float : String → Json
    str : String → Json
    arr : Items → Json
    obj : Fields → Json

  pub data Items : Type 0 where
    nil : Items
    cons : Json → Items → Items

  -- A dictionary in its order of insertion.
  pub data Fields : Type 0 where
    end : Fields
    field : String → Json → Fields → Fields

-- A bool is an int in Python.
pub data Number : Type 0 where
  whole : ℤ → Number
  float : String → Number

pub record Python : Type 0 where
  -- `str(v)` of a value that is no text
  pub repr : Json → String
  -- comparisons in which a float takes part
  pub float_eq : Number → Number → Bool
  pub float_lt : Number → Number → Bool
  pub float_le : Number → Number → Bool

abbrev pub number : Json → Option Number
number (bool true) = some (whole (pos 1))
number (bool false) = some (whole (pos 0))
number (int n) = some (whole n)
number (float s) = some (Number.float s)
number _ = none

abbrev pub number_eq : Python → Number → Number → Bool
number_eq P (whole a) (whole b) = eqb_ℤ a b
number_eq P a b = P.float_eq a b

abbrev pub number_lt : Python → Number → Number → Bool
number_lt P (whole a) (whole b) = ltb_ℤ a b
number_lt P a b = P.float_lt a b

abbrev pub number_le : Python → Number → Number → Bool
number_le P (whole a) (whole b) = leb_ℤ a b
number_le P a b = P.float_le a b

abbrev both_numbers : Python → Option Number → Option Number → Bool
both_numbers P (some a) (some b) = number_eq P a b
both_numbers P _ _ = false

-- `d.get(k)`
abbrev pub get : String → Fields → Option Json
get k end = none
get k (field j v d) = if j == k then some v else get k d

-- `d[k] = v`: in place, or at the end.
unfoldable pub put : String → Json → Fields → Fields
put k v end = field k v end
put k v (field j w d) = let rest = put k v d in if j == k then field j v d else field j w rest

-- `del d[k]`
unfoldable pub remove : String → Fields → Fields
remove k end = end
remove k (field j w d) = let rest = remove k d in if j == k then rest else field j w rest

abbrev pub size : Fields → ℕ
size end = 0
size (field k v d) = suc (size d)

abbrev pub to_list : Items → List Json
to_list nil = []
to_list (cons v vs) = v ∷ to_list vs

abbrev pub from_list : List Json → Items
from_list [] = nil
from_list (v ∷ vs) = cons v (from_list vs)

abbrev pub keys : Fields → List String
keys end = []
keys (field k v d) = k ∷ keys d

abbrev pub found_eq : (Json → Bool) → Option Json → Bool
found_eq f none = false
found_eq f (some w) = f w

-- `==`
unfoldable mutual
  pub json_eq : Python → Json → Json → Bool
  json_eq P null null = true
  json_eq P (str s) (str t) = s == t
  json_eq P (arr xs) (arr ys) = items_eq P xs ys
  json_eq P (obj d) (obj e) = eqb (size d) (size e) && fields_in P d e
  json_eq P a b = both_numbers P (number a) (number b)

  pub items_eq : Python → Items → Items → Bool
  items_eq P nil nil = true
  items_eq P (cons v vs) (cons w ws) = json_eq P v w && items_eq P vs ws
  items_eq P _ _ = false

  pub fields_in : Python → Fields → Fields → Bool
  fields_in P end e = true
  fields_in P (field k v d) e = found_eq (json_eq P v) (get k e) && fields_in P d e

-- `==` between `d.get(k)`, which is None for a missing key, and a value.
abbrev pub field_is : Python → Option Json → Json → Bool
field_is P none v = json_eq P null v
field_is P (some w) v = json_eq P w v

-- `str(v)`
abbrev pub to_str : Python → Json → String
to_str P (str s) = s
to_str P v = P.repr v

-- `str(d.get(k, ""))`
abbrev pub str_field : Python → String → Fields → String
str_field P k d = elim (get k d) [ none ↦ "" | some v ↦ to_str P v ]
