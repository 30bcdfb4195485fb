-- ===== src/Json/Equality.antt =====
-- Where `==` of a field and a value leaves only one value.
use vheatm.Prelude.{
  String, ◌≡◌, refl, ap, true, false, Option, none, some, List, [], ◌∷◌, map, arith, eq_iff,
}
use vheatm.Json.{
  Json, Items, Python, null, bool, int, float, str, arr, obj, nil, cons, field_is, json_eq,
  items_eq, from_list,
}

json_eq-str : (P : Python) (v : Json) (n : String) → json_eq P v (str n) ≡ true → v ≡ str n
unfolding json_eq
json_eq-str P (str s) n h = ap str ((eq_iff s n).0 h)
json_eq-str P null n h = cc
json_eq-str P (bool true) n h = cc
json_eq-str P (bool false) n h = cc
json_eq-str P (int i) n h = cc
json_eq-str P (float x) n h = cc
json_eq-str P (arr vs) n h = cc
json_eq-str P (obj d) n h = cc

pub field_is-str :
    (P : Python) (v : Option Json) (n : String) → field_is P v (str n) ≡ true → v ≡ some (str n)
unfolding json_eq
field_is-str P none n h = cc
field_is-str P (some v) n h = ap some (json_eq-str P v n h)

items_eq-texts :
    (P : Python) (vs : Items) (ss : List String)
    → items_eq P vs (from_list (map str ss)) ≡ true
    → vs ≡ from_list (map str ss)
unfolding items_eq
items_eq-texts P nil [] h = refl
items_eq-texts P (cons v vs) [] h = cc
items_eq-texts P nil (s ∷ ss) h = cc
items_eq-texts P (cons v vs) (s ∷ ss) h =
    let head = json_eq-str P v s (ground arith) in
    let tail = items_eq-texts P vs ss (ground arith) in cc (head, tail)

pub field_is-texts :
    (P : Python) (v : Option Json) (ss : List String)
    → field_is P v (arr (from_list (map str ss))) ≡ true
    → v ≡ some (arr (from_list (map str ss)))
unfolding json_eq
field_is-texts P (some (arr vs)) ss h = ap (λ ws. some (arr ws)) (items_eq-texts P vs ss h)
field_is-texts P none ss h = cc
field_is-texts P (some null) ss h = cc
field_is-texts P (some (bool true)) ss h = cc
field_is-texts P (some (bool false)) ss h = cc
field_is-texts P (some (int i)) ss h = cc
field_is-texts P (some (float x)) ss h = cc
field_is-texts P (some (str s)) ss h = cc
field_is-texts P (some (obj d)) ss h = cc
