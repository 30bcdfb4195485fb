-- ===== src/Prelude/Text.antt =====
-- Python's operations on texts: `strip` as a test, `replace`, the order by code points, and
-- `sorted(set(...))`.
use Prim.Native.Nat.{ℕ, suc}
use Prim.Native.Char.{Char, code}
use Prim.Native.String.{String, ◌++◌ as concat}
use mathlib.Core.Path.{◌≡◌, refl}
use mathlib.Core.Logic.{◌≢◌, inl, inr}
use mathlib.Core.Bool.{Bool, true, false, not, ◌&&◌, ◌||◌}
use mathlib.Core.Option.{Option, none, some}
use mathlib.Core.List.{List, [], ◌∷◌}
use native.Mathlib.Omega.{arith}
use text.Mathlib.Text.{◌==◌}
use text.Mathlib.TextEquality.{eq_iff, Char-path}
use vheatm.Prelude.Tests.{ltb, leb, eqb, if◌then◌else◌, Bool-cases}
use vheatm.Prelude.Lists.{has, has-head, select}

-- `str.isspace` of a character.
unfoldable pub is_space : ℕ → Bool
is_space c =
    leb 9 c && leb c 13
    || leb 28 c && leb c 32
    || eqb c 133
    || eqb c 160
    || eqb c 5760
    || leb 8192 c && leb c 8202
    || eqb c 8232
    || eqb c 8233
    || eqb c 8239
    || eqb c 8287
    || eqb c 12288

-- `not s.strip()`: nothing but white space.
unfoldable pub is_blank : String → Bool
unfolding is_space
is_blank String.[] = true
is_blank (String.◌∷◌ c s) = is_space (code c) && is_blank s

-- `s.strip()`
unfoldable pub left_strip : String → String
unfolding is_space
left_strip String.[] = ""
left_strip (String.◌∷◌ c s) =
    let rest = left_strip s in if is_space (code c) then rest else String.◌∷◌ c s

unfoldable pub right_strip : String → String
unfolding is_space
right_strip String.[] = ""
right_strip (String.◌∷◌ c s) =
    let rest = right_strip s in if is_space (code c) && rest == "" then "" else String.◌∷◌ c rest

unfoldable pub strip : String → String
unfolding left_strip right_strip
strip s = right_strip (left_strip s)

-- `c in s`, for a character given by its code point.
unfoldable pub has_char : ℕ → String → Bool
has_char n String.[] = false
has_char n (String.◌∷◌ c s) = eqb (code c) n || has_char n s

-- `s[len(p):]` if `s.startswith(p)`.
unfoldable pub strip_prefix : String → String → Option String
strip_prefix String.[] s = some s
strip_prefix (String.◌∷◌ c p) String.[] = none
strip_prefix (String.◌∷◌ c p) (String.◌∷◌ d s) =
    let rest = strip_prefix p s in if eqb (code c) (code d) then rest else none

abbrev pub push_char : Char → List String → List String
push_char c [] = String.◌∷◌ c "" ∷ []
push_char c (w ∷ ws) = String.◌∷◌ c w ∷ ws

-- `len(s)`
abbrev pub chars : String → ℕ
chars String.[] = 0
chars (String.◌∷◌ c s) = suc (chars s)

-- `all(p(c) for c in s)`, on the characters' code points.
unfoldable pub all_chars : (ℕ → Bool) → String → Bool
all_chars p String.[] = true
all_chars p (String.◌∷◌ c s) = p (code c) && all_chars p s

-- The characters, as texts: what a loop over a text goes through.
abbrev pub characters : String → List String
characters String.[] = []
characters (String.◌∷◌ c s) = String.◌∷◌ c "" ∷ characters s

-- Does the text go on with a character that is no white space?
unfoldable pub in_word : String → Bool
unfolding is_space
in_word String.[] = false
in_word (String.◌∷◌ c s) = not (is_space (code c))

-- `s.split()`
unfoldable pub words : String → List String
unfolding in_word is_space
words String.[] = []
words (String.◌∷◌ c s) =
    let rest = words s in
    if is_space (code c)
    then rest
    else if in_word s
    then push_char c rest
    else String.◌∷◌ c "" ∷ rest

-- `s.split(sep)`, for a separator of one character.
unfoldable pub split_on : ℕ → String → List String
split_on n String.[] = "" ∷ []
split_on n (String.◌∷◌ c s) =
    let rest = split_on n s in if eqb (code c) n then "" ∷ rest else push_char c rest

-- `sep.join(words)`
unfoldable pub join : String → List String → String
join sep [] = ""
join sep (w ∷ []) = w
join sep (w ∷ v ∷ ws) = concat w (concat sep (join sep (v ∷ ws)))

-- `s.replace("Z", "+00:00")`
unfoldable pub replace_zone : String → String
replace_zone String.[] = ""
replace_zone (String.◌∷◌ c s) =
    let rest = replace_zone s in
    if eqb (code c) b'Z' then concat "+00:00" rest else String.◌∷◌ c rest

-- `s < t` by code points.
unfoldable pub precedes : String → String → Bool
precedes String.[] String.[] = false
precedes String.[] (String.◌∷◌ d t) = true
precedes (String.◌∷◌ c s) String.[] = false
precedes (String.◌∷◌ c s) (String.◌∷◌ d t) =
    ltb (code c) (code d) || eqb (code c) (code d) && precedes s t

pub precedes_irrefl : (s : String) → precedes s s ≡ false
unfolding precedes
precedes_irrefl String.[] = refl
precedes_irrefl (String.◌∷◌ c s) = ground (arith, precedes_irrefl s)

pub precedes_trans :
    (s t u : String) → precedes s t ≡ true → precedes t u ≡ true → precedes s u ≡ true
unfolding precedes
precedes_trans String.[] String.[] u h k = cc
precedes_trans String.[] (String.◌∷◌ d t) String.[] h k = cc
precedes_trans String.[] (String.◌∷◌ d t) (String.◌∷◌ e u) h k = refl
precedes_trans (String.◌∷◌ c s) String.[] u h k = cc
precedes_trans (String.◌∷◌ c s) (String.◌∷◌ d t) String.[] h k = cc
precedes_trans (String.◌∷◌ c s) (String.◌∷◌ d t) (String.◌∷◌ e u) h k =
    ground (arith, precedes_trans s t u)

pub precedes_total : (s t : String) → s ≢ t → precedes s t ≡ false → precedes t s ≡ true
unfolding precedes
precedes_total String.[] String.[] n h = absurd (n refl)
precedes_total String.[] (String.◌∷◌ d t) n h = cc
precedes_total (String.◌∷◌ c s) String.[] n h = refl
precedes_total (String.◌∷◌ c s) (String.◌∷◌ d t) n h =
    ground (arith, precedes_total s t, Char-path c d)

-- `sorted(set(xs))`
unfoldable pub insert_unique : String → List String → List String
insert_unique k [] = k ∷ []
insert_unique k (x ∷ xs) =
    let rest = insert_unique k xs in
    if k == x then x ∷ xs else if precedes k x then k ∷ x ∷ xs else x ∷ rest

unfoldable pub sort_unique : List String → List String
unfolding insert_unique
sort_unique [] = []
sort_unique (x ∷ xs) = insert_unique x (sort_unique xs)

abbrev pub FirstAbove : String → List String → Type 0
FirstAbove x [] = Unit
FirstAbove x (y ∷ ys) = precedes x y ≡ true

-- Strictly ascending, so also free of duplicates.
abbrev pub IsAscending : List String → Type 0
IsAscending [] = Unit
IsAscending (x ∷ xs) = FirstAbove x xs × IsAscending xs

FirstAbove-insert_unique :
    (x k : String) (xs : List String)
    → precedes x k ≡ true
    → FirstAbove x xs
    → FirstAbove x (insert_unique k xs)
unfolding insert_unique
FirstAbove-insert_unique x k [] h f = h
FirstAbove-insert_unique x k (y ∷ ys) h f = ground arith

insert_unique-IsAscending :
    (k : String) (xs : List String) → IsAscending xs → IsAscending (insert_unique k xs)
unfolding insert_unique
insert_unique-IsAscending k [] h = (tt, tt)
insert_unique-IsAscending k (x ∷ xs) h = ground (
  arith,
  eq_iff k x,
  precedes_total k x,
  insert_unique-IsAscending k xs h.1,
  FirstAbove-insert_unique x k xs,
)

pub sort_unique-IsAscending : (xs : List String) → IsAscending (sort_unique xs)
unfolding insert_unique sort_unique
sort_unique-IsAscending [] = tt
sort_unique-IsAscending (x ∷ xs) =
    insert_unique-IsAscending x (sort_unique xs) (sort_unique-IsAscending xs)

insert_unique_first :
    (k : String) (xs : List String) → FirstAbove k xs → insert_unique k xs ≡ k ∷ xs
unfolding insert_unique
insert_unique_first k [] h = refl
insert_unique_first k (x ∷ xs) h = ground (arith, eq_iff k x, precedes_irrefl k)

-- Sorting what is sorted and free of duplicates changes nothing.
pub sort_unique-of_IsAscending : (xs : List String) → IsAscending xs → sort_unique xs ≡ xs
unfolding sort_unique
sort_unique-of_IsAscending [] h = refl
sort_unique-of_IsAscending (x ∷ xs) h =
    rw (sort_unique-of_IsAscending xs h.1) (insert_unique_first x xs h.0)

has-insert_unique :
    (j k : String) (xs : List String) → has (insert_unique k xs) j ≡ (k == j || has xs j)
unfolding insert_unique
has-insert_unique j k [] = refl
has-insert_unique j k (x ∷ xs) = ground (arith, has-insert_unique j k xs, eq_iff k x)

-- The sorted list has the members of the list.
pub has-sort_unique : (j : String) (xs : List String) → has (sort_unique xs) j ≡ has xs j
unfolding sort_unique
has-sort_unique j [] = refl
has-sort_unique j (x ∷ xs) =
    ground (arith, has-insert_unique j x (sort_unique xs), has-sort_unique j xs)

-- A member that passes the test is a member of what is selected.
pub has-select :
    (p : String → Bool) (n : String) (xs : List String)
    → has xs n ≡ Bool.true
    → p n ≡ Bool.true
    → has (select p xs) n ≡ Bool.true
has-select p n [] h k = cc
has-select p n (x ∷ xs) h k = elim (Bool-cases (x == n)) [
  | inl same ↦ (rw ((eq_iff x n).0 same, k) (has-head n (select p xs)))
  | inr other ↦ ground (arith, has-select p n xs)
]
