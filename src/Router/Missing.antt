-- ===== src/Router/Missing.antt =====
-- How many of some texts are missing from a list: what falls while a search goes down.
use vheatm.Prelude.{
  ℕ, suc, ◌≤◌, ◌<◌, ◌≡◌, refl, String, true, false, ◌||◌, Bool-cases, inl, inr, ◌⊎◌, List, [], ◌∷◌,
  ◌++◌, arith, ◌==◌, eq_iff, has, length, if◌then◌else◌,
}

unfoldable pub missing : List String → List String → ℕ
missing from [] = 0
missing from (k ∷ ks) = let rest = missing from ks in if has from k then rest else suc rest

pub missing-le-length : (from ks : List String) → missing from ks ≤ length ks
unfolding missing
missing-le-length from [] = omega arith
missing-le-length from (k ∷ ks) = ground (arith, missing-le-length from ks)

pub has-append : (xs ys : List String) (k : String) → has (xs ++ ys) k ≡ (has xs k || has ys k)
has-append [] ys k = refl
has-append (x ∷ xs) ys k = ground (arith, has-append xs ys k)

-- A list that holds what another does misses no more.
pub missing_mono :
    (from more ks : List String)
    → ((k : String) → has from k ≡ true → has more k ≡ true)
    → missing more ks ≤ missing from ks
unfolding missing
missing_mono from more [] sub = omega arith
missing_mono from more (k ∷ ks) sub = ground (arith, sub k, missing_mono from more ks sub)

-- And one that holds a further one of the texts misses less.
pub missing-lt :
    (from more ks : List String) (n : String)
    → ((k : String) → has from k ≡ true → has more k ≡ true)
    → has ks n ≡ true
    → has from n ≡ false
    → has more n ≡ true
    → missing more ks < missing from ks
unfolding missing
missing-lt from more [] n sub member new added = cc
missing-lt from more (k ∷ ks) n sub member new added = elim (Bool-cases (k == n)) [
  | inl same ↦
      let e : k ≡ n = (eq_iff k n).0 same in
      rw (e, new, added) (omega (arith, missing_mono from more ks sub))
  | inr other ↦ ground (arith, sub k, missing-lt from more ks n sub)
]

pub has-cons :
    (x k : String) (xs : List String) → has (x ∷ xs) k ≡ true → (x ≡ k) ⊎ (has xs k ≡ true)
has-cons x k xs h = elim (Bool-cases (x == k)) [
  | inl same ↦ inl ((eq_iff x k).0 same)
  | inr other ↦ inr (ground arith)
]

pub has-tail : (x k : String) (xs : List String) → has xs k ≡ true → has (x ∷ xs) k ≡ true
has-tail x k xs h = ground arith
