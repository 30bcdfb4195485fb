-- ===== src/Router/Sorting.antt =====
-- `sorted` with a key: stable, by the order of the keys.
use vheatm.Prelude.{
  ℕ, String, ◌≡◌, refl, ap, ◌∙◌, Bool, ◌&&◌, ◌||◌, List, [], ◌∷◌, arith, ◌==◌, has, ltb, eqb,
  precedes, if◌then◌else◌,
}

-- `(first_phase, priority, module_id)`
abbrev pub SortKey : Type 0
SortKey = ℕ × ℕ × String

-- `<` between tuples
unfoldable pub key_before : SortKey → SortKey → Bool
key_before (p, n, s) (q, m, t) = ltb p q || eqb p q && (ltb n m || eqb n m && precedes s t)

module _ {ℓ} {K : Type ℓ} (before : K → K → Bool) where
  -- In front of the first item that is not before the new one.
  unfoldable pub insert_sorted : K × String → List (K × String) → List (K × String)
  insert_sorted (k, x) [] = (k, x) ∷ []
  insert_sorted (k, x) ((j, y) ∷ rest) =
      let later = insert_sorted (k, x) rest in
      if before j k then (j, y) ∷ later else (k, x) ∷ (j, y) ∷ rest

  unfoldable pub sort_keyed : List (K × String) → List (K × String)
  unfolding insert_sorted
  sort_keyed [] = []
  sort_keyed (x ∷ xs) = insert_sorted x (sort_keyed xs)

module _ {ℓ} {K : Type ℓ} where
  abbrev pub values : List (K × String) → List String
  values [] = []
  values ((k, x) ∷ xs) = x ∷ values xs

module _ {ℓ} {K : Type ℓ} (before : K → K → Bool) where
  has-insert_sorted :
      (k : K) (x : String) (xs : List (K × String)) (y : String)
      → has (values (insert_sorted before (k, x) xs)) y ≡ (x == y || has (values xs) y)
  unfolding insert_sorted
  has-insert_sorted k x [] y = refl
  has-insert_sorted k x ((j, z) ∷ xs) y = ground (arith, has-insert_sorted k x xs y)

  -- Sorting keeps the members.
  pub has-sort_keyed :
      (xs : List (K × String)) (y : String)
      → has (values (sort_keyed before xs)) y ≡ has (values xs) y
  unfolding sort_keyed
  has-sort_keyed [] y = refl
  has-sort_keyed ((k, x) ∷ xs) y =
      has-insert_sorted k x (sort_keyed before xs) y ∙ ap (λ b. x == y || b) (has-sort_keyed xs y)
