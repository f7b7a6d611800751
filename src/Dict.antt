-- ===== src/Dict.antt =====
-- Go maps with text keys, as association lists in the order of first insertion. A key that is
-- present is overwritten in place, and deletion drops every entry of the key.
use foxharness.Prelude.{
  ℕ, ◌+◌, ◌≡◌, refl, List, [], ◌∷◌, Option, some, none, String, str_eq, eq_iff, arith,
  if◌then◌else◌, Bool-cases, inl, ap, inr,
}

module _ {ℓ} {V : Type ℓ} where
  unfoldable pub lookup : String → List (String × V) → Option V
  lookup k [] = none
  lookup k ((j, v) ∷ m) = if str_eq j k then some v else lookup k m

  unfoldable pub put : String → V → List (String × V) → List (String × V)
  put k v [] = (k, v) ∷ []
  put k v ((j, w) ∷ m) = if str_eq j k then (k, v) ∷ m else (j, w) ∷ put k v m

  unfoldable pub delete : String → List (String × V) → List (String × V)
  delete k [] = []
  delete k ((j, w) ∷ m) = if str_eq j k then delete k m else (j, w) ∷ delete k m

  pub lookup-put :
      (k j : String) (v : V) (m : List (String × V))
      → lookup j (put k v m) ≡ (if str_eq k j then some v else lookup j m)
  unfolding lookup put
  lookup-put k j v [] = refl
  lookup-put k j v ((i, w) ∷ m) =
      ground (arith, eq_iff k j, eq_iff i k, eq_iff i j, lookup-put k j v m)

  pub lookup-delete :
      (k j : String) (m : List (String × V))
      → lookup j (delete k m) ≡ (if str_eq k j then none else lookup j m)
  unfolding lookup delete
  lookup-delete k j [] = ground (arith, eq_iff k j)
  lookup-delete k j ((i, w) ∷ m) =
      ground (arith, eq_iff k j, eq_iff i k, eq_iff i j, lookup-delete k j m)

  -- No key has two entries.
  abbrev pub Distinct : List (String × V) → Type ℓ
  Distinct [] = Unit
  Distinct ((k, v) ∷ m) = (lookup k m ≡ none) × Distinct m

  pub put-Distinct :
      (k : String) (v : V) (m : List (String × V)) → Distinct m → Distinct (put k v m)
  unfolding put lookup
  put-Distinct k v [] d = (refl, tt)
  put-Distinct k v ((j, w) ∷ m) d =
      ground (arith, eq_iff j k, eq_iff k j, lookup-put k j v m, put-Distinct k v m d.1)

  pub delete-Distinct : (k : String) (m : List (String × V)) → Distinct m → Distinct (delete k m)
  unfolding delete lookup
  delete-Distinct k [] d = tt
  delete-Distinct k ((j, w) ∷ m) d =
      ground (arith, eq_iff j k, eq_iff k j, lookup-delete k j m, delete-Distinct k m d.1)

  delete_absent : (k : String) (m : List (String × V)) → lookup k m ≡ none → delete k m ≡ m
  unfolding delete lookup
  delete_absent k [] h = refl
  delete_absent k ((j, w) ∷ m) h = ground (arith, eq_iff j k, delete_absent k m)

-- Maps of counts, in which a missing key counts 0.
abbrev pub or_zero : Option ℕ → ℕ
or_zero none = 0
or_zero (some n) = n

pub or_zero-put :
    (k j : String) (m : List (String × ℕ))
    → or_zero (lookup j (put k (or_zero (lookup k m) + 1) m))
      ≡ or_zero (lookup j m) + (if str_eq k j then 1 else 0)
or_zero-put k j m = elim (Bool-cases (str_eq k j)) [
  | inl b ↦
      let q : k ≡ j = ground (arith, eq_iff k j) in
      rw (lookup-put k j (or_zero (lookup k m) + 1) m, b) (ap (λ i. or_zero (lookup i m) + 1) q)
  | inr b ↦ rw (lookup-put k j (or_zero (lookup k m) + 1) m, b) (omega arith)
]

-- The sum of a weight over the entries follows the entry that a write or a deletion touches.
module _ {ℓ} {V : Type ℓ} (weight : V → ℕ) where
  abbrev pub weight_of : Option V → ℕ
  weight_of none = 0
  weight_of (some v) = weight v

  unfoldable pub total : List (String × V) → ℕ
  total [] = 0
  total ((k, v) ∷ m) = weight v + total m

  pub total-put :
      (k : String) (v : V) (m : List (String × V))
      → total (put k v m) + weight_of (lookup k m) ≡ total m + weight v
  unfolding total put lookup
  total-put k v [] = omega arith
  total-put k v ((j, w) ∷ m) = ground (arith, eq_iff j k, total-put k v m)

  pub total-delete :
      (k : String) (m : List (String × V))
      → Distinct m
      → total (delete k m) + weight_of (lookup k m) ≡ total m
  unfolding total delete lookup
  total-delete k [] d = refl
  total-delete k ((j, w) ∷ m) d =
      ground (arith, eq_iff j k, total-delete k m d.1, delete_absent k m)
