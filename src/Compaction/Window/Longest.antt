-- ===== src/Compaction/Window/Longest.antt =====
-- Which window the registry finds for a model.
use foxharness.Prelude.{
  ℕ, ◌≤◌, String, Bool, true, false, List, [], ◌∷◌, none, if◌then◌else◌, length, codes, has_prefix,
  str_eq, eq_iff, ltb, ◌≡◌, refl, ap, arith, ℤ, pos, ◌&&◌, Bool-cases, inl, inr, ◌⊎◌, All,
}
use foxharness.Dict.{lookup}
use foxharness.Compaction.Window.{ModelRegistry, longest_prefix, lookup_window, prefix_window}

abbrev pub Matches : String → String × ℤ → Type 0
Matches key entry = has_prefix (codes key) (codes entry.0) ≡ true

-- An entry of a list.
abbrev pub Has : String × ℤ → List (String × ℤ) → Type 0
Has e [] = ⊥
Has e (f ∷ entries) = (e ≡ f) ⊎ Has e entries

abbrev pub NoLonger : String → ℕ → List (String × ℤ) → Type 0
NoLonger key n entries = All (λ e. Matches key e → length (codes e.0) ≤ n) entries

NoLonger-mono :
    (key : String) (m n : ℕ) (entries : List (String × ℤ))
    → m ≤ n
    → NoLonger key m entries
    → NoLonger key n entries
NoLonger-mono key m n [] h a = tt
NoLonger-mono key m n (e ∷ entries) h a =
    ((λ q. omega (arith, a.0 q)), NoLonger-mono key m n entries h a.1)

module _ (key_of : String → String) (order : List (String × ℤ) → List (String × ℤ)) where
  longest_prefix-NoLonger :
      (key : String) (best : String × ℤ) (entries : List (String × ℤ))
      → let r = longest_prefix key_of order key best entries in
        (length (codes best.0) ≤ length (codes r.0))
        × NoLonger key (length (codes r.0)) entries
        × ((r ≡ best) ⊎ (Has r entries × Matches key r))
  unfolding longest_prefix
  longest_prefix-NoLonger key best [] = (omega arith, tt, inl refl)
  longest_prefix-NoLonger key best ((prefix, window) ∷ entries) =
      by_test
        (has_prefix (codes key) (codes prefix)
          && ltb (length (codes best.0)) (length (codes prefix)))
        refl (λ b. longest_prefix-NoLonger key b entries)
    where
      by_test :
          (test : Bool)
          → (has_prefix (codes key) (codes prefix)
              && ltb (length (codes best.0)) (length (codes prefix)))
            ≡ test
          → ((b : String × ℤ)
              → let r = longest_prefix key_of order key b entries in
                (length (codes b.0) ≤ length (codes r.0))
                × NoLonger key (length (codes r.0)) entries
                × ((r ≡ b) ⊎ (Has r entries × Matches key r)))
          → let r =
              longest_prefix key_of order key (if test then (prefix, window) else best) entries in
            (length (codes best.0) ≤ length (codes r.0))
            × NoLonger key (length (codes r.0)) ((prefix, window) ∷ entries)
            × ((r ≡ best) ⊎ (Has r ((prefix, window) ∷ entries) × Matches key r))
      by_test true q ih =
          let (low, none_longer, found) = ih (prefix, window) in
          (
            ground arith,
            ((λ m. low), none_longer),
            inr (elim found [
              | inl same ↦ (inl same, rw same (ground arith))
              | inr there ↦ (inr there.0, there.1)
            ]),
          )
      by_test false q ih =
          let (low, none_longer, found) = ih best in
          (
            low,
            ((λ m. ground arith), none_longer),
            elim found [ inl same ↦ inl same | inr there ↦ inr (inr there.0, there.1) ],
          )

  found_window :
      (key : String) (entries : List (String × ℤ)) (r : String × ℤ)
      → NoLonger key (length (codes r.0)) entries
      → (r ≡ ("", pos 0)) ⊎ (Has r entries × Matches key r)
      → (NoLonger key 0 entries × (prefix_window key_of order r ≡ pos 128000))
        ⊎ ((e : String × ℤ) × Has e entries
            × Matches key e
            × NoLonger key (length (codes e.0)) entries
            × (prefix_window key_of order r ≡ e.1))
  found_window key entries (prefix, window) h found = elim (Bool-cases (str_eq prefix "")) [
    | inl b ↦
        let q : prefix ≡ "" = ground (arith, eq_iff prefix "") in
        inl (NoLonger-mono key _ 0 entries (rw q (omega arith)) h, rw b refl)
    | inr b ↦ elim found [
      | inl same ↦
          let q : prefix ≡ "" = ap (λ r. r.0) same in absurd (ground (arith, eq_iff prefix ""))
      | inr there ↦ inr ((prefix, window), there.0, there.1, h, rw b refl)
    ]
  ]

  -- For a name with a nonempty key that has no override, the window is that of an entry whose name is a prefix
  -- of the key, with no longer such name among the entries; if no entry has a nonempty name that is a prefix,
  -- it is the default.
  pub lookup_window-NoLonger :
      (model : String) (r : ModelRegistry)
      → str_eq (key_of model) "" ≡ false
      → lookup (key_of model) r.config ≡ none
      → (NoLonger (key_of model) 0 (order r.entries)
          × (lookup_window key_of order model r ≡ pos 128000))
        ⊎ ((e : String × ℤ) × Has e (order r.entries)
            × Matches (key_of model) e
            × NoLonger (key_of model) (length (codes e.0)) (order r.entries)
            × (lookup_window key_of order model r ≡ e.1))
  unfolding lookup_window
  lookup_window-NoLonger model r h k =
      let found = longest_prefix-NoLonger (key_of model) ("", pos 0) (order r.entries) in
      rw (h, k) (found_window (key_of model) (order r.entries) _ found.1 found.2)
