-- ===== src/Reminder/Loops.antt =====
-- When a loop is detected.
use foxharness.Prelude.{
  ℕ, ◌+◌, ◌-◌, ◌≤◌, ◌<◌, ◌≡◌, refl, ◌⊎◌, inl, inr, String, Bool, true, false, ◌&&◌, List, [], ◌∷◌,
  Option, some, none, leb, ltb, ◌==◌, length, length-drop, any, str_eq, eq_iff, eq_refl, arith,
  Bool-cases, if◌then◌else◌,
}
use foxharness.Dict.{or_zero, or_zero-put, lookup, put, lookup-put, Distinct, put-Distinct}
use foxharness.Go.{GoLib}
use foxharness.Reminder.{
  Manager, ToolAction, newest, tally, key_of, first_repeated, with_action, repeated_same_action,
}

-- Two facts on maps: an entry that is found by its key, and one that is found by a test.
any-lookup :
    (k : String) (c : ℕ) (m : List (String × ℕ))
    → Distinct m
    → any (λ e. str_eq e.0 k && e.1 == c) m ≡ true
    → lookup k m ≡ some c
unfolding lookup
any-lookup k c [] d h = cc
any-lookup k c ((j, n) ∷ m) d h = elim (Bool-cases (str_eq j k)) [
  | inl e ↦
      let q : j ≡ k = ground (arith, eq_iff j k) in
      let fresh : lookup k m ≡ none = rw (← q) d.0 in rw e (ground (arith, any-lookup k c m d.1))
  | inr e ↦ rw e (any-lookup k c m d.1 (ground arith))
]

lookup-any :
    (p : String × ℕ → Bool) (k : String) (c : ℕ) (m : List (String × ℕ))
    → any p m ≡ false
    → lookup k m ≡ some c
    → p (k, c) ≡ false
unfolding lookup
lookup-any p k c [] a h = cc
lookup-any p k c ((j, n) ∷ m) a h = elim (Bool-cases (str_eq j k)) [
  | inl e ↦
      let q : j ≡ k = ground (arith, eq_iff j k) in
      let same : n ≡ c = ground arith in rw (← q, ← same) (ground arith)
  | inr e ↦ lookup-any p k c m (ground arith) (rw e at h)
]

newest-length : (n : ℕ) (l : List ToolAction) → length (newest n l) ≤ length l
unfolding newest
newest-length n l = ground (arith, length-drop (length l - n) l)

module _ (go : GoLib) where
  pub occurrences : String → List ToolAction → ℕ
  occurrences key [] = 0
  occurrences key (a ∷ rest) = (if str_eq (key_of go a) key then 1 else 0) + occurrences key rest

  occurrences-length : (key : String) (l : List ToolAction) → occurrences key l ≤ length l
  unfolding occurrences
  occurrences-length key [] = omega arith
  occurrences-length key (a ∷ rest) = ground (arith, occurrences-length key rest)

  abbrev Actions : Type 0
  Actions = List (String × ToolAction)

  tally_count :
      (key : String) (l : List ToolAction) (counts : List (String × ℕ)) (last : Actions)
      → or_zero (lookup key (tally go l counts last).0)
        ≡ or_zero (lookup key counts) + occurrences key l
  unfolding tally occurrences
  tally_count key [] counts last = omega arith
  tally_count key (a ∷ rest) counts last =
      let key' = key_of go a in
      let counts' = put key' (or_zero (lookup key' counts) + 1) counts in
      omega (arith, tally_count key rest counts' (put key' a last), or_zero-put key' key counts)

  tally-Distinct :
      (l : List ToolAction) (counts : List (String × ℕ)) (last : Actions)
      → Distinct counts
      → Distinct (tally go l counts last).0
  unfolding tally
  tally-Distinct [] counts last d = d
  tally-Distinct (a ∷ rest) counts last d =
      tally-Distinct rest _ _
        (put-Distinct (key_of go a) (or_zero (lookup (key_of go a) counts) + 1) counts d)

  -- The last action of each key that was counted.
  abbrev Keyed : String → Option ToolAction → Type 0
  Keyed key found = (a : ToolAction) → found ≡ some a → key_of go a ≡ key

  put-Keyed :
      (key : String) (a : ToolAction) (last : Actions)
      → Keyed key (lookup key last)
      → Keyed key (lookup key (put (key_of go a) a last))
  put-Keyed key a last h b e = elim (Bool-cases (str_eq (key_of go a) key)) [
    | inl q ↦
        let same : some a ≡ some b = rw (lookup-put (key_of go a) key a last, q) at e in
        let named : key_of go a ≡ key = ground (arith, eq_iff (key_of go a) key) in
        let one : a ≡ b = cc in rw (← one) named
    | inr q ↦ h b (rw (lookup-put (key_of go a) key a last, q) at e)
  ]

  tally-Keyed :
      (key : String) (l : List ToolAction) (counts : List (String × ℕ)) (last : Actions)
      → Keyed key (lookup key last)
      → Keyed key (lookup key (tally go l counts last).1)
  unfolding tally
  tally-Keyed key [] counts last h = h
  tally-Keyed key (a ∷ rest) counts last h =
      tally-Keyed key rest _ (put (key_of go a) a last) (put-Keyed key a last h)

  tally_known :
      (key : String) (l : List ToolAction) (counts : List (String × ℕ)) (last : Actions)
      → (a : ToolAction) × (lookup key last ≡ some a)
      → (a : ToolAction) × (lookup key (tally go l counts last).1 ≡ some a)
  unfolding tally
  tally_known key [] counts last h = h
  tally_known key (a ∷ rest) counts last (b, h) =
      tally_known key rest _ (put (key_of go a) a last)
        (elim (Bool-cases (str_eq (key_of go a) key)) [
          | inl q ↦ (a, rw (lookup-put (key_of go a) key a last, q) refl)
          | inr q ↦ (b, rw (lookup-put (key_of go a) key a last, q) h)
        ])

  tally_seen :
      (key : String) (l : List ToolAction) (counts : List (String × ℕ)) (last : Actions)
      → 0 < occurrences key l
      → (a : ToolAction) × (lookup key (tally go l counts last).1 ≡ some a)
  unfolding tally occurrences
  tally_seen key [] counts last h = absurd (omega arith)
  tally_seen key (a ∷ rest) counts last h = elim (Bool-cases (str_eq (key_of go a) key)) [
    | inl q ↦
        tally_known key rest _ (put (key_of go a) a last)
          (a, rw (lookup-put (key_of go a) key a last, q) refl)
    | inr q ↦ tally_seen key rest _ (put (key_of go a) a last) (ground arith)
  ]

  first_repeated-some :
      (m : List (String × ℕ)) (k : String) (c : ℕ)
      → first_repeated go m ≡ some (k, c)
      → (3 ≤ c) × (any (λ e. str_eq e.0 k && e.1 == c) m ≡ true)
  unfolding first_repeated
  first_repeated-some [] k c h = cc
  first_repeated-some ((j, n) ∷ m) k c h = elim (Bool-cases (leb 3 n)) [
    | inl e ↦
        let q : some (j, n) ≡ some (k, c) = rw e at h in
        let one : j ≡ k = cc in
        let two : n ≡ c = cc in (ground arith, rw (← one, ← two) (ground (arith, eq_refl j)))
    | inr e ↦ let ih = first_repeated-some m k c (rw e at h) in (ih.0, ground arith)
  ]

  first_repeated-none :
      (m : List (String × ℕ)) → first_repeated go m ≡ none → any (λ e. leb 3 e.1) m ≡ false
  unfolding first_repeated
  first_repeated-none [] h = refl
  first_repeated-none ((j, n) ∷ m) h = ground (arith, first_repeated-none m)

  -- What a detection of a loop says of the newest actions.
  abbrev pub Detects : List ToolAction → Option (Option ToolAction × ℕ) → Type 0
  Detects recent detected =
      ((detected ≡ none) × ((key : String) → occurrences key recent < 3))
      ⊎ ((a : ToolAction) × (n : ℕ) × (detected ≡ some (some a, n))
          × (n ≡ occurrences (key_of go a) recent)
          × (3 ≤ n))

  abbrev Complete : Type 0
  Complete = (p : String × ℕ → Bool) (m : List (String × ℕ)) → any p (go.range_order m) ≡ any p m

  few_of :
      (found : Option ℕ) (n : ℕ)
      → or_zero found ≡ n
      → ((c : ℕ) → found ≡ some c → leb 3 c ≡ false)
      → n < 3
  few_of none n q h = omega arith
  few_of (some c) n q h = let small : leb 3 c ≡ false = h c refl in ground arith

  tally-none :
      Complete
      → (recent : List ToolAction) (key : String)
      → first_repeated go (go.range_order (tally go recent [] []).0) ≡ none
      → occurrences key recent < 3
  unfolding lookup
  tally-none complete recent key e =
      let counts = (tally go recent [] []).0 in
      let no_entry : any (λ p. leb 3 p.1) counts ≡ false =
        rw (complete (λ p. leb 3 p.1) counts) at (first_repeated-none (go.range_order counts) e) in
      let sum : or_zero (lookup key counts) ≡ occurrences key recent =
        omega (arith, tally_count key recent [] []) in
      few_of (lookup key counts) (occurrences key recent) sum
        (λ c q. lookup-any (λ p. leb 3 p.1) key c counts no_entry q)

  with_action-Detects :
      (recent : List ToolAction) (last : Actions) (k : String) (c : ℕ) (a : ToolAction)
      → lookup k last ≡ some a
      → key_of go a ≡ k
      → c ≡ occurrences k recent
      → 3 ≤ c
      → Detects recent (with_action go last (some (k, c)))
  unfolding with_action
  with_action-Detects recent last k c a found named n h = rw found (inr (a, c, refl, rw named n, h))

  tally-some :
      Complete
      → (recent : List ToolAction) (k : String) (c : ℕ)
      → first_repeated go (go.range_order (tally go recent [] []).0) ≡ some (k, c)
      → Detects recent (with_action go (tally go recent [] []).1 (some (k, c)))
  unfolding lookup
  tally-some complete recent k c e =
      let counts = (tally go recent [] []).0 in
      let last = (tally go recent [] []).1 in
      let test : String × ℕ → Bool = λ p. str_eq p.0 k && p.1 == c in
      let f = first_repeated-some (go.range_order counts) k c e in
      let entry : any test counts ≡ true = rw (complete test counts) at f.1 in
      let found : lookup k counts ≡ some c =
        any-lookup k c counts (tally-Distinct recent [] [] tt) entry in
      let total : or_zero (lookup k counts) ≡ occurrences k recent =
        omega (arith, tally_count k recent [] []) in
      let sum : c ≡ occurrences k recent = rw found at total in
      let seen = tally_seen k recent [] [] (ground arith) in
      with_action-Detects recent last k c seen.0 seen.1
        (tally-Keyed k recent [] [] (λ a q. absurd cc) seen.0 seen.1) sum f.0

  detected_cases :
      (recent : List ToolAction) (last : Actions) (found : Option (String × ℕ))
      → (found ≡ none → (key : String) → occurrences key recent < 3)
      → ((k : String) (c : ℕ)
          → found ≡ some (k, c)
          → Detects recent (with_action go last (some (k, c))))
      → Detects recent (with_action go last found)
  unfolding with_action
  detected_cases recent last none h i = inl (refl, h refl)
  detected_cases recent last (some (k, c)) h i = i k c refl

  tally-Detects :
      Complete
      → (recent : List ToolAction)
      → let (counts, last) = tally go recent [] [] in
        Detects recent (with_action go last (first_repeated go (go.range_order counts)))
  tally-Detects complete recent =
      detected_cases recent (tally go recent [] []).1
        (first_repeated go (go.range_order (tally go recent [] []).0))
        (λ e key. tally-none complete recent key e) (tally-some complete recent)

  -- If `range` over a map visits the entries of the map, the newest eight actions show a loop exactly if
  -- three or more of them have one key (the tool's name and the hash of the trimmed arguments), and what
  -- is reported then is an action with such a key and the number of actions with that key among them.
  pub repeated_same_action-Detects :
      Complete → (m : Manager) → Detects (newest 8 m.actions) (repeated_same_action go m)
  unfolding repeated_same_action
  repeated_same_action-Detects complete m = elim (Bool-cases (ltb (length m.actions) 3)) [
    | inl h ↦ rw h (
        inl (
          refl,
          λ key.
              ground
                (arith, occurrences-length key (newest 8 m.actions), newest-length 8 m.actions),
        ))
    | inr h ↦ rw h (tally-Detects complete (newest 8 m.actions))
  ]
