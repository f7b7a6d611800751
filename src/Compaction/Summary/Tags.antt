-- ===== src/Compaction/Summary/Tags.antt =====
-- What the loop that removes a tag leaves, and what is read from a tagged text.
use foxharness.Prelude.{
  ℕ, zero, suc, ◌+◌, ◌≤◌, String, true, false, [], ◌∷◌, ◌++◌, Option, some, none, length, take,
  drop, Text, has_prefix, ◌≡◌, refl, ap, sym, ◌∙◌, arith, Bool-cases, inl, inr, length-append,
  length-drop, length-take, append_assoc,
}
use foxharness.Compaction.Summary.{
  index, shifted, strip, strip_tag, extract_tag, open_tag, close_tag, cut, cut_first,
}

has_prefix-take : (n : ℕ) (s o : Text) → has_prefix (take n s) o ≡ true → has_prefix s o ≡ true
has_prefix-take zero s [] h = refl
has_prefix-take zero s (d ∷ o) h = absurd cc
has_prefix-take (suc n) [] o h = h
has_prefix-take (suc n) (c ∷ s) [] h = refl
has_prefix-take (suc n) (c ∷ s) (d ∷ o) h = ground (arith, has_prefix-take n s o)

has_prefix-length : (s o : Text) → has_prefix s o ≡ true → length o ≤ length s
has_prefix-length s [] h = omega arith
has_prefix-length [] (d ∷ o) h = absurd cc
has_prefix-length (c ∷ s) (d ∷ o) h = ground (arith, has_prefix-length s o)

-- The first place of a text is a place where it stands.
index-length : (s o : Text) (n : ℕ) → index s o ≡ some n → n + length o ≤ length s
unfolding index
index-length [] [] n h = let q : 0 ≡ n = cc in omega arith
index-length [] (d ∷ o) n h = absurd cc
index-length (c ∷ s) o n h = elim (Bool-cases (has_prefix (c ∷ s) o)) [
  | inl b ↦
      let q : some 0 ≡ some n = rw b at h in
      let z : 0 ≡ n = cc in omega (arith, has_prefix-length (c ∷ s) o b)
  | inr b ↦ later (index-length s o) (index s o) refl (rw b at h)
]
  where
    later :
        ((m : ℕ) → index s o ≡ some m → m + length o ≤ length s)
        → (found : Option ℕ) → index s o ≡ found
        → shifted found ≡ some n
        → n + length o ≤ suc (length s)
    later ih none q e = absurd cc
    later ih (some m) q e = let z : m + 1 ≡ n = cc in omega (arith, ih m q)

-- No nonempty text stands in front of its first place.
index-take :
    (s : Text) (d : ℕ) (o : Text) (n : ℕ)
    → index s (d ∷ o) ≡ some n
    → index (take n s) (d ∷ o) ≡ none
unfolding index
index-take [] d o n h = absurd cc
index-take (c ∷ s) d o n h = elim (Bool-cases (has_prefix (c ∷ s) (d ∷ o))) [
  | inl b ↦ let q : some 0 ≡ some n = rw b at h in let z : 0 ≡ n = cc in rw (← z) refl
  | inr b ↦ later (index-take s d o) b (index s (d ∷ o)) refl (rw b at h)
]
  where
    later :
        ((m : ℕ) → index s (d ∷ o) ≡ some m → index (take m s) (d ∷ o) ≡ none)
        → has_prefix (c ∷ s) (d ∷ o) ≡ false
        → (found : Option ℕ) → index s (d ∷ o) ≡ found
        → shifted found ≡ some n
        → index (take n (c ∷ s)) (d ∷ o) ≡ none
    later ih b none q e = absurd cc
    later ih b (some m) q e =
        let z : m + 1 ≡ n = cc in
        let z' : n ≡ suc m = omega arith in
        rw z' (elim (Bool-cases (has_prefix (c ∷ take m s) (d ∷ o))) [
          | inl p ↦ let p' = has_prefix-take (suc m) (c ∷ s) (d ∷ o) p in absurd cc
          | inr p ↦ rw (p, ih m q) refl
        ])

-- Cutting a tag out shortens the text.
cut-length :
    (s : Text) (start end : ℕ) (closing : Text)
    → start ≤ length s
    → end + length closing ≤ length (drop start s)
    → length (take start s ++ drop (end + (start + length closing)) s) + length closing ≤ length s
cut-length s start end closing h k = omega (
  arith,
  length-append (take start s) (drop (end + (start + length closing)) s),
  length-take start s h,
  length-drop (end + (start + length closing)) s,
  length-drop start s,
)

index-strip :
    (d : ℕ) (o : Text) (e : ℕ) (c : Text) (n : ℕ) (s : Text)
    → length s ≤ n
    → index (strip (d ∷ o) (e ∷ c) n s) (d ∷ o) ≡ none
unfolding strip
index-strip d o e c zero [] h = refl
index-strip d o e c zero (x ∷ s) h = absurd (omega arith)
index-strip d o e c (suc n) s h = first (index-strip d o e c n) (index s (d ∷ o)) refl
  where
    again : Text → Text
    again rest = strip (d ∷ o) (e ∷ c) n rest

    Clean : Type 0
    Clean = (t : Text) → length t ≤ n → index (again t) (d ∷ o) ≡ none

    second :
        Clean
        → (start : ℕ) → index s (d ∷ o) ≡ some start
        → (found : Option ℕ) → index (drop start s) (e ∷ c) ≡ found
        → index (cut again s (e ∷ c) start found) (d ∷ o) ≡ none
    second ih start p none q = index-take s d o start p
    second ih start p (some end) q =
        let first_place = index-length s (d ∷ o) start p in
        let last_place = index-length (drop start s) (e ∷ c) end q in
        let before : start ≤ length s = omega arith in
        let shorter = cut-length s start end (e ∷ c) before last_place in
        ih _ (omega (arith, shorter))

    first :
        Clean
        → (found : Option ℕ) → index s (d ∷ o) ≡ found
        → index (cut_first again s (e ∷ c) found) (d ∷ o) ≡ none
    first ih none q = q
    first ih (some start) q = second ih start q (index (drop start s) (e ∷ c)) refl

-- What stripTag leaves has no opening tag: its loop ends, and for want of one.
pub index-strip_tag :
    (content : Text) (tag : String) → index (strip_tag content tag) (open_tag tag) ≡ none
unfolding strip_tag
index-strip_tag content tag = index-strip _ _ _ _ (length content) content (omega arith)

has_prefix-append : (s t o : Text) → length o ≤ length s → has_prefix (s ++ t) o ≡ has_prefix s o
has_prefix-append s t [] h = refl
has_prefix-append [] t (d ∷ o) h = absurd (omega arith)
has_prefix-append (c ∷ s) t (d ∷ o) h = ground (arith, has_prefix-append s t o)

index-append : (s t o : Text) (n : ℕ) → index s o ≡ some n → index (s ++ t) o ≡ some n
unfolding index
index-append [] [] [] n h = h
index-append [] (x ∷ t) [] n h = h
index-append [] t (d ∷ o) n h = absurd cc
index-append (c ∷ s) t o n h = elim (Bool-cases (has_prefix (c ∷ s) o)) [
  | inl b ↦
      let fits = has_prefix-length (c ∷ s) o b in
      let same = has_prefix-append (c ∷ s) t o fits in rw (same, b) (rw b at h)
  | inr b ↦
      let fits = index-length (c ∷ s) o n h in
      let shorter : length o ≤ length (c ∷ s) = omega (arith, fits) in
      let same = has_prefix-append (c ∷ s) t o shorter in
      rw (same, b) (later (index-append s t o) (index s o) refl (rw b at h))
]
  where
    later :
        ((m : ℕ) → index s o ≡ some m → index (s ++ t) o ≡ some m)
        → (found : Option ℕ) → index s o ≡ found
        → shifted found ≡ some n
        → shifted (index (s ++ t) o) ≡ some n
    later ih none q e = absurd cc
    later ih (some m) q e = rw (ih m q) e

take-append : (s t : Text) → take (length s) (s ++ t) ≡ s
take-append [] t = refl
take-append (c ∷ s) t = ap (◌∷◌ c) (take-append s t)

drop-append : (s t : Text) → drop (length s) (s ++ t) ≡ t
drop-append [] t = refl
drop-append (c ∷ s) t = drop-append s t

-- extractTag reads back the text that stands between the first opening tag and the first closing tag
-- behind it, whatever follows.
pub extract_tag-append :
    (tag : String) (before body after : Text)
    → index (before ++ open_tag tag) (open_tag tag) ≡ some (length before)
    → index (body ++ close_tag tag) (close_tag tag) ≡ some (length body)
    → extract_tag ((before ++ open_tag tag) ++ ((body ++ close_tag tag) ++ after)) tag ≡ some body
unfolding extract_tag
extract_tag-append tag before body after h k =
    let rest = (body ++ close_tag tag) ++ after in
    let first = index-append (before ++ open_tag tag) rest (open_tag tag) (length before) h in
    let second = index-append (body ++ close_tag tag) after (close_tag tag) (length body) k in
    let skip : length before + length (open_tag tag) ≡ length (before ++ open_tag tag) =
      sym (length-append before (open_tag tag)) in
    let left : drop (length before + length (open_tag tag)) ((before ++ open_tag tag) ++ rest)
        ≡ rest =
      rw skip (drop-append (before ++ open_tag tag) rest) in
    let front : take (length body) rest ≡ body =
      ap (λ r. take (length body) r) (append_assoc body (close_tag tag) after)
      ∙ take-append body (close_tag tag ++ after) in
    rw (first, left, second) (ap some front)
