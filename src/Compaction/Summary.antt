-- ===== src/Compaction/Summary.antt =====
-- internal/compaction/prompt.go: what becomes of the text of a summary. A text is the list of its bytes,
-- in which the ASCII tags have one byte for each character.
pub mod Tags
use foxharness.Prelude.{
  ℕ, zero, suc, ◌+◌, ◌-◌, ◌≤◌, ◌<◌, String, Bool, true, false, List, [], ◌∷◌, ◌++◌, Option, some,
  none, if◌then◌else◌, length, take, drop, Text, codes, has_prefix, ◌≡◌, refl, ap, sym, ◌∙◌, arith,
  Bool-cases, inl, inr, length-append, length-drop, text_append,
}
use foxharness.Go.{GoLib}

abbrev pub shifted : Option ℕ → Option ℕ
shifted none = none
shifted (some n) = some (n + 1)

-- strings.Index, with none for -1.
unfoldable pub index : Text → Text → Option ℕ
index [] tag = if has_prefix [] tag then some 0 else none
index (c ∷ s) tag =
    let later = index s tag in if has_prefix (c ∷ s) tag then some 0 else shifted later

abbrev pub open_tag : String → Text
open_tag tag = 0x3c ∷ codes tag ++ 0x3e ∷ []

abbrev pub close_tag : String → Text
close_tag tag = 0x3c ∷ 0x2f ∷ codes tag ++ 0x3e ∷ []

abbrev pub cut : (Text → Text) → Text → Text → ℕ → Option ℕ → Text
cut again content closing start none = take start content
cut again content closing start (some end) =
    again (take start content ++ drop (end + (start + length closing)) content)

abbrev pub cut_first : (Text → Text) → Text → Text → Option ℕ → Text
unfolding index
cut_first again content closing none = content
cut_first again content closing (some start) =
    cut again content closing start (index (drop start content) closing)

-- The loop of stripTag, on fuel.
strip : Text → Text → ℕ → Text → Text
unfolding index
strip opening closing zero content = content
strip opening closing (suc n) content =
    cut_first (λ rest. strip opening closing n rest) content closing (index content opening)

-- stripTag: each round removes a tag, so that the length of the text is fuel enough.
pub strip_tag : Text → String → Text
unfolding strip
strip_tag content tag = strip (open_tag tag) (close_tag tag) (length content) content

abbrev pub until : Text → Option ℕ → Text
until rest none = rest
until rest (some end) = take end rest

abbrev pub between : Text → String → Option ℕ → Option Text
unfolding index
between content tag none = none
between content tag (some start) =
    let rest = drop (start + length (open_tag tag)) content in
    some (until rest (index rest (close_tag tag)))

-- extractTag, with none for its second result false.
pub extract_tag : Text → String → Option Text
unfolding index
extract_tag content tag = between content tag (index content (open_tag tag))

abbrev or_else : Text → Option Text → Text
or_else other none = other
or_else other (some t) = t

pub format_summary : GoLib → String → String
unfolding strip_tag extract_tag
format_summary go raw =
    let stripped = strip_tag (go.bytes raw) "analysis" in
    go.trim_space (go.text (or_else stripped (extract_tag stripped "summary")))
