-- ===== src/Prelude/Runes.antt =====
-- Texts that the program walks, as the list of their code points, with the tests of Go's package
-- strings that the program calls on them.
use Prim.Native.Char.{code}
use Prim.Native.String.{String}
use Prim.Native.Nat.{ℕ, ◌+◌}
use mathlib.Core.Path.{◌≡◌}
use mathlib.Core.Logic.{◌↔◌, inl, inr}
use mathlib.Core.Bool.{Bool, true, false, ◌&&◌, ◌||◌}
use mathlib.Core.List.{List, [], ◌∷◌, map}
use native.Mathlib.Omega.{arith}
use foxharness.Prelude.Tests.{Bool-cases, leb, ◌==◌, if◌then◌else◌}
use foxharness.Prelude.Lists.{any, all}

abbrev pub Text : Type 0
Text = List ℕ

abbrev pub codes : String → Text
codes String.[] = []
codes (String.◌∷◌ c s) = code c ∷ codes s

-- Equality of walked texts.
abbrev pub eqb : Text → Text → Bool
eqb [] [] = true
eqb [] (d ∷ t) = false
eqb (c ∷ s) [] = false
eqb (c ∷ s) (d ∷ t) = c == d && eqb s t

pub eqb_iff : (s t : Text) → (eqb s t ≡ true) ↔ (s ≡ t)
eqb_iff [] [] = ground arith
eqb_iff [] (d ∷ t) = ground arith
eqb_iff (c ∷ s) [] = ground arith
eqb_iff (c ∷ s) (d ∷ t) = ground (arith, eqb_iff s t)

-- strings.HasPrefix, with the text first.
abbrev pub has_prefix : Text → Text → Bool
has_prefix s [] = true
has_prefix [] (d ∷ t) = false
has_prefix (c ∷ s) (d ∷ t) = c == d && has_prefix s t

-- strings.Contains, with the text first.
abbrev pub contains : Text → Text → Bool
contains [] t = has_prefix [] t
contains (c ∷ s) t = has_prefix (c ∷ s) t || contains s t

-- strings.ContainsAny.
abbrev pub contains_any : Text → Text → Bool
contains_any s chars = any (λ c. any (λ d. c == d) chars) s

-- unicode.ToLower as far as the program's tests see it: the capitals of ASCII, and the two code
-- points outside ASCII whose lower case is an ASCII letter. No other code point outside ASCII has
-- an ASCII lower case, and the program compares lowered texts with ASCII texts only.
unfoldable pub lower_rune : ℕ → ℕ
lower_rune c =
    if leb b'A' c && leb c b'Z'
    then c + 32
    else if c == 0x130
    then b'i'
    else if c == 0x212a
    then b'k'
    else c

-- strings.ToLower.
unfoldable pub to_lower : Text → Text
unfolding lower_rune
to_lower s = map lower_rune s

-- Membership of a literal text, as in a Go set of type map[string]bool.
abbrev pub member : Text → List String → Bool
member s names = any (λ n. eqb s (codes n)) names

-- A test that every literal of a table passes is passed by every text that the table holds.
pub member_passes :
    (p : Text → Bool) (s : Text) (names : List String)
    → all (λ n. p (codes n)) names ≡ true
    → member s names ≡ true
    → p s ≡ true
member_passes p s [] h m = absurd (ground arith)
member_passes p s (n ∷ names) h m = elim (Bool-cases (eqb s (codes n))) [
  | inl e ↦ rw ((eqb_iff s (codes n)).0 e) (ground arith)
  | inr e ↦ member_passes p s names (ground arith) (ground arith)
]
