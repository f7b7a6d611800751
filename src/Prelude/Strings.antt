-- ===== src/Prelude/Strings.antt =====
-- Strings that the program joins, and when the result is empty.
use Prim.Native.Nat.{ℕ}
use Prim.Native.String.{String, ◌++◌ as text_append}
use Prim.Native.String.append
use mathlib.Core.Path.{◌≡◌, ap}
use mathlib.Core.Logic.{inl, inr}
use mathlib.Core.Bool.{false}
use mathlib.Core.List.{List, [], ◌∷◌}
use native.Mathlib.Omega.{arith}
use text.Mathlib.TextEquality.{eq_iff}
use foxharness.Prelude.Tests.{str_eq, Bool-cases}
use foxharness.Prelude.Runes.{Text, codes}

-- The pieces that a strings.Builder is given, in order.
abbrev pub joined : List String → String
joined [] = ""
joined (s ∷ ss) = text_append s (joined ss)

-- strings.Join.
pub join : List String → String → String
join [] separator = ""
join (s ∷ []) separator = s
join (s ∷ t ∷ ss) separator = text_append s (text_append separator (join (t ∷ ss) separator))

has_code : (s : String) (c : ℕ) (cs : Text) → codes s ≡ c ∷ cs → str_eq s "" ≡ false
has_code s c cs h = elim (Bool-cases (str_eq s "")) [
  | inl b ↦ let e : s ≡ "" = ground (arith, eq_iff s "") in let q : codes s ≡ [] = ap codes e in cc
  | inr b ↦ b
]

pub append_nonempty : (s t : String) → str_eq s "" ≡ false → str_eq (text_append s t) "" ≡ false
append_nonempty String.[] t h = cc
append_nonempty (String.◌∷◌ c s) t h =
    let e : text_append (String.◌∷◌ c s) t ≡ String.◌∷◌ c (text_append s t) =
      λ i. append.cons c s t i in
    has_code (text_append (String.◌∷◌ c s) t) _ _ (ap codes e)
