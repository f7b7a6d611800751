-- ===== src/Toolpolicy/Shell/Syntax/Escapes.antt =====
-- unescapeShellText undoes every way of escaping a text.
use foxharness.Prelude.{
  ◌∙◌, sym, ℕ, ◌≡◌, refl, false, [], ◌∷◌, ◌==◌, Text, contains, arith, inl, inr, Bool-cases, ap,
}
use foxharness.Toolpolicy.Shell.Syntax.{unescape, unescape_shell_text, backslash}

-- A spelling of a text: any character may be escaped, and a backslash must be.
pub data Spells : Text → Text → Type 0 where
  spells_nil : Spells [] []
  spells_plain :
      {e t : Text} (c : ℕ) → (c == backslash) ≡ false → Spells e t → Spells (c ∷ e) (c ∷ t)
  spells_escaped : {e t : Text} (c : ℕ) → Spells e t → Spells (backslash ∷ c ∷ e) (c ∷ t)

unescape_plain : (c : ℕ) (s : Text) → (c == backslash) ≡ false → unescape (c ∷ s) ≡ c ∷ unescape s
unfolding unescape
unescape_plain c [] h = refl
unescape_plain c (d ∷ s) h = rw h

Spells-unescape : {e t : Text} → Spells e t → unescape e ≡ t
unfolding unescape
Spells-unescape spells_nil = refl
Spells-unescape (spells_plain {e = e} c h p) = unescape_plain c e h ∙ ap (◌∷◌ c) (Spells-unescape p)
Spells-unescape (spells_escaped c p) = ap (◌∷◌ c) (Spells-unescape p)

no_backslash : (s : Text) → contains s (backslash ∷ []) ≡ false → unescape s ≡ s
unfolding unescape
no_backslash [] h = refl
no_backslash (c ∷ s) h =
    unescape_plain c s (ground arith) ∙ ap (◌∷◌ c) (no_backslash s (ground arith))

-- Whatever characters a spelling escapes, the text that the program classifies is the one spelled.
pub unescape_shell_text-Spells : (e t : Text) → Spells e t → unescape_shell_text e ≡ t
unfolding unescape_shell_text
unescape_shell_text-Spells e t p = elim (Bool-cases (contains e (backslash ∷ []))) [
  | inl h ↦ rw h (Spells-unescape p)
  | inr h ↦ rw h (sym (no_backslash e h) ∙ Spells-unescape p)
]
