-- ===== src/Toolpolicy/Shell/Tests.antt =====
-- Concrete commands for the theorems on the shell classifier.
use foxharness.Prelude.{◌≡◌, refl, false, List, [], ◌∷◌, some, String, codes}
use foxharness.Toolpolicy.Shell.Syntax.{
  Word, lit, Node, call_expr, stmt, Parser, unescape_shell_text,
}
use foxharness.Toolpolicy.Shell.Syntax.Escapes.{
  spells_nil, spells_plain, spells_escaped, unescape_shell_text-Spells,
}

abbrev pub words : List String → List Word
words [] = []
words (s ∷ ss) = (lit (codes s) ∷ []) ∷ words ss

abbrev pub one_call : List String → List Node
one_call ss = stmt false false ∷ call_expr (record { assigns = []; args = words ss }) ∷ []

abbrev pub parses_as : List Node → Parser
parses_as ns command = some ns

unescape_shell_text-Spells_example : unescape_shell_text (codes "a\\ b") ≡ codes "a b"
unescape_shell_text-Spells_example =
    unescape_shell_text-Spells (codes "a\\ b") (codes "a b")
      (spells_plain b'a' refl (spells_escaped b' ' (spells_plain b'b' refl spells_nil)))
