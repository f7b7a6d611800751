-- ===== src/Toolpolicy/Shell/Synchronous/Tests.antt =====
-- Concrete commands for the theorems on supervised commands.
use foxharness.Prelude.{◌++◌, false, List, [], ◌∷◌, some, codes}
use foxharness.Toolpolicy.Shell.Syntax.{Word, Node, stmt, call_expr}
use foxharness.Toolpolicy.Shell.Tests.{words, one_call}

abbrev exec_args : List Word
exec_args = words ("." ∷ "-exec" ∷ "wc" ∷ "{}" ∷ ";" ∷ [])

-- find . -exec wc {} ";" and LC_ALL=C tar -xf a.tar
abbrev a_script : List Node
a_script =
    one_call ("find" ∷ "." ∷ "-exec" ∷ "wc" ∷ "{}" ∷ ";" ∷ [])
    ++ stmt false false
      ∷ call_expr (record {
        assigns = record { name = some (codes "LC_ALL") } ∷ [];
        args = words ("tar" ∷ "-xf" ∷ "a.tar" ∷ []);
      })
      ∷ []
