-- ===== src/Toolpolicy/Shell/ReadOnly/Tests.antt =====
-- A concrete command for the theorems on read-only commands.
use foxharness.Toolpolicy.Shell.Syntax.{literal_word, unescape_shell_text}
use foxharness.Prelude.{
  ◌≡◌, refl, true, List, [], ◌∷◌, some, codes, all, any, All, if◌then◌else◌, ◌&&◌,
}
use foxharness.Toolpolicy.Assessment.{low, medium}
use foxharness.Toolpolicy.Path.Tests.{toy}
use foxharness.Toolpolicy.Shell.Syntax.{Node}
use foxharness.Toolpolicy.Shell.ReadOnly.{
  assess_shell, node_read_only, is_call, read_only_call, flag_allowed, command_args_allowed,
}
use foxharness.Toolpolicy.Shell.ReadOnly.Verdict.{
  worst, assess_shell_verdict, assess_shell-RunsReadOnly, RunsReadOnly,
}
use foxharness.Toolpolicy.Shell.Tests.{one_call, parses_as}

abbrev a_listing : List Node
a_listing = one_call ("ls" ∷ "-l" ∷ [])

assess_shell_verdict_example :
    let v = assess_shell toy (codes "w") (codes "w") (parses_as a_listing) (codes "ls -l") in
    (v.parsed ≡ true)
    × (v.read_only
        ≡ (all (node_read_only toy (codes "w") (codes "w")) a_listing && any is_call a_listing))
    × (v.risk ≡ (if v.read_only then low else worst medium a_listing))
assess_shell_verdict_example =
    assess_shell_verdict toy (codes "w") (codes "w") (parses_as a_listing) (codes "ls -l") a_listing
      refl

assess_shell-RunsReadOnly_example :
    let v = assess_shell toy (codes "w") (codes "w") (parses_as a_listing) (codes "ls -l") in
    (ns : List Node) × (parses_as a_listing (codes "ls -l") ≡ some ns)
    × (v.risk ≡ low)
    × All RunsReadOnly ns
unfolding assess_shell read_only_call literal_word unescape_shell_text flag_allowed
    command_args_allowed
assess_shell-RunsReadOnly_example =
    assess_shell-RunsReadOnly toy (codes "w") (codes "w") (parses_as a_listing) (codes "ls -l") refl
