-- ===== src/Toolpolicy/Shell/Synchronous/Supervised.antt =====
-- What a command that AssessSynchronousShell accepts can run, over the whole of its syntax tree.
use foxharness.Prelude.{
  ◌≡◌, refl, Bool, true, false, ◌&&◌, ◌||◌, List, [], ◌∷◌, some, if◌then◌else◌, all, any, Text,
  codes, eqb, to_lower, member, arith, All,
}
use foxharness.Toolpolicy.Shell.Syntax.{
  Word, Node, call_expr, stmt, proc_subst, coproc_clause, decl_clause, Parser, literal_word,
}
use foxharness.Toolpolicy.Shell.Tables.{wrapper_commands}
use foxharness.Toolpolicy.Shell.Synchronous.{
  base_command_name, is_plain_command_name, is_detached_or_interpreter_command, node_synchronous,
  is_call, walk_synchronous, assess_synchronous_shell,
}
use foxharness.Toolpolicy.Shell.Synchronous.Arguments.{IsScreened, IsInert}
use foxharness.Toolpolicy.Shell.Synchronous.Programs.{IsTame, executed_words}

walk_verdict :
    (synchronous saw_call : Bool) (ns : List Node)
    → ((walk_synchronous synchronous saw_call ns).0 ≡ (all node_synchronous ns && synchronous))
      × ((walk_synchronous synchronous saw_call ns).1 ≡ (any is_call ns || saw_call))
unfolding walk_synchronous
walk_verdict synchronous saw_call [] = (refl, refl)
walk_verdict synchronous saw_call (n ∷ ns) = ground (
  arith,
  walk_verdict (if node_synchronous n then synchronous else false)
      (if is_call n then true else saw_call) ns,
)

-- A command that parses is synchronous exactly when it holds a call and every node of it passes, in
-- whatever order the walk takes.
pub assess_synchronous_shell_verdict :
    (parse : Parser) (command : Text) (ns : List Node)
    → parse command ≡ some ns
    → (assess_synchronous_shell parse command).0 ≡ (all node_synchronous ns && any is_call ns)
unfolding assess_synchronous_shell
assess_synchronous_shell_verdict parse command ns h =
    rw (h, assess_synchronous_shell) (ground (arith, walk_verdict true false ns))

abbrev finds : Text → Bool
finds name = member (to_lower (base_command_name name)) ("find" ∷ "gfind" ∷ [])

-- What a call may bring along: nothing that find executes is a detached program, an interpreter or a
-- wrapper, and every argument of another wrapper is screened.
abbrev AreSupervised : (is_find is_wrapper : Bool) → Text → List Word → Type 0
AreSupervised true is_wrapper command args = All IsTame (executed_words false args)
AreSupervised false true command args = All (IsScreened command) args
AreSupervised false false command args = Unit {0}

-- What is allowed as a call: the program is named in plain characters, it is no detached program, no
-- interpreter and not git, and its arguments are those that it may have.
abbrev pub RunsSupervised : List Word → Type 0
RunsSupervised [] = ⊥
RunsSupervised (name ∷ args) =
    (is_plain_command_name (to_lower (literal_word name)) ≡ true)
    × (is_detached_or_interpreter_command (base_command_name (to_lower (literal_word name)))
        ≡ false)
    × (eqb (to_lower (base_command_name (literal_word name))) (codes "git") ≡ false)
    × AreSupervised (finds (literal_word name))
        (member (to_lower (base_command_name (literal_word name))) wrapper_commands)
        (to_lower (base_command_name (literal_word name))) args

abbrev pub NodeSupervised : Node → Type 0
NodeSupervised (call_expr call) = All IsInert call.assigns × RunsSupervised call.args
NodeSupervised (stmt background coprocess) = (background ≡ false) × (coprocess ≡ false)
NodeSupervised proc_subst = ⊥
NodeSupervised coproc_clause = ⊥
NodeSupervised decl_clause = ⊥
NodeSupervised _ = Unit {0}
