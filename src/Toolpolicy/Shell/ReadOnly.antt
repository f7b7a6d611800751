-- ===== src/Toolpolicy/Shell/ReadOnly.antt =====
-- AssessShell of internal/toolpolicy/shell.go and the functions below it: is a command one of a
-- conservative read-only subset, and how risky is it?
pub mod Verdict
mod Tests
use foxharness.Prelude.{
  ℕ, zero, suc, ◌+◌, Bool, true, false, not, ◌&&◌, ◌||◌, List, [], ◌∷◌, ◌++◌, Option, some, none,
  if◌then◌else◌, ◌==◌, leb, ltb, length, all, any, Text, String, codes, eqb, has_prefix, contains,
  contains_any, to_lower, member,
}
use foxharness.Toolpolicy.Assessment.{
  Risk, low, medium, high, critical, Scope, workspace_scope, external_scope, mixed_scope,
  unknown_scope, other_scope,
}
use foxharness.Toolpolicy.Path.{FileSystem, path_scope}
use foxharness.Toolpolicy.Shell.Syntax.{
  Word, Assign, CallExpr, Node, stmt, redirect, proc_subst, cmd_subst, arithm_exp, call_expr,
  coproc_clause, decl_clause, binary_cmd, other_command, other_node, Parser, literal_word,
  unescape_shell_text,
}
use foxharness.Toolpolicy.Shell.Tables.{read_only_commands}

abbrev is_flag : Text → Bool
is_flag text = has_prefix text (codes "-")

pub find_dangerous_arg : Text → Bool
find_dangerous_arg arg = member arg (
    "-L" ∷ "-H" ∷ "-delete" ∷ "-exec" ∷ "-execdir" ∷ "-ok" ∷ "-okdir" ∷ "-fprint" ∷ "-fprint0"
    ∷ "-fprintf" ∷ "-fls" ∷ [])

pub git_flag_allowed : Text → Bool
git_flag_allowed flag =
    not (contains flag (codes "="))
    && member flag (
        "--" ∷ "--short" ∷ "--porcelain" ∷ "--branch" ∷ "--stat" ∷ "--name-only" ∷ "--name-status"
        ∷ "--cached" ∷ "--staged" ∷ "--color" ∷ "--no-color" ∷ "--oneline" ∷ "--decorate" ∷ "--all"
        ∷ "--remotes" ∷ "--tags" ∷ "--show-current" ∷ "--abbrev-ref" ∷ "--verify" ∷ "-s" ∷ "-b"
        ∷ "-p" ∷ "-u" ∷ "-U" ∷ "-M" ∷ "-C" ∷ "-n" ∷ "-1" ∷ "-2" ∷ "-3" ∷ "-4" ∷ "-5" ∷ [])

abbrev drop_one : Text → Text
drop_one [] = []
drop_one (c ∷ s) = s

pub ripgrep_flag_allowed : Text → Bool
ripgrep_flag_allowed flag =
    if eqb flag (codes "--pre") || has_prefix flag (codes "--pre=")
    then false
    else if eqb flag (codes "--pre-glob") || has_prefix flag (codes "--pre-glob=")
    then false
    else if eqb flag (codes "--hostname-bin") || has_prefix flag (codes "--hostname-bin=")
    then false
    else if eqb flag (codes "--search-zip") || has_prefix flag (codes "--search-zip=")
    then false
    else if is_flag flag && not (has_prefix flag (codes "--"))
    then not (contains (drop_one flag) (codes "z"))
    else true

pub flag_allowed : Text → Text → Bool
unfolding git_flag_allowed ripgrep_flag_allowed find_dangerous_arg
flag_allowed command flag =
    if eqb flag (codes "--")
    then true
    else if eqb command (codes "git")
    then git_flag_allowed flag
    else if eqb command (codes "rg")
    then ripgrep_flag_allowed flag
    else if eqb command (codes "find")
    then not (find_dangerous_arg flag)
    else not (contains flag (codes "f")) || eqb command (codes "ls")

-- The loop of gitArgsAllowed that finds the subcommand.
git_subcommand : List Text → Text
git_subcommand [] = []
git_subcommand (arg ∷ args) =
    let later = git_subcommand args in
    if eqb arg (codes "--") then [] else if is_flag arg then later else arg

pub git_args_allowed : List Text → Bool
unfolding git_subcommand
git_args_allowed args =
    member (git_subcommand args)
      ("status" ∷ "diff" ∷ "log" ∷ "show" ∷ "rev-parse" ∷ "ls-files" ∷ "grep" ∷ [])

pub command_args_allowed : Text → List Text → Bool
unfolding git_args_allowed find_dangerous_arg
command_args_allowed command args =
    if eqb command (codes "git")
    then git_args_allowed args
    else if eqb command (codes "find")
    then all (λ arg. not (find_dangerous_arg arg)) args
    else true

count_operands : List Text → ℕ
count_operands [] = 0
count_operands (value ∷ values) = (if is_flag value then 0 else 1) + count_operands values

pub path_operand_requires_containment : Text → List Text → Text → Bool
unfolding count_operands
path_operand_requires_containment command args arg =
    if contains arg (codes "/") || has_prefix arg (codes ".")
    then true
    else if member command ("cat" ∷ "head" ∷ "tail" ∷ "wc" ∷ "ls" ∷ "find" ∷ "test" ∷ [])
    then true
    else if member command ("grep" ∷ "rg" ∷ [])
    then ltb 1 (count_operands args)
    else false

in_workspace : Option Scope → Bool
in_workspace (some workspace_scope) = true
in_workspace _ = false

abbrev no_assigns : List Assign → Bool
no_assigns [] = true
no_assigns (a ∷ rest) = false

-- The risk of a call that is at least high.
pub raise_high : Risk → Risk
raise_high critical = critical
raise_high _ = high

pub second_word : List Word → Text
second_word [] = []
second_word (word ∷ rest) = to_lower (literal_word word)

call_risk : Risk → List Word → Risk
unfolding raise_high second_word
call_risk risk [] = risk
call_risk risk (word ∷ rest) =
    let name = to_lower (literal_word word) in
    if member name ("rm" ∷ "sudo" ∷ "chmod" ∷ "chown" ∷ [])
    then critical
    else if eqb name (codes "curl")
    then raise_high risk
    else if eqb name (codes "git") && member (second_word rest) ("push" ∷ "commit" ∷ [])
    then raise_high risk
    else risk

pub node_risk : Risk → Node → Risk
unfolding call_risk
node_risk risk (call_expr call) = call_risk risk call.args
node_risk risk _ = risk

abbrev pub is_call : Node → Bool
is_call (call_expr call) = true
is_call _ = false

-- The variables that the callback writes.
pub record Walked : Type 0 where
  pub read_only : Bool
  pub risk : Risk
  pub saw_call : Bool

-- The three results of AssessShell.
pub record ShellVerdict : Type 0 where
  pub read_only : Bool
  pub risk : Risk
  pub parsed : Bool

conclude : Walked → ShellVerdict
conclude w =
    let read_only = w.read_only && w.saw_call in
    record { read_only = read_only; risk = if read_only then low else w.risk; parsed = true }

module _ (fs : FileSystem) (workspace cwd : Text) where
  -- One operand or flag, with the arguments up to and with it.
  pub argument_allowed : Text → List Text → Text → Bool
  unfolding in_workspace
  argument_allowed name args text =
      if is_flag text
      then flag_allowed name text
      else if contains_any text (codes "*?[{") || has_prefix text (codes "~")
      then false
      else if path_operand_requires_containment name args text
      then in_workspace (path_scope fs workspace cwd text)
      else true

  -- The loop over the arguments; `args` are those accepted before.
  pub arguments_allowed : Text → List Text → List Word → Bool
  unfolding argument_allowed
  arguments_allowed name args [] = command_args_allowed name args
  arguments_allowed name args (arg ∷ rest) =
      let text = unescape_shell_text (literal_word arg) in
      let later = arguments_allowed name (args ++ text ∷ []) rest in
      if eqb text []
      then false
      else if argument_allowed name (args ++ text ∷ []) text
      then later
      else false

  read_only_words : List Word → Bool
  unfolding arguments_allowed
  read_only_words [] = false
  read_only_words (word ∷ rest) =
      let name = literal_word word in
      if eqb name [] || not (member name read_only_commands)
      then false
      else arguments_allowed name [] rest

  pub read_only_call : CallExpr → Bool
  unfolding read_only_words
  read_only_call call = no_assigns call.assigns && read_only_words call.args

  -- The case of one visited node: does it leave `readOnly` true?
  pub node_read_only : Node → Bool
  node_read_only (stmt background coprocess) = not (background || coprocess)
  node_read_only redirect = false
  node_read_only proc_subst = false
  node_read_only cmd_subst = false
  node_read_only arithm_exp = false
  node_read_only (call_expr call) = read_only_call call
  node_read_only coproc_clause = false
  node_read_only decl_clause = false
  node_read_only other_command = false
  node_read_only binary_cmd = true
  node_read_only other_node = true

  visit : Walked → Node → Walked
  unfolding node_read_only node_risk
  visit w n = record {
    read_only = if node_read_only n then w.read_only else false;
    risk = node_risk w.risk n;
    saw_call = if is_call n then true else w.saw_call;
  }

  pub walk : Walked → List Node → Walked
  unfolding visit
  walk w [] = w
  walk w (n ∷ ns) = walk (visit w n) ns

  parsed_shell : Option (List Node) → ShellVerdict
  unfolding walk conclude
  parsed_shell none = record { read_only = false; risk = high; parsed = false }
  parsed_shell (some nodes) =
      conclude (walk (record { read_only = true; risk = medium; saw_call = false }) nodes)

  pub assess_shell : Parser → Text → ShellVerdict
  unfolding parsed_shell
  assess_shell parse command = parsed_shell (parse command)
