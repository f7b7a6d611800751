-- ===== src/Toolpolicy/Shell/Synchronous.antt =====
-- AssessSynchronousShell of internal/toolpolicy/shell.go and the functions below it: does a command
-- provably stay inside the supervised process group?
pub mod Programs
pub mod Arguments
pub mod Supervised
mod Tests
use foxharness.Prelude.{
  ℕ, zero, suc, ◌+◌, Bool, true, false, not, ◌&&◌, ◌||◌, List, [], ◌∷◌, ◌++◌, Option, some, none,
  if◌then◌else◌, ◌==◌, leb, ltb, length, all, any, drop, Text, String, codes, eqb, has_prefix,
  to_lower, member,
}
use foxharness.Toolpolicy.Shell.Syntax.{
  Word, Assign, CallExpr, Node, stmt, redirect, proc_subst, cmd_subst, arithm_exp, call_expr,
  coproc_clause, decl_clause, binary_cmd, other_command, other_node, Parser, literal_word,
  runtime_static_text, word_brace_or_glob_prone,
}
use foxharness.Toolpolicy.Shell.Tables.{
  wrapper_commands, interpreter_name_prefixes, detached_shell_commands,
}

abbrev slash : ℕ
slash = b'/'

-- The rest of a name from the last slash seen so far on.
after_slash : Text → Text → Text
after_slash [] kept = kept
after_slash (c ∷ s) kept = after_slash s (if c == slash then s else kept)

pub base_command_name : Text → Text
unfolding after_slash
base_command_name name = after_slash name name

is_plain_rune : ℕ → Bool
is_plain_rune r =
    (leb b'a' r && leb r b'z')
    || (leb b'A' r && leb r b'Z')
    || (leb b'0' r && leb r b'9')
    || (r == b'.' || r == b'_' || r == b'-' || r == b'/' || r == b'+')

pub is_plain_command_name : Text → Bool
unfolding is_plain_rune
is_plain_command_name [] = false
is_plain_command_name (c ∷ s) = all is_plain_rune (c ∷ s)

pub is_detached_or_interpreter_command : Text → Bool
is_detached_or_interpreter_command name =
    member name detached_shell_commands
    || any (λ p. has_prefix name (codes p)) interpreter_name_prefixes

pub synchronous_command_name : Word → Bool
synchronous_command_name word =
    let name = to_lower (literal_word word) in
    let base = base_command_name name in
    is_plain_command_name name && not (eqb base []) && not (is_detached_or_interpreter_command base)

pub program_word_text : Text → Bool
program_word_text name =
    let base = base_command_name name in
    is_plain_command_name name
    && (eqb base []
        || eqb base (codes ".")
        || eqb base (codes "..")
        || not (is_detached_or_interpreter_command base))

pub synchronous_program_word : Word → Bool
synchronous_program_word word = program_word_text (to_lower (literal_word word))

-- wrapperExecFlags.
abbrev pub wrapper_exec_flags : Text → List String
wrapper_exec_flags command =
    if eqb command (codes "tar")
    then "-I" ∷ "--to-command" ∷ "--use-compress-program" ∷ []
    else if eqb command (codes "bsdtar")
    then "--to-command" ∷ "--use-compress-program" ∷ []
    else if member command ("cpio" ∷ "gcpio" ∷ [])
    then "--to-command" ∷ []
    else if member command ("gsort" ∷ "sort" ∷ [])
    then "--compress-program" ∷ []
    else if eqb command (codes "gtar")
    then "-I" ∷ "--to-command" ∷ "--use-compress-program" ∷ []
    else []

pub wrapper_exec_flag_forbidden : Text → Text → Bool
wrapper_exec_flag_forbidden command text =
    any
      (λ flag.
        if has_prefix (codes flag) (codes "--")
        then eqb text (codes flag) || has_prefix text (codes flag ++ codes "=")
        else has_prefix text (codes flag))
      (wrapper_exec_flags command)

-- wrapperExecFlagLetters.
abbrev pub wrapper_exec_flag_letter : Text → Option ℕ
wrapper_exec_flag_letter command =
    if member command ("flock" ∷ "script" ∷ "su" ∷ [])
    then some b'c'
    else if eqb command (codes "tar")
    then some b'I'
    else none

-- What stands behind the first occurrence of the letter.
pub behind_letter : ℕ → Text → Option Text
behind_letter letter [] = none
behind_letter letter (c ∷ s) = if c == letter then some s else behind_letter letter s

pub value_synchronous : Option Text → Bool
value_synchronous none = true
value_synchronous (some []) = true
value_synchronous (some (c ∷ s)) = program_word_text (to_lower (c ∷ s))

pub cluster_value : Option ℕ → Text → Bool
unfolding value_synchronous behind_letter
cluster_value none text = true
cluster_value (some letter) [] = true
cluster_value (some letter) (c ∷ []) = true
cluster_value (some letter) (c ∷ d ∷ []) = true
cluster_value (some letter) (c ∷ d ∷ e ∷ s) =
    if c == b'-' && not (d == b'-')
    then value_synchronous (behind_letter letter (d ∷ e ∷ s))
    else true

pub wrapper_cluster_value_synchronous : Text → Text → Bool
unfolding cluster_value
wrapper_cluster_value_synchronous command text =
    cluster_value (wrapper_exec_flag_letter command) text

-- One word of a span that find executes.
exec_word_allowed : Text → Bool
exec_word_allowed text =
    let base = base_command_name text in
    is_plain_command_name text
    && not (is_detached_or_interpreter_command base || member base wrapper_commands)

-- The loop of findExecWordsAreSynchronous; the first argument is `span`.
pub find_words : Bool → List Word → Bool
unfolding exec_word_allowed
find_words span [] = true
find_words false (arg ∷ args) =
    let text = to_lower (runtime_static_text arg) in
    let executed = find_words true args in
    let plain = find_words false args in
    if member text ("-exec" ∷ "-execdir" ∷ "-ok" ∷ "-okdir" ∷ [])
    then executed
    else if eqb text [] || word_brace_or_glob_prone arg
    then false
    else plain
find_words true (arg ∷ args) =
    let text = to_lower (runtime_static_text arg) in
    let executed = find_words true args in
    let plain = find_words false args in
    if eqb text (codes ";") || eqb text (codes "+")
    then plain
    else if eqb text (codes "{}")
    then executed
    else if exec_word_allowed text
    then executed
    else false

-- One argument of a wrapper other than find.
pub wrapper_argument : Text → Word → Bool
wrapper_argument command arg =
    let text = runtime_static_text arg in
    (eqb text []
      || (not (wrapper_exec_flag_forbidden command text)
          && wrapper_cluster_value_synchronous command text))
    && synchronous_program_word arg

invocation_of : Text → List Word → Bool
unfolding find_words wrapper_argument
invocation_of command args =
    if eqb command (codes "git")
    then false
    else if not (member command wrapper_commands)
    then true
    else if member command ("find" ∷ "gfind" ∷ [])
    then find_words false args
    else all (wrapper_argument command) args

-- synchronousInvocation; the source calls it only with at least one word.
pub synchronous_invocation : List Word → Bool
unfolding invocation_of
synchronous_invocation [] = false
synchronous_invocation (name ∷ args) =
    synchronous_command_name name
    && invocation_of (to_lower (base_command_name (literal_word name))) args

pub inert_name : Option Text → Bool
inert_name none = false
inert_name (some v) =
    let name = to_lower v in
    member name ("columns" ∷ "lines" ∷ "no_color" ∷ "term" ∷ "tz" ∷ "lang" ∷ [])
    || has_prefix name (codes "lc_")

pub inert_assignments : List Assign → Bool
unfolding inert_name
inert_assignments assigns = all (λ a. inert_name a.name) assigns

-- The verdict of one visited node: does it leave `synchronous` true?
pub node_synchronous : Node → Bool
node_synchronous (stmt background coprocess) = not (background || coprocess)
node_synchronous proc_subst = false
node_synchronous coproc_clause = false
node_synchronous decl_clause = false
node_synchronous (call_expr call) =
    inert_assignments call.assigns && synchronous_invocation call.args
node_synchronous _ = true

abbrev pub is_call : Node → Bool
is_call (call_expr call) = true
is_call _ = false

-- The walk, over what the callback has recorded: `synchronous`, and `sawCall`.
pub walk_synchronous : Bool → Bool → List Node → Bool × Bool
walk_synchronous synchronous saw_call [] = (synchronous, saw_call)
walk_synchronous synchronous saw_call (n ∷ ns) =
    walk_synchronous (if node_synchronous n then synchronous else false)
      (if is_call n then true else saw_call) ns

parsed_synchronous : Option (List Node) → Bool × Bool
parsed_synchronous none = (false, false)
parsed_synchronous (some nodes) =
    let (synchronous, saw_call) = walk_synchronous true false nodes in
    (synchronous && saw_call, true)

-- AssessSynchronousShell: the results `synchronous` and `parsed`.
pub assess_synchronous_shell : Parser → Text → Bool × Bool
unfolding parsed_synchronous
assess_synchronous_shell parse command = parsed_synchronous (parse command)
