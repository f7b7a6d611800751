-- ===== src/Toolpolicy/Shell/Syntax.antt =====
-- What internal/toolpolicy/shell.go sees of a parsed command of mvdan.cc/sh/v3/syntax: the nodes in
-- the order in which syntax.Walk visits them, the words of simple commands, and the texts that words
-- stand for. Texts are lists of code points.
pub mod Escapes
use foxharness.Prelude.{
  ℕ, ◌+◌, Bool, true, false, not, ◌&&◌, ◌||◌, List, [], ◌∷◌, ◌++◌, Option, some, none,
  if◌then◌else◌, ◌==◌,
}
use foxharness.Prelude.{Text, codes, contains, contains_any}

-- A double-quoted part lists its inner parts, none standing for one that is no literal.
pub data WordPart : Type 0 where
  lit : Text → WordPart
  sgl_quoted : Bool → Text → WordPart
  dbl_quoted : List (Option Text) → WordPart
  other_part : WordPart

abbrev pub Word : Type 0
Word = List WordPart

pub record Assign : Type 0 where
  pub name : Option Text

pub record CallExpr : Type 0 where
  pub assigns : List Assign
  pub args : List Word

-- `other_command` is any other syntax.Command, `other_node` a node of no interest.
pub data Node : Type 0 where
  stmt : Bool → Bool → Node
  redirect proc_subst cmd_subst arithm_exp : Node
  call_expr : CallExpr → Node
  coproc_clause decl_clause binary_cmd other_command other_node : Node

-- syntax.Parser.Parse, none for an error.
abbrev pub Parser : Type 0
Parser = Text → Option (List Node)

abbrev backslash : ℕ
backslash = 92

-- The loop of literalWord, from what the builder holds; none for its early return of "".
literal_from : Text → Word → Option Text
literal_from acc [] = some acc
literal_from acc (lit v ∷ ps) = literal_from (acc ++ v) ps
literal_from acc (sgl_quoted d v ∷ ps) = none
literal_from acc (dbl_quoted qs ∷ ps) = none
literal_from acc (other_part ∷ ps) = none

abbrev pub or_empty : Option Text → Text
or_empty none = []
or_empty (some t) = t

unfoldable pub literal_word : Word → Text
unfolding literal_from
literal_word word = or_empty (literal_from [] word)

-- The loop of unescapeShellText: a backslash before a character yields that character.
unescape : Text → Text
unescape [] = []
unescape (c ∷ []) = c ∷ []
unescape (c ∷ d ∷ s) =
    let kept = unescape s in
    let next = unescape (d ∷ s) in if c == backslash then d ∷ kept else c ∷ next

unfoldable pub unescape_shell_text : Text → Text
unfolding unescape
unescape_shell_text text = if contains text (backslash ∷ []) then unescape text else text

inner_text : Text → List (Option Text) → Option Text
inner_text acc [] = some acc
inner_text acc (none ∷ qs) = none
inner_text acc (some v ∷ qs) = inner_text (acc ++ v) qs

-- What one part adds to runtimeStaticText; none where the function returns "".
part_text : Text → WordPart → Option Text
unfolding unescape_shell_text inner_text
part_text acc (lit v) = some (acc ++ unescape_shell_text v)
part_text acc (sgl_quoted dollar v) =
    if dollar && contains v (backslash ∷ []) then none else some (acc ++ v)
part_text acc (dbl_quoted qs) = inner_text acc qs
part_text acc other_part = none

static_from : Option Text → Word → Option Text
unfolding part_text
static_from none ps = none
static_from (some acc) [] = some acc
static_from (some acc) (p ∷ ps) = static_from (part_text acc p) ps

unfoldable pub runtime_static_text : Word → Text
unfolding static_from
runtime_static_text word = or_empty (static_from (some []) word)

unfoldable pub word_brace_or_glob_prone : Word → Bool
word_brace_or_glob_prone [] = false
word_brace_or_glob_prone (lit v ∷ ps) = contains_any v (codes "{*?[") || word_brace_or_glob_prone ps
word_brace_or_glob_prone (sgl_quoted d v ∷ ps) = word_brace_or_glob_prone ps
word_brace_or_glob_prone (dbl_quoted qs ∷ ps) = word_brace_or_glob_prone ps
word_brace_or_glob_prone (other_part ∷ ps) = word_brace_or_glob_prone ps
