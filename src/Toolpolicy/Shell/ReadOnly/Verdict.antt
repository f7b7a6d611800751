-- ===== src/Toolpolicy/Shell/ReadOnly/Verdict.antt =====
-- The verdict of AssessShell, described without the order of the walk.
use foxharness.Prelude.{
  Option-cases, ◌≡◌, refl, inl, inr, Bool, true, false, not, ◌&&◌, ◌||◌, List, [], ◌∷◌, Option,
  some, none, if◌then◌else◌, all, any, Text, codes, eqb, to_lower, member, member_passes, arith,
  All, sym, ◌∙◌, ◌≢◌,
}
use foxharness.Toolpolicy.Assessment.{Risk, low, medium, critical}
use foxharness.Toolpolicy.Path.{FileSystem}
use foxharness.Toolpolicy.Shell.Syntax.{Word, Assign, Node, call_expr, Parser, literal_word}
use foxharness.Toolpolicy.Shell.Tables.{read_only_commands}
use foxharness.Toolpolicy.Shell.ReadOnly.{
  read_only_call, node_read_only, node_risk, call_risk, raise_high, second_word, is_call, Walked,
  visit, walk, parsed_shell, assess_shell, no_assigns, read_only_words,
}

abbrev pub first_word : List Word → Text
first_word [] = []
first_word (word ∷ rest) = literal_word word

-- A command that deletes, changes rights or raises privileges.
abbrev pub is_critical_name : Text → Bool
is_critical_name name = member (to_lower name) ("rm" ∷ "sudo" ∷ "chmod" ∷ "chown" ∷ [])

abbrev words_critical : List Word → Bool
words_critical [] = false
words_critical (word ∷ rest) = is_critical_name (literal_word word)

abbrev words_high : List Word → Bool
words_high [] = false
words_high (word ∷ rest) =
    eqb (to_lower (literal_word word)) (codes "curl")
    || (eqb (to_lower (literal_word word)) (codes "git")
        && member (second_word rest) ("push" ∷ "commit" ∷ []))

abbrev pub node_critical : Node → Bool
node_critical (call_expr call) = words_critical call.args
node_critical _ = false

abbrev pub node_high : Node → Bool
node_high (call_expr call) = words_high call.args
node_high _ = false

-- The risk of a whole command: the worst of its calls.
abbrev pub worst : Risk → List Node → Risk
worst base nodes =
    if any node_critical nodes
    then critical
    else if any node_high nodes
    then raise_high base
    else base

call_risk_lem :
    (r : Risk) (ws : List Word)
    → call_risk r ws
      ≡ (if words_critical ws then critical else if words_high ws then raise_high r else r)
unfolding call_risk
call_risk_lem r [] = refl
call_risk_lem r (word ∷ rest) = ground arith

raise_high_idem : (r : Risk) → raise_high (raise_high r) ≡ raise_high r
unfolding raise_high
raise_high_idem critical = refl
raise_high_idem _ = refl

worst-cons : (r : Risk) (n : Node) (ns : List Node) → worst (node_risk r n) ns ≡ worst r (n ∷ ns)
unfolding node_risk
worst-cons r (call_expr call) ns =
    rw (call_risk_lem r call.args) (unfold raise_high in ground (arith, raise_high_idem r))
worst-cons r _ ns = refl

module _ (fs : FileSystem) (workspace cwd : Text) where
  walk_read_only :
      (w : Walked) (ns : List Node)
      → ((walk fs workspace cwd w ns).read_only
          ≡ (all (node_read_only fs workspace cwd) ns && w.read_only))
        × ((walk fs workspace cwd w ns).saw_call ≡ (any is_call ns || w.saw_call))
  unfolding walk
  walk_read_only w [] = (refl, refl)
  walk_read_only w (n ∷ ns) = ground (arith, walk_read_only (visit fs workspace cwd w n) ns)

  walk_risk : (w : Walked) (ns : List Node) → (walk fs workspace cwd w ns).risk ≡ worst w.risk ns
  unfolding walk
  walk_risk w [] = refl
  walk_risk w (n ∷ ns) = walk_risk (visit fs workspace cwd w n) ns ∙ worst-cons w.risk n ns

  -- A command that parses is read-only exactly when it holds a call and every node of it passes, in
  -- whatever order the walk takes; it is then of low risk, and otherwise critical if any call is
  -- critical, high if any is high, and medium.
  pub assess_shell_verdict :
      (parse : Parser) (command : Text) (ns : List Node)
      → parse command ≡ some ns
      → let v = assess_shell fs workspace cwd parse command in
        (v.parsed ≡ true)
        × (v.read_only ≡ (all (node_read_only fs workspace cwd) ns && any is_call ns))
        × (v.risk ≡ (if v.read_only then low else worst medium ns))
  unfolding assess_shell
  assess_shell_verdict parse command ns h =
      let w : Walked = record { read_only = true; risk = medium; saw_call = false } in
      rw (h, assess_shell) (ground (arith, walk_read_only w ns, walk_risk w ns))

-- What a read-only command may run: a program of the read-only table, none of them critical, without
-- assignments.
abbrev pub RunsReadOnly : Node → Type 0
RunsReadOnly (call_expr call) =
    (member (first_word call.args) read_only_commands ≡ true)
    × (is_critical_name (first_word call.args) ≡ false)
    × (call.assigns ≡ [])
RunsReadOnly _ = Unit {0}

table_not_critical :
    (name : Text) → member name read_only_commands ≡ true → is_critical_name name ≡ false
unfolding to_lower
table_not_critical name h =
    not_true (is_critical_name name)
      (member_passes (λ n. not (is_critical_name n)) name read_only_commands refl h)
  where
    not_true : (b : Bool) → not b ≡ true → b ≡ false
    not_true true q = sym q
    not_true false q = refl

no_assigns_nil : (as' : List Assign) → no_assigns as' ≡ true → as' ≡ []
no_assigns_nil [] h = refl
no_assigns_nil (a ∷ rest) h = cc

both_true : (a b : Bool) → (a && b) ≡ true → (a ≡ true) × (b ≡ true)
both_true a b h = ground arith

not_guarded :
    (empty found rest : Bool) → (if empty || not found then false else rest) ≡ true → found ≡ true
not_guarded empty found rest h = ground arith

module _ (fs : FileSystem) (workspace cwd : Text) where
  words_in_table :
      (ws : List Word)
      → read_only_words fs workspace cwd ws ≡ true
      → member (first_word ws) read_only_commands ≡ true
  unfolding read_only_words
  words_in_table [] h = cc
  words_in_table (word ∷ rest) h =
      let name = literal_word word in not_guarded (eqb name []) (member name read_only_commands) _ h

  node_read_only-RunsReadOnly :
      (n : Node) → node_read_only fs workspace cwd n ≡ true → RunsReadOnly n
  unfolding node_read_only read_only_call
  node_read_only-RunsReadOnly (call_expr call) h =
      let w = words_in_table call.args (ground arith) in
      (w, table_not_critical (first_word call.args) w, no_assigns_nil call.assigns (ground arith))
  node_read_only-RunsReadOnly _ h = tt

  all-RunsReadOnly :
      (ns : List Node) → all (node_read_only fs workspace cwd) ns ≡ true → All RunsReadOnly ns
  all-RunsReadOnly [] h = tt
  all-RunsReadOnly (n ∷ ns) h =
      (node_read_only-RunsReadOnly n (ground arith), all-RunsReadOnly ns (ground arith))

  none_refused :
      (o : Option (List Node)) → (parsed_shell fs workspace cwd o).read_only ≡ true → o ≢ none
  unfolding parsed_shell
  none_refused none h e = cc
  none_refused (some ns) h e = cc

  -- A command that is judged read-only parsed, is of low risk, and every simple command in it, however
  -- deep, names a program of the read-only table, which holds none that is critical, and assigns
  -- nothing.
  pub assess_shell-RunsReadOnly :
      (parse : Parser) (command : Text)
      → let v = assess_shell fs workspace cwd parse command in
        v.read_only ≡ true
        → (ns : List Node) × (parse command ≡ some ns) × (v.risk ≡ low) × All RunsReadOnly ns
  unfolding assess_shell
  assess_shell-RunsReadOnly parse command h = elim (Option-cases (parse command)) [
    | inl e ↦ absurd (none_refused _ h e)
    | inr (ns, e) ↦
        let v = assess_shell_verdict fs workspace cwd parse command ns e in
        (
          ns,
          e,
          v.2 ∙ rw h,
          all-RunsReadOnly ns
              (both_true (all (node_read_only fs workspace cwd) ns) (any is_call ns)
                (sym v.1 ∙ h)).0,
        )
  ]
