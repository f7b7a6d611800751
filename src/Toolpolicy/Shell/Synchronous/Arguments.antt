-- ===== src/Toolpolicy/Shell/Synchronous/Arguments.antt =====
-- What AssessSynchronousShell lets a call bring along: the arguments of a wrapper other than find, and
-- the assignments in front of a command.
use foxharness.Prelude.{
  ℕ, ◌≡◌, ◌≢◌, refl, Bool, true, false, not, ◌&&◌, ◌||◌, List, [], ◌∷◌, ◌++◌, Option, some, none,
  ◌⊎◌, inl, inr, if◌then◌else◌, all, any, Text, String, codes, eqb, eqb_iff, has_prefix, to_lower,
  member, arith, All, Bool-cases, ◌==◌,
}
use foxharness.Toolpolicy.Shell.Syntax.{Word, Assign, literal_word, runtime_static_text}
use foxharness.Toolpolicy.Shell.Synchronous.{
  base_command_name, is_plain_command_name, is_detached_or_interpreter_command, program_word_text,
  synchronous_program_word, wrapper_exec_flags, wrapper_exec_flag_letter,
  wrapper_exec_flag_forbidden, wrapper_cluster_value_synchronous, behind_letter, value_synchronous,
  cluster_value, wrapper_argument, inert_name, inert_assignments,
}

-- A word that may be run: in plain characters, and its last part is no detached program or interpreter.
abbrev pub IsProgram : Text → Type 0
IsProgram name =
    let base = base_command_name name in
    (is_plain_command_name name ≡ true)
    × ((eqb base []
          || eqb base (codes ".")
          || eqb base (codes "..")
          || not (is_detached_or_interpreter_command base))
        ≡ true)

program_word_text-IsProgram : (name : Text) → program_word_text name ≡ true → IsProgram name
unfolding program_word_text
program_word_text-IsProgram name h = ground arith

-- A text that is not a flag: not itself nor with a value behind `=` for a long flag, and not with a value
-- attached for a short one.
abbrev pub IsAbsent : Bool → Text → Text → Type 0
IsAbsent true flag text = (text ≢ flag) × (has_prefix text (flag ++ codes "=") ≡ false)
IsAbsent false flag text = has_prefix text flag ≡ false

abbrev pub AllAbsent : Text → List String → Type 0
AllAbsent text flags =
    All (λ flag. IsAbsent (has_prefix (codes flag) (codes "--")) (codes flag) text) flags

flag-IsAbsent :
    (long : Bool) (flag text : Text)
    → (if long then eqb text flag || has_prefix text (flag ++ codes "=") else has_prefix text flag)
      ≡ false
    → IsAbsent long flag text
flag-IsAbsent true flag text h = (λ q. ground (arith, eqb_iff text flag), ground arith)
flag-IsAbsent false flag text h = h

flags-AllAbsent :
    (flags : List String) (text : Text)
    → any
        (λ flag.
          if has_prefix (codes flag) (codes "--")
          then eqb text (codes flag) || has_prefix text (codes flag ++ codes "=")
          else has_prefix text (codes flag))
        flags
      ≡ false
    → AllAbsent text flags
flags-AllAbsent [] text h = tt
flags-AllAbsent (flag ∷ flags) text h =
    let (first, later) = neither _ _ h in
    (
      flag-IsAbsent (has_prefix (codes flag) (codes "--")) (codes flag) text first,
      flags-AllAbsent flags text later,
    )
  where
    neither : (a b : Bool) → (a || b) ≡ false → (a ≡ false) × (b ≡ false)
    neither a b q = ground arith

-- The value that stands behind the letter of a flag in a cluster of flags of one letter.
abbrev pub clustered : Option ℕ → Text → Option Text
clustered (some letter) (c ∷ d ∷ e ∷ s) =
    if c == b'-' && not (d == b'-') then behind_letter letter (d ∷ e ∷ s) else none
clustered _ _ = none

abbrev pub IsProgramIfAny : Option Text → Type 0
IsProgramIfAny (some (c ∷ s)) = IsProgram (to_lower (c ∷ s))
IsProgramIfAny _ = Unit {0}

value_synchronous-IsProgramIfAny :
    (value : Option Text) → value_synchronous value ≡ true → IsProgramIfAny value
unfolding value_synchronous
value_synchronous-IsProgramIfAny none h = tt
value_synchronous-IsProgramIfAny (some []) h = tt
value_synchronous-IsProgramIfAny (some (c ∷ s)) h = program_word_text-IsProgram (to_lower (c ∷ s)) h

cluster_value-IsProgramIfAny :
    (letter : Option ℕ) (text : Text)
    → cluster_value letter text ≡ true
    → IsProgramIfAny (clustered letter text)
unfolding cluster_value
cluster_value-IsProgramIfAny none text h = tt
cluster_value-IsProgramIfAny (some letter) [] h = tt
cluster_value-IsProgramIfAny (some letter) (c ∷ []) h = tt
cluster_value-IsProgramIfAny (some letter) (c ∷ d ∷ []) h = tt
cluster_value-IsProgramIfAny (some letter) (c ∷ d ∷ e ∷ s) h =
    elim (Bool-cases (c == b'-' && not (d == b'-'))) [
      | inl q ↦
          rw q (value_synchronous-IsProgramIfAny (behind_letter letter (d ∷ e ∷ s)) (rw q at h))
      | inr q ↦ rw q tt
    ]

-- An argument of a wrapper: a word that may be run, whose text, where it is known, is none of the flags
-- by which the wrapper would execute a program, and hides no such program in a cluster of flags.
abbrev pub IsScreened : Text → Word → Type 0
IsScreened command arg =
    let text = runtime_static_text arg in
    IsProgram (to_lower (literal_word arg))
    × ((text ≡ [])
        ⊎ (AllAbsent text (wrapper_exec_flags command)
            × IsProgramIfAny (clustered (wrapper_exec_flag_letter command) text)))

is_empty : (text : Text) → eqb text [] ≡ true → text ≡ []
is_empty text h = ground (arith, eqb_iff text [])

parts_of_argument :
    (empty forbidden cluster word : Bool)
    → ((empty || (not forbidden && cluster)) && word) ≡ true
    → (word ≡ true) × ((empty ≡ true) ⊎ ((forbidden ≡ false) × (cluster ≡ true)))
parts_of_argument true forbidden cluster word h = (h, inl refl)
parts_of_argument false true cluster word h = cc
parts_of_argument false false true word h = (h, inr (refl, refl))
parts_of_argument false false false word h = cc

wrapper_argument-IsScreened :
    (command : Text) (arg : Word) → wrapper_argument command arg ≡ true → IsScreened command arg
unfolding wrapper_argument synchronous_program_word wrapper_exec_flag_forbidden
    wrapper_cluster_value_synchronous
wrapper_argument-IsScreened command arg h =
    let text = runtime_static_text arg in
    let (word, known) =
      parts_of_argument (eqb text []) (wrapper_exec_flag_forbidden command text)
        (wrapper_cluster_value_synchronous command text) (synchronous_program_word arg) h in
    (
      program_word_text-IsProgram (to_lower (literal_word arg)) word,
      elim known [
        | inl empty ↦ inl (is_empty text empty)
        | inr (absent, cluster) ↦ inr (
          flags-AllAbsent (wrapper_exec_flags command) text absent,
          cluster_value-IsProgramIfAny (wrapper_exec_flag_letter command) text cluster,
        )
      ],
    )

pub all-IsScreened :
    (command : Text) (args : List Word)
    → all (wrapper_argument command) args ≡ true
    → All (IsScreened command) args
all-IsScreened command [] h = tt
all-IsScreened command (arg ∷ args) h = (
  wrapper_argument-IsScreened command arg (ground arith),
  all-IsScreened command args (ground arith),
)

-- An assignment to a variable that no program takes a program from.
abbrev pub IsInert : Assign → Type 0
IsInert assign =
    (v : Text) × (assign.name ≡ some v)
    × ((member (to_lower v) ("columns" ∷ "lines" ∷ "no_color" ∷ "term" ∷ "tz" ∷ "lang" ∷ []) ≡ true)
        ⊎ (has_prefix (to_lower v) (codes "lc_") ≡ true))

inert_name_cases :
    (name : Option Text)
    → inert_name name ≡ true
    → (v : Text) × (name ≡ some v)
      × ((member (to_lower v) ("columns" ∷ "lines" ∷ "no_color" ∷ "term" ∷ "tz" ∷ "lang" ∷ [])
            ≡ true)
          ⊎ (has_prefix (to_lower v) (codes "lc_") ≡ true))
unfolding inert_name
inert_name_cases none h = cc
inert_name_cases (some v) h = (v, refl, either _ _ h)
  where
    either : (a b : Bool) → (a || b) ≡ true → (a ≡ true) ⊎ (b ≡ true)
    either true b q = inl refl
    either false b q = inr q

pub inert_assignments-IsInert :
    (assigns : List Assign) → inert_assignments assigns ≡ true → All IsInert assigns
unfolding inert_assignments
inert_assignments-IsInert [] h = tt
inert_assignments-IsInert (a ∷ assigns) h =
    (inert_name_cases a.name (ground arith), inert_assignments-IsInert assigns (ground arith))
