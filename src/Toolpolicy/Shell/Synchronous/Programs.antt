-- ===== src/Toolpolicy/Shell/Synchronous/Programs.antt =====
-- Which programs a command that is judged synchronous can run.
use foxharness.Prelude.{
  ◌≡◌, refl, Bool, true, false, ◌||◌, List, [], ◌∷◌, ◌++◌, if◌then◌else◌, any, Text, codes, eqb,
  to_lower, member, arith, ◌==◌,
}
use foxharness.Toolpolicy.Shell.Syntax.{Word, runtime_static_text}
use foxharness.Toolpolicy.Shell.Tables.{wrapper_commands}
use foxharness.Toolpolicy.Shell.Synchronous.{
  slash, after_slash, base_command_name, is_plain_command_name, is_detached_or_interpreter_command,
}

abbrev pub has_slash : Text → Bool
has_slash s = any (λ c. c == slash) s

after_slash_none : (s kept : Text) → has_slash s ≡ false → after_slash s kept ≡ kept
unfolding after_slash
after_slash_none [] kept h = refl
after_slash_none (c ∷ s) kept h = ground (arith, after_slash_none s kept)

after_slash-append :
    (dir base kept : Text) → has_slash base ≡ false → after_slash (dir ++ slash ∷ base) kept ≡ base
unfolding after_slash
after_slash-append [] base kept h = after_slash_none base base h
after_slash-append (c ∷ dir) base kept h = after_slash-append dir base _ h

-- A name without a slash is looked up under itself, and a path that ends in it, absolute or relative,
-- under that name.
pub base_command_name-path :
    (dir base : Text)
    → has_slash base ≡ false
    → (base_command_name base ≡ base) × (base_command_name (dir ++ slash ∷ base) ≡ base)
unfolding base_command_name
base_command_name-path dir base h =
    (after_slash_none base base h, after_slash-append dir base (dir ++ slash ∷ base) h)

-- The words that find would execute: those between an execution flag and the terminator, but for the
-- placeholder. The first argument says whether the word stands in such a span.
pub executed_words : Bool → List Word → List Text
executed_words span [] = []
executed_words false (arg ∷ args) =
    let inside = executed_words true args in
    let outside = executed_words false args in
    if member (to_lower (runtime_static_text arg)) ("-exec" ∷ "-execdir" ∷ "-ok" ∷ "-okdir" ∷ [])
    then inside
    else outside
executed_words true (arg ∷ args) =
    let text = to_lower (runtime_static_text arg) in
    let inside = executed_words true args in
    let outside = executed_words false args in
    if eqb text (codes ";") || eqb text (codes "+")
    then outside
    else if eqb text (codes "{}")
    then inside
    else text ∷ inside

abbrev pub IsTame : Text → Type 0
IsTame text =
    (is_plain_command_name text ≡ true)
    × (is_detached_or_interpreter_command (base_command_name text) ≡ false)
    × (member (base_command_name text) wrapper_commands ≡ false)
