-- ===== src/Slash/Arguments.antt =====
-- internal/slash/arguments.go: the arguments of a command, and their place in its text. Texts are lists of code
-- points; strings.TrimSpace is a parameter. A regular expression is a test at one position, which gives the
-- length of the match; a pass replaces the leftmost matches, none of which overlap.
pub mod Quoted
mod Tests
use foxharness.Prelude.{
  ℕ, zero, suc, ◌+◌, ◌-◌, ◌*◌, ◌≤◌, String, Bool, true, false, List, [], ◌∷◌, ◌++◌, Option, some,
  none, if◌then◌else◌, length, drop, Text, codes, eqb, has_prefix, leb, ltb, ◌&&◌, ◌||◌, not, ◌==◌,
  any, ◌≡◌,
}

-- The words of ParseArguments that are done, the current one, and whether a quote is open.
flush : Text → List Text → List Text
flush [] out = out
flush (c ∷ current) out = out ++ (c ∷ current) ∷ []

parse_from : List Text → Text → Bool → Text → List Text
unfolding flush
parse_from out current quoted [] = flush current out
parse_from out current quoted (r ∷ input) =
    if r == 0x22
    then parse_from out current (not quoted) input
    else if not quoted && (r == 0x20 || r == 9)
    then parse_from (flush current out) [] quoted input
    else parse_from out (current ++ r ∷ []) quoted input

pub parse_arguments : (Text → Text) → Text → List Text
unfolding parse_from
parse_arguments trim_space input = parse_from [] [] false (trim_space input)

pub arg_at : List Text → ℕ → Text
arg_at [] index = []
arg_at (a ∷ args) zero = a
arg_at (a ∷ args) (suc index) = arg_at args index

-- strings.Join with a blank.
pub joined_args : List Text → Text
joined_args [] = []
joined_args (a ∷ []) = a
joined_args (a ∷ b ∷ args) = a ++ 0x20 ∷ joined_args (b ∷ args)

-- One pass over a text: `found` gives the length of a match that begins a text, none or at least 1, and its
-- replacement. The first argument counts the code points of a match that are still to be passed over.
pass : (Text → Option (ℕ × Text)) → ℕ → Text → Text
pass found skip [] = []
pass found (suc skip) (c ∷ s) = pass found skip s
pass found zero (c ∷ s) = elim (found (c ∷ s)) [
  | none ↦ c ∷ pass found zero s
  | some (count, replacement) ↦ replacement ++ pass found (count - 1) s
]

is_digit : ℕ → Bool
is_digit c = leb 0x30 c && leb c 0x39

is_letter : ℕ → Bool
is_letter c = (leb 0x41 c && leb c 0x5a) || (leb 0x61 c && leb c 0x7a) || c == 0x5f

-- The longest prefix of code points that pass a test.
prefix_of : (ℕ → Bool) → Text → Text
prefix_of test [] = []
prefix_of test (c ∷ s) = let rest = prefix_of test s in if test c then c ∷ rest else []

-- strconv.Atoi on digits; a number that does not fit an int is out of range here as there.
number : ℕ → Text → ℕ
number n [] = n
number n (c ∷ s) = number (n * 10 + (c - 0x30)) s

abbrev with_digits : (ℕ → Text) → ℕ → Bool → Text → Option (ℕ × Text)
unfolding number
with_digits replacement before closed [] = none
with_digits replacement before closed (d ∷ digits) =
    if closed
    then some (before + length (d ∷ digits), replacement (number 0 (d ∷ digits)))
    else none

-- $ARGUMENTS[n], $ARGUMENTS, $n and $name.
bracketed : List Text → Text → Option (ℕ × Text)
unfolding arg_at is_digit prefix_of number
bracketed args s =
    let opening = codes "$ARGUMENTS[" in
    let digits = prefix_of is_digit (drop (length opening) s) in
    if has_prefix s opening
    then with_digits (arg_at args) (length opening + 1)
        (has_prefix (drop (length opening + length digits) s) (codes "]")) digits
    else none

whole : List Text → Text → Option (ℕ × Text)
unfolding joined_args
whole args s = if has_prefix s (codes "$ARGUMENTS") then some (10, joined_args args) else none

indexed : List Text → Text → Option (ℕ × Text)
unfolding arg_at is_digit prefix_of number
indexed args s =
    if has_prefix s (codes "$")
    then with_digits (arg_at args) 1 true (prefix_of is_digit (drop 1 s))
    else none

-- The first place of a name among the declared ones.
place : Text → List Text → ℕ → Option ℕ
place name [] index = none
place name (n ∷ names) index =
    let later = place name names (index + 1) in if eqb n name then some index else later

starts_name : Text → Bool
unfolding is_letter
starts_name [] = false
starts_name (c ∷ s) = is_letter c

abbrev value_of : List Text → Text → Option ℕ → Text
unfolding arg_at
value_of args name none = 0x24 ∷ name
value_of args name (some index) = arg_at args index

named : List Text → List Text → Text → Option (ℕ × Text)
unfolding place starts_name arg_at is_letter is_digit prefix_of
named args names s =
    let name = prefix_of (λ c. is_letter c || is_digit c) (drop 1 s) in
    if has_prefix s (codes "$") && starts_name (drop 1 s)
    then some (length name + 1, value_of args name (place name names 0))
    else none

-- Whether a placeholder stands anywhere: $ARGUMENTS is one of the names.
has_placeholder : Text → Bool
unfolding starts_name is_digit
has_placeholder [] = false
has_placeholder (c ∷ s) =
    let later = has_placeholder s in
    (c == 0x24 && (starts_name s || any is_digit (prefix_of is_digit s))) || later

pub substitute_arguments : Text → List Text → List Text → Text
unfolding pass bracketed whole indexed named has_placeholder
substitute_arguments content args names =
    let first = pass (bracketed args) 0 content in
    let second = pass (whole args) 0 first in
    let third = pass (indexed args) 0 second in
    let out = if ltb 0 (length names) then pass (named args names) 0 third else third in
    if not (has_placeholder content) && ltb 0 (length args)
    then out ++ codes "\n\nARGUMENTS: " ++ joined_args args
    else out

bracketed_names : List Text → Text
bracketed_names [] = []
bracketed_names (n ∷ []) = 0x5b ∷ n ++ 0x5d ∷ []
bracketed_names (n ∷ m ∷ names) = (0x5b ∷ n ++ 0x5d ∷ []) ++ 0x20 ∷ bracketed_names (m ∷ names)

pub progressive_hint : List Text → ℕ → Text → Text
unfolding bracketed_names
progressive_hint names filled [] =
    if leb (length names) filled then [] else bracketed_names (drop filled names)
progressive_hint names filled (c ∷ custom) = c ∷ custom
