-- ===== src/Slash/Arguments/Tests.antt =====
-- Arguments with blanks, and the substitution of concrete ones.
use foxharness.Prelude.{[], ◌∷◌, codes, ◌≡◌, refl}
use foxharness.Slash.Arguments.{
  parse_arguments, substitute_arguments, pass, bracketed, whole, indexed, has_placeholder,
  prefix_of, number, arg_at, joined_args, starts_name, is_digit, is_letter,
}
use foxharness.Slash.Arguments.Quoted.{quoted, parse_arguments-quoted}

parse_arguments-quoted_example :
    parse_arguments (λ s. s) (quoted (codes "hello world" ∷ codes "x" ∷ []))
    ≡ codes "hello world" ∷ codes "x" ∷ []
parse_arguments-quoted_example =
    parse_arguments-quoted (λ s. s) (codes "hello world" ∷ codes "x" ∷ []) refl (refl, (refl, tt))

-- An argument that looks like a placeholder is replaced in its turn.
replaced_twice :
    substitute_arguments (codes "$ARGUMENTS") (codes "cost" ∷ codes "$0" ∷ []) []
    ≡ codes "cost cost"
unfolding substitute_arguments pass bracketed whole indexed has_placeholder prefix_of number arg_at
    joined_args starts_name is_digit is_letter
replaced_twice = refl

by_index :
    substitute_arguments (codes "a $ARGUMENTS[1] b") (codes "x" ∷ codes "y" ∷ []) [] ≡ codes "a y b"
unfolding substitute_arguments pass bracketed whole indexed has_placeholder prefix_of number arg_at
    joined_args starts_name is_digit is_letter
by_index = refl
