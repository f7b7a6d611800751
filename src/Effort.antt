-- ===== src/Effort.antt =====
-- internal/effort/effort.go: the reasoning effort that is sent to a provider. `normalize` is
-- strings.ToLower(strings.TrimSpace(s)), and `is_blank` tells whether TrimSpace leaves nothing.
pub mod Legal
use foxharness.Prelude.{
  String, Bool, true, false, List, [], ◌∷◌, Option, some, none, if◌then◌else◌, str_eq, any, ◌&&◌,
}
use foxharness.Dict.{lookup}

unfoldable pub protocol_options : List (String × List String)
protocol_options =
    ("openai", "auto" ∷ "none" ∷ "minimal" ∷ "low" ∷ "medium" ∷ "high" ∷ "xhigh" ∷ [])
    ∷ ("claude", "auto" ∷ "low" ∷ "medium" ∷ "high" ∷ "xhigh" ∷ "max" ∷ [])
    ∷ []

pub record ResolutionInput : Type 0 where
  pub protocol : String
  pub frontmatter : String
  pub override : String
  pub persisted : String

-- A value, or one of the two errors with what it names.
pub data Checked : Type 0 where
  value : String → Checked
  unsupported : String → Checked
  invalid : String → String → Checked

module _ (normalize : String → String) (is_blank : String → Bool) where
  unfoldable pub options_for_protocol : String → Option (List String)
  unfolding protocol_options
  options_for_protocol protocol = lookup (normalize protocol) protocol_options

  abbrev or_auto : String → String
  or_auto s = if str_eq s "" then "auto" else s

  abbrev among : String → String → Option (List String) → Checked
  among protocol v none = unsupported protocol
  among protocol v (some options) =
      if any (λ option. str_eq v option) options then value v else invalid v protocol

  unfoldable pub validate : String → String → Checked
  unfolding protocol_options
  validate protocol v =
      among (normalize protocol) (or_auto (normalize v))
        (lookup (normalize protocol) protocol_options)

  abbrev explicit : Checked → Checked
  explicit (value v) = if str_eq v "auto" then value "" else value v
  explicit (unsupported protocol) = unsupported protocol
  explicit (invalid v protocol) = invalid v protocol

  unfoldable pub explicit_for_provider : String → String → Checked
  unfolding validate
  explicit_for_provider protocol v = explicit (validate protocol v)

  -- The loop over the sources, in the order of precedence.
  abbrev first_set : String → List String → Checked
  unfolding validate
  first_set protocol [] = validate protocol "auto"
  first_set protocol (v ∷ vs) =
      let rest = first_set protocol vs in if is_blank v then rest else validate protocol v

  unfoldable pub resolve : ResolutionInput → Checked
  unfolding validate
  resolve input =
      first_set input.protocol (input.frontmatter ∷ input.override ∷ input.persisted ∷ [])
