-- ===== src/Compaction/Window.antt =====
-- internal/compaction/thresholds.go and registry.go: the thresholds that a context window has, and the
-- window of a model. Windows and token counts lie far below 2^63, so that their sums do not wrap around.
pub mod Longest
use foxharness.Prelude.{
  ℕ, ◌+◌, ◌-◌, ◌≤◌, ◌<◌, String, Bool, true, false, List, [], ◌∷◌, Option, some, none,
  if◌then◌else◌, length, codes, has_prefix, str_eq, ltb, ◌≡◌, refl, arith, ℤ, pos, negsuc, ◌-ℤ◌,
  ◌+ℤ◌, ltb_ℤ, ◌&&◌,
}
use foxharness.Go.{GoLib}
use foxharness.Dict.{lookup, put}

pub record ThresholdConfig : Type 0 where
  pub context_window : ℤ
  pub reserved_for_summary : ℤ
  pub auto_compact_buffer : ℤ
  pub warning_buffer : ℤ
  pub blocking_buffer : ℤ

unfoldable pub default_threshold_config : ℤ → ThresholdConfig
default_threshold_config window = record {
  context_window = window;
  reserved_for_summary = pos 20000;
  auto_compact_buffer = pos 13000;
  warning_buffer = pos 20000;
  blocking_buffer = pos 3000;
}

unfoldable pub effective_window : ThresholdConfig → ℤ
effective_window c = c.context_window -ℤ c.reserved_for_summary

unfoldable pub auto_compact : ThresholdConfig → ℤ
unfolding effective_window
auto_compact c = effective_window c -ℤ c.auto_compact_buffer

unfoldable pub warning : ThresholdConfig → ℤ
unfolding auto_compact
warning c = auto_compact c -ℤ c.warning_buffer

unfoldable pub blocking : ThresholdConfig → ℤ
unfolding effective_window
blocking c = effective_window c -ℤ c.blocking_buffer

pub is_short_window : ThresholdConfig → Bool
unfolding effective_window
is_short_window c = ltb_ℤ (effective_window c) (pos 40000)

-- The built-in entries and the overrides, with lowered names.
pub record ModelRegistry : Type 0 where
  pub entries : List (String × ℤ)
  pub config : List (String × ℤ)

pub new_model_registry : ModelRegistry
new_model_registry = record {
  entries =
      ("glm-4", pos 128000)
      ∷ ("glm-4-plus", pos 128000)
      ∷ ("glm-4-air", pos 128000)
      ∷ ("claude-3.5-sonnet", pos 200000)
      ∷ ("claude-3-opus", pos 200000)
      ∷ ("claude-4-sonnet", pos 200000)
      ∷ ("claude-4-opus", pos 200000)
      ∷ [];
  config = [];
}

-- The key of a name: trimmed and lowered. `order` is the order in which `range` visits a map.
module _ (key_of : String → String) (order : List (String × ℤ) → List (String × ℤ)) where
  overridden : List (String × ℤ) → List (String × ℤ) → List (String × ℤ)
  overridden next [] = next
  overridden next ((name, window) ∷ overrides) =
      overridden (put (key_of name) window next) overrides

  pub set_config_override : List (String × ℤ) → ModelRegistry → ModelRegistry
  unfolding overridden
  set_config_override overrides r = record r { config = overridden [] (order overrides) }

  -- The loop over the entries, with the longest prefix so far.
  unfoldable pub longest_prefix : String → String × ℤ → List (String × ℤ) → String × ℤ
  longest_prefix key best [] = best
  longest_prefix key best ((prefix, window) ∷ entries) =
      longest_prefix key
        (if has_prefix (codes key) (codes prefix)
            && ltb (length (codes best.0)) (length (codes prefix))
          then (prefix, window)
          else best)
        entries

  abbrev pub default_window : ℤ
  default_window = pos 128000

  abbrev pub prefix_window : String × ℤ → ℤ
  prefix_window (prefix, window) = if str_eq prefix "" then pos 128000 else window

  abbrev or_prefix : String → List (String × ℤ) → Option ℤ → ℤ
  unfolding longest_prefix
  or_prefix key entries (some window) = window
  or_prefix key entries none = prefix_window (longest_prefix key ("", pos 0) (order entries))

  unfoldable pub lookup_window : String → ModelRegistry → ℤ
  unfolding longest_prefix
  lookup_window model r =
      if str_eq (key_of model) ""
      then pos 128000
      else or_prefix (key_of model) r.entries (lookup (key_of model) r.config)
