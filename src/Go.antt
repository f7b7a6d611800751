-- ===== src/Go.antt =====
-- The functions of Go's packages and runtime that several parts use, which are parameters.
use foxharness.Prelude.{ℕ, String, List}

-- The bytes of a string and the string of bytes; sha1.Sum in hexadecimal; strings.TrimSpace; the verbs %d
-- and %q of package fmt; and the order in which `range` visits a map, given in order of insertion.
pub record GoLib : Type 0 where
  pub bytes : String → List ℕ
  pub text : List ℕ → String
  pub sha1_hex : List ℕ → String
  pub trim_space : String → String
  pub decimal : ℕ → String
  pub quoted : String → String
  pub range_order : List (String × ℕ) → List (String × ℕ)
