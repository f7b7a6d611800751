-- ===== src/Compaction/Estimator.antt =====
-- internal/compaction/estimator.go: how many tokens a conversation takes. The lengths of texts lie far below
-- 2^61, so that the rough sums do not wrap around; the recorded usage is summed on 64 bits.
pub mod Latest
use foxharness.Prelude.{
  ℕ, ◌+◌, ◌*◌, ◌/◌, ◌%◌, ◌^◌, ◌≤◌, String, Bool, true, false, List, [], ◌∷◌, Option, some, none,
  if◌then◌else◌, length, Text, str_eq, ltb, ◌≡◌, refl, arith, ◌==◌, ◌||◌, ℤ, pos, negsuc, signed64,
  ltb_ℤ, ◌&&◌,
}
use foxharness.Go.{GoLib}
use foxharness.Schema.{Message, ContentPart, ToolCall, Usage, Role, assistant}

-- The blanks that looksLikeJSON skips.
abbrev is_space : ℕ → Bool
is_space c = c == 0x20 || c == 9 || c == 10 || c == 13

pub looks_like_json : Text → Bool
looks_like_json [] = false
looks_like_json (c ∷ s) =
    let rest = looks_like_json s in if is_space c then rest else c == 0x7b || c == 0x5b

module _ (go : GoLib) where
  pub estimate_text : String → ℕ
  unfolding looks_like_json
  estimate_text text =
      let count = length (go.bytes text) in
      if str_eq text ""
      then 0
      else (if looks_like_json (go.bytes text) then count / 2 else count / 4) * 4 / 3

  pub estimate_parts : List ContentPart → ℕ
  unfolding estimate_text
  estimate_parts [] = 0
  estimate_parts (part ∷ parts) =
      (if str_eq part.part_type "image"
        then 4096
        else estimate_text part.text + estimate_text part.uri)
      + estimate_parts parts

  pub estimate_calls : List ToolCall → ℕ
  unfolding estimate_text
  estimate_calls [] = 0
  estimate_calls (call ∷ calls) =
      estimate_text call.id
      + estimate_text call.name
      + estimate_text call.arguments
      + estimate_calls calls

  pub estimate_messages : List Message → ℕ
  unfolding estimate_text estimate_parts estimate_calls
  estimate_messages [] = 0
  estimate_messages (msg ∷ messages) =
      estimate_text msg.content
      + estimate_text msg.structured_content
      + estimate_parts msg.content_parts
      + estimate_calls msg.tool_calls
      + (if str_eq msg.tool_call_id "" then 0 else estimate_text msg.tool_call_id)
      + estimate_messages messages

  -- totalUsageTokens, as a 64-bit pattern.
  unfoldable pub total_usage_tokens : Usage → ℕ
  total_usage_tokens u =
      (u.input_tokens + u.output_tokens + u.cache_creation_tokens + u.cache_read_tokens) % 2 ^ 64

  abbrev pub usage_tokens : Role → Option Usage → ℕ
  unfolding total_usage_tokens
  usage_tokens assistant (some u) = total_usage_tokens u
  usage_tokens _ _ = 0

  abbrev pub is_positive : ℕ → Bool
  is_positive n = ltb 0 n && ltb n (2 ^ 63)

  abbrev pub or_usage : Option ℕ → Message → List Message → Option ℕ
  unfolding estimate_messages
  or_usage (some n) msg tail = some n
  or_usage none msg tail =
      let exact = usage_tokens msg.role msg.usage in
      if is_positive exact then some ((exact + estimate_messages tail) % 2 ^ 64) else none

  -- The loop of HybridEstimator.Estimate, which goes backwards: the usage of a later message wins.
  unfoldable pub from_usage : List Message → Option ℕ
  unfolding estimate_messages
  from_usage [] = none
  from_usage (msg ∷ tail) = or_usage (from_usage tail) msg tail

  abbrev pub or_rough : List Message → Option ℕ → ℤ
  unfolding estimate_messages
  or_rough messages none = pos (estimate_messages messages)
  or_rough messages (some n) = signed64 n

  pub hybrid_estimate : List Message → ℤ
  unfolding from_usage
  hybrid_estimate messages = or_rough messages (from_usage messages)
