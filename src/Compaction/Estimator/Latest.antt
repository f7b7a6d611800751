-- ===== src/Compaction/Estimator/Latest.antt =====
-- On what the estimate depends.
use foxharness.Prelude.{
  ℕ, ◌+◌, ◌%◌, ◌^◌, true, List, [], ◌∷◌, ◌++◌, some, none, ◌≡◌, refl, signed64,
}
use foxharness.Go.{GoLib}
use foxharness.Schema.{Message, Usage, assistant}
use foxharness.Compaction.Estimator.{
  estimate_messages, total_usage_tokens, usage_tokens, is_positive, from_usage, hybrid_estimate,
}

module _ (go : GoLib) where
  from_usage-append :
      (older newer : List Message) (n : ℕ)
      → from_usage go newer ≡ some n
      → from_usage go (older ++ newer) ≡ some n
  unfolding from_usage
  from_usage-append [] newer n h = h
  from_usage-append (msg ∷ older) newer n h = rw (from_usage-append older newer n h) refl

  from_usage-found :
      (newer : List Message) (msg : Message) (u : Usage)
      → msg.role ≡ assistant
      → msg.usage ≡ some u
      → is_positive go (total_usage_tokens go u) ≡ true
      → from_usage go newer ≡ none
      → from_usage go (msg ∷ newer)
        ≡ some ((total_usage_tokens go u + estimate_messages go newer) % 2 ^ 64)
  unfolding from_usage usage_tokens total_usage_tokens
  from_usage-found newer msg u r q p h = rw (h, r, q, p) refl

  -- If no message behind an assistant message has usage of its own and that message's usage is positive on
  -- 64 bits, the estimate is this usage and the rough estimate of the messages behind it, on 64 bits,
  -- whatever stands before it.
  pub hybrid_estimate-append :
      (older newer : List Message) (msg : Message) (u : Usage)
      → msg.role ≡ assistant
      → msg.usage ≡ some u
      → is_positive go (total_usage_tokens go u) ≡ true
      → from_usage go newer ≡ none
      → hybrid_estimate go (older ++ msg ∷ newer)
        ≡ signed64 ((total_usage_tokens go u + estimate_messages go newer) % 2 ^ 64)
  unfolding hybrid_estimate
  hybrid_estimate-append older newer msg u r q p none_newer =
      rw (from_usage-append older (msg ∷ newer) _ (from_usage-found newer msg u r q p none_newer))
        refl
