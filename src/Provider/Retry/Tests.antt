-- ===== src/Provider/Retry/Tests.antt =====
-- A client that fails twice, and the default delays.
use foxharness.Prelude.{
  ℕ, ◌-◌, false, if◌then◌else◌, ltb, ◌≡◌, refl, arith, inl, inr, pos, negsuc, pos_part, some, codes,
}
use foxharness.Provider.Retry.{
  RetryConfig, normalized, Client, ProviderError, delay, chat_completion_with_retry,
}
use foxharness.Provider.Retry.Delays.{smaller, scaled, delay-scaled}
use foxharness.Provider.Retry.Attempts.{counting, Made, chat_completion_with_retry-Made}

abbrev defaults : RetryConfig
defaults = record {
  max_attempts = pos 0;
  initial_delay = negsuc 5;
  max_delay = pos 0;
  request_timeout = pos 0;
}

delay-scaled_example : delay defaults 5 ≡ pos (smaller (scaled 4 750000000) 8000000000)
unfolding normalized
delay-scaled_example = delay-scaled defaults 5 750000000 8000000000 refl refl (omega arith)

abbrev busy : ProviderError
busy = record {
  status_code = some (pos 429);
  is_canceled = false;
  is_deadline_or_timeout = false;
  is_temporary_net = false;
  message = codes "too many requests";
}

-- The world counts the failures that are left.
abbrev a_client : Client ℕ ℕ
a_client = record {
  request = λ w. if ltb 0 w then (inr busy, w - 1) else (inl 42, w);
  is_done = λ w. false;
  sleep = λ d w. (false, w);
}

chat_completion_with_retry-Made_example :
    let (answer, (w', made)) = chat_completion_with_retry (counting a_client) defaults (2, 0) in
    Made (pos_part (normalized defaults).max_attempts) answer made
chat_completion_with_retry-Made_example = chat_completion_with_retry-Made a_client defaults 2
