-- ===== src/Provider/Retry.antt =====
-- internal/provider/retry.go: how often a request to a model is made, and how long a retry waits. A duration is
-- a number of nanoseconds in an int64; its product with two wraps around on 64 bits. The client, the context
-- and the clock work on a world `W`; the log lines are left out. The environment's texts are read by
-- strconv.Atoi and time.ParseDuration, which are parameters.

pub mod Delays
pub mod Attempts
mod Tests
use foxharness.Prelude.{
  ◌⊎◌, inl, inr, ℕ, zero, suc, ◌+◌, ◌-◌, ◌*◌, ◌%◌, ◌^◌, ◌≤◌, String, Bool, true, false, List, [],
  ◌∷◌, Option, some, none, if◌then◌else◌, str_eq, leb, ltb, any, ◌&&◌, ◌||◌, not, ◌==◌, contains,
  codes, Text, ℤ, pos, negsuc, pos_part, neg_part, ltb_ℤ, sub_ℕ,
}

pub record RetryConfig : Type 0 where
  pub max_attempts : ℤ
  pub initial_delay : ℤ
  pub max_delay : ℤ
  pub request_timeout : ℤ

-- The sign of an int64 from its pattern, and a product with two.
abbrev pub wrapped : ℕ → ℤ
wrapped n = if ltb n (2 ^ 63) then pos n else sub_ℕ n (2 ^ 64)

abbrev pub twice : ℤ → ℤ
twice (pos n) = wrapped (n * 2 % 2 ^ 64)
twice (negsuc n) = wrapped ((2 ^ 64 - (suc n) * 2 % 2 ^ 64) % 2 ^ 64)

abbrev pub is_positive : ℤ → Bool
is_positive (pos zero) = false
is_positive (pos (suc n)) = true
is_positive (negsuc n) = false

abbrev pub or_default : ℤ → ℤ → ℤ
or_default value fallback = if is_positive value then value else fallback

-- normalized: a negative delay becomes 0, and 0 the default.
unfoldable pub normalized : RetryConfig → RetryConfig
normalized c =
    let initial = or_default c.initial_delay (pos 750000000) in
    let max = or_default c.max_delay (pos 8000000000) in
    record {
      max_attempts = or_default c.max_attempts (pos 4);
      initial_delay = initial;
      max_delay = if ltb_ℤ max initial then initial else max;
      request_timeout = c.request_timeout;
    }

-- The loop of delay, with the number of its rounds.
unfoldable pub doubled : ℤ → ℕ → ℤ → ℤ
doubled max zero delay = if ltb_ℤ max delay then max else delay
doubled max (suc n) delay =
    let later = doubled max n (twice delay) in if ltb_ℤ (twice delay) max then later else max

unfoldable pub delay : RetryConfig → ℕ → ℤ
unfolding normalized doubled
delay c attempt = let c' = normalized c in doubled c'.max_delay (attempt - 1) c'.initial_delay

-- What shouldRetryProviderError reads of an error: the status code that errorStatusCode finds in its chain,
-- its place among the errors of packages context, os and net, and its text in lower case.
pub record ProviderError : Type 0 where
  pub status_code : Option ℤ
  pub is_canceled : Bool
  pub is_deadline_or_timeout : Bool
  pub is_temporary_net : Bool
  pub message : Text

abbrev retryable_status : ℤ → Bool
retryable_status (pos n) = n == 408 || n == 409 || n == 429 || leb 500 n
retryable_status (negsuc n) = false

abbrev transient_tokens : List String
transient_tokens =
    "tls handshake timeout" ∷ "i/o timeout" ∷ "connection reset" ∷ "connection refused"
    ∷ "connection aborted" ∷ "server closed idle connection" ∷ "unexpected eof" ∷ "eof"
    ∷ "temporary failure" ∷ []

abbrev by_kind : ProviderError → Option ℤ → Bool
by_kind e (some code) = retryable_status code
by_kind e none =
    if e.is_canceled
    then false
    else if e.is_deadline_or_timeout
    then true
    else if e.is_temporary_net
    then true
    else any (λ token. contains e.message (codes token)) transient_tokens

-- shouldRetryProviderError on an error that is not nil; `done` is ctx.Err() != nil.
unfoldable pub should_retry : Bool → ProviderError → Bool
should_retry done e = if done then false else by_kind e e.status_code

-- The errors that chatCompletionWithRetry returns.
pub data Failure : Type 0 where
  cancelled : Failure
  exhausted : ℕ → ProviderError → Failure
  failed : Option ProviderError → Failure

pub data Answer (A : Type 0) : Type 0 where
  answered : A → Answer A
  refused : Failure → Answer A

-- A request, the test ctx.Err() != nil, and sleepWithContext, which tells whether the context ended first.
pub record Client (A W : Type 0) : Type 0 where
  pub request : W → (A ⊎ ProviderError) × W
  pub is_done : W → Bool
  pub sleep : ℤ → W → Bool × W

module _ {A W : Type 0} (client : Client A W) where
  -- sleepWithContext: no time passes for a delay that is not positive.
  abbrev pub sleep_with_context : ℤ → W → Bool × W
  sleep_with_context d w = if is_positive d then client.sleep d w else (false, w)

  -- The end of chatCompletionWithRetry.
  abbrev pub give_up : ℕ → ProviderError → W → Answer A
  give_up attempts e w =
      if ltb 1 attempts && should_retry (client.is_done w) e
      then refused (exhausted attempts e)
      else refused (failed (some e))

  abbrev pub awoken : (W → Answer A × W) → Bool × W → Answer A × W
  awoken again (true, w) = (refused cancelled, w)
  awoken again (false, w) = again w

  abbrev pub after_request :
      (W → Answer A × W) → RetryConfig → ℕ → ℕ → ℕ → (A ⊎ ProviderError) × W → Answer A × W
  unfolding should_retry delay
  after_request again c attempts left attempt (inl a, w) = (answered a, w)
  after_request again c attempts left attempt (inr e, w) =
      if not (should_retry (client.is_done w) e) || left == 0
      then (give_up attempts e w, w)
      else awoken again (sleep_with_context (delay c attempt) w)

  -- The loop over the attempts, with the number of attempts left behind this one.
  unfoldable pub attempt_from : RetryConfig → ℕ → ℕ → ℕ → W → Answer A × W
  attempt_from c attempts zero attempt w =
      after_request (λ w'. (refused (failed none), w')) c attempts zero attempt (client.request w)
  attempt_from c attempts (suc left) attempt w =
      after_request (λ w'. attempt_from c attempts left (attempt + 1) w') c attempts (suc left)
        attempt (client.request w)

  unfoldable pub chat_completion_with_retry : RetryConfig → W → Answer A × W
  unfolding normalized attempt_from
  chat_completion_with_retry c w =
      let attempts = pos_part (normalized c).max_attempts in
      attempt_from c attempts (attempts - 1) 1 w
