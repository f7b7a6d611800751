-- ===== src/Provider/Retry/Attempts.antt =====
-- How many requests are made.
use foxharness.Prelude.{
  ℕ, zero, suc, ◌+◌, ◌-◌, ◌≤◌, ◌<◌, Bool, true, false, if◌then◌else◌, ltb, ◌≡◌, refl, arith,
  Bool-cases, inl, inr, ◌⊎◌, ℤ, pos, negsuc, pos_part, not, ◌||◌, ◌==◌, ◌&&◌,
}
use foxharness.Provider.Retry.{
  RetryConfig, normalized, Client, Answer, answered, refused, exhausted, failed, cancelled,
  ProviderError, should_retry, give_up, after_request, attempt_from, chat_completion_with_retry,
  is_positive, delay, awoken,
}

-- A client whose world counts the requests.
abbrev pub counting : {A W : Type 0} → Client A W → Client A (W × ℕ)
counting client = record {
  request = λ s. let (r, w) = client.request s.0 in (r, (w, s.1 + 1));
  is_done = λ s. client.is_done s.0;
  sleep = λ d s. let (b, w) = client.sleep d s.0 in (b, (w, s.1));
}

-- What an answer says of the number of requests, of at most `n`.
abbrev pub Made : {A : Type 0} → ℕ → Answer A → ℕ → Type 0
Made n (answered a) made = (1 ≤ made) × (made ≤ n)
Made n (refused (exhausted m e)) made = (made ≡ n) × (m ≡ n) × (1 < n)
Made n (refused (failed e)) made = (1 ≤ made) × (made ≤ n)
Made n (refused cancelled) made = (1 ≤ made) × (made < n)

module _ {A W : Type 0} (client : Client A W) (c : RetryConfig) where
  abbrev MadeIn : ℕ → Answer A × (W × ℕ) → Type 0
  MadeIn n (a, (w, made)) = Made n a made

  give_up-Made :
      (n : ℕ) (e : ProviderError) (s : W × ℕ) (b : Bool)
      → should_retry (client.is_done s.0) e ≡ b
      → 1 ≤ s.1
      → s.1 ≤ n
      → (b ≡ true → s.1 ≡ n)
      → Made n (give_up (counting client) n e s) s.1
  give_up-Made n e s b q l u last = elim (Bool-cases (ltb 1 n && b)) [
    | inl t ↦ let more : 1 < n = ground arith in rw (q, t) (last (ground arith), refl, more)
    | inr t ↦ rw (q, t) (l, u)
  ]

  woke :
      (n k : ℕ) (again : W × ℕ → Answer A × (W × ℕ)) (b : Bool) (w : W)
      → 1 ≤ k
      → k < n
      → ((w : W) → MadeIn n (again (w, k)))
      → MadeIn n (awoken (counting client) again (b, (w, k)))
  woke n k again true w l u h = (l, u)
  woke n k again false w l u h = h w

  slept :
      (n k : ℕ) (again : W × ℕ → Answer A × (W × ℕ)) (d : ℤ) (positive : Bool) (w : W)
      → 1 ≤ k
      → k < n
      → ((w : W) → MadeIn n (again (w, k)))
      → MadeIn n (
          awoken
            (counting client)
            again
            (if positive then (counting client).sleep d (w, k) else (false, (w, k))))
  slept n k again d true w l u h = woke n k again (client.sleep d w).0 (client.sleep d w).1 l u h
  slept n k again d false w l u h = h w

  after_request-Made :
      (n k left attempt : ℕ) (again : W × ℕ → Answer A × (W × ℕ)) (r : A ⊎ ProviderError) (w : W)
      → 1 ≤ k
      → k + left ≡ n
      → (0 < left → (w : W) → MadeIn n (again (w, k)))
      → MadeIn n (after_request (counting client) again c n left attempt (r, (w, k)))
  unfolding after_request
  after_request-Made n k left attempt again (inl a) w l q h = (l, omega arith)
  after_request-Made n k left attempt again (inr e) w l q h =
      elim (Bool-cases (not (should_retry (client.is_done w) e) || left == 0)) [
        | inl b ↦ rw b (
            give_up-Made n e (w, k) (should_retry (client.is_done w) e) refl l (omega arith)
              (λ t. ground arith))
        | inr b ↦
            let more : 0 < left = ground arith in
            rw b (
              slept n k again (delay c attempt) (is_positive (delay c attempt)) w l (omega arith)
                (h more))
      ]

  attempt_from-Made :
      (n left attempt : ℕ) (s : W × ℕ)
      → s.1 + suc left ≡ n
      → MadeIn n (attempt_from (counting client) c n left attempt s)
  unfolding attempt_from
  attempt_from-Made n zero attempt s h =
      after_request-Made n (s.1 + 1) zero attempt _ (client.request s.0).0 (client.request s.0).1
        (omega arith) (omega arith) (λ t. absurd (omega arith))
  attempt_from-Made n (suc left) attempt s h =
      after_request-Made n (s.1 + 1) (suc left) attempt _ (client.request s.0).0
        (client.request s.0).1 (omega arith) (omega arith)
        (λ t w. attempt_from-Made n left (attempt + 1) (w, s.1 + 1) (omega arith))

  -- The normalized number of attempts.
  positive_attempts : 1 ≤ pos_part (normalized c).max_attempts
  unfolding normalized
  positive_attempts = at_least c.max_attempts
    where
      at_least : (z : ℤ) → 1 ≤ pos_part (if is_positive z then z else pos 4)
      at_least (pos zero) = omega arith
      at_least (pos (suc n)) = omega arith
      at_least (negsuc n) = omega arith

  -- For any client and configuration, a call makes one request at least and no more than the normalized number
  -- of attempts; it reports exhausted attempts only if it made that many, two or more, and cancellation only
  -- if attempts were left.
  pub chat_completion_with_retry-Made :
      (w : W)
      → let (answer, (w', made)) = chat_completion_with_retry (counting client) c (w, 0) in
        Made (pos_part (normalized c).max_attempts) answer made
  unfolding chat_completion_with_retry normalized
  chat_completion_with_retry-Made w =
      let some_attempts = positive_attempts in
      attempt_from-Made (pos_part (normalized c).max_attempts)
        (pos_part (normalized c).max_attempts - 1) 1 (w, 0) (omega (arith, some_attempts))
