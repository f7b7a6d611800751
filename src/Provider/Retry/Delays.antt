-- ===== src/Provider/Retry/Delays.antt =====
-- How long a retry waits.
use foxharness.Prelude.{
  ℕ, zero, suc, ◌-◌, ◌*◌, ◌%◌, ◌^◌, ◌≤◌, ◌<◌, true, false, if◌then◌else◌, leb, ltb, ◌≡◌, refl, ap,
  sym, ◌∙◌, arith, Bool-cases, inl, inr, ℤ, pos, ltb_ℤ,
}
use foxharness.Provider.Retry.{or_default, RetryConfig, normalized, doubled, delay, twice}

-- A delay that is doubled `n` times.
pub scaled : ℕ → ℕ → ℕ
scaled zero d = d
scaled (suc n) d = scaled n (d * 2)

abbrev pub smaller : ℕ → ℕ → ℕ
smaller a b = if leb a b then a else b

scaled_bound : (n d : ℕ) → d ≤ scaled n d
unfolding scaled
scaled_bound zero d = omega arith
scaled_bound (suc n) d = omega (arith, scaled_bound n (d * 2))

below_max :
    (n x max : ℕ)
    → (x < max → doubled (pos max) n (pos x) ≡ pos (smaller (scaled n x) max))
    → (t : ℤ) → t ≡ pos x
    → (if ltb_ℤ t (pos max) then doubled (pos max) n t else pos max)
      ≡ pos (smaller (scaled n x) max)
below_max n x max ih t q = rw q (elim (Bool-cases (ltb_ℤ (pos x) (pos max))) [
  | inl c ↦ rw c (ih (ground arith))
  | inr c ↦
      let top : max ≡ smaller (scaled n x) max = ground (arith, scaled_bound n x) in
      rw c (ap pos top)
])

doubled-scaled :
    (n d max : ℕ)
    → d ≤ max
    → max < 2 ^ 62
    → doubled (pos max) n (pos d) ≡ pos (smaller (scaled n d) max)
unfolding doubled scaled
doubled-scaled zero d max h b = ground arith
doubled-scaled (suc n) d max h b =
    let fits : d * 2 % 2 ^ 64 ≡ d * 2 = omega arith in
    let sign : ltb (d * 2) (2 ^ 63) ≡ true = ground arith in
    let two : twice (pos d) ≡ pos (d * 2) = rw (fits, sign) refl in
    below_max n (d * 2) max (λ l. doubled-scaled n (d * 2) max (omega arith) b) (twice (pos d)) two

max_above : (i m : ℤ) (d max : ℕ) → i ≡ pos d → (if ltb_ℤ m i then i else m) ≡ pos max → d ≤ max
max_above i m d max p q = elim (Bool-cases (ltb_ℤ m i)) [
  | inl b ↦
      let e : i ≡ pos max = rw b at q in
      let two : pos d ≡ pos max = sym p ∙ e in let one : d ≡ max = cc in omega arith
  | inr b ↦
      let e : m ≡ pos max = rw b at q in
      let low : ltb_ℤ (pos max) (pos d) ≡ false = rw (e, p) at b in ground arith
]

first_below :
    (c : RetryConfig) (d max : ℕ)
    → (normalized c).initial_delay ≡ pos d
    → (normalized c).max_delay ≡ pos max
    → d ≤ max
unfolding normalized
first_below c d max p q =
    max_above (normalized c).initial_delay (or_default c.max_delay (pos 8000000000)) d max p q

-- Of a configuration whose delays are normalized to `d` and `max`, both below 2^62 nanoseconds (146 years), the
-- delay behind an attempt is the first delay, doubled for each attempt before this one, but no more than `max`.
pub delay-scaled :
    (c : RetryConfig) (attempt d max : ℕ)
    → (normalized c).initial_delay ≡ pos d
    → (normalized c).max_delay ≡ pos max
    → max < 2 ^ 62
    → delay c attempt ≡ pos (smaller (scaled (attempt - 1) d) max)
unfolding delay
delay-scaled c attempt d max p q b =
    rw (q, p) (doubled-scaled (attempt - 1) d max (first_below c d max p q) b)
