-- ===== src/Recovery/History.antt =====
-- What the tracker knows after any history.
use foxharness.Prelude.{
  ℕ, zero, suc, ◌+◌, ◌-◌, ◌≤◌, ◌≡◌, refl, String, Bool, true, false, ◌&&◌, ◌||◌, List, [], ◌∷◌,
  ◌++◌, some, if◌then◌else◌, ltb, length, drop, last?, last?-append_one, length-append, length-drop,
  str_eq, arith, Bool-cases, inl, inr,
}
use foxharness.Go.{GoLib}
use foxharness.Dict.{lookup, or_zero, or_zero-put}
use foxharness.Schema.{ToolCall}
use foxharness.Recovery.{
  ToolError, Tracker, Outcome, new_tracker, fingerprint, last_five, add_failure, record_result,
  counted_once, should_inject, mark_inject,
}

-- The calls of the tracker.
pub data Call : Type 0 where
  records : ToolCall → Outcome → Call
  marks : Call

module _ (h : GoLib) where
  step : Tracker → Call → Tracker
  step t (records call result) = record_result h call result t
  step t marks = mark_inject t

  pub perform : Tracker → List Call → Tracker
  unfolding step
  perform t [] = t
  perform t (c ∷ cs) = perform (step t c) cs

  -- How often a history records a failure of a fingerprint.
  pub failures : String → List Call → ℕ
  failures key [] = 0
  failures key (records call result ∷ cs) =
      (if result.is_error && str_eq (fingerprint h call) key then 1 else 0) + failures key cs
  failures key (marks ∷ cs) = failures key cs

  -- Has a failure been recorded since the last mark?
  pub unreported : Bool → List Call → Bool
  unreported so_far [] = so_far
  unreported so_far (records call result ∷ cs) = unreported (result.is_error || so_far) cs
  unreported so_far (marks ∷ cs) = unreported false cs

  drop-append_one :
      (n : ℕ) (l : List ToolError) (x : ToolError)
      → n ≤ length l
      → drop n (l ++ x ∷ []) ≡ drop n l ++ x ∷ []
  drop-append_one zero l x q = refl
  drop-append_one (suc n) [] x q = absurd (omega arith)
  drop-append_one (suc n) (a ∷ l) x q = drop-append_one n l x (omega arith)

  last_five_lem :
      (l : List ToolError) (x : ToolError)
      → length l ≤ 5
      → (length (last_five (l ++ x ∷ [])) ≤ 5) × (last? (last_five (l ++ x ∷ [])) ≡ some x)
  unfolding last_five
  last_five_lem l x q =
      let all = l ++ x ∷ [] in
      let size = length-append l (x ∷ []) in
      let n = length all - 5 in
      elim (Bool-cases (ltb 5 (length all))) [
        | inl b ↦ rw b (
          omega (arith, size, length-drop n all),
          rw (drop-append_one n l x (omega (arith, size))) (last?-append_one (drop n l) x),
        )
        | inr b ↦ rw b (ground arith, last?-append_one l x)
      ]

  -- Between two calls: five errors at most, and a pending one is the last of them.
  record IsSound (pending : Bool) (t : Tracker) : Type 0 where
    windowed : length t.recent ≤ 5
    flagged : t.pending ≡ pending
    shown : t.pending ≡ true → counted_once (last? t.recent) ≡ true

  add_failure-IsSound :
      (call : ToolCall) (output : List ℕ) (pending : Bool) (t : Tracker)
      → IsSound pending t
      → IsSound true (add_failure h call output t)
  unfolding add_failure
  add_failure-IsSound call output pending t v =
      let kept = last_five_lem t.recent _ v.windowed in
      record { windowed = kept.0; flagged = refl; shown = λ p. rw kept.1 (ground arith) }

  step-IsSound :
      (call : ToolCall) (result : Outcome) (pending : Bool) (t : Tracker)
      → IsSound pending t
      → IsSound (result.is_error || pending) (record_result h call result t)
  unfolding record_result
  step-IsSound call result pending t v = elim (Bool-cases result.is_error) [
    | inl b ↦ rw b (add_failure-IsSound call result.output pending t v)
    | inr b ↦ rw b v
  ]

  perform-IsSound :
      (cs : List Call) (pending : Bool) (t : Tracker)
      → IsSound pending t
      → IsSound (unreported pending cs) (perform t cs)
  unfolding perform unreported mark_inject
  perform-IsSound [] pending t v = v
  perform-IsSound (records call result ∷ cs) pending t v =
      perform-IsSound cs (result.is_error || pending) (record_result h call result t)
        (step-IsSound call result pending t v)
  perform-IsSound (marks ∷ cs) pending t v =
      perform-IsSound cs false (mark_inject t)
        (record { windowed = v.windowed; flagged = refl; shown = λ p. cc })

  count-record_result :
      (key : String) (call : ToolCall) (result : Outcome) (t : Tracker)
      → or_zero (lookup key (record_result h call result t).counts)
        ≡ or_zero (lookup key t.counts)
          + (if result.is_error && str_eq (fingerprint h call) key then 1 else 0)
  unfolding record_result add_failure
  count-record_result key call result t = elim (Bool-cases result.is_error) [
    | inl b ↦ rw b (or_zero-put (fingerprint h call) key t.counts)
    | inr b ↦ rw b (omega arith)
  ]

  count-perform :
      (key : String) (cs : List Call) (t : Tracker)
      → or_zero (lookup key (perform t cs).counts) ≡ or_zero (lookup key t.counts) + failures key cs
  unfolding perform failures mark_inject
  count-perform key [] t = omega arith
  count-perform key (records call result ∷ cs) t = omega (
    arith,
    count-perform key cs (record_result h call result t),
    count-record_result key call result t,
  )
  count-perform key (marks ∷ cs) t = count-perform key cs (mark_inject t)

  should_inject_lem : (pending : Bool) (t : Tracker) → IsSound pending t → should_inject t ≡ pending
  unfolding should_inject
  should_inject_lem pending t v = ground (arith, v.flagged, v.shown)

  -- After any history on a new tracker a recovery prompt is due exactly if a failure has been recorded
  -- since the last mark, five errors at most are kept, and each fingerprint is counted as often as its
  -- calls have failed.
  pub perform_lem :
      (cs : List Call) (key : String)
      → let t = perform new_tracker cs in
        (should_inject t ≡ unreported false cs)
        × (length t.recent ≤ 5)
        × (or_zero (lookup key t.counts) ≡ failures key cs)
  unfolding new_tracker lookup
  perform_lem cs key =
      let sound =
        perform-IsSound cs false new_tracker
          (record { windowed = omega arith; flagged = refl; shown = λ p. cc }) in
      (
        should_inject_lem (unreported false cs) (perform new_tracker cs) sound,
        sound.windowed,
        omega (arith, count-perform key cs new_tracker),
      )
