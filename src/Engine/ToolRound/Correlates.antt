-- ===== src/Engine/ToolRound/Correlates.antt =====
-- The results of an accepted batch answer the calls, one by one.
use foxharness.Prelude.{
  ℕ, ◌+◌, ◌≡◌, refl, ◌∙◌, ap, true, String, List, [], ◌∷◌, map, str_eq, eq_iff, length, ◌==◌, arith,
  Bool-cases, inl, inr,
}
use foxharness.Schema.{ToolCall}
use foxharness.Engine.Types.{
  Ready, ToolExecutionResult, ConversationChange, ToolState, ToolSnapshot, tool_error, result_count,
  Result,
}
use foxharness.Engine.Run.{
  Run, Step, next, stop, M, pure, exit, continue, ◌>>=◌, ◌>>◌, act, emit, emit_all, fail,
  set_outcome, or_fail, unless, request_changes,
}
use foxharness.Engine.ToolRound.{
  correlate, execute_tools, filled, result_fact, result_change, call_fact,
}

-- The IDs of calls, of results and of the messages that carry them.
abbrev pub ids : List ToolCall → List String
ids = map (λ c. c.id)

abbrev pub result_ids : List ToolExecutionResult → List String
result_ids = map (λ r. r.call_id)

continue-next :
    {W A B : Type 0} (r : Step A) (s : Run W) (f : A → M W B) (b : B)
    → (continue r f s).0 ≡ next b
    → (a : A) × (r ≡ next a) × ((f a s).0 ≡ next b)
continue-next (next a) s f b h = (a, refl, h)
continue-next stop s f b h = cc

bind_next :
    {W A B : Type 0} (m : M W A) (f : A → M W B) (s : Run W) (b : B)
    → ((m >>= f) s).0 ≡ next b
    → (a : A) × ((m s).0 ≡ next a) × ((f a (m s).1).0 ≡ next b)
unfolding ◌>>=◌
bind_next m f s b h = continue-next (m s).0 (m s).1 f b h

stopped : {A : Type 0} (a : A) → stop ≡ next a → ⊥
stopped a h = cc

module _ {W : Type 0} (e : Ready W) (turn : ℕ) where
  filled_id :
      (call : ToolCall) (r : ToolExecutionResult)
      → str_eq (filled call r).call_id call.id ≡ true
      → (filled call r).call_id ≡ call.id
  filled_id call r h = ground (arith, eq_iff (filled call r).call_id call.id)

  correlate-ids :
      (index : ℕ) (calls : List ToolCall) (results : List ToolExecutionResult) (s : Run W)
      (done : List (ToolExecutionResult × ConversationChange))
      → length results ≡ length calls
      → (correlate e turn index calls results s).0 ≡ next done
      → (map (λ d. d.0.call_id) done ≡ ids calls)
        × (map (λ d. d.1.message.tool_call_id) done ≡ ids calls)
  unfolding correlate fail emit exit set_outcome ◌>>=◌ pure
  correlate-ids index [] results s done l h =
      let q : [] ≡ done = cc in (rw (← q) refl, rw (← q) refl)
  correlate-ids index (call ∷ calls) [] s done l h = absurd (omega arith)
  correlate-ids index (call ∷ calls) (r ∷ results) s done l h =
      elim (Bool-cases (str_eq (filled call r).call_id call.id)) [
        | inl q ↦
            let whole = filled call r in
            let s' = (emit e (result_fact call whole) s).1 in
            let after = correlate e turn (index + 1) calls results s' in
            let (more, p, g) =
              continue-next after.0 after.1 (λ d. pure ((whole, result_change call whole) ∷ d)) done
                (rw q at h) in
            let g' : (whole, result_change call whole) ∷ more ≡ done = cc in
            let later = correlate-ids (index + 1) calls results s' more (omega arith) p in
            let same = filled_id call r q in
            (rw (← g') (cc (same, later.0)), rw (← g') (ap (◌∷◌ call.id) later.1))
        | inr q ↦ absurd (stopped done (rw q at h))
      ]

  module _ (snapshot : ToolSnapshot) (calls : List ToolCall) where
    -- The rest of executeTools behind each of its steps.
    abbrev behind_correlate : List (ToolExecutionResult × ConversationChange) → M W ToolState
    behind_correlate done =
        request_changes e tool_error turn (map (λ d. d.1) done)
        >> pure (record { turn = turn; calls = calls; results = map (λ d. d.0) done })

    abbrev behind_count : List ToolExecutionResult → M W ToolState
    behind_count results = correlate e turn 0 calls results >>= behind_correlate

    abbrev count_check : List ToolExecutionResult → M W (Unit {0})
    count_check results =
        unless (length results == length calls)
          (fail e tool_error (result_count (length results) (length calls)))

    abbrev behind_batch : List ToolExecutionResult → M W ToolState
    behind_batch results = count_check results >> behind_count results

    abbrev behind_answer : Result (List ToolExecutionResult) → M W ToolState
    behind_answer answer = or_fail e tool_error answer >>= behind_batch

    counted :
        (results : List ToolExecutionResult) (s : Run W) (u : Unit {0})
        → (count_check results s).0 ≡ next u
        → length results ≡ length calls
    unfolding unless fail emit exit set_outcome ◌>>=◌ pure
    counted results s u h = elim (Bool-cases (length results == length calls)) [
      | inl q ↦ ground arith
      | inr q ↦ absurd (stopped u (rw q at h))
    ]

    map-ids :
        (done : List (ToolExecutionResult × ConversationChange))
        → result_ids (map (λ d. d.0) done) ≡ map (λ d. d.0.call_id) done
    map-ids [] = refl
    map-ids (d ∷ done) = ap (◌∷◌ d.0.call_id) (map-ids done)

    -- A tool batch that executeTools accepts answers every call: the results that the policy sees bear,
    -- in order, the IDs of the calls, and come with these calls and the number of the turn.
    pub execute_tools-ids :
        (s : Run W) (state : ToolState)
        → (execute_tools e turn snapshot calls s).0 ≡ next state
        → (result_ids state.results ≡ ids calls) × (state.calls ≡ calls) × (state.turn ≡ turn)
    unfolding execute_tools pure
    execute_tools-ids s state h =
        let (u, p1, h1) =
          bind_next (emit_all e (map call_fact calls))
            (λ u. act (e.tools.execute snapshot calls) >>= behind_answer) s state h in
        let s1 = (emit_all e (map call_fact calls) s).1 in
        let (answer, p2, h2) =
          bind_next (act (e.tools.execute snapshot calls)) behind_answer s1 state h1 in
        let s2 = (act (e.tools.execute snapshot calls) s1).1 in
        let (results, p3, h3) = bind_next (or_fail e tool_error answer) behind_batch s2 state h2 in
        let s3 = (or_fail e tool_error answer s2).1 in
        let (v, p4, h4) = bind_next (count_check results) (λ u. behind_count results) s3 state h3 in
        let s4 = (count_check results s3).1 in
        let (done, p5, h5) =
          bind_next (correlate e turn 0 calls results) behind_correlate s4 state h4 in
        let s5 = (correlate e turn 0 calls results s4).1 in
        let (x, p6, h6) =
          bind_next (request_changes e tool_error turn (map (λ d. d.1) done))
            (λ u. pure (record { turn = turn; calls = calls; results = map (λ d. d.0) done })) s5
            state h5 in
        let matched = correlate-ids 0 calls results s4 done (counted results s3 v p4) p5 in
        let q : record { turn = turn; calls = calls; results = map (λ d. d.0) done } ≡ state = cc in
        (rw (← q) (map-ids done ∙ matched.0), rw (← q) refl, rw (← q) refl)
