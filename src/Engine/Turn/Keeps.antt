-- ===== src/Engine/Turn/Keeps.antt =====
-- A turn and the start of a run respect what their actions respect, and a turn that falls through is
-- below the turn limit.
use foxharness.Prelude.{
  subst, zero, suc, Option, some, ℕ, ◌+◌, ◌≡◌, ◌≤◌, ◌<◌, refl, Bool, true, false, inl, inr,
  Bool-cases, leb, ltb, ◌&&◌, if◌then◌else◌, arith, subst,
}
use foxharness.Engine.Types.{
  turn_limit, conversation_error, tool_error, policy_error, provider_error, Ready, RunInput,
  ModelResult, TurnDecision, fact, run_completed, run_started, turns_exceeded,
}
use foxharness.Engine.Run.{
  Step, next, stop, Run, pure, exit, ◌>>=◌, emit, fail, set_outcome, get_outcome,
}
use foxharness.Engine.Run.Keeps.{
  Post, Triple, IsStable, weaken-Triple, begin-Triple, bind-Triple, ◌then◌, call-Triple,
  or_fail-Triple, or_fail_nil-Triple, unless-Triple, request_changes-Triple,
}
use foxharness.Engine.Phases.Keeps.{
  begin_turn-Triple, think-Triple, act_phase-Triple, decide-Triple,
}
use foxharness.Engine.ToolRound.Keeps.{tool_round-Triple}
use foxharness.Engine.Turn.{
  blank, start_rest, run_turns, run_ready, no_calls, finish, turn_body, start, start_rest,
}

abbrev pub at_limit : RunInput → ℕ → Bool
at_limit input turn = ltb 0 input.max_turns && leb input.max_turns turn

-- What the two ends of a turn need of the pair.
pub record IsEnded {W : Type 0} (e : Ready W) (input : RunInput) (turn : ℕ) (I C : Run W → Type 0)
    : Type 0 where
  pub at_completed :
      (s : Run W)
      → I s
      → C (emit e (record (fact run_completed) { content = s.outcome.final_message }) s).1
  pub at_exceeded :
      (s : Run W)
      → I s
      → at_limit input turn ≡ true
      → C
          (fail e {A = Unit {0}} turn_limit
            (turns_exceeded input.max_turns)
            (record s { outcome = record s.outcome { partial = true } })).1

module _ {W : Type 0} (e : Ready W) (input : RunInput) (turn : ℕ) {I C : Run W → Type 0}
    (t : IsStable e I C) (d : IsEnded e input turn I C) where
  finish-Triple :
      (r : ModelResult) (decision : TurnDecision)
      → Triple I (finish e input turn r decision) (λ s. I s × (at_limit input turn ≡ false)) C
  unfolding finish ◌>>=◌ get_outcome emit exit set_outcome pure fail
  finish-Triple r decision = elim (Bool-cases (no_calls e input turn r && decision.complete)) [
    | inl h ↦ rw h (record { at = λ s i. d.at_completed s i })
    | inr h ↦ rw h (elim (Bool-cases (at_limit input turn)) [
      | inl l ↦ rw l (record { at = λ s i. d.at_exceeded s i l })
      | inr l ↦ rw l (record { at = λ s i. (i, refl) })
    ])
  ]

  pub turn_body-Triple :
      (P : Run W → Type 0)
      → ((s : Run W) → P s → I (record s { outcome = record s.outcome { turn_count = turn } }))
      → Triple P (turn_body e input turn) (λ s. I s × (at_limit input turn ≡ false)) C
  unfolding turn_body
  turn_body-Triple P begin = bind-Triple (begin-Triple _ begin) λ u.
      begin_turn-Triple e input turn t
      then bind-Triple (call-Triple e t _) λ taken.
        bind-Triple (or_fail_nil-Triple e t tool_error _ _ (λ h. cc) taken) λ snapshot.
          bind-Triple (call-Triple e t _) λ answer.
            bind-Triple (or_fail-Triple e t policy_error (λ h. cc) answer) λ before.
              request_changes-Triple e t conversation_error turn (λ h. cc) before
              then unless-Triple e t _ (think-Triple e input turn t snapshot.definitions)
              then bind-Triple (act_phase-Triple e input turn t snapshot.definitions before) λ r.
                bind-Triple (decide-Triple e input turn t r) λ decision.
                  unless-Triple e t _ (tool_round-Triple e turn t snapshot r.message.tool_calls)
                  then finish-Triple r decision

  pub turn_body-keeps :
      (P : Run W → Type 0)
      → ((s : Run W) → P s → I (record s { outcome = record s.outcome { turn_count = turn } }))
      → Triple P (turn_body e input turn) I C
  turn_body-keeps P begin = weaken-Triple (λ s h. h) (λ s h. h.0) (turn_body-Triple P begin)

module _ {W : Type 0} (e : Ready W) (input : RunInput) {I C : Run W → Type 0}
    (t : IsStable e I C) where
  pub start_rest-Triple : Triple I (start_rest e input) I C
  unfolding start_rest
  start_rest-Triple = bind-Triple (call-Triple e t _) λ policy_run.
      bind-Triple (or_fail_nil-Triple e t policy_error _ _ (λ h. cc) policy_run) λ u.
        bind-Triple (call-Triple e t _)
          λ model_run. or_fail_nil-Triple e t provider_error _ _ (λ h. cc) model_run

module _ {W : Type 0} (e : Ready W) (input : RunInput) (P : ℕ → Run W → Type 0) (C : Run W → Type 0)
    (turn_keeps : (turn : ℕ) → Triple (P turn) (turn_body e input turn) (P (turn + 1)) C)
    {s' : Run W} where
  after_step :
      (n : ℕ) (later : Run W → Option (Run W))
      → ((t : Run W) → P n t → later t ≡ some s' → C s')
      → (r : Step (Unit {0}) × Run W) → Post (P n) C r
      → elim r.0 as (λ x. Option (Run W)) [ next u ↦ later r.1 | stop ↦ some r.1 ] ≡ some s'
      → C s'
  after_step n later ends (next u, t) h q = ends t h q
  after_step n later ends (stop, t) h q = let p : t ≡ s' = cc in subst C p h

  -- A statement that every turn hands to the next one gives `C` wherever the loop ends.
  run_turns-ends :
      (fuel turn : ℕ) (s : Run W) → P turn s → run_turns e input fuel turn s ≡ some s' → C s'
  unfolding run_turns
  run_turns-ends zero turn s h q = cc
  run_turns-ends (suc fuel) turn s h q =
      after_step (turn + 1) (run_turns e input fuel (turn + 1)) (run_turns-ends fuel (turn + 1))
        (turn_body e input turn s) ((turn_keeps turn).at s h) q

  pub run_ready-ends :
      Triple (P 0) (start_rest e input) (P 1) C
      → (fuel : ℕ) (w : W) → P 0 (emit e (fact run_started) (blank w)).1
      → run_ready e input fuel w ≡ some s'
      → C s'
  unfolding run_ready start ◌>>=◌ emit
  run_ready-ends start_keeps fuel w h q =
      after_step 1 (run_turns e input fuel 1) (run_turns-ends fuel 1)
        (start_rest e input (emit e (fact run_started) (blank w)).1) (start_keeps.at _ h) q

-- A turn that falls through is below the limit, so the fuel of a limited run is enough.
module _ {W : Type 0} (e : Ready W) (input : RunInput) (limited : 0 < input.max_turns) where
  below_limit :
      (turn : ℕ) (s : Run W)
      → Post (λ t. at_limit input turn ≡ false) (λ t. Unit {0}) (turn_body e input turn s)
  below_limit turn s =
      weaken (turn_body e input turn s)
        ((turn_body-Triple e input turn any any_ends (λ t. Unit {0}) (λ t h. tt)).at s tt)
    where
      any : IsStable e (λ t. Unit {0}) (λ t. Unit {0})
      any = record {
        at_world = λ s w h. tt;
        at_outcome = λ s o m h. tt;
        at_emit = λ s f n h. tt;
        at_fail = λ s k x n h. tt;
      }

      any_ends : IsEnded e input turn (λ t. Unit {0}) (λ t. Unit {0})
      any_ends = record { at_completed = λ s h. tt; at_exceeded = λ s h l. tt }

      weaken :
          (r : Step (Unit {0}) × Run W)
          → Post (λ t. Unit {0} × (at_limit input turn ≡ false)) (λ t. Unit {0}) r
          → Post (λ t. at_limit input turn ≡ false) (λ t. Unit {0}) r
      weaken (next u, t) h = h.1
      weaken (stop, t) h = tt

  total_step :
      (later : Run W → Option (Run W)) (n : ℕ)
      → (at_limit input n ≡ false → (t : Run W) → (s' : Run W) × (later t ≡ some s'))
      → (r : Step (Unit {0}) × Run W) → Post (λ t. at_limit input n ≡ false) (λ t. Unit {0}) r
      → (s' : Run W) × (elim r.0 as (λ x. Option (Run W)) [ next u ↦ later r.1 | stop ↦ some r.1 ]
          ≡ some s')
  total_step later n goes (next u, t) h = goes h t
  total_step later n goes (stop, t) h = (t, refl)

  run_turns_total :
      (fuel turn : ℕ) (s : Run W)
      → turn ≤ input.max_turns
      → input.max_turns < turn + fuel
      → (s' : Run W) × (run_turns e input fuel turn s ≡ some s')
  unfolding run_turns
  run_turns_total zero turn s le lt = absurd (omega arith)
  run_turns_total (suc fuel) turn s le lt =
      total_step (run_turns e input fuel (turn + 1)) turn
        (λ l t. run_turns_total fuel (turn + 1) t (ground arith) (omega arith))
        (turn_body e input turn s) (below_limit turn s)

  start_total :
      (later : Run W → Option (Run W))
      → ((t : Run W) → (s' : Run W) × (later t ≡ some s'))
      → (r : Step (Unit {0}) × Run W)
      → (s' : Run W) × (elim r.0 as (λ x. Option (Run W)) [ next u ↦ later r.1 | stop ↦ some r.1 ]
          ≡ some s')
  start_total later goes (next u, t) = goes t
  start_total later goes (stop, t) = (t, refl)

  pub run_ready_total :
      (fuel : ℕ) (w : W)
      → input.max_turns ≤ fuel
      → (s' : Run W) × (run_ready e input fuel w ≡ some s')
  unfolding run_ready
  run_ready_total fuel w h =
      start_total (run_turns e input fuel 1)
        (λ t. run_turns_total fuel 1 t (omega arith) (omega arith)) (start e input (blank w))
