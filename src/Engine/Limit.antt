-- ===== src/Engine/Limit.antt =====
-- The turn limit of AgentEngine.Run in internal/engine/target.go.
use foxharness.Prelude.{◌∙◌, ◌≤◌, ◌<◌, ℕ, ◌+◌, ◌≡◌, refl, true, false, inr, Option, some, arith}
use foxharness.Engine.Types.{no_error, turn_limit, Ready, RunInput, AgentEngine, turns_exceeded}
use foxharness.Engine.Run.{Run, emit, fail, exit, set_outcome, ◌>>=◌}
use foxharness.Engine.Run.Keeps.{Triple, IsStable, weaken-Triple}
use foxharness.Engine.Turn.{start_rest, turn_body, run_ready, run, validate, run_accepted}
use foxharness.Engine.Turn.Keeps.{
  IsEnded, turn_body-Triple, start_rest-Triple, at_limit, run_ready-ends, run_ready_total,
}

-- How a run of a limit `n` may end.
abbrev pub EndsWithin : {W : Type 0} → ℕ → Run W → Type 0
EndsWithin n s =
    (s.outcome.turn_count ≤ n)
    × (s.outcome.error_kind ≡ turn_limit
        → (s.outcome.turn_count ≡ n)
          × (s.outcome.partial ≡ true)
          × (s.outcome.error ≡ some (turns_exceeded n)))

module _ {W : Type 0} (e : Ready W) (input : RunInput) (limited : 0 < input.max_turns) where
  -- Before a turn, and within it.
  abbrev Before : ℕ → Run W → Type 0
  Before turn s =
      (s.outcome.error_kind ≡ no_error) × (turn ≤ input.max_turns) × (s.outcome.turn_count ≤ turn)

  abbrev Within : ℕ → Run W → Type 0
  Within turn s =
      (s.outcome.error_kind ≡ no_error) × (turn ≤ input.max_turns) × (s.outcome.turn_count ≡ turn)

  Within-IsStable : (turn : ℕ) → IsStable e (Within turn) (EndsWithin input.max_turns)
  unfolding emit fail exit set_outcome ◌>>=◌
  Within-IsStable turn = record {
    at_world = λ s w h. h;
    at_outcome = λ s o m h. (cc, h.1, cc);
    at_emit = λ s f n h. h;
    at_fail = λ s k x n h. (omega arith, λ q. absurd (n q));
  }

  Within-IsEnded : (turn : ℕ) → IsEnded e input turn (Within turn) (EndsWithin input.max_turns)
  unfolding emit fail exit set_outcome ◌>>=◌
  Within-IsEnded turn = record {
    at_completed = λ s h. (omega arith, λ q. cc);
    at_exceeded = λ s h l. (omega arith, λ q. (ground arith, refl, refl));
  }

  below :
      (turn : ℕ) → turn ≤ input.max_turns → at_limit input turn ≡ false → turn + 1 ≤ input.max_turns
  below turn h l = ground arith

  run_ready-EndsWithin :
      (fuel : ℕ) (w : W) {s : Run W}
      → run_ready e input fuel w ≡ some s
      → EndsWithin input.max_turns s
  unfolding emit
  run_ready-EndsWithin fuel w =
      run_ready-ends e input Before (EndsWithin input.max_turns) turn_keeps start_keeps fuel w
        (refl, omega arith, omega arith)
    where
      turn_keeps :
          (turn : ℕ)
          → Triple
              (Before turn)
              (turn_body e input turn)
              (Before (turn + 1))
              (EndsWithin input.max_turns)
      turn_keeps turn =
          weaken-Triple (λ s h. h) (λ s h. (h.0.0, below turn h.0.1 h.1, omega (arith, h.0.2)))
            (turn_body-Triple e input turn (Within-IsStable turn) (Within-IsEnded turn)
              (Before turn) (λ s h. (h.0, h.1, refl)))

      start_keeps : Triple (Before 0) (start_rest e input) (Before 1) (EndsWithin input.max_turns)
      start_keeps =
          weaken-Triple (λ s h. (h.0, h.1, omega (arith, h.2)))
            (λ s h. (h.0, limited, omega (arith, h.2)))
            (start_rest-Triple e input (Within-IsStable 0))

-- With a turn limit of at least one and as much fuel, a run of a complete engine ends; it has made no
-- more turns than the limit; and if it ends by the limit it has made exactly that many, its result is
-- partial, and its error is the one that names the limit.
pub run-EndsWithin :
    {W : Type 0} (e : Option (AgentEngine W)) (input : RunInput) (fuel : ℕ) (w : W) {r : Ready W}
    → validate e ≡ inr r
    → 0 < input.max_turns
    → input.max_turns ≤ fuel
    → (s : Run W) × (run e input fuel w ≡ some s) × EndsWithin input.max_turns s
run-EndsWithin e input fuel w {r} q limited enough =
    let (s, p) = run_ready_total r input limited fuel w enough in
    (s, run_accepted e input fuel w r q ∙ p, run_ready-EndsWithin r input limited fuel w p)
