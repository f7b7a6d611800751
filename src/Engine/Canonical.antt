-- ===== src/Engine/Canonical.antt =====
-- The log of facts of a run of Engine/Turn.antt: its numbering, its first fact and its last.
use foxharness.Prelude.{
  ℕ, suc, ◌≡◌, refl, false, inl, inr, ◌⊎◌, List, [], ◌∷◌, Option, some, none, length, last?, All,
  arith,
}
use foxharness.Engine.Types.{
  Error, Ready, RunInput, RunOutcome, AgentEngine, Fact, fact, run_completed, run_error,
  run_started,
}
use foxharness.Engine.Run.{Run, emit, fail, exit, set_outcome, ◌>>=◌}
use foxharness.Engine.Run.Keeps.{IsStable, is_terminal}
use foxharness.Engine.Turn.{
  run_ready, run, validate, validate-cases, run-refused, run_accepted, refused,
}
use foxharness.Engine.Turn.Keeps.{IsEnded, turn_body-keeps, start_rest-Triple, run_ready-ends}

-- With the newest fact first, each sequence number is the number of facts up to it.
abbrev pub Numbered : List Fact → Type 0
Numbered [] = Unit {0}
Numbered (f ∷ fs) = (f.sequence ≡ suc (length fs)) × Numbered fs

abbrev pub first_fact : Fact
first_fact = record (fact run_started) { sequence = 1 }

-- The log while the run goes on.
pub record IsOpen {W : Type 0} (s : Run W) : Type 0 where
  pub counted : s.sequence ≡ length s.facts
  pub numbered : Numbered s.facts
  pub opened : last? s.facts ≡ some first_fact
  pub quiet : All (λ f. is_terminal f.kind ≡ false) s.facts
  pub unfailed : s.outcome.error ≡ none

-- The last fact tells the outcome.
abbrev pub Tells : {W : Type 0} → Ready W → RunOutcome → Fact → Type 0
Tells e o f =
    ((f.kind ≡ run_completed) × (o.error ≡ none) × (f.content ≡ o.final_message))
    ⊎ ((x : Error) × (f.kind ≡ run_error) × (o.error ≡ some x) × (f.content ≡ e.render x))

-- The log of a run that has ended.
pub record IsClosed {W : Type 0} (e : Ready W) (s : Run W) : Type 0 where
  pub counted : s.sequence ≡ length s.facts
  pub numbered : Numbered s.facts
  pub opened : last? s.facts ≡ some first_fact
  pub ended :
      (f : Fact) × (fs : List Fact) × (s.facts ≡ f ∷ fs)
      × All (λ g. is_terminal g.kind ≡ false) fs
      × Tells e s.outcome f

last?-cons : (f g : Fact) (fs : List Fact) → last? fs ≡ some g → last? (f ∷ fs) ≡ some g
last?-cons f g [] h = cc
last?-cons f g (x ∷ xs) h = h

module _ {W : Type 0} (e : Ready W) where
  IsOpen-IsStable : IsStable e IsOpen (IsClosed e)
  unfolding emit fail exit set_outcome ◌>>=◌
  IsOpen-IsStable = record {
    at_world = λ s w h. record {
      counted = h.counted;
      numbered = h.numbered;
      opened = h.opened;
      quiet = h.quiet;
      unfailed = h.unfailed;
    };
    at_outcome = λ s o m h. record {
      counted = h.counted;
      numbered = h.numbered;
      opened = h.opened;
      quiet = h.quiet;
      unfailed = cc;
    };
    at_emit = λ s f n h. record {
      counted = omega (arith, h.counted);
      numbered = (omega (arith, h.counted), h.numbered);
      opened = last?-cons _ _ s.facts h.opened;
      quiet = (n, h.quiet);
      unfailed = h.unfailed;
    };
    at_fail = λ s k x n h. record {
      counted = omega (arith, h.counted);
      numbered = (omega (arith, h.counted), h.numbered);
      opened = last?-cons _ _ s.facts h.opened;
      ended = (_, s.facts, refl, h.quiet, inr (x, refl, refl, refl));
    };
  }

  IsOpen-IsEnded : (input : RunInput) (turn : ℕ) → IsEnded e input turn IsOpen (IsClosed e)
  unfolding emit fail exit set_outcome ◌>>=◌
  IsOpen-IsEnded input turn = record {
    at_completed = λ s h. record {
      counted = omega (arith, h.counted);
      numbered = (omega (arith, h.counted), h.numbered);
      opened = last?-cons _ _ s.facts h.opened;
      ended = (_, s.facts, refl, h.quiet, inl (refl, h.unfailed, refl));
    };
    at_exceeded = λ s h l. record {
      counted = omega (arith, h.counted);
      numbered = (omega (arith, h.counted), h.numbered);
      opened = last?-cons _ _ s.facts h.opened;
      ended = (_, s.facts, refl, h.quiet, inr (_, refl, refl, refl));
    };
  }

  run_ready-IsClosed :
      (input : RunInput) (fuel : ℕ) (w : W) {s : Run W}
      → run_ready e input fuel w ≡ some s
      → IsClosed e s
  unfolding emit
  run_ready-IsClosed input fuel w =
      run_ready-ends e input (λ t. IsOpen) (IsClosed e)
        (λ turn.
          turn_body-keeps e input turn IsOpen-IsStable (IsOpen-IsEnded input turn) IsOpen (λ s h.
            record {
              counted = h.counted;
              numbered = h.numbered;
              opened = h.opened;
              quiet = h.quiet;
              unfailed = h.unfailed;
            }))
        (start_rest-Triple e input IsOpen-IsStable) fuel w
        (record {
          counted = refl;
          numbered = (refl, tt);
          opened = refl;
          quiet = (refl, tt);
          unfailed = refl;
        })

-- Every run that ends was either refused for want of a collaborator, with no fact and no effect, or has
-- a log that starts with run_started, is numbered from 1 without a gap, holds exactly one terminal fact,
-- the last one, and that fact tells the outcome: run_completed with the final message where there is
-- no error, run_error with the text of the error where there is one.
pub run-IsClosed :
    {W : Type 0} (e : Option (AgentEngine W)) (input : RunInput) (fuel : ℕ) (w : W) {s : Run W}
    → run e input fuel w ≡ some s
    → ((x : Error) × (validate e ≡ inl x) × (s ≡ refused w x))
      ⊎ ((r : Ready W) × (validate e ≡ inr r) × IsClosed r s)
run-IsClosed e input fuel w h = elim (validate-cases e) [
  | inl (x, q) ↦ inl (x, q, cc (run-refused e input fuel w x q))
  | inr (r, q) ↦
      inr (r, q, run_ready-IsClosed r input fuel w (rw (← run_accepted e input fuel w r q) h))
]
