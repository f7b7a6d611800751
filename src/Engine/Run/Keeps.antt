-- ===== src/Engine/Run/Keeps.antt =====
-- Rules by which an action of Engine/Run.antt keeps a statement about the run's state while it falls
-- through, and establishes another one where it ends the run.
use foxharness.Prelude.{
  ℕ, ◌≡◌, ◌≢◌, refl, Bool, true, false, List, [], ◌∷◌, Option, some, none, inl, inr, str_eq,
  Bool-cases, All, String,
}
use foxharness.Engine.Types.{
  Error, ErrorKind, turn_limit, Result, ok, err, Started, started, nil_started, start_failed, Fact,
  FactKind, run_completed, run_error, RunOutcome, Ready, ModelFact, ModelFactKind,
  message_delta_fact, other_model_fact, ModelResult, RunContext, ConversationChange, ChangeSource,
  no_source, thinking_source, failure, wrapped,
}
use foxharness.Engine.Run.{
  Run, Step, next, stop, M, pure, exit, continue, ◌>>=◌, ◌>>◌, act, act_model, set_outcome, emit,
  emit_all, fail, fail_on, or_fail, or_fail_wrapped, or_fail_nil, delta, emit_deltas, injection,
  emit_injections, request_changes, invoke, invoke_silent, unless,
}

abbrev pub Post : {W A : Type 0} → (Run W → Type 0) → (Run W → Type 0) → Step A × Run W → Type 0
Post I C (next a, s) = I s
Post I C (stop, s) = C s

-- From `I`, the action falls through with `J` or ends the run with `C`.
pub record Triple {W A : Type 0} (I : Run W → Type 0) (m : M W A) (J C : Run W → Type 0)
    : Type 0 where
  pub at : (s : Run W) → I s → Post J C (m s)

-- Facts that end a run.
abbrev pub is_terminal : FactKind → Bool
is_terminal run_completed = true
is_terminal run_error = true
is_terminal _ = false

-- An update of the outcome that leaves the turn and the error alone.
abbrev pub Minor : RunOutcome → RunOutcome → Type 0
Minor o o' = (o'.turn_count ≡ o.turn_count) × (o'.error_kind ≡ o.error_kind) × (o'.error ≡ o.error)

-- What a pair of statements needs so that every action of a turn respects it.
pub record IsStable {W : Type 0} (e : Ready W) (I C : Run W → Type 0) : Type 0 where
  pub at_world : (s : Run W) (w : W) → I s → I (record s { world = w })
  pub at_outcome :
      (s : Run W) (o : RunOutcome) → Minor s.outcome o → I s → I (record s { outcome = o })
  pub at_emit : (s : Run W) (f : Fact) → is_terminal f.kind ≡ false → I s → I (emit e f s).1
  pub at_fail :
      (s : Run W) (k : ErrorKind) (x : Error)
      → k ≢ turn_limit
      → I s
      → C (fail e {A = Unit {0}} k x s).1

module _ {W A : Type 0} {I C : Run W → Type 0} where
  pub pure-Triple : (a : A) → Triple I (pure a) I C
  unfolding pure
  pure-Triple a = record { at = λ s h. h }

  pub act-Triple :
      ((s : Run W) (w : W) → I s → I (record s { world = w }))
      → (call : W → A × W) → Triple I (act call) I C
  unfolding act
  act-Triple keep call = record { at = λ s h. keep s (call s.world).1 h }

module _ {W A B : Type 0} {J K C : Run W → Type 0} where
  continue-Post :
      (f : A → M W B)
      → ((a : A) → Triple J (f a) K C)
      → (r : Step A × Run W) → Post J C r
      → Post K C (continue r.0 f r.1)
  continue-Post f kf (next a, s) h = (kf a).at s h
  continue-Post f kf (stop, s) h = h

module _ {W A B : Type 0} {I J K C : Run W → Type 0} where
  pub bind-Triple :
      {m : M W A} {f : A → M W B}
      → Triple I m J C
      → ((a : A) → Triple J (f a) K C)
      → Triple I (m >>= f) K C
  unfolding ◌>>=◌
  bind-Triple {m} {f} km kf = record { at = λ s h. continue-Post f kf (m s) (km.at s h) }

module _ {W A B : Type 0} {I J C : Run W → Type 0} where
  infixr 5 ◌then◌
  pub ◌then◌ : {m : M W A} {n : M W B} → Triple I m I C → Triple I n J C → Triple I (m >> n) J C
  km then kn = bind-Triple km (λ a. kn)

weaken :
    {W A : Type 0} {J J' : Run W → Type 0} (C : Run W → Type 0)
    → ((s : Run W) → J s → J' s)
    → (r : Step A × Run W) → Post J C r
    → Post J' C r
weaken C f (next a, s) h = f s h
weaken C f (stop, s) h = h

module _ {W A : Type 0} {I J I' J' C : Run W → Type 0} where
  pub weaken-Triple :
      {m : M W A}
      → ((s : Run W) → I' s → I s)
      → ((s : Run W) → J s → J' s)
      → Triple I m J C
      → Triple I' m J' C
  weaken-Triple {m} before after k = record {
    at = λ s h. weaken C after (m s) (k.at s (before s h));
  }

-- An update of the outcome that takes one statement to another.
pub begin-Triple :
    {W : Type 0} {I J C : Run W → Type 0} (change : RunOutcome → RunOutcome)
    → ((s : Run W) → J s → I (record s { outcome = change s.outcome }))
    → Triple J (set_outcome change) I C
unfolding set_outcome
begin-Triple change step = record { at = step }

module _ {W : Type 0} (e : Ready W) {I C : Run W → Type 0} (t : IsStable e I C) where
  pub call-Triple : {A : Type 0} (call : W → A × W) → Triple I (act call) I C
  call-Triple call = act-Triple t.at_world call

  pub model-Triple :
      (call : W → List ModelFact × Result ModelResult × W) → Triple I (act_model call) I C
  unfolding act_model
  model-Triple call = record { at = λ s h. t.at_world s (call s.world).2 h }

  pub set_outcome-Triple :
      (change : RunOutcome → RunOutcome)
      → ((o : RunOutcome) → Minor o (change o))
      → Triple I (set_outcome change) I C
  unfolding set_outcome
  set_outcome-Triple change minor = record {
    at = λ s h. t.at_outcome s (change s.outcome) (minor s.outcome) h;
  }

  pub emit-Triple : (f : Fact) → is_terminal f.kind ≡ false → Triple I (emit e f) I C
  unfolding emit
  emit-Triple f n = record { at = λ s h. t.at_emit s f n h }

  pub fail-Triple :
      {A : Type 0} (k : ErrorKind) (x : Error) → k ≢ turn_limit → Triple I (fail e {A = A} k x) I C
  unfolding fail ◌>>=◌ set_outcome emit exit
  fail-Triple k x n = record { at = λ s h. t.at_fail s k x n h }

  pub fail_on-Triple :
      (k : ErrorKind) → k ≢ turn_limit → (x : Option Error) → Triple I (fail_on e k x) I C
  unfolding fail_on
  fail_on-Triple k n none = pure-Triple tt
  fail_on-Triple k n (some x) = fail-Triple k x n

  pub or_fail-Triple :
      {A : Type 0} (k : ErrorKind) → k ≢ turn_limit → (r : Result A) → Triple I (or_fail e k r) I C
  unfolding or_fail
  or_fail-Triple k n (ok a) = pure-Triple a
  or_fail-Triple k n (err x) = fail-Triple k x n

  pub or_fail_wrapped-Triple :
      {A : Type 0} (k : ErrorKind) (message : String)
      → k ≢ turn_limit
      → (r : Result A) → Triple I (or_fail_wrapped e k message r) I C
  unfolding or_fail_wrapped
  or_fail_wrapped-Triple k message n (ok a) = pure-Triple a
  or_fail_wrapped-Triple k message n (err x) = fail-Triple k (wrapped message x) n

  pub or_fail_nil-Triple :
      {A : Type 0} (k : ErrorKind) (message : String) (wrap : Error → Error)
      → k ≢ turn_limit
      → (r : Started A) → Triple I (or_fail_nil e k message wrap r) I C
  unfolding or_fail_nil
  or_fail_nil-Triple k message wrap n (started a) = pure-Triple a
  or_fail_nil-Triple k message wrap n nil_started = fail-Triple k (failure message) n
  or_fail_nil-Triple k message wrap n (start_failed x) = fail-Triple k (wrap x) n

  pub unless-Triple :
      (skip : Bool) {m : M W (Unit {0})} → Triple I m I C → Triple I (unless skip m) I C
  unfolding unless
  unless-Triple true km = pure-Triple tt
  unless-Triple false km = km

  pub emit_all-Triple :
      (fs : List Fact) → All (λ f. is_terminal f.kind ≡ false) fs → Triple I (emit_all e fs) I C
  unfolding emit_all
  emit_all-Triple [] n = pure-Triple tt
  emit_all-Triple (f ∷ fs) n = emit-Triple f n.0 then emit_all-Triple fs n.1

  delta-Triple : (k : ModelFactKind) (content : String) → Triple I (delta e k content) I C
  unfolding delta
  delta-Triple message_delta_fact content = elim (Bool-cases (str_eq content "")) [
    | inl h ↦ rw h (pure-Triple tt)
    | inr h ↦ rw h (emit-Triple _ refl)
  ]
  delta-Triple (other_model_fact k) content = pure-Triple tt

  emit_deltas-Triple : (fs : List ModelFact) → Triple I (emit_deltas e fs) I C
  unfolding emit_deltas
  emit_deltas-Triple [] = pure-Triple tt
  emit_deltas-Triple (f ∷ fs) = delta-Triple f.kind f.content then emit_deltas-Triple fs

  injection-Triple :
      (c : ChangeSource) (turn : ℕ) (content : String) → Triple I (injection e c turn content) I C
  unfolding injection
  injection-Triple no_source turn content = pure-Triple tt
  injection-Triple thinking_source turn content = pure-Triple tt
  injection-Triple _ turn content = emit-Triple _ refl

  pub emit_injections-Triple :
      (turn : ℕ) (cs : List ConversationChange) → Triple I (emit_injections e turn cs) I C
  unfolding emit_injections
  emit_injections-Triple turn [] = pure-Triple tt
  emit_injections-Triple turn (c ∷ cs) =
      injection-Triple c.source turn c.message.content then emit_injections-Triple turn cs

  pub request_changes-Triple :
      (k : ErrorKind) (turn : ℕ)
      → k ≢ turn_limit
      → (cs : List ConversationChange) → Triple I (request_changes e k turn cs) I C
  unfolding request_changes
  request_changes-Triple k turn n [] = pure-Triple tt
  request_changes-Triple k turn n (c ∷ cs) = bind-Triple (call-Triple _) (fail_on-Triple k n)

  pub invoke-Triple : (context : RunContext) → Triple I (invoke e context) I C
  unfolding invoke
  invoke-Triple context =
      bind-Triple (model-Triple _) (λ a. emit_deltas-Triple a.0 then pure-Triple a.1)

  pub invoke_silent-Triple : (context : RunContext) → Triple I (invoke_silent e context) I C
  unfolding invoke_silent
  invoke_silent-Triple context = bind-Triple (model-Triple _) (λ a. pure-Triple a.1)
