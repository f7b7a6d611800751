-- ===== src/Engine/Run.antt =====
-- The state of one run of internal/engine/target.go and the actions from which a turn is built. The
-- closure `emit` and the method `fail` of the source are actions on that state.
pub mod Keeps
use foxharness.Prelude.{
  ℕ, suc, ◌+◌, ◌%◌, ◌^◌, String, Bool, true, false, List, [], ◌∷◌, Option, some, none, map, str_eq,
  if◌then◌else◌,
}
use foxharness.Schema.{Usage}
use foxharness.Engine.Types.{
  Error, wrapped, failure, Result, ok, err, Started, started, nil_started, start_failed, Phase,
  action, ModelFact, ModelFactKind, message_delta_fact, other_model_fact, ModelResult, Compaction,
  ConversationChange, ChangeSource, no_source, thinking_source, recovery_source, reminder_source,
  next_turn_source, completion_gate_source, todo_gate_source, Fact, FactKind, fact, message_delta,
  compaction_fact, system_reminder, error_recovery, run_error, ErrorKind, RunOutcome, RunContext,
  Ready,
}

-- `facts` holds the facts emitted so far, the newest first.
pub record Run (W : Type 0) : Type 0 where
  pub world : W
  pub sequence : ℕ
  pub facts : List Fact
  pub outcome : RunOutcome

-- A statement falls through, or returns from Run with the outcome in the state.
pub data Step (A : Type 0) : Type 0 where
  next : A → Step A
  stop : Step A

abbrev pub M : Type 0 → Type 0 → Type 0
M W A = Run W → Step A × Run W

module _ {W A : Type 0} where
  unfoldable pub pure : A → M W A
  pure a s = (next a, s)

  unfoldable pub exit : M W A
  exit s = (stop, s)

module _ {W A B : Type 0} where
  abbrev pub continue : Step A → (A → M W B) → M W B
  continue (next a) f s = f a s
  continue stop f s = (stop, s)

  infixl 5 ◌>>=◌ ◌>>◌
  unfoldable pub ◌>>=◌ : M W A → (A → M W B) → M W B
  ◌>>=◌ m f s = let (r, s') = m s in continue r f s'

  abbrev pub ◌>>◌ : M W A → M W B → M W B
  m >> n = m >>= λ _. n

-- A call of a collaborator.
unfoldable pub act : {W A : Type 0} → (W → A × W) → M W A
act {W} {A} call s = let (a, w) = call s.world in (next a, record s { world = w })

pub act_model :
    {W : Type 0}
    → (W → List ModelFact × Result ModelResult × W)
    → M W (List ModelFact × Result ModelResult)
act_model call s = let (fs, r, w) = call s.world in (next (fs, r), record s { world = w })

unfoldable pub set_outcome : {W : Type 0} → (RunOutcome → RunOutcome) → M W (Unit {0})
set_outcome change s = (next tt, record s { outcome = change s.outcome })

unfoldable pub get_outcome : {W : Type 0} → M W RunOutcome
get_outcome s = (next s.outcome, s)

unfoldable pub unless : {W : Type 0} → Bool → M W (Unit {0}) → M W (Unit {0})
unless skip m = if skip then pure tt else m

unfoldable pub compaction_of : ℕ → Phase → Compaction → Fact
compaction_of turn phase c = record (fact compaction_fact) {
  turn = turn;
  phase = phase;
  name = c.trigger;
  before_messages = c.before_messages;
  after_messages = c.after_messages;
}

-- requestChanges stamps each change with the turn that made it.
abbrev stamp : ℕ → ConversationChange → ConversationChange
stamp turn change = record change { turn = turn }

module _ {W : Type 0} (e : Ready W) where
  -- A nil observer is skipped, and the sequence number counts on.
  notify : Fact → W → W
  notify f w = elim e.observer [ none ↦ w | some o ↦ o.observe f w ]

  unfoldable pub emit : Fact → M W (Unit {0})
  unfolding notify
  emit f s =
      let n = s.sequence + 1 in
      let numbered = record f { sequence = n } in
      (
        next tt,
        record s { world = notify numbered s.world; sequence = n; facts = numbered ∷ s.facts },
      )

  unfoldable pub emit_all : List Fact → M W (Unit {0})
  emit_all [] = pure tt
  emit_all (f ∷ fs) = emit f >> emit_all fs

  unfoldable pub fail : {A : Type 0} → ErrorKind → Error → M W A
  fail {A} kind x = do
    set_outcome (λ o. record o { error_kind = kind; error = some x })
    emit (record (fact run_error) { content = e.render x; is_error = true })
    exit

  unfoldable pub fail_on : ErrorKind → Option Error → M W (Unit {0})
  fail_on kind none = pure tt
  fail_on kind (some x) = fail kind x

  unfoldable pub or_fail : {A : Type 0} → ErrorKind → Result A → M W A
  or_fail kind (ok a) = pure a
  or_fail kind (err x) = fail kind x

  -- As `or_fail`, with fmt.Errorf("message: %w", err).
  pub or_fail_wrapped : {A : Type 0} → ErrorKind → String → Result A → M W A
  or_fail_wrapped kind message (ok a) = pure a
  or_fail_wrapped kind message (err x) = fail kind (wrapped message x)

  unfoldable pub or_fail_nil :
      {A : Type 0} → ErrorKind → String → (Error → Error) → Started A → M W A
  or_fail_nil kind message wrap (started a) = pure a
  or_fail_nil kind message wrap nil_started = fail kind (failure message)
  or_fail_nil kind message wrap (start_failed x) = fail kind (wrap x)

  -- emitModelFact: only visible, non-empty deltas become facts.
  delta : ModelFactKind → String → M W (Unit {0})
  delta message_delta_fact content =
      if str_eq content ""
      then pure tt
      else emit (record (fact message_delta) { content = content })
  delta (other_model_fact k) content = pure tt

  pub emit_deltas : List ModelFact → M W (Unit {0})
  emit_deltas [] = pure tt
  emit_deltas (f ∷ fs) = delta f.kind f.content >> emit_deltas fs

  reminder : ℕ → String → String → M W (Unit {0})
  reminder turn source content =
      emit (record (fact system_reminder) { turn = turn; name = source; content = content })

  -- One change of emitInjectionFacts.
  injection : ChangeSource → ℕ → String → M W (Unit {0})
  unfolding reminder
  injection recovery_source turn content =
      emit (record (fact error_recovery) { turn = turn; content = content })
  injection reminder_source turn content = reminder turn "reminder" content
  injection next_turn_source turn content = reminder turn "next_turn_reminder" content
  injection completion_gate_source turn content = reminder turn "completion_gate" content
  injection todo_gate_source turn content = reminder turn "todo_gate" content
  injection no_source turn content = pure tt
  injection thinking_source turn content = pure tt

  pub emit_injections : ℕ → List ConversationChange → M W (Unit {0})
  emit_injections turn [] = pure tt
  emit_injections turn (c ∷ cs) =
      injection c.source turn c.message.content >> emit_injections turn cs

  unfoldable pub request_changes : ErrorKind → ℕ → List ConversationChange → M W (Unit {0})
  request_changes kind turn [] = pure tt
  request_changes kind turn (c ∷ cs) = do
    x ← act (e.conversation.request_changes (map (stamp turn) (c ∷ cs)))
    fail_on kind x

  -- One invocation in the action phase: its deltas are emitted, its error is handed back.
  pub invoke : RunContext → M W (Result ModelResult)
  invoke context = do
    answer ← act_model (e.model.invoke context)
    emit_deltas answer.0
    pure answer.1

  -- One invocation in the thinking phase, whose emitter drops every fact.
  pub invoke_silent : RunContext → M W (Result ModelResult)
  invoke_silent context = do answer ← act_model (e.model.invoke context); pure answer.1

abbrev int64_mod : ℕ
int64_mod = 18446744073709551616

-- int64 additions on the bit patterns.
pub add_usage : Usage → Usage → Usage
add_usage left right = record {
  input_tokens = (left.input_tokens + right.input_tokens) % int64_mod;
  output_tokens = (left.output_tokens + right.output_tokens) % int64_mod;
  cache_creation_tokens = (left.cache_creation_tokens + right.cache_creation_tokens) % int64_mod;
  cache_read_tokens = (left.cache_read_tokens + right.cache_read_tokens) % int64_mod;
}
