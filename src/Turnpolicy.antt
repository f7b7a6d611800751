-- ===== src/Turnpolicy.antt =====
-- internal/turnpolicy/policy.go: the recovery, reminder and completion policy of one run. The queries
-- of the runtime work on a world `W`, and may be absent.

pub mod Gates
pub mod Recorded
pub mod Rounds
pub mod Reminders
mod Tests
use foxharness.Prelude.{
  ℕ, String, Bool, true, false, List, [], ◌∷◌, Option, some, none, if◌then◌else◌, ◌++◌, ltb, length,
  not, ◌&&◌, ◌||◌, str_eq, text_append, joined, ◌==◌, ◌+◌,
}
use foxharness.Go.{GoLib}
use foxharness.Schema.{ToolCall, Message, user}
use foxharness.Engine.Types.{
  Result, ok, err, Error, failure, RunInput, ModelResult, ConversationChange, ChangeSource,
  TurnDecision, PolicyTerminal, ToolState, ToolExecutionResult, Started, started, start_failed,
  TurnPolicy, append_context_message, recovery_source, reminder_source, next_turn_source,
  completion_gate_source, todo_gate_source, action,
}
use foxharness.Recovery.{
  Tracker, new_tracker, should_inject, build_prompt, mark_inject, record_result,
}
use foxharness.Reminder.{Manager, new_manager, maybe_build, record_action}

pub record Bindings (W : Type 0) : Type 0 where
  pub completion_gate : Option (W → Result String × W)
  pub todo_gate : Option (W → Result String × W)
  pub next_turn : Option (ℕ → W → Result (List String) × W)

-- Config, its factory absent or one that may fail.
pub record Config (W : Type 0) : Type 0 where
  pub bind : Option (RunInput → W → Result (Bindings W) × W)

pub record RunPolicy (W : Type 0) : Type 0 where
  pub bindings : Bindings W
  pub recovery : Tracker
  pub reminder : Manager
  pub completion_reminder : String
  pub todo_reminder_sent : Bool
  pub todo_updated : Bool

unfoldable pub context_change : ChangeSource → String → ConversationChange
context_change source content = record {
  kind = append_context_message;
  source = source;
  message = record {
    role = user;
    content = content;
    tool_calls = [];
    tool_call_id = "";
    usage = none;
    content_parts = [];
    structured_content = "";
    is_error = false;
  };
  turn = 0;
}

unfoldable pub context_notice : String → ConversationChange
unfolding context_change
context_notice message =
    context_change recovery_source (text_append "[Runtime System Notice]\n\n" message)

unfoldable pub context_reminder : ChangeSource → String → ConversationChange
unfolding context_change
context_reminder source message =
    context_change source (text_append "[Runtime System Reminder]\n\n" message)

-- TurnDecision{}, and the decisions that AfterModel makes.
abbrev pub no_decision : TurnDecision
no_decision = record { complete = false; changes = []; terminal = none }

abbrev pub reminds : ChangeSource → String → TurnDecision
reminds source message = record no_decision { changes = context_reminder source message ∷ [] }

unfoldable pub terminal_decision : Error → Bool → TurnDecision
terminal_decision e partial = record no_decision {
  terminal = some (record { terminal_err = some e; partial = partial });
}

abbrev pub reminder_changes : Option String → List ConversationChange
reminder_changes none = []
reminder_changes (some message) = context_reminder reminder_source message ∷ []

module _ (go : GoLib) where
  unfoldable pub next_turn_changes : List String → List ConversationChange
  next_turn_changes [] = []
  next_turn_changes (message ∷ messages) =
      if str_eq (go.trim_space message) ""
      then next_turn_changes messages
      else context_reminder next_turn_source message ∷ next_turn_changes messages

  unfoldable pub foreign_result : ℕ → ToolExecutionResult → ToolCall → Error
  foreign_result index result call = failure (
      joined (
        "policy tool result "
        ∷ go.decimal index
        ∷ " call ID = "
        ∷ go.quoted result.call_id
        ∷ ", want "
        ∷ go.quoted call.id
        ∷ []))

-- A gate that is asked, and what becomes of an answer that lets the run go on.
module _ {W : Type 0} where
  abbrev answered :
      (String → RunPolicy W → Option TurnDecision × RunPolicy W)
      → RunPolicy W
      → Result String × W
      → Result (Option TurnDecision) × (RunPolicy W × W)
  answered answer p (err e, w) = (err e, (p, w))
  answered answer p (ok message, w) = let (d, p') = answer message p in (ok d, (p', w))

  abbrev pub gate :
      (String → RunPolicy W → Option TurnDecision × RunPolicy W)
      → Option (W → Result String × W)
      → RunPolicy W
      → W
      → Result (Option TurnDecision) × (RunPolicy W × W)
  gate answer none p w = (ok none, (p, w))
  gate answer (some ask) p w = answered answer p (ask w)

  abbrev pub or_complete :
      Result (Option TurnDecision) × (RunPolicy W × W) → Result TurnDecision × (RunPolicy W × W)
  or_complete (err e, s) = (err e, s)
  or_complete (ok (some d), s) = (ok d, s)
  or_complete (ok none, s) = (ok (record no_decision { complete = true }), s)

module _ (go : GoLib) {W : Type 0} where
  unfoldable pub bound : Result (Bindings W) × W → Result (RunPolicy W) × W
  bound (err e, w) = (err e, w)
  bound (ok b, w) = (
    ok (record {
      bindings = b;
      recovery = new_tracker;
      reminder = new_manager;
      completion_reminder = "";
      todo_reminder_sent = false;
      todo_updated = false;
    }),
    w,
  )

  abbrev bind_with :
      Option (RunInput → W → Result (Bindings W) × W) → RunInput → W → Result (Bindings W) × W
  bind_with none input w =
      (ok (record { completion_gate = none; todo_gate = none; next_turn = none }), w)
  bind_with (some bind) input w = bind input w

  -- StartRun; the policy may be nil.
  unfoldable pub start_run : Option (Config W) → RunInput → W → Result (RunPolicy W) × W
  unfolding bound
  start_run none input w = (err (failure "turn policy is required"), w)
  start_run (some config) input w = bound (bind_with config.bind input w)

  -- The three parts of BeforeTurn.
  unfoldable pub recovery_part : RunPolicy W → List ConversationChange × RunPolicy W
  recovery_part p =
      let prompt = build_prompt go p.recovery in
      if should_inject p.recovery && not (str_eq prompt "")
      then (context_notice prompt ∷ [], record p { recovery = mark_inject p.recovery })
      else ([], p)

  unfoldable pub reminder_part : ℕ → RunPolicy W → List ConversationChange × RunPolicy W
  reminder_part turn p =
      let (message, m) = maybe_build go turn p.reminder in
      (reminder_changes message, record p { reminder = m })

  abbrev pub with_messages :
      List ConversationChange → Result (List String) × W → Result (List ConversationChange) × W
  with_messages changes (err e, w) = (err e, w)
  with_messages changes (ok messages, w) = (ok (changes ++ next_turn_changes go messages), w)

  abbrev pub next_turn_part :
      Option (ℕ → W → Result (List String) × W)
      → ℕ
      → List ConversationChange
      → W
      → Result (List ConversationChange) × W
  next_turn_part none turn changes w = (ok changes, w)
  next_turn_part (some ask) turn changes w = with_messages changes (ask turn w)

  unfoldable pub before_turn :
      ℕ → RunPolicy W → W → Result (List ConversationChange) × (RunPolicy W × W)
  unfolding recovery_part reminder_part next_turn_changes
  before_turn turn p w =
      let (first, p1) = recovery_part p in
      let (second, p2) = reminder_part turn p1 in
      let (answer, w') = next_turn_part p.bindings.next_turn turn (first ++ second) w in
      (answer, (p2, w'))

  -- What AfterModel does with the answer of each gate; none goes on.
  unfoldable pub completion_answer : String → RunPolicy W → Option TurnDecision × RunPolicy W
  completion_answer answer p =
      let message = go.trim_space answer in
      if str_eq message ""
      then (none, p)
      else if str_eq p.completion_reminder message
      then (
        some (
            terminal_decision
              (failure
                (text_append "completion gate remained unsatisfied after reminder: " message))
              true),
        p,
      )
      else (
        some (reminds completion_gate_source message),
        record p { completion_reminder = message },
      )

  unfoldable pub todo_answer : String → RunPolicy W → Option TurnDecision × RunPolicy W
  todo_answer answer p =
      let message = go.trim_space answer in
      if str_eq message ""
      then (none, p)
      else if p.todo_reminder_sent
      then (
        some (
            terminal_decision
              (failure
                "TODO.md still has incomplete checklist items after TODO completion reminder")
              false),
        p,
      )
      else (some (reminds todo_gate_source message), record p { todo_reminder_sent = true })

  abbrev pub or_todo :
      Result (Option TurnDecision) × (RunPolicy W × W) → Result TurnDecision × (RunPolicy W × W)
  or_todo (err e, s) = (err e, s)
  or_todo (ok (some d), s) = (ok d, s)
  or_todo (ok none, (p, w)) =
      or_complete
        (if p.todo_updated then (ok none, (p, w)) else gate todo_answer p.bindings.todo_gate p w)

  unfoldable pub after_model :
      ModelResult → RunPolicy W → W → Result TurnDecision × (RunPolicy W × W)
  unfolding completion_answer todo_answer
  after_model model p w =
      if ltb 0 (length model.message.tool_calls)
      then (ok no_decision, (p, w))
      else or_todo (gate completion_answer p.bindings.completion_gate p w)

  -- One step of the loop of AfterTools.
  unfoldable pub after_tool : ℕ → ToolCall → ToolExecutionResult → RunPolicy W → RunPolicy W
  after_tool turn call result p = record p {
    reminder = record_action turn call result.is_error p.reminder;
    recovery =
        record_result go call
          (record { is_error = result.is_error; output = go.bytes result.model_content })
          p.recovery;
    todo_updated = (str_eq call.name "update_todo" && not result.is_error) || p.todo_updated;
  }

  unfoldable pub after_each :
      ℕ
      → ℕ
      → List ToolCall
      → List ToolExecutionResult
      → RunPolicy W
      → Result (List ConversationChange) × RunPolicy W
  unfolding after_tool foreign_result
  after_each turn index [] results p = (ok [], p)
  after_each turn index (call ∷ calls) [] p = (ok [], p)
  after_each turn index (call ∷ calls) (result ∷ results) p =
      if not (str_eq result.call_id "") && not (str_eq result.call_id call.id)
      then (err (foreign_result go index result call), p)
      else after_each turn (index + 1) calls results (after_tool turn call result p)

  unfoldable pub after_tools :
      ToolState → RunPolicy W → W → Result (List ConversationChange) × (RunPolicy W × W)
  unfolding after_each
  after_tools state p w =
      if not (length state.calls == length state.results)
      then (
        err (
            failure (
              joined (
                "policy tool result count = "
                ∷ go.decimal (length state.results)
                ∷ ", want "
                ∷ go.decimal (length state.calls)
                ∷ []))),
        (p, w),
      )
      else let (answer, p') = after_each state.turn 0 state.calls state.results p in
        (answer, (p', w))

  -- The run policy as the engine holds it, in a world that keeps its state.
  abbrev handed :
      W → RunPolicy W → Result (RunPolicy W) × W → Started (Unit {0}) × (RunPolicy W × W)
  handed w0 p (err e, w) = (start_failed e, (p, w))
  handed w0 p (ok fresh, w) = (started tt, (fresh, w))

  unfoldable pub turn_policy : Option (Config W) → TurnPolicy (RunPolicy W × W)
  turn_policy config = record {
    start_run = λ input s. handed s.1 s.0 (start_run config input s.1);
    before_turn = λ turn s. before_turn turn s.0 s.1;
    after_model = λ turn model s. after_model model s.0 s.1;
    after_tools = λ state s. after_tools state s.0 s.1;
  }
