-- ===== src/Engine/Phases.antt =====
-- The phases of one turn in AgentEngine.Run of internal/engine/target.go, up to the policy's
-- decision.
pub mod Keeps
use foxharness.Prelude.{ℕ, List, [], ◌∷◌, Option, some, none, map, str_eq, if◌then◌else◌, Bool}
use foxharness.Schema.{Message, ToolDefinition, normalize_message}
use foxharness.Engine.Types.{
  failure, is_prompt_too_long, Result, ok, err, Phase, action, thinking, RunInput, ModelResult,
  ConversationChange, ChangeKind, ChangeSource, append_message, append_context_message, no_source,
  thinking_source, Preparation, normal, reactive, Projection, PolicyTerminal, TurnDecision, fact,
  message_fact, thinking_fact, Ready, conversation_error, policy_error, tool_error, provider_error,
  Error, Compaction,
}
use foxharness.Engine.Run.{
  M, pure, ◌>>=◌, ◌>>◌, act, set_outcome, emit, emit_all, fail, fail_on, or_fail, or_fail_wrapped,
  emit_injections, unless, compaction_of, request_changes, invoke, invoke_silent, add_usage,
}

-- A ConversationChange literal, its turn not yet stamped.
abbrev pub change : ChangeKind → ChangeSource → Message → ConversationChange
change kind source message = record { kind = kind; source = source; message = message; turn = 0 }

module _ {W : Type 0} (e : Ready W) (input : RunInput) (turn : ℕ) where
  pub prepare_context : Phase → List ToolDefinition → Preparation → M W Projection
  prepare_context phase definitions preparation = do
    answer ← act (
        e.conversation.prepare (record {
          input = input;
          turn = turn;
          phase = phase;
          tool_definitions = definitions;
          preparation = preparation;
        }))
    projection ← or_fail e conversation_error answer
    pure (record projection {
      context = record projection.context {
        turn = turn;
        phase = phase;
        tool_definitions = definitions;
      };
    })

  boundary : Option (W → Option Error × W) → M W (Unit {0})
  boundary none = pure tt
  boundary (some call) = act call >>= fail_on e tool_error

  pub begin_turn : M W (Unit {0})
  begin_turn = boundary e.tools.begin_turn

  -- The thinking phase of a turn, skipped unless the run asks for it.
  pub think : List ToolDefinition → M W (Unit {0})
  think definitions = do
    emit e (record (fact thinking_fact) { turn = turn })
    prepared ← prepare_context thinking definitions normal
    emit_all e (map (compaction_of turn thinking) prepared.compactions)
    answer ← invoke_silent e (record prepared.context { tool_definitions = [] })
    thought ← or_fail_wrapped e provider_error "Thinking 阶段生成失败" answer
    set_outcome (λ o. record o { usage = add_usage o.usage thought.usage })
    unless (str_eq thought.message.content "") (
        request_changes e conversation_error turn (
          change append_context_message thinking_source (normalize_message e.json thought.message)
          ∷ []))

  -- The second invocation, made only if the reactive projection reduced the context.
  retry_reduced : Error → Projection → List Compaction → M W (Result ModelResult)
  retry_reduced x prepared [] = pure (err x)
  retry_reduced x prepared (c ∷ cs) = do
    emit_all e (map (compaction_of turn action) (c ∷ cs))
    invoke e prepared.context

  -- The one recovery from a prompt that was too long.
  pub retry : List ToolDefinition → Result ModelResult → M W (Result ModelResult)
  retry definitions (ok r) = pure (ok r)
  retry definitions (err x) =
      let again =
        prepare_context action definitions reactive
        >>= (λ prepared. retry_reduced x prepared prepared.compactions) in
      if is_prompt_too_long x then again else pure (err x)

  -- The action phase, from the projection to the model's accepted message.
  pub act_phase : List ToolDefinition → List ConversationChange → M W ModelResult
  act_phase definitions before = do
    prepared ← prepare_context action definitions normal
    emit_all e (map (compaction_of turn action) prepared.compactions)
    emit_injections e turn before
    first ← invoke e prepared.context
    final ← retry definitions first
    r ← or_fail_wrapped e provider_error "模型生成失败" final
    set_outcome (λ o. record o {
      final_message = if str_eq r.message.content "" then o.final_message else r.message.content;
      finish_reason = r.finish_reason;
      usage = add_usage o.usage r.usage;
    })
    request_changes e conversation_error turn
        (change append_message no_source (normalize_message e.json r.message) ∷ [])
    unless (str_eq r.message.content "")
        (emit e (record (fact message_fact) { content = r.message.content }))
    pure r

  terminal_with : Bool → Option Error → M W (Unit {0})
  terminal_with partial none =
      fail e policy_error (failure "turn policy returned a terminal decision without an error")
  terminal_with partial (some x) = do
    set_outcome (λ o. record o { partial = partial })
    fail e policy_error x

  -- A terminal decision of the policy ends the run.
  pub terminal : Option PolicyTerminal → M W (Unit {0})
  terminal none = pure tt
  terminal (some t) = terminal_with t.partial t.terminal_err

  pub decide : ModelResult → M W TurnDecision
  decide r = do
    answer ← act (e.policy.after_model turn r)
    decision ← or_fail e policy_error answer
    emit_injections e turn decision.changes
    request_changes e conversation_error turn decision.changes
    terminal decision.terminal
    pure decision
