-- ===== src/Engine/Turn.antt =====
-- AgentEngine.Run of internal/engine/target.go: a whole turn, the turn loop, and the checks and the
-- start-up before it.
pub mod Keeps
use foxharness.Prelude.{
  ◌≡◌, refl, ℕ, zero, suc, ◌+◌, Bool, true, [], Option, some, none, if◌then◌else◌, leb, ltb, not,
  ◌&&◌, ◌==◌, length, ◌⊎◌, inl, inr, ◌≡◌,
}
use foxharness.Engine.Types.{
  Error, failure, wrapped, turns_exceeded, RunInput, ModelResult, TurnDecision, fact, run_started,
  run_completed, empty_outcome, ModelInvoker, ToolExecutor, Conversation, TurnPolicy, AgentEngine,
  Ready, turn_limit, tool_error, configuration, policy_error, conversation_error, provider_error,
}
use foxharness.Engine.Run.{
  Run, next, stop, M, pure, exit, ◌>>=◌, ◌>>◌, act, set_outcome, get_outcome, emit, fail, or_fail,
  or_fail_nil, unless, request_changes,
}
use foxharness.Engine.Phases.{begin_turn, think, act_phase, decide}
use foxharness.Engine.ToolRound.{tool_round}

module _ {W : Type 0} (e : Ready W) (input : RunInput) (turn : ℕ) where
  abbrev no_calls : ModelResult → Bool
  no_calls r = length r.message.tool_calls == 0

  -- The end of a turn: completion, the turn limit, or the next turn.
  finish : ModelResult → TurnDecision → M W (Unit {0})
  finish r decision =
      if no_calls r && decision.complete
      then (do
        o ← get_outcome
        emit e (record (fact run_completed) { content = o.final_message })
        exit)
      else if ltb 0 input.max_turns && leb input.max_turns turn
      then (do
        set_outcome (λ o. record o { partial = true })
        fail e turn_limit (turns_exceeded input.max_turns))
      else pure tt

  pub turn_body : M W (Unit {0})
  turn_body = do
    set_outcome (λ o. record o { turn_count = turn })
    begin_turn e input turn
    taken ← act e.tools.snapshot
    snapshot ← or_fail_nil e tool_error "tool executor returned nil snapshot" (λ x. x) taken
    answer ← act (e.policy.before_turn turn)
    before ← or_fail e policy_error answer
    request_changes e conversation_error turn before
    unless (not input.thinking_enabled) (think e input turn snapshot.definitions)
    r ← act_phase e input turn snapshot.definitions before
    decision ← decide e input turn r
    unless (no_calls r) (tool_round e turn snapshot r.message.tool_calls)
    finish r decision

-- Nothing emitted yet.
abbrev pub blank : {W : Type 0} → W → Run W
blank w = record { world = w; sequence = 0; facts = []; outcome = empty_outcome }

module _ {W : Type 0} (e : Ready W) (input : RunInput) where
  -- The loop over the turns; none means that the fuel ran out first.
  pub run_turns : ℕ → ℕ → Run W → Option (Run W)
  run_turns zero turn s = none
  run_turns (suc fuel) turn s =
      let after = turn_body e input turn s in
      elim after.0 [ next u ↦ run_turns fuel (turn + 1) after.1 | stop ↦ some after.1 ]

  -- The two factories, asked for the state of this run.
  pub start_rest : M W (Unit {0})
  start_rest = do
    policy_run ← act (e.policy.start_run input)
    or_fail_nil e policy_error "turn policy returned nil run policy" (λ x. x) policy_run
    model_run ← act e.model.start_run
    or_fail_nil e provider_error "model invoker returned nil run invoker" (wrapped "模型生成失败")
        model_run

  pub start : M W (Unit {0})
  start = emit e (fact run_started) >> start_rest

  -- A run of a ready engine from its first fact on.
  pub run_ready : ℕ → W → Option (Run W)
  run_ready fuel w =
      let begun = start (blank w) in
      elim begun.0 [ next u ↦ run_turns fuel 1 begun.1 | stop ↦ some begun.1 ]

module _ {W : Type 0} (e : AgentEngine W) where
  with_policy :
      ModelInvoker W → ToolExecutor W → Conversation W → Option (TurnPolicy W) → Error ⊎ Ready W
  with_policy m t c none = inl (failure "turn policy is required")
  with_policy m t c (some p) = inr (record {
    model = m;
    tools = t;
    conversation = c;
    policy = p;
    observer = e.observer;
    render = e.render;
    json = e.json;
  })

  with_conversation : ModelInvoker W → ToolExecutor W → Option (Conversation W) → Error ⊎ Ready W
  unfolding with_policy
  with_conversation m t none = inl (failure "conversation is required")
  with_conversation m t (some c) = with_policy m t c e.policy

  with_tools : ModelInvoker W → Option (ToolExecutor W) → Error ⊎ Ready W
  unfolding with_conversation
  with_tools m none = inl (failure "tool executor is required")
  with_tools m (some t) = with_conversation m t e.conversation

  with_model : Option (ModelInvoker W) → Error ⊎ Ready W
  unfolding with_tools
  with_model none = inl (failure "model invoker is required")
  with_model (some m) = with_tools m e.tools

module _ {W : Type 0} where
  -- The collaborators, or the error for the first that is missing.
  pub validate : Option (AgentEngine W) → Error ⊎ Ready W
  validate none = inl (failure "target engine is required")
  validate (some e) = with_model e e.model

  -- RunOutcome{ErrorKind: "configuration", Err: err}, before any fact.
  abbrev pub refused : W → Error → Run W
  refused w x = record (blank w) {
    outcome = record empty_outcome { error_kind = configuration; error = some x };
  }

  pub run : Option (AgentEngine W) → RunInput → ℕ → W → Option (Run W)
  run e input fuel w = elim (validate e) [
    | inl x ↦ some (refused w x)
    | inr ready ↦ run_ready ready input fuel w
  ]

  pub validate-cases :
      (e : Option (AgentEngine W))
      → ((x : Error) × (validate e ≡ inl x)) ⊎ ((r : Ready W) × (validate e ≡ inr r))
  validate-cases e = cases (validate e) refl
    where
      cases :
          (v : Error ⊎ Ready W)
          → validate e ≡ v
          → ((x : Error) × (validate e ≡ inl x)) ⊎ ((r : Ready W) × (validate e ≡ inr r))
      cases (inl x) q = inl (x, q)
      cases (inr r) q = inr (r, q)

  module _ (e : Option (AgentEngine W)) (input : RunInput) (fuel : ℕ) (w : W) where
    pub run-refused : (x : Error) → validate e ≡ inl x → run e input fuel w ≡ some (refused w x)
    unfolding run
    run-refused x q = rw (q, run)

    pub run_accepted :
        (r : Ready W) → validate e ≡ inr r → run e input fuel w ≡ run_ready r input fuel w
    unfolding run
    run_accepted r q = rw (q, run)

  -- An engine with every collaborator.
  abbrev pub complete_engine : Ready W → AgentEngine W
  complete_engine r = record {
    model = some r.model;
    tools = some r.tools;
    conversation = some r.conversation;
    policy = some r.policy;
    observer = r.observer;
    render = r.render;
    json = r.json;
  }

  pub validate_complete : (r : Ready W) → validate (some (complete_engine r)) ≡ inr r
  unfolding validate with_model
  validate_complete r = refl
