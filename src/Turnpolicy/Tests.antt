-- ===== src/Turnpolicy/Tests.antt =====
-- A run policy whose gates remind, and an engine that runs one tool call.
use foxharness.Prelude.{
  ℕ, ◌≡◌, ◌≤◌, ◌+◌, true, false, List, [], ◌∷◌, some, none, refl, if◌then◌else◌,
}
use foxharness.Go.{GoLib}
use foxharness.Schema.{ToolCall, Message, assistant, Usage}
use foxharness.Engine.Types.{
  ok, ModelResult, ConversationChange, ToolState, ToolExecutionResult, Ready, started, RunContext,
  no_phase,
}
use foxharness.Engine.Run.{
  act, or_fail, unless, request_changes, emit, emit_all, fail_on, pure, ◌>>=◌,
}
use foxharness.Engine.Turn.{blank}
use foxharness.Engine.ToolRound.{execute_tools, correlate}
use foxharness.Recovery.{new_tracker, record_result, should_inject, build_prompt}
use foxharness.Reminder.{new_manager}
use foxharness.Turnpolicy.{
  RunPolicy, after_model, after_tools, before_turn, context_notice, no_decision, completion_answer,
}
use foxharness.Turnpolicy.Gates.{BothPassed, after_model-BothPassed}
use foxharness.Turnpolicy.Recorded.{recorded, answered_calls}
use foxharness.Turnpolicy.Rounds.{Begins, execute_tools-after_tools, before_turn-should_inject}
use foxharness.Turnpolicy.Reminders.{begins, answers, todo_reminded, todo_reminded_once}

abbrev a_go : GoLib
a_go = record {
  bytes = λ s. [];
  text = λ b. "";
  sha1_hex = λ b. "da39";
  trim_space = λ s. s;
  decimal = λ n. "1";
  quoted = λ s. s;
  range_order = λ m. m;
}

abbrev a_call : ToolCall
a_call = record { id = "call-1"; name = "bash"; arguments = "{}" }

-- The completion gate is content at world 0; the TODO gate never is, and the world counts the questions.
abbrev a_policy : RunPolicy ℕ
a_policy = record {
  bindings = record {
    completion_gate = some (λ w. (ok "", w + 1));
    todo_gate = some (λ w. (ok "finish the list", w + 1));
    next_turn = some (λ turn w. (ok ("next" ∷ "" ∷ []), w));
  };
  recovery = record_result a_go a_call (record { is_error = true; output = [] }) new_tracker;
  reminder = new_manager;
  completion_reminder = "";
  todo_reminder_sent = false;
  todo_updated = false;
}

abbrev updated_policy : RunPolicy ℕ
updated_policy = record a_policy { todo_updated = true }

abbrev a_usage : Usage
a_usage = record {
  input_tokens = 3;
  output_tokens = 5;
  cache_creation_tokens = 0;
  cache_read_tokens = 0;
}

abbrev a_message : Message
a_message = record {
  role = assistant;
  content = "done";
  tool_calls = [];
  tool_call_id = "";
  usage = none;
  content_parts = [];
  structured_content = "";
  is_error = false;
}

abbrev an_end : ModelResult
an_end = record { message = a_message; finish_reason = "stop"; usage = a_usage }

after_model-BothPassed_example :
    (an_end.message.tool_calls ≡ [])
    × BothPassed a_go updated_policy 0 (after_model a_go an_end updated_policy 0).1.1
    × ((after_model a_go an_end updated_policy 0).1.0 ≡ updated_policy)
unfolding after_model completion_answer
after_model-BothPassed_example =
    after_model-BothPassed a_go an_end updated_policy 0 (record no_decision { complete = true })
      refl refl

todo_reminded_once_example :
    todo_reminded a_go (begins 1 ∷ answers an_end ∷ begins 2 ∷ answers an_end ∷ []) a_policy 0 + 0
    ≤ 1
todo_reminded_once_example =
    todo_reminded_once a_go (begins 1 ∷ answers an_end ∷ begins 2 ∷ answers an_end ∷ []) a_policy 0

before_turn-should_inject_example :
    let (answer, (p', w')) = before_turn a_go 1 a_policy 0 in
    (should_inject p'.recovery ≡ false)
    × ((changes : List ConversationChange)
        → answer ≡ ok changes
        → Begins
            (if should_inject a_policy.recovery
              then context_notice (build_prompt a_go a_policy.recovery) ∷ []
              else [])
            changes)
before_turn-should_inject_example = before_turn-should_inject a_go 1 a_policy 0

abbrev a_result : ToolExecutionResult
a_result = record {
  call_id = "";
  full_content = "out";
  model_content = "out";
  observer_content = "out";
  artifact_path = "";
  is_error = true;
  content_parts = [];
  structured_content = "";
}

abbrev a_context : RunContext
a_context = record {
  turn = 0;
  phase = no_phase;
  messages = [];
  tool_definitions = [];
  model = "m";
  provider = "p";
  effort = "";
}

abbrev an_engine : Ready ℕ
an_engine = record {
  model = record { start_run = λ w. (started tt, w); invoke = λ c w. ([], ok an_end, w) };
  tools = record {
    begin_turn = none;
    snapshot = λ w. (started (record { definitions = []; handle = 0 }), w);
    execute = λ s calls w. (ok (a_result ∷ []), w + 1);
  };
  conversation = record {
    prepare = λ q w. (ok (record { context = a_context; compactions = [] }), w);
    request_changes = λ cs w. (none, w);
  };
  policy = record {
    start_run = λ i w. (started tt, w);
    before_turn = λ t w. (ok [], w);
    after_model = λ t r w. (ok no_decision, w);
    after_tools = λ t w. (ok [], w);
  };
  observer = none;
  render = λ e. "error";
  json = record { trim_space = λ s. s; valid = λ s. true };
}

abbrev a_round : ToolState
a_round = record {
  turn = 1;
  calls = a_call ∷ [];
  results = record a_result { call_id = "call-1" } ∷ [];
}

execute_tools-after_tools_example :
    after_tools a_go a_round a_policy 0
    ≡ (ok [], (recorded a_go 1 (answered_calls (a_call ∷ []) a_round.results) a_policy, 0))
unfolding execute_tools correlate emit emit_all act or_fail unless request_changes fail_on pure
    ◌>>=◌
execute_tools-after_tools_example =
    execute_tools-after_tools a_go an_engine 1 (record { definitions = []; handle = 0 })
      (a_call ∷ []) (blank 0) a_round a_policy 0 refl
