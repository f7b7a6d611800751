-- ===== src/Engine/Tests.antt =====
-- A concrete engine for the theorems of the parent: its world counts the calls of the model, each of
-- which asks for one tool, and its policy never completes.
use foxharness.Engine.ToolRound.{execute_tools, correlate}
use foxharness.Engine.ToolRound.Correlates.{ids, result_ids, execute_tools-ids}
use foxharness.Prelude.{
  refl, ℕ, ◌+◌, ◌≡◌, true, false, [], ◌∷◌, Option, some, none, arith, map, inl, inr, ◌⊎◌,
}
use foxharness.Schema.{Message, ToolCall, assistant, Usage}
use foxharness.Engine.Types.{
  Error, ok, started, RunInput, RunContext, no_phase, ToolExecutionResult, message_delta_fact,
  Ready, AgentEngine, ToolState, ToolSnapshot,
}
use foxharness.Engine.Run.{
  Run, emit, emit_all, act, or_fail, unless, request_changes, fail_on, pure, ◌>>=◌,
}
use foxharness.Engine.Turn.{run, validate, complete_engine, validate_complete, refused, blank}
use foxharness.Engine.Limit.{EndsWithin, run-EndsWithin}
use foxharness.Engine.Canonical.{IsClosed, run-IsClosed}

abbrev a_call : ToolCall
a_call = record { id = "call-1"; name = "read_file"; arguments = "{}" }

abbrev an_answer : Message
an_answer = record {
  role = assistant;
  content = "reading";
  tool_calls = a_call ∷ [];
  tool_call_id = "";
  usage = none;
  content_parts = [];
  structured_content = "";
  is_error = false;
}

abbrev a_result : ToolExecutionResult
a_result = record {
  call_id = "";
  full_content = "text";
  model_content = "text";
  observer_content = "";
  artifact_path = "";
  is_error = false;
  content_parts = [];
  structured_content = "";
}

abbrev a_context : RunContext
a_context = record {
  turn = 0;
  phase = no_phase;
  messages = [];
  tool_definitions = [];
  model = "m";
  provider = "p";
  effort = "";
}

abbrev some_usage : Usage
some_usage = record {
  input_tokens = 3;
  output_tokens = 5;
  cache_creation_tokens = 0;
  cache_read_tokens = 0;
}

abbrev busy_engine : Ready ℕ
busy_engine = record {
  model = record {
    start_run = λ w. (started tt, w);
    invoke = λ c w. (
      record { kind = message_delta_fact; content = "rea" } ∷ [],
      ok (record { message = an_answer; finish_reason = "tool_use"; usage = some_usage }),
      w + 1,
    );
  };
  tools = record {
    begin_turn = none;
    snapshot = λ w. (started (record { definitions = []; handle = 0 }), w);
    execute = λ s calls w. (ok (map (λ c. a_result) calls), w);
  };
  conversation = record {
    prepare = λ q w. (ok (record { context = a_context; compactions = [] }), w);
    request_changes = λ cs w. (none, w);
  };
  policy = record {
    start_run = λ i w. (started tt, w);
    before_turn = λ t w. (ok [], w);
    after_model = λ t r w. (ok (record { complete = false; changes = []; terminal = none }), w);
    after_tools = λ t w. (ok [], w);
  };
  observer = none;
  render = λ e. "error";
  json = record { trim_space = λ s. s; valid = λ s. true };
}

abbrev two_turns : RunInput
two_turns = record { prompt = "read"; max_turns = 2; thinking_enabled = false }

abbrev busy : Option (AgentEngine ℕ)
busy = some (complete_engine busy_engine)

run-EndsWithin_example : (s : Run ℕ) × (run busy two_turns 2 0 ≡ some s) × EndsWithin 2 s
run-EndsWithin_example =
    run-EndsWithin busy two_turns 2 0 (validate_complete busy_engine) (omega arith) (omega arith)

busy_ends : (s : Run ℕ) × (run busy two_turns 2 0 ≡ some s) × EndsWithin 2 s
busy_ends =
    run-EndsWithin busy two_turns 2 0 (validate_complete busy_engine) (omega arith) (omega arith)

run-IsClosed_example :
    ((x : Error) × (validate busy ≡ inl x) × (busy_ends.0 ≡ refused 0 x))
    ⊎ ((r : Ready ℕ) × (validate busy ≡ inr r) × IsClosed r busy_ends.0)
run-IsClosed_example = run-IsClosed busy two_turns 2 0 busy_ends.1

abbrev a_snapshot : ToolSnapshot
a_snapshot = record { definitions = []; handle = 0 }

abbrev one_round : ToolState
one_round = record {
  turn = 1;
  calls = a_call ∷ [];
  results = record a_result { call_id = "call-1" } ∷ [];
}

execute_tools-ids_example :
    (result_ids one_round.results ≡ ids (a_call ∷ []))
    × (one_round.calls ≡ a_call ∷ [])
    × (one_round.turn ≡ 1)
unfolding execute_tools correlate emit emit_all act or_fail unless request_changes fail_on pure
    ◌>>=◌
execute_tools-ids_example =
    execute_tools-ids busy_engine 1 a_snapshot (a_call ∷ []) (blank 0) one_round refl
