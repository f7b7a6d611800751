-- ===== src/Engine/ToolRound.antt =====
-- executeTools of internal/engine/target.go, and the policy's part of a tool round.
pub mod Keeps
pub mod Correlates
use foxharness.Prelude.{
  ℕ, ◌+◌, List, [], ◌∷◌, none, map, str_eq, if◌then◌else◌, ltb, not, ◌&&◌, ◌||◌, ◌==◌, length,
}
use foxharness.Schema.{ToolCall, user}
use foxharness.Engine.Types.{
  result_count, call_id_mismatch, ToolExecutionResult, ConversationChange, append_message,
  no_source, ToolState, Fact, fact, tool_call, tool_result, ToolSnapshot, Ready, tool_error,
  policy_error, conversation_error,
}
use foxharness.Engine.Run.{
  M, pure, ◌>>=◌, ◌>>◌, act, emit, emit_all, fail, or_fail, emit_injections, unless,
  request_changes,
}
use foxharness.Engine.Phases.{change}

abbrev pub call_fact : ToolCall → Fact
call_fact call = record (fact tool_call) {
  call_id = call.id;
  name = call.name;
  content = call.arguments;
}

abbrev pub result_fact : ToolCall → ToolExecutionResult → Fact
result_fact call r = record (fact tool_result) {
  call_id = call.id;
  name = call.name;
  content = if str_eq r.observer_content "" then r.model_content else r.observer_content;
  full_content = r.full_content;
  artifact_path = r.artifact_path;
  is_error = r.is_error;
}

abbrev pub result_change : ToolCall → ToolExecutionResult → ConversationChange
result_change call r = change append_message no_source (record {
  role = user;
  content = r.model_content;
  tool_calls = [];
  tool_call_id = call.id;
  usage = none;
  content_parts = r.content_parts;
  structured_content = r.structured_content;
  is_error = r.is_error && (ltb 0 (length r.content_parts) || not (str_eq r.structured_content ""));
})

-- An empty call ID takes the call's.
abbrev pub filled : ToolCall → ToolExecutionResult → ToolExecutionResult
filled call r = if str_eq r.call_id "" then record r { call_id = call.id } else r

module _ {W : Type 0} (e : Ready W) (turn : ℕ) where
  -- The loop over the results, with the index of the current one.
  unfoldable pub correlate :
      ℕ
      → List ToolCall
      → List ToolExecutionResult
      → M W (List (ToolExecutionResult × ConversationChange))
  correlate index [] results = pure []
  correlate index (call ∷ calls) [] = pure []
  correlate index (call ∷ calls) (r ∷ results) =
      let whole = filled call r in
      let rest = correlate (index + 1) calls results in
      if str_eq whole.call_id call.id
      then (do
        emit e (result_fact call whole)
        done ← rest
        pure ((whole, result_change call whole) ∷ done))
      else fail e tool_error (call_id_mismatch index whole.call_id call.id)

  unfoldable pub execute_tools : ToolSnapshot → List ToolCall → M W ToolState
  execute_tools snapshot calls = do
    emit_all e (map call_fact calls)
    answer ← act (e.tools.execute snapshot calls)
    results ← or_fail e tool_error answer
    unless (length results == length calls)
        (fail e tool_error (result_count (length results) (length calls)))
    done ← correlate 0 calls results
    request_changes e tool_error turn (map (λ d. d.1) done)
    pure (record { turn = turn; calls = calls; results = map (λ d. d.0) done })

  pub tool_round : ToolSnapshot → List ToolCall → M W (Unit {0})
  tool_round snapshot calls = do
    state ← execute_tools snapshot calls
    answer ← act (e.policy.after_tools state)
    changes ← or_fail e policy_error answer
    emit_injections e turn changes
    request_changes e conversation_error turn changes
