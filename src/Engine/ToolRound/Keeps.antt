-- ===== src/Engine/ToolRound/Keeps.antt =====
-- A tool round respects every pair of statements that the single actions respect.
use foxharness.Prelude.{
  ℕ, ◌+◌, ◌≡◌, refl, false, List, [], ◌∷◌, inl, inr, str_eq, Bool-cases, All, map, if◌then◌else◌,
}
use foxharness.Schema.{ToolCall}
use foxharness.Engine.Types.{
  conversation_error, tool_error, policy_error, ToolExecutionResult, ToolSnapshot, Ready,
}
use foxharness.Engine.Run.{Run}
use foxharness.Engine.Run.Keeps.{
  Triple, IsStable, is_terminal, pure-Triple, bind-Triple, ◌then◌, call-Triple, emit-Triple,
  fail-Triple, or_fail-Triple, unless-Triple, emit_all-Triple, emit_injections-Triple,
  request_changes-Triple,
}
use foxharness.Engine.ToolRound.{
  call_fact, result_fact, filled, correlate, execute_tools, tool_round,
}

module _ {W : Type 0} (e : Ready W) (turn : ℕ) {I C : Run W → Type 0} (t : IsStable e I C) where
  calls_quiet :
      (calls : List ToolCall) → All (λ f. is_terminal f.kind ≡ false) (map call_fact calls)
  calls_quiet [] = tt
  calls_quiet (c ∷ cs) = (refl, calls_quiet cs)

  correlate-Triple :
      (index : ℕ) (calls : List ToolCall) (results : List ToolExecutionResult)
      → Triple I (correlate e turn index calls results) I C
  unfolding correlate
  correlate-Triple index [] results = pure-Triple []
  correlate-Triple index (call ∷ calls) [] = pure-Triple []
  correlate-Triple index (call ∷ calls) (r ∷ results) =
      let rest = correlate-Triple (index + 1) calls results in
      elim (Bool-cases (str_eq (filled call r).call_id call.id)) [
        | inl h ↦ rw h (
            emit-Triple e t (result_fact call (filled call r)) refl
            then bind-Triple rest (λ done. pure-Triple _))
        | inr h ↦ rw h (fail-Triple e t tool_error _ (λ q. cc))
      ]

  execute_tools-Triple :
      (snapshot : ToolSnapshot) (calls : List ToolCall)
      → Triple I (execute_tools e turn snapshot calls) I C
  unfolding execute_tools
  execute_tools-Triple snapshot calls =
      emit_all-Triple e t _ (calls_quiet calls)
      then bind-Triple (call-Triple e t _) λ answer.
        bind-Triple (or_fail-Triple e t tool_error (λ h. cc) answer) λ results.
          unless-Triple e t _ (fail-Triple e t tool_error _ (λ h. cc))
          then bind-Triple (correlate-Triple 0 calls results)
              λ done. request_changes-Triple e t tool_error turn (λ h. cc) _ then pure-Triple _

  pub tool_round-Triple :
      (snapshot : ToolSnapshot) (calls : List ToolCall)
      → Triple I (tool_round e turn snapshot calls) I C
  unfolding tool_round
  tool_round-Triple snapshot calls = bind-Triple (execute_tools-Triple snapshot calls) λ state.
      bind-Triple (call-Triple e t _) λ answer.
        bind-Triple (or_fail-Triple e t policy_error (λ h. cc) answer) λ changes.
          emit_injections-Triple e t turn changes
          then request_changes-Triple e t conversation_error turn (λ h. cc) changes
