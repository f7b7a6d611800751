-- ===== src/Engine/Phases/Keeps.antt =====
-- Each phase of a turn respects every pair of statements that the single actions respect.
use foxharness.Prelude.{
  ℕ, ◌≡◌, refl, Bool, false, List, [], ◌∷◌, Option, some, none, inl, inr, Bool-cases, All, map,
  if◌then◌else◌,
}
use foxharness.Schema.{ToolDefinition}
use foxharness.Engine.Types.{
  Error, conversation_error, tool_error, provider_error, policy_error, Result, ok, err, Phase,
  RunInput, ModelResult, ConversationChange, Preparation, Compaction, Projection, Ready,
  is_prompt_too_long, PolicyTerminal,
}
use foxharness.Engine.Run.{Run, compaction_of}
use foxharness.Engine.Run.Keeps.{
  Triple, IsStable, is_terminal, pure-Triple, bind-Triple, ◌then◌, call-Triple, set_outcome-Triple,
  emit-Triple, fail-Triple, fail_on-Triple, or_fail-Triple, or_fail_wrapped-Triple, unless-Triple,
  emit_all-Triple, emit_injections-Triple, request_changes-Triple, invoke-Triple,
  invoke_silent-Triple,
}
use foxharness.Engine.Phases.{
  boundary, retry_reduced, terminal_with, prepare_context, begin_turn, think, retry, act_phase,
  terminal, decide,
}

pub compactions_quiet :
    (turn : ℕ) (phase : Phase) (cs : List Compaction)
    → All (λ f. is_terminal f.kind ≡ false) (map (compaction_of turn phase) cs)
unfolding compaction_of
compactions_quiet turn phase [] = tt
compactions_quiet turn phase (c ∷ cs) = (refl, compactions_quiet turn phase cs)

module _ {W : Type 0} (e : Ready W) (input : RunInput) (turn : ℕ) {I C : Run W → Type 0}
    (t : IsStable e I C) where
  prepare_context-Triple :
      (phase : Phase) (ds : List ToolDefinition) (p : Preparation)
      → Triple I (prepare_context e input turn phase ds p) I C
  unfolding prepare_context
  prepare_context-Triple phase ds p = bind-Triple (call-Triple e t _) λ answer.
      bind-Triple (or_fail-Triple e t conversation_error (λ h. cc) answer)
        λ projection. pure-Triple _

  boundary-Triple : (b : Option (W → Option Error × W)) → Triple I (boundary e input turn b) I C
  unfolding boundary
  boundary-Triple none = pure-Triple tt
  boundary-Triple (some call) =
      bind-Triple (call-Triple e t call) (fail_on-Triple e t tool_error (λ h. cc))

  pub begin_turn-Triple : Triple I (begin_turn e input turn) I C
  unfolding begin_turn
  begin_turn-Triple = boundary-Triple e.tools.begin_turn

  pub think-Triple : (ds : List ToolDefinition) → Triple I (think e input turn ds) I C
  unfolding think
  think-Triple ds =
      emit-Triple e t _ refl
      then bind-Triple (prepare_context-Triple _ ds _) λ prepared.
        emit_all-Triple e t _ (compactions_quiet turn _ prepared.compactions)
        then bind-Triple (invoke_silent-Triple e t _) λ answer.
          bind-Triple (or_fail_wrapped-Triple e t provider_error _ (λ h. cc) answer) λ thought.
            set_outcome-Triple e t _ (λ o. (refl, refl, refl))
            then unless-Triple e t _
                (request_changes-Triple e t conversation_error turn (λ h. cc) _)

  retry_reduced-Triple :
      (x : Error) (prepared : Projection) (cs : List Compaction)
      → Triple I (retry_reduced e input turn x prepared cs) I C
  unfolding retry_reduced
  retry_reduced-Triple x prepared [] = pure-Triple (err x)
  retry_reduced-Triple x prepared (c ∷ cs) =
      emit_all-Triple e t _ (compactions_quiet turn _ (c ∷ cs)) then invoke-Triple e t _

  retry-Triple :
      (ds : List ToolDefinition) (r : Result ModelResult) → Triple I (retry e input turn ds r) I C
  unfolding retry
  retry-Triple ds (ok r) = pure-Triple (ok r)
  retry-Triple ds (err x) = elim (Bool-cases (is_prompt_too_long x)) [
    | inl h ↦ rw h (
        bind-Triple (prepare_context-Triple _ ds _)
          (λ prepared. retry_reduced-Triple x prepared prepared.compactions))
    | inr h ↦ rw h (pure-Triple (err x))
  ]

  pub act_phase-Triple :
      (ds : List ToolDefinition) (before : List ConversationChange)
      → Triple I (act_phase e input turn ds before) I C
  unfolding act_phase
  act_phase-Triple ds before = bind-Triple (prepare_context-Triple _ ds _) λ prepared.
      emit_all-Triple e t _ (compactions_quiet turn _ prepared.compactions)
      then emit_injections-Triple e t turn before
      then bind-Triple (invoke-Triple e t _) λ first. bind-Triple (retry-Triple ds first) λ final.
        bind-Triple (or_fail_wrapped-Triple e t provider_error _ (λ h. cc) final) λ r.
          set_outcome-Triple e t _ (λ o. (refl, refl, refl))
          then request_changes-Triple e t conversation_error turn (λ h. cc) _
          then unless-Triple e t _ (emit-Triple e t _ refl)
          then pure-Triple r

  terminal_with-Triple :
      (p : Bool) (x : Option Error) → Triple I (terminal_with e input turn p x) I C
  unfolding terminal_with
  terminal_with-Triple p none = fail-Triple e t policy_error _ (λ h. cc)
  terminal_with-Triple p (some x) =
      set_outcome-Triple e t _ (λ o. (refl, refl, refl))
      then fail-Triple e t policy_error x (λ h. cc)

  terminal-Triple : (x : Option PolicyTerminal) → Triple I (terminal e input turn x) I C
  unfolding terminal
  terminal-Triple none = pure-Triple tt
  terminal-Triple (some x) = terminal_with-Triple x.partial x.terminal_err

  pub decide-Triple : (r : ModelResult) → Triple I (decide e input turn r) I C
  unfolding decide
  decide-Triple r = bind-Triple (call-Triple e t _) λ answer.
      bind-Triple (or_fail-Triple e t policy_error (λ h. cc) answer) λ decision.
        emit_injections-Triple e t turn decision.changes
        then request_changes-Triple e t conversation_error turn (λ h. cc) decision.changes
        then terminal-Triple decision.terminal
        then pure-Triple decision
