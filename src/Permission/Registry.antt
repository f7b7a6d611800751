-- ===== src/Permission/Registry.antt =====
-- The registry of internal/permission/coordinator.go, which puts the coordinator in front of a registry
-- of tools. The registry behind it and its tools are parameters.
pub mod Guards
use foxharness.Prelude.{
  String, Bool, true, false, List, [], ◌∷◌, Option, some, none, if◌then◌else◌, str_eq, any,
}
use foxharness.Schema.{ToolCall, ToolDefinition, ContentPart}
use foxharness.Toolpolicy.Assessment.{Assessment}
use foxharness.Permission.Request.{Request}
use foxharness.Permission.Modes.{State}
use foxharness.Permission.Policy.{missing_assessment}
use foxharness.Permission.Coordinator.{
  Coordinator, Verdict, permitted, denied, Denial, no_approver, approver_failed,
  denied_with_feedback, denied_by_user, authorize,
}
use Prim.Native.String.{◌++◌ as text_append}

-- The ToolResult of package schema.
pub record ToolResult : Type 0 where
  pub tool_call_id : String
  pub output : String
  pub is_error : Bool
  pub content_parts : List ContentPart
  pub structured_content : String

-- An assessment with `found`, or the text of an error.
pub data Assessed : Type 0 where
  assessment_failed : String → Assessed
  assessment_of : Assessment → Bool → Assessed

-- `assess_permission` is none for a registry that is no PermissionRegistry.
pub record Base (W : Type 0) : Type 0 where
  pub available_tools : List ToolDefinition
  pub execute : ToolCall → State → W → ToolResult × State × W
  pub assess_permission : Option (ToolCall → Assessed)

denial_text : Denial → String
denial_text (no_approver action) =
    text_append "permission approval required for "
      (text_append action " but no approver is attached")
denial_text (approver_failed x) = x
denial_text (denied_with_feedback feedback) =
    if str_eq feedback ""
    then "tool denied with feedback"
    else text_append "tool denied with feedback: " feedback
denial_text denied_by_user = "tool denied by user"

unfoldable pub denial_result : ToolCall → Denial → ToolResult
unfolding denial_text
denial_result call x = record {
  tool_call_id = call.id;
  output = text_append "Tool execution denied by permission policy: " (denial_text x);
  is_error = true;
  content_parts = [];
  structured_content = "";
}

unfoldable pub tool_advertised : List ToolDefinition → String → Bool
tool_advertised definitions name = any (λ d. str_eq d.name name) definitions

candidate : String → Assessed → Assessment
candidate name (assessment_failed x) = record (missing_assessment name) {
  reason = text_append "tool capability assessment failed: " x;
}
candidate name (assessment_of a true) = a
candidate name (assessment_of a false) = missing_assessment name

pub assessment_for : ToolCall → Option (ToolCall → Assessed) → Assessment
unfolding candidate
assessment_for call none = missing_assessment call.name
assessment_for call (some assess) = candidate call.name (assess call)

-- `evidence` is that of the registry, correlated with the ID of the call.
module _ {W E : Type 0} (c : Coordinator W E) (base : Base W)
    (evidence : String → Request → E) where
  -- The coordinator with the evidence that Execute hands to `authorize`.
  abbrev pub correlated : ToolCall → Coordinator W E
  correlated call = record c { evidence = evidence call.id }

  pub authorized : ToolCall → State → W → Verdict × State × W
  unfolding assessment_for
  authorized call s w =
      authorize (correlated call) call (some (assessment_for call base.assess_permission)) s w

  execute_if : ToolCall → Verdict → State → W → ToolResult × State × W
  execute_if call permitted s w = base.execute call s w
  execute_if call (denied x) s w = (denial_result call x, s, w)

  pub execute : ToolCall → State → W → ToolResult × State × W
  unfolding authorized execute_if
  execute call s w =
      if tool_advertised base.available_tools call.name
      then (let (v, s', w') = authorized call s w in execute_if call v s' w')
      else base.execute call s w
