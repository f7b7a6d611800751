-- ===== src/Permission/Policy.antt =====
-- The classification of internal/permission/policy.go. The classifiers of shell commands that the file
-- also holds are not called by the coordinator and are not part of it.
pub mod Effects
pub mod FastPath
use foxharness.Prelude.{
  String, Bool, true, false, not, ◌&&◌, ◌||◌, List, [], ◌∷◌, Option, some, none, if◌then◌else◌,
  str_eq,
}
use foxharness.Schema.{ToolCall}
use foxharness.Toolpolicy.Assessment.{
  Behavior, fast_allow, reviewable, human_only, other_behavior, Effect, observe, mutate, execute,
  network, delegate, workflow, interact, unknown_effect, other_effect, Scope, workspace_scope,
  external_scope, mixed_scope, unknown_scope, other_scope, Risk, low, medium, high, critical,
  other_risk, Assessment,
}
use foxharness.Permission.Request.{
  Platform, Request, Source, clean_path, normalize_json, first_non_empty,
}
use Prim.Native.String.{◌++◌ as text_append}

pub record PolicyDecision : Type 0 where
  pub allow_fast_path : Bool
  pub requires_review : Bool
  pub human_only : Bool
  pub request : Request
  pub reason : String

unfoldable pub missing_assessment : String → Assessment
missing_assessment tool_name = record {
  behavior = human_only;
  action = tool_name;
  effects = unknown_effect ∷ [];
  scope = unknown_scope;
  read_only = false;
  nested_enforcement = false;
  risk_hint = high;
  reason = "registered tool does not declare permission capabilities";
  target = "";
  commands = [];
}

abbrev pub is_declared_scope : Scope → Bool
is_declared_scope workspace_scope = true
is_declared_scope external_scope = true
is_declared_scope mixed_scope = true
is_declared_scope _ = false

abbrev pub is_workspace : Scope → Bool
is_workspace workspace_scope = true
is_workspace _ = false

abbrev pub is_fast : Behavior → Bool
is_fast fast_allow = true
is_fast _ = false

abbrev pub is_human : Behavior → Bool
is_human human_only = true
is_human _ = false

abbrev pub is_known_behavior : Behavior → Bool
is_known_behavior (other_behavior s) = false
is_known_behavior _ = true

abbrev pub is_known_risk : Risk → Bool
is_known_risk (other_risk s) = false
is_known_risk _ = true

abbrev pub is_none : List String → Bool
is_none [] = true
is_none (c ∷ cs) = false

-- The checks behind the loop of invalidAssessmentReason; "" for a valid assessment.
after_effects : Assessment → Bool → Bool → String
after_effects a has_delegate has_execute =
    if has_delegate && not a.nested_enforcement
    then "delegating capability lacks nested permission enforcement"
    else if has_execute && is_none a.commands
    then "executing capability does not identify commands"
    else ""

pub effects_reason : Assessment → Bool → Bool → List Effect → String
unfolding after_effects
effects_reason a has_delegate has_execute [] = after_effects a has_delegate has_execute
effects_reason a has_delegate has_execute (unknown_effect ∷ es) =
    "tool capability effect is invalid"
effects_reason a has_delegate has_execute (other_effect s ∷ es) =
    "tool capability effect is invalid"
effects_reason a has_delegate has_execute (delegate ∷ es) = effects_reason a true has_execute es
effects_reason a has_delegate has_execute (execute ∷ es) = effects_reason a has_delegate true es
effects_reason a has_delegate has_execute (mutate ∷ es) =
    let later = effects_reason a has_delegate has_execute es in
    if a.read_only then "read-only capability declares mutation" else later
effects_reason a has_delegate has_execute (observe ∷ es) =
    effects_reason a has_delegate has_execute es
effects_reason a has_delegate has_execute (network ∷ es) =
    effects_reason a has_delegate has_execute es
effects_reason a has_delegate has_execute (workflow ∷ es) =
    effects_reason a has_delegate has_execute es
effects_reason a has_delegate has_execute (interact ∷ es) =
    effects_reason a has_delegate has_execute es

pub no_effects : List Effect → Bool
no_effects [] = true
no_effects (e ∷ es) = false

unfoldable pub invalid_assessment_reason : Assessment → String
unfolding effects_reason no_effects
invalid_assessment_reason a =
    if no_effects a.effects
    then "tool capability effects are missing"
    else if not (is_declared_scope a.scope)
    then "tool capability scope is invalid"
    else if is_fast a.behavior && not (is_workspace a.scope)
    then "fast-allow capability is not workspace-scoped"
    else effects_reason a false false a.effects

-- Sent to a human with the reason.
abbrev refused_for : String → Assessment → Assessment
refused_for reason a = record a { behavior = human_only; risk_hint = high; reason = reason }

with_action : Platform → String → Assessment → Assessment
with_action p tool_name a =
    if str_eq (p.trim_space a.action) "" then record a { action = tool_name } else a

with_risk : Assessment → Assessment
with_risk a =
    if is_known_risk a.risk_hint then a else refused_for "tool capability risk is invalid" a

with_reason : Platform → Assessment → Assessment
with_reason p a =
    if str_eq (p.trim_space a.reason) ""
    then record a { reason = "tool capability assessment" }
    else a

with_validity : Assessment → Assessment
with_validity a =
    let reason = invalid_assessment_reason a in
    if not (is_human a.behavior) && not (str_eq reason "") then refused_for reason a else a

unfoldable pub normalize_assessment : Platform → String → Assessment → Assessment
unfolding with_action with_risk with_reason with_validity
normalize_assessment p tool_name a =
    if is_known_behavior a.behavior
    then with_validity (with_reason p (with_risk (with_action p tool_name a)))
    else missing_assessment tool_name

-- The assessment that a call comes with, if any.
unfoldable pub assessed : Platform → String → Option Assessment → Assessment
assessed p tool_name none = missing_assessment tool_name
assessed p tool_name (some a) = normalize_assessment p tool_name a

-- An action that is only the tool's name gets the arguments.
unfoldable pub with_arguments : Platform → ToolCall → Assessment → Assessment
with_arguments p call a =
    if not (is_fast a.behavior) && str_eq a.action call.name
    then record a {
      action =
          p.trim_space (text_append call.name (text_append " " (normalize_json p call.arguments)));
    }
    else a

decision_for : Behavior → Request → String → PolicyDecision
decision_for fast_allow request reason = record {
  allow_fast_path = true;
  requires_review = false;
  human_only = false;
  request = request;
  reason = reason;
}
decision_for reviewable request reason = record {
  allow_fast_path = false;
  requires_review = true;
  human_only = false;
  request = request;
  reason = reason;
}
decision_for _ request reason = record {
  allow_fast_path = false;
  requires_review = false;
  human_only = true;
  request = request;
  reason = reason;
}

unfoldable pub classify :
    Platform → String → String → Source → ToolCall → Option Assessment → PolicyDecision
unfolding assessed with_arguments decision_for
classify p workspace cwd source call assessment =
    let root = clean_path p workspace in
    let a = with_arguments p call (assessed p call.name assessment) in
    decision_for a.behavior
      (record {
        call = call;
        tool_name = call.name;
        arguments = normalize_json p call.arguments;
        cwd = clean_path p (first_non_empty p cwd root);
        workspace = root;
        action = a.action;
        risk = a.risk_hint;
        source = source;
        capabilities = a;
      })
      a.reason
