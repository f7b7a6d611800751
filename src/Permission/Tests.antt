-- ===== src/Permission/Tests.antt =====
-- Concrete calls for the theorems on permissions: a form that allows for the session, a reviewer that
-- escalates, and a world that counts their questions.
use foxharness.Prelude.{
  ℕ, ◌+◌, ◌≡◌, refl, not, ◌&&◌, ◌||◌, String, true, false, List, [], ◌∷◌, some, none, str_eq,
}
use foxharness.Dict.{lookup}
use foxharness.Schema.{ToolCall}
use foxharness.Toolpolicy.Assessment.{Assessment, fast_allow, observe, workspace_scope, low}
use foxharness.Permission.Request.{Platform, main}
use foxharness.Permission.Modes.{
  ask, approve, full_access, is_full, State, matching_grant, new_state, snapshot, normalize_mode,
}
use foxharness.Permission.Modes.Effective.{
  Change, selects, activates, apply_all, activated, mode_in_effect, apply_all-mode_in_effect,
}
use foxharness.Permission.Policy.{
  classify, invalid_assessment_reason, is_fast, is_workspace, missing_assessment,
  normalize_assessment, assessed, with_arguments,
}
use foxharness.Permission.Policy.FastPath.{
  is_sound, passes, reviews, classify-passes, invalid_assessment_reason_lem,
}
use foxharness.Permission.Coordinator.{
  Coordinator, no_review, allow_session, Answer, answered, permitted, authorize, decided,
  ApprovalRequest, state_changed, search_grant,
}
use foxharness.Permission.Coordinator.Grounds.{Grounds, authorize-Grounds}
use foxharness.Permission.Registry.{Base, assessment_of, authorized, execute, tool_advertised}
use foxharness.Permission.Registry.Guards.{Ends, execute-Ends}
use foxharness.Permission.Coordinator.Remembers.{
  authorize-remembers, authorize-unreviewed, alone, unasked,
}

abbrev a_platform : Platform
a_platform = record {
  trim_space = λ s. s;
  abs = λ s. some s;
  clean = λ s. s;
  remarshal = λ s. some s;
}

abbrev a_call : ToolCall
a_call = record { id = "1"; name = "read_file"; arguments = "{\"path\":\"a\"}" }

abbrev a_reading : Assessment
a_reading = record {
  behavior = fast_allow;
  action = "read a";
  effects = observe ∷ [];
  scope = workspace_scope;
  read_only = true;
  nested_enforcement = false;
  risk_hint = low;
  reason = "reads";
  target = "a";
  commands = [];
}

abbrev session_form : ApprovalRequest → State → ℕ → Answer × State × ℕ
session_form q s w = (answered (record { kind = allow_session; feedback = "" }), s, w + 1)

abbrev a_coordinator : Coordinator ℕ String
a_coordinator = record {
  platform = a_platform;
  workspace = "/w";
  cwd = "/w";
  origin = main;
  approver = some session_form;
  reviewer = some (λ r e s w. (no_review, none, s, w + 1));
  sink = none;
  state_sink = none;
  evidence = λ r. "";
  grant_key = λ r w. r.arguments;
  meanwhile = λ s w. (s, w);
}

abbrev some_changes : List Change
some_changes = selects full_access false ∷ activates false ∷ selects full_access false ∷ []

apply_all-mode_in_effect_example :
    let s = apply_all some_changes (new_state ask false) in
    (s.effective ≡ mode_in_effect s.selected s.full_remembered (activated false some_changes))
    × ((snapshot s).full_access_needs_warning
        ≡ (is_full s.selected && not (s.full_remembered || activated false some_changes)))
apply_all-mode_in_effect_example = apply_all-mode_in_effect ask false some_changes

invalid_assessment_reason_lem_example :
    str_eq (invalid_assessment_reason a_reading) ""
    ≡ (is_sound a_reading && (not (is_fast a_reading.behavior) || is_workspace a_reading.scope))
invalid_assessment_reason_lem_example = invalid_assessment_reason_lem a_reading

classify-passes_example :
    let d = classify a_platform "/w" "/w" main a_call (some a_reading) in
    (d.allow_fast_path ≡ passes (some a_reading))
    × (d.requires_review ≡ reviews (some a_reading))
    × (d.human_only ≡ (not (passes (some a_reading)) && not (reviews (some a_reading))))
classify-passes_example = classify-passes a_platform "/w" "/w" main a_call (some a_reading)

authorize-Grounds_example :
    Grounds a_coordinator
      (classify a_platform "/w" "/w" main a_call (some a_reading))
      (new_state approve false)
      0
unfolding authorize decided classify new_state normalize_mode normalize_assessment
    invalid_assessment_reason assessed with_arguments
authorize-Grounds_example =
    authorize-Grounds a_coordinator a_call (some a_reading) (new_state approve false) 0 refl

abbrev granted_state : State
granted_state = (authorize a_coordinator a_call none (new_state ask false) 0).1

authorize-remembers_example :
    ((authorize a_coordinator a_call none (new_state ask false) 0).0 ≡ permitted)
    × ((authorize a_coordinator a_call none granted_state 7).0 ≡ permitted)
    × (authorize a_coordinator a_call none granted_state 7
        ≡ authorize (unasked a_coordinator) a_call none granted_state 7)
unfolding classify new_state normalize_mode missing_assessment assessed with_arguments state_changed
    search_grant matching_grant lookup
authorize-remembers_example =
    authorize-remembers a_coordinator (λ key s w h. h) (λ key s w h. h) session_form a_call none
      (new_state ask false) 0 "" granted_state 7 refl refl refl refl refl (λ key h. h) refl

authorize-unreviewed_example :
    authorize a_coordinator a_call none (new_state approve false) 0
    ≡ authorize (alone a_coordinator) a_call none (new_state approve false) 0
unfolding classify new_state normalize_mode missing_assessment assessed with_arguments
authorize-unreviewed_example =
    authorize-unreviewed a_coordinator a_call none (new_state approve false) 0 refl

abbrev a_base : Base ℕ
a_base = record {
  available_tools = record { name = "read_file"; description = ""; input_schema = "{}" } ∷ [];
  execute = λ call s w. (
    record {
      tool_call_id = call.id;
      output = "text";
      is_error = false;
      content_parts = [];
      structured_content = "";
    },
    s,
    w + 1,
  );
  assess_permission = some (λ call. assessment_of a_reading true);
}

execute-Ends_example :
    Ends a_coordinator a_base
      (λ id r. id)
      a_call
      (new_state approve false)
      0
      (authorized a_coordinator a_base (λ id r. id) a_call (new_state approve false) 0)
      (execute a_coordinator a_base (λ id r. id) a_call (new_state approve false) 0)
unfolding tool_advertised
execute-Ends_example =
    execute-Ends a_coordinator a_base (λ id r. id) a_call (new_state approve false) 0 refl
