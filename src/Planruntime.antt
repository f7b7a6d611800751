-- ===== src/Planruntime.antt =====
-- internal/planruntime/lifecycle.go: which tools a run in formal plan mode may use. A tool registry is known by
-- its identity, and executes calls on a world. Execute reads the phase before a call and may set the pending
-- phase behind it, so that it is two steps, `start` and `finish`, between which other operations may come:
-- the approval comes from inside submit_plan. The callback of an approval is told by the result of `approve`.
pub mod Stages
pub mod Approved
mod Tests
use foxharness.Prelude.{
  ℕ, ◌+◌, ◌≤◌, String, Bool, true, false, List, [], ◌∷◌, ◌++◌, Option, some, none, if◌then◌else◌,
  str_eq, ◌&&◌, ◌||◌, not, any, ◌==◌, joined,
}
use foxharness.Schema.{ToolCall}
use foxharness.Permission.Registry.{ToolResult}

pub data Phase : Type 0 where
  formal checklist implementation : Phase

abbrev pub is_formal : Phase → Bool
is_formal formal = true
is_formal _ = false

abbrev pub is_checklist : Phase → Bool
is_checklist checklist = true
is_checklist _ = false

-- The three registries may be nil.
pub record Lifecycle : Type 0 where
  pub phase : Phase
  pub pending : Option Phase
  pub formal_registry : Option ℕ
  pub checklist_registry : Option ℕ
  pub default_registry : Option ℕ
  pub approved_plan : String
  pub approved : Bool
  pub submitted_this_turn : Bool
  pub has_callback : Bool

unfoldable pub new : Option ℕ → Option ℕ → Option ℕ → Bool → Lifecycle
new formal_registry checklist_registry default_registry has_callback = record {
  phase = formal;
  pending = none;
  formal_registry = formal_registry;
  checklist_registry = checklist_registry;
  default_registry = default_registry;
  approved_plan = "";
  approved = false;
  submitted_this_turn = false;
  has_callback = has_callback;
}

unfoldable pub set_formal_registry : Option ℕ → Lifecycle → Lifecycle
set_formal_registry registry l = record l { formal_registry = registry }

-- Approve, and whether it calls the callback.
unfoldable pub approve : String → Lifecycle → Bool × Lifecycle
approve plan l =
    if is_formal l.phase
    then (
      l.has_callback,
      record l { pending = some checklist; approved_plan = plan; approved = true },
    )
    else (false, l)

abbrev pub committed : Option Phase → Lifecycle → Lifecycle
committed none l = l
committed (some phase) l = record l { phase = phase; pending = none }

unfoldable pub begin_turn : Lifecycle → Lifecycle
begin_turn l = committed l.pending (record l { submitted_this_turn = false })

abbrev pub surface : Phase → Lifecycle → Option ℕ
surface formal l = l.formal_registry
surface checklist l = l.checklist_registry
surface implementation l = l.default_registry

unfoldable pub active_registry : Lifecycle → Option ℕ
active_registry l = surface l.phase l

-- What Execute does before it delegates a call: it refuses it, or hands it to a registry in a phase.
pub data Started : Type 0 where
  refused : ToolResult → Started
  delegated : Option ℕ → Phase → Started

abbrev pub is_submission : Phase → ToolCall → Bool
is_submission phase call = is_formal phase && str_eq call.name "submit_plan"

unfoldable pub start : ToolCall → Lifecycle → Started × Lifecycle
unfolding active_registry
start call l =
    let marked = record l { submitted_this_turn = true } in
    if is_submission l.phase call
    then if l.submitted_this_turn
      then (
        refused (record {
          tool_call_id = call.id;
          output = "submit_plan cannot be called more than once in the same turn";
          is_error = true;
          content_parts = [];
          structured_content = "";
        }),
        marked,
      )
      else (delegated (active_registry l) l.phase, marked)
    else (delegated (active_registry l) l.phase, l)

-- Whether a result, of a call that was delegated in a phase, initializes the checklist.
abbrev pub initializes : Phase → ToolCall → Bool → Bool
initializes current call is_error =
    is_checklist current && str_eq call.name "update_todo" && not is_error

-- What Execute does behind a call.
unfoldable pub finish : Phase → ToolCall → Bool → Lifecycle → Lifecycle
finish current call is_error l =
    if initializes current call is_error && is_checklist l.phase
    then record l { pending = some implementation }
    else l

unfoldable pub memory_extraction_allowed : Lifecycle → Bool
memory_extraction_allowed l = l.approved

unfoldable pub completion_reminder : Lifecycle → String
completion_reminder l = elim l.phase [
  | formal ↦
      "Formal Plan mode cannot finish before a complete proposal is successfully submitted through submit_plan and approved by the user."
  | checklist ↦
      "The approved plan cannot be implemented or completed until update_todo successfully initializes an ordered, executable, and verifiable checklist."
  | implementation ↦ ""
]

approved_plan_reminder : String → String
approved_plan_reminder plan = joined (
    "The user approved the complete plan below. Formal Plan restrictions have ended for this same task, but explicit implementation tools remain unavailable until you successfully call update_todo with an ordered, executable, and verifiable checklist derived from this plan. Read-only revalidation may happen first.\n\n<approved_plan>"
    ∷ "\n" ∷ plan ∷ "\n</approved_plan>" ∷ [])

unfoldable pub runtime_reminders : Lifecycle → List String
unfolding approved_plan_reminder
runtime_reminders l =
    if not (is_checklist l.phase) || str_eq l.approved_plan ""
    then []
    else approved_plan_reminder l.approved_plan ∷ []

-- The loop of registries, with the registries that were seen.
abbrev distinct : List ℕ → List (Option ℕ) → List ℕ
distinct seen [] = []
distinct seen (none ∷ rest) = distinct seen rest
distinct seen (some r ∷ rest) =
    let later = distinct (r ∷ seen) rest in
    if any (λ i. i == r) seen then distinct seen rest else r ∷ later

unfoldable pub registries : Lifecycle → List ℕ
registries l = distinct [] (l.formal_registry ∷ l.checklist_registry ∷ l.default_registry ∷ [])
