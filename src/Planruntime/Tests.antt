-- ===== src/Planruntime/Tests.antt =====
-- A plan that is approved and implemented.
use foxharness.Prelude.{List, [], ◌∷◌, some, false, true}
use foxharness.Schema.{ToolCall}
use foxharness.Planruntime.{formal, checklist, new}
use foxharness.Planruntime.Stages.{
  Operation, approves, begins, starts, finishes, perform_all, Shows, after_all, planning,
  perform_all-new-Shows,
}

abbrev submit : ToolCall
submit = record { id = "1"; name = "submit_plan"; arguments = "{}" }

abbrev update : ToolCall
update = record { id = "2"; name = "update_todo"; arguments = "{}" }

abbrev a_history : List Operation
a_history =
    begins
    ∷ starts submit
    ∷ approves "the plan"
    ∷ finishes formal submit false
    ∷ begins
    ∷ starts update
    ∷ finishes checklist update false
    ∷ begins
    ∷ []

perform_all-new-Shows_example :
    Shows
      (after_all a_history planning)
      (perform_all a_history (new (some 1) (some 2) (some 3) true))
perform_all-new-Shows_example = perform_all-new-Shows a_history (some 1) (some 2) (some 3) true
