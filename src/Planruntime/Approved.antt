-- ===== src/Planruntime/Approved.antt =====
-- What came before the implementation of a plan.
use foxharness.Prelude.{String, true, false, List, ◌∷◌, ◌++◌, str_eq, ◌≡◌}
use foxharness.Schema.{ToolCall}
use foxharness.Planruntime.{checklist}
use foxharness.Planruntime.Stages.{
  Operation, approves, begins, finishes, Stage, building, leaves, following, after_all,
}

-- The first event by which a stage is left.
abbrev Left : Stage → List Operation → Type 0
Left stage es =
    (a : List Operation) × (e : Operation) × (rest : List Operation) × (es ≡ a ++ e ∷ rest)
    × (leaves stage e ≡ true)
    × (after_all rest (following stage) ≡ building)

-- A call of update_todo that was delegated to the checklist surface and succeeded.
abbrev pub Initializes : Operation → Type 0
Initializes e =
    (call : ToolCall) × (e ≡ finishes checklist call false)
    × (str_eq call.name "update_todo" ≡ true)

-- A history in four parts: an approval, a new turn, an initialized checklist, and a new turn.
abbrev pub Prepared : List Operation → Type 0
Prepared es =
    (a b c d rest : List Operation) × (plan : String) × (e : Operation) × (es
      ≡ a ++ approves plan ∷ (b ++ begins ∷ (c ++ e ∷ (d ++ begins ∷ rest))))
    × Initializes e
