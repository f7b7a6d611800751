-- ===== src/Turnpolicy/Reminders.antt =====
-- How often the TODO gate can remind.
use foxharness.Prelude.{
  ℕ, String, Bool, true, false, List, [], ◌∷◌, Option, some, none, if◌then◌else◌, ltb, length,
  str_eq, ◌+◌, ◌≡◌, refl, ◌≤◌, arith, inl, inr, Bool-cases,
}
use foxharness.Go.{GoLib}
use foxharness.Schema.{ToolCall}
use foxharness.Engine.Types.{
  Result, ok, err, ModelResult, ConversationChange, ChangeSource, TurnDecision, ToolState,
  ToolExecutionResult, todo_gate_source,
}
use foxharness.Turnpolicy.{
  RunPolicy, completion_answer, todo_answer, terminal_decision, after_model, before_turn,
  after_tools, after_each, after_tool, recovery_part, reminder_part, gate, or_todo, or_complete,
  no_decision, context_reminder, context_change,
}

-- The calls that the engine makes of a run policy.
pub data Call : Type 0 where
  begins : ℕ → Call
  answers : ModelResult → Call
  runs : ToolState → Call

abbrev from_todo_gate : ChangeSource → ℕ
from_todo_gate todo_gate_source = 1
from_todo_gate _ = 0

abbrev pub todo_reminders : List ConversationChange → ℕ
todo_reminders [] = 0
todo_reminders (c ∷ cs) = from_todo_gate c.source + todo_reminders cs

abbrev reminders_of : Result TurnDecision → ℕ
reminders_of (err e) = 0
reminders_of (ok d) = todo_reminders d.changes

abbrev optional_reminders : Result (Option TurnDecision) → ℕ
optional_reminders (err e) = 0
optional_reminders (ok none) = 0
optional_reminders (ok (some d)) = todo_reminders d.changes

abbrev pub flag : Bool → ℕ
flag true = 1
flag false = 0

flag_one : (b : Bool) → 0 + flag b ≤ 1
flag_one true = omega arith
flag_one false = omega arith

module _ (go : GoLib) {W : Type 0} where
  -- The reminders of the TODO gate that a history asks for.
  pub todo_reminded : List Call → RunPolicy W → W → ℕ
  todo_reminded [] p w = 0
  todo_reminded (begins turn ∷ cs) p w =
      let (r, (p', w')) = before_turn go turn p w in todo_reminded cs p' w'
  todo_reminded (answers model ∷ cs) p w =
      let (r, (p', w')) = after_model go model p w in reminders_of r + todo_reminded cs p' w'
  todo_reminded (runs state ∷ cs) p w =
      let (r, (p', w')) = after_tools go state p w in todo_reminded cs p' w'

  abbrev Counts : RunPolicy W → Result (Option TurnDecision) × (RunPolicy W × W) → Type 0
  Counts p (r, s) = optional_reminders r + flag p.todo_reminder_sent ≡ flag s.0.todo_reminder_sent

  abbrev Counted : RunPolicy W → Result TurnDecision × (RunPolicy W × W) → Type 0
  Counted p (r, s) = reminders_of r + flag p.todo_reminder_sent ≡ flag s.0.todo_reminder_sent

  completion_answer-Counts :
      (p : RunPolicy W) (w : W) (m : String)
      → let (d, p') = completion_answer go m p in Counts p (ok d, (p', w))
  unfolding completion_answer terminal_decision context_reminder context_change
  completion_answer-Counts p w m = elim (Bool-cases (str_eq (go.trim_space m) "")) [
    | inl b ↦ rw b (omega arith)
    | inr b ↦ rw b (elim (Bool-cases (str_eq p.completion_reminder (go.trim_space m))) [
      | inl c ↦ rw c (omega arith)
      | inr c ↦ rw c (omega arith)
    ])
  ]

  todo_answer-Counts :
      (p : RunPolicy W) (w : W) (m : String)
      → let (d, p') = todo_answer go m p in Counts p (ok d, (p', w))
  unfolding todo_answer terminal_decision context_reminder context_change
  todo_answer-Counts p w m = elim (Bool-cases (str_eq (go.trim_space m) "")) [
    | inl b ↦ rw b (omega arith)
    | inr b ↦ rw b (elim (Bool-cases p.todo_reminder_sent) [
      | inl c ↦ rw c (omega arith)
      | inr c ↦ rw c (omega arith)
    ])
  ]

  gate-Counts :
      (answer : String → RunPolicy W → Option TurnDecision × RunPolicy W)
      → ((p : RunPolicy W) (w : W) (m : String)
          → let (d, p') = answer m p in Counts p (ok d, (p', w)))
      → (g : Option (W → Result String × W)) (p : RunPolicy W) (w : W)
      → Counts p (gate answer g p w)
  gate-Counts answer h none p w = omega arith
  gate-Counts answer h (some ask) p w = answered_by (ask w)
    where
      answered_by : (r : Result String × W) → Counts p (gate answer (some (λ v. r)) p w)
      answered_by (err e, w') = omega arith
      answered_by (ok m, w') = h p w' m

  or_complete-Counted :
      (p : RunPolicy W) (r : Result (Option TurnDecision) × (RunPolicy W × W))
      → Counts p r
      → Counted p (or_complete r)
  or_complete-Counted p (err e, s) h = h
  or_complete-Counted p (ok (some d), s) h = h
  or_complete-Counted p (ok none, s) h = h

  todo_stage :
      (p : RunPolicy W) (w : W) (updated : Bool)
      → Counts p
          (if updated then (ok none, (p, w)) else gate (todo_answer go) p.bindings.todo_gate p w)
  todo_stage p w true = omega arith
  todo_stage p w false = gate-Counts (todo_answer go) todo_answer-Counts p.bindings.todo_gate p w

  or_todo-Counted :
      (p : RunPolicy W) (r : Result (Option TurnDecision) × (RunPolicy W × W))
      → Counts p r
      → Counted p (or_todo go r)
  or_todo-Counted p (err e, s) h = h
  or_todo-Counted p (ok (some d), s) h = h
  or_todo-Counted p (ok none, (p', w)) h =
      let stage =
        if p'.todo_updated
        then (ok none, (p', w))
        else gate (todo_answer go) p'.bindings.todo_gate p' w in
      let second = or_complete-Counted p' stage (todo_stage p' w p'.todo_updated) in
      omega (arith, h, second)

  after_model-Counted :
      (model : ModelResult) (p : RunPolicy W) (w : W) → Counted p (after_model go model p w)
  unfolding after_model
  after_model-Counted model p w = busy_or (ltb 0 (length model.message.tool_calls))
    where
      busy_or :
          (busy : Bool)
          → Counted p (
              if busy
              then (ok no_decision, (p, w))
              else or_todo go (gate (completion_answer go) p.bindings.completion_gate p w))
      busy_or true = omega arith
      busy_or false = or_todo-Counted p _ (
          gate-Counts (completion_answer go) completion_answer-Counts p.bindings.completion_gate p
            w)

  before_turn_sent :
      (turn : ℕ) (p : RunPolicy W) (w : W)
      → (before_turn go turn p w).1.0.todo_reminder_sent ≡ p.todo_reminder_sent
  unfolding before_turn recovery_part reminder_part
  before_turn_sent turn p w = ground arith

  after_each_sent :
      (turn index : ℕ) (calls : List ToolCall) (results : List ToolExecutionResult)
      (p : RunPolicy W)
      → (after_each go turn index calls results p).1.todo_reminder_sent ≡ p.todo_reminder_sent
  unfolding after_each after_tool
  after_each_sent turn index [] results p = refl
  after_each_sent turn index (call ∷ calls) [] p = refl
  after_each_sent turn index (call ∷ calls) (r ∷ results) p =
      ground (arith, after_each_sent turn (index + 1) calls results (after_tool go turn call r p))

  after_tools_sent :
      (state : ToolState) (p : RunPolicy W) (w : W)
      → (after_tools go state p w).1.0.todo_reminder_sent ≡ p.todo_reminder_sent
  unfolding after_tools
  after_tools_sent state p w =
      ground (arith, after_each_sent state.turn 0 state.calls state.results p)

  -- In any history of calls, a run policy gives the reminder of the TODO gate at most once, and not at
  -- all if it has given it before.
  pub todo_reminded_once :
      (cs : List Call) (p : RunPolicy W) (w : W)
      → todo_reminded cs p w + flag p.todo_reminder_sent ≤ 1
  unfolding todo_reminded
  todo_reminded_once [] p w = flag_one p.todo_reminder_sent
  todo_reminded_once (begins turn ∷ cs) p w =
      rw (before_turn_sent turn p w) at
        (todo_reminded_once cs (before_turn go turn p w).1.0 (before_turn go turn p w).1.1)
  todo_reminded_once (answers model ∷ cs) p w = omega (
    arith,
    after_model-Counted model p w,
    todo_reminded_once cs (after_model go model p w).1.0 (after_model go model p w).1.1,
  )
  todo_reminded_once (runs state ∷ cs) p w =
      rw (after_tools_sent state p w) at
        (todo_reminded_once cs (after_tools go state p w).1.0 (after_tools go state p w).1.1)
