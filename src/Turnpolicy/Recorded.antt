-- ===== src/Turnpolicy/Recorded.antt =====
-- The policy of internal/turnpolicy/policy.go behind a round of tool calls, described at once.
use foxharness.Prelude.{
  ◌&&◌, ◌||◌, ℕ, List, [], ◌∷◌, str_eq, ◌≡◌, arith, ◌∙◌, ap, Bool, any, map, not,
}
use foxharness.Go.{GoLib}
use foxharness.Schema.{ToolCall}
use foxharness.Engine.Types.{ToolExecutionResult}
use foxharness.Recovery.{Tracker, record_result}
use foxharness.Reminder.{ToolAction, record_action}
use foxharness.Reminder.Actions.{kept_actions, kept_actions_step}
use foxharness.Turnpolicy.{RunPolicy, after_tool}

-- Every pair of a call and its result, in order.
abbrev pub answered_calls :
    List ToolCall → List ToolExecutionResult → List (ToolCall × ToolExecutionResult)
answered_calls (call ∷ calls) (r ∷ results) = (call, r) ∷ answered_calls calls results
answered_calls _ _ = []

abbrev pub action_of : ℕ → ToolCall × ToolExecutionResult → ToolAction
action_of turn (call, r) = record {
  turn = turn;
  tool_name = call.name;
  arguments = call.arguments;
  is_error = r.is_error;
}

-- Has a call updated the list of tasks?
abbrev pub has_updated_todo : List (ToolCall × ToolExecutionResult) → Bool
has_updated_todo pairs = any (λ pair. str_eq pair.0.name "update_todo" && not pair.1.is_error) pairs

module _ (go : GoLib) where
  -- What the recovery knows of the calls.
  abbrev pub all_outcomes : List (ToolCall × ToolExecutionResult) → Tracker → Tracker
  all_outcomes [] t = t
  all_outcomes ((call, r) ∷ pairs) t = all_outcomes pairs (
      record_result go call (record { is_error = r.is_error; output = go.bytes r.model_content }) t)

module _ (go : GoLib) {W : Type 0} where
  -- The policy behind a round: the reminders keep the newest 30 of the actions known before and those of
  -- the calls, if there are any; the recovery knows every call with its result; the list of tasks
  -- counts as updated if it was or if a call has updated it; and nothing else is changed.
  abbrev pub recorded : ℕ → List (ToolCall × ToolExecutionResult) → RunPolicy W → RunPolicy W
  recorded turn pairs p = record p {
    reminder = record p.reminder {
      actions = kept_actions p.reminder.actions (map (action_of turn) pairs);
    };
    recovery = all_outcomes go pairs p.recovery;
    todo_updated = has_updated_todo pairs || p.todo_updated;
  }

  pub recorded-after_tool :
      (turn : ℕ) (call : ToolCall) (r : ToolExecutionResult)
      (pairs : List (ToolCall × ToolExecutionResult)) (p : RunPolicy W)
      → recorded turn pairs (after_tool go turn call r p) ≡ recorded turn ((call, r) ∷ pairs) p
  unfolding after_tool record_action
  recorded-after_tool turn call r pairs p =
      let same =
        kept_actions_step p.reminder.actions (action_of turn (call, r))
          (map (action_of turn) pairs) in
      let outcomes = all_outcomes go ((call, r) ∷ pairs) p.recovery in
      let todo =
        later (has_updated_todo pairs) (str_eq call.name "update_todo" && not r.is_error)
          p.todo_updated in
      let first =
        has_updated_todo pairs
        || ((str_eq call.name "update_todo" && not r.is_error) || p.todo_updated) in
      ap (λ actions. with_parts p actions outcomes first) same
      ∙ ap
          (with_parts p (kept_actions p.reminder.actions (map (action_of turn) ((call, r) ∷ pairs)))
            outcomes)
          todo
    where
      with_parts : RunPolicy W → List ToolAction → Tracker → Bool → RunPolicy W
      with_parts q actions outcomes updated = record q {
        reminder = record q.reminder { actions = actions };
        recovery = outcomes;
        todo_updated = updated;
      }

      later : (rest now before : Bool) → (rest || (now || before)) ≡ ((now || rest) || before)
      later rest now before = ground arith
