-- ===== src/Reminder/Tests.antt =====
-- A manager that has seen one call three times.
use foxharness.Prelude.{true, false, List, [], ◌∷◌, refl}
use foxharness.Go.{GoLib}
use foxharness.Schema.{ToolCall}
use foxharness.Reminder.{Manager, new_manager, record_action, repeated_same_action, newest}
use foxharness.Reminder.Cooldown.{
  Call, records, asks, Spaced, reminded, reminded-new_manager-Spaced,
}
use foxharness.Reminder.Loops.{Detects, repeated_same_action-Detects}

abbrev a_go : GoLib
a_go = record {
  bytes = λ s. [];
  text = λ b. "";
  sha1_hex = λ b. "da39";
  trim_space = λ s. s;
  decimal = λ n. "3";
  quoted = λ s. s;
  range_order = λ m. m;
}

abbrev a_call : ToolCall
a_call = record { id = "1"; name = "bash"; arguments = "{}" }

abbrev a_history : List Call
a_history =
    records 1 a_call false
    ∷ records 2 a_call false
    ∷ records 3 a_call true
    ∷ asks 3
    ∷ asks 4
    ∷ asks 6
    ∷ []

abbrev a_manager : Manager
a_manager =
    record_action 3 a_call true
      (record_action 2 a_call false (record_action 1 a_call false new_manager))

reminded-new_manager-Spaced_example : Spaced a_go 0 (reminded a_go new_manager a_history)
reminded-new_manager-Spaced_example = reminded-new_manager-Spaced a_go a_history

repeated_same_action-Detects_example :
    Detects a_go (newest 8 a_manager.actions) (repeated_same_action a_go a_manager)
repeated_same_action-Detects_example = repeated_same_action-Detects a_go (λ p m. refl) a_manager
