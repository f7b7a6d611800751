-- ===== src/Reminder/Cooldown.antt =====
-- How often a reminder can be given.
use foxharness.Prelude.{
  ℕ, ◌+◌, ◌-◌, ◌≤◌, ◌≡◌, refl, String, Bool, true, false, List, [], ◌∷◌, Option, some, none, ltb,
  arith, if◌then◌else◌,
}
use foxharness.Go.{GoLib}
use foxharness.Schema.{ToolCall}
use foxharness.Reminder.{
  Manager, new_manager, record_action, maybe_build, remind, reminder_text, repeated_same_action,
}

-- The calls of a manager; `asks` is MaybeBuild for a turn.
pub data Call : Type 0 where
  records : ℕ → ToolCall → Bool → Call
  asks : ℕ → Call

abbrev reminded_at : ℕ → Option String → List ℕ → List ℕ
reminded_at turn none later = later
reminded_at turn (some s) later = turn ∷ later

module _ (go : GoLib) where
  -- The turns in which a history gives a reminder.
  pub reminded : Manager → List Call → List ℕ
  reminded m [] = []
  reminded m (records turn call is_error ∷ cs) = reminded (record_action turn call is_error m) cs
  reminded m (asks turn ∷ cs) =
      let (message, m') = maybe_build go turn m in reminded_at turn message (reminded m' cs)

  -- Each turn comes three or more after the one before it.
  abbrev pub Spaced : ℕ → List ℕ → Type 0
  Spaced last [] = Unit {0}
  Spaced last (turn ∷ turns) = (last + 3 ≤ turn) × Spaced turn turns

  reminded_step :
      (turn : ℕ) (m : Manager) (cs : List Call) (message : Option String)
      → m.cooldown_turns ≡ 3
      → ltb (turn - m.last_reminder_turn) 3 ≡ false
      → ((m' : Manager) → m'.cooldown_turns ≡ 3 → Spaced m'.last_reminder_turn (reminded m' cs))
      → let (said, m') = remind go turn m message in
        Spaced m.last_reminder_turn (reminded_at turn said (reminded m' cs))
  unfolding remind
  reminded_step turn m cs none c late ih = ih m c
  reminded_step turn m cs (some s) c late ih =
      (ground arith, ih (record m { last_reminder_turn = turn }) c)

  asked_step :
      (turn : ℕ) (m : Manager) (cs : List Call) (cool : Bool) (message : Option String)
      → m.cooldown_turns ≡ 3
      → (cool ≡ false → ltb (turn - m.last_reminder_turn) 3 ≡ false)
      → ((m' : Manager) → m'.cooldown_turns ≡ 3 → Spaced m'.last_reminder_turn (reminded m' cs))
      → let (said, m') = if cool then (none, m) else remind go turn m message in
        Spaced m.last_reminder_turn (reminded_at turn said (reminded m' cs))
  asked_step turn m cs true message c late ih = ih m c
  asked_step turn m cs false message c late ih = reminded_step turn m cs message c (late refl) ih

  reminded-Spaced :
      (m : Manager) (cs : List Call)
      → m.cooldown_turns ≡ 3
      → Spaced m.last_reminder_turn (reminded m cs)
  unfolding reminded maybe_build record_action
  reminded-Spaced m [] c = tt
  reminded-Spaced m (records turn call is_error ∷ cs) c =
      reminded-Spaced (record_action turn call is_error m) cs c
  reminded-Spaced m (asks turn ∷ cs) c =
      asked_step turn m cs (ltb (turn - m.last_reminder_turn) m.cooldown_turns)
        (reminder_text go turn m (repeated_same_action go m)) c (λ q. ground arith)
        (λ m' c'. reminded-Spaced m' cs c')

  -- In any history of a new manager there are three turns or more between two reminders, and none
  -- before turn 3.
  pub reminded-new_manager-Spaced : (cs : List Call) → Spaced 0 (reminded new_manager cs)
  unfolding new_manager
  reminded-new_manager-Spaced cs = reminded-Spaced new_manager cs refl
