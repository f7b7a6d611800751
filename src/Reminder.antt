-- ===== src/Reminder.antt =====
-- The reminders of internal/reminder/reminder.go. Turns are numbered from 0 on, so that the difference of
-- turns that the cooldown is compared with stops at 0 with the same outcome.
pub mod Actions
pub mod Cooldown
pub mod Loops
mod Tests
use foxharness.Prelude.{
  ℕ, zero, suc, ◌+◌, ◌-◌, String, Bool, true, false, not, ◌&&◌, ◌||◌, List, [], ◌∷◌, ◌++◌, Option,
  some, none, if◌then◌else◌, leb, ltb, length, drop, codes, contains, text_append, joined, str_eq,
  ◌==◌, ◌%◌,
}
use foxharness.Dict.{lookup, put, or_zero}
use foxharness.Go.{GoLib}
use foxharness.Schema.{ToolCall}

pub record ToolAction : Type 0 where
  pub turn : ℕ
  pub tool_name : String
  pub arguments : String
  pub is_error : Bool

pub record Manager : Type 0 where
  pub actions : List ToolAction
  pub last_reminder_turn : ℕ
  pub cooldown_turns : ℕ

unfoldable pub new_manager : Manager
new_manager = record { actions = []; last_reminder_turn = 0; cooldown_turns = 3 }

-- The last `n` of a list.
pub newest : ℕ → List ToolAction → List ToolAction
newest n actions = if ltb n (length actions) then drop (length actions - n) actions else actions

-- Record.
unfoldable pub record_action : ℕ → ToolCall → Bool → Manager → Manager
unfolding newest
record_action turn call is_error m = record m {
  actions = newest 30 (
      m.actions
      ++ record {
        turn = turn;
        tool_name = call.name;
        arguments = call.arguments;
        is_error = is_error;
      }
        ∷ []);
}

abbrev is_edit : ToolAction → Bool
is_edit a = str_eq a.tool_name "edit_file" || str_eq a.tool_name "write_file"

pub looks_like_verification : String → Bool
looks_like_verification args =
    contains (codes args) (codes "test")
    || contains (codes args) (codes "go test")
    || contains (codes args) (codes "npm test")
    || contains (codes args) (codes "pytest")
    || contains (codes args) (codes "cargo test")

abbrev is_verification : ToolAction → Bool
is_verification a = str_eq a.tool_name "bash" && looks_like_verification a.arguments

-- The loop of editedWithoutVerification; none is the index -1.
last_indices : ℕ → Option ℕ → Option ℕ → List ToolAction → Option ℕ × Option ℕ
unfolding looks_like_verification
last_indices i edit verify [] = (edit, verify)
last_indices i edit verify (a ∷ rest) =
    last_indices (i + 1) (if is_edit a then some i else edit)
      (if is_verification a then some i else verify) rest

abbrev later : ℕ → Option ℕ → Bool
later edit none = true
later edit (some verify) = ltb verify edit

abbrev unverified : ℕ → Option ℕ → Option ℕ → Bool
unverified count none verify = false
unverified count (some edit) verify = later edit verify && leb 4 (count - edit)

pub edited_without_verification : Manager → Bool
unfolding last_indices
edited_without_verification m =
    let (edit, verify) = last_indices 0 none none m.actions in
    unverified (length m.actions) edit verify

module _ (go : GoLib) where
  pub fingerprint : String → String
  fingerprint s = go.sha1_hex (go.bytes (go.trim_space s))

  pub key_of : ToolAction → String
  unfolding fingerprint
  key_of a = text_append a.tool_name (text_append ":" (fingerprint a.arguments))

  -- The loop over the newest actions: the counts, and the last action of each key.
  tally :
      List ToolAction
      → List (String × ℕ)
      → List (String × ToolAction)
      → List (String × ℕ) × List (String × ToolAction)
  unfolding key_of
  tally [] counts last_by_key = (counts, last_by_key)
  tally (a ∷ rest) counts last_by_key =
      let key = key_of a in
      tally rest (put key (or_zero (lookup key counts) + 1) counts) (put key a last_by_key)

  -- The loop over the map of counts.
  first_repeated : List (String × ℕ) → Option (String × ℕ)
  first_repeated [] = none
  first_repeated ((key, count) ∷ rest) =
      let later_entry = first_repeated rest in
      if leb 3 count then some (key, count) else later_entry

  with_action : List (String × ToolAction) → Option (String × ℕ) → Option (Option ToolAction × ℕ)
  with_action last_by_key none = none
  with_action last_by_key (some (key, count)) = some (lookup key last_by_key, count)

  -- repeatedSameAction, with the action looked up in the second map, and the count.
  pub repeated_same_action : Manager → Option (Option ToolAction × ℕ)
  unfolding tally first_repeated with_action newest
  repeated_same_action m =
      let (counts, last_by_key) = tally (newest 8 m.actions) [] [] in
      if ltb (length m.actions) 3
      then none
      else with_action last_by_key (first_repeated (go.range_order counts))

  abbrev name_of : Option ToolAction → String
  name_of none = ""
  name_of (some a) = a.tool_name

  abbrev arguments_of : Option ToolAction → String
  arguments_of none = ""
  arguments_of (some a) = a.arguments

  loop_message : Option ToolAction → ℕ → String
  loop_message a count = joined (
      "\n## System Reminder: Possible Loop Detected\n\n你最近重复执行了同一个工具动作 "
      ∷ go.decimal count
      ∷ " 次：\n\n- Tool: "
      ∷ name_of a
      ∷ "\n- Arguments: "
      ∷ arguments_of a
      ∷ "\n\n你必须停止原样重复该动作。请先说明：\n1. 这个动作为什么没有带来新信息？\n2. 当前任务目标是什么？\n3. 下一步要采取哪一个不同策略？\n\n除非你获得了新的证据，否则不要再次调用完全相同的工具和参数。\n"
      ∷ [])

  abbrev verification_message : String
  verification_message =
      "\n## System Reminder: Verification Needed\n\n你已经修改了文件，但最近几步没有运行测试、构建或者其他验证命令。\n\n在继续扩大修改范围前，请优先使用 bash 运行最小相关验证命令，并根据结果决定下一步。\n"

  abbrev anchor_message : String
  anchor_message =
      "\n## System Reminder: Re-anchor\n\n任务已经运行了较多轮。请重新对齐：\n1. 用户原始目标是什么？\n2. 已完成哪些关键步骤？\n3. 还有什么未解决？\n4. 下一步最小有效动作是什么？\n"

  -- The reminder for a turn, the cooldown left aside.
  reminder_text : ℕ → Manager → Option (Option ToolAction × ℕ) → Option String
  unfolding edited_without_verification loop_message
  reminder_text turn m (some (a, count)) = some (loop_message a count)
  reminder_text turn m none =
      if edited_without_verification m
      then some verification_message
      else if ltb 0 turn && turn % 12 == 0
      then some anchor_message
      else none

  remind : ℕ → Manager → Option String → Option String × Manager
  remind turn m none = (none, m)
  remind turn m (some s) = (some s, record m { last_reminder_turn = turn })

  -- MaybeBuild, with none for its second result false.
  pub maybe_build : ℕ → Manager → Option String × Manager
  unfolding repeated_same_action reminder_text remind
  maybe_build turn m =
      if ltb (turn - m.last_reminder_turn) m.cooldown_turns
      then (none, m)
      else remind turn m (reminder_text turn m (repeated_same_action m))
