-- ===== src/Recovery.antt =====
-- The failure tracker of internal/recovery/error_tracker.go. Outputs are lists of bytes. The map of
-- counts is an association list, in which a missing key counts 0.
pub mod History
mod Tests
use foxharness.Prelude.{
  refl, ℕ, zero, suc, ◌+◌, ◌-◌, ◌≤◌, String, Bool, true, false, not, ◌&&◌, ◌||◌, List, [], ◌∷◌,
  ◌++◌, Option, some, none, if◌then◌else◌, leb, ltb, length, drop, take, last?, codes, joined, ◌≡◌,
  str_eq, arith, append_nonempty,
}
use foxharness.Go.{GoLib}
use foxharness.Dict.{lookup, put, or_zero}
use foxharness.Schema.{ToolCall}

pub record ToolError : Type 0 where
  pub tool_name : String
  pub arguments : String
  pub output : List ℕ
  pub count : ℕ

pub record Tracker : Type 0 where
  pub recent : List ToolError
  pub counts : List (String × ℕ)
  pub pending : Bool

-- The part of a ToolResult that the tracker reads.
pub record Outcome : Type 0 where
  pub is_error : Bool
  pub output : List ℕ

pub new_tracker : Tracker
new_tracker = record { recent = []; counts = []; pending = false }

pub fingerprint : GoLib → ToolCall → String
fingerprint h call = h.sha1_hex (h.bytes call.name ++ 0 ∷ h.bytes call.arguments)

pub truncate : List ℕ → ℕ → List ℕ
truncate s max = if leb (length s) max then s else take max s ++ codes "\n...[truncated]..."

-- The last five.
last_five : List ToolError → List ToolError
last_five errors = if ltb 5 (length errors) then drop (length errors - 5) errors else errors

failed_item : ToolCall → List ℕ → ℕ → ToolError
failed_item call output count = record {
  tool_name = call.name;
  arguments = call.arguments;
  output = truncate output 2000;
  count = count;
}

pub add_failure : GoLib → ToolCall → List ℕ → Tracker → Tracker
unfolding last_five failed_item
add_failure h call output t =
    let key = fingerprint h call in
    let count = or_zero (lookup key t.counts) + 1 in
    record {
      recent = last_five (t.recent ++ failed_item call output count ∷ []);
      counts = put key count t.counts;
      pending = true;
    }

-- Record.
pub record_result : GoLib → ToolCall → Outcome → Tracker → Tracker
unfolding add_failure
record_result h call result t = if result.is_error then add_failure h call result.output t else t

abbrev counted_once : Option ToolError → Bool
counted_once none = false
counted_once (some last) = leb 1 last.count

pub should_inject : Tracker → Bool
should_inject t = t.pending && counted_once (last? t.recent)

pub mark_inject : Tracker → Tracker
mark_inject t = record t { pending = false }

prompt_pieces : GoLib → ToolError → List String
prompt_pieces go last =
    "## Error Recovery Notice\n\n"
    ∷ "上一次工具调用失败了。你必须先诊断失败原因，再决定下一步行动。\n\n"
    ∷ "- Tool: `"
    ∷ last.tool_name
    ∷ "`\n"
    ∷ "- Arguments: `"
    ∷ last.arguments
    ∷ "`\n"
    ∷ "- Failure count for same tool+arguments: "
    ∷ go.decimal last.count
    ∷ "\n"
    ∷ "\n错误输出摘要: \n\n"
    ∷ "```plain\n"
    ∷ go.text last.output
    ∷ "\n```\n\n"
    ∷ "恢复规则：\n"
    ∷ "1. 不要盲目重复完全相同的工具调用。\n"
    ∷ "2. 如果是路径错误，先用 bash 或 read_file 检查真实文件结构。\n"
    ∷ "3. 如果是 edit_file 匹配失败，先重新读取目标文件，再提供更长、更准确的 old_string。\n"
    ∷ "4. 如果是 bash 命令失败，先解释失败原因，再决定是修改代码、调整命令还是读取更多上下文。\n"
    ∷ "5. 如果你确实要重复同一调用，必须说明新证据是什么。\n"
    ∷ (if leb 2 last.count then "\n强制要求：同一工具和同一参数已经失败多次，下一步禁止再次原样调用。必须换一种调查或修复策略。\n" else "")
    ∷ []

prompt_for : GoLib → Option ToolError → String
unfolding prompt_pieces
prompt_for go none = ""
prompt_for go (some last) = joined (prompt_pieces go last)

pub build_prompt : GoLib → Tracker → String
unfolding prompt_for
build_prompt go t = prompt_for go (last? t.recent)

prompt_for_due :
    (go : GoLib) (last : Option ToolError)
    → counted_once last ≡ true
    → str_eq (prompt_for go last) "" ≡ false
unfolding prompt_for prompt_pieces
prompt_for_due go none h = cc
prompt_for_due go (some last) h = append_nonempty "## Error Recovery Notice\n\n" _ refl

-- A tracker that is due for a prompt has one.
pub prompt_due :
    (go : GoLib) (t : Tracker) → should_inject t ≡ true → str_eq (build_prompt go t) "" ≡ false
unfolding should_inject build_prompt
prompt_due go t h = prompt_for_due go (last? t.recent) (ground arith)

pub should_inject-mark_inject : (t : Tracker) → should_inject (mark_inject t) ≡ false
unfolding should_inject mark_inject
should_inject-mark_inject t = refl
