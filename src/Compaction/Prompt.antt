-- ===== src/Compaction/Prompt.antt =====
-- internal/compaction/prompt.go, the rest of compactor.go that renders texts, boundary.go, and CompactedSummary
-- of internal/prompt/render.go. A message is numbered from 1 on.
use foxharness.Prelude.{
  ◌≡◌, refl, ℕ, ◌+◌, String, Bool, true, false, List, [], ◌∷◌, ◌++◌, none, if◌then◌else◌, length,
  take, codes, str_eq, leb, any, joined, text_append, ◌||◌, not,
}
use foxharness.Go.{GoLib}
use foxharness.Schema.{Message, ContentPart, ToolCall, Role, system, user, assistant, other_role}

-- The values of the language.
pub data Language : Type 0 where
  english chinese : Language

-- `cjk` tells the code points of the four scripts that unicode.Is is asked for.
abbrev pub contains_cjk : (ℕ → Bool) → String → Bool
contains_cjk cjk s = any cjk (codes s)

abbrev is_user : Role → Bool
is_user user = true
is_user _ = false

pub detect_summary_language : (ℕ → Bool) → List Message → Language
detect_summary_language cjk [] = english
detect_summary_language cjk (msg ∷ messages) =
    let rest = detect_summary_language cjk messages in
    if not (is_user msg.role) || not (str_eq msg.tool_call_id "")
    then rest
    else if contains_cjk cjk msg.content
    then chinese
    else english

abbrev role_name : Role → String
role_name system = "system"
role_name user = "user"
role_name assistant = "assistant"
role_name (other_role s) = s

abbrev language_name : Language → String
language_name english = "English"
language_name chinese = "Chinese (中文)"

-- A boundary; `marshal` is json.Marshal, which does not fail on it.
pub record CompactBoundary : Type 0 where
  pub trigger : String
  pub messages_summarized : ℕ
  pub timestamp : String

module _ (go : GoLib) where
  pub truncate : String → ℕ → String
  truncate s max =
      if leb (length (go.bytes s)) max
      then s
      else text_append (go.text (take max (go.bytes s))) "\n...[truncated for compaction]..."

  call_lines : List ToolCall → List String
  unfolding truncate
  call_lines [] = []
  call_lines (call ∷ calls) =
      "[tool_call] id="
      ∷ call.id
      ∷ " name="
      ∷ call.name
      ∷ " args="
      ∷ truncate call.arguments 1000
      ∷ "\n"
      ∷ call_lines calls

  image_lines : List ContentPart → List String
  image_lines [] = []
  image_lines (part ∷ parts) =
      if str_eq part.part_type "image"
      then "[image artifact] "
        ∷ part.artifact_key
        ∷ " (image data not included in this summary request)\n"
        ∷ image_lines parts
      else image_lines parts

  message_lines : ℕ → Message → List String
  unfolding truncate call_lines image_lines
  message_lines number msg =
      ("\n--- message " ∷ go.decimal number ∷ " role=" ∷ role_name msg.role ∷ " ---\n" ∷ [])
      ++ (if str_eq msg.content "" then [] else truncate msg.content 4000 ∷ "\n" ∷ [])
      ++ call_lines msg.tool_calls
      ++ (if str_eq msg.tool_call_id ""
          then []
          else "[tool_result_for] " ∷ msg.tool_call_id ∷ "\n" ∷ [])
      ++ image_lines msg.content_parts

  rendered : ℕ → List Message → List String
  unfolding message_lines
  rendered number [] = []
  rendered number (msg ∷ messages) = message_lines number msg ++ rendered (number + 1) messages

  pub render_messages_for_summary : List Message → String
  unfolding rendered
  render_messages_for_summary messages = joined (rendered 1 messages)

  pub build_compact_prompt : List Message → Language → String → String
  unfolding render_messages_for_summary
  build_compact_prompt messages language custom_instructions = joined (
      "CRITICAL: Respond with TEXT ONLY. Do NOT call any tools."
      ∷ "\n\nYou are summarizing the conversation below so the agent can continue working\nafter the older messages are dropped. Produce the summary in "
      ∷ language_name language
      ∷ ".\n\n<analysis>\n[Use this area to draft your thinking. Everything between these tags is\ndiscarded — only the <summary> block is preserved.]\n</analysis>\n\n"
      ∷ "<summary>\n1. Primary Request and Intent: [User's complete request and goals]\n2. Key Technical Concepts: [Frameworks, APIs, patterns relevant to the task]\n3. Files and Code Sections: [File paths, code snippets, reasons for changes]\n4. Errors and Fixes: [Error details, root causes, and fixes applied]\n5. Problem Solving: [Solved problems and ongoing debugging]\n6. All User Messages: [Non-tool-result user messages, summarized]\n7. Pending Tasks: [Incomplete items from the user's request]\n8. Current Work: [Precise description of what was being done last]\n9. Optional Next Step: [Recommended next action with rationale]\n</summary>"
      ∷ (if str_eq (go.trim_space custom_instructions) ""
          then ""
          else text_append "\n\nAdditional Instructions:\n" (go.trim_space custom_instructions))
      ∷ "\n\nConversation history follows:\n\n"
      ∷ render_messages_for_summary messages
      ∷ "\n\n"
      ∷ "REMINDER: Do NOT call any tools."
      ∷ "\n"
      ∷ [])

  pub compacted_summary : String → String → String
  compacted_summary summary transcript_path = joined (
      "## Compacted Context Summary\n\n"
      ∷ "This session is being continued from a previous conversation that ran out of context. The summary below covers the earlier portion.\n\n"
      ∷ go.trim_space summary
      ∷ "\n\n"
      ∷ (if str_eq transcript_path ""
          then ""
          else joined (
              "If you need specific details from before compaction, read the full transcript at: "
              ∷ transcript_path ∷ "\n\n" ∷ []))
      ∷ "Continue the conversation from where it left off without asking the user any further questions. Resume directly — do not acknowledge the summary."
      ∷ [])

abbrev pub text_message : Role → String → Message
text_message role content = record {
  role = role;
  content = content;
  tool_calls = [];
  tool_call_id = "";
  usage = none;
  content_parts = [];
  structured_content = "";
  is_error = false;
}

pub build_summary_message : GoLib → String → String → Message
unfolding compacted_summary
build_summary_message go summary transcript_path =
    text_message user (compacted_summary go summary transcript_path)

pub tool_call_id-build_summary_message :
    (go : GoLib) (summary path : String) → (build_summary_message go summary path).tool_call_id ≡ ""
unfolding build_summary_message
tool_call_id-build_summary_message go summary path = refl
