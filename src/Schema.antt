-- ===== src/Schema.antt =====
-- internal/schema: the messages, tool calls and usage records that all parts exchange. Slices are
-- values here, so the Clone functions of the source are identities and do not appear.
use foxharness.Prelude.{ℕ, String, Bool, List, Option, map, if◌then◌else◌, str_eq, not, ◌||◌}

pub data Role : Type 0 where
  system user assistant : Role
  other_role : String → Role

pub record ContentPart : Type 0 where
  pub part_type : String
  pub text : String
  pub mime_type : String
  pub artifact_key : String
  pub uri : String
  pub name : String
  pub bytes : List ℕ

-- The four int64 counters, as 64-bit patterns.
pub record Usage : Type 0 where
  pub input_tokens : ℕ
  pub output_tokens : ℕ
  pub cache_creation_tokens : ℕ
  pub cache_read_tokens : ℕ

pub record ToolCall : Type 0 where
  pub id : String
  pub name : String
  pub arguments : String

pub record Message : Type 0 where
  pub role : Role
  pub content : String
  pub tool_calls : List ToolCall
  pub tool_call_id : String
  pub usage : Option Usage
  pub content_parts : List ContentPart
  pub structured_content : String
  pub is_error : Bool

-- `input_schema` is the JSON text of the schema, which the program hands on unread.
pub record ToolDefinition : Type 0 where
  pub name : String
  pub description : String
  pub input_schema : String

-- bytes.TrimSpace and json.Valid, on JSON texts.
pub record Json : Type 0 where
  pub trim_space : String → String
  pub valid : String → Bool

pub normalize_tool_arguments : Json → String → String
normalize_tool_arguments j raw =
    let trimmed = j.trim_space raw in
    if str_eq trimmed "" || not (j.valid trimmed) then "{}" else trimmed

pub normalize_tool_call : Json → ToolCall → ToolCall
unfolding normalize_tool_arguments
normalize_tool_call j call = record call { arguments = normalize_tool_arguments j call.arguments }

unfoldable pub normalize_message : Json → Message → Message
unfolding normalize_tool_call
normalize_message j msg = record msg { tool_calls = map (normalize_tool_call j) msg.tool_calls }
