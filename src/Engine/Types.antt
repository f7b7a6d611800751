-- ===== src/Engine/Types.antt =====
-- The values and the collaborator interfaces of internal/engine/target.go. A collaborator works on
-- a world of the caller's choice, which holds the state that the Go objects keep.
use foxharness.Prelude.{ℕ, String, Bool, true, false, List, Option, none}
use foxharness.Schema.{Message, ToolCall, ToolDefinition, Usage, ContentPart, Json}

-- The errors that the engine makes, the sentinel that it recognises, and those of collaborators.
pub data Error : Type 0 where
  prompt_too_long : Error
  failure : String → Error
  wrapped : String → Error → Error
  turns_exceeded : ℕ → Error
  result_count : ℕ → ℕ → Error
  call_id_mismatch : ℕ → String → String → Error

-- errors.Is(err, ErrPromptTooLong).
abbrev pub is_prompt_too_long : Error → Bool
is_prompt_too_long prompt_too_long = true
is_prompt_too_long (wrapped m e) = is_prompt_too_long e
is_prompt_too_long _ = false

pub data Result {ℓ} (A : Type ℓ) : Type ℓ where
  ok : A → Result A
  err : Error → Result A

-- What a factory returns: a collaborator for this run, a nil one, or an error.
pub data Started {ℓ} (A : Type ℓ) : Type ℓ where
  started : A → Started A
  nil_started : Started A
  start_failed : Error → Started A

pub data Phase : Type 0 where
  no_phase action thinking : Phase

pub record RunInput : Type 0 where
  pub prompt : String
  pub max_turns : ℕ
  pub thinking_enabled : Bool

pub record RunContext : Type 0 where
  pub turn : ℕ
  pub phase : Phase
  pub messages : List Message
  pub tool_definitions : List ToolDefinition
  pub model : String
  pub provider : String
  pub effort : String

pub record ModelResult : Type 0 where
  pub message : Message
  pub finish_reason : String
  pub usage : Usage

pub data ModelFactKind : Type 0 where
  message_delta_fact : ModelFactKind
  other_model_fact : String → ModelFactKind

pub record ModelFact : Type 0 where
  pub kind : ModelFactKind
  pub content : String

pub record ToolExecutionResult : Type 0 where
  pub call_id : String
  pub full_content : String
  pub model_content : String
  pub observer_content : String
  pub artifact_path : String
  pub is_error : Bool
  pub content_parts : List ContentPart
  pub structured_content : String

pub data ChangeKind : Type 0 where
  append_message append_context_message : ChangeKind

pub data ChangeSource : Type 0 where
  no_source thinking_source recovery_source reminder_source next_turn_source : ChangeSource
  completion_gate_source todo_gate_source : ChangeSource

pub record ConversationChange : Type 0 where
  pub kind : ChangeKind
  pub source : ChangeSource
  pub message : Message
  pub turn : ℕ

pub data Preparation : Type 0 where
  normal reactive : Preparation

pub record ConversationRequest : Type 0 where
  pub input : RunInput
  pub turn : ℕ
  pub phase : Phase
  pub tool_definitions : List ToolDefinition
  pub preparation : Preparation

pub record Compaction : Type 0 where
  pub trigger : String
  pub before_messages : ℕ
  pub after_messages : ℕ

pub record Projection : Type 0 where
  pub context : RunContext
  pub compactions : List Compaction

pub record ToolState : Type 0 where
  pub turn : ℕ
  pub calls : List ToolCall
  pub results : List ToolExecutionResult

-- `terminal_err` is none for a terminal decision that carries no error.
pub record PolicyTerminal : Type 0 where
  pub terminal_err : Option Error
  pub partial : Bool

pub record TurnDecision : Type 0 where
  pub complete : Bool
  pub changes : List ConversationChange
  pub terminal : Option PolicyTerminal

pub data FactKind : Type 0 where
  run_started message_fact message_delta thinking_fact compaction_fact : FactKind
  system_reminder error_recovery tool_call tool_result run_completed run_error : FactKind

pub record Fact : Type 0 where
  pub kind : FactKind
  pub sequence : ℕ
  pub turn : ℕ
  pub phase : Phase
  pub call_id : String
  pub name : String
  pub content : String
  pub full_content : String
  pub artifact_path : String
  pub is_error : Bool
  pub before_messages : ℕ
  pub after_messages : ℕ

-- The composite literal Fact{Kind: k}, its other fields at their zero values.
abbrev pub fact : FactKind → Fact
fact k = record {
  kind = k;
  sequence = 0;
  turn = 0;
  phase = no_phase;
  call_id = "";
  name = "";
  content = "";
  full_content = "";
  artifact_path = "";
  is_error = false;
  before_messages = 0;
  after_messages = 0;
}

-- The values that RunOutcome.ErrorKind takes; `no_error` is the empty string.
pub data ErrorKind : Type 0 where
  no_error configuration policy_error provider_error tool_error : ErrorKind
  conversation_error turn_limit : ErrorKind

pub record RunOutcome : Type 0 where
  pub final_message : String
  pub finish_reason : String
  pub turn_count : ℕ
  pub usage : Usage
  pub partial : Bool
  pub error_kind : ErrorKind
  pub error : Option Error

-- RunOutcome{}.
abbrev pub empty_outcome : RunOutcome
empty_outcome = record {
  final_message = "";
  finish_reason = "";
  turn_count = 0;
  usage = record {
    input_tokens = 0;
    output_tokens = 0;
    cache_creation_tokens = 0;
    cache_read_tokens = 0;
  };
  partial = false;
  error_kind = no_error;
  error = none;
}

-- A tool snapshot: its definitions, and the handle by which the executor knows it again.
pub record ToolSnapshot : Type 0 where
  pub definitions : List ToolDefinition
  pub handle : ℕ

module _ (W : Type 0) where
  -- The run invokers of one run keep their state in the world. An invocation hands back the facts
  -- that it emitted, in order.
  pub record ModelInvoker : Type 0 where
    pub start_run : W → Started (Unit {0}) × W
    pub invoke : RunContext → W → List ModelFact × Result ModelResult × W

  -- `begin_turn` is none for an executor that is no TurnBoundaryToolExecutor.
  pub record ToolExecutor : Type 0 where
    pub begin_turn : Option (W → Option Error × W)
    pub snapshot : W → Started ToolSnapshot × W
    pub execute : ToolSnapshot → List ToolCall → W → Result (List ToolExecutionResult) × W

  pub record Conversation : Type 0 where
    pub prepare : ConversationRequest → W → Result Projection × W
    pub request_changes : List ConversationChange → W → Option Error × W

  pub record TurnPolicy : Type 0 where
    pub start_run : RunInput → W → Started (Unit {0}) × W
    pub before_turn : ℕ → W → Result (List ConversationChange) × W
    pub after_model : ℕ → ModelResult → W → Result TurnDecision × W
    pub after_tools : ToolState → W → Result (List ConversationChange) × W

  pub record Observer : Type 0 where
    pub observe : Fact → W → W

-- A collaborator field that may be nil; `render` is Error(), `json` the tests of package json.
pub record AgentEngine (W : Type 0) : Type 0 where
  pub model : Option (ModelInvoker W)
  pub tools : Option (ToolExecutor W)
  pub conversation : Option (Conversation W)
  pub policy : Option (TurnPolicy W)
  pub observer : Option (Observer W)
  pub render : Error → String
  pub json : Json

-- The collaborators of an engine that passed `validate`.
pub record Ready (W : Type 0) : Type 0 where
  pub model : ModelInvoker W
  pub tools : ToolExecutor W
  pub conversation : Conversation W
  pub policy : TurnPolicy W
  pub observer : Option (Observer W)
  pub render : Error → String
  pub json : Json
