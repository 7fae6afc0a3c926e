-- ===== src/Llm.antt =====
-- pkg/services/llm/types.go and event.go: the messages, tool calls, tool results and events that
-- the agent passes round, and the JSON objects that a tool takes and returns. Identifiers, times,
-- counts of messages and metadata are left out.
pub mod Objects
pub mod Preview
use morign.Base.{ℕ, Bool, false, Option, none, List, [], Text, codes, length, ltb}
use morign.Llm.Objects.{Fields, no_fields}

-- MessageRole
pub data Role : Type 0 where
  system user assistant tool : Role
  other_role : Text → Role

-- ToolCall with its ToolCallFunc
pub record ToolCall : Type 0 where
  pub id : Text
  pub kind : Text  -- `Type` of the source
  pub name : Text
  pub arguments : Text

-- Message
pub record Message : Type 0 where
  pub role : Role
  pub content : Text
  pub thinking : Text
  pub tool_calls : List ToolCall
  pub tool_call_id : Text

-- ToolStatusOK, ToolStatusError, ToolStatusRejected
pub data ToolStatus : Type 0 where
  status_ok status_error status_rejected : ToolStatus

-- ToolError*, and `no_error` for the empty code of a call that went well.
pub data ToolErrorCode : Type 0 where
  no_error invalid_arguments unsupported_type panic execution_failed tool_error : ToolErrorCode
  permission_denied rejected : ToolErrorCode

-- ToolResult
pub record ToolResult : Type 0 where
  pub call_id : Text
  pub name : Text
  pub content : Text
  pub terminate : Bool
  pub status : ToolStatus
  pub error_code : ToolErrorCode
  pub arguments : Text
  pub seq : ℕ
  pub duration_ms : ℕ

-- Usage
pub record Usage : Type 0 where
  pub input_tokens : ℕ
  pub output_tokens : ℕ
  pub total_tokens : ℕ

-- Event, with the state delta of its EventActions.
pub record Event : Type 0 where
  pub author : Text
  pub delta : Text
  pub think : Text
  pub tool_calls : List ToolCall
  pub stop_reason : Text
  pub done : Bool
  pub tool_result : Option ToolResult
  pub user_id : Text
  pub user_prompt : Text
  pub usage : Option Usage
  pub model : Text
  pub response_id : Text
  pub state_delta : Fields

-- `Event{}`
abbrev pub blank_event : Event
blank_event = record {
  author = [];
  delta = [];
  think = [];
  tool_calls = [];
  stop_reason = [];
  done = false;
  tool_result = none;
  user_id = [];
  user_prompt = [];
  usage = none;
  model = [];
  response_id = [];
  state_delta = no_fields;
}

-- FinishReasonToolCalls
abbrev pub finish_reason_tool_calls : Text
finish_reason_tool_calls = codes "tool_calls"

-- ChatResult; its usage is telemetry.
pub record ChatResult : Type 0 where
  pub content : Text
  pub thinking : Text
  pub tool_calls : List ToolCall

-- HasToolCalls
unfoldable pub has_tool_calls : ChatResult → Bool
has_tool_calls r = ltb 0 (length r.tool_calls)
