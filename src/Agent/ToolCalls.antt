-- ===== src/Agent/ToolCalls.antt =====
-- pkg/services/agent/tool_executor.go and tool_seq.go: one tool call. What the executor is given
-- is the record `Executor`: the registry's `Invoke` with the time it took, the optional hooks and
-- the optional spiller, the limit of `truncateToolResult`, and of the Go library the JSON codec and
-- `%q`. A hook does not write to the map it is given. Logging is left out.
pub mod Outcomes
use morign.Base.{
  ℕ, zero, suc, ◌+◌, Bool, true, false, not, ◌||◌, Option, none, some, List, [], ◌∷◌, ◌++◌, Text,
  codes, text_eq, is_empty, if◌then◌else◌, Result, ok, err,
}
use morign.Llm.{
  ToolCall, ToolResult, ToolStatus, status_ok, status_error, status_rejected, ToolErrorCode,
  no_error, invalid_arguments, unsupported_type, panic, execution_failed, tool_error,
  permission_denied, rejected,
}
use morign.Llm.Objects.{
  Value, Items, Objects, Fields, boolean, arr, maps, obj, no_items, item, no_objects, object,
  no_fields, get_field, as_string, as_bool, as_object,
}
use morign.Agent.Truncate.{newline, truncate_tool_result}
use morign.Agent.ResultText.{format_tool_error, tool_result_text}

-- How a piece of Go code ends: it returns, panics with a message, or leaves its goroutine.
pub data Call (A : Type 0) : Type 0 where
  returned : A → Call A
  panicked : Text → Call A
  exited : Call A

infixl 5 ◌>>=◌
abbrev pub ◌>>=◌ : {A B : Type 0} → Call A → (A → Call B) → Call B
returned a >>= f = f a
panicked d >>= f = panicked d
exited >>= f = exited

-- ToolRecordSpill
pub record ToolRecordSpill : Type 0 where
  pub seq : ℕ
  pub call_id : Text
  pub tool_name : Text
  pub arguments : Text
  pub status : ToolStatus
  pub content : Text
  pub preview : Text
  pub spilled : Bool
  pub error_code : ToolErrorCode
  pub duration_ms : ℕ

pub record Invoked : Type 0 where
  pub duration_ms : ℕ
  pub result : Result Text (Option Fields)

-- ToolExecutor
pub record Executor : Type 0 where
  pub limit : ℕ
  pub invoke : Text → Fields → Call Invoked
  pub spiller : Option (ToolRecordSpill → Result Text Text)
  pub before_tool_call : Option (Text → Fields → Call (Bool × Text))
  pub after_tool_call : Option (Text → Option Fields → Call (Option Fields))
  pub unmarshal : Text → Result Text (Option Fields)
  pub marshal : Fields → Option Text
  pub quote : Text → Text

abbrev pub tool_name_tool_result_read : Text
tool_name_tool_result_read = codes "tool_result_read"

-- spillNotice
spill_notice : (Text → Text) → Text → Text
spill_notice quote handle =
    newline
    ++ (codes "[result truncated: call "
        ++ (tool_name_tool_result_read
            ++ (codes " with handle=" ++ (quote handle ++ codes " to read the rest]"))))

-- spillToolResult, after the guards: a failed write leaves the preview as it is.
append_handle : (Text → Text) → Text → Result Text Text → Text
append_handle quote preview (ok handle) = preview ++ spill_notice quote handle
append_handle quote preview (err e) = preview

-- spillToolResult
pub spill_tool_result :
    Executor → ToolCall → ℕ → Text → Text → ToolStatus → ToolErrorCode → ℕ → Text
unfolding append_handle spill_notice
spill_tool_result x tc seq args full status code duration_ms =
    let preview = truncate_tool_result x.limit full in
    elim x.spiller [
      | none ↦ preview
      | some spill ↦
          if text_eq preview full || text_eq tc.name tool_name_tool_result_read
          then preview
          else append_handle x.quote preview (
              spill (record {
                seq = seq;
                call_id = tc.id;
                tool_name = tc.name;
                arguments = args;
                status = status;
                content = full;
                preview = preview;
                spilled = true;
                error_code = code;
                duration_ms = duration_ms;
              }))
    ]

abbrev pub error_status : ToolErrorCode → ToolStatus
error_status rejected = status_rejected
error_status _ = status_error

-- toolErrorResult
unfoldable pub tool_error_result : Executor → ToolCall → ToolErrorCode → Text → ℕ → ℕ → ToolResult
tool_error_result x tc code detail seq duration_ms = record {
  call_id = tc.id;
  name = tc.name;
  content = truncate_tool_result x.limit (format_tool_error x.quote tc.name code detail);
  terminate = false;
  status = error_status code;
  error_code = code;
  arguments = tc.arguments;
  seq = seq;
  duration_ms = duration_ms;
}

-- mcps.IsToolError
pub is_tool_error : Option Fields → Bool
is_tool_error none = false
is_tool_error (some result) = elim (as_bool (get_field (codes "isError") result)) [
  | some b ↦ b
  | none ↦ false
]

-- The `terminate` entry of a result.
pub wants_terminate : Option Fields → Bool
wants_terminate none = false
wants_terminate (some result) = elim (as_bool (get_field (codes "terminate") result)) [
  | some b ↦ b
  | none ↦ false
]

-- The arguments as a map: an empty text, `{}` and `null` give the empty map.
unfoldable pub parse_parameters : Executor → Text → Result Text Fields
parse_parameters x args =
    if is_empty args || text_eq args (codes "{}") then ok no_fields else elim (x.unmarshal args) [
      | err e ↦ err e
      | ok none ↦ ok no_fields
      | ok (some fields) ↦ ok fields
    ]

-- BeforeToolCall, where it is set
pub run_before : Executor → ToolCall → Fields → Call (Bool × Text)
run_before x tc parameters = elim x.before_tool_call [
  | none ↦ returned (false, [])
  | some hook ↦ hook tc.name parameters
]

-- AfterToolCall, where it is set
pub run_after : Executor → ToolCall → Option Fields → Call (Option Fields)
run_after x tc content = elim x.after_tool_call [
  | none ↦ returned content
  | some hook ↦ hook tc.name content
]

-- The end of callTool, with the content that the after hook left.
pub finish_call : Executor → ToolCall → ℕ → ℕ → Option Fields → ToolResult
unfolding is_tool_error wants_terminate spill_tool_result
finish_call x tc seq duration_ms content =
    let failed = is_tool_error content in
    let status = if failed then status_error else status_ok in
    let code = if failed then tool_error else no_error in
    record {
      call_id = tc.id;
      name = tc.name;
      content =
          spill_tool_result x tc seq tc.arguments (tool_result_text x.marshal content) status code
            duration_ms;
      terminate = wants_terminate content;
      status = status;
      error_code = code;
      arguments = tc.arguments;
      seq = seq;
      duration_ms = duration_ms;
    }

-- callTool after the registry has answered.
pub after_invoke : Executor → ToolCall → ℕ → ℕ → Result Text (Option Fields) → Call ToolResult
unfolding finish_call run_after
after_invoke x tc seq duration_ms (err e) =
    returned (tool_error_result x tc execution_failed e seq duration_ms)
after_invoke x tc seq duration_ms (ok content) = do
  content' ← run_after x tc content
  returned (finish_call x tc seq duration_ms content')

-- callTool after the before hook has given its verdict.
pub after_verdict : Executor → ToolCall → ℕ → Fields → Bool → Text → Call ToolResult
unfolding after_invoke
after_verdict x tc seq parameters true reason =
    returned (tool_error_result x tc rejected reason seq 0)
after_verdict x tc seq parameters false reason = do
  invoked ← x.invoke tc.name parameters
  after_invoke x tc seq invoked.duration_ms invoked.result

-- callTool after its arguments have been read.
unfoldable pub after_parse : Executor → ToolCall → ℕ → Result Text Fields → Call ToolResult
unfolding after_verdict run_before
after_parse x tc seq (err e) = returned (tool_error_result x tc invalid_arguments e seq 0)
after_parse x tc seq (ok parameters) = do
  verdict ← run_before x tc parameters
  after_verdict x tc seq parameters verdict.0 verdict.1

-- The body of callTool, without its deferred function.
unfoldable pub call_body : Executor → ToolCall → ℕ → Call ToolResult
unfolding after_parse parse_parameters
call_body x tc seq =
    if not (text_eq tc.kind (codes "function"))
    then returned (tool_error_result x tc unsupported_type tc.kind seq 0)
    else after_parse x tc seq (parse_parameters x tc.arguments)

-- The deferred function: a panic becomes a result; a goroutine that is left stores none.
unfoldable pub recovered : Executor → ToolCall → ℕ → Call ToolResult → Option ToolResult
recovered x tc seq (returned r) = some r
recovered x tc seq (panicked detail) = some (tool_error_result x tc panic detail seq 0)
recovered x tc seq exited = none

-- callTool
unfoldable pub call_tool : Executor → ToolCall → ℕ → Option ToolResult
unfolding recovered call_body
call_tool x tc seq = recovered x tc seq (call_body x tc seq)
