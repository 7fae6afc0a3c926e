-- ===== src/Provider/Anthropic.antt =====
-- pkg/services/llm/anthropic.go: the stream of Anthropic. `parse` stands for the JSON decoding of
-- one event of the stream. An event has the tool calls and the usage as they are when it is
-- pushed.
pub mod Delivery
pub mod Collect
pub mod Convert
pub mod Answered
use morign.Base.{
  ℕ, ◌+◌, Bool, true, false, not, ◌&&◌, Option, none, some, List, [], ◌∷◌, ◌++◌, Text, codes,
  is_empty, text_eq, if◌then◌else◌, has_prefix, trim_space, drop, ℤ, int_text,
}
use morign.Llm.{ToolCall, Event, blank_event, Usage, finish_reason_tool_calls}
use morign.Provider.{has_suffix, trim_slashes, ReadEnd, eof, broken, authored}
use morign.Agent.Loop.{Output, event, failure}

-- anthropicUsage
pub record AnthropicUsage : Type 0 where
  pub input_tokens : ℕ
  pub output_tokens : ℕ

-- toUsage
unfoldable pub to_usage : Option AnthropicUsage → Option Usage
to_usage none = none
to_usage (some au) = some (record {
  input_tokens = au.input_tokens;
  output_tokens = au.output_tokens;
  total_tokens = au.input_tokens + au.output_tokens;
})

pub record ContentBlock : Type 0 where
  pub kind : Text
  pub id : Text
  pub name : Text

pub record Delta : Type 0 where
  pub kind : Text
  pub text : Text
  pub thinking : Text
  pub partial_json : Text
  pub stop_reason : Text

pub record StartMessage : Type 0 where
  pub id : Text
  pub model : Text
  pub usage : Option AnthropicUsage

-- streamEvent
pub record StreamEvent : Type 0 where
  pub kind : Text
  pub index : ℤ
  pub content_block : Option ContentBlock
  pub delta : Delta
  pub message : Option StartMessage
  pub usage : Option AnthropicUsage

-- anthropicStreamState, and the tool calls, the text and the thoughts so far.
pub record StreamState : Type 0 where
  pub stop_reason : Text
  pub usage : Option Usage
  pub tool_calls : List ToolCall

abbrev pub fresh : StreamState
fresh = record { stop_reason = []; usage = none; tool_calls = [] }

-- What one event of the stream leads to: nothing is pushed, or an event is pushed and the answer of
-- the caller decides whether the stream goes on, or is not looked at, or the stream ends.
pub data Step : Type 0 where
  quiet : StreamState → Step
  push_checked push_unchecked : Event → StreamState → Step
  push_last : Event → Step

abbrev pub tool_use_start : ℤ → ContentBlock → ToolCall
tool_use_start index block = record {
  id = if is_empty block.id then codes "toolu_" ++ int_text index else block.id;
  kind = codes "function";
  name = block.name;
  arguments = [];
}

-- `content_block_start`
unfoldable pub start_block : StreamState → ℤ → Option ContentBlock → StreamState
start_block st index none = st
start_block st index (some block) =
    if text_eq block.kind (codes "tool_use")
    then record st { tool_calls = st.tool_calls ++ (tool_use_start index block ∷ []) }
    else st

-- The arguments of the last tool call grow.
unfoldable pub append_arguments : List ToolCall → Text → List ToolCall
append_arguments [] json = []
append_arguments (tc ∷ []) json = record tc { arguments = tc.arguments ++ json } ∷ []
append_arguments (tc ∷ (next ∷ tcs)) json = tc ∷ append_arguments (next ∷ tcs) json

-- `input_json_delta`: nothing is added for an empty part, or for one that begins with `"thinking`.
abbrev pub is_argument_part : Text → Bool
is_argument_part json =
    not (is_empty json) && not (has_prefix (trim_space json) (0x22 ∷ codes "thinking"))

unfoldable pub add_json : StreamState → Text → StreamState
unfolding append_arguments
add_json st json =
    if is_argument_part json
    then record st { tool_calls = append_arguments st.tool_calls json }
    else st

-- `content_block_delta`
unfoldable pub delta_step : StreamState → Delta → Step
unfolding add_json
delta_step st d =
    if text_eq d.kind (codes "text_delta")
    then push_checked (record blank_event { delta = d.text; tool_calls = st.tool_calls }) st
    else if text_eq d.kind (codes "thinking_delta")
    then push_checked (record blank_event { think = d.thinking }) st
    else if text_eq d.kind (codes "input_json_delta")
    then quiet (add_json st d.partial_json)
    else quiet st

abbrev pub normal_stop_reason : Text → List ToolCall → Text
normal_stop_reason reason [] = if text_eq reason (codes "end_turn") then codes "stop" else reason
normal_stop_reason reason (tc ∷ tcs) =
    if text_eq reason (codes "end_turn") then codes "stop" else finish_reason_tool_calls

-- The output tokens are joined to the input tokens of the start.
unfoldable pub merge_usage : Option Usage → Option Usage → Option Usage
merge_usage old none = old
merge_usage none (some u) = some (record {
  input_tokens = 0;
  output_tokens = u.output_tokens;
  total_tokens = 0 + u.output_tokens;
})
merge_usage (some o) (some u) = some (record {
  input_tokens = o.input_tokens;
  output_tokens = u.output_tokens;
  total_tokens = o.input_tokens + u.output_tokens;
})

-- `message_delta`
unfoldable pub message_delta_step : StreamState → StreamEvent → Step
unfolding merge_usage to_usage
message_delta_step st se =
    let reason = normal_stop_reason se.delta.stop_reason st.tool_calls in
    let st' : StreamState = record st {
      stop_reason = reason;
      usage = merge_usage st.usage (to_usage se.usage);
    } in
    push_checked
      (record blank_event { tool_calls = st'.tool_calls; stop_reason = reason; usage = st'.usage })
      st'

-- `message_start`: what push returns is dropped.
unfoldable pub start_step : StreamState → Option StartMessage → Step
start_step st none = quiet st
start_step st (some m) =
    let usage' : Option Usage = elim m.usage [
      | none ↦ st.usage
      | some u ↦ some (record {
        input_tokens = u.input_tokens;
        output_tokens = 0;
        total_tokens = u.input_tokens;
      })
    ] in
    push_unchecked (record blank_event { model = m.model; response_id = m.id; usage = usage' })
      (record st { usage = usage' })

-- handleStreamEvent
unfoldable pub handle_stream_event : StreamState → StreamEvent → Step
unfolding start_block delta_step message_delta_step start_step
handle_stream_event st se =
    if text_eq se.kind (codes "content_block_start")
    then quiet (start_block st se.index se.content_block)
    else if text_eq se.kind (codes "content_block_delta")
    then delta_step st se.delta
    else if text_eq se.kind (codes "message_delta")
    then message_delta_step st se
    else if text_eq se.kind (codes "message_stop")
    then push_last (record blank_event {
      done = true;
      tool_calls = st.tool_calls;
      stop_reason = st.stop_reason;
      usage = st.usage;
    })
    else if text_eq se.kind (codes "message_start")
    then start_step st se.message
    else quiet st

-- The event at the end of the lines, or at the mark of the end: it has no tool calls.
abbrev pub end_event : StreamState → Event
end_event st = record blank_event { done = true; stop_reason = st.stop_reason; usage = st.usage }

-- What a line is: not an event, the mark of the end, or an event.
pub data Line : Type 0 where
  skipped finished : Line
  event_line : StreamEvent → Line

unfoldable pub read_data : (Text → Option StreamEvent) → Text → Line
read_data parse data' =
    if text_eq data' (codes "[DONE]")
    then finished
    else elim (parse data') [ none ↦ skipped | some se ↦ event_line se ]

unfoldable pub read_line : (Text → Option StreamEvent) → Text → Line
unfolding read_data
read_line parse raw =
    let line = trim_space raw in
    if has_prefix line (codes "data:") then read_data parse (trim_space (drop 5 line)) else skipped

-- What a step leads to, where `later` is what follows from the state that it leaves.
unfoldable pub after_step : (ℕ → Bool) → ℕ → Step → (ℕ → StreamState → List Output) → List Output
after_step accept n (quiet st) later = later n st
after_step accept n (push_checked ev st) later =
    event (authored ev) ∷ (if accept n then later (n + 1) st else [])
after_step accept n (push_unchecked ev st) later = event (authored ev) ∷ later (n + 1) st
after_step accept n (push_last ev) later = event (authored ev) ∷ []

-- What is yielded at the end of the lines.
unfoldable pub at_end : StreamState → ReadEnd → List Output
at_end st eof = event (authored (end_event st)) ∷ []
at_end st (broken e) = failure (codes "read: " ++ e) ∷ []

-- What one line leads to.
unfoldable pub after_line :
    (ℕ → Bool) → ℕ → StreamState → Line → (ℕ → StreamState → List Output) → List Output
unfolding after_step handle_stream_event
after_line accept n st skipped later = later n st
after_line accept n st finished later = event (authored (end_event st)) ∷ []
after_line accept n st (event_line se) later = after_step accept n (handle_stream_event st se) later

-- parseStreamResponse, from the n-th value on.
unfoldable pub parse_lines :
    (Text → Option StreamEvent) → (ℕ → Bool) → ReadEnd → List Text → ℕ → StreamState → List Output
unfolding at_end after_line read_line
parse_lines parse accept end [] n st = at_end st end
parse_lines parse accept end (raw ∷ lines) n st =
    after_line accept n st (read_line parse raw) (parse_lines parse accept end lines)

-- What the exchange gives before the body is read: an error, or the lines of the body.
pub data Response : Type 0 where
  no_response : Text → Response
  body : List Text → ReadEnd → Response

-- StreamChat
unfoldable pub stream_chat : (Text → Option StreamEvent) → (ℕ → Bool) → Response → List Output
unfolding parse_lines
stream_chat parse accept (no_response e) = failure e ∷ []
stream_chat parse accept (body lines end) = parse_lines parse accept end lines 0 fresh
