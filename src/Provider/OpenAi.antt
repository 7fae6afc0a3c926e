-- ===== src/Provider/OpenAi.antt =====
-- pkg/services/llm/openai.go: the stream of OpenAI and of the providers that speak like it, the
-- reading of a whole response, and the endpoint. `decode` stands for the JSON decoding of a chunk,
-- `unquote` for that of a JSON string. An event has the tool calls as they are when it is pushed.
pub mod Delivery
pub mod Indices
use morign.Base.{
  zero, suc, ◌&&◌, ◌||◌, ℕ, ◌+◌, Bool, true, false, not, Option, none, some, List, [], ◌∷◌, ◌++◌,
  map, Text, codes, is_empty, text_eq, if◌then◌else◌, has_prefix, trim_space, drop, length, ltb,
  ◌==◌, ℤ, pos, negsuc, Result, ok, err,
}
use morign.Llm.{ToolCall, Event, blank_event, Usage, ChatResult}
use morign.Provider.{has_suffix, trim_slashes, ReadEnd, eof, broken, authored}
use morign.Agent.Loop.{Output, event, failure}

-- openaiUsage, without the counts of the cache, which are not read.
pub record OpenAiUsage : Type 0 where
  pub prompt_tokens : ℕ
  pub completion_tokens : ℕ
  pub total_tokens : ℕ

-- toUsage
unfoldable pub to_usage : Option OpenAiUsage → Option Usage
to_usage none = none
to_usage (some ou) = some (record {
  input_tokens = ou.prompt_tokens;
  output_tokens = ou.completion_tokens;
  total_tokens = ou.total_tokens;
})

pub record CallDelta : Type 0 where
  pub id : Text
  pub kind : Text
  pub index : ℤ
  pub name : Text
  pub arguments : Text

-- A choice with its delta.
pub record Choice : Type 0 where
  pub content : Text
  pub reasoning_content : Text
  pub tool_calls : List CallDelta
  pub finish_reason : Text

pub record Chunk : Type 0 where
  pub choices : List Choice
  pub model : Text
  pub id : Text
  pub usage : Option OpenAiUsage

abbrev pub grown_call : ToolCall → CallDelta → ToolCall
grown_call tc d = record tc { name = tc.name ++ d.name; arguments = tc.arguments ++ d.arguments }

abbrev pub new_call : CallDelta → ToolCall
new_call d = record { id = d.id; kind = d.kind; name = []; arguments = [] }

-- The call at an index grows; nothing when there is none.
unfoldable pub grow_at : List ToolCall → ℕ → CallDelta → Option (List ToolCall)
grow_at [] i d = none
grow_at (tc ∷ tcs) zero d = some (grown_call tc d ∷ tcs)
grow_at (tc ∷ tcs) (suc i) d =
    let rest = grow_at tcs i d in elim rest [ none ↦ none | some tcs' ↦ some (tc ∷ tcs') ]

-- One delta of a call. A call that is not there is appended first; an index that is still out of
-- range stops the program.
unfoldable pub accumulate_one : List ToolCall → CallDelta → ℤ → Option (List ToolCall)
unfolding grow_at
accumulate_one calls d (pos i) =
    if ltb i (length calls) then grow_at calls i d else grow_at (calls ++ (new_call d ∷ [])) i d
accumulate_one calls d (negsuc i) = none

unfoldable pub accumulate : List ToolCall → List CallDelta → Option (List ToolCall)
unfolding accumulate_one
accumulate calls [] = some calls
accumulate calls (d ∷ ds) = elim (accumulate_one calls d d.index) [
  | none ↦ none
  | some calls' ↦ accumulate calls' ds
]

abbrev no_deltas : List CallDelta → Bool
no_deltas [] = true
no_deltas (d ∷ ds) = false

-- Does the stream end: the reason to finish, or a chunk without calls after some.
unfoldable pub should_end : Choice → List ToolCall → Bool
should_end c [] = not (is_empty c.finish_reason)
should_end c (tc ∷ tcs) = not (is_empty c.finish_reason) || no_deltas c.tool_calls

unfoldable pub chunk_event : Chunk → Choice → List ToolCall → Event
unfolding to_usage should_end
chunk_event chunk c calls = record blank_event {
  delta = c.content;
  think = c.reasoning_content;
  tool_calls = calls;
  stop_reason = c.finish_reason;
  model = chunk.model;
  response_id = chunk.id;
  usage = to_usage chunk.usage;
  done = should_end c calls;
}

abbrev pub done_event : Event
done_event = record blank_event { done = true }

-- What a line is.
pub data Line : Type 0 where
  skipped finished : Line
  unreadable : Text → Line
  chunk_line : Chunk → Line

-- `bytes.TrimLeft(s, " \t")`
unfoldable pub trim_blanks : Text → Text
trim_blanks [] = []
trim_blanks (c ∷ s) = let rest = trim_blanks s in if c == 0x20 || c == 0x09 then rest else c ∷ s

unfoldable pub read_data : (Text → Result Text Chunk) → Text → Line
read_data decode data' =
    if text_eq data' (codes "[DONE]")
    then finished
    else elim (decode data') [ err e ↦ unreadable e | ok chunk ↦ chunk_line chunk ]

unfoldable pub read_line : (Text → Result Text Chunk) → Text → Line
unfolding read_data trim_blanks
read_line decode raw =
    let line = trim_space raw in
    if has_prefix line (codes "data:")
    then read_data decode (trim_blanks (drop 5 line))
    else skipped

-- What the stream yields, and whether it stops the program after that.
pub record Run : Type 0 where
  pub outputs : List Output
  pub panicked : Bool

abbrev returned : List Output → Run
returned os = record { outputs = os; panicked = false }

-- The stream goes on after a value that the caller stayed for.
unfoldable pub go_on : Output → Run → Run
go_on o r = record r { outputs = o ∷ r.outputs }

-- A chunk with a choice, where `later` is what follows for the calls so far.
unfoldable pub after_choice :
    (ℕ → Bool) → ℕ → Chunk → Choice → Option (List ToolCall) → (ℕ → List ToolCall → Run) → Run
unfolding chunk_event go_on
after_choice accept n chunk c none later = record { outputs = []; panicked = true }
after_choice accept n chunk c (some calls) later =
    let o = event (authored (chunk_event chunk c calls)) in
    if accept n && not (should_end c calls)
    then go_on o (later (n + 1) calls)
    else returned (o ∷ [])

unfoldable pub after_chunk :
    (ℕ → Bool) → ℕ → List ToolCall → Chunk → List Choice → (ℕ → List ToolCall → Run) → Run
unfolding accumulate after_choice
after_chunk accept n calls chunk [] later = later n calls
after_chunk accept n calls chunk (c ∷ cs) later =
    after_choice accept n chunk c (accumulate calls c.tool_calls) later

unfoldable pub after_line : (ℕ → Bool) → ℕ → List ToolCall → Line → (ℕ → List ToolCall → Run) → Run
unfolding after_chunk
after_line accept n calls skipped later = later n calls
after_line accept n calls finished later = returned (event (authored done_event) ∷ [])
after_line accept n calls (unreadable e) later =
    returned (failure (codes "parse chunk: " ++ e) ∷ [])
after_line accept n calls (chunk_line chunk) later =
    after_chunk accept n calls chunk chunk.choices later

unfoldable pub at_end : ReadEnd → Run
at_end eof = returned (event (authored done_event) ∷ [])
at_end (broken e) = returned (failure (codes "read: " ++ e) ∷ [])

-- parseStreamResponse, with what StreamChat makes of its error, from the n-th value on.
unfoldable pub parse_chunks :
    (Text → Result Text Chunk) → (ℕ → Bool) → ReadEnd → List Text → ℕ → List ToolCall → Run
unfolding at_end after_line read_line
parse_chunks decode accept end [] n calls = at_end end
parse_chunks decode accept end (raw ∷ lines) n calls =
    after_line accept n calls (read_line decode raw) (parse_chunks decode accept end lines)

-- A message of a whole response.
pub record ResponseMessage : Type 0 where
  pub content : Text
  pub reasoning_content : Text
  pub tool_calls : List ToolCall

-- Arguments that are a JSON string are taken out of it.
unfoldable pub unwrap_arguments : (Text → Option Text) → Text → Text
unwrap_arguments unquote [] = []
unwrap_arguments unquote (c ∷ args) =
    if c == 0x22 then elim (unquote (c ∷ args)) [ none ↦ c ∷ args | some s ↦ s ] else c ∷ args

unfoldable pub read_calls : (Text → Option Text) → List ToolCall → List ToolCall
unfolding unwrap_arguments
read_calls unquote [] = []
read_calls unquote (tc ∷ tcs) =
    record tc { arguments = unwrap_arguments unquote tc.arguments } ∷ read_calls unquote tcs

-- Chat, on the decoded body: the choices and the usage.
unfoldable pub chat :
    (Text → Option Text)
    → Result Text (List ResponseMessage × Option OpenAiUsage)
    → Result Text (ChatResult × Option Usage)
unfolding read_calls to_usage
chat unquote (err e) = err (codes "parse response: " ++ e)
chat unquote (ok ([], ou)) = err (codes "no choices in response")
chat unquote (ok (m ∷ ms, ou)) = ok (
  record { content = m.content; thinking = []; tool_calls = read_calls unquote m.tool_calls },
  to_usage ou,
)

-- buildEndpoint
unfoldable pub build_endpoint : Text → Text → Text
unfolding has_suffix trim_slashes
build_endpoint base_url path =
    let trimmed = trim_slashes base_url in
    let base = if is_empty trimmed then codes "https://api.openai.com/v1" else trimmed in
    if has_suffix base (codes "/v1") || has_suffix base (codes "/v1beta")
    then base ++ path
    else base ++ codes "/v1" ++ path
