-- ===== src/Runner/Adapters.antt =====
-- pkg/services/stores/event_adapter.go: the stores that the runner is given. The state is that of
-- one session: its Redis history, and the rows that its events make. A metadata map merges by
-- adding its pairs; `now` is the time that an item gets.
use morign.Base.{
  ℕ, Bool, false, Option, none, some, List, [], ◌∷◌, ◌++◌, Text, codes, text_eq, if◌then◌else◌,
  length,
}
use morign.Llm.{Event, Usage, ToolResult}
use morign.Llm.Objects.{Fields, no_fields, field}
use morign.Agent.ToolCalls.{ToolRecordSpill}
use morign.History.{Faults, HistoryItem, add_history}
use morign.Records.{Context, Table, RecordError, upsert_tool_record}
use morign.Records
use morign.Runner.{SessionStore, HistoryStore}

-- MessageBasic, as the row that CreateMessage makes of it.
pub record MessageRow : Type 0 where
  pub role : Text
  pub content : Text
  pub turn_id : ℕ
  pub owner_id : ℕ

-- UsageRecordBasic
pub record UsageRow : Type 0 where
  pub input_tokens : ℕ
  pub output_tokens : ℕ
  pub total_tokens : ℕ
  pub model : Text

pub record State : Type 0 where
  pub items : List HistoryItem
  pub message_count : ℕ
  pub messages : List MessageRow
  pub records : Table
  pub usages : List UsageRow
  pub meta : Fields

-- Which calls fail: `save` is SaveSession, `message` is CreateMessage, `usage` is
-- CreateUsageRecord, `session` is UpdateSession. `text_of` is the text of a record error.
pub record Outside : Type 0 where
  pub now : ℕ
  pub context : Context
  pub redis : Faults
  pub redis_error : Text
  pub llen_fails : Bool
  pub records : Records.Faults
  pub text_of : RecordError → Text
  pub save : Option Text
  pub message : Option Text
  pub usage : Option Text
  pub session : Option Text

abbrev turn_of : Context → ℕ
turn_of ctx = elim ctx.turn [ none ↦ 0 | some t ↦ t ]

unfoldable pub add_row : Option Text → State → MessageRow → State × Option Text
add_row (some e) s row = (s, some e)
add_row none s row = (record s { messages = s.messages ++ (row ∷ []) }, none)

-- appendMessage: nothing for an empty text.
unfoldable pub append_message : Outside → State → Text → Text → State × Option Text
unfolding add_row
append_message x s role [] = (s, none)
append_message x s role (c ∷ content) = add_row x.message s (record {
  role = role;
  content = c ∷ content;
  turn_id = turn_of x.context;
  owner_id = x.context.owner;
})

-- appendToolRecord
abbrev pub spill_of : ToolResult → ToolRecordSpill
spill_of tr = record {
  seq = tr.seq;
  call_id = tr.call_id;
  tool_name = tr.name;
  arguments = tr.arguments;
  status = tr.status;
  content = tr.content;
  preview = tr.content;
  spilled = false;
  error_code = tr.error_code;
  duration_ms = tr.duration_ms;
}

unfoldable pub append_tool_record : Outside → State → ToolResult → State × Option Text
unfolding upsert_tool_record
append_tool_record x s tr =
    let r = upsert_tool_record x.records s.records x.context (spill_of tr) in
    (record s { records = r.0 }, elim r.1 [ none ↦ none | some e ↦ some (x.text_of e) ])

abbrev pub item_of : Outside → Event → HistoryItem
item_of x ev = record {
  time = x.now;
  uid = ev.user_id;
  chat_item = some (record { user = ev.user_prompt; assistant = ev.delta; think = ev.think });
}

-- The second of the two messages, after the first.
unfoldable pub then_message : Outside → Text → Text → State × Option Text → State × Option Text
then_message x role content (s, some e) = (s, some e)
then_message x role content (s, none) = append_message x s role content

-- The rows of the question and the answer.
unfoldable pub append_both : Outside → State → Event → State × Option Text
unfolding append_message then_message
append_both x s ev =
    then_message x (codes "assistant") ev.delta (append_message x s (codes "user") ev.user_prompt)

abbrev counted : Outside → State → State
counted x s = record s { message_count = if x.llen_fails then 0 else length s.items }

-- The rows, after Save, which counts the history.
unfoldable pub after_save : Outside → State → Event → Option Text → State × Option Text
unfolding append_both
after_save x s ev (some e) = (s, some e)
after_save x s ev none = append_both x (counted x s) ev

-- The event of an assistant: into the history, and into the rows.
unfoldable pub append_answer : Outside → State → Event → State × Option Text
unfolding add_history after_save
append_answer x s ev =
    let r = add_history x.redis s.items (item_of x ev) in
    if r.1
    then after_save x (record s { items = r.0 }) ev x.save
    else (record s { items = r.0 }, some x.redis_error)

unfoldable pub append_result_or : Outside → State → Event → Option ToolResult → State × Option Text
unfolding append_tool_record append_message append_answer
append_result_or x s ev (some tr) = append_tool_record x s tr
append_result_or x s ev none =
    if text_eq ev.author (codes "user")
    then append_message x s (codes "user") ev.delta
    else append_answer x s ev

-- AppendEvent
unfoldable pub append_event : Outside → State → Event → State × Option Text
unfolding append_result_or
append_event x s ev = append_result_or x s ev ev.tool_result

-- CreateUsageRecord
unfoldable pub create_usage_record : Outside → State → Event → Usage → State × Option Text
create_usage_record x s ev u = elim x.usage [
  | some e ↦ (s, some e)
  | none ↦
      let row : UsageRow = record {
        input_tokens = u.input_tokens;
        output_tokens = u.output_tokens;
        total_tokens = u.total_tokens;
        model = ev.model;
      } in
      (record s { usages = s.usages ++ (row ∷ []) }, none)
]

abbrev pub add_pairs : Fields → Fields → Fields
add_pairs no_fields meta = meta
add_pairs (field key value rest) meta = field key value (add_pairs rest meta)

-- MergeDelta
unfoldable pub merge_delta : Outside → State → Fields → State × Option Text
merge_delta x s no_fields = (s, none)
merge_delta x s (field key value rest) = elim x.session [
  | some e ↦ (s, some e)
  | none ↦ (record s { meta = add_pairs (field key value rest) s.meta }, none)
]

-- NewHistoryStore
unfoldable pub new_history_store : Outside → HistoryStore State
unfolding append_event create_usage_record
new_history_store x = record {
  append_event = append_event x;
  create_usage_record = create_usage_record x;
}

-- NewSessionStore
unfoldable pub new_session_store : Outside → SessionStore State
unfolding merge_delta
new_session_store x = record { merge_delta = merge_delta x }
