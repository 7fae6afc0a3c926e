-- ===== src/Agent/Batch.antt =====
-- pkg/services/agent/tool_executor.go and tool_seq.go: a batch of calls, which run concurrently and
-- store their results by index. `order` is the order in which the goroutines end.
pub mod Schedule
pub mod Pairing
use morign.Base.{
  ℕ, zero, suc, ◌+◌, Bool, false, Option, none, some, List, [], ◌∷◌, ◌++◌, Text, codes, length,
  get_elem?, set, all_by,
}
use morign.Llm.{
  Message, ToolCall, ToolResult, Event, blank_event, assistant, tool, execution_failed,
}
use morign.Agent.ToolCalls.{Executor, call_tool, tool_error_result}

abbrev pub Slots : Type 0
Slots = List (Option ToolResult)

-- `make([]*llm.Event, n)`
abbrev pub blank : List ToolCall → Slots
blank [] = []
blank (tc ∷ tcs) = none ∷ blank tcs

-- ToolSeqCounter.Next: the start of the batch, and the counter after it.
unfoldable pub next_seq : ℕ → ℕ → ℕ × ℕ
next_seq n count = (n, n + count)

-- `seqBase`: 0 where the context has no counter.
abbrev pub seq_base : Option ℕ → ℕ → ℕ
seq_base none count = 0
seq_base (some n) count = (next_seq n count).0

abbrev pub advance : Option ℕ → ℕ → Option ℕ
advance none count = none
advance (some n) count = some (next_seq n count).1

-- The goroutine of the call `i`.
unfoldable pub run_slot : Executor → ℕ → List ToolCall → ℕ → Slots → Slots
run_slot x base tcs i slots = elim (get_elem? tcs i) [
  | none ↦ slots
  | some tc ↦ set slots i (call_tool x tc (base + i))
]

-- All goroutines, in the order in which they end; `wg.Wait` comes after the last.
unfoldable pub run_slots : Executor → ℕ → List ToolCall → List ℕ → Slots → Slots
run_slots x base tcs [] slots = slots
run_slots x base tcs (i ∷ order) slots = run_slots x base tcs order (run_slot x base tcs i slots)

-- A slot that no goroutine filled gets an error result.
unfoldable pub filled : Executor → ToolCall → ℕ → Option ToolResult → ToolResult
filled x tc seq (some r) = r
filled x tc seq none =
    tool_error_result x tc execution_failed (codes "tool call did not complete") seq 0

-- The loop that collects the results in the order of the calls.
unfoldable pub collect : Executor → ℕ → List ToolCall → Slots → List ToolResult
unfolding filled
collect x seq [] slots = []
collect x seq (tc ∷ tcs) [] = []
collect x seq (tc ∷ tcs) (slot ∷ slots) = filled x tc seq slot ∷ collect x (seq + 1) tcs slots

-- toolResultEvent
unfoldable pub tool_result_event : ToolResult → Event
tool_result_event r = record blank_event { author = r.name; tool_result = some r }

unfoldable pub tool_messages : List ToolCall → List ToolResult → List Message
tool_messages [] rs = []
tool_messages (tc ∷ tcs) [] = []
tool_messages (tc ∷ tcs) (r ∷ rs) =
    record {
      role = tool;
      content = r.content;
      thinking = [];
      tool_calls = [];
      tool_call_id = tc.id;
    }
    ∷ tool_messages tcs rs

unfoldable pub assistant_message : List ToolCall → Text → Message
assistant_message tcs think = record {
  role = assistant;
  content = [];
  thinking = think;
  tool_calls = tcs;
  tool_call_id = [];
}

pub record Batch : Type 0 where
  pub results : List ToolResult
  pub messages : List Message
  pub all_terminate : Bool
  pub counter : Option ℕ

-- ExecuteToolCalls
unfoldable pub execute_tool_calls :
    Executor → Option ℕ → List ℕ → List Message → List ToolCall → Text → Batch
execute_tool_calls x counter order messages [] think = record {
  results = [];
  messages = messages;
  all_terminate = false;
  counter = counter;
}
execute_tool_calls x counter order messages (tc ∷ tcs) think =
    let calls = tc ∷ tcs in
    let base = seq_base counter (length calls) in
    let results = collect x base calls (run_slots x base calls order (blank calls)) in
    record {
      results = results;
      messages = messages ++ (assistant_message calls think ∷ tool_messages calls results);
      all_terminate = all_by (λ r. r.terminate) results;
      counter = advance counter (length calls);
    }
