-- ===== src/Tests/Agents.antt =====
-- Concrete runs of the agent: pkg/services/agent and pkg/utils/words.
use morign.Base.{
  ℕ, suc, zero, ◌+◌, ◌≤◌, ◌<◌, ◌≡◌, refl, true, false, none, some, List, [], ◌∷◌, Text, codes,
  text_eq, Result, ok, ◌==◌, ltb, length, any_by, All, arith,
}
use morign.Llm.{
  Role, system, user, ToolCall, Message, blank_event, unsupported_type, Event, ChatResult,
}
use morign.Llm.Objects.{str, arr, obj, no_items, item, Fields, no_fields, field}
use morign.Agent.Truncate.{truncate_tool_result}
use morign.Agent.Truncate.Bounds.{truncate_tool_result-le-limit}
use morign.Agent.ToolCalls.{returned, Executor, tool_error_result, call_body, recovered, call_tool}
use morign.Agent.ToolCalls.Outcomes.{Reports, call_tool-Reports}
use morign.Agent.Batch.{next_seq, execute_tool_calls}
use morign.Agent.Batch.Schedule.{IsComplete}
use morign.Agent.Batch.Pairing.{
  plain, AllReport, execute_tool_calls-AllReport, IsPaired, paired_end, execute_tool_calls-IsPaired,
}
use morign.Agent.Stream.{StreamCallbacks}
use morign.Agent.Loop.{Config, consume, run, run_non_streaming}
use morign.Agent.Loop.Protocol.{IsOrderly, run-IsOrderly}
use morign.Agent.Loop.History.{AllBatchesEnd, run-IsPaired}
use morign.Agent.Loop.Modes.{stays, Tells, SameTrace, run-run_non_streaming}

abbrev greet : ToolCall
greet = record { id = codes "c1"; kind = codes "function"; name = codes "greet"; arguments = [] }

abbrev bad : ToolCall
bad = record { id = codes "c2"; kind = codes "plugin"; name = codes "bad"; arguments = [] }

abbrev reply_text : Fields
reply_text =
    field (codes "content")
      (arr (item (obj (field (codes "text") (str (codes "hello")) no_fields)) no_items)) no_fields

abbrev exec : Executor
exec = record {
  limit = 60;
  invoke = λ name parameters. returned record { duration_ms = 5; result = ok (some reply_text) };
  spiller = none;
  before_tool_call = none;
  after_tool_call = none;
  unmarshal = λ t. ok none;
  marshal = λ f. none;
  quote = λ t. t;
}

abbrev say : Role → Text → Message
say role content = record {
  role = role;
  content = content;
  thinking = [];
  tool_calls = [];
  tool_call_id = [];
}

abbrev history : List Message
history = say system (codes "s") ∷ say user (codes "u") ∷ []

history-IsPaired : IsPaired history
history-IsPaired =
    plain (say system (codes "s")) refl (λ e. cc e)
      (plain (say user (codes "u")) refl (λ e. cc e) paired_end)

abbrev both : List ToolCall
both = greet ∷ bad ∷ []

both_end : IsComplete both (1 ∷ 0 ∷ [])
both_end zero h = refl
both_end (suc zero) h = refl
both_end (suc (suc j)) h = absurd (omega arith)

both_end_in_order : IsComplete both (0 ∷ 1 ∷ [])
both_end_in_order zero h = refl
both_end_in_order (suc zero) h = refl
both_end_in_order (suc (suc j)) h = absurd (omega arith)

abbrev indices : List ToolCall → ℕ → List ℕ
indices [] k = []
indices (tc ∷ tcs) k = k ∷ indices tcs (k + 1)

indices_complete :
    (tcs : List ToolCall) (k j : ℕ)
    → k ≤ j
    → j < k + length tcs
    → any_by (λ i. i == j) (indices tcs k) ≡ true
indices_complete [] k j h h' = absurd (omega arith)
indices_complete (tc ∷ tcs) k j h h' = ground (arith, indices_complete tcs (k + 1) j)

abbrev call_event : Event
call_event = record blank_event {
  delta = codes "a";
  think = codes "t";
  tool_calls = greet ∷ [];
  stop_reason = codes "tool_calls";
  done = true;
}

abbrev last_event : Event
last_event = record blank_event {
  delta = codes "b";
  think = [];
  tool_calls = [];
  stop_reason = codes "stop";
  done = true;
}

abbrev streams : ℕ → List Message → List (Result Text Event)
streams zero ms = ok call_event ∷ []
streams (suc i) ms = ok last_event ∷ []

abbrev chats : ℕ → List Message → Result Text ChatResult
chats zero ms = ok (record { content = codes "a"; thinking = codes "t"; tool_calls = greet ∷ [] })
chats (suc i) ms = ok (record { content = codes "b"; thinking = []; tool_calls = [] })

abbrev cfg : Config
cfg = record {
  exec = exec;
  max_loop = 3;
  stream_chat = streams;
  chat = chats;
  order = λ i tcs. indices tcs 0;
}

cfg_ends : AllBatchesEnd cfg
cfg_ends i tcs j h = indices_complete tcs 0 j (omega arith) (omega arith)

run-IsPaired_example : All IsPaired (run cfg stays none history).chats
run-IsPaired_example = run-IsPaired cfg stays none history cfg_ends history-IsPaired

cfg-IsConsistent :
    (n i : ℕ) (ms : List Message) → Tells (consume stays n [] [] (streams i ms)) (chats i ms)
unfolding consume
cfg-IsConsistent n zero ms = (refl, refl, refl)
cfg-IsConsistent n (suc i) ms = (refl, refl, refl)

run-run_non_streaming_example :
    SameTrace (run cfg stays none history) (run_non_streaming cfg none history)
run-run_non_streaming_example = run-run_non_streaming cfg none history cfg-IsConsistent

run-IsOrderly_example : IsOrderly (λ n. ltb n 1) 0 (run cfg (λ n. ltb n 1) none history).outputs
run-IsOrderly_example = run-IsOrderly cfg (λ n. ltb n 1) none history

execute_tool_calls-AllReport_example :
    AllReport 3 both (execute_tool_calls exec (some 3) (1 ∷ 0 ∷ []) history both []).results
unfolding next_seq
execute_tool_calls-AllReport_example =
    execute_tool_calls-AllReport exec (some 3) (1 ∷ 0 ∷ []) history both [] both_end

execute_tool_calls-IsPaired_example :
    IsPaired (execute_tool_calls exec none (1 ∷ 0 ∷ []) history both []).messages
execute_tool_calls-IsPaired_example =
    execute_tool_calls-IsPaired exec none (1 ∷ 0 ∷ []) history both [] both_end history-IsPaired

call_tool-Reports_example :
    Reports bad 2 (tool_error_result exec bad unsupported_type (codes "plugin") 2 0)
unfolding call_tool call_body recovered text_eq
call_tool-Reports_example =
    call_tool-Reports exec bad 2 (tool_error_result exec bad unsupported_type (codes "plugin") 2 0)
      refl

truncate_tool_result-le-limit_example : length (truncate_tool_result 3 (codes "abcdef")) ≤ 3
truncate_tool_result-le-limit_example =
    truncate_tool_result-le-limit 3 (codes "abcdef") (omega arith)

abbrev no_thoughts : StreamCallbacks
no_thoughts = record { has_delta = true; has_think = false }
