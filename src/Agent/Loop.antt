-- ===== src/Agent/Loop.antt =====
-- pkg/services/agent/agent_loop.go: the loop of model calls and tool batches. The model is an
-- argument: what `StreamChat` yields, or `Chat` returns, at the n-th round for given messages. The
-- caller of `Run` is an argument: whether its loop body goes on after the n-th value it was given.
pub mod Protocol
pub mod History
pub mod Modes
use morign.Base.{
  ℕ, zero, suc, ◌+◌, ◌-◌, Bool, true, false, Option, none, some, List, [], ◌∷◌, ◌++◌, Text, codes,
  decimal, leb, is_empty, if◌then◌else◌, Result, ok, err, map,
}
use morign.Llm.{Message, ToolCall, Event, ChatResult}
use morign.Agent.ToolCalls.{Executor}
use morign.Agent.Batch.{Batch, execute_tool_calls, tool_result_event}

-- What `Run` yields.
pub data Output : Type 0 where
  event : Event → Output
  failure : Text → Output

-- Why a run ended.
pub data End : Type 0 where
  answered all_terminated exceeded failed abandoned : End

-- AgentLoopConfig, with what surrounds the loop: the order in which the goroutines of the n-th
-- batch end, and the counter of tool calls that the context may carry.
pub record Config : Type 0 where
  pub exec : Executor
  pub max_loop : ℕ
  pub stream_chat : ℕ → List Message → List (Result Text Event)
  pub chat : ℕ → List Message → Result Text ChatResult
  pub order : ℕ → List ToolCall → List ℕ

-- NewAgentLoop: the default stands before the options (WithMaxLoop) are applied.
abbrev pub default_max_loop : ℕ
default_max_loop = 5

abbrev apply_options : Config → List ℕ → Config
apply_options cfg [] = cfg
apply_options cfg (n ∷ ns) = apply_options (record cfg { max_loop = n }) ns

unfoldable pub new_agent_loop : Config → List ℕ → Config
new_agent_loop cfg opts =
    apply_options
      (record cfg { max_loop = if leb cfg.max_loop 0 then default_max_loop else cfg.max_loop }) opts

-- One round's stream: what has been yielded, how many values, the thoughts and the tool calls of
-- the last finished event, and why the stream ended early.
pub record Consumed : Type 0 where
  pub outputs : List Output
  pub yielded : ℕ
  pub round_think : Text
  pub tool_calls : List ToolCall
  pub stopped : Option End

exceeded_text : ℕ → Text
exceeded_text n = codes "max loop iterations (" ++ (decimal n ++ codes ") exceeded")

-- The inner `for event, err := range …StreamChat(…)`.
unfoldable pub consume : (ℕ → Bool) → ℕ → Text → List ToolCall → List (Result Text Event) → Consumed
consume accept n think calls [] = record {
  outputs = [];
  yielded = n;
  round_think = think;
  tool_calls = calls;
  stopped = none;
}
consume accept n think calls (err e ∷ rest) = record {
  outputs = failure (codes "stream chat: " ++ e) ∷ [];
  yielded = n + 1;
  round_think = think;
  tool_calls = calls;
  stopped = some failed;
}
consume accept n think calls (ok ev ∷ rest) =
    let later =
      consume accept (n + 1) (think ++ ev.think) (if ev.done then ev.tool_calls else calls) rest in
    if accept n then record later { outputs = event ev ∷ later.outputs } else record {
      outputs = event ev ∷ [];
      yielded = n + 1;
      round_think = think ++ ev.think;
      tool_calls = calls;
      stopped = some abandoned;
    }

-- The loop that yields the events of a batch; false if the caller left.
pub record Emitted : Type 0 where
  pub outputs : List Output
  pub yielded : ℕ
  pub going : Bool

pub emit : (ℕ → Bool) → ℕ → List Event → Emitted
emit accept n [] = record { outputs = []; yielded = n; going = true }
emit accept n (ev ∷ evs) =
    let later = emit accept (n + 1) evs in
    if accept n
    then record later { outputs = event ev ∷ later.outputs }
    else record { outputs = event ev ∷ []; yielded = n + 1; going = false }

-- What a run shows: the values it yielded, the messages of each model call, the results of each
-- batch, and its end.
pub record Run : Type 0 where
  pub outputs : List Output
  pub chats : List (List Message)
  pub batches : List Batch
  pub ending : End

abbrev pub ended : List Output → List (List Message) → List Batch → End → Run
ended outputs chats batches ending = record {
  outputs = outputs;
  chats = chats;
  batches = batches;
  ending = ending;
}

-- A run that goes on after one round.
abbrev pub after_round : List Output → List Message → Batch → Run → Run
after_round outputs messages batch later = record {
  outputs = outputs ++ later.outputs;
  chats = messages ∷ later.chats;
  batches = batch ∷ later.batches;
  ending = later.ending;
}

-- The branches of a round: the stream ended early, there are no tool calls, the caller left while
-- the batch's events were yielded, all tools asked to terminate, or the next round follows.
pub close_round :
    Option End
    → List ToolCall
    → (going terminate : Bool) → (streamed emitted : List Output) → List Message
    → Batch
    → Run
    → Run
close_round (some reason) calls going terminate streamed emitted messages b later =
    ended streamed (messages ∷ []) [] reason
close_round none [] going terminate streamed emitted messages b later =
    ended streamed (messages ∷ []) [] answered
close_round none (tc ∷ tcs) false terminate streamed emitted messages b later =
    ended (streamed ++ emitted) (messages ∷ []) (b ∷ []) abandoned
close_round none (tc ∷ tcs) true true streamed emitted messages b later =
    ended (streamed ++ emitted) (messages ∷ []) (b ∷ []) all_terminated
close_round none (tc ∷ tcs) true false streamed emitted messages b later =
    after_round (streamed ++ emitted) messages b later

-- Run: `rounds` iterations are left, `i` is the round's number and `n` counts the values yielded.
pub run_rounds : Config → (ℕ → Bool) → (rounds i n : ℕ) → Option ℕ → List Message → Run
run_rounds cfg accept zero i n counter messages =
    ended (failure (exceeded_text cfg.max_loop) ∷ []) [] [] exceeded
run_rounds cfg accept (suc rounds) i n counter messages =
    let c = consume accept n [] [] (cfg.stream_chat i messages) in
    let b =
      execute_tool_calls cfg.exec counter (cfg.order i c.tool_calls) messages c.tool_calls
        c.round_think in
    let e = emit accept c.yielded (map tool_result_event b.results) in
    let later = run_rounds cfg accept rounds (i + 1) e.yielded b.counter b.messages in
    close_round c.stopped c.tool_calls e.going b.all_terminate c.outputs e.outputs messages b later

-- Run
pub run : Config → (ℕ → Bool) → Option ℕ → List Message → Run
unfolding run_rounds consume emit close_round
run cfg accept counter messages = run_rounds cfg accept cfg.max_loop 0 0 counter messages

-- What RunNonStreaming returns, with the messages of each model call and the batches, whose events
-- go to `OnToolResult`.
pub record Answer : Type 0 where
  pub result : Result Text Text
  pub chats : List (List Message)
  pub batches : List Batch

abbrev pub after_batch : List Message → Batch → Answer → Answer
after_batch messages batch later = record {
  result = later.result;
  chats = messages ∷ later.chats;
  batches = batch ∷ later.batches;
}

-- The branches of a round that `Chat` answered.
pub close_chat : List ToolCall → Bool → Text → List Message → Batch → Answer → Answer
close_chat [] terminate content messages b later = record {
  result = ok content;
  chats = messages ∷ [];
  batches = [];
}
close_chat (tc ∷ tcs) true content messages b later = record {
  result = ok content;
  chats = messages ∷ [];
  batches = b ∷ [];
}
close_chat (tc ∷ tcs) false content messages b later = after_batch messages b later

pub chat_rounds : Config → (rounds i : ℕ) → Option ℕ → List Message → Answer
chat_rounds cfg zero i counter messages = record {
  result = err (exceeded_text cfg.max_loop);
  chats = [];
  batches = [];
}
chat_rounds cfg (suc rounds) i counter messages = elim (cfg.chat i messages) [
  | err e ↦ record { result = err (codes "chat: " ++ e); chats = messages ∷ []; batches = [] }
  | ok r ↦
      let b =
        execute_tool_calls cfg.exec counter (cfg.order i r.tool_calls) messages r.tool_calls
          r.thinking in
      let later = chat_rounds cfg rounds (i + 1) b.counter b.messages in
      close_chat r.tool_calls b.all_terminate r.content messages b later
]

-- RunNonStreaming
pub run_non_streaming : Config → Option ℕ → List Message → Answer
unfolding chat_rounds close_chat
run_non_streaming cfg counter messages = chat_rounds cfg cfg.max_loop 0 counter messages
