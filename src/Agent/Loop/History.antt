-- ===== src/Agent/Loop/History.antt =====
-- What a run sends to the model: histories in which every tool call is answered exactly once.
use morign.Base.{
  ℕ, zero, suc, ◌+◌, ◌≡◌, refl, Bool, true, false, Option, none, some, List, [], ◌∷◌, ◌++◌, Text,
  All, length, map, arith,
}
use mathlib.Core.List.{append-nil}
use mathlib.Core.Path.{subst, sym, ap}
use morign.Agent.ToolCalls.{Executor}
use morign.Llm.{Message, ToolCall, ToolResult}
use morign.Agent.Batch.{Batch, next_seq, execute_tool_calls, tool_result_event}
use morign.Agent.Batch.Schedule.{IsComplete}
use morign.Agent.Batch.Pairing.{
  IsPaired, AllReport, execute_tool_calls-IsPaired, execute_tool_calls-AllReport,
}
use morign.Agent.Loop.{Output, End, Config, consume, emit, Run, close_round, run_rounds, run}

-- Every goroutine of every batch ends.
abbrev pub AllBatchesEnd : Config → Type 0
AllBatchesEnd cfg = (i : ℕ) (tcs : List ToolCall) → IsComplete tcs (cfg.order i tcs)

close_round-IsPaired :
    (stopped : Option End) (calls : List ToolCall) (going terminate : Bool)
    (streamed emitted : List Output) (messages : List Message) (b : Batch) (later : Run)
    → IsPaired messages
    → All IsPaired later.chats
    → All IsPaired
        (close_round stopped calls going terminate streamed emitted messages b later).chats
unfolding close_round
close_round-IsPaired (some r) calls g t s e msgs b later p h = (p, tt)
close_round-IsPaired none [] g t s e msgs b later p h = (p, tt)
close_round-IsPaired none (tc ∷ tcs) false t s e msgs b later p h = (p, tt)
close_round-IsPaired none (tc ∷ tcs) true true s e msgs b later p h = (p, tt)
close_round-IsPaired none (tc ∷ tcs) true false s e msgs b later p h = (p, h)

run_rounds-IsPaired :
    (cfg : Config) (accept : ℕ → Bool) (rounds i n : ℕ) (counter : Option ℕ)
    (messages : List Message)
    → AllBatchesEnd cfg
    → IsPaired messages
    → All IsPaired (run_rounds cfg accept rounds i n counter messages).chats
unfolding run_rounds
run_rounds-IsPaired cfg accept zero i n counter messages ends p = tt
run_rounds-IsPaired cfg accept (suc rounds) i n counter messages ends p =
    let c = consume accept n [] [] (cfg.stream_chat i messages) in
    let order = cfg.order i c.tool_calls in
    let b = execute_tool_calls cfg.exec counter order messages c.tool_calls c.round_think in
    let e = emit accept c.yielded (map tool_result_event b.results) in
    close_round-IsPaired c.stopped c.tool_calls e.going b.all_terminate c.outputs e.outputs messages
      b (run_rounds cfg accept rounds (i + 1) e.yielded b.counter b.messages) p
      (run_rounds-IsPaired cfg accept rounds (i + 1) e.yielded b.counter b.messages ends (
        execute_tool_calls-IsPaired cfg.exec counter order messages c.tool_calls c.round_think
          (ends i c.tool_calls) p))

-- When every goroutine of every batch ends, each request of a run to the model is a paired
-- history, if the run began with one.
pub run-IsPaired :
    (cfg : Config) (accept : ℕ → Bool) (counter : Option ℕ) (messages : List Message)
    → AllBatchesEnd cfg
    → IsPaired messages
    → All IsPaired (run cfg accept counter messages).chats
unfolding run
run-IsPaired cfg accept counter messages ends p =
    run_rounds-IsPaired cfg accept cfg.max_loop 0 0 counter messages ends p

-- The results of all batches, in their order.
abbrev pub all_results : List Batch → List ToolResult
all_results [] = []
all_results (b ∷ bs) = b.results ++ all_results bs

-- The results are numbered from `n` on without a gap.
abbrev pub IsNumbered : ℕ → List ToolResult → Type 0
IsNumbered n [] = Unit
IsNumbered n (r ∷ rs) = (r.seq ≡ n) × IsNumbered (n + 1) rs

IsNumbered-of_report :
    (n : ℕ) (tcs : List ToolCall) (rs : List ToolResult) → AllReport n tcs rs → IsNumbered n rs
IsNumbered-of_report n [] [] h = tt
IsNumbered-of_report n [] (r ∷ rs) h = absurd h
IsNumbered-of_report n (tc ∷ tcs) [] h = absurd h
IsNumbered-of_report n (tc ∷ tcs) (r ∷ rs) h = (h.0.at_seq, IsNumbered-of_report (n + 1) tcs rs h.1)

length_of_report :
    (n : ℕ) (tcs : List ToolCall) (rs : List ToolResult)
    → AllReport n tcs rs
    → length rs ≡ length tcs
length_of_report n [] [] h = refl
length_of_report n [] (r ∷ rs) h = absurd h
length_of_report n (tc ∷ tcs) [] h = absurd h
length_of_report n (tc ∷ tcs) (r ∷ rs) h = omega (arith, length_of_report (n + 1) tcs rs h.1)

IsNumbered-append :
    (n m : ℕ) (xs ys : List ToolResult)
    → m ≡ n + length xs
    → IsNumbered n xs
    → IsNumbered m ys
    → IsNumbered n (xs ++ ys)
IsNumbered-append n m [] ys e h k =
    let same : m ≡ n = omega arith in subst (λ j. IsNumbered j ys) same k
IsNumbered-append n m (x ∷ xs) ys e h k =
    (h.0, IsNumbered-append (n + 1) m xs ys (omega arith) h.1 k)

batch_counter :
    (x : Executor) (n : ℕ) (order : List ℕ) (messages : List Message) (tcs : List ToolCall)
    (think : Text)
    → (execute_tool_calls x (some n) order messages tcs think).counter ≡ some (n + length tcs)
unfolding execute_tool_calls next_seq
batch_counter x n order messages [] think = let e : n ≡ n + 0 = omega arith in ap some e
batch_counter x n order messages (tc ∷ tcs) think = refl

close_round-IsNumbered :
    (stopped : Option End) (calls : List ToolCall) (going terminate : Bool)
    (streamed emitted : List Output) (messages : List Message) (b : Batch) (later : Run) (n m : ℕ)
    → IsNumbered n b.results
    → m ≡ n + length b.results
    → IsNumbered m (all_results later.batches)
    → IsNumbered n (
        all_results
          (close_round stopped calls going terminate streamed emitted messages b later).batches)
unfolding close_round
close_round-IsNumbered (some r) calls g t s e msgs b later n m h k l = tt
close_round-IsNumbered none [] g t s e msgs b later n m h k l = tt
close_round-IsNumbered none (tc ∷ tcs) false t s e msgs b later n m h k l = rw append-nil h
close_round-IsNumbered none (tc ∷ tcs) true true s e msgs b later n m h k l = rw append-nil h
close_round-IsNumbered none (tc ∷ tcs) true false s e msgs b later n m h k l =
    IsNumbered-append n m b.results (all_results later.batches) k h l

run_rounds-IsNumbered :
    (cfg : Config) (accept : ℕ → Bool) (rounds i j n : ℕ) (messages : List Message)
    → AllBatchesEnd cfg
    → IsNumbered n (all_results (run_rounds cfg accept rounds i j (some n) messages).batches)
unfolding run_rounds next_seq
run_rounds-IsNumbered cfg accept zero i j n messages ends = tt
run_rounds-IsNumbered cfg accept (suc rounds) i j n messages ends =
    let c = consume accept j [] [] (cfg.stream_chat i messages) in
    let order = cfg.order i c.tool_calls in
    let b = execute_tool_calls cfg.exec (some n) order messages c.tool_calls c.round_think in
    let e = emit accept c.yielded (map tool_result_event b.results) in
    let reports : AllReport n c.tool_calls b.results =
      execute_tool_calls-AllReport cfg.exec (some n) order messages c.tool_calls c.round_think
        (ends i c.tool_calls) in
    let m = n + length c.tool_calls in
    close_round-IsNumbered c.stopped c.tool_calls e.going b.all_terminate c.outputs e.outputs
      messages b (run_rounds cfg accept rounds (i + 1) e.yielded b.counter b.messages) n m
      (IsNumbered-of_report n c.tool_calls b.results reports)
      (omega (arith, length_of_report n c.tool_calls b.results reports))
      (subst
        (λ k.
          IsNumbered m
            (all_results (run_rounds cfg accept rounds (i + 1) e.yielded k b.messages).batches))
        (sym (batch_counter cfg.exec n order messages c.tool_calls c.round_think))
        (run_rounds-IsNumbered cfg accept rounds (i + 1) e.yielded m b.messages ends))

-- When every goroutine of every batch ends and the context has a counter, the tool results over
-- all rounds of a run are numbered from the counter on, without a gap and in the order of the
-- calls.
pub run-IsNumbered :
    (cfg : Config) (accept : ℕ → Bool) (n : ℕ) (messages : List Message)
    → AllBatchesEnd cfg
    → IsNumbered n (all_results (run cfg accept (some n) messages).batches)
unfolding run
run-IsNumbered cfg accept n messages ends =
    run_rounds-IsNumbered cfg accept cfg.max_loop 0 0 n messages ends
