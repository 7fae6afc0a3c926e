-- ===== src/Agent/Loop/Modes.antt =====
-- The streaming and the non-streaming loop make the same model calls and the same batches.
use morign.Base.{
  ℕ, zero, suc, ◌+◌, ◌≡◌, refl, Bool, true, false, Option, none, some, List, [], ◌∷◌, Text, map,
  Result, ok, err, Result-cases, inl, inr,
}
use mathlib.Core.Path.{subst, ap}
use morign.Llm.{Message, ToolCall, Event, ChatResult}
use morign.Agent.Batch.{Batch, execute_tool_calls, tool_result_event}
use morign.Agent.Loop.{
  Output, End, exceeded, failed, Config, Consumed, consume, emit, Run, ended, close_round,
  run_rounds, run, Answer, close_chat, chat_rounds, run_non_streaming,
}

abbrev pub stays : ℕ → Bool
stays n = true

-- A stream tells what `Chat` returns: it ends with the same tool calls and thoughts, or it fails.
abbrev pub Tells : Consumed → Result Text ChatResult → Type 0
Tells c (ok r) = (c.stopped ≡ none) × (c.tool_calls ≡ r.tool_calls) × (c.round_think ≡ r.thinking)
Tells c (err e) = c.stopped ≡ some failed

-- Each stream of the model tells what `Chat` returns for the same round and messages.
abbrev pub IsConsistent : Config → Type 0
IsConsistent cfg =
    (n i : ℕ) (messages : List Message)
    → Tells (consume stays n [] [] (cfg.stream_chat i messages)) (cfg.chat i messages)

-- Both modes saw the same.
abbrev pub SameTrace : Run → Answer → Type 0
SameTrace s a = (s.chats ≡ a.chats) × (s.batches ≡ a.batches)

emit-stays : (n : ℕ) (evs : List Event) → (emit stays n evs).going ≡ true
unfolding emit
emit-stays n [] = refl
emit-stays n (ev ∷ evs) = emit-stays (n + 1) evs

close_same :
    (calls : List ToolCall) (terminate : Bool) (streamed emitted : List Output) (content : Text)
    (messages : List Message) (b : Batch) (later : Run) (later' : Answer)
    → SameTrace later later'
    → SameTrace
        (close_round none calls true terminate streamed emitted messages b later)
        (close_chat calls terminate content messages b later')
unfolding close_round close_chat
close_same [] t s e content msgs b later later' h = (refl, refl)
close_same (tc ∷ tcs) true s e content msgs b later later' h = (refl, refl)
close_same (tc ∷ tcs) false s e content msgs b later later' h =
    (ap (λ cs. msgs ∷ cs) h.0, ap (λ bs. b ∷ bs) h.1)

chat_step_ok :
    (cfg : Config) (rounds i : ℕ) (counter : Option ℕ) (messages : List Message) (r : ChatResult)
    → cfg.chat i messages ≡ ok r
    → chat_rounds cfg (suc rounds) i counter messages ≡ (
        let b =
          execute_tool_calls cfg.exec counter
            (cfg.order i r.tool_calls)
            messages
            r.tool_calls
            r.thinking in
        close_chat r.tool_calls b.all_terminate r.content messages b
          (chat_rounds cfg rounds (i + 1) b.counter b.messages))
unfolding chat_rounds
chat_step_ok cfg rounds i counter messages r e = rw (e, chat_rounds)

chat_step_err :
    (cfg : Config) (rounds i : ℕ) (counter : Option ℕ) (messages : List Message) (e : Text)
    → cfg.chat i messages ≡ err e
    → SameTrace
        (ended [] (messages ∷ []) [] failed)
        (chat_rounds cfg (suc rounds) i counter messages)
unfolding chat_rounds
chat_step_err cfg rounds i counter messages e told = rw (told, chat_rounds) (refl, refl)

round_same :
    (cfg : Config) (rounds i : ℕ) (counter : Option ℕ) (messages : List Message)
    (stopped : Option End) (calls : List ToolCall) (think : Text) (streamed : List Output)
    (yielded : ℕ) (r : ChatResult)
    → stopped ≡ none
    → calls ≡ r.tool_calls
    → think ≡ r.thinking
    → ((n : ℕ) (counter' : Option ℕ) (messages' : List Message)
        → SameTrace
            (run_rounds cfg stays rounds (i + 1) n counter' messages')
            (chat_rounds cfg rounds (i + 1) counter' messages'))
    → let b = execute_tool_calls cfg.exec counter (cfg.order i calls) messages calls think in
      let e = emit stays yielded (map tool_result_event b.results) in
      let b' =
        execute_tool_calls cfg.exec counter
          (cfg.order i r.tool_calls)
          messages
          r.tool_calls
          r.thinking in
      SameTrace
        (close_round stopped calls e.going b.all_terminate streamed e.outputs messages b
          (run_rounds cfg stays rounds (i + 1) e.yielded b.counter b.messages))
        (close_chat r.tool_calls b'.all_terminate r.content messages b'
          (chat_rounds cfg rounds (i + 1) b'.counter b'.messages))
round_same cfg rounds i counter messages stopped calls think streamed yielded r p q t ih =
    let b =
      execute_tool_calls cfg.exec counter (cfg.order i r.tool_calls) messages r.tool_calls
        r.thinking in
    let e = emit stays yielded (map tool_result_event b.results) in
    rw (p, q, t, emit-stays yielded (map tool_result_event b.results))
      (close_same r.tool_calls b.all_terminate streamed e.outputs r.content messages b _ _
        (ih e.yielded b.counter b.messages))

failed_same :
    (stopped : Option End) (calls : List ToolCall) (g t : Bool) (s e : List Output)
    (messages : List Message) (b : Batch) (later : Run) (a : Answer)
    → stopped ≡ some failed
    → SameTrace (ended [] (messages ∷ []) [] failed) a
    → SameTrace (close_round stopped calls g t s e messages b later) a
unfolding close_round
failed_same (some r) calls g t s e messages b later a p h = h
failed_same none calls g t s e messages b later a p h = cc

chat_exceeded :
    (cfg : Config) (i : ℕ) (counter : Option ℕ) (messages : List Message)
    → SameTrace (ended [] [] [] exceeded) (chat_rounds cfg zero i counter messages)
unfolding chat_rounds
chat_exceeded cfg i counter messages = (refl, refl)

rounds_same :
    (cfg : Config) (rounds i n : ℕ) (counter : Option ℕ) (messages : List Message)
    → IsConsistent cfg
    → SameTrace
        (run_rounds cfg stays rounds i n counter messages)
        (chat_rounds cfg rounds i counter messages)
unfolding run_rounds
rounds_same cfg zero i n counter messages same = chat_exceeded cfg i counter messages
rounds_same cfg (suc rounds) i n counter messages same =
    let c = consume stays n [] [] (cfg.stream_chat i messages) in
    elim (Result-cases (cfg.chat i messages)) [
      | inl (r, told) ↦
          let t : Tells c (ok r) = subst (λ a. Tells c a) told (same n i messages) in
          rw (chat_step_ok cfg rounds i counter messages r told) (
            round_same cfg rounds i counter messages c.stopped c.tool_calls c.round_think c.outputs
              c.yielded r t.0 t.1 t.2
              (λ n' counter' messages'. rounds_same cfg rounds (i + 1) n' counter' messages' same))
      | inr (e, told) ↦
          let t : Tells c (err e) = subst (λ a. Tells c a) told (same n i messages) in
          failed_same c.stopped c.tool_calls _ _ c.outputs _ messages _ _
            (chat_rounds cfg (suc rounds) i counter messages) t
            (chat_step_err cfg rounds i counter messages e told)
    ]

-- For a model that streams what it would return, and a caller that stays, both loops send the same
-- messages to the model, in the same number of calls, and run the same batches.
pub run-run_non_streaming :
    (cfg : Config) (counter : Option ℕ) (messages : List Message)
    → IsConsistent cfg
    → SameTrace (run cfg stays counter messages) (run_non_streaming cfg counter messages)
unfolding run run_non_streaming
run-run_non_streaming cfg counter messages same =
    rounds_same cfg cfg.max_loop 0 0 counter messages same
