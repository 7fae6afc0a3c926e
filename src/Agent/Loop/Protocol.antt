-- ===== src/Agent/Loop/Protocol.antt =====
-- The caller's side of a run: no value is yielded after the caller has left the range loop.
use morign.Base.{
  ℕ, zero, suc, ◌+◌, ◌≡◌, refl, Bool, true, false, Option, none, some, List, [], ◌∷◌, ◌++◌, Text,
  length, map, arith, Result, ok, err, length-append, Bool-cases, inl, inr, if◌then◌else◌,
}
use mathlib.Core.Path.{subst}
use morign.Llm.{Message, ToolCall, Event}
use morign.Agent.Batch.{Batch, execute_tool_calls, tool_result_event}
use morign.Agent.Loop.{
  Output, End, Config, Consumed, Emitted, consume, emit, Run, close_round, run_rounds, run,
}

abbrev IsCons : List Output → Type 0
IsCons [] = ⊥
IsCons (o ∷ os) = Unit

-- The caller went on after each value that another one follows.
abbrev pub IsOrderly : (ℕ → Bool) → ℕ → List Output → Type 0
IsOrderly accept n [] = Unit
IsOrderly accept n (o ∷ os) = (IsCons os → accept n ≡ true) × IsOrderly accept (n + 1) os

-- The caller went on after every value.
abbrev IsAccepted : (ℕ → Bool) → ℕ → List Output → Type 0
IsAccepted accept n [] = Unit
IsAccepted accept n (o ∷ os) = (accept n ≡ true) × IsAccepted accept (n + 1) os

module _ (accept : ℕ → Bool) where
  IsOrderly-of_IsAccepted :
      (n : ℕ) (os : List Output) → IsAccepted accept n os → IsOrderly accept n os
  IsOrderly-of_IsAccepted n [] h = tt
  IsOrderly-of_IsAccepted n (o ∷ os) h = (λ _. h.0, IsOrderly-of_IsAccepted (n + 1) os h.1)

  IsOrderly-append :
      (n m : ℕ) (xs ys : List Output)
      → m ≡ n + length xs
      → IsAccepted accept n xs
      → IsOrderly accept m ys
      → IsOrderly accept n (xs ++ ys)
  IsOrderly-append n m [] ys e h k =
      let same : m ≡ n = omega arith in subst (λ j. IsOrderly accept j ys) same k
  IsOrderly-append n m (x ∷ xs) ys e h k =
      (λ _. h.0, IsOrderly-append (n + 1) m xs ys (omega arith) h.1 k)

  IsAccepted-append :
      (n m : ℕ) (xs ys : List Output)
      → m ≡ n + length xs
      → IsAccepted accept n xs
      → IsAccepted accept m ys
      → IsAccepted accept n (xs ++ ys)
  IsAccepted-append n m [] ys e h k =
      let same : m ≡ n = omega arith in subst (λ j. IsAccepted accept j ys) same k
  IsAccepted-append n m (x ∷ xs) ys e h k =
      (h.0, IsAccepted-append (n + 1) m xs ys (omega arith) h.1 k)

  record ConsumedWell (n : ℕ) (c : Consumed) : Type 0 where
    counted : c.yielded ≡ n + length c.outputs
    orderly : IsOrderly accept n c.outputs
    accepted : c.stopped ≡ none → IsAccepted accept n c.outputs

  consume_well :
      (n : ℕ) (think : Text) (calls : List ToolCall) (stream : List (Result Text Event))
      → ConsumedWell n (consume accept n think calls stream)
  unfolding consume
  consume_well n think calls [] = record { counted = omega arith; orderly = tt; accepted = λ _. tt }
  consume_well n think calls (err e ∷ rest) = record {
    counted = omega arith;
    orderly = (λ k. absurd k, tt);
    accepted = λ k. cc;
  }
  consume_well n think calls (ok ev ∷ rest) =
      let ih =
        consume_well (n + 1) (think ++ ev.think) (if ev.done then ev.tool_calls else calls) rest in
      elim (Bool-cases (accept n)) [
        | inl e ↦ rw e (record {
          counted = omega (arith, ih.counted);
          orderly = (λ _. e, ih.orderly);
          accepted = λ s. (e, ih.accepted s);
        })
        | inr e ↦
            rw e
              (record { counted = omega arith; orderly = (λ k. absurd k, tt); accepted = λ k. cc })
      ]

  record EmittedWell (n : ℕ) (e : Emitted) : Type 0 where
    counted : e.yielded ≡ n + length e.outputs
    orderly : IsOrderly accept n e.outputs
    accepted : e.going ≡ true → IsAccepted accept n e.outputs

  emit_well : (n : ℕ) (evs : List Event) → EmittedWell n (emit accept n evs)
  unfolding emit
  emit_well n [] = record { counted = omega arith; orderly = tt; accepted = λ _. tt }
  emit_well n (ev ∷ evs) =
      let ih = emit_well (n + 1) evs in
      elim (Bool-cases (accept n)) [
        | inl e ↦ rw e (record {
          counted = omega (arith, ih.counted);
          orderly = (λ _. e, ih.orderly);
          accepted = λ s. (e, ih.accepted s);
        })
        | inr e ↦
            rw e
              (record { counted = omega arith; orderly = (λ k. absurd k, tt); accepted = λ k. cc })
      ]

  close_round-IsOrderly :
      (stopped : Option End) (calls : List ToolCall) (going terminate : Bool) (n m k : ℕ)
      (streamed emitted : List Output) (messages : List Message) (b : Batch) (later : Run)
      → IsOrderly accept n streamed
      → (stopped ≡ none → IsAccepted accept n streamed)
      → m ≡ n + length streamed
      → IsOrderly accept m emitted
      → (going ≡ true → IsAccepted accept m emitted)
      → k ≡ m + length emitted
      → IsOrderly accept k later.outputs
      → IsOrderly accept n
          (close_round stopped calls going terminate streamed emitted messages b later).outputs
  unfolding close_round
  close_round-IsOrderly (some r) calls g t n m k s e msgs b later os acc em oe ae ek ol = os
  close_round-IsOrderly none [] g t n m k s e msgs b later os acc em oe ae ek ol = os
  close_round-IsOrderly none (tc ∷ tcs) false t n m k s e msgs b later os acc em oe ae ek ol =
      IsOrderly-append n m s e em (acc refl) oe
  close_round-IsOrderly none (tc ∷ tcs) true true n m k s e msgs b later os acc em oe ae ek ol =
      IsOrderly-append n m s e em (acc refl) oe
  close_round-IsOrderly none (tc ∷ tcs) true false n m k s e msgs b later os acc em oe ae ek ol =
      IsOrderly-append n k (s ++ e) later.outputs (omega (arith, length-append {0} s e))
        (IsAccepted-append n m s e em (acc refl) (ae refl)) ol

  run_rounds-IsOrderly :
      (cfg : Config) (rounds i n : ℕ) (counter : Option ℕ) (messages : List Message)
      → IsOrderly accept n (run_rounds cfg accept rounds i n counter messages).outputs
  unfolding run_rounds
  run_rounds-IsOrderly cfg zero i n counter messages = (λ k. absurd k, tt)
  run_rounds-IsOrderly cfg (suc rounds) i n counter messages =
      let c = consume accept n [] [] (cfg.stream_chat i messages) in
      let cw = consume_well n [] [] (cfg.stream_chat i messages) in
      let b =
        execute_tool_calls cfg.exec counter (cfg.order i c.tool_calls) messages c.tool_calls
          c.round_think in
      let e = emit accept c.yielded (map tool_result_event b.results) in
      let ew = emit_well c.yielded (map tool_result_event b.results) in
      close_round-IsOrderly c.stopped c.tool_calls e.going b.all_terminate n c.yielded e.yielded
        c.outputs e.outputs messages b
        (run_rounds cfg accept rounds (i + 1) e.yielded b.counter b.messages) cw.orderly cw.accepted
        cw.counted ew.orderly ew.accepted ew.counted
        (run_rounds-IsOrderly cfg rounds (i + 1) e.yielded b.counter b.messages)

-- Once the caller leaves the range loop, the run yields nothing more.
pub run-IsOrderly :
    (cfg : Config) (accept : ℕ → Bool) (counter : Option ℕ) (messages : List Message)
    → IsOrderly accept 0 (run cfg accept counter messages).outputs
unfolding run
run-IsOrderly cfg accept counter messages =
    run_rounds-IsOrderly accept cfg cfg.max_loop 0 0 counter messages
