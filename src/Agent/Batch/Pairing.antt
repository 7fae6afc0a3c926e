-- ===== src/Agent/Batch/Pairing.antt =====
-- A batch answers its calls one by one and in their order, whatever the order in which they end.
use morign.Base.{
  ℕ, zero, suc, ◌+◌, ◌≡◌, ◌≢◌, refl, sym, ap, ◌∙◌, false, Option, none, some, List, [], ◌∷◌, ◌++◌,
  Text, length, get_elem?, all_by, arith,
}
use mathlib.Core.List.{append-nil, append_assoc}
use mathlib.Core.Path.{subst}
use morign.Llm.{Message, ToolCall, ToolResult, assistant, tool, status_ok, tool_error}
use morign.Agent.ToolCalls.{Executor, call_tool}
use morign.Agent.ToolCalls.Outcomes.{Reports, call_tool-Reports, tool_error_result-Reports}
use morign.Agent.Batch.{
  blank, run_slots, filled, collect, tool_messages, assistant_message, seq_base, execute_tool_calls,
}
use morign.Agent.Batch.Schedule.{IsComplete, slots_of, run_slots-eq-slots_of}

-- In whatever orders the goroutines end, if all of them do, the results, the messages and the
-- verdict are the same.
pub execute_tool_calls_order :
    (x : Executor) (counter : Option ℕ) (order order' : List ℕ) (messages : List Message)
    (tcs : List ToolCall) (think : Text)
    → IsComplete tcs order
    → IsComplete tcs order'
    → execute_tool_calls x counter order messages tcs think
      ≡ execute_tool_calls x counter order' messages tcs think
unfolding execute_tool_calls
execute_tool_calls_order x counter order order' messages [] think h h' = refl
execute_tool_calls_order x counter order order' messages (tc ∷ tcs) think h h' =
    let base = seq_base counter (length (tc ∷ tcs)) in
    rw
      (
        run_slots-eq-slots_of x base (tc ∷ tcs) order h,
        run_slots-eq-slots_of x base (tc ∷ tcs) order' h',
      )
      refl

-- One result for each call, in the order of the calls, numbered from `seq` on.
abbrev pub AllReport : ℕ → List ToolCall → List ToolResult → Type 0
AllReport seq [] [] = Unit
AllReport seq [] (r ∷ rs) = ⊥
AllReport seq (tc ∷ tcs) [] = ⊥
AllReport seq (tc ∷ tcs) (r ∷ rs) = Reports tc seq r × AllReport (seq + 1) tcs rs

filled-Reports :
    (x : Executor) (tc : ToolCall) (seq : ℕ) (slot : Option ToolResult)
    → slot ≡ call_tool x tc seq
    → Reports tc seq (filled x tc seq slot)
unfolding filled
filled-Reports x tc seq (some r) e = call_tool-Reports x tc seq r (sym e)
filled-Reports x tc seq none e = tool_error_result-Reports x tc seq _ _ 0 tt

collect-AllReport :
    (x : Executor) (seq : ℕ) (tcs : List ToolCall)
    → AllReport seq tcs (collect x seq tcs (slots_of x seq tcs))
unfolding collect slots_of
collect-AllReport x seq [] = tt
collect-AllReport x seq (tc ∷ tcs) =
    (filled-Reports x tc seq (call_tool x tc seq) refl, collect-AllReport x (seq + 1) tcs)

-- When all goroutines of a batch have ended, every call has exactly one result, at its place and
-- with its number, whether the call succeeded, failed, panicked or left its goroutine.
pub execute_tool_calls-AllReport :
    (x : Executor) (counter : Option ℕ) (order : List ℕ) (messages : List Message)
    (tcs : List ToolCall) (think : Text)
    → IsComplete tcs order
    → AllReport
        (seq_base counter (length tcs))
        tcs
        (execute_tool_calls x counter order messages tcs think).results
unfolding execute_tool_calls
execute_tool_calls-AllReport x counter order messages [] think h = tt
execute_tool_calls-AllReport x counter order messages (tc ∷ tcs) think h =
    let base = seq_base counter (length (tc ∷ tcs)) in
    rw (run_slots-eq-slots_of x base (tc ∷ tcs) order h) (collect-AllReport x base (tc ∷ tcs))

-- The tool messages `ms` answer the calls in their order.
abbrev pub Answers : List ToolCall → List Message → Type 0
Answers [] [] = Unit
Answers [] (m ∷ ms) = ⊥
Answers (tc ∷ tcs) [] = ⊥
Answers (tc ∷ tcs) (m ∷ ms) =
    (m.role ≡ tool) × (m.tool_call_id ≡ tc.id) × (m.tool_calls ≡ []) × Answers tcs ms

-- A history in which every assistant message with tool calls is followed by its answers, and no tool
-- message stands anywhere else.
pub data IsPaired : List Message → Type 0 where
  paired_end : IsPaired []
  plain :
      (m : Message) {ms : List Message}
      → m.tool_calls ≡ []
      → m.role ≢ tool
      → IsPaired ms
      → IsPaired (m ∷ ms)
  round :
      (m : Message) (answers : List Message) {ms l : List Message}
      → m.role ≡ assistant
      → Answers m.tool_calls answers
      → l ≡ answers ++ ms
      → IsPaired ms
      → IsPaired (m ∷ l)

pub IsPaired-append :
    {xs : List Message} (ys : List Message) → IsPaired xs → IsPaired ys → IsPaired (xs ++ ys)
IsPaired-append ys paired_end q = q
IsPaired-append ys (plain m calls role p) q = plain m calls role (IsPaired-append ys p q)
IsPaired-append ys (round m answers {ms} role ans e p) q =
    round m answers role ans (ap (λ (l : List Message). l ++ ys) e ∙ append_assoc answers ms ys)
      (IsPaired-append ys p q)

tool_messages-Answers :
    (seq : ℕ) (tcs : List ToolCall) (rs : List ToolResult)
    → AllReport seq tcs rs
    → Answers tcs (tool_messages tcs rs)
unfolding tool_messages
tool_messages-Answers seq [] [] h = tt
tool_messages-Answers seq [] (r ∷ rs) h = absurd h
tool_messages-Answers seq (tc ∷ tcs) [] h = absurd h
tool_messages-Answers seq (tc ∷ tcs) (r ∷ rs) h =
    (refl, refl, refl, tool_messages-Answers (seq + 1) tcs rs h.1)

-- A batch keeps the history paired: the model's next request has every call answered once.
pub execute_tool_calls-IsPaired :
    (x : Executor) (counter : Option ℕ) (order : List ℕ) (messages : List Message)
    (tcs : List ToolCall) (think : Text)
    → IsComplete tcs order
    → IsPaired messages
    → IsPaired (execute_tool_calls x counter order messages tcs think).messages
unfolding execute_tool_calls
execute_tool_calls-IsPaired x counter order messages [] think h p = p
execute_tool_calls-IsPaired x counter order messages (tc ∷ tcs) think h p =
    let base = seq_base counter (length (tc ∷ tcs)) in
    let results =
      collect x base (tc ∷ tcs) (run_slots x base (tc ∷ tcs) order (blank (tc ∷ tcs))) in
    IsPaired-append _ p (
      unfold assistant_message in
      round (assistant_message (tc ∷ tcs) think) (tool_messages (tc ∷ tcs) results) refl
        (tool_messages-Answers base (tc ∷ tcs) results
          (execute_tool_calls-AllReport x counter order messages (tc ∷ tcs) think h))
        (sym (append-nil (tool_messages (tc ∷ tcs) results))) paired_end)

all_terminate_at :
    (seq : ℕ) (tcs : List ToolCall) (rs : List ToolResult) (i : ℕ) {r : ToolResult}
    → AllReport seq tcs rs
    → get_elem? rs i ≡ some r
    → r.status ≢ status_ok
    → r.error_code ≢ tool_error
    → all_by (λ (s : ToolResult). s.terminate) rs ≡ false
all_terminate_at seq [] [] i h e bad code = cc
all_terminate_at seq [] (s ∷ rs) i h e bad code = absurd h
all_terminate_at seq (tc ∷ tcs) [] i h e bad code = cc
all_terminate_at seq (tc ∷ tcs) (s ∷ rs) zero {r} h e bad code =
    let same : s ≡ r = cc in
    let stops =
      subst
        (λ (q : ToolResult).
          (q.status ≢ status_ok) → (q.error_code ≢ tool_error) → q.terminate ≡ false)
        same (λ a b. h.0.failed_goes_on a b) bad code in
    rw (same, stops)
all_terminate_at seq (tc ∷ tcs) (s ∷ rs) (suc i) h e bad code =
    ground (arith, all_terminate_at (seq + 1) tcs rs i h.1 e bad code)

-- When all goroutines of a batch have ended, a result that is not ok, with a code other than that
-- of a tool which reports its own error, keeps the loop going: the batch does not ask to
-- terminate.
pub failed_call_goes_on :
    (x : Executor) (counter : Option ℕ) (order : List ℕ) (messages : List Message)
    (tcs : List ToolCall) (think : Text) (i : ℕ) {r : ToolResult}
    → IsComplete tcs order
    → get_elem? (execute_tool_calls x counter order messages tcs think).results i ≡ some r
    → r.status ≢ status_ok
    → r.error_code ≢ tool_error
    → (execute_tool_calls x counter order messages tcs think).all_terminate ≡ false
unfolding execute_tool_calls
failed_call_goes_on x counter order messages [] think i h e bad code = refl
failed_call_goes_on x counter order messages (tc ∷ tcs) think i h e bad code =
    all_terminate_at (seq_base counter (length (tc ∷ tcs))) (tc ∷ tcs) _ i
      (execute_tool_calls-AllReport x counter order messages (tc ∷ tcs) think h) e bad code
