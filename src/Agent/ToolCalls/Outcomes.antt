-- ===== src/Agent/ToolCalls/Outcomes.antt =====
-- What one tool call can end in: the result reports the call it belongs to, and the calls that fail
-- before the registry is asked do not depend on the registry.
use morign.Base.{
  ℕ, ◌≤◌, ◌<◌, ◌≡◌, ◌≢◌, ◌⊎◌, inl, inr, refl, Bool, true, false, not, Option, none, some, Text,
  codes, text_eq, length, if◌then◌else◌, Result, ok, err, arith, Bool-cases,
}
use morign.Llm.{
  ToolCall, ToolResult, status_ok, status_rejected, ToolErrorCode, no_error, invalid_arguments,
  unsupported_type, panic, execution_failed, tool_error, permission_denied, rejected,
}
use mathlib.Core.Path.{subst, ap}
use morign.Llm.Objects.{Fields}
use morign.Agent.Truncate.Bounds.{truncate_tool_result-le-limit}
use morign.Agent.ToolCalls.{
  Call, returned, panicked, exited, ◌>>=◌, Invoked, Executor, tool_error_result, spill_tool_result,
  run_before, run_after, parse_parameters, finish_call, after_invoke, after_verdict, after_parse,
  call_body, recovered, call_tool,
}

-- The codes that callTool itself gives a failed call.
abbrev pub IsCallError : ToolErrorCode → Type 0
IsCallError no_error = ⊥
IsCallError tool_error = ⊥
IsCallError permission_denied = ⊥
IsCallError _ = Unit

abbrev Ends : {A : Type 0} → (A → Type 0) → Call A → Type 0
Ends P (returned a) = P a
Ends P (panicked d) = Unit
Ends P exited = Unit

Ends-bind :
    {A B : Type 0} (P : B → Type 0) (m : Call A) (f : A → Call B)
    → ((a : A) → Ends P (f a))
    → Ends P (m >>= f)
Ends-bind P (returned a) f h = h a
Ends-bind P (panicked d) f h = tt
Ends-bind P exited f h = tt

-- A property of every error result and every finished call holds of whatever a call ends in.
module _ (x : Executor) (tc : ToolCall) (seq : ℕ) (P : ToolResult → Type 0)
    (of_error : (code : ToolErrorCode) (detail : Text) (duration_ms : ℕ)
      → IsCallError code
      → P (tool_error_result x tc code detail seq duration_ms))
    (of_finish : (duration_ms : ℕ) (content : Option Fields)
      → P (finish_call x tc seq duration_ms content)) where
  after_invoke-Ends :
      (duration_ms : ℕ) (r : Result Text (Option Fields))
      → Ends P (after_invoke x tc seq duration_ms r)
  unfolding after_invoke
  after_invoke-Ends duration_ms (err e) = of_error execution_failed e duration_ms tt
  after_invoke-Ends duration_ms (ok content) =
      Ends-bind P (run_after x tc content) _ (λ c. of_finish duration_ms c)

  after_verdict-Ends :
      (parameters : Fields) (block : Bool) (reason : Text)
      → Ends P (after_verdict x tc seq parameters block reason)
  unfolding after_verdict
  after_verdict-Ends parameters true reason = of_error rejected reason 0 tt
  after_verdict-Ends parameters false reason =
      Ends-bind P (x.invoke tc.name parameters) _ (λ v. after_invoke-Ends v.duration_ms v.result)

  after_parse-Ends : (r : Result Text Fields) → Ends P (after_parse x tc seq r)
  unfolding after_parse
  after_parse-Ends (err e) = of_error invalid_arguments e 0 tt
  after_parse-Ends (ok parameters) =
      Ends-bind P (run_before x tc parameters) _ (λ v. after_verdict-Ends parameters v.0 v.1)

  call_body-Ends : Ends P (call_body x tc seq)
  unfolding call_body
  call_body-Ends = elim (Bool-cases (text_eq tc.kind (codes "function"))) [
    | inl e ↦ rw e (after_parse-Ends (parse_parameters x tc.arguments))
    | inr e ↦ rw e (of_error unsupported_type tc.kind 0 tt)
  ]

  recovered_ends :
      (c : Call ToolResult) (r : ToolResult) → Ends P c → recovered x tc seq c ≡ some r → P r
  unfolding recovered
  recovered_ends (returned a) r h e = subst P (cc) h
  recovered_ends (panicked d) r h e = subst P (cc) (of_error panic d 0 tt)
  recovered_ends exited r h e = cc

  pub call_tool_rule : (r : ToolResult) → call_tool x tc seq ≡ some r → P r
  unfolding call_tool
  call_tool_rule r e = recovered_ends (call_body x tc seq) r call_body-Ends e

-- The result names its call, and its status and its error code agree.
pub record Reports (tc : ToolCall) (seq : ℕ) (r : ToolResult) : Type 0 where
  pub of_call : r.call_id ≡ tc.id
  pub of_tool : r.name ≡ tc.name
  pub at_seq : r.seq ≡ seq
  pub same_arguments : r.arguments ≡ tc.arguments
  pub ok_without_code : r.status ≡ status_ok → r.error_code ≡ no_error
  pub code_without_ok : r.error_code ≡ no_error → r.status ≡ status_ok
  pub rejected_status : r.status ≡ status_rejected → r.error_code ≡ rejected
  pub rejected_code : r.error_code ≡ rejected → r.status ≡ status_rejected
  pub failed_goes_on : r.status ≢ status_ok → r.error_code ≢ tool_error → r.terminate ≡ false

pub tool_error_result-Reports :
    (x : Executor) (tc : ToolCall) (seq : ℕ) (code : ToolErrorCode) (detail : Text)
    (duration_ms : ℕ)
    → IsCallError code
    → Reports tc seq (tool_error_result x tc code detail seq duration_ms)
unfolding tool_error_result
tool_error_result-Reports x tc seq code detail duration_ms h = record {
  of_call = refl;
  of_tool = refl;
  at_seq = refl;
  same_arguments = refl;
  ok_without_code = ground arith;
  code_without_ok = ground arith;
  rejected_status = ground arith;
  rejected_code = ground arith;
  failed_goes_on = λ _ _. refl;
}

finish_call-Reports :
    (x : Executor) (tc : ToolCall) (seq duration_ms : ℕ) (content : Option Fields)
    → Reports tc seq (finish_call x tc seq duration_ms content)
unfolding finish_call
finish_call-Reports x tc seq duration_ms content = record {
  of_call = refl;
  of_tool = refl;
  at_seq = refl;
  same_arguments = refl;
  ok_without_code = ground arith;
  code_without_ok = ground arith;
  rejected_status = ground arith;
  rejected_code = ground arith;
  failed_goes_on = ground arith;
}

-- Whatever a call ends in, its result reports that call.
pub call_tool-Reports :
    (x : Executor) (tc : ToolCall) (seq : ℕ) (r : ToolResult)
    → call_tool x tc seq ≡ some r
    → Reports tc seq r
call_tool-Reports x tc seq r e =
    call_tool_rule x tc seq (λ s. Reports tc seq s)
      (λ code detail d h. tool_error_result-Reports x tc seq code detail d h)
      (λ d content. finish_call-Reports x tc seq d content) r e

-- With a positive limit and no spiller no result is longer than the limit.
pub length-call_tool :
    (x : Executor) (tc : ToolCall) (seq : ℕ) (r : ToolResult)
    → 0 < x.limit
    → x.spiller ≡ none
    → call_tool x tc seq ≡ some r
    → length r.content ≤ x.limit
length-call_tool x tc seq r pos bare e =
    call_tool_rule x tc seq (λ s. length s.content ≤ x.limit)
      (λ code detail d h. unfold tool_error_result in truncate_tool_result-le-limit x.limit _ pos)
      (λ d content.
        unfold finish_call spill_tool_result in
        rw bare (truncate_tool_result-le-limit x.limit _ pos))
      r e

-- An executor that differs in its registry only.
abbrev pub with_invoke : Executor → (Text → Fields → Call Invoked) → Executor
with_invoke x f = record x { invoke = f }

-- The call is refused before the registry is asked.
abbrev pub IsRefused : Executor → ToolCall → Type 0
IsRefused x tc =
    (text_eq tc.kind (codes "function") ≡ false)
    ⊎ (((e : Text) × (parse_parameters x tc.arguments ≡ err e))
        ⊎ ((parameters : Fields) × (reason : Text) × (parse_parameters x tc.arguments
              ≡ ok parameters)
            × (run_before x tc parameters ≡ returned (true, reason))))

refused_parse :
    (x : Executor) (f : Text → Fields → Call Invoked) (tc : ToolCall) (seq : ℕ)
    (r : Result Text Fields)
    → (((e : Text) × (r ≡ err e))
        ⊎ ((parameters : Fields) × (reason : Text) × (r ≡ ok parameters)
            × (run_before x tc parameters ≡ returned (true, reason))))
    → after_parse (with_invoke x f) tc seq r ≡ after_parse x tc seq r
unfolding after_parse after_verdict tool_error_result
refused_parse x f tc seq (err e) h = refl
refused_parse x f tc seq (ok parameters) (inl (e, p)) = cc
refused_parse x f tc seq (ok parameters) (inr (ps, reason, p, blocked)) =
    let same : ps ≡ parameters = cc in
    let now : run_before x tc parameters ≡ returned (true, reason) =
      subst (λ q. run_before x tc q ≡ returned (true, reason)) same blocked in
    rw now

refused_body :
    (x : Executor) (f : Text → Fields → Call Invoked) (tc : ToolCall) (seq : ℕ)
    → IsRefused x tc
    → call_body (with_invoke x f) tc seq ≡ call_body x tc seq
unfolding call_body tool_error_result
refused_body x f tc seq (inl e) = rw e
refused_body x f tc seq (inr h) =
    ap
      (λ (k : Call ToolResult).
        if not (text_eq tc.kind (codes "function"))
        then returned (tool_error_result x tc unsupported_type tc.kind seq 0)
        else k)
      (refused_parse x f tc seq (parse_parameters x tc.arguments) h)

-- A refused call has the same result whatever the registry does: the registry is not asked.
pub call_tool-with_invoke_of_IsRefused :
    (x : Executor) (f : Text → Fields → Call Invoked) (tc : ToolCall) (seq : ℕ)
    → IsRefused x tc
    → call_tool (with_invoke x f) tc seq ≡ call_tool x tc seq
unfolding call_tool tool_error_result
call_tool-with_invoke_of_IsRefused x f tc seq h =
    ap (recovered x tc seq) (refused_body x f tc seq h)
