-- ===== src/Web.antt =====
-- pkg/web/api/handle_convo.go: the streaming reply to a chat request (handleSSEStream). What the
-- handler does is the list of its effects, in their order. `writes n` says whether the event with
-- the number n reaches the client; `title` is the summary of the history, when there is one. The
-- log of questions and answers is left out.
pub mod Chat
pub mod Delivery
pub mod Identity
pub mod Repeated
use morign.Base.{
  ℕ, ◌+◌, Bool, true, false, not, ◌&&◌, ◌||◌, Option, none, some, List, [], ◌∷◌, ◌++◌, Text, codes,
  is_empty, text_eq, if◌then◌else◌,
}
use morign.Llm.{ToolCall, Event, blank_event, Usage, ToolResult, finish_reason_tool_calls}
use morign.Agent.Loop.{Output, event, failure}

-- ChatMessage, with the fields that the stream sets.
pub record ChatMessage : Type 0 where
  pub delta : Text
  pub think : Text
  pub tool_calls : List ToolCall
  pub finish_reason : Text
  pub title : Text

abbrev pub blank_message : ChatMessage
blank_message = record { delta = []; think = []; tool_calls = []; finish_reason = []; title = [] }

-- An effect of the handler: `keep` is the runner's Persist, `finish_turn` has the answer, whether a
-- tool was called, and the error of the run.
pub data Effect : Type 0 where
  write_event : ℕ → ChatMessage → Effect
  write_done : ℕ → Effect
  keep : Event → Effect
  finish_turn : Text → Bool → Option Text → Effect
  http_error : ℕ → Text → Effect

-- The variables of the handler.
pub record Progress : Type 0 where
  pub answer : Text
  pub think : Text
  pub finish : Text
  pub chunk_idx : ℕ
  pub last_write_empty : Bool
  pub called : Bool

abbrev pub start : Progress
start = record {
  answer = [];
  think = [];
  finish = [];
  chunk_idx = 0;
  last_write_empty = false;
  called = false;
}

-- The texts of an event are added.
abbrev pub heard : Progress → Event → Progress
heard st ev = record st { answer = st.answer ++ ev.delta; think = st.think ++ ev.think }

abbrev has_calls : List ToolCall → Bool
has_calls [] = false
has_calls (tc ∷ tcs) = true

abbrev pub tells_calls : Event → Bool
tells_calls ev = has_calls ev.tool_calls && text_eq ev.stop_reason finish_reason_tool_calls

-- The event that only brings the usage of a round.
unfoldable pub keep_usage : Event → Option Usage → List Effect
keep_usage ev none = []
keep_usage ev (some u) =
    keep (record blank_event { author = codes "assistant"; usage = some u; model = ev.model }) ∷ []

unfoldable pub tell_calls : Progress → Event → List Effect
tell_calls st ev =
    if tells_calls ev
    then write_event (st.chunk_idx + 1) (record blank_message {
      delta = ev.delta;
      think = ev.think;
      tool_calls = ev.tool_calls;
      finish_reason = ev.stop_reason;
    })
      ∷ []
    else []

-- The variables after an event that ends a round.
abbrev pub round_ended : Progress → Event → Progress
round_ended st ev = record st {
  finish = ev.stop_reason;
  chunk_idx = if tells_calls ev then st.chunk_idx + 1 else st.chunk_idx;
  last_write_empty = false;
}

abbrev pub brings_nothing : Event → Bool
brings_nothing ev = is_empty ev.delta && is_empty ev.think

-- The answer as an event, when there is one.
unfoldable pub keep_answer : Text → Progress → Text → List Effect
keep_answer prompt st [] = []
keep_answer prompt st (c ∷ answer) =
    keep (record blank_event {
      author = codes "assistant";
      delta = c ∷ answer;
      think = st.think;
      user_prompt = prompt;
    })
    ∷ []

-- After the loop, which a failing run leaves with its error.
unfoldable pub close : Text → Text → Progress → Option Text → List Effect
unfolding keep_answer
close prompt title st run_err =
    finish_turn st.answer st.called run_err
    ∷ (keep_answer prompt st st.answer
        ++ (write_event (st.chunk_idx + 1)
              (record blank_message { finish_reason = st.finish; title = title })
            ∷ (write_done (st.chunk_idx + 2) ∷ [])))

-- One event with texts: `later` is the loop after it, `stop` what follows when the client is gone.
unfoldable pub on_text :
    (ℕ → Bool)
    → Progress
    → Event
    → (Progress → List Effect)
    → (Progress → List Effect)
    → List Effect
on_text writes st ev later stop =
    let sent : Progress = record st { chunk_idx = st.chunk_idx + 1 } in
    let told =
      write_event sent.chunk_idx (record blank_message { delta = ev.delta; think = ev.think }) in
    if brings_nothing ev && st.last_write_empty
    then later (record st { last_write_empty = true })
    else if writes sent.chunk_idx
    then told ∷ later (record sent { last_write_empty = brings_nothing ev })
    else told ∷ stop sent

unfoldable pub on_event :
    (ℕ → Bool)
    → Progress
    → Event
    → Option ToolResult
    → (Progress → List Effect)
    → (Progress → List Effect)
    → List Effect
unfolding tell_calls keep_usage on_text
on_event writes st ev (some r) later stop = keep ev ∷ later (record st { called = true })
on_event writes st ev none later stop =
    if ev.done
    then tell_calls (heard st ev) ev
      ++ (keep_usage ev ev.usage ++ later (round_ended (heard st ev) ev))
    else on_text writes (heard st ev) ev later stop

-- The loop of handleSSEStream over what the agent yields, and what follows it.
unfoldable pub sse_stream : (ℕ → Bool) → Text → Text → List Output → Progress → List Effect
unfolding close on_event
sse_stream writes prompt title [] st = close prompt title st none
sse_stream writes prompt title (failure e ∷ os) st = close prompt title st (some e)
sse_stream writes prompt title (event ev ∷ os) st =
    on_event writes st ev ev.tool_result (sse_stream writes prompt title os)
      (λ st'. close prompt title st' none)

-- handleSSEStream: `flushes` says whether the writer is an http.Flusher. One that is not ends the
-- handler at once, and the turn stays as it is.
unfoldable pub handle_sse_stream : Bool → (ℕ → Bool) → Text → Text → List Output → List Effect
unfolding sse_stream
handle_sse_stream flushes writes prompt title os =
    if flushes
    then sse_stream writes prompt title os start
    else http_error 500 (codes "Streaming unsupported!") ∷ []
