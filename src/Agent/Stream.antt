-- ===== src/Agent/Stream.antt =====
-- pkg/services/agent/stream.go: StreamChat, which passes the deltas and thoughts of a run on to
-- callbacks. A callback may be nil; a call of a nil function panics. `calls` lists the calls made.
pub mod Delivery
use morign.Base.{
  Bool, true, false, not, ◌&&◌, List, [], ◌∷◌, ◌++◌, Text, codes, text_eq, is_empty, if◌then◌else◌,
}
use morign.Llm.{Event, finish_reason_tool_calls}
use morign.Agent.Loop.{Output, event, failure}

-- StreamCallbacks: which of the two are set.
pub record StreamCallbacks : Type 0 where
  pub has_delta : Bool
  pub has_think : Bool

pub data Told : Type 0 where
  on_delta on_think : Text → Told

pub data Ending : Type 0 where
  finished : Ending
  failed_with : Text → Ending
  panicked : Ending

pub record Streamed : Type 0 where
  pub calls : List Told
  pub answer : Text
  pub ending : Ending

abbrev pub tell : List Told → Streamed → Streamed
tell calls s = record s { calls = calls ++ s.calls }

-- The calls for one event, before the line for finished tool rounds.
unfoldable pub event_calls : StreamCallbacks → Event → List Told
event_calls cb ev =
    (if not (is_empty ev.delta) && cb.has_delta then on_delta ev.delta ∷ [] else [])
    ++ (if not (is_empty ev.think) && cb.has_think then on_think ev.think ∷ [] else [])

unfoldable pub is_tool_stop : Event → Bool
is_tool_stop ev = ev.done && text_eq ev.stop_reason finish_reason_tool_calls

-- The loop of StreamChat; `answer` is `fullAnswer` so far. The last callback of a tool round is not
-- tested for nil.
unfoldable pub deliver : StreamCallbacks → Text → List Output → Streamed
deliver cb answer [] = record { calls = []; answer = answer; ending = finished }
deliver cb answer (failure e ∷ rest) = record {
  calls = [];
  answer = answer;
  ending = failed_with (codes "stream chat: " ++ e);
}
deliver cb answer (event ev ∷ rest) =
    let later = deliver cb (answer ++ ev.delta) rest in
    tell (event_calls cb ev) (
      if is_tool_stop ev
      then (if cb.has_think
          then tell (on_think (10 ∷ []) ∷ []) later
          else record { calls = []; answer = answer ++ ev.delta; ending = panicked })
      else later)

-- StreamChat on the values that the run yields.
unfoldable pub stream_chat : StreamCallbacks → List Output → Streamed
unfolding deliver event_calls is_tool_stop
stream_chat cb outputs = deliver cb [] outputs
