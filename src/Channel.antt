-- ===== src/Channel.antt =====
-- pkg/web/api/handle_platform.go and pkg/services/channels: the replies to a message of a chat
-- platform, and the two guards before them. The platform is given by what its calls return; what the
-- handler does is the list of its effects, in their order.
pub mod Guards
pub mod Handler
pub mod Reply
pub mod Wecom
pub mod Window
use morign.Base.{
  ℕ, ◌+◌, Bool, true, false, not, ◌&&◌, Option, none, some, List, [], ◌∷◌, ◌++◌, map, Text, codes,
  is_empty, if◌then◌else◌, Result, ok, err,
}
use morign.Llm.{Event, blank_event}
use morign.Agent.Loop.{Output, event, failure}

-- An effect of the handler: `keep` is the runner's Persist, `finish_turn` has the answer, whether a
-- tool was called, and the error of the run.
pub data Effect : Type 0 where
  start_stream reply : Text → Effect
  append_stream finish_stream : Text → Text → Effect
  keep : Event → Effect
  finish_turn : Text → Bool → Option Text → Effect

-- The platform: what StartStream returns for a text, and whether FinishStream fails; `translate` is
-- the text that a user gets for an error of a model.
pub record Platform : Type 0 where
  pub start : Text → Result Text Text
  pub finish_fails : Text → Text → Bool
  pub translate : Text → Text

-- The message that is answered.
pub record Incoming : Type 0 where
  pub user_id : Text
  pub content : Text

abbrev processing_failed : Text
processing_failed = codes "AI processing failed"

-- The answer as an event, when there is one.
unfoldable pub keep_answer : Incoming → Text → List Effect
keep_answer msg [] = []
keep_answer msg (c ∷ answer) =
    keep (record blank_event {
      author = codes "assistant";
      delta = c ∷ answer;
      user_id = msg.user_id;
      user_prompt = msg.content;
    })
    ∷ []

-- What is told of an error: at the end of the stream if one runs, as a reply else.
unfoldable pub tell_error : Platform → Text → Text → List Effect
tell_error p [] text = reply text ∷ []
tell_error p (c ∷ id) text =
    finish_stream (c ∷ id) text ∷ (if p.finish_fails (c ∷ id) text then reply text ∷ [] else [])

abbrev finish_open : Text → Text → List Effect
finish_open [] answer = []
finish_open (c ∷ id) answer = finish_stream (c ∷ id) answer ∷ []

-- After the loop.
unfoldable pub complete : Incoming → Text → Text → Bool → List Effect
unfolding keep_answer
complete msg id content called =
    finish_turn content called none ∷ (finish_open id content ++ keep_answer msg content)

-- The first text starts the stream: `later` is what follows under the identifier of the stream.
unfoldable pub after_start : Result Text Text → Text → (Text → List Effect) → List Effect
after_start (err e) delta later = start_stream delta ∷ (reply processing_failed ∷ [])
after_start (ok id) delta later = start_stream delta ∷ later id

-- One event without a tool result: its text starts the stream or goes on with it.
unfoldable pub on_delta : Platform → Text → Text → Text → (Text → Text → List Effect) → List Effect
unfolding after_start
on_delta p id content [] later = later id content
on_delta p [] content (c ∷ delta) later =
    after_start (p.start (c ∷ delta)) (c ∷ delta) (λ id. later id (content ++ (c ∷ delta)))
on_delta p (i ∷ id) content (c ∷ delta) later =
    append_stream (i ∷ id) (content ++ (c ∷ delta)) ∷ later (i ∷ id) (content ++ (c ∷ delta))

unfoldable pub on_event :
    Platform → Text → Text → Bool → Event → (Text → Text → Bool → List Effect) → List Effect
unfolding on_delta
on_event p id content called ev later = elim ev.tool_result [
  | some r ↦ keep ev ∷ later id content true
  | none ↦ on_delta p id content ev.delta (λ id' content'. later id' content' called)
]

-- handleStreamingReply, from an open stream (or none, for the empty identifier) and a text so far,
-- over what the agent's loop yields.
unfoldable pub streaming_reply :
    Platform → Incoming → List Output → Text → Text → Bool → List Effect
unfolding complete tell_error on_event
streaming_reply p msg [] id content called = complete msg id content called
streaming_reply p msg (failure e ∷ os) id content called =
    tell_error p id (p.translate e) ++ (finish_turn [] called (some e) ∷ [])
streaming_reply p msg (event ev ∷ os) id content called =
    on_event p id content called ev (streaming_reply p msg os)

unfoldable pub regular_end : Incoming → Result Text Text → Bool → List Effect
unfolding keep_answer
regular_end msg (err e) called = finish_turn [] called (some e) ∷ (reply processing_failed ∷ [])
regular_end msg (ok answer) called =
    finish_turn answer called none ∷ (keep_answer msg answer ++ (reply answer ∷ []))

-- handleRegularReply, with the tool results that the run hands to its callback, the answer of the
-- run, and whether a tool was called.
unfoldable pub regular_reply : Incoming → List Event → Result Text Text → Bool → List Effect
unfolding regular_end
regular_reply msg results answer called = map keep results ++ regular_end msg answer called
