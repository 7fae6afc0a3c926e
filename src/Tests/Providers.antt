-- ===== src/Tests/Providers.antt =====
-- Concrete streams of the model providers: pkg/services/llm/anthropic.go and openai.go.
use morign.Base.{
  pos, ℤ, ◌≡◌, refl, true, Option, none, some, List, [], ◌∷◌, Text, codes, text_eq, Result, ok,
  if◌then◌else◌, trim_space, trim_left, trim_right,
}
use morign.Llm.{user, assistant, tool, ToolCall, Message}
use morign.Agent.Loop.Modes.{stays}
use morign.Agent.Batch.Pairing.{round, plain, IsPaired, paired_end}
use morign.Provider.{eof}
use morign.Provider.Ends.{EndsOnce}
use morign.Provider.Anthropic.{stream_chat, Delta, StreamEvent, fresh, body}
use morign.Provider.Anthropic.Delivery.{stream_chat-EndsOnce}
use morign.Provider.Anthropic.Collect.{calls_of, state_after, state_after-calls_of}
use morign.Provider.Anthropic.Convert.{to_anthropic_messages}
use morign.Provider.Anthropic.Answered.{IsAnswered, AreClean, to_anthropic_messages-IsAnswered}
use morign.Provider.OpenAi.{parse_chunks, CallDelta, Choice, Chunk}
use morign.Provider.OpenAi.Delivery.{EndsWell, parse_chunks-EndsWell}

abbrev no_delta : Delta
no_delta = record { kind = []; text = []; thinking = []; partial_json = []; stop_reason = [] }

abbrev plain_event : Text → StreamEvent
plain_event kind = record {
  kind = kind;
  index = pos 0;
  content_block = none;
  delta = no_delta;
  message = none;
  usage = none;
}

abbrev starts_call : StreamEvent
starts_call = record (plain_event (codes "content_block_start")) {
  content_block = some (record { kind = codes "tool_use"; id = codes "c1"; name = codes "greet" });
}

abbrev brings_json : StreamEvent
brings_json = record (plain_event (codes "content_block_delta")) {
  delta = record no_delta { kind = codes "input_json_delta"; partial_json = codes "{}" };
}

abbrev parse : Text → Option StreamEvent
parse t =
    if text_eq t (codes "call")
    then some starts_call
    else if text_eq t (codes "json")
    then some brings_json
    else if text_eq t (codes "stop")
    then some (plain_event (codes "message_stop"))
    else none

abbrev lines : List Text
lines = codes "data: call" ∷ codes "data: json" ∷ codes "other" ∷ codes "data: stop" ∷ []

stream_chat-EndsOnce_example : EndsOnce (stream_chat parse stays (body lines eof))
stream_chat-EndsOnce_example = stream_chat-EndsOnce parse (body lines eof)

abbrev call_events : List StreamEvent
call_events = starts_call ∷ brings_json ∷ brings_json ∷ starts_call ∷ []

state_after-calls_of_example : (state_after fresh call_events).tool_calls ≡ calls_of call_events
state_after-calls_of_example = state_after-calls_of call_events

abbrev ask : ToolCall
ask = record { id = codes "c1"; kind = codes "function"; name = codes "greet"; arguments = [] }

abbrev question : Message
question = record {
  role = user;
  content = codes "u";
  thinking = [];
  tool_calls = [];
  tool_call_id = [];
}

abbrev asking : Message
asking = record question { role = assistant; tool_calls = ask ∷ [] }

abbrev answering : Message
answering = record question { role = tool; tool_call_id = codes "c1" }

abbrev talk : List Message
talk = question ∷ asking ∷ answering ∷ []

talk-IsPaired : IsPaired talk
talk-IsPaired =
    plain question refl (λ e. cc e)
      (round asking (answering ∷ []) {ms = []} refl (refl, refl, refl, tt) refl paired_end)

talk-AreClean : AreClean talk
unfolding trim_space trim_left trim_right
talk-AreClean = (
  tt,
  λ ne. refl,
  λ t e. cc e,
  (((refl, λ e. cc e), tt), λ ne. refl, λ t e. cc e, (tt, λ ne. absurd (ne refl), λ t e. cc e, tt)),
)

to_anthropic_messages-IsAnswered_example :
    IsAnswered (to_anthropic_messages (λ t. t) (λ t. true) (λ t. t) talk).0
to_anthropic_messages-IsAnswered_example =
    to_anthropic_messages-IsAnswered (λ t. t) (λ t. true) (λ t. t) talk talk-IsPaired talk-AreClean

abbrev call_part : ℤ → CallDelta
call_part index = record {
  id = codes "c1";
  kind = codes "function";
  index = index;
  name = codes "greet";
  arguments = [];
}

abbrev choice : List CallDelta → Text → Choice
choice calls reason = record {
  content = codes "a";
  reasoning_content = [];
  tool_calls = calls;
  finish_reason = reason;
}

abbrev last_choice : Choice
last_choice = choice [] (codes "stop")

abbrev chunk_of : List Choice → Chunk
chunk_of choices = record { choices = choices; model = []; id = []; usage = none }

abbrev usage_chunk : Chunk
usage_chunk = record (chunk_of []) {
  usage = some (record { prompt_tokens = 3; completion_tokens = 4; total_tokens = 7 });
}

abbrev decode : Text → Result Text Chunk
decode t =
    if text_eq t (codes "last")
    then ok (chunk_of (last_choice ∷ []))
    else if text_eq t (codes "usage")
    then ok usage_chunk
    else ok (chunk_of (choice (call_part (pos 0) ∷ []) [] ∷ []))

abbrev chunk_lines : List Text
chunk_lines = codes "data: call" ∷ codes "data: last" ∷ codes "data: usage" ∷ []

parse_chunks-EndsWell_example : EndsWell (parse_chunks decode stays eof chunk_lines 0 [])
parse_chunks-EndsWell_example = parse_chunks-EndsWell decode eof chunk_lines 0 []

abbrev chunk_rest : List Text
chunk_rest = codes "data: last" ∷ codes "data: usage" ∷ []
