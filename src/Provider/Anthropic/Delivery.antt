-- ===== src/Provider/Anthropic/Delivery.antt =====
-- What the caller of the stream gets: it ends with one last value, and where a caller that leaves is
-- not heard.
use morign.Base.{
  codes, ℕ, ◌+◌, ◌≡◌, refl, Bool, true, false, Option, none, some, List, [], ◌∷◌, Text, text_eq,
  arith,
}
use morign.Llm.{blank_event, Event}
use morign.Provider.{ReadEnd, eof, broken, authored}
use morign.Agent.Loop.{Output, event}
use morign.Provider.Ends.{EndsOnce, EndsOnce-cons}
use morign.Agent.Loop.Protocol.{IsOrderly}
use morign.Agent.Loop.Modes.{stays}
use morign.Provider.Anthropic.{
  after_line, StreamEvent, StreamState, Step, quiet, push_checked, push_unchecked, push_last, Delta,
  StartMessage, delta_step, message_delta_step, start_step, handle_stream_event, Line, skipped,
  finished, event_line, read_line, after_step, at_end, parse_lines, Response, no_response, body,
  stream_chat, fresh,
}

-- A step pushes an event that goes on, or ends with one that says so.
abbrev IsFair : Step → Type 0
IsFair (quiet st) = Unit
IsFair (push_checked ev st) = ev.done ≡ false
IsFair (push_unchecked ev st) = ev.done ≡ false
IsFair (push_last ev) = ev.done ≡ true

delta_step-IsFair : (st : StreamState) (d : Delta) → IsFair (delta_step st d)
unfolding delta_step
delta_step-IsFair st d = ground arith

start_step-IsFair : (st : StreamState) (m : Option StartMessage) → IsFair (start_step st m)
unfolding start_step
start_step-IsFair st none = tt
start_step-IsFair st (some m) = refl

handle_stream_event-IsFair :
    (st : StreamState) (se : StreamEvent) → IsFair (handle_stream_event st se)
unfolding handle_stream_event message_delta_step
handle_stream_event-IsFair st se =
    ground (arith, delta_step-IsFair st se.delta, start_step-IsFair st se.message)

after_step-EndsOnce :
    (n : ℕ) (s : Step) (later : ℕ → StreamState → List Output)
    → IsFair s
    → ((m : ℕ) (st : StreamState) → EndsOnce (later m st))
    → EndsOnce (after_step stays n s later)
unfolding after_step
after_step-EndsOnce n (quiet st) later fair h = h n st
after_step-EndsOnce n (push_checked ev st) later fair h =
    EndsOnce-cons (authored ev) _ fair (h (n + 1) st)
after_step-EndsOnce n (push_unchecked ev st) later fair h =
    EndsOnce-cons (authored ev) _ fair (h (n + 1) st)
after_step-EndsOnce n (push_last ev) later fair h = fair

after_line-EndsOnce :
    (n : ℕ) (st : StreamState) (l : Line) (later : ℕ → StreamState → List Output)
    → ((m : ℕ) (s : StreamState) → EndsOnce (later m s))
    → EndsOnce (after_line stays n st l later)
unfolding after_line
after_line-EndsOnce n st skipped later h = h n st
after_line-EndsOnce n st finished later h = refl
after_line-EndsOnce n st (event_line se) later h =
    after_step-EndsOnce n (handle_stream_event st se) later (handle_stream_event-IsFair st se) h

parse_lines-EndsOnce :
    (parse : Text → Option StreamEvent) (end : ReadEnd) (lines : List Text) (n : ℕ)
    (st : StreamState)
    → EndsOnce (parse_lines parse stays end lines n st)
unfolding parse_lines at_end
parse_lines-EndsOnce parse eof [] n st = refl
parse_lines-EndsOnce parse (broken e) [] n st = tt
parse_lines-EndsOnce parse end (raw ∷ lines) n st =
    after_line-EndsOnce n st (read_line parse raw) (parse_lines parse stays end lines)
      (λ m s. parse_lines-EndsOnce parse end lines m s)

-- Whatever the provider sends, a caller that stays gets a last value, an event marked as done or a
-- failure, and exactly one.
pub stream_chat-EndsOnce :
    (parse : Text → Option StreamEvent) (r : Response) → EndsOnce (stream_chat parse stays r)
unfolding stream_chat
stream_chat-EndsOnce parse (no_response e) = tt
stream_chat-EndsOnce parse (body lines end) = parse_lines-EndsOnce parse end lines 0 fresh

-- Something is yielded.
abbrev IsSome : List Output → Type 0
IsSome [] = ⊥
IsSome (o ∷ os) = Unit

module _ (accept : ℕ → Bool) where
  after_step-IsSome :
      (n : ℕ) (s : Step) (later : ℕ → StreamState → List Output)
      → ((m : ℕ) (st : StreamState) → IsSome (later m st))
      → IsSome (after_step accept n s later)
  unfolding after_step
  after_step-IsSome n (quiet st) later h = h n st
  after_step-IsSome n (push_checked ev st) later h = tt
  after_step-IsSome n (push_unchecked ev st) later h = tt
  after_step-IsSome n (push_last ev) later h = tt

  after_line-IsSome :
      (n : ℕ) (st : StreamState) (l : Line) (later : ℕ → StreamState → List Output)
      → ((m : ℕ) (s : StreamState) → IsSome (later m s))
      → IsSome (after_line accept n st l later)
  unfolding after_line
  after_line-IsSome n st skipped later h = h n st
  after_line-IsSome n st finished later h = tt
  after_line-IsSome n st (event_line se) later h =
      after_step-IsSome n (handle_stream_event st se) later h

  parse_lines-IsSome :
      (parse : Text → Option StreamEvent) (end : ReadEnd) (lines : List Text) (n : ℕ)
      (st : StreamState)
      → IsSome (parse_lines parse accept end lines n st)
  unfolding parse_lines at_end
  parse_lines-IsSome parse eof [] n st = tt
  parse_lines-IsSome parse (broken e) [] n st = tt
  parse_lines-IsSome parse end (raw ∷ lines) n st =
      after_line-IsSome n st (read_line parse raw) (parse_lines parse accept end lines)
        (λ m s. parse_lines-IsSome parse end lines m s)

  unchecked_unordered :
      (ev : Event) (os : List Output)
      → accept 0 ≡ false
      → IsSome os
      → ¬ IsOrderly accept 0 (event ev ∷ os)
  unchecked_unordered ev [] left more h = more
  unchecked_unordered ev (o ∷ os) left more h = cc (left, h.0 tt)

  -- A caller that leaves at the first event, the start of the message, is not heard: the stream
  -- yields to it again, whatever comes after.
  pub start_not_heard :
      (parse : Text → Option StreamEvent) (raw : Text) (lines : List Text) (end : ReadEnd)
      (se : StreamEvent) (m : StartMessage)
      → read_line parse raw ≡ event_line se
      → se.kind ≡ codes "message_start"
      → se.message ≡ some m
      → accept 0 ≡ false
      → ¬ IsOrderly accept 0 (stream_chat parse accept (body (raw ∷ lines) end))
  unfolding stream_chat parse_lines after_line handle_stream_event start_step after_step text_eq
  start_not_heard parse raw lines end se m is_line starts has left =
      rw (stream_chat, parse_lines, is_line, after_line, handle_stream_event, starts, has)
        (unchecked_unordered (authored blank_event) _ left (parse_lines-IsSome parse end lines 1 _))
