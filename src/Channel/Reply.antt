-- ===== src/Channel/Reply.antt =====
-- Which replies finish their turn, and with which answer.
use morign.Base.{
  ◌≡◌, refl, sym, ap, ◌∙◌, ℕ, Bool, true, none, some, List, [], ◌∷◌, ◌++◌, map, Text, Result, ok,
  err, inl, inr, Option-cases, Bool-cases,
}
use mathlib.Core.List.{append-nil}
use morign.Llm.{Event}
use morign.Agent.Loop.{Output, event, failure}
use morign.Channel.{
  Effect, start_stream, reply, append_stream, finish_stream, keep, finish_turn, Platform, Incoming,
  keep_answer, tell_error, complete, after_start, on_delta, on_event, streaming_reply, regular_end,
  regular_reply,
}

-- The answers with which a turn is finished.
unfoldable pub told : List Effect → List Text
told [] = []
told (start_stream t ∷ es) = told es
told (reply t ∷ es) = told es
told (append_stream id t ∷ es) = told es
told (finish_stream id t ∷ es) = told es
told (keep ev ∷ es) = told es
told (finish_turn answer called e ∷ es) = answer ∷ told es

-- The texts of the events, joined after those so far; nothing when the run fails.
abbrev pub answer_of : Text → List Output → Text
answer_of content [] = content
answer_of content (failure e ∷ os) = []
answer_of content (event ev ∷ os) =
    let same = answer_of content os in
    let more = answer_of (content ++ ev.delta) os in
    elim ev.tool_result [ some r ↦ same | none ↦ more ]

told-keep_answer : (msg : Incoming) (answer : Text) → told (keep_answer msg answer) ≡ []
unfolding told keep_answer
told-keep_answer msg [] = refl
told-keep_answer msg (c ∷ answer) = refl

told-complete :
    (msg : Incoming) (id content : Text) (called : Bool)
    → told (complete msg id content called) ≡ content ∷ []
unfolding told complete
told-complete msg [] content called = ap (λ t. content ∷ t) (told-keep_answer msg content)
told-complete msg (c ∷ id) content called = ap (λ t. content ∷ t) (told-keep_answer msg content)

told_error :
    (p : Platform) (id text : Text) (called : Bool) (e : Text)
    → told (tell_error p id text ++ (finish_turn [] called (some e) ∷ [])) ≡ [] ∷ []
unfolding told tell_error
told_error p [] text called e = refl
told_error p (c ∷ id) text called e = elim (Bool-cases (p.finish_fails (c ∷ id) text)) [
  | inl fails ↦ rw (tell_error, fails) refl
  | inr works ↦ rw (tell_error, works) refl
]

-- The platform starts a stream for any text.
abbrev pub AlwaysStarts : Platform → Type 0
AlwaysStarts p = (t : Text) → (id : Text) × (p.start t ≡ ok id)

told_delta :
    (p : Platform) (id content delta : Text) (later : Text → Text → List Effect)
    (answer : Text → Text)
    → AlwaysStarts p
    → ((id' content' : Text) → told (later id' content') ≡ answer content' ∷ [])
    → told (on_delta p id content delta later) ≡ answer (content ++ delta) ∷ []
unfolding told on_delta after_start
told_delta p [] content [] later answer starts h =
    h [] content ∙ ap (λ t. answer t ∷ []) (sym (append-nil content))
told_delta p (i ∷ id) content [] later answer starts h =
    h (i ∷ id) content ∙ ap (λ t. answer t ∷ []) (sym (append-nil content))
told_delta p [] content (c ∷ delta) later answer starts h =
    let (id, e) = starts (c ∷ delta) in rw (on_delta, e) (h id (content ++ (c ∷ delta)))
told_delta p (i ∷ id) content (c ∷ delta) later answer starts h =
    h (i ∷ id) (content ++ (c ∷ delta))

-- On a platform that starts its streams, a streaming reply finishes its turn exactly once, however
-- its run goes: with the joined texts of the events, or with an empty answer when the run fails.
pub streaming_reply-told :
    (p : Platform) (msg : Incoming) (os : List Output) (id content : Text) (called : Bool)
    → AlwaysStarts p
    → told (streaming_reply p msg os id content called) ≡ answer_of content os ∷ []
unfolding told streaming_reply on_event
streaming_reply-told p msg [] id content called starts = told-complete msg id content called
streaming_reply-told p msg (failure e ∷ os) id content called starts =
    told_error p id (p.translate e) called e
streaming_reply-told p msg (event ev ∷ os) id content called starts =
    elim (Option-cases ev.tool_result) [
      | inr (r, has) ↦
          rw (streaming_reply, on_event, answer_of, has)
            (streaming_reply-told p msg os id content true starts)
      | inl no_result ↦
          rw (streaming_reply, on_event, answer_of, no_result)
            (told_delta p id content ev.delta
              (λ id' content'. streaming_reply p msg os id' content' called) (λ t. answer_of t os)
              starts (λ id' content'. streaming_reply-told p msg os id' content' called starts))
    ]

-- When the stream of the first text cannot be started, the turn is not finished.
pub start_failure_leaves_turn :
    (p : Platform) (msg : Incoming) (ev : Event) (os : List Output) (called : Bool) {c : ℕ}
    {delta e : Text}
    → ev.tool_result ≡ none
    → ev.delta ≡ c ∷ delta
    → p.start (c ∷ delta) ≡ err e
    → told (streaming_reply p msg (event ev ∷ os) [] [] called) ≡ []
unfolding told streaming_reply on_event on_delta after_start
start_failure_leaves_turn p msg ev os called no_result has fails =
    rw (streaming_reply, on_event, no_result, has, on_delta, fails) refl

told_keeps : (results : List Event) (es : List Effect) → told (map keep results ++ es) ≡ told es
unfolding told
told_keeps [] es = refl
told_keeps (r ∷ results) es = told_keeps results es

told-reply_end :
    (msg : Incoming) (answer : Text) → told (keep_answer msg answer ++ (reply answer ∷ [])) ≡ []
unfolding told keep_answer
told-reply_end msg [] = refl
told-reply_end msg (c ∷ answer) = refl

-- The answer with which a run without a stream finishes its turn.
abbrev pub answer_or_blank : Result Text Text → Text
answer_or_blank (ok answer) = answer
answer_or_blank (err e) = []

-- A reply without a stream always finishes its turn, exactly once.
pub regular_reply-told :
    (msg : Incoming) (results : List Event) (answer : Result Text Text) (called : Bool)
    → told (regular_reply msg results answer called) ≡ answer_or_blank answer ∷ []
unfolding regular_reply regular_end told
regular_reply-told msg results (err e) called = told_keeps results _
regular_reply-told msg results (ok answer) called =
    told_keeps results (regular_end msg (ok answer) called)
    ∙ ap (λ t. answer ∷ t) (told-reply_end msg answer)
