-- ===== src/Web/Delivery.antt =====
-- How a streaming reply ends its turn.
use morign.Base.{
  ◌≡◌, ◌≢◌, refl, ap, ◌∙◌, ℕ, ◌+◌, Bool, true, false, ◌&&◌, Option, none, some, List, [], ◌∷◌, ◌++◌,
  Text, length, if◌then◌else◌, is_empty, inl, inr, Bool-cases,
}
use morign.Llm.{Event, ToolResult, Usage}
use morign.Agent.Loop.{Output, event, failure}
use morign.Turn.{succeeded, final_status}
use morign.Web.{
  Effect, write_event, write_done, keep, finish_turn, http_error, start, handle_sse_stream,
  Progress, heard, tells_calls, keep_usage, tell_calls, round_ended, brings_nothing, keep_answer,
  close, on_text, on_event, sse_stream,
}

-- How a turn is finished: the answer, whether a tool was called, and the error.
abbrev pub Finish : Type 0
Finish = Text × Bool × Option Text

-- The ends of the turn among the effects.
unfoldable pub finishes : List Effect → List Finish
finishes [] = []
finishes (write_event n m ∷ es) = finishes es
finishes (write_done n ∷ es) = finishes es
finishes (keep ev ∷ es) = finishes es
finishes (http_error code message ∷ es) = finishes es
finishes (finish_turn answer called e ∷ es) = (answer, called, e) ∷ finishes es

finishes-append : (es fs : List Effect) → finishes es ≡ [] → finishes (es ++ fs) ≡ finishes fs
unfolding finishes
finishes-append [] fs h = refl
finishes-append (write_event n m ∷ es) fs h = finishes-append es fs h
finishes-append (write_done n ∷ es) fs h = finishes-append es fs h
finishes-append (keep ev ∷ es) fs h = finishes-append es fs h
finishes-append (http_error code message ∷ es) fs h = finishes-append es fs h
finishes-append (finish_turn answer called e ∷ es) fs h = cc

finishes-keep_answer :
    (prompt : Text) (st : Progress) (answer : Text) → finishes (keep_answer prompt st answer) ≡ []
unfolding finishes keep_answer
finishes-keep_answer prompt st [] = refl
finishes-keep_answer prompt st (c ∷ answer) = refl

finishes-close :
    (prompt title : Text) (st : Progress) (e : Option Text)
    → finishes (close prompt title st e) ≡ (st.answer, st.called, e) ∷ []
unfolding finishes close
finishes-close prompt title st e =
    ap (λ (fs : List Finish). (st.answer, st.called, e) ∷ fs)
      (finishes-append (keep_answer prompt st st.answer) _
        (finishes-keep_answer prompt st st.answer))

finishes-tell_calls : (st : Progress) (ev : Event) → finishes (tell_calls st ev) ≡ []
unfolding finishes tell_calls
finishes-tell_calls st ev = elim (Bool-cases (tells_calls ev)) [
  | inl tells ↦ rw (tell_calls, tells) refl
  | inr not_told ↦ rw (tell_calls, not_told) refl
]

finishes-keep_usage : (ev : Event) (u : Option Usage) → finishes (keep_usage ev u) ≡ []
unfolding finishes keep_usage
finishes-keep_usage ev none = refl
finishes-keep_usage ev (some u) = refl

-- The turn is finished exactly once.
abbrev pub FinishesOnce : List Effect → Type 0
FinishesOnce es = length (finishes es) ≡ 1

close-FinishesOnce :
    (prompt title : Text) (st : Progress) (e : Option Text) → FinishesOnce (close prompt title st e)
close-FinishesOnce prompt title st e = ap (λ fs. length fs) (finishes-close prompt title st e)

some_text :
    (delta think : Text) (b : Bool) → delta ≢ [] → ((is_empty delta && is_empty think) && b) ≡ false
some_text [] think b h = absurd (h refl)
some_text (c ∷ delta) think b h = refl

module _ (writes : ℕ → Bool) (prompt title : Text) where
  on_text-FinishesOnce :
      (st : Progress) (ev : Event) (later stop : Progress → List Effect)
      → ((st' : Progress) → FinishesOnce (later st'))
      → ((st' : Progress) → FinishesOnce (stop st'))
      → FinishesOnce (on_text writes st ev later stop)
  unfolding on_text finishes
  on_text-FinishesOnce st ev later stop h k =
      elim (Bool-cases (brings_nothing ev && st.last_write_empty)) [
        | inl quiet ↦ rw (on_text, quiet) (h (record st { last_write_empty = true }))
        | inr told ↦ elim (Bool-cases (writes (st.chunk_idx + 1))) [
          | inl sent ↦
              rw (on_text, told, sent)
                (h (record st {
                  chunk_idx = st.chunk_idx + 1;
                  last_write_empty = brings_nothing ev;
                }))
          | inr gone ↦ rw (on_text, told, gone) (k (record st { chunk_idx = st.chunk_idx + 1 }))
        ]
      ]

  on_event-FinishesOnce :
      (st : Progress) (ev : Event) (r : Option ToolResult) (later stop : Progress → List Effect)
      → ((st' : Progress) → FinishesOnce (later st'))
      → ((st' : Progress) → FinishesOnce (stop st'))
      → FinishesOnce (on_event writes st ev r later stop)
  unfolding on_event finishes
  on_event-FinishesOnce st ev (some r) later stop h k = h (record st { called = true })
  on_event-FinishesOnce st ev none later stop h k = elim (Bool-cases ev.done) [
    | inr goes ↦ rw (on_event, goes) (on_text-FinishesOnce (heard st ev) ev later stop h k)
    | inl ends ↦
        let next = later (round_ended (heard st ev) ev) in
        let same : finishes (tell_calls (heard st ev) ev ++ (keep_usage ev ev.usage ++ next))
            ≡ finishes next =
          finishes-append (tell_calls (heard st ev) ev) _ (finishes-tell_calls (heard st ev) ev)
          ∙ finishes-append (keep_usage ev ev.usage) next (finishes-keep_usage ev ev.usage) in
        rw (on_event, ends) (ap (λ fs. length fs) same ∙ h (round_ended (heard st ev) ev))
  ]

  sse_stream-FinishesOnce :
      (os : List Output) (st : Progress) → FinishesOnce (sse_stream writes prompt title os st)
  unfolding sse_stream
  sse_stream-FinishesOnce [] st = close-FinishesOnce prompt title st none
  sse_stream-FinishesOnce (failure e ∷ os) st = close-FinishesOnce prompt title st (some e)
  sse_stream-FinishesOnce (event ev ∷ os) st =
      on_event-FinishesOnce st ev ev.tool_result (sse_stream writes prompt title os) _
        (λ st'. sse_stream-FinishesOnce os st') (λ st'. close-FinishesOnce prompt title st' none)

  -- A streaming reply through a writer that can flush finishes its turn exactly once, however its run
  -- goes and whenever the client leaves; through any other writer it does not finish it at all, and
  -- the turn stays as it was.
  pub finishes-handle_sse_stream :
      (flushes : Bool) (os : List Output)
      → length (finishes (handle_sse_stream flushes writes prompt title os))
        ≡ (if flushes then 1 else 0)
  unfolding handle_sse_stream finishes
  finishes-handle_sse_stream true os = sse_stream-FinishesOnce os start
  finishes-handle_sse_stream false os = refl

  -- When the client is gone at a text of the answer, the turn is finished with the texts up to there
  -- and without an error, so it counts as succeeded, though the run was cut off, and also when its
  -- context is cancelled.
  pub client_gone_succeeds :
      (os : List Output) (st : Progress) (ev : Event)
      → ev.tool_result ≡ none
      → ev.done ≡ false
      → ev.delta ≢ []
      → writes (st.chunk_idx + 1) ≡ false
      → (finishes (sse_stream writes prompt title (event ev ∷ os) st)
          ≡ (st.answer ++ ev.delta, st.called, none) ∷ [])
        × ((cancelled? : Bool)
            → final_status none cancelled? st.called (st.answer ++ ev.delta)
              ≡ (succeeded, st.answer ++ ev.delta))
  unfolding sse_stream on_event on_text finishes final_status
  client_gone_succeeds os st ev no_result goes_on text gone =
      let told : (brings_nothing ev && st.last_write_empty) ≡ false =
        some_text ev.delta ev.think st.last_write_empty text in
      (
        rw (sse_stream, no_result, on_event, goes_on, on_text, told, gone)
            (finishes-close prompt title (record (heard st ev) { chunk_idx = st.chunk_idx + 1 })
              none),
        λ cancelled?. refl,
      )
