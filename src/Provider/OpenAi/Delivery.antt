-- ===== src/Provider/OpenAi/Delivery.antt =====
-- What the caller of the stream gets: one last value, and nothing of what comes after it.
use morign.Base.{
  if◌then◌else◌, is_empty, ◌≡◌, ◌≢◌, refl, ℕ, ◌+◌, Bool, true, false, not, ◌&&◌, Option, none, some,
  List, [], ◌∷◌, Text, inl, inr, Bool-cases, Result,
}
use morign.Llm.{ToolCall, Event}
use morign.Agent.Loop.{event}
use morign.Agent.Loop.Modes.{stays}
use morign.Provider.{ReadEnd, eof, broken, authored}
use morign.Provider.Ends.{EndsOnce, EndsOnce-cons}
use morign.Provider.OpenAi.{
  Choice, Chunk, accumulate, should_end, chunk_event, Line, skipped, finished, unreadable,
  chunk_line, read_line, Run, go_on, after_choice, after_chunk, after_line, at_end, parse_chunks,
}

-- A run that is not cut short by an index has one end.
abbrev pub EndsWell : Run → Type 0
EndsWell r = r.panicked ≡ false → EndsOnce r.outputs

-- An event that ends the stream or goes on, as it says.
choice_ends :
    (ends : Bool) (ev : Event) (later : Run)
    → ev.done ≡ ends
    → EndsWell later
    → EndsWell (
        if true && not ends
        then go_on (event ev) later
        else record { outputs = event ev ∷ []; panicked = false })
unfolding go_on
choice_ends true ev later e h = λ _. e
choice_ends false ev later e h = λ k. EndsOnce-cons ev later.outputs e (h k)

after_choice-EndsWell :
    (n : ℕ) (chunk : Chunk) (c : Choice) (calls : Option (List ToolCall))
    (later : ℕ → List ToolCall → Run)
    → ((m : ℕ) (tcs : List ToolCall) → EndsWell (later m tcs))
    → EndsWell (after_choice stays n chunk c calls later)
unfolding after_choice chunk_event
after_choice-EndsWell n chunk c none later h = λ e. cc
after_choice-EndsWell n chunk c (some calls) later h =
    choice_ends (should_end c calls) (authored (chunk_event chunk c calls)) (later (n + 1) calls)
      refl (h (n + 1) calls)

after_chunk-EndsWell :
    (n : ℕ) (calls : List ToolCall) (chunk : Chunk) (cs : List Choice)
    (later : ℕ → List ToolCall → Run)
    → ((m : ℕ) (tcs : List ToolCall) → EndsWell (later m tcs))
    → EndsWell (after_chunk stays n calls chunk cs later)
unfolding after_chunk
after_chunk-EndsWell n calls chunk [] later h = h n calls
after_chunk-EndsWell n calls chunk (c ∷ cs) later h =
    after_choice-EndsWell n chunk c (accumulate calls c.tool_calls) later h

after_line-EndsWell :
    (n : ℕ) (calls : List ToolCall) (l : Line) (later : ℕ → List ToolCall → Run)
    → ((m : ℕ) (tcs : List ToolCall) → EndsWell (later m tcs))
    → EndsWell (after_line stays n calls l later)
unfolding after_line
after_line-EndsWell n calls skipped later h = h n calls
after_line-EndsWell n calls finished later h = λ e. refl
after_line-EndsWell n calls (unreadable e') later h = λ e. tt
after_line-EndsWell n calls (chunk_line chunk) later h =
    after_chunk-EndsWell n calls chunk chunk.choices later h

-- Whatever the provider sends, a stream that no index stops gives a caller that stays one last
-- value, an event marked as done or a failure, and exactly one.
pub parse_chunks-EndsWell :
    (decode : Text → Result Text Chunk) (end : ReadEnd) (lines : List Text) (n : ℕ)
    (calls : List ToolCall)
    → EndsWell (parse_chunks decode stays end lines n calls)
unfolding parse_chunks at_end
parse_chunks-EndsWell decode eof [] n calls = λ e. refl
parse_chunks-EndsWell decode (broken e') [] n calls = λ e. tt
parse_chunks-EndsWell decode end (raw ∷ lines) n calls =
    after_line-EndsWell n calls (read_line decode raw) (parse_chunks decode stays end lines)
      (λ m tcs. parse_chunks-EndsWell decode end lines m tcs)

not_empty : (t : Text) → t ≢ [] → is_empty t ≡ false
not_empty [] h = absurd (h refl)
not_empty (c ∷ t) h = refl

finish_ends :
    (c : Choice) (calls : List ToolCall) → c.finish_reason ≢ [] → should_end c calls ≡ true
unfolding should_end
finish_ends c [] reason = rw (not_empty c.finish_reason reason) refl
finish_ends c (tc ∷ calls) reason = rw (not_empty c.finish_reason reason) refl

module _ (decode : Text → Result Text Chunk) (accept : ℕ → Bool) where
  finished_choice :
      (n : ℕ) (chunk : Chunk) (c : Choice) (calls : Option (List ToolCall))
      (later later' : ℕ → List ToolCall → Run)
      → c.finish_reason ≢ []
      → after_choice accept n chunk c calls later ≡ after_choice accept n chunk c calls later'
  unfolding after_choice
  finished_choice n chunk c none later later' reason = refl
  finished_choice n chunk c (some calls) later later' reason =
      let ends = finish_ends c calls reason in
      elim (Bool-cases (accept n)) [
        | inl stayed ↦ rw (after_choice, ends, stayed) refl
        | inr left ↦ rw (after_choice, ends, left) refl
      ]

  -- Nothing that the provider sends after the chunk with the reason to finish is read, and of a
  -- chunk without choices, as the one with the usage of the whole stream is, nothing is.
  pub usage_not_read :
      (end end' : ReadEnd) (raw usage_line : Text) (lines lines' : List Text) (n : ℕ)
      (calls : List ToolCall) {chunk usage_chunk : Chunk} {c : Choice} {cs : List Choice}
      → read_line decode raw ≡ chunk_line chunk
      → chunk.choices ≡ c ∷ cs
      → c.finish_reason ≢ []
      → read_line decode usage_line ≡ chunk_line usage_chunk
      → usage_chunk.choices ≡ []
      → (parse_chunks decode accept end (raw ∷ lines) n calls
          ≡ parse_chunks decode accept end' (raw ∷ lines') n calls)
        × (parse_chunks decode accept end (usage_line ∷ lines) n calls
            ≡ parse_chunks decode accept end lines n calls)
  unfolding parse_chunks after_line after_chunk
  usage_not_read end end' raw usage_line lines lines' n calls {chunk} {usage_chunk} {c} {cs} is has
        reason is' none_there =
      (
        rw (parse_chunks, is, after_line, has, after_chunk)
            (finished_choice n chunk c _ _ _ reason),
        rw (parse_chunks, is', after_line, none_there, after_chunk) refl,
      )
