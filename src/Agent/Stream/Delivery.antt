-- ===== src/Agent/Stream/Delivery.antt =====
-- What the callbacks of StreamChat receive, and when a missing callback ends the program.
use mathlib.Core.List.{append_assoc, append-nil}
use morign.Base.{
  ◌≡◌, refl, sym, ap, ◌∙◌, Bool, true, false, not, ◌&&◌, ◌||◌, ◌↔◌, List, [], ◌∷◌, ◌++◌, Text,
  is_empty, Bool-cases, inl, inr, arith, if◌then◌else◌,
}
use morign.Llm.{Event}
use morign.Agent.Loop.{Output, event, failure}
use morign.Agent.Stream.{
  StreamCallbacks, Told, on_delta, on_think, panicked, event_calls, is_tool_stop, deliver,
  stream_chat,
}

abbrev pub both_set : StreamCallbacks
both_set = record { has_delta = true; has_think = true }

-- What the delta callback has received, joined.
abbrev pub heard : List Told → Text
heard [] = []
heard (on_delta d ∷ cs) = d ++ heard cs
heard (on_think t ∷ cs) = heard cs

-- The deltas of the events before the first failure, joined.
abbrev pub deltas : List Output → Text
deltas [] = []
deltas (failure e ∷ rest) = []
deltas (event ev ∷ rest) = ev.delta ++ deltas rest

heard-append : (xs ys : List Told) → heard (xs ++ ys) ≡ heard xs ++ heard ys
heard-append [] ys = refl
heard-append (on_delta d ∷ xs) ys =
    ap (λ (t : Text). d ++ t) (heard-append xs ys) ∙ sym (append_assoc d (heard xs) (heard ys))
heard-append (on_think t ∷ xs) ys = heard-append xs ys

heard-event_calls : (ev : Event) → heard (event_calls both_set ev) ≡ ev.delta
unfolding event_calls
heard-event_calls ev = go ev.delta ev.think
  where
    go :
        (d t : Text)
        → heard (
            (if not (is_empty d) && true then on_delta d ∷ [] else [])
            ++ (if not (is_empty t) && true then on_think t ∷ [] else []))
          ≡ d
    go [] [] = refl
    go [] (c ∷ t) = refl
    go (c ∷ d) [] = append-nil (c ∷ d)
    go (c ∷ d) (c' ∷ t) = append-nil (c ∷ d)

-- The answer and what was heard, at any accumulator.
deliver_both :
    (answer : Text) (outputs : List Output)
    → ((deliver both_set answer outputs).answer ≡ answer ++ deltas outputs)
      × (heard (deliver both_set answer outputs).calls ≡ deltas outputs)
unfolding deliver
deliver_both answer [] = (sym (append-nil answer), refl)
deliver_both answer (failure e ∷ rest) = (sym (append-nil answer), refl)
deliver_both answer (event ev ∷ rest) =
    let ih = deliver_both (answer ++ ev.delta) rest in
    let later = deliver both_set (answer ++ ev.delta) rest in
    let first = heard-append (event_calls both_set ev) in
    elim (Bool-cases (is_tool_stop ev)) [
      | inl e ↦ rw e (
        ih.0 ∙ append_assoc answer ev.delta (deltas rest),
        first (on_think (10 ∷ []) ∷ later.calls)
            ∙ ap (λ (t : Text). t ++ heard later.calls) (heard-event_calls ev)
            ∙ ap (λ (t : Text). ev.delta ++ t) ih.1,
      )
      | inr e ↦ rw e (
        ih.0 ∙ append_assoc answer ev.delta (deltas rest),
        first later.calls
            ∙ ap (λ (t : Text). t ++ heard later.calls) (heard-event_calls ev)
            ∙ ap (λ (t : Text). ev.delta ++ t) ih.1,
      )
    ]

-- With both callbacks set the answer is the deltas of the events before the first failure, and the
-- delta callback received exactly that text.
pub stream_chat_answer :
    (outputs : List Output)
    → ((stream_chat both_set outputs).answer ≡ deltas outputs)
      × (heard (stream_chat both_set outputs).calls ≡ deltas outputs)
unfolding stream_chat
stream_chat_answer outputs = deliver_both [] outputs

-- A finished tool round stands before any failure.
abbrev pub reaches_tool_stop : List Output → Bool
reaches_tool_stop [] = false
reaches_tool_stop (failure e ∷ rest) = false
reaches_tool_stop (event ev ∷ rest) = is_tool_stop ev || reaches_tool_stop rest

deliver_panics :
    (cb : StreamCallbacks) (answer : Text) (outputs : List Output)
    → ((deliver cb answer outputs).ending ≡ panicked)
      ↔ ((cb.has_think ≡ false) × (reaches_tool_stop outputs ≡ true))
unfolding deliver
deliver_panics cb answer [] = (λ e. cc, λ h. cc (h.1))
deliver_panics cb answer (failure e ∷ rest) = (λ e. cc, λ h. cc (h.1))
deliver_panics cb answer (event ev ∷ rest) =
    let ih = deliver_panics cb (answer ++ ev.delta) rest in
    (λ e. ground (arith, ih.0), λ h. ground (arith, ih.1))

-- StreamChat panics exactly when there is no thought callback and the run reaches the end of a tool
-- round before it fails.
pub stream_chat_panics_iff :
    (cb : StreamCallbacks) (outputs : List Output)
    → ((stream_chat cb outputs).ending ≡ panicked)
      ↔ ((cb.has_think ≡ false) × (reaches_tool_stop outputs ≡ true))
unfolding stream_chat
stream_chat_panics_iff cb outputs = deliver_panics cb [] outputs
