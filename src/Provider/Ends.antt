-- ===== src/Provider/Ends.antt =====
-- What it means for the values that a stream yields to have one end.
use morign.Base.{◌≡◌, true, false, List, [], ◌∷◌}
use morign.Llm.{Event}
use morign.Agent.Loop.{Output, event, failure}

-- The values end with an event that says so or with a failure, and nothing before it does.
abbrev pub EndsOnce : List Output → Type 0
EndsOnce [] = ⊥
EndsOnce (failure e ∷ []) = Unit
EndsOnce (failure e ∷ (o ∷ os)) = ⊥
EndsOnce (event ev ∷ []) = ev.done ≡ true
EndsOnce (event ev ∷ (o ∷ os)) = (ev.done ≡ false) × EndsOnce (o ∷ os)

pub EndsOnce-cons :
    (ev : Event) (os : List Output) → ev.done ≡ false → EndsOnce os → EndsOnce (event ev ∷ os)
EndsOnce-cons ev [] e h = absurd h
EndsOnce-cons ev (o ∷ os) e h = (e, h)
