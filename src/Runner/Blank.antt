-- ===== src/Runner/Blank.antt =====
-- What the history gets of an event that has no text.
use morign.Base.{
  ◌≡◌, refl, ◌∙◌, ℕ, ◌+◌, ◌<◌, false, Option, none, some, List, [], ◌∷◌, ◌++◌, Text, codes, text_eq,
  length, length-append, ltb, inl, inr, Bool-cases, arith,
}
use morign.Llm.{Event}
use morign.History.{HistoryItem, add_history, drop_last_same, push_item, replaces, last, Faults}
use morign.Runner.Adapters.{
  MessageRow, State, Outside, item_of, add_row, append_message, then_message, append_both,
  after_save, append_answer, append_result_or, append_event,
}

add_row_keeps_items :
    (fault : Option Text) (s : State) (row : MessageRow) → (add_row fault s row).0.items ≡ s.items
unfolding add_row
add_row_keeps_items none s row = refl
add_row_keeps_items (some e) s row = refl

append_message_keeps_items :
    (x : Outside) (s : State) (role content : Text)
    → (append_message x s role content).0.items ≡ s.items
unfolding append_message
append_message_keeps_items x s role [] = refl
append_message_keeps_items x s role (c ∷ content) = add_row_keeps_items x.message s _

then_message_keeps_items :
    (x : Outside) (role content : Text) (r : State × Option Text)
    → (then_message x role content r).0.items ≡ r.0.items
unfolding then_message
then_message_keeps_items x role content (s, some e) = refl
then_message_keeps_items x role content (s, none) = append_message_keeps_items x s role content

after_save_keeps_items :
    (x : Outside) (s : State) (ev : Event) (fault : Option Text)
    → (after_save x s ev fault).0.items ≡ s.items
unfolding after_save append_both
after_save_keeps_items x s ev (some e) = refl
after_save_keeps_items x s ev none =
    then_message_keeps_items x _ ev.delta _ ∙ append_message_keeps_items x _ _ ev.user_prompt

append_answer-items :
    (x : Outside) (s : State) (ev : Event)
    → (append_answer x s ev).0.items ≡ (add_history x.redis s.items (item_of x ev)).0
unfolding append_answer
append_answer-items x s ev =
    let r = add_history x.redis s.items (item_of x ev) in
    elim (Bool-cases r.1) [
      | inl good ↦
          rw (append_answer, good) (after_save_keeps_items x (record s { items = r.0 }) ev x.save)
      | inr bad ↦ rw (append_answer, bad) refl
    ]

fits_still : (n m : ℕ) → m ≡ n + 1 → n < 25 → ltb 25 m ≡ false
fits_still n m e small = ground arith

pushed :
    (f : Faults) (zs : List HistoryItem) (item : HistoryItem)
    → f.marshal_fails ≡ false
    → f.rpush_fails ≡ false
    → length zs < 25
    → (push_item f zs item).0 ≡ zs ++ (item ∷ [])
unfolding push_item
pushed f zs item encodes pushes small =
    let grown : length (zs ++ (item ∷ [])) ≡ length zs + 1 = length-append zs (item ∷ []) in
    let fits = fits_still (length zs) (length (zs ++ (item ∷ []))) grown small in
    elim (Bool-cases f.expire_fails) [
      | inl bad ↦ rw (push_item, encodes, pushes, bad) refl
      | inr good ↦ rw (push_item, encodes, pushes, good, fits) refl
    ]

not_same :
    (f : Faults) (zs : List HistoryItem) (item : HistoryItem)
    → replaces (last zs) item ≡ false
    → drop_last_same f zs item ≡ zs
unfolding drop_last_same
not_same f zs item new = elim (Bool-cases f.index_fails) [
  | inl bad ↦ rw (drop_last_same, bad) refl
  | inr good ↦ rw (drop_last_same, good, new) refl
]

-- An event of the assistant gets an item of its own at the end of a history that is not full and
-- whose last item has another question, also when the event has no text, as the one that only
-- brings the usage, and also when the rows or the session cannot be written.
pub append_event_blank :
    (x : Outside) (s : State) (ev : Event)
    → ev.tool_result ≡ none
    → text_eq ev.author (codes "user") ≡ false
    → replaces (last s.items) (item_of x ev) ≡ false
    → length s.items < 25
    → x.redis.marshal_fails ≡ false
    → x.redis.rpush_fails ≡ false
    → (append_event x s ev).0.items ≡ s.items ++ (item_of x ev ∷ [])
unfolding append_event append_result_or add_history
append_event_blank x s ev no_result author new small encodes pushes =
    rw (append_event, no_result, append_result_or, author)
      (append_answer-items x s ev
        ∙ rw (add_history, not_same x.redis s.items (item_of x ev) new)
            (pushed x.redis s.items (item_of x ev) encodes pushes small))
