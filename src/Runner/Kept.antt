-- ===== src/Runner/Kept.antt =====
-- What the adapters keep of an event: whose rows, and which ones.
use mathlib.Core.Path.{subst}
use morign.Base.{
  ◌≡◌, ◌≢◌, refl, sym, ap, ◌∙◌, Option, none, some, List, [], ◌∷◌, ◌++◌, Text, codes, text_eq, All,
  All-append, inl, inr, Option-cases, Bool-cases,
}
use mathlib.Core.List.{append-nil, append_assoc}
use morign.Llm.{Event, Usage, ToolResult}
use morign.Llm.Objects.{Fields, no_fields, field}
use morign.History.{add_history}
use morign.Runner.{merged, recorded, after_append, persist}
use morign.Runner.Adapters.{
  item_of, MessageRow, State, Outside, add_row, append_message, append_tool_record, then_message,
  append_both, after_save, append_answer, append_result_or, append_event, create_usage_record,
  merge_delta, new_history_store, new_session_store,
}

-- A row of the owner of the context, with a text.
abbrev pub IsOwn : Outside → MessageRow → Type 0
IsOwn x row = (row.owner_id ≡ x.context.owner) × (row.content ≢ [])

-- The rows of messages are those of before and then some of the owner.
abbrev pub Adds : Outside → List MessageRow → List MessageRow → Type 0
Adds x before after = (rows : List MessageRow) × (after ≡ before ++ rows) × All (IsOwn x) rows

Adds-none : (x : Outside) (rows : List MessageRow) → Adds x rows rows
Adds-none x rows = ([], sym (append-nil rows), tt)

Adds-then : (x : Outside) (a b c : List MessageRow) → Adds x a b → Adds x b c → Adds x a c
Adds-then x a b c (rows, e, own) (more, e', own') = (
  rows ++ more,
  e' ∙ ap (λ t. t ++ more) e ∙ append_assoc a rows more,
  All-append (IsOwn x) rows more own own',
)

add_row-Adds :
    (x : Outside) (fault : Option Text) (s : State) (row : MessageRow)
    → IsOwn x row
    → Adds x s.messages (add_row fault s row).0.messages
unfolding add_row
add_row-Adds x (some e) s row own = Adds-none x s.messages
add_row-Adds x none s row own = (row ∷ [], refl, (own, tt))

append_message-Adds :
    (x : Outside) (s : State) (role content : Text)
    → Adds x s.messages (append_message x s role content).0.messages
unfolding append_message
append_message-Adds x s role [] = Adds-none x s.messages
append_message-Adds x s role (c ∷ content) =
    add_row-Adds x x.message s _ (refl, λ (e : c ∷ content ≡ []). cc)

then_message-Adds :
    (x : Outside) (before : List MessageRow) (role content : Text) (r : State × Option Text)
    → Adds x before r.0.messages
    → Adds x before (then_message x role content r).0.messages
unfolding then_message
then_message-Adds x before role content (s, some e) h = h
then_message-Adds x before role content (s, none) h =
    Adds-then x before s.messages _ h (append_message-Adds x s role content)

append_both-Adds :
    (x : Outside) (s : State) (ev : Event) → Adds x s.messages (append_both x s ev).0.messages
unfolding append_both
append_both-Adds x s ev =
    then_message-Adds x s.messages _ ev.delta _ (append_message-Adds x s _ ev.user_prompt)

after_save-Adds :
    (x : Outside) (s : State) (ev : Event) (fault : Option Text)
    → Adds x s.messages (after_save x s ev fault).0.messages
unfolding after_save
after_save-Adds x s ev (some e) = Adds-none x s.messages
after_save-Adds x s ev none = append_both-Adds x _ ev

append_answer-Adds :
    (x : Outside) (s : State) (ev : Event) → Adds x s.messages (append_answer x s ev).0.messages
unfolding append_answer
append_answer-Adds x s ev =
    let r = add_history x.redis s.items (item_of x ev) in
    elim (Bool-cases r.1) [
      | inl good ↦ rw (append_answer, good) (after_save-Adds x (record s { items = r.0 }) ev x.save)
      | inr bad ↦ rw (append_answer, bad) (Adds-none x s.messages)
    ]

append_result_or-Adds :
    (x : Outside) (s : State) (ev : Event) (r : Option ToolResult)
    → Adds x s.messages (append_result_or x s ev r).0.messages
unfolding append_result_or append_tool_record
append_result_or-Adds x s ev (some tr) = Adds-none x s.messages
append_result_or-Adds x s ev none = elim (Bool-cases (text_eq ev.author (codes "user"))) [
  | inl user ↦ rw (append_result_or, user) (append_message-Adds x s _ ev.delta)
  | inr other ↦ rw (append_result_or, other) (append_answer-Adds x s ev)
]

append_event-Adds :
    (x : Outside) (s : State) (ev : Event) → Adds x s.messages (append_event x s ev).0.messages
unfolding append_event
append_event-Adds x s ev = append_result_or-Adds x s ev ev.tool_result

usage_keeps_messages :
    (x : Outside) (s : State) (ev : Event) (u : Usage)
    → (create_usage_record x s ev u).0.messages ≡ s.messages
unfolding create_usage_record
usage_keeps_messages x s ev u = elim (Option-cases x.usage) [
  | inr (e, bad) ↦ rw (create_usage_record, bad) refl
  | inl good ↦ rw (create_usage_record, good) refl
]

merge_keeps_messages :
    (x : Outside) (s : State) (delta : Fields) → (merge_delta x s delta).0.messages ≡ s.messages
unfolding merge_delta
merge_keeps_messages x s no_fields = refl
merge_keeps_messages x s (field key value rest) = elim (Option-cases x.session) [
  | inr (e, bad) ↦ rw (merge_delta, bad) refl
  | inl good ↦ rw (merge_delta, good) refl
]

recorded_keeps_messages :
    (x : Outside) (s : State) (ev : Event) (u : Option Usage)
    → (recorded (new_history_store x) s ev u).0.messages ≡ s.messages
unfolding recorded new_history_store
recorded_keeps_messages x s ev none = refl
recorded_keeps_messages x s ev (some u) = usage_keeps_messages x s ev u

merged_keeps_messages :
    (x : Outside) (s : State) (delta : Fields)
    → (merged (some (new_session_store x)) s delta).0.messages ≡ s.messages
unfolding merged new_session_store
merged_keeps_messages x s no_fields = refl
merged_keeps_messages x s (field key value rest) = merge_keeps_messages x s (field key value rest)

after_append_keeps_messages :
    (x : Outside) (s : State) (ev : Event) (fault : Option Text)
    → (after_append (some (new_session_store x)) (new_history_store x) s ev fault).0.messages
      ≡ s.messages
unfolding after_append
after_append_keeps_messages x s ev (some e) = refl
after_append_keeps_messages x s ev none =
    recorded_keeps_messages x (merged (some (new_session_store x)) s ev.state_delta).0 ev ev.usage
    ∙ merged_keeps_messages x s ev.state_delta

-- Whatever event is kept and whatever fails, no message row is changed or lost, and each row that is
-- added is owned by the owner of the context and has a text.
pub persist-Adds :
    (x : Outside) (s : State) (ev : Event)
    → Adds x s.messages (persist (some (new_session_store x)) (new_history_store x) s ev).0.messages
unfolding persist new_history_store
persist-Adds x s ev =
    let a = append_event x s ev in
    subst (Adds x s.messages) (sym (after_append_keeps_messages x a.0 ev a.1))
      (append_event-Adds x s ev)
