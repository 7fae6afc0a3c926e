-- ===== src/Runner/Steps.antt =====
-- What an event changes, and how the errors of one part bear on the others.
use morign.Base.{◌≡◌, refl, Option, none, some, [], ◌∷◌, Text, inl, inr, Option-cases}
use morign.Llm.{Event, Usage}
use morign.Llm.Objects.{Fields, no_fields, field}
use morign.Runner.{SessionStore, HistoryStore, merged, recorded, after_append, persist}

module _ {S : Type 0} where
  -- An event whose append fails is not gone on with: the error of the append is the only one, and
  -- the state is the one that it left.
  pub append_failed :
      (sessions : Option (SessionStore S)) (history : HistoryStore S) (s : S) (ev : Event)
      {e : Text}
      → (history.append_event s ev).1 ≡ some e
      → persist sessions history s ev ≡ ((history.append_event s ev).0, e ∷ [])
  unfolding persist after_append
  append_failed sessions history s ev bad = rw (persist, bad) refl

module _ {S V : Type 0} (view : S → V) where
  -- An operation of the sessions that leaves what `view` sees as it was.
  abbrev pub LeavesView : SessionStore S → Type 0
  LeavesView sessions = (s : S) (delta : Fields) → view (sessions.merge_delta s delta).0 ≡ view s

  -- What the usage record does to a view depends on the view alone.
  abbrev pub FollowsView : HistoryStore S → Type 0
  FollowsView history =
      (s s' : S) (ev : Event) (u : Usage)
      → view s ≡ view s'
      → view (history.create_usage_record s ev u).0 ≡ view (history.create_usage_record s' ev u).0

  merged_view :
      (sessions : Option (SessionStore S)) (s : S) (delta : Fields)
      → ((store : SessionStore S) → sessions ≡ some store → LeavesView store)
      → view (merged sessions s delta).0 ≡ view s
  unfolding merged
  merged_view none s delta h = refl
  merged_view (some store) s no_fields h = refl
  merged_view (some store) s (field key value rest) h = h store refl s (field key value rest)

  recorded_view :
      (history : HistoryStore S) (s s' : S) (ev : Event) (u : Option Usage)
      → FollowsView history
      → view s ≡ view s'
      → view (recorded history s ev u).0 ≡ view (recorded history s' ev u).0
  unfolding recorded
  recorded_view history s s' ev none follows e = e
  recorded_view history s s' ev (some u) follows e = follows s s' ev u e

  -- Whether the merge of the state delta goes well has no bearing on what a view sees that the
  -- merge leaves alone and the usage record follows: it is the one of a run without a session store.
  pub merge_no_bearing :
      (sessions : Option (SessionStore S)) (history : HistoryStore S) (s : S) (ev : Event)
      → ((store : SessionStore S) → sessions ≡ some store → LeavesView store)
      → FollowsView history
      → view (persist sessions history s ev).0 ≡ view (persist none history s ev).0
  unfolding persist after_append merged
  merge_no_bearing sessions history s ev leaves follows =
      elim (Option-cases (history.append_event s ev).1) [
        | inr (e, bad) ↦ rw (persist, bad) refl
        | inl good ↦
            let s' = (history.append_event s ev).0 in
            rw (persist, good, after_append)
              (recorded_view history (merged sessions s' ev.state_delta).0 s' ev ev.usage follows
                (merged_view sessions s' ev.state_delta leaves))
      ]
