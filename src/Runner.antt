-- ===== src/Runner.antt =====
-- pkg/services/runner/runner.go: what the runner keeps of an event. The two stores are records of
-- operations over a state that they share; an operation returns the error that it ends with.
pub mod Adapters
pub mod Steps
pub mod Kept
pub mod Blank
use morign.Base.{ℕ, Bool, Option, none, some, List, [], ◌∷◌, ◌++◌, Text, codes, if◌then◌else◌}
use morign.Llm.{Event, Usage}
use morign.Llm.Objects.{Fields, no_fields, field}

-- SessionStore, for one session.
pub record SessionStore (S : Type 0) : Type 0 where
  pub merge_delta : S → Fields → S × Option Text

-- HistoryStore, for one session.
pub record HistoryStore (S : Type 0) : Type 0 where
  pub append_event : S → Event → S × Option Text
  pub create_usage_record : S → Event → Usage → S × Option Text

-- An error with what it was wrapped in, as the list of one that errors.Join gets.
abbrev pub wrapped : Text → Option Text → List Text
wrapped label none = []
wrapped label (some e) = (label ++ e) ∷ []

module _ {S : Type 0} where
  -- The merge, when there is a delta and a store.
  unfoldable pub merged : Option (SessionStore S) → S → Fields → S × List Text
  merged none s delta = (s, [])
  merged (some sessions) s no_fields = (s, [])
  merged (some sessions) s (field key value rest) =
      let r = sessions.merge_delta s (field key value rest) in
      (r.0, wrapped (codes "merge delta: ") r.1)

  -- The usage record, when the event has a usage.
  unfoldable pub recorded : HistoryStore S → S → Event → Option Usage → S × List Text
  recorded history s ev none = (s, [])
  recorded history s ev (some u) =
      let r = history.create_usage_record s ev u in (r.0, wrapped (codes "create usage: ") r.1)

  -- Persist, from the merge on; the errors are those that errors.Join gets, none when it returns
  -- nil.
  unfoldable pub after_append :
      Option (SessionStore S) → HistoryStore S → S → Event → Option Text → S × List Text
  unfolding merged recorded
  after_append sessions history s ev (some e) = (s, e ∷ [])
  after_append sessions history s ev none =
      let m = merged sessions s ev.state_delta in
      let r = recorded history m.0 ev ev.usage in (r.0, m.1 ++ r.1)

  -- Persist
  unfoldable pub persist : Option (SessionStore S) → HistoryStore S → S → Event → S × List Text
  unfolding after_append
  persist sessions history s ev =
      let a = history.append_event s ev in after_append sessions history a.0 ev a.1
