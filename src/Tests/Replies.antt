-- ===== src/Tests/Replies.antt =====
-- Concrete events of the runner and replies to a platform: pkg/services/runner, the adapters of
-- pkg/services/stores/event_adapter.go, and pkg/web/api/handle_platform.go.
use morign.Base.{◌≡◌, refl, false, none, some, List, [], ◌∷◌, codes, ok, err}
use morign.Llm.{Event, blank_event}
use morign.Llm.Objects.{no_fields}
use morign.Agent.Loop.{Output, event}
use morign.Runner.{persist}
use morign.Runner.Adapters.{State, Outside, new_history_store, new_session_store}
use morign.Runner.Kept.{Adds, persist-Adds}
use morign.Channel.{Platform, Incoming, streaming_reply}
use morign.Channel.Reply.{told, AlwaysStarts, streaming_reply-told}

abbrev works : Outside
works = record {
  now = 9;
  context = record { turn = some 1; session = some 2; owner = 3 };
  redis = record {
    index_fails = false;
    rpop_fails = false;
    marshal_fails = false;
    rpush_fails = false;
    expire_fails = false;
    lpop_fails = false;
  };
  redis_error = [];
  llen_fails = false;
  records = record { create = none; find = none; update = none };
  text_of = λ e. [];
  save = none;
  message = none;
  usage = none;
  session = none;
}

abbrev nothing_kept : State
nothing_kept = record {
  items = [];
  message_count = 0;
  messages = [];
  records = record { rows = []; next_id = 1 };
  usages = [];
  meta = no_fields;
}

abbrev answer_event : Event
answer_event = record blank_event {
  author = codes "assistant";
  delta = codes "a";
  user_prompt = codes "q";
}

persist-Adds_example :
    Adds works []
      (persist
        (some (new_session_store works))
        (new_history_store works)
        nothing_kept
        answer_event).0.messages
persist-Adds_example = persist-Adds works nothing_kept answer_event

abbrev usage_event : Event
usage_event = record blank_event {
  author = codes "assistant";
  usage = some (record { input_tokens = 3; output_tokens = 4; total_tokens = 7 });
}

abbrev platform : Platform
platform = record { start = λ t. ok (codes "s1"); finish_fails = λ id t. false; translate = λ t. t }

starts_always : AlwaysStarts platform
starts_always = λ t. (codes "s1", refl)

abbrev incoming : Incoming
incoming = record { user_id = codes "u1"; content = codes "q" }

abbrev outputs : List Output
outputs = event answer_event ∷ event answer_event ∷ []

streaming_reply-told_example :
    told (streaming_reply platform incoming outputs [] [] false) ≡ codes "aa" ∷ []
streaming_reply-told_example =
    streaming_reply-told platform incoming outputs [] [] false starts_always

abbrev broken_platform : Platform
broken_platform = record platform { start = λ t. err (codes "closed") }
