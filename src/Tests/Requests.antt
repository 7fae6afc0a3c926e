-- ===== src/Tests/Requests.antt =====
-- Concrete streams to a client and concrete skills: pkg/web/api/handle_convo.go,
-- pkg/models/skills and pkg/services/agent/skill_inject.go.
use morign.Base.{
  length, ◌≡◌, refl, true, false, none, some, List, [], ◌∷◌, Text, codes, text_eq, ◌==◌, All,
  trim_space, trim_left, trim_right,
}
use morign.Llm.{Event, blank_event}
use morign.Agent.Loop.{Output, event, failure}
use morign.Web.{handle_sse_stream}
use morign.Web.Delivery.{finishes, finishes-handle_sse_stream}
use morign.Skills.{
  Context, Database, Skill, Context, on_channel, skill_visible, find_name, if_visible,
  load_for_name, dedupe_from, dedupe, resolve_names, load_all, index_lines, index_text,
  build_skill_index,
}
use morign.Skills.Sight.{IsSeen, build_skill_index-IsVisible}

abbrev text_event : Event
text_event = record blank_event { delta = codes "a" }

abbrev outputs : List Output
outputs = event text_event ∷ failure (codes "closed") ∷ []

finishes-handle_sse_stream_example :
    length (finishes (handle_sse_stream true (λ n. n == 1) (codes "q") [] outputs)) ≡ 1
finishes-handle_sse_stream_example =
    finishes-handle_sse_stream (λ n. n == 1) (codes "q") [] true outputs

abbrev shared : Skill
shared = record {
  name = codes "s";
  description = codes "d";
  content = [];
  channel = record { web = true; wecom = false; feishu = false };
  owner = 2;
}

abbrev private_skill : Skill
private_skill = record shared {
  name = codes "p";
  channel = record { web = false; wecom = false; feishu = false };
}

abbrev visitor : Context
visitor = record { channel_name = []; user = some 1 }

abbrev all_work : Database
all_work = record { list = none; get = none; page = λ n ss. ss }

abbrev wanted : List Text
wanted = codes "p" ∷ codes "s" ∷ []

build_skill_index-IsVisible_example :
    (seen : List Skill) × (index_text seen ≡ index_text (shared ∷ []))
    × All (IsSeen visitor (private_skill ∷ shared ∷ [])) seen
unfolding build_skill_index resolve_names dedupe dedupe_from load_all load_for_name find_name
    if_visible skill_visible on_channel index_text index_lines trim_space trim_left trim_right
    text_eq
build_skill_index-IsVisible_example =
    build_skill_index-IsVisible all_work visitor (private_skill ∷ shared ∷ []) 3 wanted
      {text = index_text (shared ∷ [])} refl
