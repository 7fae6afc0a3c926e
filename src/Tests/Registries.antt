-- ===== src/Tests/Registries.antt =====
-- A concrete registry of tools: pkg/services/tools.
use morign.Base.{
  contains, lookup, ◌≡◌, refl, true, false, none, List, [], ◌∷◌, Text, codes, text_eq, Result, ok,
  All,
}
use morign.Llm.Objects.{no_fields}
use morign.Tools.{
  Folding, to_lower, builtin_keeper, Context, Invoker, Registry, policy_for, source, allows_source,
  allows,
}
use morign.Tools.Calls.{tools_for}
use morign.Tools.Servers.{
  sse, ServerBasic, ServerTool, gen_tool_key, check_server_name_conflict, check_tool_name_conflict,
  check_tools, install, add_server,
}
use morign.Tools.Reach.{IsWired, IsCallable, tools_for-IsCallable}
use morign.Tools.Undo.{Restores, remove_server-add_server}

abbrev ascii : Folding
ascii = record { lower_beyond = λ c. c; fold_beyond = λ c d. false }

abbrev answers : Invoker
answers = λ ctx params. ok none

abbrev empty : Registry
empty = record {
  tools = [];
  invokers = [];
  categories = [];
  priv_tools = [];
  servers = [];
  channel_tools = [];
}

abbrev with_create : Registry
with_create = record empty {
  priv_tools = record { name = codes "kb_create"; description = []; input_schema = no_fields } ∷ [];
  invokers = (codes "kb_create", answers) ∷ [];
  categories = (codes "kb_create", builtin_keeper) ∷ [];
}

with_create-IsWired : IsWired with_create
unfolding lookup text_eq
with_create-IsWired = record {
  tools_wired = tt;
  priv_wired = (record { named = refl; bound = (answers, refl) }, tt);
  channels_wired = λ ch cs e. cc e;
}

abbrev keeper_context : Context
keeper_context = record { keeper = true; channel = [] }

abbrev server : ServerBasic
server = record { name = codes "s"; trans_type = sse; url = codes "u"; channel = [] }

abbrev listed : ServerBasic → Result Text (List ServerTool)
listed s =
    ok
      (record { name = codes "t"; description = []; input_schema = no_fields; call = answers } ∷ [])

-- The restricted tool is shown to a keeper.
create_shown : tools_for ascii with_create keeper_context ≡ with_create.priv_tools
unfolding tools_for policy_for allows source allows_source to_lower lookup text_eq contains
create_shown = refl

tools_for-IsCallable_example :
    All
      (λ t. IsCallable ascii with_create keeper_context t.name)
      (tools_for ascii with_create keeper_context)
tools_for-IsCallable_example =
    tools_for-IsCallable ascii with_create keeper_context with_create-IsWired

remove_server-add_server_example :
    Restores ascii (codes "s") [] (add_server ascii listed empty server).0
unfolding add_server check_server_name_conflict install check_tools check_tool_name_conflict
    gen_tool_key contains text_eq
remove_server-add_server_example = remove_server-add_server ascii listed empty server refl refl
