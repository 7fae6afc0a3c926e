-- ===== src/Tools/Calls.antt =====
-- pkg/services/tools/registry.go: tools are registered, shown and called. Each operation is taken
-- whole, as its locks make it.
use morign.Base.{
  true, not, Option, none, some, List, [], ◌∷◌, ◌++◌, Text, codes, is_empty, if◌then◌else◌, lookup,
  insert, Result, ok, filter_by, byte_len, ltb, trim_space,
}
use morign.Llm.Objects.{Fields, field, no_fields, str, boolean, maps, object, no_objects}
use morign.Tools.{
  Folding, to_lower, equal_fold, ToolSource, builtin_public, ToolDescriptor, Context, Invoker,
  Registry, policy_for, registered, allows,
}

-- registerTool, on the public list.
unfoldable pub register_tool : Folding → Registry → ToolDescriptor → Invoker → ToolSource → Registry
register_tool u r desc inv src = record r {
  tools = r.tools ++ (desc ∷ []);
  invokers = insert desc.name inv r.invokers;
  categories = insert (to_lower u desc.name) src r.categories;
}

-- registerTool, on the list of restricted tools.
unfoldable pub register_priv_tool :
    Folding → Registry → ToolDescriptor → Invoker → ToolSource → Registry
register_priv_tool u r desc inv src = record r {
  priv_tools = r.priv_tools ++ (desc ∷ []);
  invokers = insert desc.name inv r.invokers;
  categories = insert (to_lower u desc.name) src r.categories;
}

-- RegisterInvoker
unfoldable pub register_invoker : Folding → Registry → Text → Option Invoker → Registry
unfolding register_tool
register_invoker u r name none = r
register_invoker u r name (some inv) =
    if is_empty name
    then r
    else register_tool u r (record { name = name; description = []; input_schema = no_fields }) inv
        builtin_public

-- BuildToolErrorResult
unfoldable pub build_tool_error_result : Text → Fields
build_tool_error_result message =
    let msg = trim_space message in
    field (codes "isError") (boolean true) (
      field (codes "content")
        (maps (
          object
            (field (codes "type") (str (codes "text")) (
              field (codes "text")
                (str (if is_empty msg then codes "tool execution failed" else msg)) no_fields))
            no_objects))
        no_fields)

-- A loop over a map of invokers for a key equal under case folding.
unfoldable pub first_match : Folding → Text → List (Text × Invoker) → Option (Text × Invoker)
first_match u name [] = none
first_match u name ((k, inv) ∷ m) =
    if equal_fold u k name then some (k, inv) else first_match u name m

-- What Invoke comes to, before the invoker runs.
pub data Dispatch : Type 0 where
  empty_name not_found permission_denied : Dispatch
  run : Text → Invoker → Dispatch

abbrev pub in_channel : Folding → Registry → Context → Text → Option (Text × Invoker)
in_channel u r ctx name =
    if is_empty ctx.channel then none else elim (lookup ctx.channel r.channel_tools) [
      | none ↦ none
      | some cs ↦ first_match u name cs.invokers
    ]

abbrev pub or_run : Option (Text × Invoker) → Dispatch → Dispatch
or_run none d = d
or_run (some (k, inv)) d = run k inv

unfoldable pub dispatch : Folding → Registry → Context → Text → Dispatch
unfolding first_match
dispatch u r ctx name =
    if is_empty name
    then empty_name
    else if not (registered u (policy_for u r ctx) name)
    then not_found
    else if not (allows u (policy_for u r ctx) name)
    then permission_denied
    else or_run (in_channel u r ctx name) (or_run (first_match u name r.invokers) not_found)

unfoldable pub invoke_as : Context → Fields → Dispatch → Result Text (Option Fields)
invoke_as ctx params empty_name = ok (some (build_tool_error_result (codes "tool name is empty")))
invoke_as ctx params not_found = ok (some (build_tool_error_result (codes "tool not found")))
invoke_as ctx params permission_denied = ok (
    some
      (build_tool_error_result (codes "permission denied: tool not available in current context")))
invoke_as ctx params (run k inv) = inv ctx params

-- Invoke
unfoldable pub invoke : Folding → Registry → Context → Text → Fields → Result Text (Option Fields)
unfolding dispatch invoke_as
invoke u r ctx name params = invoke_as ctx params (dispatch u r ctx name)

-- ToolsFor: the candidates, then the filter.
abbrev pub channel_candidates : Registry → Context → List ToolDescriptor
channel_candidates r ctx =
    if is_empty ctx.channel
    then []
    else elim (lookup ctx.channel r.channel_tools) [ none ↦ [] | some cs ↦ cs.tools ]

unfoldable pub tools_for : Folding → Registry → Context → List ToolDescriptor
tools_for u r ctx =
    filter_by (λ t. allows u (policy_for u r ctx) t.name)
      (r.tools ++ (r.priv_tools ++ channel_candidates r ctx))

-- ApplyToolDescriptions, on one of its two lists.
unfoldable pub describe : List (Text × Text) → List ToolDescriptor → List ToolDescriptor
describe descs [] = []
describe descs (t ∷ ts) =
    let rest = describe descs ts in
    elim (lookup t.name descs) [
      | none ↦ t ∷ rest
      | some d ↦
          (if ltb (byte_len t.name) (byte_len d) then record t { description = d } else t) ∷ rest
    ]

-- ApplyToolDescriptions
unfoldable pub apply_tool_descriptions : Registry → List (Text × Text) → Registry
unfolding describe
apply_tool_descriptions r descs = record r {
  tools = describe descs r.tools;
  priv_tools = describe descs r.priv_tools;
}
