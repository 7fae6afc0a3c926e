-- ===== src/Provider/Anthropic/Convert.antt =====
-- pkg/services/llm/anthropic.go: messages in the form of Anthropic, the endpoint, and the reading of
-- a whole response. `lower` stands for strings.ToLower, `valid` for json.Valid, `quote` for the JSON
-- text of a string, `encode` for the JSON of a schema.
use morign.Base.{
  ◌&&◌, ℕ, ◌+◌, Bool, not, Option, List, [], ◌∷◌, ◌++◌, Text, codes, is_empty, text_eq,
  if◌then◌else◌, trim_space, decimal, Result, ok, err,
}
use morign.Llm.{
  Role, system, user, assistant, tool, other_role, ToolCall, Message, Usage, ChatResult,
}
use morign.Provider.{has_suffix, trim_slashes}
use morign.Provider.Anthropic.{AnthropicUsage, to_usage}

-- anthropicContentPart, with the fields that its type has.
pub data InputPart : Type 0 where
  text_part thinking_part : Text → InputPart
  tool_use_part : Text → Text → Text → InputPart  -- id, name, input
  tool_result_part : Text → Text → InputPart  -- the id of the use, content

-- anthropicMsg: of the user, or of the assistant.
pub data InputMessage : Type 0 where
  of_user of_assistant : List InputPart → InputMessage

abbrev is_blank : Text → Bool
is_blank s = is_empty (trim_space s)

unfoldable pub to_input_text : Text → List InputPart
to_input_text s = if is_blank s then [] else text_part s ∷ []

unfoldable pub to_input_thinking : Text → List InputPart
to_input_thinking s = if is_blank s then [] else thinking_part s ∷ []

-- toAnthropicInputParts
unfoldable pub to_input_parts : Message → List InputPart
unfolding to_input_text to_input_thinking
to_input_parts m =
    if is_blank m.content && is_blank m.thinking
    then []
    else to_input_text m.content ++ to_input_thinking m.thinking

-- The identifier of the i-th call, counted from 0.
unfoldable pub tool_use_id : ℕ → Text → Text
tool_use_id i id =
    let trimmed = trim_space id in
    if is_empty trimmed then codes "toolu_" ++ decimal (i + 1) else trimmed

-- A result goes into the last message when that is one of the user, else into a new one.
unfoldable pub add_tool_result : List InputMessage → InputPart → List InputMessage
add_tool_result [] part = of_user (part ∷ []) ∷ []
add_tool_result (of_user parts ∷ []) part = of_user (parts ++ (part ∷ [])) ∷ []
add_tool_result (of_assistant parts ∷ []) part = of_assistant parts ∷ (of_user (part ∷ []) ∷ [])
add_tool_result (m ∷ (next ∷ ms)) part = m ∷ add_tool_result (next ∷ ms) part

-- A message without parts is not added.
unfoldable pub add_user : List InputMessage → List InputPart → List InputMessage
add_user out [] = out
add_user out (part ∷ parts) = out ++ (of_user (part ∷ parts) ∷ [])

unfoldable pub add_assistant : List InputMessage → List InputPart → List InputMessage
add_assistant out [] = out
add_assistant out (part ∷ parts) = out ++ (of_assistant (part ∷ parts) ∷ [])

-- The role in lower case and without the spaces around it.
unfoldable pub normal_role : (Text → Text) → Role → Role
normal_role lower (other_role t) =
    let role = lower (trim_space t) in
    if text_eq role (codes "system")
    then system
    else if text_eq role (codes "tool")
    then tool
    else if text_eq role (codes "user")
    then user
    else if text_eq role (codes "assistant")
    then assistant
    else other_role role
normal_role lower system = system
normal_role lower user = user
normal_role lower assistant = assistant
normal_role lower tool = tool

abbrev two_lines : Text
two_lines = 10 ∷ (10 ∷ [])

-- `strings.Join`
unfoldable pub join_texts : Text → List Text → Text
join_texts sep [] = []
join_texts sep (t ∷ []) = t
join_texts sep (t ∷ (next ∷ ts)) = t ++ sep ++ join_texts sep (next ∷ ts)

-- anthropicMessagesEndpoint
unfoldable pub messages_endpoint : Text → Text
unfolding has_suffix trim_slashes
messages_endpoint base_url =
    let trimmed = trim_slashes base_url in
    let base = if is_empty trimmed then codes "https://api.anthropic.com" else trimmed in
    if has_suffix base (codes "/v1")
    then base ++ codes "/messages"
    else base ++ codes "/v1/messages"

module _ (lower : Text → Text) (valid : Text → Bool) (quote : Text → Text) where
  -- parseArgsToRawJSON
  unfoldable pub parse_args : Text → Text
  parse_args s =
      let trimmed = trim_space s in
      if is_empty trimmed then codes "{}" else if valid trimmed then trimmed else quote trimmed

  unfoldable pub tool_uses : ℕ → List ToolCall → List InputPart
  unfolding tool_use_id parse_args
  tool_uses i [] = []
  tool_uses i (tc ∷ tcs) =
      tool_use_part (tool_use_id i tc.id) tc.name (parse_args tc.arguments) ∷ tool_uses (i + 1) tcs

  unfoldable pub convert_user : List InputMessage → Message → List InputMessage
  unfolding add_tool_result add_user to_input_parts
  convert_user out m =
      if is_empty m.tool_call_id
      then add_user out (to_input_parts m)
      else add_tool_result out (tool_result_part m.tool_call_id m.content)

  -- What one message adds to the messages so far.
  unfoldable pub convert_as : List InputMessage → Message → Role → List InputMessage
  unfolding add_tool_result add_assistant to_input_parts tool_uses convert_user
  convert_as out m system = out
  convert_as out m tool = add_tool_result out (tool_result_part m.tool_call_id m.content)
  convert_as out m user = convert_user out m
  convert_as out m assistant = add_assistant out (to_input_parts m ++ tool_uses 0 m.tool_calls)
  convert_as out m (other_role t) = out

  unfoldable pub convert_from : List InputMessage → List Message → List InputMessage
  unfolding convert_as normal_role
  convert_from out [] = out
  convert_from out (m ∷ ms) = convert_from (convert_as out m (normal_role lower m.role)) ms

  unfoldable pub system_as : Message → Role → List Text
  system_as m system = if is_blank m.content then [] else m.content ∷ []
  system_as m tool = []
  system_as m user = []
  system_as m assistant = []
  system_as m (other_role t) = []

  unfoldable pub system_parts : List Message → List Text
  unfolding system_as normal_role
  system_parts [] = []
  system_parts (m ∷ ms) = system_as m (normal_role lower m.role) ++ system_parts ms

  -- toAnthropicMessages
  unfoldable pub to_anthropic_messages : List Message → List InputMessage × Text
  unfolding convert_from system_parts join_texts
  to_anthropic_messages ms = (convert_from [] ms, join_texts two_lines (system_parts ms))

-- A part of a whole response.
pub record OutputPart : Type 0 where
  pub kind : Text
  pub text : Text
  pub id : Text
  pub name : Text
  pub input : Text

-- The text parts that are not blank.
unfoldable pub text_parts : List OutputPart → List Text
text_parts [] = []
text_parts (part ∷ parts) =
    let rest = text_parts parts in
    if text_eq part.kind (codes "text") && not (is_blank part.text) then part.text ∷ rest else rest

abbrev tool_call_of : ℕ → OutputPart → ToolCall
tool_call_of i part = record {
  id = tool_use_id i part.id;
  kind = codes "function";
  name = part.name;
  arguments = if is_empty part.input then codes "{}" else part.input;
}

-- The tool calls of the parts from the i-th on.
unfoldable pub use_calls : ℕ → List OutputPart → List ToolCall
unfolding tool_use_id
use_calls i [] = []
use_calls i (part ∷ parts) =
    let rest = use_calls (i + 1) parts in
    if text_eq part.kind (codes "tool_use") then tool_call_of i part ∷ rest else rest

-- parseAnthropicResponse, of a body that was decoded or was not.
unfoldable pub parse_anthropic_response :
    Result Text (List OutputPart × Option AnthropicUsage) → Result Text (ChatResult × Option Usage)
unfolding text_parts use_calls join_texts to_usage
parse_anthropic_response (err e) = err (codes "parse anthropic response: " ++ e)
parse_anthropic_response (ok ([], au)) = err (codes "anthropic response: empty content")
parse_anthropic_response (ok (part ∷ parts, au)) = ok (
  record {
    content = join_texts (10 ∷ []) (text_parts (part ∷ parts));
    thinking = [];
    tool_calls = use_calls 0 (part ∷ parts);
  },
  to_usage au,
)
