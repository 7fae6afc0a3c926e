-- ===== src/Agent/ResultText.antt =====
-- pkg/services/agent/tool_executor.go: the text that the model sees of a tool's result or error. The
-- JSON encoder and `%q` of the Go library are arguments.
use morign.Base.{Option, none, some, [], ◌++◌, Text, codes, is_empty, if◌then◌else◌}
use morign.Llm.{
  ToolErrorCode, invalid_arguments, unsupported_type, panic, execution_failed, permission_denied,
  rejected,
}
use morign.Llm.Objects.{
  Value, Items, Objects, Fields, arr, maps, obj, no_items, item, no_objects, object, get_field,
  as_string, as_object,
}

-- formatToolError
unfoldable pub format_tool_error : (Text → Text) → Text → ToolErrorCode → Text → Text
format_tool_error quote name rejected detail = detail
format_tool_error quote name permission_denied detail = detail
format_tool_error quote name invalid_arguments detail =
    codes "tool "
    ++ (quote name
        ++ (codes " was called with invalid arguments: "
            ++ (detail
                ++ codes ". Arguments must be a JSON object matching the tool's input schema.")))
format_tool_error quote name unsupported_type detail =
    codes "tool "
    ++ (quote name
        ++ (codes " was called with unsupported type "
            ++ (quote detail ++ codes ". Only \"function\" tool calls are executed.")))
format_tool_error quote name panic detail =
    codes "tool "
    ++ (quote name
        ++ (codes " panicked during execution: "
            ++ (detail ++ codes ". The call did not complete.")))
format_tool_error quote name execution_failed detail =
    codes "tool " ++ (quote name ++ (codes " failed to execute: " ++ detail))
format_tool_error quote name _ detail =
    codes "tool " ++ (quote name ++ (codes " failed: " ++ detail))

-- contentText over `[]map[string]any`
first_map_text : Objects → Text
first_map_text no_objects = []
first_map_text (object fields rest) =
    let later = first_map_text rest in
    elim (as_string (get_field (codes "text") fields)) [
      | some text ↦ if is_empty text then later else text
      | none ↦ later
    ]

-- The text of an item of `[]any`, empty where it is no map or has no text.
item_text : Value → Text
item_text (obj fields) = elim (as_string (get_field (codes "text") fields)) [
  | some text ↦ text
  | none ↦ []
]
item_text _ = []

-- contentText over `[]any`
first_item_text : Items → Text
first_item_text no_items = []
first_item_text (item v rest) =
    let later = first_item_text rest in if is_empty (item_text v) then later else item_text v

-- contentText
pub content_text : Option Value → Text
unfolding first_map_text first_item_text item_text
content_text (some (maps objects)) = first_map_text objects
content_text (some (arr items)) = first_item_text items
content_text _ = []

abbrev or_empty : Option Text → Text
or_empty none = []
or_empty (some t) = t

-- The part of toolResultText that reads `structuredContent`; `none` where it goes on to JSON.
structured_text : (Fields → Option Text) → Fields → Option Text
structured_text marshal result = elim (as_string (get_field (codes "structuredContent") result)) [
  | some s ↦ some s
  | none ↦ elim (as_object (get_field (codes "structuredContent") result)) [
    | some sc ↦ elim (as_string (get_field (codes "text") sc)) [
      | some s ↦ some s
      | none ↦ marshal sc
    ]
    | none ↦ none
  ]
]

-- toolResultText
unfoldable pub tool_result_text : (Fields → Option Text) → Option Fields → Text
unfolding content_text structured_text
tool_result_text marshal none = []
tool_result_text marshal (some result) =
    let text = content_text (get_field (codes "content") result) in
    if is_empty text
    then elim (structured_text marshal result) [ some s ↦ s | none ↦ or_empty (marshal result) ]
    else text
