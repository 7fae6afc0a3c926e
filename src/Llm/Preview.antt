-- ===== src/Llm/Preview.antt =====
-- pkg/services/llm/types.go: the short texts of messages that go into the log.
use morign.Base.{
  ℕ, ◌+◌, ◌≤◌, Bool, true, false, not, ◌&&◌, List, [], ◌∷◌, ◌++◌, Text, codes, is_empty,
  if◌then◌else◌, decimal, byte_len, length,
}
use morign.Words.{take_head}
use morign.Words.Cuts.{length-take_head}
use morign.Llm.{Role, system, user, assistant, tool, other_role, ToolCall, Message}

abbrev prefix : Message → Role → Text
prefix m system = codes "S: "
prefix m user = codes "U: "
prefix m assistant = codes "A: "
prefix m tool = codes "T: " ++ (m.tool_call_id ++ codes ": ")
prefix m (other_role t) = codes "? "

-- `strings.Join(names, ", ")`
unfoldable pub join_names : List ToolCall → Text
join_names [] = []
join_names (tc ∷ []) = tc.name
join_names (tc ∷ (next ∷ tcs)) = tc.name ++ (codes ", " ++ join_names (next ∷ tcs))

-- The content, or the names of the tools that are called.
unfoldable pub shown_text : Message → List ToolCall → Text
unfolding join_names
shown_text m [] = m.content
shown_text m (tc ∷ tcs) = codes "[tool_calls: " ++ (join_names (tc ∷ tcs) ++ codes "]")

abbrev is_tool : Role → Bool
is_tool tool = true
is_tool system = false
is_tool user = false
is_tool assistant = false
is_tool (other_role t) = false

-- A tool message shows how many bytes it has.
abbrev sized : Role → Text → Text
sized role text =
    if is_tool role && not (is_empty text)
    then codes "[len=" ++ (decimal (byte_len text) ++ codes "]")
    else text

-- previewText
unfoldable pub preview_text : Message → ℕ → Text
unfolding shown_text take_head
preview_text m n =
    take_head (prefix m m.role ++ sized m.role (shown_text m m.tool_calls)) n (codes "..." ∷ [])

unfoldable pub join_previews : List Message → Text
unfolding preview_text
join_previews [] = []
join_previews (m ∷ []) = preview_text m 37
join_previews (m ∷ (next ∷ ms)) = preview_text m 37 ++ (codes ", " ++ join_previews (next ∷ ms))

-- MessagesLogged.String
unfoldable pub messages_logged : List Message → Text
unfolding join_previews
messages_logged ms = codes "[" ++ (join_previews ms ++ codes "]")

-- A preview has no more characters than asked for, and the three dots.
pub length-preview_text : (m : Message) (n : ℕ) → length (preview_text m n) ≤ n + 3
unfolding preview_text
length-preview_text m n =
    length-take_head (prefix m m.role ++ sized m.role (shown_text m m.tool_calls)) n
      (codes "..." ∷ [])
