-- ===== src/Agent/Truncate.antt =====
-- pkg/services/agent/tool_executor.go: the cut of a long tool result to its head, a notice and its
-- tail. The limit is `settings.Current.ToolResultMaxChars`; a limit that is not positive is 0 here.
pub mod Bounds
use morign.Base.{
  ℕ, ◌+◌, ◌-◌, ◌*◌, ◌/◌, List, [], ◌∷◌, ◌++◌, Text, codes, length, leb, is_empty, sprintf,
  if◌then◌else◌,
}
use morign.Words.{take_head, take_tail}

-- truncNoticeFormat: the head's characters, the tail's characters, all characters.
abbrev pub TruncNoticeFormat : Type 0
TruncNoticeFormat = ℕ → ℕ → ℕ → Text

abbrev pub newline : Text
newline = 10 ∷ []

pub trunc_notice_full : TruncNoticeFormat
trunc_notice_full head_len tail_len size =
    sprintf
      ((newline ++ codes "[truncated: showing the first ")
        ∷ codes " and last "
        ∷ codes " of "
        ∷ codes " characters; narrow the query or page through the source to get the rest]"
        ∷ [])
      (head_len ∷ tail_len ∷ size ∷ [])

pub trunc_notice_short : TruncNoticeFormat
trunc_notice_short head_len tail_len size =
    sprintf
      ((newline ++ codes "[truncated: first ")
        ∷ codes " + last "
        ∷ codes " of "
        ∷ codes " chars]"
        ∷ [])
      (head_len ∷ tail_len ∷ size ∷ [])

pub trunc_notice_minimal : TruncNoticeFormat
trunc_notice_minimal head_len tail_len size = newline ++ codes "[truncated]"

abbrev pub notice_formats : List TruncNoticeFormat
notice_formats = trunc_notice_full ∷ trunc_notice_short ∷ trunc_notice_minimal ∷ []

pub record Split : Type 0 where
  pub head_len : ℕ
  pub tail_len : ℕ
  pub notice : Text

-- The loop of truncSplit over the formats that are left. `payload` is not positive exactly when the
-- truncated difference is 0.
unfoldable pub split_loop : List TruncNoticeFormat → ℕ → ℕ → Split
split_loop [] limit size = record { head_len = 0; tail_len = 0; notice = [] }
split_loop (format ∷ formats) limit size =
    let payload = limit - length (format limit limit size) in
    let head_len = payload * 3 / 4 in
    let tail_len = payload - head_len in
    let rest = split_loop formats limit size in
    if leb payload 0
    then rest
    else record { head_len = head_len; tail_len = tail_len; notice = format head_len tail_len size }

-- truncSplit
unfoldable pub trunc_split : ℕ → ℕ → Split
unfolding split_loop
trunc_split limit size = split_loop notice_formats limit size

-- truncateToolResult
unfoldable pub truncate_tool_result : ℕ → Text → Text
truncate_tool_result limit text =
    let size = length text in
    let s = trunc_split limit size in
    if leb limit 0
    then text
    else if leb size limit
    then text
    else if is_empty s.notice
    then take_head text limit []
    else take_head text s.head_len [] ++ (s.notice ++ take_tail text s.tail_len [])
