-- ===== src/History.antt =====
-- pkg/services/stores/conversation.go and pkg/models/aigc/history.go: the history of a conversation,
-- a Redis list of items. `Faults` says which calls of Redis fail, and whether the item cannot be
-- encoded. An item comes back from Redis as it was written.
pub mod Bounds
pub mod Repeats
pub mod Recent
use morign.Base.{
  ℕ, ◌+◌, Bool, true, false, not, ◌&&◌, ◌||◌, Option, none, some, List, [], ◌∷◌, ◌++◌, Text, codes,
  is_empty, if◌then◌else◌, text_eq, length, ltb, byte_len,
}

-- HistoryChatItem
pub record HistoryChatItem : Type 0 where
  pub user : Text
  pub assistant : Text
  pub think : Text

-- HistoryItem
pub record HistoryItem : Type 0 where
  pub time : ℕ
  pub uid : Text
  pub chat_item : Option HistoryChatItem

-- calcTokens
unfoldable pub calc_tokens : HistoryItem → ℕ
calc_tokens z = elim z.chat_item [ none ↦ 0 | some c ↦ byte_len c.user + byte_len c.assistant ]

abbrev pub line : Text → Text → Text
line label t = if is_empty t then [] else label ++ (t ++ codes "\n")

-- HistoryItems.ToText
unfoldable pub to_text : List HistoryItem → Text
to_text [] = []
to_text (z ∷ zs) =
    elim z.chat_item [
      | none ↦ []
      | some c ↦ line (codes "用户: ") c.user ++ line (codes "助手: ") c.assistant
    ]
    ++ to_text zs

abbrev pub reverse : List HistoryItem → List HistoryItem
reverse [] = []
reverse (z ∷ zs) = reverse zs ++ (z ∷ [])

-- The loop of RecentlyWithTokens, over the items from the last to the first.
unfoldable pub recent_loop : ℕ → List HistoryItem → ℕ → List HistoryItem → List HistoryItem
recent_loop size [] count ohi = ohi
recent_loop size (z ∷ zs) count ohi =
    let more = recent_loop size zs (count + calc_tokens z) (z ∷ ohi) in
    if ltb size (count + calc_tokens z) then ohi else more

-- RecentlyWithTokens
unfoldable pub recently_with_tokens : List HistoryItem → ℕ → List HistoryItem
unfolding recent_loop
recently_with_tokens z size = recent_loop size (reverse z) 0 []

pub record Faults : Type 0 where
  pub index_fails : Bool
  pub rpop_fails : Bool
  pub marshal_fails : Bool
  pub rpush_fails : Bool
  pub expire_fails : Bool
  pub lpop_fails : Bool

-- historyMaxLength
abbrev pub history_max_length : ℕ
history_max_length = 25

-- `LIndex key -1`
abbrev pub last : List HistoryItem → Option HistoryItem
last [] = none
last (z ∷ []) = some z
last (z ∷ (y ∷ zs)) = last (y ∷ zs)

-- `RPop`
abbrev pub init : List HistoryItem → List HistoryItem
init [] = []
init (z ∷ []) = []
init (z ∷ (y ∷ zs)) = z ∷ init (y ∷ zs)

-- `LPop`
abbrev pub tail : List HistoryItem → List HistoryItem
tail [] = []
tail (z ∷ zs) = zs

-- Both have a chat item, of the same user text.
abbrev pub same_chat : Option HistoryChatItem → Option HistoryChatItem → Bool
same_chat (some c) (some d) = text_eq c.user d.user
same_chat _ _ = false

abbrev pub same_user : HistoryItem → HistoryItem → Bool
same_user a b = same_chat a.chat_item b.chat_item

-- AddHistory, up to the removal of the last item with the same user text.
abbrev pub replaces : Option HistoryItem → HistoryItem → Bool
replaces none item = false
replaces (some l) item = same_user l item

unfoldable pub drop_last_same : Faults → List HistoryItem → HistoryItem → List HistoryItem
drop_last_same f zs item =
    if not f.index_fails && (replaces (last zs) item && not f.rpop_fails) then init zs else zs

-- AddHistory, from the push on; the second part says whether it returns nil.
unfoldable pub push_item : Faults → List HistoryItem → HistoryItem → List HistoryItem × Bool
push_item f zs item =
    if f.marshal_fails || f.rpush_fails
    then (zs, false)
    else if f.expire_fails
    then (zs ++ (item ∷ []), false)
    else if ltb history_max_length (length (zs ++ (item ∷ [])))
    then (if f.lpop_fails then (zs ++ (item ∷ []), false) else (tail (zs ++ (item ∷ [])), true))
    else (zs ++ (item ∷ []), true)

-- AddHistory
unfoldable pub add_history : Faults → List HistoryItem → HistoryItem → List HistoryItem × Bool
unfolding push_item drop_last_same
add_history f zs item = push_item f (drop_last_same f zs item) item
