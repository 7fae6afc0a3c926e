-- ===== src/Web/Chat.antt =====
-- pkg/web/api/handle_convo.go, handle_turn.go and prompt.go: a chat request up to its run
-- (postChat). `Codec` has what the key of a request is made with: the hexadecimal SHA-256, the
-- text of an identifier, and the next one-time suffix. Owner 0 is the zero identifier.
use morign.Base.{
  ℕ, zero, suc, ◌*◌, Bool, false, ◌||◌, Option, none, some, List, [], ◌∷◌, ◌++◌, Text, codes,
  is_empty, text_eq, join, if◌then◌else◌, Result, ok, err,
}
use morign.Llm.{Role, user, assistant, Message, Event, blank_event}
use morign.History.{HistoryItem, HistoryChatItem, recently_with_tokens, last}
use morign.Turn.{Store, Faults, TurnGate, TurnError, queued, acquire_turn, finish_turn}

-- ChatRequest, with the fields that are read here.
pub record ChatRequest : Type 0 where
  pub prompt : Text
  pub conversation_id : Text
  pub option_id : Text
  pub regenerate : Bool
  pub skills : List Text
  pub mcps : List Text

-- GetConversionID
unfoldable pub get_conversion_id : ChatRequest → Text
get_conversion_id z = if is_empty z.conversation_id then z.option_id else z.conversation_id

pub record Codec : Type 0 where
  pub sha : Text → Text
  pub owner_text : ℕ → Text
  pub nonce : Text

-- joinParts
unfoldable pub join_parts : List Text → Text
join_parts parts = join (0 ∷ []) parts

-- turnDigest, for the one part that it is called with.
unfoldable pub turn_digest : Codec → Text → Text
turn_digest x part = x.sha (part ++ (0 ∷ []))

abbrev pub owner_part : Codec → ℕ → Text
owner_part x zero = codes "anon:"
owner_part x (suc owner) = x.owner_text (suc owner)

-- turnKeyForWeb
unfoldable pub turn_key_for_web : Codec → ℕ → Text → Text → Text → Text
turn_key_for_web x owner session_id prompt digest =
    codes "web:" ++ x.sha (owner_part x owner ++ (session_id ++ (prompt ++ digest)))

-- turnKeyForChannel
unfoldable pub turn_key_for_channel : Text → Text → Text
turn_key_for_channel channel message_id = channel ++ (0x3a ∷ message_id)

unfoldable pub request_digest : Codec → ChatRequest → Text
unfolding turn_digest join_parts
request_digest x param = turn_digest x (
    join_parts (
      param.prompt
      ∷ (get_conversion_id param
          ∷ (join (codes ",") param.skills ∷ (join (codes ",") param.mcps ∷ [])))))

-- webTurnKey
unfoldable pub web_turn_key : Codec → ℕ → ChatRequest → Bool → Text × Text
unfolding request_digest turn_key_for_web
web_turn_key x owner param retry =
    let digest = request_digest x param in
    let key = turn_key_for_web x owner (get_conversion_id param) param.prompt digest in
    (if retry then key ++ (0x3a ∷ x.nonce) else key, digest)

-- historyLimitToken
abbrev pub history_limit_token : ℕ
history_limit_token = 50 * 1024

-- prepareChatRequest: the history that is used, for what ListHistory returns.
unfoldable pub used_history : Result Text (List HistoryItem) → List HistoryItem
used_history (err e) = []
used_history (ok []) = []
used_history (ok (z ∷ zs)) = recently_with_tokens (z ∷ zs) history_limit_token

-- The last item has a chat whose question is the prompt, or is to be answered again.
abbrev pub skips_chat : ChatRequest → Option HistoryChatItem → Bool
skips_chat param none = false
skips_chat param (some c) = text_eq c.user param.prompt || param.regenerate

abbrev pub skips : ChatRequest → Option HistoryItem → Bool
skips param none = false
skips param (some z) = skips_chat param z.chat_item

unfoldable pub skip_last : ChatRequest → List HistoryItem → Bool
skip_last param history = skips param (last history)

unfoldable pub is_retry : ChatRequest → List HistoryItem → Bool
unfolding skip_last
is_retry param history = skip_last param history || param.regenerate

abbrev pub text_message : Role → Text → List Message
text_message role [] = []
text_message role (c ∷ content) =
    record { role = role; content = c ∷ content; thinking = []; tool_calls = []; tool_call_id = [] }
    ∷ []

abbrev pub chat_texts : HistoryChatItem → List Message
chat_texts c = text_message user c.user ++ text_message assistant c.assistant

abbrev pub item_messages : Option HistoryChatItem → List Message → List Message
item_messages none rest = rest
item_messages (some c) rest = chat_texts c ++ rest

-- The last item of the loop, which is left out when it is to be skipped and has a chat.
abbrev pub last_messages : Bool → HistoryItem → List Message
last_messages skip? hi = if skip? then [] else item_messages hi.chat_item []

-- historyMessages
unfoldable pub history_messages : List HistoryItem → Bool → List Message
history_messages [] skip? = []
history_messages (hi ∷ []) skip? = last_messages skip? hi
history_messages (hi ∷ (next ∷ rest)) skip? =
    item_messages hi.chat_item (history_messages (next ∷ rest) skip?)

-- chatMessages
unfoldable pub chat_messages :
    Message → List Message → List HistoryItem → Text → Bool → List Message
unfolding history_messages
chat_messages sys_msg activation history prompt skip? =
    sys_msg
    ∷ (history_messages history skip?
        ++ (activation
            ++ (record {
              role = user;
              content = prompt;
              thinking = [];
              tool_calls = [];
              tool_call_id = [];
            }
                ∷ [])))

-- acquireChatTurn
unfoldable pub acquire_chat_turn :
    Codec → Faults → Store → ℕ → ChatRequest → Bool → Store × Result TurnError TurnGate
unfolding web_turn_key
acquire_chat_turn x f s owner param retry =
    let (key, digest) = web_turn_key x owner param retry in
    acquire_turn f s
      (record { idempotency_key = key; status = queued; request_digest = digest; owner_id = owner })
      owner

-- What the handler does: a failure with its status, the answer of an earlier turn, a question to the
-- model with its messages, an event that is kept, a reply.
pub data Effect : Type 0 where
  fail_with : ℕ → Effect
  reply_cached : Text → Effect
  ask : List Message → Effect
  keep : Event → Effect
  reply : Text → Effect

-- The run of the loop: its answer or its error, whether a tool was called, whether the request was
-- cancelled.
pub record Run : Type 0 where
  pub answer : Result Text Text
  pub tool_ran : Bool
  pub cancelled? : Bool

abbrev pub keep_answer : Text → Text → List Effect
keep_answer prompt [] = []
keep_answer prompt (c ∷ answer) =
    keep
      (record blank_event { author = codes "assistant"; delta = c ∷ answer; user_prompt = prompt })
    ∷ []

unfoldable pub after_run :
    Faults → Store → ℕ → Text → List Message → Run → Result Text Text → Store × List Effect
after_run f s id prompt messages run (err e) = (
  finish_turn f s (some id) [] run.tool_ran (some e) run.cancelled?,
  ask messages ∷ (fail_with 500 ∷ []),
)
after_run f s id prompt messages run (ok answer) = (
  finish_turn f s (some id) answer run.tool_ran none run.cancelled?,
  ask messages ∷ (keep_answer prompt answer ++ (reply answer ∷ [])),
)

unfoldable pub after_gate :
    Faults → Text → List Message → Run → Store × Result TurnError TurnGate → Store × List Effect
unfolding after_run
after_gate f prompt messages run (s, err e) = (s, fail_with 503 ∷ [])
after_gate f prompt messages run (s, ok gate) =
    if gate.replay
    then (s, reply_cached gate.cached ∷ [])
    else if gate.proceed
    then after_run f s gate.id prompt messages run run.answer
    else (s, fail_with 409 ∷ [])

-- postChat without streaming. An answer that comes with an error is not used, as in the source.
unfoldable pub post_chat :
    Codec
    → Faults
    → Store
    → ℕ
    → Message
    → Result Text (List HistoryItem)
    → ChatRequest
    → Run
    → Store × List Effect
unfolding used_history is_retry chat_messages acquire_chat_turn after_gate
post_chat x f s owner sys_msg listed param run =
    let history = used_history listed in
    let messages = chat_messages sys_msg [] history param.prompt (skip_last param history) in
    after_gate f param.prompt messages run
      (acquire_chat_turn x f s owner param (is_retry param history))
