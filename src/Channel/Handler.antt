-- ===== src/Channel/Handler.antt =====
-- pkg/web/api/handle_platform.go, commands.go and the session keys of
-- pkg/services/stores/conversation.go: a message of a chat platform from its arrival up to the
-- reply of the agent. Redis and the turns are the state; `Env` has which calls fail and what the
-- source takes from elsewhere. The user and the tokens of the context are left out.
pub mod Commands
pub mod Handled
use morign.Base.{
  ℕ, ◌+◌, Bool, true, false, not, ◌&&◌, ◌||◌, Option, none, some, List, [], ◌∷◌, ◌++◌, Text, codes,
  is_empty, text_eq, if◌then◌else◌, lookup, insert, delete, Result, ok, err,
}
use morign.Turn.{Store, Faults, ChatTurnBasic, TurnGate, TurnError, queued, acquire_turn}
use morign.Web.Chat.{turn_key_for_channel}
use morign.Channel.Handler.Commands.{
  Incoming, Command, reset, skill, detect_command, handle_skill_command,
}

-- The Redis map from session keys to conversations, the turns, and the next conversation.
pub record State : Type 0 where
  pub sessions : List (Text × Text)
  pub turns : Store
  pub next : ℕ

pub record Env : Type 0 where
  pub get_fails : Bool
  pub set_fails : Bool
  pub reset_fails : Option Text
  pub faults : Faults
  pub valid : Text → Bool
  pub id_text : ℕ → Text
  pub sha : Text → Text
  pub channel : Text
  pub owner : ℕ

-- What the handler does: replies, and the run of the agent in a conversation for a turn, or for
-- none.
pub data Effect : Type 0 where
  reply : Text → Effect
  run : Text → Option ℕ → Incoming → Effect

-- The stored conversation; an error of the read is as if there were none.
abbrev pub stored_csid : Env → State → Text → Text
stored_csid x s key =
    if x.get_fails then [] else elim (lookup key s.sessions) [ none ↦ [] | some csid ↦ csid ]

-- newConversation: the stored identifier, if it is one.
abbrev pub conversation_id : Env → State → Text → Text
conversation_id x s csid = if x.valid csid then csid else x.id_text s.next

abbrev pub after_next : Env → State → Text → State
after_next x s csid = if x.valid csid then s else record s { next = s.next + 1 }

-- GetOrCreateConversationBySessionKey; an error of the write is not looked at, and the time after
-- which Redis forgets an entry is left out.
unfoldable pub get_or_create_conversation : Env → State → Text → State × Text
get_or_create_conversation x s key =
    let csid = stored_csid x s key in
    let id = conversation_id x s csid in
    let s' = after_next x s csid in
    (
      if is_empty csid && not x.set_fails
          then record s' { sessions = insert key id s'.sessions }
          else s',
      id,
    )

-- ResetSessionBySessionKey
unfoldable pub reset_session : Env → State → Text → State × Option Text
reset_session x s key = elim x.reset_fails [
  | some e ↦ (s, some e)
  | none ↦ (record s { sessions = delete key s.sessions }, none)
]

-- acquireChannelTurn
abbrev pub basic_of : Env → Incoming → ChatTurnBasic
basic_of x msg = record {
  idempotency_key = turn_key_for_channel x.channel msg.message_id;
  status = queued;
  request_digest = x.sha (msg.content ++ (0 ∷ []));
  owner_id = x.owner;
}

abbrev pub busy_text : Text
busy_text = codes "服务暂时不可用，请稍后重试"

abbrev pub after_gate :
    State → Text → Incoming → Store × Result TurnError TurnGate → State × List Effect
after_gate s csid msg (turns, err e) = (record s { turns = turns }, reply busy_text ∷ [])
after_gate s csid msg (turns, ok gate) =
    let s' = record s { turns = turns } in
    if gate.replay
    then (s', reply gate.cached ∷ [])
    else if gate.proceed
    then (s', run csid (some gate.id) msg ∷ [])
    else (s', [])

abbrev pub in_turn : Env → State → Text → Incoming → State × List Effect
in_turn x s csid msg =
    if is_empty msg.message_id
    then (s, run csid none msg ∷ [])
    else after_gate s csid msg (acquire_turn x.faults s.turns (basic_of x msg) x.owner)

-- A message that is no command, or whose command leaves it to the agent.
unfoldable pub chat : Env → State → Incoming → State × List Effect
unfolding get_or_create_conversation
chat x s msg =
    let (s', csid) = get_or_create_conversation x s msg.session_key in in_turn x s' csid msg

abbrev pub reset_text : Text
reset_text = codes "会话已重置，开始新对话"

-- A reset that fails is not handled, and the message goes on to the agent.
abbrev pub after_reset : Env → State × Option Text → Incoming → State × List Effect
after_reset x (s, none) msg = (s, reply reset_text ∷ [])
after_reset x (s, some e) msg = chat x s msg

unfoldable pub by_command : Env → State → Incoming → Option Command → State × List Effect
unfolding chat reset_session
by_command x s msg none = chat x s msg
by_command x s msg (some reset) = after_reset x (reset_session x s msg.session_key) msg
by_command x s msg (some skill) = chat x s (handle_skill_command msg)

-- MessageHandler
unfoldable pub message_handler : Env → State → Incoming → State × List Effect
unfolding by_command detect_command
message_handler x s msg = by_command x s msg (detect_command msg.content)
