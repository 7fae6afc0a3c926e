-- ===== src/Channel/Wecom.antt =====
-- pkg/services/channels/wecom/websocket.go: the WeCom channel over a web socket. A decoded frame
-- is a record; the socket is given by which writes fail; what a call does is the list of its
-- effects.
pub mod Acks
pub mod Beats
pub mod Keys
pub mod Split
use morign.Base.{
  ℕ, zero, suc, ◌-◌, Bool, true, false, Option, none, some, List, [], ◌∷◌, ◌++◌, Text, codes,
  is_empty, text_eq, has_prefix, trim_space, if◌then◌else◌, ◌==◌, length, Result, ok, err,
}
use morign.Channel.Guards.{allow_list}

-- wsReplyContext
pub record ReplyContext : Type 0 where
  pub req_id : Text
  pub chat_id : Text
  pub chat_type : Text
  pub user_id : Text

-- wsMsgCallbackBody, without the identifier of the bot and the time, which nothing reads.
pub record CallbackBody : Type 0 where
  pub msg_id : Text
  pub chat_id : Text
  pub chat_type : Text
  pub user_id : Text
  pub msg_type : Text
  pub text : Text
  pub voice : Text

-- The message that is handed to the handler.
pub record Message : Type 0 where
  pub session_key : Text
  pub message_id : Text
  pub user_id : Text
  pub chat_name : Text
  pub content : Text
  pub reply_ctx : ReplyContext
  pub from_voice : Bool

-- The text after the first colon, and the text before it.
abbrev pub put_before : ℕ → Option (Text × Text) → Option (Text × Text)
put_before c none = none
put_before c (some (before, after)) = some (c ∷ before, after)

abbrev pub colon : ℕ
colon = 0x3a

unfoldable pub cut_colon : Text → Option (Text × Text)
cut_colon [] = none
cut_colon (c ∷ s) =
    let rest = put_before c (cut_colon s) in if c == colon then some ([], s) else rest

-- `fmt.Sprintf("wecom:%s:%s", chatID, userID)`
unfoldable pub session_key : Text → Text → Text
session_key chat user = codes "wecom:" ++ (chat ++ (colon ∷ user))

abbrev pub bad_key : (Text → Text) → Text → Text
bad_key quote key = codes "wecom-ws: invalid session key " ++ quote key

-- The three parts of `strings.SplitN(sessionKey, ":", 3)`, when there are so many.
abbrev pub second_cut : Text → Option (Text × Text) → Option (Text × Text × Text)
second_cut first none = none
second_cut first (some (second, third)) = some (first, second, third)

abbrev pub first_cut : Option (Text × Text) → Option (Text × Text × Text)
first_cut none = none
first_cut (some (first, rest)) = second_cut first (cut_colon rest)

abbrev pub context_of :
    (Text → Text) → Text → Option (Text × Text × Text) → Result Text ReplyContext
context_of quote key none = err (bad_key quote key)
context_of quote key (some (first, chat, user)) =
    if text_eq first (codes "wecom")
    then ok (record { req_id = []; chat_id = chat; chat_type = []; user_id = user })
    else err (bad_key quote key)

-- ReconstructReplyCtx; `quote` is the `%q` of Go.
unfoldable pub reconstruct_reply_ctx : (Text → Text) → Text → Result Text ReplyContext
unfolding cut_colon
reconstruct_reply_ctx quote key = context_of quote key (first_cut (cut_colon key))

-- `strings.ReplaceAll(s, part, "")` for a part that is not empty, with the letters still to be
-- dropped.
unfoldable pub without_from : ℕ → Text → Text → Text
without_from skip part [] = []
without_from (suc skip) part (c ∷ s) = without_from skip part s
without_from zero part (c ∷ s) = elim (has_prefix (c ∷ s) part) [
  | true ↦ without_from (length part - 1) part s
  | false ↦ c ∷ without_from 0 part s
]

-- stripWeComAtMentions
unfoldable pub strip_mentions : Text → Text → Text
unfolding without_from
strip_mentions [] bot_id = []
strip_mentions (c ∷ content) bot_id =
    trim_space (without_from 0 (codes "@所有人") (without_from 0 (0x40 ∷ bot_id) (c ∷ content)))

-- The chat that a message belongs to: that of the user if it names none.
unfoldable pub chat_of : CallbackBody → Text
chat_of b = if is_empty b.chat_id then b.user_id else b.chat_id

abbrev chat_name_of : CallbackBody → Text
chat_name_of b = if text_eq b.chat_type (codes "group") then b.chat_id else []

unfoldable pub message_of : Text → CallbackBody → Text → Bool → Message
unfolding chat_of
message_of req_id b content voice? = record {
  session_key = session_key (chat_of b) b.user_id;
  message_id = b.msg_id;
  user_id = b.user_id;
  chat_name = chat_name_of b;
  content = content;
  reply_ctx = record {
    req_id = req_id;
    chat_id = chat_of b;
    chat_type = b.chat_type;
    user_id = b.user_id;
  };
  from_voice = voice?;
}

abbrev pub heard_voice : Text → CallbackBody → Text → Option Message
heard_voice req_id b [] = none
heard_voice req_id b (c ∷ text) = some (message_of req_id b (c ∷ text) true)

unfoldable pub by_type : Text → Text → CallbackBody → Option Message
unfolding message_of strip_mentions
by_type bot_id req_id b =
    if text_eq b.msg_type (codes "text")
    then some (message_of req_id b (strip_mentions b.text bot_id) false)
    else if text_eq b.msg_type (codes "voice")
    then heard_voice req_id b (strip_mentions b.voice bot_id)
    else none

-- handleMsgCallback, for a body that was decoded (or not): the message for the handler.
unfoldable pub handle_msg_callback :
    (Text → Text → Bool) → Text → Text → Text → Option CallbackBody → Option Message
unfolding by_type
handle_msg_callback fold allow_from bot_id req_id none = none
handle_msg_callback fold allow_from bot_id req_id (some b) =
    if allow_list fold allow_from b.user_id then by_type bot_id req_id b else none

-- buildStreamFrame
pub record StreamFrame : Type 0 where
  pub cmd : Text
  pub req_id : Text
  pub stream_id : Text
  pub finish : Bool
  pub content : Text

unfoldable pub build_stream_frame : ReplyContext → Text → Text → Bool → StreamFrame
build_stream_frame rc stream_id content finish? = record {
  cmd = codes "aibot_respond_msg";
  req_id = rc.req_id;
  stream_id = stream_id;
  finish = finish?;
  content = content;
}

-- The writes of a call, and the error that it returns: `write` says which frame fails.
abbrev pub Written : Type 0
Written = List StreamFrame × Option Text

abbrev after_start :
    (StreamFrame → Option Text) → ReplyContext → Text → Text → Option Text → Written
after_start write rc stream_id content (some e) =
    (build_stream_frame rc stream_id content false ∷ [], some e)
after_start write rc stream_id content none =
    let last = build_stream_frame rc stream_id content true in
    (build_stream_frame rc stream_id content false ∷ (last ∷ []), write last)

-- Reply: StartStream and FinishStream, under the identifier that the first one makes.
unfoldable pub reply : (StreamFrame → Option Text) → ReplyContext → Text → Text → Written
unfolding build_stream_frame
reply write rc stream_id [] = ([], none)
reply write rc stream_id (c ∷ content) =
    after_start write rc stream_id (c ∷ content)
      (write (build_stream_frame rc stream_id (c ∷ content) false))

-- The loop of Send over the chunks, for what writeAndWaitAck returns for each: the chunks that were
-- written, and the error.
unfoldable pub send_chunks : (List ℕ → Option Text) → List (List ℕ) → List (List ℕ) × Option Text
send_chunks acked [] = ([], none)
send_chunks acked (chunk ∷ chunks) =
    let rest = send_chunks acked chunks in
    elim (acked chunk) [ some e ↦ (chunk ∷ [], some e) | none ↦ (chunk ∷ rest.0, rest.1) ]
