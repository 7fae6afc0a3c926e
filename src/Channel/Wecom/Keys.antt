-- ===== src/Channel/Wecom/Keys.antt =====
-- The session keys of pkg/services/channels/wecom/websocket.go: what handleMsgCallback hands on, and
-- what ReconstructReplyCtx reads in it again.
use morign.Base.{
  ◌≡◌, refl, Bool, true, false, some, [], ◌∷◌, ◌++◌, Text, All, codes, text_eq, ◌==◌, ok,
  Bool-cases, inl, inr, ap, ◌∙◌,
}
use morign.Channel.Guards.{allow_list}
use morign.Channel.Wecom.{
  CallbackBody, Message, colon, cut_colon, session_key, reconstruct_reply_ctx, context_of,
  first_cut, second_cut, chat_of, by_type, message_of, handle_msg_callback, strip_mentions,
  heard_voice,
}
use mathlib.Core.Path.{subst}

-- A text without a colon.
abbrev pub NoColon : Text → Type 0
NoColon = All (λ c. (c == colon) ≡ false)

cut_colon-append :
    (chat rest : Text) → NoColon chat → cut_colon (chat ++ (colon ∷ rest)) ≡ some (chat, rest)
unfolding cut_colon
cut_colon-append [] rest h = refl
cut_colon-append (c ∷ chat) rest h = rw h.0 (rw (cut_colon-append chat rest h.1) refl)

reconstruct-session_key :
    (quote : Text → Text) (chat user : Text)
    → NoColon chat
    → reconstruct_reply_ctx quote (session_key chat user)
      ≡ ok (record { req_id = []; chat_id = chat; chat_type = []; user_id = user })
unfolding reconstruct_reply_ctx session_key text_eq
reconstruct-session_key quote chat user h =
    let key : Text = session_key chat user in
    ap (λ x. context_of quote key (first_cut x))
      (cut_colon-append (codes "wecom") (chat ++ (colon ∷ user))
        (refl, (refl, (refl, (refl, (refl, tt))))))
    ∙ ap (λ x. context_of quote key (second_cut (codes "wecom") x)) (cut_colon-append chat user h)

-- What a message has of the body that it was made of.
record IsMessageOf (b : CallbackBody) (m : Message) : Type 0 where
  key : m.session_key ≡ session_key (chat_of b) b.user_id
  user : m.user_id ≡ b.user_id

message_of-IsMessageOf :
    (req_id : Text) (b : CallbackBody) (content : Text) (voice? : Bool)
    → IsMessageOf b (message_of req_id b content voice?)
unfolding message_of
message_of-IsMessageOf req_id b content voice? = record { key = refl; user = refl }

heard_voice-IsMessageOf :
    (req_id : Text) (b : CallbackBody) (text : Text) {m : Message}
    → heard_voice req_id b text ≡ some m
    → IsMessageOf b m
heard_voice-IsMessageOf req_id b [] h = cc
heard_voice-IsMessageOf req_id b (c ∷ text) h =
    subst (IsMessageOf b) (cc) (message_of-IsMessageOf req_id b (c ∷ text) true)

by_type-IsMessageOf :
    (bot_id req_id : Text) (b : CallbackBody) {m : Message}
    → by_type bot_id req_id b ≡ some m
    → IsMessageOf b m
unfolding by_type
by_type-IsMessageOf bot_id req_id b {m} h = elim (Bool-cases (text_eq b.msg_type (codes "text"))) [
  | inl is_text ↦
      let h' = rw is_text at h in
      subst (IsMessageOf b) (cc)
        (message_of-IsMessageOf req_id b (strip_mentions b.text bot_id) false)
  | inr other ↦ elim (Bool-cases (text_eq b.msg_type (codes "voice"))) [
    | inl is_voice ↦
        heard_voice-IsMessageOf req_id b (strip_mentions b.voice bot_id) (rw (other, is_voice) at h)
    | inr unknown ↦ let h' = rw (other, unknown) at h in absurd (cc)
  ]
]

-- A message that the callback hands to the handler is from a user on the allow list, and where the
-- chat of the callback has no colon in its name, the session key of the message gives a context for
-- sending to that chat and that user.
pub handle_msg_callback-reconstruct :
    (quote : Text → Text) (fold : Text → Text → Bool) (allow_from bot_id req_id : Text)
    (b : CallbackBody) {m : Message}
    → handle_msg_callback fold allow_from bot_id req_id (some b) ≡ some m
    → NoColon (chat_of b)
    → (allow_list fold allow_from b.user_id ≡ true)
      × (reconstruct_reply_ctx quote m.session_key
          ≡ ok (record { req_id = []; chat_id = chat_of b; chat_type = []; user_id = m.user_id }))
unfolding handle_msg_callback
handle_msg_callback-reconstruct quote fold allow_from bot_id req_id b {m} h plain =
    elim (Bool-cases (allow_list fold allow_from b.user_id)) [
      | inl allowed ↦
          let made = by_type-IsMessageOf bot_id req_id b {m = m} (rw allowed at h) in
          (
            allowed,
            rw (made.key, made.user) (reconstruct-session_key quote (chat_of b) b.user_id plain),
          )
      | inr refused ↦ let h' = rw refused at h in absurd (cc)
    ]
