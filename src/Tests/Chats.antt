-- ===== src/Tests/Chats.antt =====
-- Concrete chat requests: pkg/web/api/handle_convo.go and handle_turn.go.
use morign.Base.{
  ℕ, zero, suc, ◌≡◌, ◌⊎◌, ap, ◌++◌, length, refl, true, false, none, some, List, [], ◌∷◌, Text,
  codes, ok, text_eq,
}
use morign.Llm.{Message, system}
use morign.History.{HistoryItem, recently_with_tokens, calc_tokens}
use morign.Turn.{Store, ChatTurn, succeeded, find_key, no_faults}
use morign.Web.Chat.{
  ChatRequest, Codec, Run, Effect, reply_cached, ask, web_turn_key, used_history, is_retry,
  post_chat, get_conversion_id,
}
use morign.Web.Identity.{IsCodec, Collide, digested, keyed, web_turn_key_inj}
use morign.Web.Repeated.{chats_of, asked, post_chat_repeats, post_chat_retries}

-- A digest of 64 characters: the first ones of the text, filled up.
abbrev filled : ℕ → Text → Text
filled zero t = []
filled (suc n) [] = 0x30 ∷ filled n []
filled (suc n) (c ∷ t) = c ∷ filled n t

length-filled : (n : ℕ) (t : Text) → length (filled n t) ≡ n
length-filled zero t = refl
length-filled (suc n) [] = ap suc (length-filled n [])
length-filled (suc n) (c ∷ t) = ap suc (length-filled n t)

abbrev first_64 : Codec
first_64 = record { sha = filled 64; owner_text = λ n. n ∷ []; nonce = codes "n" }

first_64-IsCodec : IsCodec first_64
first_64-IsCodec = record {
  sha_length = length-filled 64;
  owner_inj = λ a b h. cc h;
  owner_named = λ a h. cc h;
}

abbrev question : ChatRequest
question = record {
  prompt = codes "hi";
  conversation_id = [];
  option_id = [];
  regenerate = false;
  skills = [];
  mcps = [];
}

-- The same conversation, named in the two fields that may name it.
abbrev named : ChatRequest
named = record question { conversation_id = codes "c" }

abbrev named_by_option : ChatRequest
named_by_option = record question { option_id = codes "c" }

web_turn_key_inj_example :
    Collide first_64 (keyed first_64 7 named) (keyed first_64 7 named_by_option)
    ⊎ (Collide first_64 (digested named ++ (0 ∷ [])) (digested named_by_option ++ (0 ∷ []))
        ⊎ ((◌≡◌ {A = ℕ} 7 7)
            × (get_conversion_id named ≡ get_conversion_id named_by_option)
            × (named.prompt ≡ named_by_option.prompt)))
unfolding get_conversion_id web_turn_key
web_turn_key_inj_example =
    web_turn_key_inj first_64 first_64-IsCodec 7 7 named named_by_option
      ((λ e. cc), ((λ e. cc), tt)) ((λ e. cc), ((λ e. cc), tt)) ((λ e. cc), tt) ((λ e. cc), tt) refl

-- The digest as the text itself.
abbrev plain : Codec
plain = record { sha = λ t. t; owner_text = λ n. n ∷ []; nonce = codes "n" }

abbrev answered : ChatTurn
answered = record {
  id = 1;
  idempotency_key = (web_turn_key plain 0 question false).0;
  status = succeeded;
  request_digest = (web_turn_key plain 0 question false).1;
  owner_id = 0;
  result = codes "hello";
}

abbrev turns : Store
turns = record { turns = answered ∷ []; next_id = 2 }

abbrev sys_msg : Message
sys_msg = record { role = system; content = []; thinking = []; tool_calls = []; tool_call_id = [] }

abbrev said : Run
said = record { answer = ok (codes "hello"); tool_ran = false; cancelled? = false }

answered_found : find_key (web_turn_key plain 0 question false).0 turns.turns ≡ some answered
unfolding find_key web_turn_key text_eq get_conversion_id
answered_found = refl

-- A visitor who opens a new conversation with a question that another visitor has opened one with.
post_chat_repeats_example :
    post_chat plain no_faults turns 0 sys_msg (ok []) question said
    ≡ (turns, reply_cached (codes "hello") ∷ [])
unfolding used_history is_retry
post_chat_repeats_example =
    post_chat_repeats plain turns 0 question sys_msg (ok []) said answered refl answered_found refl
      refl refl

abbrev chat_item : Text → Text → HistoryItem
chat_item asked' answer = record {
  time = 0;
  uid = [];
  chat_item = some (record { user = asked'; assistant = answer; think = [] });
}

abbrev earlier : HistoryItem
earlier = chat_item (codes "who") (codes "me")

abbrev greeting : HistoryItem
greeting = chat_item (codes "hi") (codes "hello")

abbrev both : List HistoryItem
both = earlier ∷ (greeting ∷ [])

greeting_used : used_history (ok both) ≡ both
unfolding used_history recently_with_tokens calc_tokens
greeting_used = refl

no_retry : find_key (web_turn_key plain 0 question true).0 turns.turns ≡ none
unfolding find_key web_turn_key text_eq get_conversion_id
no_retry = refl

post_chat_retries_example :
    (rest : List Effect) × ((post_chat plain no_faults turns 0 sys_msg (ok both) question said).1
      ≡ ask (sys_msg ∷ (chats_of (earlier ∷ []) ++ (asked (codes "hi") ∷ []))) ∷ rest)
post_chat_retries_example =
    post_chat_retries plain turns 0 question sys_msg (ok both) said (earlier ∷ []) greeting
      (record { user = codes "hi"; assistant = codes "hello"; think = [] }) greeting_used refl refl
      no_retry
