-- ===== src/Web/Repeated.antt =====
-- A question that is asked again, in postChat of pkg/web/api/handle_convo.go: which of the two, the
-- earlier answer or a new run, it gets.
use morign.Base.{
  ℕ, ap, ◌∙◌, ◌≡◌, refl, Bool, true, false, none, some, List, [], ◌∷◌, ◌++◌, Text, is_empty,
  text_eq_refl, Result, ok, err, arith,
}
use morign.Llm.{Message, user}
use morign.History.{HistoryItem, HistoryChatItem, last}
use morign.Turn.{
  ChatTurn, ChatTurnBasic, Store, Faults, TurnGate, queued, succeeded, find_key, create_turn,
  get_turn, TurnError, decide, acquire_turn, after_create, act, reply, replaying, start_running,
  proceeding, update_turn_status, no_faults, find_id,
}
use morign.Web.Chat.{
  ChatRequest, Codec, Run, Effect, reply_cached, ask, fail_with, keep_answer, web_turn_key,
  used_history, is_retry, skip_last, acquire_chat_turn, chat_messages, history_messages,
  item_messages, post_chat, after_gate, after_run,
}

-- A turn that succeeded, under the key, for the same content and the same owner.
record Answers (basic : ChatTurnBasic) (owner : ℕ) (t : ChatTurn) : Type 0 where
  status : t.status ≡ succeeded
  digest : t.request_digest ≡ basic.request_digest
  owned : t.owner_id ≡ owner

decide_answered :
    (basic : ChatTurnBasic) (owner : ℕ) (t : ChatTurn)
    → Answers basic owner t
    → decide basic owner t ≡ reply (replaying t.id t.result)
unfolding decide
decide_answered basic owner t a =
    rw (a.digest, a.owned, a.status) (ground (arith, text_eq_refl basic.request_digest))

acquire_turn_answered :
    (s : Store) (basic : ChatTurnBasic) (owner : ℕ) (t : ChatTurn)
    → is_empty basic.idempotency_key ≡ false
    → find_key basic.idempotency_key s.turns ≡ some t
    → Answers basic owner t
    → acquire_turn no_faults s basic owner ≡ (s, ok (replaying t.id t.result))
unfolding acquire_turn create_turn after_create get_turn act
acquire_turn_answered s basic owner t named found a =
    ground (arith, decide_answered basic owner t a)

acquire_turn_new :
    (s : Store) (basic : ChatTurnBasic) (owner : ℕ)
    → is_empty basic.idempotency_key ≡ false
    → find_key basic.idempotency_key s.turns ≡ none
    → (acquire_turn no_faults s basic owner).1 ≡ ok (proceeding s.next_id)
unfolding acquire_turn create_turn after_create start_running update_turn_status find_id
acquire_turn_new s basic owner named found = ground arith

web_turn_key-named :
    (x : Codec) (owner : ℕ) (param : ChatRequest) (retry : Bool)
    → is_empty (web_turn_key x owner param retry).0 ≡ false
unfolding web_turn_key
web_turn_key-named x owner param true = refl
web_turn_key-named x owner param false = refl

after_run_asks :
    (f : Faults) (s : Store) (id : ℕ) (prompt : Text) (messages : List Message) (run : Run)
    (answer : Result Text Text)
    → (rest : List Effect) × ((after_run f s id prompt messages run answer).1 ≡ ask messages ∷ rest)
unfolding after_run
after_run_asks f s id prompt messages run (err e) = (fail_with 500 ∷ [], refl)
after_run_asks f s id prompt messages run (ok answer) =
    (keep_answer prompt answer ++ (Effect.reply answer ∷ []), refl)

after_gate_asks :
    (f : Faults) (prompt : Text) (messages : List Message) (run : Run) (id : ℕ)
    (r : Store × Result TurnError TurnGate)
    → r.1 ≡ ok (proceeding id)
    → (rest : List Effect) × ((after_gate f prompt messages run r).1 ≡ ask messages ∷ rest)
unfolding after_gate
after_gate_asks f prompt messages run id r e =
    rw e (after_run_asks f r.0 id prompt messages run run.answer)

-- The messages of the chats of a history, each with its question and its answer.
abbrev pub chats_of : List HistoryItem → List Message
chats_of [] = []
chats_of (hi ∷ rest) = item_messages hi.chat_item (chats_of rest)

-- The last item is left out when it has a chat and is to be skipped.
history_messages-skip :
    (before : List HistoryItem) (z : HistoryItem) (c : HistoryChatItem)
    → z.chat_item ≡ some c
    → history_messages (before ++ (z ∷ [])) true ≡ chats_of before
unfolding history_messages
history_messages-skip [] z c e = refl
history_messages-skip (hi ∷ []) z c e = refl
history_messages-skip (hi ∷ (next ∷ rest)) z c e =
    ap (item_messages hi.chat_item) (history_messages-skip (next ∷ rest) z c e)

last-append : (before : List HistoryItem) (z : HistoryItem) → last (before ++ (z ∷ [])) ≡ some z
last-append [] z = refl
last-append (hi ∷ []) z = refl
last-append (hi ∷ (next ∷ rest)) z = last-append (next ∷ rest) z

-- The question as the last message.
abbrev pub asked : Text → Message
asked prompt = record {
  role = user;
  content = prompt;
  thinking = [];
  tool_calls = [];
  tool_call_id = [];
}

skip_last_same :
    (param : ChatRequest) (history : List HistoryItem) (z : HistoryItem) (c : HistoryChatItem)
    → last history ≡ some z
    → z.chat_item ≡ some c
    → c.user ≡ param.prompt
    → skip_last param history ≡ true
unfolding skip_last
skip_last_same param history z c e chat same = rw (e, chat, same, text_eq_refl param.prompt) refl

module _ (x : Codec) (s : Store) (owner : ℕ) (param : ChatRequest) where
  abbrev basic_of : Bool → ChatTurnBasic
  basic_of retry = record {
    idempotency_key = (web_turn_key x owner param retry).0;
    status = queued;
    request_digest = (web_turn_key x owner param retry).1;
    owner_id = owner;
  }

  -- When no database call fails: a request that is not taken for a retry, under whose key a turn of
  -- the same content and the same owner has succeeded, however long ago and whatever came after it
  -- in the conversation, gets the answer of that turn, and the model is not asked.
  pub post_chat_repeats :
      (sys_msg : Message) (listed : Result Text (List HistoryItem)) (run : Run) (t : ChatTurn)
      → is_retry param (used_history listed) ≡ false
      → find_key (web_turn_key x owner param false).0 s.turns ≡ some t
      → t.status ≡ succeeded
      → t.request_digest ≡ (web_turn_key x owner param false).1
      → t.owner_id ≡ owner
      → post_chat x no_faults s owner sys_msg listed param run ≡ (s, reply_cached t.result ∷ [])
  unfolding post_chat acquire_chat_turn after_gate
  post_chat_repeats sys_msg listed run t fresh found status digest owned = rw fresh (
      rw
        (acquire_turn_answered s (basic_of false) owner t (web_turn_key-named x owner param false)
          found (record { status = status; digest = digest; owned = owned }))
        refl)

  -- When no database call fails: a request whose prompt is the question of the last chat in the
  -- history is taken for a retry, also when it is a repeated delivery of the request that was
  -- answered there. If its key, with the one-time suffix, is not in the table, the model is
  -- asked: its messages are the system message, those of the chats before that last one, and the
  -- question.
  pub post_chat_retries :
      (sys_msg : Message) (listed : Result Text (List HistoryItem)) (run : Run)
      (before : List HistoryItem) (z : HistoryItem) (c : HistoryChatItem)
      → used_history listed ≡ before ++ (z ∷ [])
      → z.chat_item ≡ some c
      → c.user ≡ param.prompt
      → find_key (web_turn_key x owner param true).0 s.turns ≡ none
      → (rest : List Effect) × ((post_chat x no_faults s owner sys_msg listed param run).1
          ≡ ask (sys_msg ∷ (chats_of before ++ (asked param.prompt ∷ []))) ∷ rest)
  unfolding post_chat acquire_chat_turn is_retry chat_messages
  post_chat_retries sys_msg listed run before z c parts chat same found =
      let history = used_history listed in
      let skipped =
        skip_last_same param history z c (ap (λ h. last h) parts ∙ last-append before z) chat
          same in
      let messages : chat_messages sys_msg [] history param.prompt true
          ≡ sys_msg ∷ (chats_of before ++ (asked param.prompt ∷ [])) =
        ap (λ h. chat_messages sys_msg [] h param.prompt true) parts
        ∙ ap (λ h. sys_msg ∷ (h ++ (asked param.prompt ∷ [])))
            (history_messages-skip before z c chat) in
      let (rest, asks) =
        after_gate_asks no_faults param.prompt (chat_messages sys_msg [] history param.prompt true)
          run s.next_id (acquire_turn no_faults s (basic_of true) owner)
          (acquire_turn_new s (basic_of true) owner (web_turn_key-named x owner param true)
            found) in
      (rest, rw skipped (asks ∙ ap (λ m. ask m ∷ rest) messages))
