-- ===== src/Channel/Handler/Handled.antt =====
-- Which messages of a chat platform reach the agent, and in which conversation, in
-- pkg/web/api/handle_platform.go and pkg/services/stores/conversation.go.
use morign.Base.{
  ◌≡◌, ◌∙◌, ap, refl, true, false, none, some, List, [], ◌∷◌, Text, All, is_empty, lookup,
  lookup-insert_self, lookup-delete_eq, text_eq_refl, delete, Result, ok, err, arith, Bool-cases,
  inl, inr,
}
use mathlib.Core.Path.{subst, sym}
use morign.Turn.{Store, ChatTurn, TurnGate, TurnError, find_key, acquire_turn}
use morign.Channel.Handler.{
  State, Env, Effect, reply, run, stored_csid, get_or_create_conversation, reset_session, basic_of,
  after_gate, in_turn, chat, by_command, message_handler, reset_text,
}
use morign.Channel.Handler.Commands.{Incoming, reset, detect_command}
use morign.Turn.Once.{is_rerunnable, acquire_turn_shut}
use morign.Web.Chat.{turn_key_for_channel}

abbrev pub IsNoRun : Effect → Type 0
IsNoRun (reply text) = Unit
IsNoRun (run csid turn msg) = ⊥

after_gate_shut :
    (s : State) (csid : Text) (msg : Incoming) (r : Store × Result TurnError TurnGate)
    → ((g : TurnGate) → r.1 ≡ ok g → g.proceed ≡ false)
    → All IsNoRun (after_gate s csid msg r).1
after_gate_shut s csid msg (turns, err e) h = (tt, tt)
after_gate_shut s csid msg (turns, ok g) h = elim (Bool-cases g.replay) [
  | inl again ↦ rw again (tt, tt)
  | inr new ↦ rw (new, h g refl) tt
]

after_gate-turns :
    (s : State) (csid : Text) (msg : Incoming) (r : Store × Result TurnError TurnGate)
    → (after_gate s csid msg r).0.turns ≡ r.0
after_gate-turns s csid msg (turns, err e) = refl
after_gate-turns s csid msg (turns, ok g) = ground arith

-- When the lookup of the conversation is not answered because the read fails, and the write after it
-- succeeds, the message gets a new conversation, and the map has that one for the session from then
-- on, whichever it had before.
pub get_failure_replaces :
    (x : Env) (s : State) (key : Text)
    → x.get_fails ≡ true
    → x.set_fails ≡ false
    → x.valid [] ≡ false
    → ((get_or_create_conversation x s key).1 ≡ x.id_text s.next)
      × (lookup key (get_or_create_conversation x s key).0.sessions ≡ some (x.id_text s.next))
unfolding get_or_create_conversation
get_failure_replaces x s key h w v =
    (ground arith, ground (arith, lookup-insert_self key (x.id_text s.next) s.sessions))

-- A session without a stored conversation gets a new one, and the map has it when it can be written.
fresh_conversation :
    (x : Env) (s : State) (key : Text)
    → lookup key s.sessions ≡ none
    → x.valid [] ≡ false
    → x.set_fails ≡ false
    → ((get_or_create_conversation x s key).1 ≡ x.id_text s.next)
      × (lookup key (get_or_create_conversation x s key).0.sessions ≡ some (x.id_text s.next))
unfolding get_or_create_conversation
fresh_conversation x s key h v w =
    let blank : stored_csid x s key ≡ [] = ground (arith, h) in
    (rw (blank, v) refl, rw (blank, v, w) (lookup-insert_self key (x.id_text s.next) s.sessions))

-- A run is one in the conversation.
abbrev pub RunsIn : Text → Effect → Type 0
RunsIn csid (reply text) = Unit
RunsIn csid (run csid' turn msg) = csid' ≡ csid

after_gate-RunsIn :
    (s : State) (csid : Text) (msg : Incoming) (r : Store × Result TurnError TurnGate)
    → All (RunsIn csid) (after_gate s csid msg r).1
      × ((after_gate s csid msg r).0.sessions ≡ s.sessions)
after_gate-RunsIn s csid msg (turns, err e) = ((tt, tt), refl)
after_gate-RunsIn s csid msg (turns, ok g) = elim (Bool-cases g.replay) [
  | inl again ↦ rw again ((tt, tt), refl)
  | inr new ↦ elim (Bool-cases g.proceed) [
    | inl goes ↦ rw (new, goes) ((refl, tt), refl)
    | inr shut ↦ rw (new, shut) (tt, refl)
  ]
]

in_turn-RunsIn :
    (x : Env) (s : State) (csid : Text) (msg : Incoming)
    → All (RunsIn csid) (in_turn x s csid msg).1 × ((in_turn x s csid msg).0.sessions ≡ s.sessions)
in_turn-RunsIn x s csid msg = elim (Bool-cases (is_empty msg.message_id)) [
  | inl unnamed ↦ rw unnamed ((refl, tt), refl)
  | inr named ↦
      rw named
        (after_gate-RunsIn s csid msg (acquire_turn x.faults s.turns (basic_of x msg) x.owner))
]

-- A reset, and a message that is no command, as calls of the handlers.
reset_lem :
    (x : Env) (s : State) (msg : Incoming)
    → detect_command msg.content ≡ some reset
    → x.reset_fails ≡ none
    → message_handler x s msg
      ≡ (record s { sessions = delete msg.session_key s.sessions }, reply reset_text ∷ [])
unfolding message_handler by_command reset_session
reset_lem x s msg h k = rw h (ground arith)

chat_lem :
    (x : Env) (s : State) (msg : Incoming) (key : Text)
    → detect_command msg.content ≡ none
    → msg.session_key ≡ key
    → message_handler x s msg
      ≡ in_turn x (get_or_create_conversation x s key).0 (get_or_create_conversation x s key).1 msg
unfolding message_handler by_command chat
chat_lem x s msg key plain same = rw plain (
    ap
      (λ (k : Text).
        in_turn x (get_or_create_conversation x s k).0 (get_or_create_conversation x s k).1 msg)
      same)

-- When Redis does not fail to delete and to write: a message that is a command for a new
-- conversation takes the conversation of its session away whatever the turn of its number is, also
-- when it is delivered again after the user went on in a new conversation. The next message of the
-- session that is no command is run, if it is, in one more conversation, which the session has from
-- then on, and the reset itself is answered and makes no turn.
pub reset_is_repeated :
    (x : Env) (s : State) (msg after : Incoming)
    → detect_command msg.content ≡ some reset
    → detect_command after.content ≡ none
    → after.session_key ≡ msg.session_key
    → x.reset_fails ≡ none
    → x.set_fails ≡ false
    → x.valid [] ≡ false
    → ((message_handler x s msg).1 ≡ reply reset_text ∷ [])
      × ((message_handler x s msg).0.turns ≡ s.turns)
      × All (RunsIn (x.id_text s.next)) (message_handler x (message_handler x s msg).0 after).1
      × (lookup msg.session_key (message_handler x (message_handler x s msg).0 after).0.sessions
          ≡ some (x.id_text s.next))
reset_is_repeated x s msg after h plain same k set v =
    let key : Text = msg.session_key in
    let s' : State = record s { sessions = delete key s.sessions } in
    let gone : lookup key s'.sessions ≡ none =
      lookup-delete_eq key key s.sessions (text_eq_refl key) in
    let made = fresh_conversation x s' key gone v set in
    let conversation = get_or_create_conversation x s' key in
    let runs = in_turn-RunsIn x conversation.0 conversation.1 after in
    let first = reset_lem x s msg h k in
    let second =
      ap (λ (r : State × List Effect). message_handler x r.0 after) first
      ∙ chat_lem x s' after key plain same in
    (
      ap (λ (r : State × List Effect). r.1) first,
      ap (λ (r : State × List Effect). r.0.turns) first,
      subst (λ (r : State × List Effect). All (RunsIn (x.id_text s.next)) r.1) (sym second)
          (subst (λ (c : Text). All (RunsIn c) (in_turn x conversation.0 conversation.1 after).1)
            made.0 runs.0),
      ap (λ (r : State × List Effect). lookup key r.0.sessions) second
          ∙ ap (lookup key) runs.1
          ∙ made.1,
    )

get_or_create-turns :
    (x : Env) (s : State) (key : Text) → (get_or_create_conversation x s key).0.turns ≡ s.turns
unfolding get_or_create_conversation
get_or_create-turns x s key = ground arith

-- A message that has a number and is no command does not reach the agent, and leaves the turns as
-- they are, when the turn of its number has neither failed nor been cancelled, whatever
-- conversation it is in and whichever calls fail.
pub message_handler_once :
    (x : Env) (s : State) (msg : Incoming) (t : ChatTurn)
    → detect_command msg.content ≡ none
    → is_empty msg.message_id ≡ false
    → find_key (turn_key_for_channel x.channel msg.message_id) s.turns.turns ≡ some t
    → is_rerunnable t.status ≡ false
    → All IsNoRun (message_handler x s msg).1 × ((message_handler x s msg).0.turns ≡ s.turns)
unfolding message_handler by_command chat
message_handler_once x s msg t plain numbered found shut =
    let made = get_or_create_conversation x s msg.session_key in
    let s' : State = made.0 in
    let turns : s'.turns ≡ s.turns = get_or_create-turns x s msg.session_key in
    let found' : find_key (turn_key_for_channel x.channel msg.message_id) s'.turns.turns ≡ some t =
      rw turns found in
    let gate = acquire_turn_shut x.faults s'.turns (basic_of x msg) x.owner t found' shut in
    rw (plain, numbered)
      (
        after_gate_shut s' made.1 msg (acquire_turn x.faults s'.turns (basic_of x msg) x.owner)
            (λ g e. (gate.1 g e).0),
        after_gate-turns s' made.1 msg (acquire_turn x.faults s'.turns (basic_of x msg) x.owner)
            ∙ (gate.0 ∙ turns),
      )
