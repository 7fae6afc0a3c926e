-- ===== src/Tests/Platforms.antt =====
-- Concrete messages of chat platforms: pkg/services/channels/wecom and
-- pkg/web/api/handle_platform.go.
use morign.Base.{
  ℕ, zero, suc, ◌≡◌, inl, refl, true, false, Option, none, some, List, [], ◌∷◌, Text, All, codes,
  text_eq, ok, pos, arith, lookup, insert, delete, has_prefix, trim_space,
}
use morign.Turn.{
  succeeded, ChatTurn, find_key, find_id, no_faults, acquire_turn, after_create, after_lookup, act,
  create_turn, start_running, update_turn_status,
}
use morign.Channel.Guards.{allow_list}
use morign.Channel.Wecom.{
  CallbackBody, Message, chat_of, handle_msg_callback, message_of, reconstruct_reply_ctx,
}
use morign.Channel.Wecom.Split.{
  split_by_bytes, IsSplit, split_by_bytes-IsSplit, ShortRuns, StartsWhole,
  split_by_bytes-StartsWhole,
}
use morign.Channel.Wecom.Keys.{handle_msg_callback-reconstruct}
use morign.Channel.Wecom.Acks.{
  Frame, Acks, idle, here, next, stored, frame_read, handle_frame, store, close_connection,
  connection_closed, reader_never_waits, begun, later, unnamed_acks_unheard,
}
use morign.Channel.Handler.{
  State, Env, message_handler, by_command, chat, get_or_create_conversation, reset_session, reply,
  run, reset_text,
}
use morign.Channel.Handler.Commands.{Incoming, reset, detect_command, is_command_match}
use morign.Channel.Handler.Handled.{IsNoRun, RunsIn, message_handler_once, reset_is_repeated}
use morign.Web.Chat.{turn_key_for_channel}

-- Two characters of three bytes each.
abbrev two_characters : List ℕ
two_characters = 0xe4 ∷ (0xbd ∷ (0xa0 ∷ (0xe5 ∷ (0xa5 ∷ (0xbd ∷ [])))))

split_two :
    split_by_bytes two_characters 4
    ≡ (0xe4 ∷ (0xbd ∷ (0xa0 ∷ []))) ∷ ((0xe5 ∷ (0xa5 ∷ (0xbd ∷ []))) ∷ [])
unfolding split_by_bytes
split_two = refl

split_by_bytes-IsSplit_example : IsSplit 4 two_characters (split_by_bytes two_characters 4)
split_by_bytes-IsSplit_example = split_by_bytes-IsSplit two_characters 4 (omega arith)

two_characters_short : ShortRuns two_characters
two_characters_short zero p q r = cc
two_characters_short (suc zero) p q r = cc
two_characters_short (suc (suc zero)) p q r = cc
two_characters_short (suc (suc (suc i))) p q r = refl

split_by_bytes-StartsWhole_example : All StartsWhole (split_by_bytes two_characters 4)
split_by_bytes-StartsWhole_example =
    split_by_bytes-StartsWhole two_characters 4 (omega arith) two_characters_short refl

abbrev hello : CallbackBody
hello = record {
  msg_id = codes "m";
  chat_id = codes "c";
  chat_type = codes "group";
  user_id = codes "u";
  msg_type = codes "text";
  text = codes "@b hi";
  voice = [];
}

abbrev hello_message : Option Message
hello_message = some (message_of (codes "r") hello (codes "hi") false)

hello_heard : handle_msg_callback text_eq [] (codes "b") (codes "r") (some hello) ≡ hello_message
unfolding handle_msg_callback allow_list trim_space text_eq has_prefix
hello_heard = refl

handle_msg_callback-reconstruct_example :
    (allow_list text_eq [] (codes "u") ≡ true)
    × (reconstruct_reply_ctx (λ s. s) (message_of (codes "r") hello (codes "hi") false).session_key
        ≡ ok (record { req_id = []; chat_id = codes "c"; chat_type = []; user_id = codes "u" }))
unfolding chat_of message_of
handle_msg_callback-reconstruct_example =
    handle_msg_callback-reconstruct (λ s. s) text_eq [] (codes "b") (codes "r") hello hello_heard
      (refl, tt)

abbrev answer_frame : Frame
answer_frame = record { cmd = codes "x"; req_id = codes "a"; err_code = some (pos 0); err_msg = [] }

abbrev answered : Acks
answered = handle_frame answer_frame (store (codes "a") idle)

reader_never_waits_example :
    (answered.blocked ≡ false)
    × ((id : Text)
        → answered.waiting id ≡ true
        → ((close_connection answered).box id ≡ some (some connection_closed))
          × ((close_connection answered).waiting id ≡ false))
reader_never_waits_example =
    reader_never_waits (next (next here (stored (codes "a") refl)) (frame_read answer_frame))

abbrev error_frame : Frame
error_frame = record { cmd = []; req_id = codes "a"; err_code = some (pos 40058); err_msg = [] }

abbrev asking : Acks
asking = store (codes "a") idle

unnamed_acks_unheard_example : (handle_frame error_frame asking).box (codes "a") ≡ none
unnamed_acks_unheard_example =
    unnamed_acks_unheard (codes "a") {s = idle}
      (later (later begun (stored (codes "a") refl) tt) (frame_read error_frame) (inl refl)) refl

abbrev wecom : Env
wecom = record {
  get_fails = false;
  set_fails = false;
  reset_fails = none;
  faults = no_faults;
  valid = λ csid. text_eq csid (codes "c0");
  id_text = λ n. codes "c1";
  sha = λ t. t;
  channel = codes "wecom";
  owner = 0;
}

abbrev told : ChatTurn
told = record {
  id = 1;
  idempotency_key = codes "wecom:m";
  status = succeeded;
  request_digest = [];
  owner_id = 0;
  result = codes "yes";
}

abbrev platform : State
platform = record {
  sessions = (codes "s", codes "c0") ∷ [];
  turns = record { turns = told ∷ []; next_id = 2 };
  next = 0;
}

abbrev incoming : Text → Incoming
incoming content = record {
  session_key = codes "s";
  message_id = codes "m";
  content = content;
  skill_name = [];
}

no_command : detect_command (codes "hi") ≡ none
unfolding detect_command trim_space has_prefix
no_command = refl

told_found :
    find_key (turn_key_for_channel (codes "wecom") (codes "m")) platform.turns.turns ≡ some told
unfolding find_key turn_key_for_channel text_eq
told_found = refl

message_handler_once_example :
    All IsNoRun (message_handler wecom platform (incoming (codes "hi"))).1
    × ((message_handler wecom platform (incoming (codes "hi"))).0.turns ≡ platform.turns)
message_handler_once_example =
    message_handler_once wecom platform (incoming (codes "hi")) told no_command refl told_found refl

new_command : detect_command (codes " /new please") ≡ some reset
unfolding detect_command trim_space has_prefix
new_command = refl

-- The next message, which has another number.
abbrev going_on : Incoming
going_on = record (incoming (codes "hi")) { message_id = codes "n" }

abbrev after_reset : State
after_reset = (message_handler wecom platform (incoming (codes " /new please"))).0

reset_is_repeated_example :
    ((message_handler wecom platform (incoming (codes " /new please"))).1 ≡ reply reset_text ∷ [])
    × (after_reset.turns ≡ platform.turns)
    × All (RunsIn (codes "c1")) (message_handler wecom after_reset going_on).1
    × (lookup (codes "s") (message_handler wecom after_reset going_on).0.sessions
        ≡ some (codes "c1"))
unfolding text_eq
reset_is_repeated_example =
    reset_is_repeated wecom platform (incoming (codes " /new please")) going_on new_command
      no_command refl refl refl refl

-- It is run there.
going_on_runs :
    (message_handler wecom after_reset going_on).1 ≡ run (codes "c1") (some 2) going_on ∷ []
unfolding message_handler by_command chat get_or_create_conversation detect_command is_command_match
    reset_session acquire_turn after_create after_lookup act create_turn start_running
    update_turn_status find_key find_id trim_space has_prefix text_eq lookup delete insert
    turn_key_for_channel
going_on_runs = refl
