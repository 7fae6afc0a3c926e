-- ===== src/Channel/Wecom/Acks.antt =====
-- The answers to what was sent, in pkg/services/channels/wecom/websocket.go. A sender puts a
-- channel with room for one value into `pendingAcks` and waits; the goroutine that reads the
-- socket hands the answer over, and must not wait for the sender. The steps of both are
-- interleaved here.
use morign.Base.{
  ℕ, zero, ◌≡◌, refl, Bool, true, false, Option, none, some, [], ◌++◌, Text, codes, text_eq,
  text_eq_iff, ◌⊎◌, ◌∙◌, sym, if◌then◌else◌, ℤ, pos, int_text, Bool-cases, inl, inr,
}
use Prim.Native.String.{String}

-- wsFrame, without its body.
pub record Frame : Type 0 where
  pub cmd : Text
  pub req_id : Text
  pub err_code : Option ℤ
  pub err_msg : Text

-- The requests in `pendingAcks`, what the channel of a request holds, the count of heartbeats
-- that were not answered, and whether the reader waits for room in a channel.
pub record Acks : Type 0 where
  pub waiting : Text → Bool
  pub box : Text → Option (Option Text)
  pub missed_pong : ℕ
  pub blocked : Bool

abbrev pub put : {A : Type 0} → Text → A → (Text → A) → Text → A
put id a f id' = if text_eq id' id then a else f id'

-- `*frame.ErrCode != 0`
abbrev pub ack_error : Option ℤ → Text → Option Text
ack_error none msg = none
ack_error (some (pos zero)) msg = none
ack_error (some code) msg =
    some (codes "wecom-ws: ack error: errcode=" ++ (int_text code ++ (codes " errmsg=" ++ msg)))

-- `ch <- ackErr`
abbrev pub hand_over : Text → Option Text → Acks → Option (Option Text) → Acks
hand_over id e s (some held) = record s { blocked = true }
hand_over id e s none = record s { box = put id (some e) s.box }

-- LoadAndDelete, and the channel that it gives.
unfoldable pub resolve : Text → Option Text → Acks → Acks
resolve id e s =
    if s.waiting id
    then hand_over id e (record s { waiting = put id false s.waiting }) (s.box id)
    else s

-- handleFrame, without the message callback, which changes none of this.
unfoldable pub handle_frame : Frame → Acks → Acks
unfolding resolve
handle_frame f s =
    if text_eq f.cmd (codes "aibot_msg_callback")
    then s
    else if text_eq f.cmd (codes "aibot_event_callback")
    then s
    else if text_eq f.cmd (codes "ping")
    then record s { missed_pong = 0 }
    else if text_eq f.cmd []
    then record s { missed_pong = 0 }
    else if text_eq f.cmd (codes "aibot_subscribe")
    then s
    else resolve f.req_id (ack_error f.err_code f.err_msg) s

-- The end of runConnection: every channel with room gets the error, and no request is left. Its two
-- loops are taken as one step, so that a request that is stored between them is stored after it here.
abbrev pub connection_closed : Text
connection_closed = codes "wecom-ws: connection closed"

abbrev pub offer : Bool → Option (Option Text) → Option (Option Text)
offer true none = some (some connection_closed)
offer waiting? held = held

unfoldable pub close_connection : Acks → Acks
close_connection s = record s { waiting = λ id. false; box = λ id. offer (s.waiting id) (s.box id) }

-- The parts of writeAndWaitAck: the request is stored, and the write fails or not; the sender takes
-- the answer from its channel, or gives up since its context ended or the time is over.
unfoldable pub store : Text → Acks → Acks
store id s = record s { waiting = put id true s.waiting }

unfoldable pub give_up : Text → Acks → Acks
give_up id s = record s { waiting = put id false s.waiting }

unfoldable pub take_answer : Text → Acks → Acks
take_answer id s = record s { box = put id none s.box }

-- How a wait ends.
pub data Ended : Type 0 where
  answered : Option Text → Ended
  cancelled : Text → Ended
  timed_out : Ended

-- What writeAndWaitAck returns.
unfoldable pub wait_result : Ended → Option Text
wait_result (answered e) = e
wait_result (cancelled e) = some e
wait_result timed_out = none

-- One step of any of the goroutines. A new request has a channel of its own, which is empty.
pub data Step (s : Acks) : Acks → Type 0 where
  stored : (id : Text) → s.box id ≡ none → Step s (store id s)
  gave_up : (id : Text) → Step s (give_up id s)
  took : (id : Text) → Step s (take_answer id s)
  frame_read : (f : Frame) → Step s (handle_frame f s)
  beat : (n : ℕ) → Step s (record s { missed_pong = n })
  closed : Step s (close_connection s)

pub data Reach (s : Acks) : Acks → Type 0 where
  here : Reach s s
  next : {t u : Acks} → Reach s t → Step t u → Reach s u

-- The channel of a request that is pending is empty.
record IsOpen (s : Acks) : Type 0 where
  empty : (id : Text) → s.waiting id ≡ true → s.box id ≡ none
  free : s.blocked ≡ false

put_cases :
    {A : Type 0} (id id' : Text) (a : A) (f : Text → A)
    → ((id' ≡ id) × (put id a f id' ≡ a)) ⊎ (put id a f id' ≡ f id')
put_cases id id' a f = elim (Bool-cases (text_eq id' id)) [
  | inl same ↦ inl ((text_eq_iff id' id).0 same, rw same refl)
  | inr other ↦ inr (rw other refl)
]

store-IsOpen : (id : Text) (s : Acks) → IsOpen s → s.box id ≡ none → IsOpen (store id s)
unfolding store
store-IsOpen id s v e = record {
  empty = λ id' w. elim (put_cases id id' true s.waiting) [
    | inl same ↦ rw same.0 e
    | inr other ↦ v.empty id' (sym other ∙ w)
  ];
  free = v.free;
}

give_up-IsOpen : (id : Text) (s : Acks) → IsOpen s → IsOpen (give_up id s)
unfolding give_up
give_up-IsOpen id s v = record {
  empty = λ id' w. elim (put_cases id id' false s.waiting) [
    | inl same ↦ cc
    | inr other ↦ v.empty id' (sym other ∙ w)
  ];
  free = v.free;
}

take_answer-IsOpen : (id : Text) (s : Acks) → IsOpen s → IsOpen (take_answer id s)
unfolding take_answer
take_answer-IsOpen id s v = record {
  empty = λ id' w. elim (put_cases id id' none s.box) [
    | inl same ↦ same.1
    | inr other ↦ other ∙ v.empty id' w
  ];
  free = v.free;
}

hand_over-IsOpen :
    (id : Text) (e : Option Text) (s : Acks)
    → IsOpen s
    → IsOpen (hand_over id e (record s { waiting = put id false s.waiting }) none)
hand_over-IsOpen id e s v = record {
  empty = λ id' w. elim (Bool-cases (text_eq id' id)) [
    | inl same ↦ let w' = rw same at w in absurd (cc)
    | inr other ↦ rw other (v.empty id' (rw other at w))
  ];
  free = v.free;
}

resolve-IsOpen : (id : Text) (e : Option Text) (s : Acks) → IsOpen s → IsOpen (resolve id e s)
unfolding resolve
resolve-IsOpen id e s v = elim (Bool-cases (s.waiting id)) [
  | inl waits ↦ rw waits (rw (v.empty id waits) (hand_over-IsOpen id e s v))
  | inr gone ↦ rw gone v
]

close_connection-IsOpen : (s : Acks) → IsOpen s → IsOpen (close_connection s)
unfolding close_connection
close_connection-IsOpen s v = record { empty = λ id w. absurd (cc); free = v.free }

if-IsOpen : (b : Bool) (s t : Acks) → IsOpen s → IsOpen t → IsOpen (if b then s else t)
if-IsOpen true s t v w = v
if-IsOpen false s t v w = w

beat-IsOpen : (n : ℕ) (s : Acks) → IsOpen s → IsOpen (record s { missed_pong = n })
beat-IsOpen n s v = record { empty = v.empty; free = v.free }

handle_frame-IsOpen : (f : Frame) (s : Acks) → IsOpen s → IsOpen (handle_frame f s)
unfolding handle_frame
handle_frame-IsOpen f s v =
    let named : String → Bool = λ name. text_eq f.cmd (codes name) in
    if-IsOpen (named "aibot_msg_callback") _ _ v (
      if-IsOpen (named "aibot_event_callback") _ _ v (
        if-IsOpen (named "ping") _ _ (beat-IsOpen 0 s v) (
          if-IsOpen (text_eq f.cmd []) _ _ (beat-IsOpen 0 s v) (
            if-IsOpen (named "aibot_subscribe") _ _ v
              (resolve-IsOpen f.req_id (ack_error f.err_code f.err_msg) s v)))))

Step-IsOpen : {s t : Acks} → Step s t → IsOpen s → IsOpen t
Step-IsOpen {s} (stored id e) v = store-IsOpen id s v e
Step-IsOpen {s} (gave_up id) v = give_up-IsOpen id s v
Step-IsOpen {s} (took id) v = take_answer-IsOpen id s v
Step-IsOpen {s} (frame_read f) v = handle_frame-IsOpen f s v
Step-IsOpen {s} (beat n) v = beat-IsOpen n s v
Step-IsOpen {s} closed v = close_connection-IsOpen s v

-- Before the first request.
abbrev pub idle : Acks
idle = record { waiting = λ id. false; box = λ id. none; missed_pong = 0; blocked = false }

Reach-IsOpen : {s : Acks} → Reach idle s → IsOpen s
Reach-IsOpen here = record { empty = λ id w. refl; free = refl }
Reach-IsOpen (next r st) = Step-IsOpen st (Reach-IsOpen r)

-- However the senders, the heartbeat, the frames that arrive and the ends of connections interleave,
-- the goroutine that reads the socket never waits for room in a channel; and when the connection
-- ends, each request that is pending then has the error of that in its channel, and none is left
-- pending.
pub reader_never_waits :
    {s : Acks}
    → Reach idle s
    → (s.blocked ≡ false)
      × ((id : Text)
          → s.waiting id ≡ true
          → ((close_connection s).box id ≡ some (some connection_closed))
            × ((close_connection s).waiting id ≡ false))
unfolding close_connection
reader_never_waits r =
    let v = Reach-IsOpen r in (v.free, λ id w. (rw w (rw (v.empty id w) refl), refl))

-- Nothing in a step is an answer to the request: a frame that is read has no command, or another
-- identifier, and the connection stands.
abbrev pub IsSilent : {s t : Acks} → Text → Step s t → Type 0
IsSilent id (frame_read f) = (f.cmd ≡ []) ⊎ (text_eq id f.req_id ≡ false)
IsSilent id closed = ⊥
IsSilent id _ = Unit

-- A run of silent steps.
pub data Silence (id : Text) (s : Acks) : Acks → Type 0 where
  begun : Silence id s s
  later : {t u : Acks} → Silence id s t → (st : Step t u) → IsSilent id st → Silence id s u

if-box :
    (id : Text) (b : Bool) (s t : Acks)
    → s.box id ≡ none
    → t.box id ≡ none
    → (if b then s else t).box id ≡ none
if-box id true s t h k = h
if-box id false s t h k = k

hand_over-box :
    (id id' : Text) (e : Option Text) (s : Acks) (held : Option (Option Text))
    → text_eq id id' ≡ false
    → s.box id ≡ none
    → (hand_over id' e s held).box id ≡ none
hand_over-box id id' e s (some held) other h = h
hand_over-box id id' e s none other h = rw other h

resolve-box :
    (id id' : Text) (e : Option Text) (s : Acks)
    → text_eq id id' ≡ false
    → s.box id ≡ none
    → (resolve id' e s).box id ≡ none
unfolding resolve
resolve-box id id' e s other h =
    if-box id (s.waiting id') _ s
      (hand_over-box id id' e (record s { waiting = put id' false s.waiting }) (s.box id') other h)
      h

handle_frame-box :
    (id : Text) (f : Frame) (s : Acks)
    → (f.cmd ≡ []) ⊎ (text_eq id f.req_id ≡ false)
    → s.box id ≡ none
    → (handle_frame f s).box id ≡ none
unfolding handle_frame text_eq
handle_frame-box id f s (inl unnamed) h = rw unnamed h
handle_frame-box id f s (inr other) h =
    let named : String → Bool = λ name. text_eq f.cmd (codes name) in
    if-box id (named "aibot_msg_callback") _ _ h (
      if-box id (named "aibot_event_callback") _ _ h (
        if-box id (named "ping") _ _ h (
          if-box id (text_eq f.cmd []) _ _ h (
            if-box id (named "aibot_subscribe") _ _ h
              (resolve-box id f.req_id (ack_error f.err_code f.err_msg) s other h)))))

take_answer-box : (id id' : Text) (s : Acks) → s.box id ≡ none → (take_answer id' s).box id ≡ none
unfolding take_answer
take_answer-box id id' s h = elim (put_cases id' id none s.box) [
  | inl same ↦ same.1
  | inr other ↦ other ∙ h
]

Step-box :
    (id : Text) {s t : Acks} (st : Step s t) → IsSilent id st → s.box id ≡ none → t.box id ≡ none
unfolding store give_up
Step-box id (stored id' e) q h = h
Step-box id (gave_up id') q h = h
Step-box id {s} (took id') q h = take_answer-box id id' s h
Step-box id {s} (frame_read f) q h = handle_frame-box id f s q h
Step-box id (beat n) q h = h
Step-box id closed q h = absurd q

-- However the goroutines interleave while the connection stands: when all frames that come in under
-- the identifier of a request have no command, whatever their error codes say, the channel of the
-- request is still empty, so that no answer ends its wait.
pub unnamed_acks_unheard :
    (id : Text) {s t : Acks} → Silence id s t → s.box id ≡ none → t.box id ≡ none
unnamed_acks_unheard id begun h = h
unnamed_acks_unheard id (later r st quiet) h = Step-box id st quiet (unnamed_acks_unheard id r h)
