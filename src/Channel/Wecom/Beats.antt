-- ===== src/Channel/Wecom/Beats.antt =====
-- The life of the connection in pkg/services/channels/wecom/websocket.go: heartbeats while it
-- stands, and longer and longer waits before it is made again. Times are in seconds.
use morign.Base.{
  ℕ, ◌*◌, ◌+◌, ◌≤◌, ◌<◌, ◌≡◌, ◌≢◌, refl, Bool, true, false, List, [], ◌∷◌, if◌then◌else◌, leb, ltb,
  All, arith,
}

-- wsPingInterval, wsMaxBackoff, wsMaxMissed
abbrev pub ws_ping_interval : ℕ
ws_ping_interval = 30

abbrev pub ws_max_backoff : ℕ
ws_max_backoff = 30

abbrev pub ws_max_missed : ℕ
ws_max_missed = 2

-- The waits of connectLoop, for the times that the connections stood, until the channel is stopped.
abbrev pub doubled : ℕ → ℕ
doubled backoff = if ltb ws_max_backoff (backoff * 2) then ws_max_backoff else backoff * 2

abbrev pub after_connection : ℕ → ℕ → ℕ
after_connection stood backoff = if ltb (2 * ws_ping_interval) stood then 1 else backoff

unfoldable pub connect_loop : ℕ → List ℕ → List ℕ
connect_loop backoff [] = []
connect_loop backoff (stood ∷ rounds) =
    let wait = after_connection stood backoff in wait ∷ connect_loop (doubled wait) rounds

-- connectLoop starts with a second.
unfoldable pub waits : List ℕ → List ℕ
unfolding connect_loop
waits rounds = connect_loop 1 rounds

-- What the heartbeat meets: an answer that the reader saw, or the next tick, with whether the ping
-- could be written.
pub data Beat : Type 0 where
  pong : Beat
  tick : Bool → Beat

pub data Act : Type 0 where
  ping close : Act

-- heartbeat, from a number of missed answers.
unfoldable pub heartbeat : ℕ → List Beat → List Act
heartbeat missed [] = []
heartbeat missed (pong ∷ beats) = heartbeat 0 beats
heartbeat missed (tick written ∷ beats) =
    let later = ping ∷ (if written then heartbeat (missed + 1) beats else []) in
    if leb ws_max_missed missed then close ∷ [] else later

-- The waits of connect_loop, whatever the connections did: between a second and the longest wait.
abbrev pub InBounds : ℕ → Type 0
InBounds wait = (1 ≤ wait) × (wait ≤ ws_max_backoff)

connect_loop-InBounds :
    (backoff : ℕ) (rounds : List ℕ) → InBounds backoff → All InBounds (connect_loop backoff rounds)
unfolding connect_loop
connect_loop-InBounds backoff [] h = tt
connect_loop-InBounds backoff (stood ∷ rounds) h =
    let wait : ℕ = after_connection stood backoff in
    let ok' : InBounds wait = ground arith in
    (ok', connect_loop-InBounds (doubled wait) rounds (ground arith))

-- The reader sees an answer between any three ticks that follow one another.
abbrev pub Answered : ℕ → List Beat → Type 0
Answered missed [] = Unit
Answered missed (pong ∷ beats) = Answered 0 beats
Answered missed (tick written ∷ beats) = (missed < ws_max_missed) × Answered (missed + 1) beats

not_yet : (missed : ℕ) → missed < ws_max_missed → leb ws_max_missed missed ≡ false
not_yet missed h = ground arith

-- If the reader sees an answer before the third of any three ticks in a row, the heartbeat never
-- closes the connection.
pub heartbeat_kept :
    (missed : ℕ) (beats : List Beat)
    → Answered missed beats
    → All (λ a. a ≢ close) (heartbeat missed beats)
unfolding heartbeat
heartbeat_kept missed [] h = tt
heartbeat_kept missed (pong ∷ beats) h = heartbeat_kept 0 beats h
heartbeat_kept missed (tick true ∷ beats) h =
    rw (not_yet missed h.0) ((λ e. cc), heartbeat_kept (missed + 1) beats h.1)
heartbeat_kept missed (tick false ∷ beats) h = rw (not_yet missed h.0) ((λ e. cc), tt)

-- After an answer, pings that are written and not answered end in the closing of the connection
-- at the third tick.
heartbeat_closes :
    (missed : ℕ) (written : Bool) (beats : List Beat)
    → heartbeat missed (pong ∷ (tick true ∷ (tick true ∷ (tick written ∷ beats))))
      ≡ ping ∷ (ping ∷ (close ∷ []))
unfolding heartbeat
heartbeat_closes missed written beats = refl

-- Whatever the connections did, each wait before a new connection is between a second and the
-- longest wait.
pub waits-InBounds : (rounds : List ℕ) → All InBounds (waits rounds)
unfolding waits
waits-InBounds rounds = connect_loop-InBounds 1 rounds (omega arith)
