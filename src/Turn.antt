-- ===== src/Turn.antt =====
-- pkg/web/api/handle_turn.go and the turn part of pkg/services/stores/convo_x.go: chat turns, which
-- make a request run once for each idempotency key. The table is a list of rows whose keys the
-- database keeps unique; a row number is fresh when it is made. `Faults` says which database calls
-- fail, and with what text. Owner 0 is the zero identifier.
pub mod Gate
pub mod Once
pub mod Race
use morign.Base.{
  ℕ, ◌+◌, Bool, true, false, not, ◌&&◌, Option, none, some, List, [], ◌∷◌, Text, text_eq, is_empty,
  ◌==◌, map, if◌then◌else◌, Result, ok, err,
}

-- TurnStatus*
pub data TurnStatus : Type 0 where
  queued running succeeded failed cancelled interrupted : TurnStatus

-- ChatTurn
pub record ChatTurn : Type 0 where
  pub id : ℕ
  pub idempotency_key : Text
  pub status : TurnStatus
  pub request_digest : Text
  pub owner_id : ℕ
  pub result : Text

-- ChatTurnBasic
pub record ChatTurnBasic : Type 0 where
  pub idempotency_key : Text
  pub status : TurnStatus
  pub request_digest : Text
  pub owner_id : ℕ

pub record Store : Type 0 where
  pub turns : List ChatTurn
  pub next_id : ℕ

pub record Faults : Type 0 where
  pub create : Option Text
  pub get : Option Text
  pub update : Option Text

abbrev pub no_faults : Faults
no_faults = record { create = none; get = none; update = none }

-- ErrEmptyKey, ErrDuplicate, ErrNotFound, ErrTurnConflict, and any other error of the database.
pub data TurnError : Type 0 where
  empty_key duplicate not_found conflict : TurnError
  database : Text → TurnError

unfoldable pub find_key : Text → List ChatTurn → Option ChatTurn
find_key key [] = none
find_key key (t ∷ ts) = if text_eq t.idempotency_key key then some t else find_key key ts

unfoldable pub find_id : ℕ → List ChatTurn → Option ChatTurn
find_id id [] = none
find_id id (t ∷ ts) = if t.id == id then some t else find_id id ts

-- NewChatTurnWithBasic
abbrev pub new_turn : ℕ → ChatTurnBasic → ChatTurn
new_turn id basic = record {
  id = id;
  idempotency_key = basic.idempotency_key;
  status = basic.status;
  request_digest = basic.request_digest;
  owner_id = basic.owner_id;
  result = [];
}

-- CreateTurn
unfoldable pub create_turn : Faults → Store → ChatTurnBasic → Store × Result TurnError ℕ
create_turn f s basic =
    if is_empty basic.idempotency_key then (s, err empty_key) else elim f.create [
      | some e ↦ (s, err (database e))
      | none ↦ elim (find_key basic.idempotency_key s.turns) [
        | some _ ↦ (s, err duplicate)
        | none ↦ (
          record { turns = new_turn s.next_id basic ∷ s.turns; next_id = s.next_id + 1 },
          ok s.next_id,
        )
      ]
    ]

-- GetTurnByIdempotencyKey
unfoldable pub get_turn : Faults → Store → Text → Result TurnError ChatTurn
get_turn f s key = elim f.get [
  | some e ↦ err (database e)
  | none ↦ elim (find_key key s.turns) [ none ↦ err not_found | some t ↦ ok t ]
]

abbrev pub set_status : ℕ → TurnStatus → Text → ChatTurn → ChatTurn
set_status id status result t =
    if t.id == id then record t { status = status; result = result } else t

-- UpdateTurnStatus: the read and the update of UpdateChatTurn are taken as one call, and each writes
-- the status and the result whatever the row had.
unfoldable pub update_turn_status :
    Faults → Store → ℕ → TurnStatus → Text → Store × Result TurnError (Unit {0})
update_turn_status f s id status result = elim f.update [
  | some e ↦ (s, err (database e))
  | none ↦ elim (find_id id s.turns) [
    | none ↦ (s, err not_found)
    | some _ ↦ (record s { turns = map (set_status id status result) s.turns }, ok tt)
  ]
]

-- turnGate
pub record TurnGate : Type 0 where
  pub id : ℕ
  pub cached : Text
  pub proceed : Bool
  pub replay : Bool

abbrev pub proceeding : ℕ → TurnGate
proceeding id = record { id = id; cached = []; proceed = true; replay = false }

abbrev pub seen : ℕ → TurnGate
seen id = record { id = id; cached = []; proceed = false; replay = false }

abbrev pub replaying : ℕ → Text → TurnGate
replaying id answer = record { id = id; cached = answer; proceed = false; replay = true }

-- What acquireTurn does with the turn that stands under its key.
pub data Decision : Type 0 where
  refuse : TurnError → Decision
  reply : TurnGate → Decision
  rerun : Decision

unfoldable pub by_status : ChatTurn → TurnStatus → Decision
by_status existing succeeded = reply (replaying existing.id existing.result)
by_status existing failed = rerun
by_status existing cancelled = rerun
by_status existing _ = reply (seen existing.id)

unfoldable pub decide : ChatTurnBasic → ℕ → ChatTurn → Decision
unfolding by_status
decide basic owner existing =
    if not (is_empty existing.request_digest)
      && (not (is_empty basic.request_digest)
          && not (text_eq existing.request_digest basic.request_digest))
    then refuse conflict
    else if not (existing.owner_id == 0) && (not (owner == 0) && not (existing.owner_id == owner))
    then reply (seen existing.id)
    else by_status existing existing.status

-- The update to `running` and the gate that follows it.
unfoldable pub start_running : Faults → Store → ℕ → Store × Result TurnError TurnGate
start_running f s id =
    let (s', r) = update_turn_status f s id running [] in
    (s', elim r [ ok _ ↦ ok (proceeding id) | err e ↦ err e ])

unfoldable pub act : Faults → Store → ℕ → Decision → Store × Result TurnError TurnGate
unfolding start_running
act f s id (refuse e) = (s, err e)
act f s id (reply gate) = (s, ok gate)
act f s id rerun = start_running f s id

unfoldable pub after_lookup :
    Faults
    → Store
    → ChatTurnBasic
    → ℕ
    → Result TurnError ChatTurn
    → Store × Result TurnError TurnGate
unfolding act decide
after_lookup f s basic owner (err e) = (s, err e)
after_lookup f s basic owner (ok existing) = act f s existing.id (decide basic owner existing)

unfoldable pub after_create :
    Faults → Store → ChatTurnBasic → ℕ → Result TurnError ℕ → Store × Result TurnError TurnGate
unfolding after_lookup get_turn
after_create f s basic owner (ok id) = start_running f s id
after_create f s basic owner (err duplicate) =
    after_lookup f s basic owner (get_turn f s basic.idempotency_key)
after_create f s basic owner (err e) = (s, err e)

-- acquireTurn
unfoldable pub acquire_turn : Faults → Store → ChatTurnBasic → ℕ → Store × Result TurnError TurnGate
unfolding after_create create_turn
acquire_turn f s basic owner =
    let (s', r) = create_turn f s basic in after_create f s' basic owner r

-- finishTurn: the status and the result that it writes.
unfoldable pub final_status : Option Text → Bool → Bool → Text → TurnStatus × Text
final_status none cancelled? tool_ran answer = (succeeded, answer)
final_status (some e) true tool_ran answer = (if tool_ran then interrupted else cancelled, answer)
final_status (some e) false tool_ran answer = (failed, e)

-- finishTurn: no turn number means no turn; a failed write is logged and dropped.
unfoldable pub finish_turn : Faults → Store → Option ℕ → Text → Bool → Option Text → Bool → Store
unfolding final_status update_turn_status
finish_turn f s none answer tool_ran run_err cancelled? = s
finish_turn f s (some id) answer tool_ran run_err cancelled? =
    let (status, result) = final_status run_err cancelled? tool_ran answer in
    (update_turn_status f s id status result).0

abbrev pub is_open : TurnStatus → Bool
is_open queued = true
is_open running = true
is_open _ = false

abbrev pub count_open : List ChatTurn → ℕ
count_open [] = 0
count_open (t ∷ ts) = (if is_open t.status then 1 else 0) + count_open ts

abbrev pub reclaim_row : ChatTurn → ChatTurn
reclaim_row t = if is_open t.status then record t { status = interrupted } else t

-- ReclaimInterruptedTurns: one update of all queued and running rows, and the rows it affected.
unfoldable pub reclaim_interrupted_turns : Faults → Store → Store × Result TurnError ℕ
reclaim_interrupted_turns f s = elim f.update [
  | some e ↦ (s, err (database e))
  | none ↦ (record s { turns = map reclaim_row s.turns }, ok (count_open s.turns))
]
