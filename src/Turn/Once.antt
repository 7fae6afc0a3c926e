-- ===== src/Turn/Once.antt =====
-- A granted execution shuts the gate for every later request under its key, until the turn ends.
use morign.Base.{
  text_eq, ℕ, ◌≡◌, refl, sym, Bool, true, false, none, some, [], Text, text_eq_refl, arith, Result,
  ok, err,
}
use mathlib.Core.Path.{subst}
use morign.Turn.{
  TurnStatus, running, succeeded, failed, cancelled, ChatTurn, ChatTurnBasic, Store, Faults,
  TurnError, duplicate, find_key, new_turn, create_turn, get_turn, set_status, update_turn_status,
  TurnGate, Decision, refuse, reply, rerun, decide, start_running, act, after_lookup, after_create,
  acquire_turn,
}
use morign.Base.{is_empty}
use morign.Turn.{no_faults, finish_turn, find_id, replaying}
use morign.Turn.Gate.{find_key-update}

-- The turn under `key` has the number `id` and is running.
abbrev pub IsRunning : Store → Text → ℕ → Type 0
IsRunning s key id =
    (t : ChatTurn) × (find_key key s.turns ≡ some t) × (t.id ≡ id) × (t.status ≡ running)

start_running_granted :
    (f : Faults) (s : Store) (id : ℕ) (key : Text) (t : ChatTurn) (g : TurnGate)
    → find_key key s.turns ≡ some t
    → t.id ≡ id
    → (start_running f s id).1 ≡ ok g
    → IsRunning (start_running f s id).0 key g.id
unfolding start_running update_turn_status
start_running_granted f s id key t g found same e = (
  set_status id running [] t,
  ground (arith, find_key-update key id running [] s.turns),
  ground arith,
  ground arith,
)

act_granted :
    (f : Faults) (s : Store) (key : Text) (t : ChatTurn) (d : Decision) (g : TurnGate)
    → find_key key s.turns ≡ some t
    → ((g' : TurnGate) → d ≡ reply g' → g'.proceed ≡ false)
    → (act f s t.id d).1 ≡ ok g
    → g.proceed ≡ true
    → IsRunning (act f s t.id d).0 key g.id
unfolding act
act_granted f s key t (refuse x) g found shut e p = cc
act_granted f s key t (reply g') g found shut e p = cc (shut g' refl)
act_granted f s key t rerun g found shut e p = start_running_granted f s t.id key t g found refl e

pub decide_replies :
    (basic : ChatTurnBasic) (owner : ℕ) (t : ChatTurn) (g : TurnGate)
    → decide basic owner t ≡ reply g
    → g.proceed ≡ false
unfolding decide
decide_replies basic owner t g e = ground arith

pub get_turn_found :
    (f : Faults) (s : Store) (key : Text) (t : ChatTurn)
    → get_turn f s key ≡ ok t
    → find_key key s.turns ≡ some t
unfolding get_turn
get_turn_found f s key t e = ground arith

after_lookup_granted :
    (f : Faults) (s : Store) (basic : ChatTurnBasic) (owner : ℕ) (r : Result TurnError ChatTurn)
    (g : TurnGate)
    → get_turn f s basic.idempotency_key ≡ r
    → (after_lookup f s basic owner r).1 ≡ ok g
    → g.proceed ≡ true
    → IsRunning (after_lookup f s basic owner r).0 basic.idempotency_key g.id
unfolding after_lookup
after_lookup_granted f s basic owner (err x) g got e p = cc
after_lookup_granted f s basic owner (ok t) g got e p =
    act_granted f s basic.idempotency_key t (decide basic owner t) g
      (get_turn_found f s basic.idempotency_key t got) (decide_replies basic owner t) e p

pub created_row :
    (f : Faults) (s : Store) (basic : ChatTurnBasic) (id : ℕ)
    → (create_turn f s basic).1 ≡ ok id
    → (find_key basic.idempotency_key (create_turn f s basic).0.turns ≡ some (new_turn id basic))
      × (find_key basic.idempotency_key s.turns ≡ none)
unfolding create_turn find_key
created_row f s basic id e = (ground (arith, text_eq_refl basic.idempotency_key), ground arith)

after_create_granted :
    (f : Faults) (s : Store) (basic : ChatTurnBasic) (owner : ℕ) (r : Result TurnError ℕ)
    (g : TurnGate)
    → ((id : ℕ) → r ≡ ok id → find_key basic.idempotency_key s.turns ≡ some (new_turn id basic))
    → (after_create f s basic owner r).1 ≡ ok g
    → g.proceed ≡ true
    → IsRunning (after_create f s basic owner r).0 basic.idempotency_key g.id
unfolding after_create
after_create_granted f s basic owner (ok id) g made e p =
    start_running_granted f s id basic.idempotency_key (new_turn id basic) g (made id refl) refl e
after_create_granted f s basic owner (err duplicate) g made e p =
    after_lookup_granted f s basic owner (get_turn f s basic.idempotency_key) g refl e p
after_create_granted f s basic owner (err _) g made e p = cc

-- Whoever is granted an execution leaves the turn of the key running, whichever calls failed: no
-- claim in the table, no execution.
pub acquire_turn_granted :
    (f : Faults) (s : Store) (basic : ChatTurnBasic) (owner : ℕ) (g : TurnGate)
    → (acquire_turn f s basic owner).1 ≡ ok g
    → g.proceed ≡ true
    → IsRunning (acquire_turn f s basic owner).0 basic.idempotency_key g.id
unfolding acquire_turn
acquire_turn_granted f s basic owner g e p =
    after_create_granted f (create_turn f s basic).0 basic owner (create_turn f s basic).1 g
      (λ id made. (created_row f s basic id made).0) e p

-- The status leaves the gate shut.
abbrev pub is_rerunnable : TurnStatus → Bool
is_rerunnable failed = true
is_rerunnable cancelled = true
is_rerunnable _ = false

-- While the turn of a key may not be run again, a request under that key is not executed and changes
-- nothing in the table, and it gets an old answer only from a turn that succeeded.
pub acquire_turn_shut :
    (f : Faults) (s : Store) (basic : ChatTurnBasic) (owner : ℕ) (t : ChatTurn)
    → find_key basic.idempotency_key s.turns ≡ some t
    → is_rerunnable t.status ≡ false
    → ((acquire_turn f s basic owner).0 ≡ s)
      × ((g : TurnGate)
          → (acquire_turn f s basic owner).1 ≡ ok g
          → (g.proceed ≡ false)
            × (g.replay ≡ true → (t.status ≡ succeeded) × (g.cached ≡ t.result)))
unfolding acquire_turn update_turn_status
acquire_turn_shut f s basic owner t found shut = (ground arith, λ g e. (ground arith, ground arith))

-- A second request under the key of a granted one, made while the first has not finished, is not
-- executed and gets no answer.
pub acquire_turn_twice :
    (f f' : Faults) (s : Store) (basic basic' : ChatTurnBasic) (owner owner' : ℕ) (g g' : TurnGate)
    → (acquire_turn f s basic owner).1 ≡ ok g
    → g.proceed ≡ true
    → basic'.idempotency_key ≡ basic.idempotency_key
    → (acquire_turn f' (acquire_turn f s basic owner).0 basic' owner').1 ≡ ok g'
    → (g'.proceed ≡ false) × (g'.replay ≡ false)
acquire_turn_twice f f' s basic basic' owner owner' g g' e p same e' =
    let (t, found, id, status) = acquire_turn_granted f s basic owner g e p in
    let now = (acquire_turn f s basic owner).0 in
    let found' : find_key basic'.idempotency_key now.turns ≡ some t =
      subst (λ (k : Text). find_key k now.turns ≡ some t) (sym same) found in
    let shut = (acquire_turn_shut f' now basic' owner' t found' (rw status)).1 g' e' in ground arith

-- Once the execution of a turn has succeeded, a request under its key, which is not empty, with
-- the digest and the owner of the turn gets its answer and is not executed again, when no
-- database call fails.
pub finish_turn_replays :
    (s : Store) (basic : ChatTurnBasic) (owner id : ℕ) (answer : Text) (tool_ran cancelled? : Bool)
    (t : ChatTurn)
    → is_empty basic.idempotency_key ≡ false
    → find_key basic.idempotency_key s.turns ≡ some t
    → find_id id s.turns ≡ some t
    → t.id ≡ id
    → text_eq t.request_digest basic.request_digest ≡ true
    → t.owner_id ≡ owner
    → (acquire_turn no_faults
        (finish_turn no_faults s (some id) answer tool_ran none cancelled?)
        basic
        owner).1
      ≡ ok (replaying id answer)
unfolding acquire_turn finish_turn
finish_turn_replays s basic owner id answer tool_ran cancelled? t key found row same digest own =
    ground (arith, find_key-update basic.idempotency_key id succeeded answer s.turns)
