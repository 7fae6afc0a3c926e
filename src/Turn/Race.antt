-- ===== src/Turn/Race.antt =====
-- Several requests at once. Each acquireTurn is three calls of the store, and calls of different
-- requests interleave in any order: `order` lists who makes the next call, and with which faults.
pub mod Exclusive
pub mod Rerun
use morign.Base.{ℕ, Bool, true, false, List, [], ◌∷◌, Text, ◌==◌, if◌then◌else◌, Result, ok, err}
use morign.Turn.{
  ChatTurn, ChatTurnBasic, Store, Faults, TurnError, duplicate, create_turn, get_turn, TurnGate,
  Decision, refuse, reply, rerun, decide, start_running,
}

pub record Request : Type 0 where
  pub basic : ChatTurnBasic
  pub owner : ℕ

-- Where a request stands between two calls of the store.
pub data Pc : Type 0 where
  to_create to_look : Pc
  to_run : ℕ → Pc
  done : Result TurnError TurnGate → Pc

unfoldable pub created_pc : Result TurnError ℕ → Pc
created_pc (ok id) = to_run id
created_pc (err duplicate) = to_look
created_pc (err e) = done (err e)

unfoldable pub decided_pc : ℕ → Decision → Pc
decided_pc id (refuse e) = done (err e)
decided_pc id (reply g) = done (ok g)
decided_pc id rerun = to_run id

unfoldable pub looked_pc : ChatTurnBasic → ℕ → Result TurnError ChatTurn → Pc
looked_pc basic owner (err e) = done (err e)
looked_pc basic owner (ok t) = decided_pc t.id (decide basic owner t)

-- The next call of a request.
unfoldable pub step_pc : Faults → Store → Request → Pc → Store × Pc
step_pc f s q to_create = ((create_turn f s q.basic).0, created_pc (create_turn f s q.basic).1)
step_pc f s q to_look = (s, looked_pc q.basic q.owner (get_turn f s q.basic.idempotency_key))
step_pc f s q (to_run id) = ((start_running f s id).0, done (start_running f s id).1)
step_pc f s q (done r) = (s, done r)

pub record System : Type 0 where
  pub store : Store
  pub pcs : ℕ → Pc

abbrev pub update : (ℕ → Pc) → ℕ → Pc → ℕ → Pc
update pcs i pc j = if i == j then pc else pcs j

unfoldable pub step : (ℕ → Request) → System → ℕ × Faults → System
step reqs sys (i, f) =
    let (s', pc') = step_pc f sys.store (reqs i) (sys.pcs i) in
    record { store = s'; pcs = update sys.pcs i pc' }

unfoldable pub run_order : (ℕ → Request) → System → List (ℕ × Faults) → System
run_order reqs sys [] = sys
run_order reqs sys (call ∷ calls) = run_order reqs (step reqs sys call) calls

abbrev pub begin : Store → System
begin s = record { store = s; pcs = λ i. to_create }

-- The request holds the right to execute, or is about to get it.
abbrev pub holds : Pc → Bool
holds to_create = false
holds to_look = false
holds (to_run id) = true
holds (done (ok g)) = g.proceed
holds (done (err e)) = false
