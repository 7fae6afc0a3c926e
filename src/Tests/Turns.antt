-- ===== src/Tests/Turns.antt =====
-- Concrete chat turns: pkg/web/api/handle_turn.go and pkg/services/stores/convo_x.go.
use morign.Base.{ℕ, ◌≡◌, refl, true, false, none, some, List, [], ◌∷◌, Text, codes, text_eq, ok}
use morign.Turn.{
  TurnStatus, running, succeeded, failed, ChatTurn, ChatTurnBasic, Store, Faults, no_faults,
  find_key, find_id, create_turn, get_turn, update_turn_status, TurnGate, proceeding, replaying,
  by_status, decide, start_running, act, after_lookup, after_create, acquire_turn, finish_turn,
}
use morign.Turn.Once.{acquire_turn_shut, finish_turn_replays}
use morign.Turn.Race.{
  Request, done, created_pc, decided_pc, looked_pc, step_pc, step, run_order, begin,
}
use morign.Turn.Race.Exclusive.{one_grant}
use morign.Turn.Race.Rerun.{both_orders, both_rerun}

abbrev key : Text
key = codes "k"

abbrev request : ChatTurnBasic
request = record {
  idempotency_key = key;
  status = running;
  request_digest = codes "d";
  owner_id = 7;
}

abbrev empty : Store
empty = record { turns = []; next_id = 1 }

abbrev row : TurnStatus → ChatTurn
row status = record {
  id = 1;
  idempotency_key = key;
  status = status;
  request_digest = codes "d";
  owner_id = 7;
  result = codes "old";
}

abbrev with_row : TurnStatus → Store
with_row status = record { turns = row status ∷ []; next_id = 2 }

abbrev requests : ℕ → Request
requests n = record { basic = request; owner = 7 }

acquire_turn_shut_example :
    ((acquire_turn no_faults (with_row succeeded) request 7).0 ≡ with_row succeeded)
    × ((g : TurnGate)
        → (acquire_turn no_faults (with_row succeeded) request 7).1 ≡ ok g
        → (g.proceed ≡ false)
          × (g.replay ≡ true → (succeeded ≡ succeeded) × (g.cached ≡ codes "old")))
unfolding acquire_turn after_create after_lookup act start_running update_turn_status create_turn
    get_turn find_key find_id decide by_status text_eq
acquire_turn_shut_example =
    acquire_turn_shut no_faults (with_row succeeded) request 7 (row succeeded) refl refl

finish_turn_replays_example :
    (acquire_turn no_faults
      (finish_turn no_faults (with_row running) (some 1) (codes "new") false none false)
      request
      7).1
    ≡ ok (replaying 1 (codes "new"))
unfolding acquire_turn after_create after_lookup act start_running update_turn_status create_turn
    get_turn find_key find_id decide by_status text_eq
finish_turn_replays_example =
    finish_turn_replays (with_row running) request 7 1 (codes "new") false false (row running) refl
      refl refl refl refl refl

abbrev interleaved : List (ℕ × Faults)
interleaved = (0, no_faults) ∷ (1, no_faults) ∷ (0, no_faults) ∷ (1, no_faults) ∷ []

one_grant_example : ◌≡◌ {A = ℕ} 0 0
unfolding run_order step step_pc created_pc looked_pc decided_pc start_running update_turn_status
    create_turn get_turn find_key find_id decide by_status text_eq
one_grant_example =
    one_grant requests key empty interleaved 0 0 {g = proceeding 1} {g' = proceeding 1}
      (λ t e. cc e) (λ n. refl) refl refl refl refl refl refl

both_rerun_example :
    ((run_order requests (begin (with_row failed)) both_orders).pcs 0 ≡ done (ok (proceeding 1)))
    × ((run_order requests (begin (with_row failed)) both_orders).pcs 1 ≡ done (ok (proceeding 1)))
unfolding run_order step step_pc created_pc looked_pc decided_pc start_running update_turn_status
    create_turn get_turn find_key find_id decide by_status text_eq
both_rerun_example =
    both_rerun requests (with_row failed) (row failed) refl refl refl refl refl refl refl
