-- ===== src/Turn/Race/Exclusive.antt =====
-- At most one of all concurrent requests under a key is granted an execution, as long as the turn of
-- that key may not be run again.
use mathlib.Core.Path.{subst}
use morign.Base.{
  ℕ, ◌≡◌, ◌≢◌, ◌⊎◌, inl, inr, refl, sym, true, false, none, some, List, [], ◌∷◌, Text, ◌==◌, ==_iff,
  arith, Result, ok, err, Bool-cases, Option-cases,
}
use morign.Turn.{
  running, ChatTurn, ChatTurnBasic, Store, Faults, TurnError, duplicate, find_key, create_turn,
  get_turn, update_turn_status, TurnGate, Decision, refuse, reply, rerun, decide, start_running,
  act, after_lookup, after_create, acquire_turn,
}
use morign.Turn.Gate.{find_key-update}
use morign.Turn.Once.{is_rerunnable, get_turn_found, decide_replies, created_row}
use morign.Turn.Race.{
  Request, Pc, to_create, to_look, to_run, done, created_pc, decided_pc, looked_pc, step_pc, System,
  update, step, run_order, begin, holds,
}

-- Two steps from a state.
abbrev twice : Faults → Request → Store × Pc → Store × Pc
twice f q (s, p) = step_pc f (step_pc f s q p).0 q (step_pc f s q p).1

abbrev Reaches : Store × Pc → Store × Result TurnError TurnGate → Type 0
Reaches (s, p) (s', r) = (s ≡ s') × (p ≡ done r)

decided-Reaches :
    (f : Faults) (s : Store) (q : Request) (id : ℕ) (d : Decision)
    → Reaches (step_pc f s q (decided_pc id d)) (act f s id d)
unfolding step_pc decided_pc act
decided-Reaches f s q id (refuse e) = (refl, refl)
decided-Reaches f s q id (reply g) = (refl, refl)
decided-Reaches f s q id rerun = (refl, refl)

looked-Reaches :
    (f : Faults) (s : Store) (q : Request) (r : Result TurnError ChatTurn)
    → Reaches (step_pc f s q (looked_pc q.basic q.owner r)) (after_lookup f s q.basic q.owner r)
unfolding looked_pc after_lookup step_pc decided_pc
looked-Reaches f s q (err e) = (refl, refl)
looked-Reaches f s q (ok t) = decided-Reaches f s q t.id (decide q.basic q.owner t)

created-Reaches :
    (f : Faults) (s : Store) (q : Request) (r : Result TurnError ℕ)
    → Reaches (twice f q (s, created_pc r)) (after_create f s q.basic q.owner r)
unfolding created_pc after_create step_pc
created-Reaches f s q (ok id) = (refl, refl)
created-Reaches f s q (err duplicate) = looked-Reaches f s q (get_turn f s q.basic.idempotency_key)
created-Reaches f s q (err _) = (refl, refl)

-- A request alone makes the three calls of acquireTurn, with its result.
step_pc-acquire_turn :
    (f : Faults) (s : Store) (q : Request)
    → Reaches (twice f q (step_pc f s q to_create)) (acquire_turn f s q.basic q.owner)
unfolding acquire_turn step_pc
step_pc-acquire_turn f s q =
    created-Reaches f (create_turn f s q.basic).0 q (create_turn f s q.basic).1

create_rows :
    (f : Faults) (s : Store) (basic : ChatTurnBasic) (key : Text) (t : ChatTurn)
    → find_key key (create_turn f s basic).0.turns ≡ some t
    → (find_key key s.turns ≡ some t) ⊎ (t.status ≡ basic.status)
unfolding create_turn find_key
create_rows f s basic key t e = ground arith

create_rows_stay :
    (f : Faults) (s : Store) (basic : ChatTurnBasic) (key : Text)
    → find_key key s.turns ≢ none
    → find_key key (create_turn f s basic).0.turns ≢ none
unfolding create_turn find_key
create_rows_stay f s basic key h = ground arith

create_gains :
    (f : Faults) (s : Store) (basic : ChatTurnBasic) (r : Result TurnError ℕ)
    → (create_turn f s basic).1 ≡ r
    → holds (created_pc r) ≡ true
    → (find_key basic.idempotency_key s.turns ≡ none)
      × (find_key basic.idempotency_key (create_turn f s basic).0.turns ≢ none)
unfolding created_pc
create_gains f s basic (ok id) e h =
    let made = created_row f s basic id e in (made.1, λ gone. cc (made.0, gone))
create_gains f s basic (err duplicate) e h = cc
create_gains f s basic (err _) e h = cc

decide_reruns :
    (basic : ChatTurnBasic) (owner : ℕ) (t : ChatTurn)
    → decide basic owner t ≡ rerun
    → is_rerunnable t.status ≡ true
unfolding decide
decide_reruns basic owner t e = ground arith

decided_gains :
    (basic : ChatTurnBasic) (owner : ℕ) (t : ChatTurn) (d : Decision)
    → decide basic owner t ≡ d
    → is_rerunnable t.status ≡ false
    → holds (decided_pc t.id d) ≡ true
    → ⊥
unfolding decided_pc
decided_gains basic owner t (refuse x) e shut h = cc
decided_gains basic owner t (reply g) e shut h = cc (decide_replies basic owner t g e)
decided_gains basic owner t rerun e shut h = cc (decide_reruns basic owner t e)

looked_gains :
    (f : Faults) (s : Store) (basic : ChatTurnBasic) (owner : ℕ) (r : Result TurnError ChatTurn)
    → get_turn f s basic.idempotency_key ≡ r
    → ((t : ChatTurn)
        → find_key basic.idempotency_key s.turns ≡ some t
        → is_rerunnable t.status ≡ false)
    → holds (looked_pc basic owner r) ≡ true
    → ⊥
unfolding looked_pc
looked_gains f s basic owner (err x) e shut h = cc
looked_gains f s basic owner (ok t) e shut h =
    decided_gains basic owner t (decide basic owner t) refl
      (shut t (get_turn_found f s basic.idempotency_key t e)) h

run_shut :
    (f : Faults) (s : Store) (id : ℕ) (key : Text) (t : ChatTurn)
    → ((u : ChatTurn) → find_key key s.turns ≡ some u → is_rerunnable u.status ≡ false)
    → find_key key (start_running f s id).0.turns ≡ some t
    → is_rerunnable t.status ≡ false
unfolding start_running update_turn_status
run_shut f s id key t shut e = elim (Option-cases (find_key key s.turns)) [
  | inl gone ↦ ground (arith, find_key-update key id running [] s.turns)
  | inr (u, found) ↦ ground (arith, shut u, find_key-update key id running [] s.turns)
]

run_rows_stay :
    (f : Faults) (s : Store) (id : ℕ) (key : Text)
    → find_key key s.turns ≢ none
    → find_key key (start_running f s id).0.turns ≢ none
unfolding start_running update_turn_status
run_rows_stay f s id key h = ground (arith, find_key-update key id running [] s.turns)

module _ (reqs : ℕ → Request) (key : Text) where
  abbrev key_of : ℕ → Text
  key_of i = (reqs i).basic.idempotency_key

  -- The turn of the key may not be run again, and at most one request under the key holds.
  pub record IsExclusive (sys : System) : Type 0 where
    pub shut :
        (t : ChatTurn) → find_key key sys.store.turns ≡ some t → is_rerunnable t.status ≡ false
    pub has_row :
        (i : ℕ) → key_of i ≡ key → holds (sys.pcs i) ≡ true → find_key key sys.store.turns ≢ none
    pub alone :
        (i j : ℕ)
        → key_of i ≡ key
        → key_of j ≡ key
        → holds (sys.pcs i) ≡ true
        → holds (sys.pcs j) ≡ true
        → i ≡ j

  -- What one call may do: rows stay, the turn of the key stays shut, and the right to execute is
  -- gained only where the key had no row.
  record IsTame (s s' : Store) (i : ℕ) (p p' : Pc) : Type 0 where
    shut : (t : ChatTurn) → find_key key s'.turns ≡ some t → is_rerunnable t.status ≡ false
    rows_stay : find_key key s.turns ≢ none → find_key key s'.turns ≢ none
    gains :
        key_of i ≡ key
        → holds p' ≡ true
        → (holds p ≡ true) ⊎ ((find_key key s.turns ≡ none) × (find_key key s'.turns ≢ none))

  tame-IsExclusive :
      (sys : System) (s' : Store) (i : ℕ) (p' : Pc)
      → IsTame sys.store s' i (sys.pcs i) p'
      → IsExclusive sys
      → IsExclusive (record { store = s'; pcs = update sys.pcs i p' })
  tame-IsExclusive sys s' i p' tame h = record {
    shut = tame.shut;
    has_row = λ j of_key holding. elim (Bool-cases (i == j)) [
      | inl e ↦
          let same : i ≡ j = (==_iff i j).0 e in
          elim (tame.gains (subst (λ k. key_of k ≡ key) (sym same) of_key) (rw e at holding)) [
            | inl before ↦
                tame.rows_stay (h.has_row i (subst (λ k. key_of k ≡ key) (sym same) of_key) before)
            | inr made ↦ made.1
          ]
      | inr e ↦ tame.rows_stay (h.has_row j of_key (rw e at holding))
    ];
    alone = λ j k jk kk hj hk.
        ground (arith, tame.gains, h.alone j k, h.alone i k, h.alone j i, h.has_row j, h.has_row k);
  }

  step_pc-IsTame :
      (f : Faults) (s : Store) (i : ℕ) (p : Pc)
      → is_rerunnable (reqs i).basic.status ≡ false
      → ((t : ChatTurn) → find_key key s.turns ≡ some t → is_rerunnable t.status ≡ false)
      → IsTame s (step_pc f s (reqs i) p).0 i p (step_pc f s (reqs i) p).1
  unfolding step_pc
  step_pc-IsTame f s i to_create plain shut =
      let basic = (reqs i).basic in
      record {
        shut = λ t e. ground (arith, create_rows f s basic key t, shut t);
        rows_stay = create_rows_stay f s basic key;
        gains = λ of_key h. inr (
            subst
              (λ (k : Text).
                (find_key k s.turns ≡ none) × (find_key k (create_turn f s basic).0.turns ≢ none))
              of_key (create_gains f s basic (create_turn f s basic).1 refl h));
      }
  step_pc-IsTame f s i to_look plain shut =
      let q = reqs i in
      record {
        shut = shut;
        rows_stay = λ h. h;
        gains = λ of_key h. absurd (
            looked_gains f s q.basic q.owner (get_turn f s q.basic.idempotency_key) refl
              (λ t found. shut t (subst (λ (k : Text). find_key k s.turns ≡ some t) of_key found))
              h);
      }
  step_pc-IsTame f s i (to_run id) plain shut = record {
    shut = λ t e. run_shut f s id key t shut e;
    rows_stay = run_rows_stay f s id key;
    gains = λ of_key h. inl refl;
  }
  step_pc-IsTame f s i (done r) plain shut = record {
    shut = shut;
    rows_stay = λ h. h;
    gains = λ of_key h. inl h;
  }

  -- Whatever the order of the calls and whichever of them fail: as long as the turn of the key may
  -- not be run again, at most one of the requests under the key is granted an execution.
  pub run_order-IsExclusive :
      (sys : System) (order : List (ℕ × Faults))
      → ((i : ℕ) → is_rerunnable (reqs i).basic.status ≡ false)
      → IsExclusive sys
      → IsExclusive (run_order reqs sys order)
  unfolding run_order step
  run_order-IsExclusive sys [] plain h = h
  run_order-IsExclusive sys ((i, f) ∷ order) plain h =
      let next = step_pc f sys.store (reqs i) (sys.pcs i) in
      run_order-IsExclusive (record { store = next.0; pcs = update sys.pcs i next.1 }) order plain
        (tame-IsExclusive sys next.0 i next.1
          (step_pc-IsTame f sys.store i (sys.pcs i) (plain i) h.shut) h)

  pub begin-IsExclusive :
      (s : Store)
      → ((t : ChatTurn) → find_key key s.turns ≡ some t → is_rerunnable t.status ≡ false)
      → IsExclusive (begin s)
  begin-IsExclusive s shut = record {
    shut = shut;
    has_row = λ i k h. cc;
    alone = λ i j ki kj hi hj. cc;
  }

  -- Concurrent requests under one key, before any granted execution ends: if the turn of the key
  -- may not be run again when they begin, and no request makes a turn that may, at most one of
  -- them is granted an execution, in whatever order their database calls happen and whichever of
  -- those fail.
  pub one_grant :
      (s : Store) (order : List (ℕ × Faults)) (i j : ℕ) {g g' : TurnGate}
      → ((t : ChatTurn) → find_key key s.turns ≡ some t → is_rerunnable t.status ≡ false)
      → ((n : ℕ) → is_rerunnable (reqs n).basic.status ≡ false)
      → key_of i ≡ key
      → key_of j ≡ key
      → (run_order reqs (begin s) order).pcs i ≡ done (ok g)
      → g.proceed ≡ true
      → (run_order reqs (begin s) order).pcs j ≡ done (ok g')
      → g'.proceed ≡ true
      → i ≡ j
  one_grant s order i j {g} {g'} shut plain ki kj at_i p at_j p' =
      (run_order-IsExclusive (begin s) order plain (begin-IsExclusive s shut)).alone i j ki kj
        (rw at_i p) (rw at_j p')
