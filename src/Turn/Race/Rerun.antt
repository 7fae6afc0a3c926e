-- ===== src/Turn/Race/Rerun.antt =====
-- A turn that may be run again is not claimed by one request alone: the status is read in one call
-- and written in a later one, and nothing compares them.
use morign.Base.{ℕ, ◌≡◌, refl, false, some, List, [], ◌∷◌, is_empty, arith, ok}
use morign.Turn.{
  running, ChatTurn, Store, Faults, no_faults, find_key, find_id, create_turn, get_turn, set_status,
  update_turn_status, proceeding, rerun, decide, start_running,
}
use morign.Turn.Gate.{find_id-update}
use morign.Turn.Race.{
  Request, Pc, to_create, to_look, to_run, done, created_pc, decided_pc, looked_pc, step_pc, System,
  update, step, run_order, begin,
}

module _ (s : Store) (q : Request) (t : ChatTurn)
    (found : find_key q.basic.idempotency_key s.turns ≡ some t) where
  create_finds :
      is_empty q.basic.idempotency_key ≡ false → step_pc no_faults s q to_create ≡ (s, to_look)
  unfolding step_pc create_turn created_pc
  create_finds e = rw (e, found, create_turn, step_pc, created_pc)

  look_reruns : decide q.basic q.owner t ≡ rerun → step_pc no_faults s q to_look ≡ (s, to_run t.id)
  unfolding step_pc get_turn looked_pc decided_pc
  look_reruns e = rw (step_pc, get_turn, found, looked_pc, e, decided_pc)

after_run : Store → ℕ → Store
unfolding start_running
after_run s id = (start_running no_faults s id).0

run_grants :
    (s : Store) (q : Request) (id : ℕ) (u : ChatTurn)
    → find_id id s.turns ≡ some u
    → step_pc no_faults s q (to_run id) ≡ (after_run s id, done (ok (proceeding id)))
unfolding step_pc start_running update_turn_status after_run
run_grants s q id u e = rw (step_pc, start_running, after_run, update_turn_status, e)

run_keeps_row :
    (s : Store) (id : ℕ) (u : ChatTurn)
    → find_id id s.turns ≡ some u
    → find_id id (after_run s id).turns ≡ some (set_status id running [] u)
unfolding after_run update_turn_status
run_keeps_row s id u e = ground (arith, find_id-update id id running [] s.turns)

abbrev pub both_orders : List (ℕ × Faults)
both_orders =
    (0, no_faults)
    ∷ (1, no_faults)
    ∷ (0, no_faults)
    ∷ (1, no_faults)
    ∷ (0, no_faults)
    ∷ (1, no_faults)
    ∷ []

step_at :
    (reqs : ℕ → Request) (sys : System) (i : ℕ) (s' : Store) (pc' : Pc)
    → step_pc no_faults sys.store (reqs i) (sys.pcs i) ≡ (s', pc')
    → step reqs sys (i, no_faults) ≡ record { store = s'; pcs = update sys.pcs i pc' }
unfolding step
step_at reqs sys i s' pc' e = rw e

module _ (reqs : ℕ → Request) (s : Store) (t : ChatTurn) where
  -- A turn that both requests 0 and 1 are allowed to run again is executed by both, when each of
  -- them reads it before the other one writes: both find it under their keys, which are not
  -- empty, and no database call fails.
  pub both_rerun :
      is_empty (reqs 0).basic.idempotency_key ≡ false
      → is_empty (reqs 1).basic.idempotency_key ≡ false
      → find_key (reqs 0).basic.idempotency_key s.turns ≡ some t
      → find_key (reqs 1).basic.idempotency_key s.turns ≡ some t
      → find_id t.id s.turns ≡ some t
      → decide (reqs 0).basic (reqs 0).owner t ≡ rerun
      → decide (reqs 1).basic (reqs 1).owner t ≡ rerun
      → ((run_order reqs (begin s) both_orders).pcs 0 ≡ done (ok (proceeding t.id)))
        × ((run_order reqs (begin s) both_orders).pcs 1 ≡ done (ok (proceeding t.id)))
  unfolding run_order
  both_rerun n0 n1 k0 k1 at d0 d1 =
      let p1 = update (λ i. to_create) 0 to_look in
      let p2 = update p1 1 to_look in
      let p3 = update p2 0 (to_run t.id) in
      let p4 = update p3 1 (to_run t.id) in
      let s5 = after_run s t.id in
      let p5 = update p4 0 (done (ok (proceeding t.id))) in
      let u = set_status t.id running [] t in
      let e : run_order reqs (begin s) both_orders
          ≡ record { store = after_run s5 t.id; pcs = update p5 1 (done (ok (proceeding t.id))) } =
        rw (
          step_at reqs (begin s) 0 s to_look (create_finds s (reqs 0) t k0 n0),
          step_at reqs record { store = s; pcs = p1 } 1 s to_look (create_finds s (reqs 1) t k1 n1),
          step_at reqs record { store = s; pcs = p2 } 0 s (to_run t.id)
              (look_reruns s (reqs 0) t k0 d0),
          step_at reqs record { store = s; pcs = p3 } 1 s (to_run t.id)
              (look_reruns s (reqs 1) t k1 d1),
          step_at reqs record { store = s; pcs = p4 } 0 s5 (done (ok (proceeding t.id)))
              (run_grants s (reqs 0) t.id t at),
          step_at reqs record { store = s5; pcs = p5 } 1 (after_run s5 t.id)
              (done (ok (proceeding t.id)))
              (run_grants s5 (reqs 1) t.id u (run_keeps_row s t.id t at)),
        ) in
      rw e (refl, refl)
