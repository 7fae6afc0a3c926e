-- ===== src/Turn/Gate.antt =====
-- The gate of a chat turn: who may execute, who gets the old answer, and that a granted execution
-- shuts the gate for every later request under the same key.
use morign.Base.{
  ℕ, ◌≤◌, ◌≡◌, inl, inr, refl, sym, ap, ◌∙◌, Option, none, some, List, [], ◌∷◌, Text, text_eq_iff,
  map, arith, Result, ok, err, Option-cases,
}
use mathlib.Core.Path.{subst}
use morign.Turn.{
  TurnStatus, running, ChatTurn, ChatTurnBasic, Store, Faults, TurnError, duplicate, find_key,
  find_id, create_turn, get_turn, set_status, update_turn_status, Decision, refuse, reply, rerun,
  decide, start_running, act, after_lookup, after_create, acquire_turn,
}

-- The table of a running service: a key leads to one row, and the next number is fresh.
pub record IsConsistent (s : Store) : Type 0 where
  pub by_key :
      (key : Text) (t : ChatTurn) → find_key key s.turns ≡ some t → find_id t.id s.turns ≡ some t
  pub fresh : (id : ℕ) → s.next_id ≤ id → find_id id s.turns ≡ none

abbrev on_row : ℕ → TurnStatus → Text → Option ChatTurn → Option ChatTurn
on_row id status result none = none
on_row id status result (some t) = some (set_status id status result t)

pub find_key-update :
    (key : Text) (id : ℕ) (status : TurnStatus) (result : Text) (ts : List ChatTurn)
    → find_key key (map (set_status id status result) ts)
      ≡ on_row id status result (find_key key ts)
unfolding find_key
find_key-update key id status result [] = refl
find_key-update key id status result (t ∷ ts) =
    ground (arith, find_key-update key id status result ts)

pub find_id-update :
    (k id : ℕ) (status : TurnStatus) (result : Text) (ts : List ChatTurn)
    → find_id k (map (set_status id status result) ts) ≡ on_row id status result (find_id k ts)
unfolding find_id
find_id-update k id status result [] = refl
find_id-update k id status result (t ∷ ts) = ground (arith, find_id-update k id status result ts)

find_id_self : (k : ℕ) (ts : List ChatTurn) (t : ChatTurn) → find_id k ts ≡ some t → t.id ≡ k
unfolding find_id
find_id_self k [] t h = cc
find_id_self k (u ∷ ts) t h = ground (arith, find_id_self k ts t)

pub find_key_self :
    (key : Text) (ts : List ChatTurn) (t : ChatTurn)
    → find_key key ts ≡ some t
    → t.idempotency_key ≡ key
unfolding find_key
find_key_self key [] t h = cc
find_key_self key (u ∷ ts) t h =
    ground (arith, find_key_self key ts t, text_eq_iff u.idempotency_key key)

pub create_turn-IsConsistent :
    (f : Faults) (s : Store) (basic : ChatTurnBasic)
    → IsConsistent s
    → IsConsistent (create_turn f s basic).0
unfolding create_turn find_key find_id
create_turn-IsConsistent f s basic h = record {
  by_key = λ k t e. ground (arith, h.by_key k t, h.fresh s.next_id);
  fresh = λ id le. ground (arith, h.fresh id);
}

id-set_status :
    (id : ℕ) (status : TurnStatus) (result : Text) (u : ChatTurn)
    → (set_status id status result u).id ≡ u.id
id-set_status id status result u = ground arith

pub update_by_key :
    (k : Text) (t : ChatTurn) (id : ℕ) (status : TurnStatus) (result : Text) (ts : List ChatTurn)
    → ((u : ChatTurn) → find_key k ts ≡ some u → find_id u.id ts ≡ some u)
    → find_key k (map (set_status id status result) ts) ≡ some t
    → find_id t.id (map (set_status id status result) ts) ≡ some t
update_by_key k t id status result ts h e = elim (Option-cases (find_key k ts)) [
  | inl gone ↦ cc (find_key-update k id status result ts, ap (on_row id status result) gone)
  | inr (u, found) ↦
      let same : some (set_status id status result u) ≡ some t =
        sym (ap (on_row id status result) found)
        ∙ sym (find_key-update k id status result ts)
        ∙ e in
      let row : set_status id status result u ≡ t = cc same in
      subst (λ (w : ChatTurn). find_id w.id (map (set_status id status result) ts) ≡ some w) row
        (rw (id-set_status id status result u)
          (find_id-update u.id id status result ts ∙ ap (on_row id status result) (h u found)))
]

pub update_turn_status-IsConsistent :
    (f : Faults) (s : Store) (id : ℕ) (status : TurnStatus) (result : Text)
    → IsConsistent s
    → IsConsistent (update_turn_status f s id status result).0
unfolding update_turn_status
update_turn_status-IsConsistent f s id status result h = record {
  by_key = λ k t e.
      ground (arith, h.by_key k t, update_by_key k t id status result s.turns (λ u. h.by_key k u));
  fresh = λ k le. ground (arith, h.fresh k, find_id-update k id status result s.turns);
}

start_running-IsConsistent :
    (f : Faults) (s : Store) (id : ℕ) → IsConsistent s → IsConsistent (start_running f s id).0
unfolding start_running
start_running-IsConsistent f s id h = update_turn_status-IsConsistent f s id running [] h

act-IsConsistent :
    (f : Faults) (s : Store) (id : ℕ) (d : Decision)
    → IsConsistent s
    → IsConsistent (act f s id d).0
unfolding act
act-IsConsistent f s id (refuse e) h = h
act-IsConsistent f s id (reply g) h = h
act-IsConsistent f s id rerun h = start_running-IsConsistent f s id h

after_lookup-IsConsistent :
    (f : Faults) (s : Store) (basic : ChatTurnBasic) (owner : ℕ) (r : Result TurnError ChatTurn)
    → IsConsistent s
    → IsConsistent (after_lookup f s basic owner r).0
unfolding after_lookup
after_lookup-IsConsistent f s basic owner (err e) h = h
after_lookup-IsConsistent f s basic owner (ok t) h =
    act-IsConsistent f s t.id (decide basic owner t) h

after_create-IsConsistent :
    (f : Faults) (s : Store) (basic : ChatTurnBasic) (owner : ℕ) (r : Result TurnError ℕ)
    → IsConsistent s
    → IsConsistent (after_create f s basic owner r).0
unfolding after_create
after_create-IsConsistent f s basic owner (ok id) h = start_running-IsConsistent f s id h
after_create-IsConsistent f s basic owner (err duplicate) h =
    after_lookup-IsConsistent f s basic owner (get_turn f s basic.idempotency_key) h
after_create-IsConsistent f s basic owner (err _) h = h

-- The whole of acquireTurn keeps a consistent table consistent, whichever database calls fail.
pub acquire_turn-IsConsistent :
    (f : Faults) (s : Store) (basic : ChatTurnBasic) (owner : ℕ)
    → IsConsistent s
    → IsConsistent (acquire_turn f s basic owner).0
unfolding acquire_turn
acquire_turn-IsConsistent f s basic owner h =
    after_create-IsConsistent f (create_turn f s basic).0 basic owner (create_turn f s basic).1
      (create_turn-IsConsistent f s basic h)
