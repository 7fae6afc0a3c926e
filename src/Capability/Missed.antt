-- ===== src/Capability/Missed.antt =====
-- The cleaning up of missing capabilities in pkg/services/stores/capability_x.go: which rows go.
use morign.Base.{
  ℕ, ◌≡◌, refl, Bool, true, false, not, none, some, List, [], ◌∷◌, Text, ◌==◌, ==_iff, filter_by,
  any_by, arith, Bool-cases, inl, inr,
}
use morign.Capability.{Meta, Capability, Store, Env, find_id, delete_capability}
use morign.Capability.Documents.{delete_all, to_clean, cleanup_missed_capabilities}

-- A row that goes, and rows that are gone.
pub find_id-filter_self :
    (id : ℕ) (rows : List Capability)
    → find_id id (filter_by (λ (r : Capability). not (r.id == id)) rows) ≡ none
unfolding find_id
find_id-filter_self id [] = refl
find_id-filter_self id (r ∷ rows) = elim (Bool-cases (r.id == id)) [
  | inl same ↦ rw same (find_id-filter_self id rows)
  | inr other ↦ rw (other, other) (find_id-filter_self id rows)
]

pub find_id-filter_none :
    (p : Capability → Bool) (id : ℕ) (rows : List Capability)
    → find_id id rows ≡ none
    → find_id id (filter_by p rows) ≡ none
unfolding find_id
find_id-filter_none p id [] h = refl
find_id-filter_none p id (r ∷ rows) h = ground (arith, find_id-filter_none p id rows)

pub delete_capability_gone :
    (x : Env) (s : Store) (id : ℕ)
    → x.delete_fails id ≡ none
    → find_id id (delete_capability x s id).0.rows ≡ none
unfolding delete_capability
delete_capability_gone x s id fine = ground (arith, find_id-filter_self id s.rows)

pub delete_capability_stays :
    (x : Env) (s : Store) (id id' : ℕ)
    → find_id id s.rows ≡ none
    → find_id id (delete_capability x s id').0.rows ≡ none
unfolding delete_capability
delete_capability_stays x s id id' h =
    ground (arith, find_id-filter_none (λ (r : Capability). not (r.id == id')) id s.rows)

pub delete_all_stays :
    (x : Env) (s : Store) (id : ℕ) (zs : List Capability)
    → find_id id s.rows ≡ none
    → find_id id (delete_all x s zs).rows ≡ none
unfolding delete_all
delete_all_stays x s id [] h = h
delete_all_stays x s id (z ∷ zs) h =
    delete_all_stays x (delete_capability x s z.id).0 id zs (delete_capability_stays x s id z.id h)

pub delete_all_gone :
    (x : Env) (s : Store) (id : ℕ) (zs : List Capability)
    → ((n : ℕ) → x.delete_fails n ≡ none)
    → any_by (λ (z : Capability). z.id == id) zs ≡ true
    → find_id id (delete_all x s zs).rows ≡ none
unfolding delete_all
delete_all_gone x s id [] fine h = cc
delete_all_gone x s id (z ∷ zs) fine h = elim (Bool-cases (z.id == id)) [
  | inl same ↦
      delete_all_stays x (delete_capability x s z.id).0 id zs
        (rw (← ((==_iff z.id id).0 same)) (delete_capability_gone x s z.id (fine z.id)))
  | inr other ↦ delete_all_gone x (delete_capability x s z.id).0 id zs fine (rw other at h)
]

pub any_by-filter :
    (p : Capability → Bool) (id : ℕ) (rows : List Capability) (z : Capability)
    → find_id id rows ≡ some z
    → p z ≡ true
    → any_by (λ (r : Capability). r.id == id) (filter_by p rows) ≡ true
unfolding find_id
any_by-filter p id [] z h e = cc
any_by-filter p id (r ∷ rows) z h e = ground (arith, any_by-filter p id rows z)

pub cleanup_lem :
    (x : Env) (missed : Meta → Bool) (s : Store) (prefix : Text)
    → x.select_fails ≡ none
    → (cleanup_missed_capabilities x missed s prefix false).0
      ≡ delete_all x s (filter_by (to_clean x missed prefix) s.rows)
unfolding cleanup_missed_capabilities
cleanup_lem x missed s prefix h = ground arith
