-- ===== src/Capability/Hooks.antt =====
-- The rows of pkg/services/stores/capability_x.go under an update and its hooks.
use morign.Base.{
  ℕ, ◌≡◌, refl, false, Option, none, some, List, [], ◌∷◌, map, Text, is_empty, text_eq, ◌==◌,
  ==_iff, any_by, arith, Bool-cases, Option-cases, Result, ok, err, Result-cases, inl, inr,
}
use morign.Capability.{
  Capability, CapabilitySet, CapabilityVector, Store, Env, get_subject, find_key, find_id,
  find_vector, set_with, set_row, get_capability_with, update_capability, add_vector, change_vector,
  sync_vector, after_updated_capability,
}
use morign.Capability.Documents.{Operation, no_method, skips_ai, set_of, import_operation}

-- The hooks leave the table of capabilities alone.
pub add_vector-rows :
    (x : Env) (s : Store) (id : ℕ) (subject : Text) (r : Result Text Text)
    → (add_vector x s id subject r).0.rows ≡ s.rows
add_vector-rows x s id subject (err e) = refl
add_vector-rows x s id subject (ok v) = ground arith

pub change_vector-rows :
    (x : Env) (s : Store) (id : ℕ) (subject : Text) (r : Result Text Text)
    → (change_vector x s id subject r).0.rows ≡ s.rows
change_vector-rows x s id subject (err e) = refl
change_vector-rows x s id subject (ok v) = ground arith

pub sync_vector-rows :
    (x : Env) (s : Store) (id : ℕ) (subject : Text) (v : Option CapabilityVector)
    → (sync_vector x s id subject v).0.rows ≡ s.rows
sync_vector-rows x s id subject none = add_vector-rows x s id subject (x.embed subject)
sync_vector-rows x s id subject (some v) = elim (Bool-cases (text_eq v.subject subject)) [
  | inl same ↦ rw same refl
  | inr other ↦ rw other (change_vector-rows x s id subject (x.embed subject))
]

pub update_capability-rows :
    (x : Env) (s : Store) (id : ℕ) (o : CapabilitySet) (z : Capability)
    → find_id id s.rows ≡ some z
    → x.update_fails id ≡ none
    → (update_capability x s id o).0.rows ≡ map (set_row x id o) s.rows
unfolding update_capability after_updated_capability set_with
update_capability-rows x s id o z found fine = ground (
  arith,
  sync_vector-rows x (record s { rows = map (set_row x id o) s.rows }) z.id
      (get_subject (set_with x o z).tags (set_with x o z).summary) (find_vector z.id s.vectors),
)

pub set_row_id :
    (x : Env) (id : ℕ) (o : CapabilitySet) (z : Capability) → (set_row x id o z).id ≡ z.id
unfolding set_with
set_row_id x id o z = elim (Bool-cases (z.id == id)) [ inl e ↦ rw e refl | inr e ↦ rw e refl ]

-- The row under an identifier, after a change that keeps the identifiers.
pub find_id-map :
    (g : Capability → Capability) (id : ℕ) (rows : List Capability) (z : Capability)
    → ((r : Capability) → (g r).id ≡ r.id)
    → find_id id rows ≡ some z
    → find_id id (map g rows) ≡ some (g z)
unfolding find_id
find_id-map g id [] z keep h = cc
find_id-map g id (r ∷ rows) z keep h = ground (arith, keep r, find_id-map g id rows z keep)

pub add_vector-next :
    (x : Env) (s : Store) (id : ℕ) (subject : Text) (r : Result Text Text)
    → (add_vector x s id subject r).0.next_id ≡ s.next_id
add_vector-next x s id subject (err e) = refl
add_vector-next x s id subject (ok v) = ground arith

pub sync_vector-next :
    (x : Env) (s : Store) (id : ℕ) (subject : Text) (v : Option CapabilityVector)
    → (sync_vector x s id subject v).0.next_id ≡ s.next_id
sync_vector-next x s id subject none = add_vector-next x s id subject (x.embed subject)
sync_vector-next x s id subject (some v) = elim (Result-cases (x.embed subject)) [
  | inl vector ↦ rw vector.1 (ground arith)
  | inr failed ↦ rw failed.1 (ground arith)
]

pub update_capability-next :
    (x : Env) (s : Store) (id : ℕ) (o : CapabilitySet)
    → (update_capability x s id o).0.next_id ≡ s.next_id
unfolding update_capability after_updated_capability set_with
update_capability-next x s id o = elim (Option-cases (find_id id s.rows)) [
  | inl gone ↦ ground arith
  | inr found ↦
      let z : Capability = found.0 in
      ground (
        arith,
        found.1,
        sync_vector-next x (record s { rows = map (set_row x id o) s.rows }) z.id
            (get_subject (set_with x o z).tags (set_with x o z).summary)
            (find_vector z.id s.vectors),
      )
]

-- An operation whose key stands in the table updates the row there.
pub import_operation_updates :
    (x : Env) (s : Store) (o : Operation) (z : Capability)
    → no_method (x.upper o.method) ≡ false
    → x.get_fails (x.upper o.method) o.path ≡ false
    → find_key (x.upper (x.upper o.method)) o.path s.rows ≡ some z
    → any_by skips_ai o.api.tags ≡ false
    → is_empty (get_subject o.api.tags o.api.summary) ≡ false
    → import_operation x s o ≡ (update_capability x s z.id (set_of o.api)).0
unfolding import_operation get_capability_with
import_operation_updates x s o z named fine found kept titled =
    rw (named, fine, found, kept, titled) refl

pub set_row_self :
    (x : Env) (o : CapabilitySet) (z : Capability) → set_row x z.id o z ≡ set_with x o z
set_row_self x o z = rw ((==_iff z.id z.id).1 refl) refl
