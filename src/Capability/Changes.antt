-- ===== src/Capability/Changes.antt =====
-- A round of the import, in pkg/services/stores/capability_x.go, as a change of the rows.
use mathlib.Core.Path.{subst, sym}
use morign.Base.{
  ℕ, ◌+◌, ◌≡◌, refl, ap, ◌∙◌, Bool, true, false, not, ◌&&◌, Option, none, some, List, [], ◌∷◌, map,
  Text, is_empty, text_eq, ◌==◌, ==_iff, if◌then◌else◌, filter_by, any_by, arith, Bool-cases, ok,
  inl, inr,
}
use morign.Capability.{
  Capability, CapabilitySet, Store, Env, get_subject, find_key, find_id, has_key, set_with, set_row,
  get_capability_with, create_capability, delete_capability, after_created_capability,
}
use morign.Capability.Documents.{
  Api, Operation, no_method, skips_ai, basic_of, set_of, save_api, drop_existing, import_found,
  import_operation, import_operations,
}
use morign.Capability.Hooks.{
  add_vector-rows, update_capability-rows, set_row_id, add_vector-next, update_capability-next,
}
use morign.Capability.Rows.{
  IsQuiet, IsSound, find_id-of_find_key, find_key-map, find_id-map-none, map-DistinctIds,
  find_id-filter, filter-DistinctIds, find_key-filter, other_id,
}

-- What a round of the import does to the rows, for the key of its operation.
pub data Change (x : Env) (m e : Text) (s s' : Store) : Type 0 where
  same : s'.rows ≡ s.rows → s'.next_id ≡ s.next_id → Change x m e s s'
  made :
      (z : Capability)
      → z.id ≡ s.next_id
      → z.method ≡ m
      → z.endpoint ≡ e
      → s'.rows ≡ z ∷ s.rows
      → s'.next_id ≡ s.next_id + 1
      → Change x m e s s'
  changed :
      (z : Capability) (o : CapabilitySet)
      → find_key m e s.rows ≡ some z
      → s'.rows ≡ map (set_row x z.id o) s.rows
      → s'.next_id ≡ s.next_id
      → Change x m e s s'
  dropped :
      (z : Capability)
      → find_key m e s.rows ≡ some z
      → s'.rows ≡ filter_by (λ (r : Capability). not (r.id == z.id)) s.rows
      → s'.next_id ≡ s.next_id
      → Change x m e s s'

pub set_row-has_key :
    (x : Env) (id : ℕ) (o : CapabilitySet) (m e : Text) (z : Capability)
    → has_key m e (set_row x id o z) ≡ has_key m e z
unfolding set_with
set_row-has_key x id o m e z = elim (Bool-cases (z.id == id)) [
  | inl h ↦ rw h refl
  | inr h ↦ rw h refl
]

pub Change-IsSound :
    (x : Env) (m e : Text) (s s' : Store) → Change x m e s s' → IsSound s → IsSound s'
unfolding find_id
Change-IsSound x m e s s' (same rows next) v = record {
  distinct = rw rows v.distinct;
  fresh = λ n h. rw rows (v.fresh n (omega arith));
}
Change-IsSound x m e s s' (made z id _ _ rows next) v = record {
  distinct = rw rows (rw id (v.fresh s.next_id (omega arith)), v.distinct);
  fresh = λ n h. rw rows (ground (arith, v.fresh n, ==_iff z.id n));
}
Change-IsSound x m e s s' (changed z o found rows next) v = record {
  distinct = rw rows (map-DistinctIds (set_row x z.id o) s.rows (set_row_id x z.id o) v.distinct);
  fresh = λ n h. rw rows (
      find_id-map-none (set_row x z.id o) n s.rows (set_row_id x z.id o) (v.fresh n (omega arith)));
}
Change-IsSound x m e s s' (dropped z found rows next) v = record {
  distinct = rw rows (filter-DistinctIds _ s.rows v.distinct);
  fresh = λ n h. rw rows (find_id-filter _ n s.rows (v.fresh n (omega arith)));
}

-- The row of another key stays as it is.
pub Change_keeps :
    (x : Env) (m e m' e' : Text) (s s' : Store) (r : Capability)
    → Change x m e s s'
    → IsSound s
    → (text_eq m m' && text_eq e e') ≡ false
    → find_key m' e' s.rows ≡ some r
    → find_key m' e' s'.rows ≡ some r
unfolding find_key
Change_keeps x m e m' e' s s' r (same rows next) v other h = rw rows h
Change_keeps x m e m' e' s s' r (made z id km ke rows next) v other h =
    rw rows (rw (km, ke) (rw other h))
Change_keeps x m e m' e' s s' r (changed z o found rows next) v other h =
    let apart = other_id m' e' m e s.rows r z v.distinct h found other in
    rw rows (
      find_key-map (set_row x z.id o) m' e' s.rows r (set_row-has_key x z.id o m' e') h
      ∙ ap some (rw apart refl))
Change_keeps x m e m' e' s s' r (dropped z found rows next) v other h =
    let apart = other_id m' e' m e s.rows r z v.distinct h found other in
    rw rows (find_key-filter _ m' e' s.rows r h (rw apart refl))

pub create_capability_quiet :
    (x : Env) (s : Store) (make : ℕ → Capability)
    → x.insert_fails (make s.next_id).method (make s.next_id).endpoint ≡ none
    → (create_capability x s make).0
      ≡ (after_created_capability x
          (record s { rows = make s.next_id ∷ s.rows; next_id = s.next_id + 1 })
          (make s.next_id)).0
unfolding create_capability
create_capability_quiet x s make h = ground arith

pub create_capability-Change :
    (x : Env) (s : Store) (m e : Text) (api : Api)
    → IsQuiet x
    → Change x m e s (create_capability x s (basic_of m e api)).0
unfolding after_created_capability basic_of
create_capability-Change x s m e api q =
    let z : Capability = basic_of m e api s.next_id in
    let s' : Store = record s { rows = z ∷ s.rows; next_id = s.next_id + 1 } in
    let subject : Text = get_subject z.tags z.summary in
    let saved = create_capability_quiet x s (basic_of m e api) (q.inserts m e) in
    made z refl refl refl
      (ap (λ (t : Store). t.rows) saved ∙ add_vector-rows x s' s.next_id subject (x.embed subject))
      (ap (λ (t : Store). t.next_id) saved
        ∙ add_vector-next x s' s.next_id subject (x.embed subject))

pub delete_capability-Change :
    (x : Env) (s : Store) (m e : Text) (z : Capability)
    → IsQuiet x
    → IsSound s
    → find_key m e s.rows ≡ some z
    → Change x m e s (delete_capability x s z.id).0
unfolding delete_capability
delete_capability-Change x s m e z q v h =
    let own = find_id-of_find_key m e s.rows z v.distinct h in
    dropped z h (ground (arith, q.deletes z.id)) (ground (arith, q.deletes z.id))

pub save_api-Change :
    (x : Env) (s : Store) (m e : Text) (api : Api) (existing : Option Capability)
    → IsQuiet x
    → IsSound s
    → find_key m e s.rows ≡ existing
    → Change x m e s (save_api x s m e api existing)
unfolding save_api
save_api-Change x s m e api none q v h = create_capability-Change x s m e api q
save_api-Change x s m e api (some z) q v h =
    changed z (set_of api) h
      (update_capability-rows x s z.id (set_of api) z
        (find_id-of_find_key m e s.rows z v.distinct h) (q.updates z.id))
      (update_capability-next x s z.id (set_of api))

pub drop_existing-Change :
    (x : Env) (s : Store) (m e : Text) (existing : Option Capability)
    → IsQuiet x
    → IsSound s
    → find_key m e s.rows ≡ existing
    → Change x m e s (drop_existing x s existing)
drop_existing-Change x s m e none q v h = same refl refl
drop_existing-Change x s m e (some z) q v h = delete_capability-Change x s m e z q v h

pub if-Change :
    (x : Env) (m e : Text) (s : Store) (b : Bool) (t u : Store)
    → Change x m e s t
    → Change x m e s u
    → Change x m e s (if b then t else u)
if-Change x m e s true t u c d = c
if-Change x m e s false t u c d = d

pub get_quiet :
    (x : Env) (s : Store) (method e : Text)
    → IsQuiet x
    → get_capability_with x s (x.upper method) e ≡ ok (find_key (x.upper method) e s.rows)
unfolding get_capability_with
get_quiet x s method e q = simp (q.gets, q.upper_idem)

pub import_found-Change :
    (x : Env) (s : Store) (m e : Text) (api : Api)
    → IsQuiet x
    → IsSound s
    → Change x m e s (import_found x s m e api (ok (find_key m e s.rows)))
unfolding import_found
import_found-Change x s m e api q v =
    let existing = find_key m e s.rows in
    if-Change x m e s (any_by skips_ai api.tags) _ _
      (drop_existing-Change x s m e existing q v refl)
      (if-Change x m e s (is_empty (get_subject api.tags api.summary)) _ _ (same refl refl)
        (save_api-Change x s m e api existing q v refl))

pub import_operation-Change :
    (x : Env) (s : Store) (o : Operation)
    → IsQuiet x
    → IsSound s
    → Change x (x.upper o.method) o.path s (import_operation x s o)
unfolding import_operation
import_operation-Change x s o q v =
    let m : Text = x.upper o.method in
    if-Change x m o.path s (no_method m) _ _ (same refl refl) (
      subst (λ r. Change x m o.path s (import_found x s m o.path o.api r))
        (sym (get_quiet x s o.method o.path q)) (import_found-Change x s m o.path o.api q v))

pub import_operations-IsSound :
    (x : Env) (s : Store) (os : List Operation)
    → IsQuiet x
    → IsSound s
    → IsSound (import_operations x s os)
unfolding import_operations
import_operations-IsSound x s [] q v = v
import_operations-IsSound x s (o ∷ os) q v =
    import_operations-IsSound x (import_operation x s o) os q
      (Change-IsSound x _ _ s _ (import_operation-Change x s o q v) v)
