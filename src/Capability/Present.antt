-- ===== src/Capability/Present.antt =====
-- The import of capabilities, in pkg/services/stores/capability_x.go: what the table has afterwards.
use morign.Base.{
  ◌+◌, ◌≡◌, refl, ap, ◌∙◌, false, ◌&&◌, Option, none, some, List, [], ◌∷◌, ◌++◌, Text, is_empty,
  text_eq, text_eq_iff, any_by, All, arith,
}
use morign.Capability.{
  Capability, Store, Env, get_subject, find_key, set_with, set_row, after_created_capability,
}
use morign.Capability.Documents.{
  Operation, no_method, skips_ai, basic_of, set_of, save_api, import_found, import_operation,
  import_operations,
}
use morign.Capability.Hooks.{add_vector-rows, update_capability-rows, set_row_self}
use morign.Capability.Rows.{IsQuiet, IsSound, find_id-of_find_key, find_key-map}
use morign.Capability.Changes.{
  set_row-has_key, Change-IsSound, Change_keeps, create_capability_quiet, get_quiet,
  import_operation-Change, import_operations-IsSound,
}

-- The operation is not one of the key.
abbrev pub IsOther : Env → Text → Text → Operation → Type 0
IsOther x m e o = (text_eq (x.upper o.method) m && text_eq o.path e) ≡ false

pub import_operations_keeps :
    (x : Env) (s : Store) (m e : Text) (os : List Operation) (r : Capability)
    → IsQuiet x
    → IsSound s
    → All (IsOther x m e) os
    → find_key m e s.rows ≡ some r
    → find_key m e (import_operations x s os).rows ≡ some r
unfolding import_operations
import_operations_keeps x s m e [] r q v others h = h
import_operations_keeps x s m e (o ∷ os) r q v others h =
    let change = import_operation-Change x s o q v in
    import_operations_keeps x (import_operation x s o) m e os r q
      (Change-IsSound x _ _ s _ change v) others.1
      (Change_keeps x _ _ m e s _ r change v others.0 h)

-- What the document says of an operation stands in its row.
pub record Describes (o : Operation) (z : Capability) : Type 0 where
  pub operation_id : z.operation_id ≡ o.api.operation_id
  pub summary : z.summary ≡ o.api.summary
  pub responses : z.responses ≡ o.api.responses
  pub tags : z.tags ≡ o.api.tags

pub find_key_head :
    (m e : Text) (z : Capability) (rows : List Capability)
    → z.method ≡ m
    → z.endpoint ≡ e
    → find_key m e (z ∷ rows) ≡ some z
unfolding find_key
find_key_head m e z rows km ke = ground (arith, text_eq_iff z.method m, text_eq_iff z.endpoint e)

pub save_api-Describes :
    (x : Env) (s : Store) (o : Operation) (m : Text) (existing : Option Capability)
    → IsQuiet x
    → IsSound s
    → find_key m o.path s.rows ≡ existing
    → (z : Capability) × (find_key m o.path (save_api x s m o.path o.api existing).rows ≡ some z)
      × Describes o z
unfolding save_api basic_of set_of set_with after_created_capability
save_api-Describes x s o m none q v h =
    let z : Capability = basic_of m o.path o.api s.next_id in
    let s' : Store = record s { rows = z ∷ s.rows; next_id = s.next_id + 1 } in
    let subject : Text = get_subject z.tags z.summary in
    let rows =
      ap (λ (t : Store). t.rows)
        (create_capability_quiet x s (basic_of m o.path o.api) (q.inserts m o.path))
      ∙ add_vector-rows x s' s.next_id subject (x.embed subject) in
    (
      z,
      ap (find_key m o.path) rows ∙ find_key_head m o.path z s.rows refl refl,
      record { operation_id = refl; summary = refl; responses = refl; tags = refl },
    )
save_api-Describes x s o m (some z) q v h = (
  set_with x (set_of o.api) z,
  ap (find_key m o.path) (
        update_capability-rows x s z.id (set_of o.api) z
          (find_id-of_find_key m o.path s.rows z v.distinct h) (q.updates z.id))
      ∙ (find_key-map (set_row x z.id (set_of o.api)) m o.path s.rows z
            (set_row-has_key x z.id (set_of o.api) m o.path) h
          ∙ ap some (set_row_self x (set_of o.api) z)),
  record { operation_id = refl; summary = refl; responses = refl; tags = refl },
)

-- A document has an operation that is to be taken in.
pub record IsTaken (x : Env) (o : Operation) : Type 0 where
  pub named : no_method (x.upper o.method) ≡ false
  pub kept : any_by skips_ai o.api.tags ≡ false
  pub titled : is_empty (get_subject o.api.tags o.api.summary) ≡ false

pub import_operation_saves :
    (x : Env) (s : Store) (o : Operation)
    → IsQuiet x
    → IsTaken x o
    → import_operation x s o
      ≡ save_api x s (x.upper o.method) o.path o.api (find_key (x.upper o.method) o.path s.rows)
unfolding import_operation import_found
import_operation_saves x s o q w =
    rw (w.named, get_quiet x s o.method o.path q, w.kept, w.titled) refl

pub import_operations-append :
    (x : Env) (s : Store) (os os' : List Operation)
    → import_operations x s (os ++ os') ≡ import_operations x (import_operations x s os) os'
unfolding import_operations
import_operations-append x s [] os' = refl
import_operations-append x s (o ∷ os) os' =
    import_operations-append x (import_operation x s o) os os'

-- When no database call fails, and whether or not a vector can be made: after the loop of an
-- import into a table whose identifiers are sound, each operation of the document that is to be
-- taken in, and that no later one of the same method and path follows, has a row under its method
-- and path, with the operation id, the summary, the responses and the tags of the document.
pub import_operations-Describes :
    (x : Env) (s : Store) (before after : List Operation) (o : Operation)
    → IsQuiet x
    → IsSound s
    → IsTaken x o
    → All (IsOther x (x.upper o.method) o.path) after
    → (z : Capability) × (find_key
          (x.upper o.method)
          o.path
          (import_operations x s (before ++ (o ∷ after))).rows
        ≡ some z)
      × Describes o z
unfolding import_operations
import_operations-Describes x s before after o q v w others =
    let m : Text = x.upper o.method in
    let s1 : Store = import_operations x s before in
    let v1 = import_operations-IsSound x s before q v in
    let s2 : Store = import_operation x s1 o in
    let saved = save_api-Describes x s1 o m (find_key m o.path s1.rows) q v1 refl in
    let here =
      ap (λ (t : Store). find_key m o.path t.rows) (import_operation_saves x s1 o q w) ∙ saved.1 in
    let v2 = Change-IsSound x m o.path s1 s2 (import_operation-Change x s1 o q v1) v1 in
    (
      saved.0,
      ap (λ (t : Store). find_key m o.path t.rows) (import_operations-append x s before (o ∷ after))
          ∙ import_operations_keeps x s2 m o.path after saved.0 q v2 others here,
      saved.2,
    )
