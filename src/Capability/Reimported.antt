-- ===== src/Capability/Reimported.antt =====
-- A capability that went missing and comes back with a later document, in
-- pkg/services/stores/capability_x.go: its row after the import, and at the next cleaning up.
use morign.Base.{
  ℕ, ◌≡◌, refl, sym, ap, ◌∙◌, Bool, true, false, none, some, List, [], ◌∷◌, ◌++◌, Text, All,
  is_empty, text_eq_refl, ◌==◌, ==_iff, filter_by, any_by, arith, Bool-cases, Option-cases, inl,
  inr,
}
use mathlib.Core.Path.{subst}
use morign.Capability.{
  Meta, Capability, Store, Env, find_key, find_id, set_with, set_row, update_capability,
}
use morign.Capability.Documents.{
  Operation, endpoint_key, set_of, save_api, import_operation, import_operations, in_document,
  missed_set, mark_rows, mark_missing_capabilities, import_capabilities, to_clean,
  cleanup_missed_capabilities,
}
use morign.Capability.Hooks.{update_capability-rows, set_row_id, find_id-map, set_row_self}
use morign.Capability.Rows.{
  IsQuiet, DistinctIds, IsSound, find_id-of_find_key, find_key-has_key, find_key-map, has_key_parts,
}
use morign.Capability.Changes.{
  set_row-has_key, import_operation-Change, import_operations-IsSound, Change-IsSound,
}
use morign.Capability.Present.{
  IsOther, IsTaken, Describes, import_operations_keeps, import_operation_saves,
  import_operations-append,
}
use morign.Capability.Missed.{any_by-filter, cleanup_lem, delete_all_gone}

-- The round of an operation whose key is in the table.
import_operation_found :
    (x : Env) (s : Store) (o : Operation) (z : Capability)
    → IsQuiet x
    → IsSound s
    → IsTaken x o
    → find_key (x.upper o.method) o.path s.rows ≡ some z
    → find_key (x.upper o.method) o.path (import_operation x s o).rows
      ≡ some (set_with x (set_of o.api) z)
unfolding save_api
import_operation_found x s o z q v w h =
    let m : Text = x.upper o.method in
    let saved = import_operation_saves x s o q w ∙ ap (save_api x s m o.path o.api) h in
    ap (λ (t : Store). find_key m o.path t.rows) saved
    ∙ ap (find_key m o.path) (
        update_capability-rows x s z.id (set_of o.api) z
          (find_id-of_find_key m o.path s.rows z v.distinct h) (q.updates z.id))
    ∙ find_key-map (set_row x z.id (set_of o.api)) m o.path s.rows z
        (set_row-has_key x z.id (set_of o.api) m o.path) h
    ∙ ap some (set_row_self x (set_of o.api) z)

-- The loop of an import with one operation of the key.
import_operations_found :
    (x : Env) (s : Store) (before after : List Operation) (o : Operation) (z : Capability)
    → IsQuiet x
    → IsSound s
    → IsTaken x o
    → All (IsOther x (x.upper o.method) o.path) before
    → All (IsOther x (x.upper o.method) o.path) after
    → find_key (x.upper o.method) o.path s.rows ≡ some z
    → find_key (x.upper o.method) o.path (import_operations x s (before ++ (o ∷ after))).rows
      ≡ some (set_with x (set_of o.api) z)
unfolding import_operations
import_operations_found x s before after o z q v w others others' h =
    let m : Text = x.upper o.method in
    let s1 : Store = import_operations x s before in
    let v1 = import_operations-IsSound x s before q v in
    let found = import_operations_keeps x s m o.path before z q v others h in
    let s2 : Store = import_operation x s1 o in
    let v2 = Change-IsSound x m o.path s1 s2 (import_operation-Change x s1 o q v1) v1 in
    ap (λ (t : Store). find_key m o.path t.rows) (import_operations-append x s before (o ∷ after))
    ∙ import_operations_keeps x s2 m o.path after (set_with x (set_of o.api) z) q v2 others'
        (import_operation_found x s1 o z q v1 w found)

any_by-append :
    {A : Type 0} (p : A → Bool) (xs ys : List A) (a : A)
    → p a ≡ true
    → any_by p (xs ++ (a ∷ ys)) ≡ true
any_by-append p [] ys a h = rw h refl
any_by-append p (x ∷ xs) ys a h = ground (arith, any_by-append p xs ys a h)

find_id_id :
    (id : ℕ) (rows : List Capability) (z : Capability) → find_id id rows ≡ some z → z.id ≡ id
unfolding find_id
find_id_id id [] z h = cc
find_id_id id (r ∷ rows) z h = ground (arith, find_id_id id rows z, ==_iff r.id id)

-- Marking another row leaves the row of an identifier alone.
update_other :
    (x : Env) (s : Store) (id id' : ℕ) (z : Capability)
    → IsQuiet x
    → (id == id') ≡ false
    → find_id id s.rows ≡ some z
    → find_id id (update_capability x s id' missed_set).0.rows ≡ some z
unfolding update_capability
update_other x s id id' z q apart h = elim (Option-cases (find_id id' s.rows)) [
  | inl gone ↦ rw (update_capability, gone) h
  | inr (r, found) ↦
      let own : (z.id == id') ≡ false = rw (find_id_id id s.rows z h) apart in
      ap (find_id id) (update_capability-rows x s id' missed_set r found (q.updates id'))
      ∙ find_id-map (set_row x id' missed_set) id s.rows z (set_row_id x id' missed_set) h
      ∙ ap some (rw own refl)
]

-- The rows of an identifier are in the document.
abbrev IsListed : Env → List Operation → ℕ → Capability → Type 0
IsListed x os id z = (z.id == id) ≡ true → in_document x os z ≡ true

mark_rows_keeps :
    (x : Env) (os : List Operation) (s : Store) (id : ℕ) (z : Capability) (zs : List Capability)
    → IsQuiet x
    → All (IsListed x os id) zs
    → find_id id s.rows ≡ some z
    → find_id id (mark_rows x os s zs).rows ≡ some z
unfolding mark_rows
mark_rows_keeps x os s id z [] q listed h = h
mark_rows_keeps x os s id z (r ∷ zs) q listed h = elim (Bool-cases (in_document x os r)) [
  | inl there ↦ rw (mark_rows, there) (mark_rows_keeps x os s id z zs q listed.1 h)
  | inr missing ↦
      let apart : (id == r.id) ≡ false =
        ground (arith, ==_iff id r.id, ==_iff r.id id, listed.0, missing) in
      rw (mark_rows, missing)
        (mark_rows_keeps x os (update_capability x s r.id missed_set).0 id z zs q listed.1
          (update_other x s id r.id z q apart h))
]

absent_rows :
    (P : Capability → Type 0) (id : ℕ) (rows : List Capability)
    → find_id id rows ≡ none
    → All (λ (r : Capability). (r.id == id) ≡ true → P r) rows
unfolding find_id
absent_rows P id [] h = tt
absent_rows P id (r ∷ rows) h = elim (Bool-cases (r.id == id)) [
  | inl same ↦ let h' = rw same at h in absurd (cc)
  | inr other ↦ ((λ same. cc), absent_rows P id rows (rw other at h))
]

-- The rows of an identifier are one.
only_row :
    (P : Capability → Type 0) (id : ℕ) (rows : List Capability) (z : Capability)
    → DistinctIds rows
    → find_id id rows ≡ some z
    → P z
    → All (λ (r : Capability). (r.id == id) ≡ true → P r) rows
unfolding find_id
only_row P id [] z d h p = tt
only_row P id (r ∷ rows) z d h p = elim (Bool-cases (r.id == id)) [
  | inl same ↦
      let one : z ≡ r = cc (rw same at h) in
      let ids : r.id ≡ id = (==_iff r.id id).0 same in
      ((λ e. subst P one p), absent_rows P id rows (ap (λ n. find_id n rows) (sym ids) ∙ d.0))
  | inr other ↦ ((λ same. cc), only_row P id rows z d.1 (rw other at h) p)
]

All-filter :
    (p : Capability → Bool) (P : Capability → Type 0) (rows : List Capability)
    → All P rows
    → All P (filter_by p rows)
All-filter p P [] h = tt
All-filter p P (r ∷ rows) h = elim (Bool-cases (p r)) [
  | inl kept ↦ rw kept (h.0, All-filter p P rows h.1)
  | inr gone ↦ rw gone (All-filter p P rows h.1)
]

-- Marking leaves a row of the document alone.
marked_keeps :
    (x : Env) (os : List Operation) (s : Store) (prefix : Text) (id : ℕ) (z : Capability)
    → IsQuiet x
    → IsSound s
    → in_document x os z ≡ true
    → find_id id s.rows ≡ some z
    → find_id id (mark_missing_capabilities x os s prefix).rows ≡ some z
unfolding mark_missing_capabilities
marked_keeps x os s prefix id z q v listed h = elim (Option-cases x.select_fails) [
  | inr (e, fails) ↦ rw (mark_missing_capabilities, fails) h
  | inl works ↦
      rw (mark_missing_capabilities, works)
        (mark_rows_keeps x os s id z _ q
          (All-filter _ _ s.rows
            (only_row (λ r. in_document x os r ≡ true) id s.rows z v.distinct h listed))
          h)
]

-- When no database call fails: a capability that has the mark of the missing, and whose method and
-- path stand once in the document of a later import and are to be taken in there, has what the
-- document says after that import, with its marking of what is missing under any prefix; but it
-- keeps its mark, and the next cleaning up of all missing capabilities deletes it.
pub reimported_is_deleted :
    (x : Env) (s : Store) (before after : List Operation) (o : Operation) (z : Capability)
    (missed : Meta → Bool) (prefix : Text)
    → IsQuiet x
    → x.select_fails ≡ none
    → IsSound s
    → IsTaken x o
    → All (IsOther x (x.upper o.method) o.path) before
    → All (IsOther x (x.upper o.method) o.path) after
    → find_key (x.upper o.method) o.path s.rows ≡ some z
    → missed z.meta ≡ true
    → (z' : Capability) × (find_id z.id
          (import_capabilities x s (before ++ (o ∷ after)) prefix).rows
        ≡ some z')
      × Describes o z'
      × (missed z'.meta ≡ true)
      × (find_id z.id
            (cleanup_missed_capabilities x missed
              (import_capabilities x s (before ++ (o ∷ after)) prefix)
              []
              false).0.rows
          ≡ none)
unfolding import_capabilities set_with set_of in_document
reimported_is_deleted x s before after o z missed prefix q select v w others others' found marked =
    let m : Text = x.upper o.method in
    let os : List Operation = before ++ (o ∷ after) in
    let s' : Store = import_operations x s os in
    let v' = import_operations-IsSound x s os q v in
    let new : Capability = set_with x (set_of o.api) z in
    let key = import_operations_found x s before after o z q v w others others' found in
    let here : find_id z.id s'.rows ≡ some new =
      find_id-of_find_key m o.path s'.rows new v'.distinct key in
    let parts = has_key_parts m o.path new (find_key-has_key m o.path s'.rows new key) in
    let listed : in_document x os new ≡ true =
      any_by-append _ before after o
        (rw (w.named, parts.0, parts.1) (text_eq_refl (endpoint_key m o.path))) in
    let final : Store = import_capabilities x s os prefix in
    let stays : find_id z.id final.rows ≡ some new = elim (Bool-cases (is_empty prefix)) [
      | inl plain ↦ rw (import_capabilities, plain) here
      | inr marks ↦
          rw (import_capabilities, marks) (marked_keeps x os s' prefix z.id new q v' listed here)
    ] in
    let clean = any_by-filter (to_clean x missed []) z.id final.rows new stays (rw marked refl) in
    (
      new,
      stays,
      record { operation_id = refl; summary = refl; responses = refl; tags = refl },
      marked,
      rw (cleanup_lem x missed final [] select) (
          delete_all_gone x final z.id (filter_by (to_clean x missed []) final.rows) q.deletes
            clean),
    )
