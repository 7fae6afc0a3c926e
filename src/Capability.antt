-- ===== src/Capability.antt =====
-- pkg/services/stores/capability_x.go, capability_gen.go and pkg/models/capability: the API
-- capabilities and their vectors. A table is a list of rows, a row number is fresh when it is
-- made. `Env` has what is not the program's own: the upper case of strings, the LIKE of the
-- database, the embedding, the keys of the meta field, and which calls fail.
pub mod Changes
pub mod Documents
pub mod Hooks
pub mod Invoke
pub mod Match
pub mod Missed
pub mod Present
pub mod Reimported
pub mod Routed
pub mod Rows
pub mod Ranked
use morign.Base.{
  ℕ, ◌+◌, Bool, true, false, not, ◌&&◌, ◌||◌, Option, none, some, List, [], ◌∷◌, ◌++◌, map, Text,
  codes, is_empty, text_eq, if◌then◌else◌, ◌==◌, filter_by, any_by, join, Result, ok, err,
}

-- SwaggerParam, with the fields that are read here.
pub record Param : Type 0 where
  pub name : Text
  pub description : Text

abbrev pub Meta : Type 0
Meta = List (Text × Text)

-- Capability
pub record Capability : Type 0 where
  pub id : ℕ
  pub operation_id : Text
  pub endpoint : Text
  pub method : Text
  pub summary : Text
  pub description : Text
  pub parameters : List Param
  pub responses : Text
  pub tags : List Text
  pub meta : Meta

-- CapabilitySet, without the method and the endpoint, which no call here sets.
pub record CapabilitySet : Type 0 where
  pub operation_id : Option Text
  pub summary : Option Text
  pub description : Option Text
  pub parameters : Option (List Param)
  pub responses : Option Text
  pub tags : Option (List Text)
  pub meta_diff : Option (Text × Text)

-- CapabilityVector
pub record CapabilityVector : Type 0 where
  pub cap_id : ℕ
  pub subject : Text
  pub vector : Text

pub record Store : Type 0 where
  pub rows : List Capability
  pub vectors : List CapabilityVector
  pub next_id : ℕ

pub record Env : Type 0 where
  pub upper : Text → Text
  pub like : Text → Text → Bool
  pub embed : Text → Result Text Text
  pub meta_up : Text × Text → Meta → Meta
  pub get_fails : Text → Text → Bool
  pub insert_fails : Text → Text → Option Text
  pub update_fails : ℕ → Option Text
  pub delete_fails : ℕ → Option Text
  pub vector_fails : ℕ → Option Text
  pub select_fails : Option Text

-- GetSubject
abbrev pub subject_parts : List Text → Text → List Text
subject_parts [] summary = if is_empty summary then [] else summary ∷ []
subject_parts (tag ∷ tags) summary = tag ∷ (if is_empty summary then [] else summary ∷ [])

unfoldable pub get_subject : List Text → Text → Text
get_subject tags summary = join (codes " ") (subject_parts tags summary)

abbrev pub or_value : {A : Type 0} → A → Option A → A
or_value a none = a
or_value a (some b) = b

abbrev pub meta_with : (Text × Text → Meta → Meta) → Meta → Option (Text × Text) → Meta
meta_with meta_up meta none = meta
meta_with meta_up meta (some diff) = meta_up diff meta

-- SetWith
unfoldable pub set_with : Env → CapabilitySet → Capability → Capability
set_with x o z = record z {
  operation_id = or_value z.operation_id o.operation_id;
  summary = or_value z.summary o.summary;
  description = or_value z.description o.description;
  parameters = or_value z.parameters o.parameters;
  responses = or_value z.responses o.responses;
  tags = or_value z.tags o.tags;
  meta = meta_with x.meta_up z.meta o.meta_diff;
}

abbrev pub has_key : Text → Text → Capability → Bool
has_key method endpoint z = text_eq z.method method && text_eq z.endpoint endpoint

unfoldable pub find_key : Text → Text → List Capability → Option Capability
find_key method endpoint [] = none
find_key method endpoint (z ∷ rows) =
    if has_key method endpoint z then some z else find_key method endpoint rows

-- What GetCapabilityWith gives: ErrNoRows is a row that is not there.
unfoldable pub get_capability_with : Env → Store → Text → Text → Result Text (Option Capability)
unfolding find_key
get_capability_with x s method endpoint =
    if x.get_fails method endpoint
    then err (codes "get")
    else ok (find_key (x.upper method) endpoint s.rows)

unfoldable pub find_vector : ℕ → List CapabilityVector → Option CapabilityVector
find_vector id [] = none
find_vector id (v ∷ vectors) = if v.cap_id == id then some v else find_vector id vectors

abbrev pub Saved : Type 0
Saved = Store × Option Text

abbrev pub add_vector : Env → Store → ℕ → Text → Result Text Text → Saved
add_vector x s id subject (err e) = (s, some e)
add_vector x s id subject (ok vector) = elim (x.vector_fails id) [
  | some e ↦ (s, some e)
  | none ↦ (
    record s { vectors = record { cap_id = id; subject = subject; vector = vector } ∷ s.vectors },
    none,
  )
]

-- afterCreatedCapability
unfoldable pub after_created_capability : Env → Store → Capability → Saved
after_created_capability x s z =
    let subject = get_subject z.tags z.summary in add_vector x s z.id subject (x.embed subject)

abbrev pub put_vector : ℕ → Text → Text → CapabilityVector → CapabilityVector
put_vector id subject vector v =
    if v.cap_id == id then record v { subject = subject; vector = vector } else v

abbrev pub change_vector : Env → Store → ℕ → Text → Result Text Text → Saved
change_vector x s id subject (err e) = (s, some e)
change_vector x s id subject (ok vector) = elim (x.vector_fails id) [
  | some e ↦ (s, some e)
  | none ↦ (record s { vectors = map (put_vector id subject vector) s.vectors }, none)
]

abbrev pub sync_vector : Env → Store → ℕ → Text → Option CapabilityVector → Saved
sync_vector x s id subject none = add_vector x s id subject (x.embed subject)
sync_vector x s id subject (some v) =
    if text_eq v.subject subject then (s, none) else change_vector x s id subject (x.embed subject)

-- afterUpdatedCapability
unfoldable pub after_updated_capability : Env → Store → Capability → Saved
unfolding find_vector
after_updated_capability x s z =
    sync_vector x s z.id (get_subject z.tags z.summary) (find_vector z.id s.vectors)

-- CreateCapability: the row stays when its vector cannot be made.
unfoldable pub create_capability : Env → Store → (ℕ → Capability) → Saved
unfolding after_created_capability
create_capability x s make =
    let z = make s.next_id in
    elim (x.insert_fails z.method z.endpoint) [
      | some e ↦ (s, some e)
      | none ↦
          after_created_capability x (record s { rows = z ∷ s.rows; next_id = s.next_id + 1 }) z
    ]

unfoldable pub find_id : ℕ → List Capability → Option Capability
find_id id [] = none
find_id id (z ∷ rows) = if z.id == id then some z else find_id id rows

abbrev pub set_row : Env → ℕ → CapabilitySet → Capability → Capability
set_row x id o z = if z.id == id then set_with x o z else z

-- UpdateCapability
unfoldable pub update_capability : Env → Store → ℕ → CapabilitySet → Saved
unfolding find_id after_updated_capability
update_capability x s id o = elim (find_id id s.rows) [
  | none ↦ (s, some (codes "not found"))
  | some z ↦ elim (x.update_fails id) [
    | some e ↦ (s, some e)
    | none ↦
        after_updated_capability x (record s { rows = map (set_row x id o) s.rows })
          (set_with x o z)
  ]
]

-- DeleteCapability, with dbBeforeDeleteCapability in its transaction.
unfoldable pub delete_capability : Env → Store → ℕ → Saved
unfolding find_id
delete_capability x s id = elim (find_id id s.rows) [
  | none ↦ (s, none)
  | some z ↦ elim (x.delete_fails id) [
    | some e ↦ (s, some e)
    | none ↦ (
      record s {
        rows = filter_by (λ (r : Capability). not (r.id == id)) s.rows;
        vectors = filter_by (λ (v : CapabilityVector). not (v.cap_id == id)) s.vectors;
      },
      none,
    )
  ]
]
