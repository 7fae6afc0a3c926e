-- ===== src/Capability/Documents.antt =====
-- The import of capabilities from a swagger document, and the cleaning up of those that went
-- missing, in pkg/services/stores/capability_x.go and pkg/models/capability/capability_x.go. A
-- document is the list of its operations, in the order that the loops over its maps meet them.
use morign.Base.{
  ℕ, Bool, not, ◌&&◌, ◌||◌, Option, none, some, List, [], ◌∷◌, ◌++◌, Text, codes, is_empty, text_eq,
  if◌then◌else◌, ◌==◌, filter_by, any_by, join, Result, ok, err,
}
use morign.Skills.{cut_at}
use morign.Channel.Guards.{split_comma}
use morign.Capability.{
  Param, Meta, Capability, CapabilitySet, Store, Env, get_subject, get_capability_with,
  create_capability, update_capability, delete_capability,
}

-- An operation of a swaggerDoc.
pub record Api : Type 0 where
  pub operation_id : Text
  pub summary : Text
  pub description : Text
  pub parameters : List Param
  pub responses : Text
  pub tags : List Text

-- FilterParams
unfoldable pub filter_params : List Param → Text → List Param
filter_params params exclude_name = filter_by (λ p. not (text_eq p.name exclude_name)) params

-- EnrichSortableFields: the description without its mark, and the parameters, whose `sort` names the
-- fields.
abbrev pub spaced : Text → Text
spaced [] = []
spaced (c ∷ []) = if c == 0x20 then c ∷ [] else c ∷ (0x20 ∷ [])
spaced (c ∷ (d ∷ s)) = c ∷ spaced (d ∷ s)

abbrev pub with_fields : Text → Param → Param
with_fields content p = record p {
  description =
      spaced p.description
      ++ (codes "Sortable fields: " ++ join (codes ", ") (split_comma content));
}

unfoldable pub enrich_sort : Text → List Param → Option (List Param)
enrich_sort content [] = none
enrich_sort content (p ∷ params) =
    let rest = enrich_sort content params in
    if text_eq p.name (codes "sort")
    then some (with_fields content p ∷ params)
    else elim rest [ none ↦ none | some params' ↦ some (p ∷ params') ]

abbrev pub Enriched : Type 0
Enriched = Text × List Param

abbrev pub enrich_between : Text → Text → List Param → Option (Text × Text) → Enriched
enrich_between description before params none = (description, params)
enrich_between description before params (some (content, after)) =
    elim (enrich_sort content params) [
      | none ↦ (description, params)
      | some params' ↦ (before ++ after, params')
    ]

abbrev pub enrich_from : Text → List Param → Option (Text × Text) → Enriched
enrich_from description params none = (description, params)
enrich_from description params (some (before, rest)) =
    enrich_between description before params (cut_at (codes "</sortable>") rest)

unfoldable pub enrich_sortable_fields : Text → List Param → Enriched
unfolding enrich_sort
enrich_sortable_fields description params =
    enrich_from description params (cut_at (codes "<sortable>") description)

-- The keys of a path item that are no methods.
abbrev pub no_method : Text → Bool
no_method method = text_eq method (codes "PARAMETERS") || text_eq method (codes "RESOLUTIONS")

abbrev pub skips_ai : Text → Bool
skips_ai tag = text_eq tag (codes "skipai") || text_eq tag (codes "skipAI")

-- The row that is made, and the set that an existing one is updated with: the first has the
-- description without the mark, the second that of the document.
unfoldable pub basic_of : Text → Text → Api → ℕ → Capability
unfolding enrich_sortable_fields filter_params
basic_of method path api id =
    let enriched =
      enrich_sortable_fields api.description (filter_params api.parameters (codes "token")) in
    record {
      id = id;
      operation_id = api.operation_id;
      endpoint = path;
      method = method;
      summary = api.summary;
      description = enriched.0;
      parameters = enriched.1;
      responses = api.responses;
      tags = api.tags;
      meta = [];
    }

unfoldable pub set_of : Api → CapabilitySet
unfolding enrich_sortable_fields filter_params
set_of api =
    let enriched =
      enrich_sortable_fields api.description (filter_params api.parameters (codes "token")) in
    record {
      operation_id = some api.operation_id;
      summary = some api.summary;
      description = some api.description;
      parameters = some enriched.1;
      responses = some api.responses;
      tags = some api.tags;
      meta_diff = none;
    }

unfoldable pub save_api : Env → Store → Text → Text → Api → Option Capability → Store
save_api x s method path api none = (create_capability x s (basic_of method path api)).0
save_api x s method path api (some z) = (update_capability x s z.id (set_of api)).0

abbrev pub drop_existing : Env → Store → Option Capability → Store
drop_existing x s none = s
drop_existing x s (some z) = (delete_capability x s z.id).0

unfoldable pub import_found :
    Env → Store → Text → Text → Api → Result Text (Option Capability) → Store
unfolding save_api
import_found x s method path api (err e) = s
import_found x s method path api (ok existing) =
    if any_by skips_ai api.tags
    then drop_existing x s existing
    else if is_empty (get_subject api.tags api.summary)
    then s
    else save_api x s method path api existing

-- One round of the import loop.
pub record Operation : Type 0 where
  pub path : Text
  pub method : Text
  pub api : Api

unfoldable pub import_operation : Env → Store → Operation → Store
unfolding import_found
import_operation x s o =
    let method = x.upper o.method in
    if no_method method
    then s
    else import_found x s method o.path o.api (get_capability_with x s method o.path)

unfoldable pub import_operations : Env → Store → List Operation → Store
import_operations x s [] = s
import_operations x s (o ∷ os) = import_operations x (import_operation x s o) os

-- importedEndpoints, as a test of a row: the keys are `method + ":" + path`.
abbrev pub endpoint_key : Text → Text → Text
endpoint_key method path = method ++ (0x3a ∷ path)

unfoldable pub in_document : Env → List Operation → Capability → Bool
in_document x os z =
    any_by
      (λ (o : Operation).
        not (no_method (x.upper o.method))
        && text_eq (endpoint_key z.method z.endpoint) (endpoint_key (x.upper o.method) o.path))
      os

abbrev pub missed_mark : Text × Text
missed_mark = (codes "missed", codes "yes")

abbrev pub missed_set : CapabilitySet
missed_set = record {
  operation_id = none;
  summary = none;
  description = none;
  parameters = none;
  responses = none;
  tags = none;
  meta_diff = some missed_mark;
}

-- The loop of markMissingCapabilities over the rows that the prefix selected.
unfoldable pub mark_rows : Env → List Operation → Store → List Capability → Store
mark_rows x os s [] = s
mark_rows x os s (z ∷ rows) =
    let s' = if in_document x os z then s else (update_capability x s z.id missed_set).0 in
    mark_rows x os s' rows

-- markMissingCapabilities
unfoldable pub mark_missing_capabilities : Env → List Operation → Store → Text → Store
unfolding mark_rows
mark_missing_capabilities x os s prefix = elim x.select_fails [
  | some e ↦ s
  | none ↦
      mark_rows x os s
        (filter_by (λ (z : Capability). x.like z.endpoint (prefix ++ codes "%")) s.rows)
]

-- ImportCapabilities, of the operations of a document in the order that the loops meet them.
unfoldable pub import_capabilities : Env → Store → List Operation → Text → Store
unfolding import_operations mark_missing_capabilities
import_capabilities x s os prefix =
    let s' = import_operations x s os in
    if is_empty prefix then s' else mark_missing_capabilities x os s' prefix

-- CleanupMissedCapabilities: `missed` says whether the meta field has the mark.
unfoldable pub delete_all : Env → Store → List Capability → Store
delete_all x s [] = s
delete_all x s (z ∷ rows) = delete_all x (delete_capability x s z.id).0 rows

abbrev pub to_clean : Env → (Meta → Bool) → Text → Capability → Bool
to_clean x missed prefix z =
    missed z.meta && (is_empty prefix || x.like z.endpoint (prefix ++ codes "%"))

unfoldable pub cleanup_missed_capabilities :
    Env → (Meta → Bool) → Store → Text → Bool → Store × Option Text
unfolding delete_all
cleanup_missed_capabilities x missed s prefix dry_run = elim x.select_fails [
  | some e ↦ (s, some e)
  | none ↦
      (if dry_run then s else delete_all x s (filter_by (to_clean x missed prefix) s.rows), none)
]
