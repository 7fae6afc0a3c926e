-- ===== src/Tests/Capabilities.antt =====
-- Concrete capabilities and files of skills: pkg/services/stores/capability_x.go and skills_x.go.
use morign.Base.{
  ℕ, ◌≤◌, ◌≡◌, refl, Bool, true, false, none, some, List, [], ◌∷◌, ◌++◌, Text, codes, text_eq, ok,
  err, pos, negsuc, arith, contains,
}
use morign.Capability.{Capability, Store, Env, Meta, find_key, find_id, get_subject}
use morign.Capability.Documents.{
  Operation, import_capabilities, import_operations, cleanup_missed_capabilities,
}
use morign.Capability.Rows.{IsSound, IsQuiet}
use morign.Capability.Present.{IsTaken, Describes, import_operations-Describes}
use morign.Capability.Reimported.{reimported_is_deleted}
use morign.Capability.Match.{Services, Settings, invoker_for_match, match_capabilities, panics}
use morign.Capability.Ranked.{IsCut, invoker_for_match-IsCut}
use morign.Skills.Files.{File, Meter, Faults, find_file, upsert_skill_files}
use morign.Skills.Replaced.{content_at, made, upsert_skill_files_lem}

abbrev quiet : Env
quiet = record {
  upper = λ t. t;
  like = λ s p. true;
  embed = λ t. err (codes "no model");
  meta_up = λ diff meta. diff ∷ meta;
  get_fails = λ m e. false;
  insert_fails = λ m e. none;
  update_fails = λ n. none;
  delete_fails = λ n. none;
  vector_fails = λ n. none;
  select_fails = none;
}

quiet-IsQuiet : IsQuiet quiet
quiet-IsQuiet = record {
  upper_idem = λ t. refl;
  gets = λ m e. refl;
  inserts = λ m e. refl;
  updates = λ n. refl;
  deletes = λ n. refl;
}

abbrev listing : Operation
listing = record {
  path = codes "/a";
  method = codes "GET";
  api = record {
    operation_id = codes "list";
    summary = codes "new";
    description = [];
    parameters = [];
    responses = [];
    tags = codes "t" ∷ [];
  };
}

abbrev old_row : Capability
old_row = record {
  id = 1;
  operation_id = [];
  endpoint = codes "/a";
  method = codes "GET";
  summary = codes "old";
  description = [];
  parameters = [];
  responses = [];
  tags = [];
  meta = (codes "missed", codes "yes") ∷ [];
}

abbrev table : Store
table = record { rows = old_row ∷ []; vectors = []; next_id = 2 }

old_found : find_key (codes "GET") (codes "/a") table.rows ≡ some old_row
unfolding find_key text_eq
old_found = refl

old_owned : find_id 1 table.rows ≡ some old_row
unfolding find_id
old_owned = refl

table_fresh : (n : ℕ) → 2 ≤ n → find_id n table.rows ≡ none
unfolding find_id
table_fresh n h = ground arith

table-IsSound : IsSound table
unfolding find_id
table-IsSound = record { distinct = (refl, tt); fresh = table_fresh }

listing-IsTaken : IsTaken quiet listing
unfolding text_eq get_subject
listing-IsTaken = record { named = refl; kept = refl; titled = refl }

import_operations-Describes_example :
    (z : Capability) × (find_key
        (codes "GET")
        (codes "/a")
        (import_operations quiet table ([] ++ (listing ∷ []))).rows
      ≡ some z)
    × Describes listing z
import_operations-Describes_example =
    import_operations-Describes quiet table [] [] listing quiet-IsQuiet table-IsSound
      listing-IsTaken tt

abbrev any_meta : Meta → Bool
any_meta [] = false
any_meta (kv ∷ meta) = true

-- The import marks what is missing, and the row is in the document.
reimported_is_deleted_example :
    (z : Capability) × (find_id 1
        (import_capabilities quiet table ([] ++ (listing ∷ [])) (codes "/")).rows
      ≡ some z)
    × Describes listing z
    × (any_meta z.meta ≡ true)
    × (find_id 1
          (cleanup_missed_capabilities quiet any_meta
            (import_capabilities quiet table ([] ++ (listing ∷ [])) (codes "/"))
            []
            false).0.rows
        ≡ none)
reimported_is_deleted_example =
    reimported_is_deleted quiet table [] [] listing old_row any_meta (codes "/") quiet-IsQuiet refl
      table-IsSound listing-IsTaken tt tt old_found refl

abbrev services : Services
services = record {
  id_text = λ n. n ∷ [];
  cached = λ query. [];
  chat = none;
  decode = λ content. err (codes "bad");
  embed = λ t. ok (0 ∷ []);
  match_vector = λ vec limit. ok (1 ∷ (2 ∷ []));
  list = λ ids. ok (old_row ∷ (old_row ∷ []));
  summary = λ t. ok t;
}

abbrev settings : Settings
settings = record {
  rerank_enabled = true;
  rerank_recall_limit = pos 15;
  vector_limit = pos 5;
  vector_len = 1;
}

two_matched :
    match_capabilities services settings
      (record { query = codes "q"; limit = pos 15; skip_keywords = true })
    ≡ ok (old_row ∷ (old_row ∷ []))
unfolding match_capabilities
two_matched = refl

invoker_for_match-IsCut_example :
    IsCut
      (λ z. z.id ≡ 1)
      (pos 1)
      (invoker_for_match services settings (some (codes "q")) (some (pos 1)))
invoker_for_match-IsCut_example =
    invoker_for_match-IsCut (λ z. z.id ≡ 1) services settings (codes "q") (some (pos 1)) old_row
      (old_row ∷ []) refl two_matched (refl, (refl, tt))

below_zero : invoker_for_match services settings (some (codes "q")) (some (negsuc 0)) ≡ panics
unfolding invoker_for_match
below_zero = refl

abbrev meter : Meter
meter = record { size = λ t. 1; kind = λ p t. false; mime = λ p. [] }

abbrev sound_disk : Faults
sound_disk = record { insert = λ p. none; delete = none; create = none; get = none; update = none }

abbrev file_of : ℕ → Text → Text → File
file_of id path content = record {
  skill_id = id;
  path = path;
  content = content;
  mime = [];
  binary = false;
  size = 1;
}

abbrev files_before : List File
files_before =
    file_of 1 (codes "a") (codes "old")
    ∷ (file_of 1 (codes "b") [] ∷ (file_of 2 (codes "b") [] ∷ []))

abbrev files_after : List File
files_after = file_of 1 (codes "a") (codes "new") ∷ (file_of 2 (codes "b") [] ∷ [])

replaced :
    upsert_skill_files meter sound_disk 1 ((codes "a", codes "new") ∷ []) files_before
    ≡ ok files_after
unfolding upsert_skill_files text_eq contains
replaced = refl

upsert_skill_files_lem_example :
    find_file 1 (codes "b") files_after
    ≡ made meter 1 (codes "b") (content_at (codes "b") ((codes "a", codes "new") ∷ []))
upsert_skill_files_lem_example =
    upsert_skill_files_lem meter sound_disk 1 ((codes "a", codes "new") ∷ []) files_before
      files_after replaced 1 (codes "b")
