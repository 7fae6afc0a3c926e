-- ===== src/Skills/Files.antt =====
-- pkg/services/stores/skills_x.go: the files of skills, which a bundle replaces as a whole, and
-- the transactions around them. The bundle is a list of paths and contents in the order that the
-- loop over the map meets them; `Meter` has the size of a content, its kind and the MIME type by
-- the path.
use morign.Base.{
  ℕ, Bool, true, not, ◌&&◌, Option, none, some, List, [], ◌∷◌, Text, text_eq, if◌then◌else◌, ◌==◌,
  filter_by, contains, Result, ok, err,
}
use morign.Skills.{check_skill_files}

-- File
pub record File : Type 0 where
  pub skill_id : ℕ
  pub path : Text
  pub content : Text
  pub mime : Text
  pub binary : Bool
  pub size : ℕ

pub record Meter : Type 0 where
  pub size : Text → ℕ
  pub kind : Text → Text → Bool
  pub mime : Text → Text

-- Which calls fail: the insertion of a path, and the deletion.
pub record Faults : Type 0 where
  pub insert : Text → Option Text
  pub delete : Option Text
  pub create : Option Text
  pub get : Option Text
  pub update : Option Text

abbrev pub Bundle : Type 0
Bundle = List (Text × Text)

abbrev pub has_path : ℕ → Text → File → Bool
has_path id path f = f.skill_id == id && text_eq f.path path

unfoldable pub find_file : ℕ → Text → List File → Option File
find_file id path [] = none
find_file id path (f ∷ files) = if has_path id path f then some f else find_file id path files

abbrev pub new_file : Meter → ℕ → Text → Text → File
new_file m id path content = record {
  skill_id = id;
  path = path;
  content = content;
  mime = m.mime path;
  binary = m.kind path content;
  size = m.size content;
}

-- An insertion that takes the place of the row with the same skill and path.
unfoldable pub put_file : File → List File → List File
put_file f [] = f ∷ []
put_file f (g ∷ files) =
    let rest = put_file f files in if has_path f.skill_id f.path g then f ∷ files else g ∷ rest

-- The loop of upsertSkillFiles.
unfoldable pub put_files : Meter → Faults → ℕ → Bundle → List File → Result Text (List File)
unfolding put_file
put_files m x id [] files = ok files
put_files m x id ((path, content) ∷ bundle) files = elim (x.insert path) [
  | some e ↦ err e
  | none ↦ put_files m x id bundle (put_file (new_file m id path content) files)
]

abbrev pub paths_of : Bundle → List Text
paths_of [] = []
paths_of ((path, content) ∷ bundle) = path ∷ paths_of bundle

abbrev pub stays : ℕ → List Text → File → Bool
stays id paths f = if f.skill_id == id then contains paths f.path else true

abbrev pub drop_others : Faults → ℕ → List Text → List File → Result Text (List File)
drop_others x id paths files = elim x.delete [
  | some e ↦ err e
  | none ↦ ok (filter_by (stays id paths) files)
]

abbrev pub after_put : Faults → ℕ → Bundle → Result Text (List File) → Result Text (List File)
after_put x id bundle (err e) = err e
after_put x id bundle (ok files) = drop_others x id (paths_of bundle) files

-- upsertSkillFiles
unfoldable pub upsert_skill_files :
    Meter → Faults → ℕ → Bundle → List File → Result Text (List File)
unfolding put_files
upsert_skill_files m x id bundle files = after_put x id bundle (put_files m x id bundle files)

-- A transaction keeps the table when it fails.
abbrev pub committed : {A : Type 0} → A → Result Text A → A × Option Text
committed old (ok new) = (new, none)
committed old (err e) = (old, some e)

abbrev pub sizes_of : Meter → Bundle → List (Text × ℕ)
sizes_of m [] = []
sizes_of m ((path, content) ∷ bundle) = (path, m.size content) ∷ sizes_of m bundle

abbrev pub if_small : {A : Type 0} → Meter → Bundle → A → A × Option Text → A × Option Text
if_small m bundle old saved = elim (check_skill_files 0 (sizes_of m bundle)) [
  | some e ↦ (old, some e)
  | none ↦ saved
]

-- The files of UpdateSkillWithFiles, for a skill that is there: `none` keeps them as they are.
abbrev pub update_in : Meter → Faults → ℕ → Option Bundle → List File → Result Text (List File)
update_in m x id bundle files = elim x.get [
  | some e ↦ err e
  | none ↦ elim x.update [
    | some e ↦ err e
    | none ↦ elim bundle [ none ↦ ok files | some b ↦ upsert_skill_files m x id b files ]
  ]
]

unfoldable pub update_skill_files :
    Meter → Faults → ℕ → Option Bundle → List File → List File × Option Text
unfolding upsert_skill_files
update_skill_files m x id none files = committed files (update_in m x id none files)
update_skill_files m x id (some bundle) files =
    if_small m bundle files (committed files (update_in m x id (some bundle) files))

-- dbBeforeDeleteSkill
unfoldable pub delete_skill_files : Faults → ℕ → List File → Result Text (List File)
delete_skill_files x id files = elim x.delete [
  | some e ↦ err e
  | none ↦ ok (filter_by (λ (f : File). not (f.skill_id == id)) files)
]
