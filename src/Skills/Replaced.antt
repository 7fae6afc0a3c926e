-- ===== src/Skills/Replaced.antt =====
-- The replacement of the files of a skill, in pkg/services/stores/skills_x.go, against the map
-- that a bundle is.
use morign.Base.{
  ℕ, ◌≡◌, refl, ◌∙◌, true, false, ◌&&◌, Option, none, some, List, [], ◌∷◌, Text, text_eq,
  text_eq_iff, if◌then◌else◌, ◌==◌, filter_by, contains, ok, Result-cases, arith, Bool-cases,
  Option-cases, inl, inr,
}
use morign.Skills.Files.{
  File, Meter, Faults, Bundle, find_file, new_file, put_file, put_files, paths_of, stays,
  drop_others, upsert_skill_files,
}

-- The bundle as a map: the content under a path. A map of Go has each path once.
abbrev pub or_else : {A : Type 0} → Option A → Option A → Option A
or_else (some a) o = some a
or_else none o = o

unfoldable pub content_at : Text → Bundle → Option Text
content_at path [] = none
content_at path ((path', content) ∷ bundle) =
    or_else (content_at path bundle) (if text_eq path' path then some content else none)

find_file-put_file :
    (f : File) (id : ℕ) (path : Text) (files : List File)
    → find_file id path (put_file f files)
      ≡ (if f.skill_id == id && text_eq f.path path then some f else find_file id path files)
unfolding find_file put_file
find_file-put_file f id path [] = refl
find_file-put_file f id path (g ∷ files) = ground (
  arith,
  find_file-put_file f id path files,
  text_eq_iff g.path f.path,
  text_eq_iff f.path path,
  text_eq_iff g.path path,
)

abbrev pub made : Meter → ℕ → Text → Option Text → Option File
made m id path none = none
made m id path (some content) = some (new_file m id path content)

-- The file under a path after the loop of the bundle.
abbrev put_over : Meter → ℕ → ℕ → Text → Bundle → List File → Option File
put_over m id id' path bundle files =
    if id == id'
    then or_else (made m id path (content_at path bundle)) (find_file id' path files)
    else find_file id' path files

put_over_next :
    (m : Meter) (id id' : ℕ) (path path' content : Text) (bundle : Bundle) (files : List File)
    → put_over m id id' path bundle (put_file (new_file m id path' content) files)
      ≡ put_over m id id' path ((path', content) ∷ bundle) files
unfolding content_at
put_over_next m id id' path path' content bundle files =
    let step = find_file-put_file (new_file m id path' content) id' path files in
    elim (Bool-cases (id == id')) [
      | inr other ↦ rw (other, step, other) refl
      | inl same ↦ elim (Option-cases (content_at path bundle)) [
        | inl absent ↦ elim (Bool-cases (text_eq path' path)) [
          | inl here ↦ rw (same, absent, step, same, here, (text_eq_iff path' path).0 here) refl
          | inr there ↦ rw (same, absent, step, same, there) refl
        ]
        | inr later ↦ rw (same, later.1) refl
      ]
    ]

put_files_lem :
    (m : Meter) (x : Faults) (id : ℕ) (bundle : Bundle) (files files' : List File)
    → put_files m x id bundle files ≡ ok files'
    → (id' : ℕ) (path : Text) → find_file id' path files' ≡ put_over m id id' path bundle files
unfolding put_files content_at
put_files_lem m x id [] files files' h id' path = elim (Bool-cases (id == id')) [
  | inl same ↦ rw same (cc)
  | inr other ↦ rw other (cc)
]
put_files_lem m x id ((path', content) ∷ bundle) files files' h id' path =
    elim (Option-cases (x.insert path')) [
      | inl fine ↦
          put_files_lem m x id bundle (put_file (new_file m id path' content) files) files'
            (ground arith) id' path
          ∙ put_over_next m id id' path path' content bundle files
      | inr failed ↦ absurd (ground arith)
    ]

contains-paths_of :
    (path : Text) (bundle : Bundle)
    → contains (paths_of bundle) path
      ≡ elim (content_at path bundle) [ none ↦ false | some c ↦ true ]
unfolding content_at contains
contains-paths_of path [] = refl
contains-paths_of path ((path', content) ∷ bundle) =
    ground (arith, contains-paths_of path bundle, text_eq_iff path' path, text_eq_iff path path')

find_file-filter :
    (id id' : ℕ) (path : Text) (paths : List Text) (files : List File)
    → find_file id' path (filter_by (stays id paths) files) ≡ (
        if id == id'
        then (if contains paths path then find_file id' path files else none)
        else find_file id' path files)
unfolding find_file
find_file-filter id id' path paths [] = ground arith
find_file-filter id id' path paths (f ∷ files) =
    ground (arith, find_file-filter id id' path paths files, text_eq_iff f.path path)

drop_others_lem :
    (x : Faults) (id : ℕ) (paths : List Text) (files files' : List File)
    → drop_others x id paths files ≡ ok files'
    → filter_by (stays id paths) files ≡ files'
drop_others_lem x id paths files files' h = ground arith

-- When upsertSkillFiles succeeds: for the skill, the table has under each path the content that the
-- bundle has there, and no file where the bundle has none; the files of all other skills are as they
-- were.
pub upsert_skill_files_lem :
    (m : Meter) (x : Faults) (id : ℕ) (bundle : Bundle) (files files' : List File)
    → upsert_skill_files m x id bundle files ≡ ok files'
    → (id' : ℕ) (path : Text)
    → find_file id' path files'
      ≡ (if id == id' then made m id path (content_at path bundle) else find_file id' path files)
unfolding upsert_skill_files
upsert_skill_files_lem m x id bundle files files' h id' path =
    elim (Result-cases (put_files m x id bundle files)) [
      | inr failed ↦ let h' = rw failed.1 at h in absurd (cc)
      | inl put ↦
          let stored : List File = put.0 in
          let kept : filter_by (stays id (paths_of bundle)) stored ≡ files' =
            drop_others_lem x id (paths_of bundle) stored files' (rw put.1 at h) in
          let before = put_files_lem m x id bundle files stored put.1 id' path in
          let after = find_file-filter id id' path (paths_of bundle) stored in
          ground (arith, kept, before, after, contains-paths_of path bundle)
    ]
