-- ===== src/Imports/Again.antt =====
-- Importing the same records again: the import tasks of pkg/services/stores/corpus_x.go.
use morign.Base.{
  none, ℕ, ◌≡◌, refl, sym, ◌∙◌, Bool, true, false, ◌||◌, some, List, [], ◌∷◌, Text, text_eq_refl,
  Result, ok, err, Bool-cases, Option-cases, inl, inr,
}
use mathlib.Core.Path.{subst}
use morign.Imports.{
  Database, DocumentBasic, no_faults, Tally, start, has_doc, create_document, import_doc,
  import_row, valid_import_row, process_rows,
}

-- Each valid record read so far has its document.
abbrev IsStored : List DocumentBasic → List (Result Text (ℕ × List Text)) → Type 0
IsStored docs [] = Unit
IsStored docs (err e ∷ rest) = Unit
IsStored docs (ok (line, row) ∷ rest) =
    ((d : DocumentBasic) → valid_import_row row ≡ some d → has_doc d docs ≡ true)
    × IsStored docs rest

-- The documents of the second list include those of the first.
abbrev Keeps : List DocumentBasic → List DocumentBasic → Type 0
Keeps docs docs' = (d : DocumentBasic) → has_doc d docs ≡ true → has_doc d docs' ≡ true

or_true : (b : Bool) → b || true ≡ true
or_true true = refl
or_true false = refl

-- No lookup and no insertion of a document fails; the vectors may.
pub record IsStoring (db : Database) : Type 0 where
  pub gets : (line : ℕ) → db.get_fails line ≡ none
  pub creates : (line : ℕ) → db.create_fails line ≡ none

create_document-docs :
    (db : Database) (t : Tally) (line : ℕ) (d : DocumentBasic)
    → IsStoring db
    → (create_document db t line d).docs ≡ d ∷ t.docs
unfolding create_document
create_document-docs db t line d w = elim (Option-cases (db.vector_fails line)) [
  | inl made ↦ rw (create_document, w.creates line, made) refl
  | inr (e, fails) ↦ rw (create_document, w.creates line, fails) refl
]

import_doc-Keeps :
    (db : Database) (t : Tally) (line : ℕ) (d : DocumentBasic)
    → IsStoring db
    → Keeps t.docs (import_doc db t line d).docs × (has_doc d (import_doc db t line d).docs ≡ true)
unfolding import_doc has_doc
import_doc-Keeps db t line d w = elim (Bool-cases (has_doc d t.docs)) [
  | inl there ↦ rw (import_doc, w.gets line, there) (λ e h. h, there)
  | inr new ↦
      rw (import_doc, w.gets line, new, create_document-docs db t line d w)
        (
          λ e h. rw (has_doc, h) (or_true _),
          rw (has_doc, text_eq_refl d.title, text_eq_refl d.heading) refl,
        )
]

import_row-Keeps :
    (db : Database) (t : Tally) (line : ℕ) (row : List Text)
    → IsStoring db
    → Keeps t.docs (import_row db t line row).docs
      × ((d : DocumentBasic)
          → valid_import_row row ≡ some d
          → has_doc d (import_row db t line row).docs ≡ true)
unfolding import_row
import_row-Keeps db t line row w = elim (Option-cases (valid_import_row row)) [
  | inl bad ↦ rw (import_row, bad) (λ d h. h, λ d e. cc)
  | inr (d, good) ↦
      rw (import_row, good)
        (
          (import_doc-Keeps db t line d w).0,
          λ e same.
              let eq : d ≡ e = cc in
              subst (λ (x : DocumentBasic). has_doc x (import_doc db t line d).docs ≡ true) eq
                (import_doc-Keeps db t line d w).1,
        )
]

process_rows-Keeps :
    (db : Database) (t : Tally) (rows : List (Result Text (ℕ × List Text)))
    → IsStoring db
    → Keeps t.docs (process_rows db t rows).tally.docs
      × IsStored (process_rows db t rows).tally.docs rows
unfolding process_rows
process_rows-Keeps db t [] w = (λ d h. h, tt)
process_rows-Keeps db t (err e ∷ rest) w = (λ d h. h, tt)
process_rows-Keeps db t (ok (line, row) ∷ rest) w =
    let t' = import_row db t line row in
    let (keeps, stored) = process_rows-Keeps db t' rest w in
    let (here, has) = import_row-Keeps db t line row w in
    (λ d h. keeps d (here d h), (λ d e. keeps d (has d e), stored))

stored_row :
    (t : Tally) (line : ℕ) (row : List Text)
    → ((d : DocumentBasic) → valid_import_row row ≡ some d → has_doc d t.docs ≡ true)
    → ((import_row no_faults t line row).docs ≡ t.docs)
      × ((import_row no_faults t line row).success ≡ t.success)
unfolding import_row import_doc
stored_row t line row h = elim (Option-cases (valid_import_row row)) [
  | inl bad ↦ rw (import_row, bad) (refl, refl)
  | inr (d, good) ↦ rw (import_row, good, import_doc, h d good) (refl, refl)
]

stored_rows :
    (t : Tally) (rows : List (Result Text (ℕ × List Text)))
    → IsStored t.docs rows
    → ((process_rows no_faults t rows).tally.docs ≡ t.docs)
      × ((process_rows no_faults t rows).tally.success ≡ t.success)
unfolding process_rows
stored_rows t [] h = (refl, refl)
stored_rows t (err e ∷ rest) h = (refl, refl)
stored_rows t (ok (line, row) ∷ rest) h =
    let t' = import_row no_faults t line row in
    let (same, count) = stored_row t line row h.0 in
    let (docs, success) =
      stored_rows t' rest (subst (λ (ds : List DocumentBasic). IsStored ds rest) (sym same) h.1) in
    (docs ∙ same, success ∙ count)

-- The documents after an import.
abbrev pub imported :
    Database → List DocumentBasic → List (Result Text (ℕ × List Text)) → List DocumentBasic
imported db docs rows = (process_rows db (start docs) rows).tally.docs

-- When no lookup and no insertion fails in a first import, and no database call and no vector in a
-- second one of the same records: the second creates no document and leaves the table as the first
-- left it, also for the records that failed in the first since their vectors could not be made.
pub process_rows_again :
    (db : Database) (docs : List DocumentBasic) (rows : List (Result Text (ℕ × List Text)))
    → IsStoring db
    → (imported no_faults (imported db docs rows) rows ≡ imported db docs rows)
      × ((process_rows no_faults (start (imported db docs rows)) rows).tally.success ≡ 0)
process_rows_again db docs rows w =
    stored_rows (start (imported db docs rows)) rows (process_rows-Keeps db (start docs) rows w).1
