-- ===== src/Imports/Counts.antt =====
-- The counters of an import task add up, and its list of failures is bounded.
use morign.Base.{
  ap, Option-cases, leb→le, ℕ, ◌+◌, ◌≤◌, ◌<◌, ◌∙◌, ◌≡◌, refl, false, List, [], ◌∷◌, Text, All,
  All-append, length, arith, Result, ok, err, length-append, length-take, min, leb, ltb, take,
  Bool-cases, inl, inr, if◌then◌else◌,
}
use morign.Tools.{Folding}
use morign.Imports.{
  count_created, count_skipped, count_failed, ImportFailure, Database, Tally, start,
  append_import_error, has_doc, DocumentBasic, create_document, import_doc, import_row,
  process_rows, process_import_task, valid_import_row, valid_head,
}

-- Every record is counted once, each failure or skip leaves at most one entry, there are at most 500
-- entries, and no reason is longer than 200 characters. Each created record has left a document, and
-- so may a failed one.
pub record IsCounted (before : List DocumentBasic) (t : Tally) : Type 0 where
  pub adds_up : t.total ≡ t.success + (t.failed + t.skipped)
  pub explained : length t.errs ≡ min 500 (t.failed + t.skipped)
  pub short : All (λ f. length f.reason ≤ 200) t.errs
  pub kept : length before + t.success ≤ length t.docs
  pub bounded : length t.docs ≤ length before + (t.success + t.failed)

not_ltb : (a b : ℕ) → ltb a b ≡ false → b ≤ a
not_ltb a b e = ground arith

not_leb : (a b : ℕ) → leb a b ≡ false → b < a
not_leb a b e = ground arith

cut_short : (r : Text) → length (if ltb 200 (length r) then take 200 r else r) ≤ 200
cut_short r = elim (Bool-cases (ltb 200 (length r))) [
  | inl long ↦ rw long (omega (arith, length-take 200 r))
  | inr fits ↦ rw fits (not_ltb 200 (length r) fits)
]

append_short :
    (errs : List ImportFailure) (f : ImportFailure)
    → All (λ g. length g.reason ≤ 200) errs
    → All (λ g. length g.reason ≤ 200) (append_import_error errs f)
unfolding append_import_error
append_short errs f h = elim (Bool-cases (leb 500 (length errs))) [
  | inl full ↦ rw (append_import_error, full) h
  | inr room ↦ rw (append_import_error, room) (All-append _ errs _ h (cut_short f.reason, tt))
]

length-append_import_error :
    (errs : List ImportFailure) (f : ImportFailure) (n : ℕ)
    → length errs ≡ min 500 n
    → length (append_import_error errs f) ≡ min 500 (n + 1)
unfolding append_import_error
length-append_import_error errs f n e = elim (Bool-cases (leb 500 (length errs))) [
  | inl full ↦
      let le = leb→le 500 (length errs) full in rw (append_import_error, full) (omega arith)
  | inr room ↦
      let lt = not_leb 500 (length errs) room in
      rw (append_import_error, room, length-append) (omega arith)
]

module _ (before : List DocumentBasic) (t : Tally) (line : ℕ) (title reason : Text)
    (h : IsCounted before t) where
  failed-IsCounted : IsCounted before (count_failed t line title reason)
  failed-IsCounted = record {
    adds_up = omega (arith, h.adds_up);
    explained =
        length-append_import_error t.errs _ (t.failed + t.skipped) h.explained
        ∙ ap (min 500) (omega arith);
    short = append_short t.errs _ h.short;
    kept = h.kept;
    bounded = omega (arith, h.bounded);
  }

  -- The document whose vector failed.
  left-IsCounted :
      (d : DocumentBasic)
      → IsCounted before (count_failed (record t { docs = d ∷ t.docs }) line title reason)
  left-IsCounted d = record {
    adds_up = omega (arith, h.adds_up);
    explained =
        length-append_import_error t.errs _ (t.failed + t.skipped) h.explained
        ∙ ap (min 500) (omega arith);
    short = append_short t.errs _ h.short;
    kept = omega (arith, h.kept);
    bounded = omega (arith, h.bounded);
  }

  skipped-IsCounted : IsCounted before (count_skipped t line title reason)
  skipped-IsCounted = record {
    adds_up = omega (arith, h.adds_up);
    explained =
        length-append_import_error t.errs _ (t.failed + t.skipped) h.explained
        ∙ ap (min 500) (omega arith);
    short = append_short t.errs _ h.short;
    kept = h.kept;
    bounded = h.bounded;
  }

created-IsCounted :
    (before : List DocumentBasic) (t : Tally) (d : DocumentBasic)
    → IsCounted before t
    → IsCounted before (count_created t d)
created-IsCounted before t d h = record {
  adds_up = omega (arith, h.adds_up);
  explained = h.explained;
  short = h.short;
  kept = omega (arith, h.kept);
  bounded = omega (arith, h.bounded);
}

create_document-IsCounted :
    (db : Database) (before : List DocumentBasic) (t : Tally) (line : ℕ) (d : DocumentBasic)
    → IsCounted before t
    → IsCounted before (create_document db t line d)
unfolding create_document
create_document-IsCounted db before t line d h = elim (Option-cases (db.create_fails line)) [
  | inr (e, fails) ↦ rw (create_document, fails) (failed-IsCounted before t line d.title e h)
  | inl writes ↦ elim (Option-cases (db.vector_fails line)) [
    | inr (e, fails) ↦
        rw (create_document, writes, fails) (left-IsCounted before t line d.title e h d)
    | inl made ↦ rw (create_document, writes, made) (created-IsCounted before t d h)
  ]
]

import_doc-IsCounted :
    (db : Database) (before : List DocumentBasic) (t : Tally) (line : ℕ) (d : DocumentBasic)
    → IsCounted before t
    → IsCounted before (import_doc db t line d)
unfolding import_doc
import_doc-IsCounted db before t line d h = elim (Option-cases (db.get_fails line)) [
  | inr (e, fails) ↦ rw (import_doc, fails) (failed-IsCounted before t line d.title e h)
  | inl reads ↦ elim (Bool-cases (has_doc d t.docs)) [
    | inl there ↦ rw (import_doc, reads, there) (skipped-IsCounted before t line d.title _ h)
    | inr new ↦ rw (import_doc, reads, new) (create_document-IsCounted db before t line d h)
  ]
]

import_row-IsCounted :
    (db : Database) (before : List DocumentBasic) (t : Tally) (line : ℕ) (row : List Text)
    → IsCounted before t
    → IsCounted before (import_row db t line row)
unfolding import_row
import_row-IsCounted db before t line row h = elim (Option-cases (valid_import_row row)) [
  | inl bad ↦ rw (import_row, bad) (failed-IsCounted before t line _ _ h)
  | inr (d, good) ↦ rw (import_row, good) (import_doc-IsCounted db before t line d h)
]

process_rows-IsCounted :
    (db : Database) (before : List DocumentBasic) (t : Tally)
    (rows : List (Result Text (ℕ × List Text)))
    → IsCounted before t
    → IsCounted before (process_rows db t rows).tally
unfolding process_rows
process_rows-IsCounted db before t [] h = h
process_rows-IsCounted db before t (err e ∷ rest) h = h
process_rows-IsCounted db before t (ok (line, row) ∷ rest) h =
    process_rows-IsCounted db before (import_row db t line row) rest
      (import_row-IsCounted db before t line row h)

start-IsCounted : (docs : List DocumentBasic) → IsCounted docs (start docs)
start-IsCounted docs = record {
  adds_up = refl;
  explained = refl;
  short = tt;
  kept = omega arith;
  bounded = omega arith;
}

-- However an import task ends: the total is the created, failed and skipped records together, the
-- failures and skips are listed up to 500 of them with reasons of at most 200 characters, and the
-- documents grew by at least the number of created records, and by at most that of the created and
-- the failed ones.
pub process_import_task-IsCounted :
    (u : Folding) (db : Database) (docs : List DocumentBasic)
    (records : List (Result Text (ℕ × List Text)))
    → IsCounted docs (process_import_task u db docs records).tally
unfolding process_import_task
process_import_task-IsCounted u db docs [] = start-IsCounted docs
process_import_task-IsCounted u db docs (err e ∷ rest) = start-IsCounted docs
process_import_task-IsCounted u db docs (ok (line, head) ∷ rest) =
    elim (Bool-cases (valid_head u head)) [
      | inl good ↦
          rw (process_import_task, good)
            (process_rows-IsCounted db docs (start docs) rest (start-IsCounted docs))
      | inr bad ↦ rw (process_import_task, bad) (start-IsCounted docs)
    ]
