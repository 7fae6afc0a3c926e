-- ===== src/Imports.antt =====
-- pkg/services/stores/corpus_x.go: the import of documents from CSV as tasks. The CSV reader is
-- given by what it reads: records with their lines, or an error. `Database` says which calls fail
-- for the record of a line, and with what text.
pub mod Counts
pub mod Again
pub mod Worker
use morign.Base.{
  ℕ, ◌+◌, Bool, true, false, not, ◌&&◌, ◌||◌, Option, none, some, List, [], ◌∷◌, ◌++◌, Text, codes,
  map, is_empty, if◌then◌else◌, text_eq, Result, ok, err, length, take, leb, ltb, ◌==◌,
}
use morign.Tools.{Folding, to_lower}

-- ImportTaskStatus
pub data ImportTaskStatus : Type 0 where
  pending processing succeeded failed : ImportTaskStatus

-- ImportFailureKind
pub data ImportFailureKind : Type 0 where
  kind_failed kind_skipped : ImportFailureKind

-- ImportFailure
pub record ImportFailure : Type 0 where
  pub line : ℕ
  pub title : Text
  pub reason : Text
  pub kind : ImportFailureKind

-- DocumentBasic
pub record DocumentBasic : Type 0 where
  pub title : Text
  pub heading : Text
  pub content : Text

pub record Database : Type 0 where
  pub get_fails : ℕ → Option Text
  pub create_fails : ℕ → Option Text
  pub vector_fails : ℕ → Option Text

abbrev pub no_faults : Database
no_faults = record {
  get_fails = λ line. none;
  create_fails = λ line. none;
  vector_fails = λ line. none;
}

-- maxImportErrors, maxImportReasonLen
abbrev pub max_import_errors : ℕ
max_import_errors = 500

abbrev pub max_import_reason_len : ℕ
max_import_reason_len = 200

-- qaHeads
abbrev pub qa_heads : List Text
qa_heads = codes "title" ∷ codes "heading" ∷ codes "content" ∷ []

abbrev pub heads_match : Folding → List Text → List Text → Bool
heads_match u [] cells = true
heads_match u (h ∷ hs) [] = false
heads_match u (h ∷ hs) (c ∷ cells) = text_eq (to_lower u c) h && heads_match u hs cells

-- ValidHead
unfoldable pub valid_head : Folding → List Text → Bool
valid_head u cells = not (ltb (length cells) (length qa_heads)) && heads_match u qa_heads cells

-- replText.Replace
unfoldable pub repl_text : Text → Text
repl_text s = map (λ c. if c == 0x2028 then 10 else c) s

-- validImportRow, and the document of a valid record.
unfoldable pub valid_import_row : List Text → Option DocumentBasic
valid_import_row (t ∷ (h ∷ (c ∷ cells))) =
    if is_empty t || (is_empty h || is_empty c)
    then none
    else some (record { title = t; heading = h; content = repl_text c })
valid_import_row _ = none

-- importRowTitle
abbrev pub import_row_title : List Text → Text
import_row_title [] = []
import_row_title (t ∷ cells) = t

-- appendImportError
unfoldable pub append_import_error : List ImportFailure → ImportFailure → List ImportFailure
append_import_error errs f =
    let f' : ImportFailure = record f {
      reason =
          if ltb max_import_reason_len (length f.reason)
          then take max_import_reason_len f.reason
          else f.reason;
    } in
    if leb max_import_errors (length errs) then errs else errs ++ (f' ∷ [])

-- The counters and the failures of a task, and the documents of the table.
pub record Tally : Type 0 where
  pub total : ℕ
  pub success : ℕ
  pub failed : ℕ
  pub skipped : ℕ
  pub errs : List ImportFailure
  pub docs : List DocumentBasic

abbrev pub start : List DocumentBasic → Tally
start docs = record { total = 0; success = 0; failed = 0; skipped = 0; errs = []; docs = docs }

abbrev pub count_failed : Tally → ℕ → Text → Text → Tally
count_failed t line title reason = record t {
  total = t.total + 1;
  failed = t.failed + 1;
  errs =
      append_import_error t.errs
        (record { line = line; title = title; reason = reason; kind = kind_failed });
}

abbrev pub count_skipped : Tally → ℕ → Text → Text → Tally
count_skipped t line title reason = record t {
  total = t.total + 1;
  skipped = t.skipped + 1;
  errs =
      append_import_error t.errs
        (record { line = line; title = title; reason = reason; kind = kind_skipped });
}

abbrev pub count_created : Tally → DocumentBasic → Tally
count_created t d = record t { total = t.total + 1; success = t.success + 1; docs = d ∷ t.docs }

-- `title = ? AND heading = ?`
unfoldable pub has_doc : DocumentBasic → List DocumentBasic → Bool
has_doc d [] = false
has_doc d (e ∷ es) = (text_eq e.title d.title && text_eq e.heading d.heading) || has_doc d es

-- CreateDocument: the row is inserted, and then its vector made; a row without a vector stays.
unfoldable pub create_document : Database → Tally → ℕ → DocumentBasic → Tally
create_document db t line d = elim (db.create_fails line) [
  | some e ↦ count_failed t line d.title e
  | none ↦ elim (db.vector_fails line) [
    | some e ↦ count_failed (record t { docs = d ∷ t.docs }) line d.title e
    | none ↦ count_created t d
  ]
]

-- A valid record: looked up, then skipped or created.
unfoldable pub import_doc : Database → Tally → ℕ → DocumentBasic → Tally
unfolding create_document
import_doc db t line d = elim (db.get_fails line) [
  | some e ↦ count_failed t line d.title e
  | none ↦
      if has_doc d t.docs
      then count_skipped t line d.title (codes "重复文档: title+heading 已存在，跳过")
      else create_document db t line d
]

-- One turn of the loop of ProcessImportTask.
unfoldable pub import_row : Database → Tally → ℕ → List Text → Tally
unfolding import_doc valid_import_row
import_row db t line row = elim (valid_import_row row) [
  | none ↦ count_failed t line (import_row_title row) (codes "数据无效")
  | some d ↦ import_doc db t line d
]

-- What finishImportTask writes.
pub record Finished : Type 0 where
  pub status : ImportTaskStatus
  pub tally : Tally

-- The loop: an error of the reader ends the task as failed, with the counts so far.
unfoldable pub process_rows : Database → Tally → List (Result Text (ℕ × List Text)) → Finished
unfolding import_row
process_rows db t [] = record { status = succeeded; tally = t }
process_rows db t (err e ∷ rest) = record { status = failed; tally = t }
process_rows db t (ok (line, row) ∷ rest) = process_rows db (import_row db t line row) rest

-- ProcessImportTask: an empty file succeeds, a bad head fails.
unfoldable pub process_import_task :
    Folding → Database → List DocumentBasic → List (Result Text (ℕ × List Text)) → Finished
unfolding process_rows valid_head
process_import_task u db docs [] = record { status = succeeded; tally = start docs }
process_import_task u db docs (err e ∷ rest) = record { status = failed; tally = start docs }
process_import_task u db docs (ok (line, head) ∷ rest) =
    if valid_head u head
    then process_rows db (start docs) rest
    else record { status = failed; tally = start docs }
