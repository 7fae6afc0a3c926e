-- ===== src/Imports/Worker.antt =====
-- pkg/services/stores/import_worker.go: the worker that takes the import tasks one after another,
-- over any store with the three operations of its interface, and that store: ClaimImportTask and
-- RecoverImportTasks of pkg/services/stores/corpus_x.go with ProcessImportTask. `alive n` says
-- whether the context is live at the n-th turn of the loop, `waits n` whether a pause there ends
-- by the timer.
pub mod Drains
use morign.Base.{
  ℕ, zero, suc, ◌+◌, Bool, true, false, ◌&&◌, ◌||◌, Option, none, some, List, [], ◌∷◌, Text, map,
  if◌then◌else◌, Result, ok, err, ltb, ◌==◌, length, filter_by,
}
use morign.Tools.{Folding}
use morign.Imports.{
  ImportTaskStatus, pending, processing, succeeded, failed, DocumentBasic, Database, Finished,
  process_import_task,
}

-- ImportTask
pub record ImportTask : Type 0 where
  pub id : ℕ
  pub created : ℕ
  pub status : ImportTaskStatus
  pub csv_data : Text

-- ErrNotFound, and any other error of the database.
pub data ClaimError : Type 0 where
  not_found : ClaimError
  database : Text → ClaimError

-- ImportTaskProcessor
pub record ImportTaskProcessor (S : Type 0) : Type 0 where
  pub recover_import_tasks : S → S × Result Text ℕ
  pub claim_import_task : S → S × Result ClaimError ImportTask
  pub process : S → ImportTask → S × Option Text

module _ {S : Type 0} (sto : ImportTaskProcessor S) (alive waits : ℕ → Bool) where
  -- What follows the claim of the n-th turn; `later` is the loop after it.
  unfoldable pub after_claim : ℕ → S × Result ClaimError ImportTask → (S → S) → S
  after_claim n (s, err e) later = if waits n then later s else s
  after_claim n (s, ok task) later = later (sto.process s task).0

  -- The loop of Run, for at most `fuel` turns from the n-th on.
  unfoldable pub loop : ℕ → ℕ → S → S
  unfolding after_claim
  loop zero n s = s
  loop (suc fuel) n s =
      let next = after_claim n (sto.claim_import_task s) (loop fuel (n + 1)) in
      if alive n then next else s

  -- Run
  unfoldable pub run : ℕ → S → S
  unfolding loop
  run fuel s = loop fuel 0 (sto.recover_import_tasks s).0

-- The tables that the tasks read and write.
pub record Queue : Type 0 where
  pub tasks : List ImportTask
  pub docs : List DocumentBasic

-- What is outside: the folding of letters, the database of the documents, what the CSV reader reads
-- of a text, and which calls on the tasks fail.
pub record Outside : Type 0 where
  pub folding : Folding
  pub db : Database
  pub read : Text → List (Result Text (ℕ × List Text))
  pub recover_fails : Option Text
  pub claim_fails : Option Text
  pub update_fails : Option Text

abbrev pub is_pending : ImportTaskStatus → Bool
is_pending pending = true
is_pending processing = false
is_pending succeeded = false
is_pending failed = false

-- `ORDER BY created, id`
abbrev pub before : ImportTask → ImportTask → Bool
before a b = ltb a.created b.created || (a.created == b.created && ltb a.id b.id)

abbrev pub earlier : ImportTask → Option ImportTask → ImportTask
earlier t none = t
earlier t (some o) = if before o t then o else t

unfoldable pub oldest : List ImportTask → Option ImportTask
oldest [] = none
oldest (t ∷ ts) =
    let rest = oldest ts in if is_pending t.status then some (earlier t rest) else rest

abbrev pub with_status : ℕ → ImportTaskStatus → ImportTask → ImportTask
with_status id st t = if t.id == id then record t { status = st } else t

abbrev pub set_status : ℕ → ImportTaskStatus → List ImportTask → List ImportTask
set_status id st ts = map (with_status id st) ts

-- ClaimImportTask, when the statement does not fail.
unfoldable pub claim_from : Queue → Option ImportTask → Queue × Result ClaimError ImportTask
claim_from q none = (q, err not_found)
claim_from q (some t) =
    (record q { tasks = set_status t.id processing q.tasks }, ok (record t { status = processing }))

-- ClaimImportTask
unfoldable pub claim_import_task : Option Text → Queue → Queue × Result ClaimError ImportTask
unfolding claim_from oldest
claim_import_task (some e) q = (q, err (database e))
claim_import_task none q = claim_from q (oldest q.tasks)

-- finishImportTask: the status of a task, and the documents, which are there in any case.
unfoldable pub finish_import_task : Option Text → Queue → ℕ → Finished → Queue × Option Text
finish_import_task (some e) q id f = (record q { docs = f.tally.docs }, some e)
finish_import_task none q id f =
    (record { tasks = set_status id f.status q.tasks; docs = f.tally.docs }, none)

abbrev pub process_task : Outside → Queue → ImportTask → Queue × Option Text
process_task x q t =
    finish_import_task x.update_fails q t.id
      (process_import_task x.folding x.db q.docs (x.read t.csv_data))

abbrev pub unclaimed_status : ImportTaskStatus → ImportTaskStatus
unclaimed_status pending = pending
unclaimed_status processing = pending
unclaimed_status succeeded = succeeded
unclaimed_status failed = failed

abbrev pub unclaimed : ImportTask → ImportTask
unclaimed t = record t { status = unclaimed_status t.status }

abbrev pub is_processing : ImportTask → Bool
is_processing t = elim t.status [
  | pending ↦ false
  | processing ↦ true
  | succeeded ↦ false
  | failed ↦ false
]

-- RecoverImportTasks
unfoldable pub recover_import_tasks : Option Text → Queue → Queue × Result Text ℕ
recover_import_tasks (some e) q = (q, err e)
recover_import_tasks none q =
    (record q { tasks = map unclaimed q.tasks }, ok (length (filter_by is_processing q.tasks)))

-- The store of the worker.
unfoldable pub import_store : Outside → ImportTaskProcessor Queue
unfolding recover_import_tasks claim_import_task finish_import_task
import_store x = record {
  recover_import_tasks = recover_import_tasks x.recover_fails;
  claim_import_task = claim_import_task x.claim_fails;
  process = process_task x;
}
