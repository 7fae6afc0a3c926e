-- ===== src/Tests/Stores.antt =====
-- Concrete imports and histories: pkg/services/stores and pkg/models/aigc.
use morign.Base.{ℕ, ◌≡◌, refl, false, some, List, [], ◌∷◌, Text, codes, Result, ok}
use morign.Tools.{Folding}
use morign.Imports.{Database, DocumentBasic, no_faults, start, process_rows, process_import_task}
use morign.Imports.Again.{imported, process_rows_again}
use morign.Imports.Counts.{IsCounted, process_import_task-IsCounted}
use morign.History.{HistoryItem, Faults}

abbrev ascii : Folding
ascii = record { lower_beyond = λ c. c; fold_beyond = λ c d. false }

abbrev csv : List (Result Text (ℕ × List Text))
csv =
    ok (1, codes "Title" ∷ (codes "heading" ∷ (codes "content" ∷ [])))
    ∷ (ok (2, codes "a" ∷ (codes "b" ∷ (codes "c" ∷ []))) ∷ (ok (3, codes "a" ∷ []) ∷ []))

-- No vector can be made.
abbrev no_vectors : Database
no_vectors = record no_faults { vector_fails = λ line. some (codes "no model") }

process_import_task-IsCounted_example :
    IsCounted [] (process_import_task ascii no_vectors [] csv).tally
process_import_task-IsCounted_example = process_import_task-IsCounted ascii no_vectors [] csv

abbrev records : List (Result Text (ℕ × List Text))
records = ok (2, codes "a" ∷ (codes "b" ∷ (codes "c" ∷ []))) ∷ []

abbrev nothing : List DocumentBasic
nothing = []

process_rows_again_example :
    (imported no_faults (imported no_vectors nothing records) records
      ≡ imported no_vectors nothing records)
    × ((process_rows no_faults (start (imported no_vectors nothing records)) records).tally.success
        ≡ 0)
process_rows_again_example =
    process_rows_again no_vectors nothing records
      (record { gets = λ line. refl; creates = λ line. refl })

abbrev chat : Text → HistoryItem
chat t = record {
  time = 1;
  uid = [];
  chat_item = some (record { user = t; assistant = codes "x"; think = [] });
}

abbrev redis_works : Faults
redis_works = record {
  index_fails = false;
  rpop_fails = false;
  marshal_fails = false;
  rpush_fails = false;
  expire_fails = false;
  lpop_fails = false;
}

abbrev talk : List HistoryItem
talk = chat (codes "p") ∷ (chat (codes "q") ∷ [])
