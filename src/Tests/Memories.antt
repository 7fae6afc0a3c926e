-- ===== src/Tests/Memories.antt =====
-- Concrete runs of the memories and of the import worker: pkg/services/stores.
use morign.Base.{
  zero, suc, take, ℕ, ◌≡◌, refl, true, false, none, some, List, [], ◌∷◌, codes, text_eq, All, arith,
}
use morign.Memory.{
  Query, Faults, Context, restricted_to_owner, owner_id_from_context, owner_allowed, Memory, Faults,
  ConvoMemorySpec, list_memory, delete_memory,
}
use morign.Memory.Scope.{IsOwnedBy, list_memory-own, rows_of, delete_memory-others}
use morign.Tools.{Folding}
use morign.Imports.{ImportTaskStatus, pending, processing}
use morign.Imports.Worker.{ImportTask, run, Queue, Outside, import_store}
use morign.Imports.Worker.Drains.{unfinished, run-unfinished}

abbrev guest : Context
guest = record { user = some (record { oid = some 1; keeper = false }) }

abbrev memory : ℕ → ℕ → Memory
memory id owner = record {
  id = id;
  owner_id = owner;
  key = codes "k";
  cate = codes "custom";
  content = codes "c";
  tier = codes "working";
  access_count = 0;
}

abbrev memories : List Memory
memories = memory 4 1 ∷ memory 5 2 ∷ []

abbrev any_spec : ConvoMemorySpec
any_spec = record { owner_id = some 2; is_owner = false; key = []; cate = []; tier = []; limit = 0 }

abbrev query : Query
query = record { match = λ wanted t. text_eq wanted t; page = λ n ms. take n ms }

take_keeps : (P : Memory → Type 0) (n : ℕ) (ms : List Memory) → All P ms → All P (take n ms)
take_keeps P zero ms h = tt
take_keeps P (suc n) [] h = tt
take_keeps P (suc n) (m ∷ ms) h = (h.0, take_keeps P n ms h.1)

list_memory-own_example :
    All (IsOwnedBy (owner_id_from_context guest)) (list_memory query guest any_spec memories)
unfolding restricted_to_owner
list_memory-own_example =
    list_memory-own query guest any_spec memories (λ P n ms h. take_keeps P n ms h) refl

abbrev memory_faults : Faults
memory_faults = record { get = none; create = none; embed = none; update = none; delete = none }

delete_memory-others_example :
    rows_of 2 (delete_memory memory_faults guest (record { rows = memories; next_id = 6 }) 5).0.rows
    ≡ memory 5 2 ∷ []
unfolding owner_allowed restricted_to_owner owner_id_from_context
delete_memory-others_example =
    delete_memory-others memory_faults guest (record { rows = memories; next_id = 6 }) 5 2 refl

abbrev task : ℕ → ImportTaskStatus → ImportTask
task id st = record { id = id; created = 1; status = st; csv_data = [] }

abbrev ascii : Folding
ascii = record { lower_beyond = λ c. c; fold_beyond = λ c d. false }

abbrev queue : Queue
queue = record { tasks = task 1 processing ∷ task 2 pending ∷ []; docs = [] }

abbrev reliable : Outside
reliable = record {
  folding = ascii;
  db = record {
    get_fails = λ line. none;
    create_fails = λ line. none;
    vector_fails = λ line. none;
  };
  read = λ t. [];
  recover_fails = none;
  claim_fails = none;
  update_fails = none;
}

run-unfinished_example :
    unfinished (run (import_store reliable) (λ n. true) (λ n. true) 2 queue).tasks ≡ 0
run-unfinished_example =
    run-unfinished reliable (λ n. true) (λ n. true) 2 queue refl refl refl (λ n. refl) (omega arith)
