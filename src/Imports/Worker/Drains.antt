-- ===== src/Imports/Worker/Drains.antt =====
-- The worker gets through its tasks.
use morign.Base.{
  ◌≡◌, ◌≢◌, refl, sym, ap, ◌∙◌, ℕ, zero, suc, ◌+◌, ◌≤◌, ◌<◌, Bool, true, false, ◌&&◌, ◌||◌, Option,
  none, some, List, [], ◌∷◌, Text, map, Result, ok, err, ◌==◌, any_by, inl, inr, Bool-cases,
  Option-cases, arith,
}
use mathlib.Core.Path.{subst}
use morign.Tools.{Folding}
use morign.Imports.{
  ImportTaskStatus, pending, processing, succeeded, failed, DocumentBasic, Database, Tally,
  import_row, process_rows, process_import_task, valid_head,
}
use morign.Imports.Worker.{
  ImportTask, after_claim, loop, run, Queue, Outside, is_pending, before, earlier, oldest,
  set_status, claim_from, claim_import_task, finish_import_task, process_task, unclaimed_status,
  unclaimed, recover_import_tasks, import_store,
}

-- Is a task of this status still to be done?
abbrev is_unfinished : ImportTaskStatus → Bool
is_unfinished pending = true
is_unfinished processing = true
is_unfinished succeeded = false
is_unfinished failed = false

abbrev count_one : Bool → ℕ → ℕ
count_one true n = suc n
count_one false n = n

-- How many tasks are still to be done.
abbrev pub unfinished : List ImportTask → ℕ
unfinished [] = 0
unfinished (t ∷ ts) = count_one (is_unfinished t.status) (unfinished ts)

-- No task is being processed.
abbrev Idle : List ImportTask → Type 0
Idle [] = Unit
Idle (t ∷ ts) = (t.status ≢ processing) × Idle ts

abbrev waiting_at : ℕ → ImportTask → Bool
waiting_at id t = is_pending t.status && t.id == id

abbrev is_waiting : ℕ → List ImportTask → Bool
is_waiting id ts = any_by (waiting_at id) ts

eq_self : (n : ℕ) → (n == n) ≡ true
eq_self n = ground arith

or_true : (b : Bool) → (b || true) ≡ true
or_true true = refl
or_true false = refl

abbrev value_or : ImportTask → Option ImportTask → ImportTask
value_or t none = t
value_or t (some o) = o

earlier-is_waiting :
    (t : ImportTask) (rest : Option ImportTask) (ts : List ImportTask)
    → is_pending t.status ≡ true
    → ((o : ImportTask) → rest ≡ some o → is_waiting o.id ts ≡ true)
    → is_waiting (earlier t rest).id (t ∷ ts) ≡ true
earlier-is_waiting t none ts waits h = rw (waits, eq_self t.id) refl
earlier-is_waiting t (some o) ts waits h =
    let there = h o refl in
    elim (Bool-cases (before o t)) [
      | inl later ↦
          let same : earlier t (some o) ≡ o = rw (later) refl in
          let found : is_waiting o.id (t ∷ ts) ≡ true = rw (there) (or_true (waiting_at o.id t)) in
          subst (λ r. is_waiting r.id (t ∷ ts) ≡ true) (sym same) found
      | inr first ↦ rw (first, waits, eq_self t.id) refl
    ]

oldest-is_waiting :
    (ts : List ImportTask) (o : ImportTask) → oldest ts ≡ some o → is_waiting o.id ts ≡ true
unfolding oldest
oldest-is_waiting [] o e = cc
oldest-is_waiting (t ∷ ts) o e = elim (Bool-cases (is_pending t.status)) [
  | inl waits ↦
      let found = earlier-is_waiting t (oldest ts) ts waits (λ o' e'. oldest-is_waiting ts o' e') in
      let same : some (earlier t (oldest ts)) ≡ some o = sym (rw (oldest, waits) refl) ∙ e in
      subst (λ o'. is_waiting o'.id (t ∷ ts) ≡ true) (ap (value_or t) same) found
  | inr busy ↦
      let rest : oldest ts ≡ some o = sym (rw (oldest, busy) refl) ∙ e in
      rw (oldest-is_waiting ts o rest) (or_true (waiting_at o.id t))
]

not_unfinished :
    (st : ImportTaskStatus) → is_pending st ≡ false → st ≢ processing → is_unfinished st ≡ false
not_unfinished pending busy idle = cc
not_unfinished processing busy idle = absurd (idle refl)
not_unfinished succeeded busy idle = refl
not_unfinished failed busy idle = refl

none-some : (o : Option ImportTask) {t : ImportTask} → o ≡ none → ¬ (o ≡ some t)
none-some none e h = cc
none-some (some t) e h = cc

pending_unfinished : (st : ImportTaskStatus) → is_pending st ≡ true → is_unfinished st ≡ true
pending_unfinished pending e = refl
pending_unfinished processing e = refl
pending_unfinished succeeded e = cc
pending_unfinished failed e = cc

count_le : (b : Bool) (n m : ℕ) → n ≤ m → n ≤ count_one b m
count_le true n m h = omega arith
count_le false n m h = h

count_lt : (b : Bool) (n m : ℕ) → n < m → n < count_one b m
count_lt true n m h = omega arith
count_lt false n m h = h

and_false : (b : Bool) → (b && false) ≡ false
and_false true = refl
and_false false = refl

count_mono : (b : Bool) (n m : ℕ) → n ≤ m → count_one b n ≤ count_one b m
count_mono true n m h = omega arith
count_mono false n m h = h

count_strict : (b : Bool) (n m : ℕ) → n < m → count_one b n < count_one b m
count_strict true n m h = omega arith
count_strict false n m h = h

oldest-none : (ts : List ImportTask) → Idle ts → oldest ts ≡ none → unfinished ts ≡ 0
unfolding oldest
oldest-none [] idle e = refl
oldest-none (t ∷ ts) idle e = elim (Bool-cases (is_pending t.status)) [
  | inl waits ↦
      absurd (none-some (oldest (t ∷ ts)) {t = earlier t (oldest ts)} e (rw (oldest, waits) refl))
  | inr busy ↦
      let rest : oldest ts ≡ none = sym (rw (oldest, busy) refl) ∙ e in
      rw (not_unfinished t.status busy idle.0) (oldest-none ts idle.1 rest)
]

-- A task that is given a final status.
set_twice :
    (id : ℕ) (st st' : ImportTaskStatus) (ts : List ImportTask)
    → set_status id st (set_status id st' ts) ≡ set_status id st ts
set_twice id st st' [] = refl
set_twice id st st' (t ∷ ts) = elim (Bool-cases (t.id == id)) [
  | inl same ↦ rw (same, same) (ap (λ l. record t { status = st } ∷ l) (set_twice id st st' ts))
  | inr other ↦ rw (other, other) (ap (λ l. t ∷ l) (set_twice id st st' ts))
]

set-le-unfinished :
    (id : ℕ) (st : ImportTaskStatus) (ts : List ImportTask)
    → is_unfinished st ≡ false
    → unfinished (set_status id st ts) ≤ unfinished ts
set-le-unfinished id st [] final = omega arith
set-le-unfinished id st (t ∷ ts) final =
    let ih = set-le-unfinished id st ts final in
    elim (Bool-cases (t.id == id)) [
      | inl same ↦ rw (same, final) (count_le (is_unfinished t.status) _ _ ih)
      | inr other ↦ rw (other) (count_mono (is_unfinished t.status) _ _ ih)
    ]

set-lt-unfinished :
    (id : ℕ) (st : ImportTaskStatus) (ts : List ImportTask)
    → is_unfinished st ≡ false
    → is_waiting id ts ≡ true
    → unfinished (set_status id st ts) < unfinished ts
set-lt-unfinished id st [] final waits = cc
set-lt-unfinished id st (t ∷ ts) final waits = elim (Bool-cases (t.id == id)) [
  | inl same ↦ elim (Bool-cases (is_pending t.status)) [
    | inl first ↦
        let le = set-le-unfinished id st ts final in
        rw (same, final, pending_unfinished t.status first) (omega (arith, le))
    | inr busy ↦
        let rest : is_waiting id ts ≡ true = sym (rw (busy) refl) ∙ waits in
        let lt = set-lt-unfinished id st ts final rest in
        rw (same, final) (count_lt (is_unfinished t.status) _ _ lt)
  ]
  | inr other ↦
      let rest : is_waiting id ts ≡ true =
        sym (rw (other, and_false (is_pending t.status)) refl) ∙ waits in
      rw (other) (count_strict (is_unfinished t.status) _ _ (set-lt-unfinished id st ts final rest))
]

not_processing : (st : ImportTaskStatus) → is_unfinished st ≡ false → st ≢ processing
not_processing pending final = λ e. cc
not_processing processing final = λ e. cc
not_processing succeeded final = λ e. cc
not_processing failed final = λ e. cc

set-Idle :
    (id : ℕ) (st : ImportTaskStatus) (ts : List ImportTask)
    → is_unfinished st ≡ false
    → Idle ts
    → Idle (set_status id st ts)
set-Idle id st [] final idle = tt
set-Idle id st (t ∷ ts) final idle = elim (Bool-cases (t.id == id)) [
  | inl same ↦ rw (same) (not_processing st final, set-Idle id st ts final idle.1)
  | inr other ↦ rw (other) (idle.0, set-Idle id st ts final idle.1)
]

process_rows_final :
    (db : Database) (t : Tally) (rows : List (Result Text (ℕ × List Text)))
    → is_unfinished (process_rows db t rows).status ≡ false
unfolding process_rows
process_rows_final db t [] = refl
process_rows_final db t (err e ∷ rows) = refl
process_rows_final db t (ok (line, row) ∷ rows) =
    process_rows_final db (import_row db t line row) rows

process_import_task_final :
    (u : Folding) (db : Database) (docs : List DocumentBasic)
    (rows : List (Result Text (ℕ × List Text)))
    → is_unfinished (process_import_task u db docs rows).status ≡ false
unfolding process_import_task
process_import_task_final u db docs [] = refl
process_import_task_final u db docs (err e ∷ rows) = refl
process_import_task_final u db docs (ok (line, head) ∷ rows) =
    elim (Bool-cases (valid_head u head)) [
      | inl good ↦ rw (process_import_task, good) (process_rows_final db _ rows)
      | inr bad ↦ rw (process_import_task, bad) refl
    ]

module _ (x : Outside) (alive waits : ℕ → Bool) (claims : x.claim_fails ≡ none)
    (updates : x.update_fails ≡ none) (lives : (n : ℕ) → alive n ≡ true) where
  -- The queue after a task was taken and processed.
  after_task : Queue → ImportTask → Queue
  after_task q o =
      (process_task x (record q { tasks = set_status o.id processing q.tasks })
        (record o { status = processing })).0

  abbrev final_status : Queue → ImportTask → ImportTaskStatus
  final_status q o = (process_import_task x.folding x.db q.docs (x.read o.csv_data)).status

  after_task-tasks :
      (q : Queue) (o : ImportTask)
      → (after_task q o).tasks ≡ set_status o.id (final_status q o) q.tasks
  unfolding after_task finish_import_task
  after_task-tasks q o =
      rw (after_task, updates, finish_import_task)
        (set_twice o.id (final_status q o) processing q.tasks)

  loop_turn :
      (fuel n : ℕ) (q : Queue) (o : ImportTask)
      → oldest q.tasks ≡ some o
      → loop (import_store x) alive waits (suc fuel) n q
        ≡ loop (import_store x) alive waits fuel (n + 1) (after_task q o)
  unfolding loop import_store after_claim claim_import_task claim_from after_task
  loop_turn fuel n q o e = rw (loop, lives n, claims, claim_import_task, e) refl

  loop-unfinished :
      (fuel n : ℕ) (q : Queue)
      → Idle q.tasks
      → unfinished q.tasks ≤ fuel
      → unfinished (loop (import_store x) alive waits fuel n q).tasks ≡ 0
  unfolding loop import_store after_claim claim_import_task claim_from
  loop-unfinished zero n q idle le = omega (arith, le)
  loop-unfinished (suc fuel) n q idle le = elim (Option-cases (oldest q.tasks)) [
    | inl nothing ↦
        let done : unfinished q.tasks ≡ 0 = oldest-none q.tasks idle nothing in
        let later = loop-unfinished fuel (n + 1) q idle (omega (arith, done)) in
        elim (Bool-cases (waits n)) [
          | inl slept ↦ rw (loop, lives n, claims, claim_import_task, nothing, slept) later
          | inr stopped ↦ rw (loop, lives n, claims, claim_import_task, nothing, stopped) done
        ]
    | inr (o, found) ↦
        let same = after_task-tasks q o in
        let final = process_import_task_final x.folding x.db q.docs (x.read o.csv_data) in
        let lt =
          set-lt-unfinished o.id (final_status q o) q.tasks final
            (oldest-is_waiting q.tasks o found) in
        let idle' : Idle (after_task q o).tasks =
          subst Idle (sym same) (set-Idle o.id (final_status q o) q.tasks final idle) in
        let le' : unfinished (after_task q o).tasks ≤ fuel = rw (same) (omega (arith, lt, le)) in
        rw (loop_turn fuel n q o found) (loop-unfinished fuel (n + 1) (after_task q o) idle' le')
  ]

unclaimed_idle : (st : ImportTaskStatus) → unclaimed_status st ≢ processing
unclaimed_idle pending = λ e. cc
unclaimed_idle processing = λ e. cc
unclaimed_idle succeeded = λ e. cc
unclaimed_idle failed = λ e. cc

unclaimed_unfinished :
    (st : ImportTaskStatus) → is_unfinished (unclaimed_status st) ≡ is_unfinished st
unclaimed_unfinished pending = refl
unclaimed_unfinished processing = refl
unclaimed_unfinished succeeded = refl
unclaimed_unfinished failed = refl

recovered :
    (ts : List ImportTask)
    → Idle (map unclaimed ts) × (unfinished (map unclaimed ts) ≡ unfinished ts)
recovered [] = (tt, refl)
recovered (t ∷ ts) =
    let (idle, same) = recovered ts in
    ((unclaimed_idle t.status, idle), rw (unclaimed_unfinished t.status, same) refl)

-- When the recovery, the claims and the writing back of a task do not fail and the context stays
-- live, the worker gets through every task that waits or was left behind: after as many turns as
-- there are such tasks, or more, none is left, whatever is in them and whatever of their rows fails.
pub run-unfinished :
    (x : Outside) (alive waits : ℕ → Bool) (fuel : ℕ) (q : Queue)
    → x.recover_fails ≡ none
    → x.claim_fails ≡ none
    → x.update_fails ≡ none
    → ((n : ℕ) → alive n ≡ true)
    → unfinished q.tasks ≤ fuel
    → unfinished (run (import_store x) alive waits fuel q).tasks ≡ 0
unfolding run import_store recover_import_tasks
run-unfinished x alive waits fuel q recovers claims updates lives le =
    let (idle, same) = recovered q.tasks in
    rw (run, recovers, recover_import_tasks)
      (loop-unfinished x alive waits claims updates lives fuel 0 _ idle (omega (arith, same, le)))
