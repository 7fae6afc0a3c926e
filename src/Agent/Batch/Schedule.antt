-- ===== src/Agent/Batch/Schedule.antt =====
-- The results of a batch do not depend on the order in which its goroutines end.
use morign.Base.{
  ℕ, zero, suc, ◌+◌, ◌<◌, ◌≤◌, ◌≡◌, ◌≢◌, refl, sym, ap, ◌∙◌, true, Option, none, some, List, [],
  ◌∷◌, length, get_elem?, list_ext, length-set, get_elem?-set_self, get_elem?-set_ne,
  lt-length_of_some, Bool-cases, Option-cases, inl, inr, any_by, arith, ◌==◌,
}
use native.Mathlib.Decide.{dec_lt}
use morign.Llm.{ToolCall, ToolResult}
use morign.Agent.ToolCalls.{Executor, call_tool}
use morign.Agent.Batch.{Slots, blank, run_slot, run_slots}

-- Every goroutine ends: each index of a call stands in the order.
abbrev pub IsComplete : List ToolCall → List ℕ → Type 0
IsComplete tcs order = (j : ℕ) → j < length tcs → any_by (λ i. i == j) order ≡ true

-- The results as a sequential run would store them.
unfoldable pub slots_of : Executor → ℕ → List ToolCall → Slots
slots_of x seq [] = []
slots_of x seq (tc ∷ tcs) = call_tool x tc seq ∷ slots_of x (seq + 1) tcs

abbrev slot_at : Executor → ℕ → List ToolCall → ℕ → Option (Option ToolResult)
slot_at x base tcs i = elim (get_elem? tcs i) [
  | none ↦ none
  | some tc ↦ some (call_tool x tc (base + i))
]

get_elem?-slots_of :
    (x : Executor) (base : ℕ) (tcs : List ToolCall) (i : ℕ)
    → get_elem? (slots_of x base tcs) i ≡ slot_at x base tcs i
unfolding slots_of
get_elem?-slots_of x base [] i = refl
get_elem?-slots_of x base (tc ∷ tcs) zero =
    let e : base ≡ base + 0 = omega arith in ap (λ n. some (call_tool x tc n)) e
get_elem?-slots_of x base (tc ∷ tcs) (suc i) =
    let e : base + 1 + i ≡ base + suc i = omega arith in
    get_elem?-slots_of x (base + 1) tcs i
    ∙ ap
        (λ n.
          let r : Option (Option ToolResult) = elim (get_elem? tcs i) [
            | none ↦ none
            | some t ↦ some (call_tool x t n)
          ] in
          r)
        e

length-slots_of :
    (x : Executor) (base : ℕ) (tcs : List ToolCall) → length (slots_of x base tcs) ≡ length tcs
unfolding slots_of
length-slots_of x base [] = refl
length-slots_of x base (tc ∷ tcs) = ap suc (length-slots_of x (base + 1) tcs)

length-blank : (tcs : List ToolCall) → length (blank tcs) ≡ length tcs
length-blank [] = refl
length-blank (tc ∷ tcs) = ap suc (length-blank tcs)

-- Two lists of one length end at one index.
past_end :
    {A B : Type 0} (xs : List A) (ys : List B) (j : ℕ)
    → length xs ≡ length ys
    → get_elem? ys j ≡ none
    → get_elem? xs j ≡ none
past_end [] ys j e h = refl
past_end (x ∷ xs) [] j e h = absurd (omega arith)
past_end (x ∷ xs) (y ∷ ys) zero e h = cc
past_end (x ∷ xs) (y ∷ ys) (suc j) e h = past_end xs ys j (omega arith) h

module _ (x : Executor) (base : ℕ) (tcs : List ToolCall) where
  run_slot_other :
      (i j : ℕ) (slots : Slots)
      → i ≢ j
      → get_elem? (run_slot x base tcs i slots) j ≡ get_elem? slots j
  unfolding run_slot
  run_slot_other i j slots ne = elim (Option-cases (get_elem? tcs i)) [
    | inl e ↦ rw (e, run_slot)
    | inr (tc, e) ↦ rw (e, run_slot) (get_elem?-set_ne slots i j (call_tool x tc (base + i)) ne)
  ]

  length-run_slot : (i : ℕ) (slots : Slots) → length (run_slot x base tcs i slots) ≡ length slots
  unfolding run_slot
  length-run_slot i slots = elim (Option-cases (get_elem? tcs i)) [
    | inl e ↦ rw (e, run_slot)
    | inr (tc, e) ↦ rw (e, run_slot) (length-set slots i (call_tool x tc (base + i)))
  ]

  length-run_slots :
      (order : List ℕ) (slots : Slots) → length (run_slots x base tcs order slots) ≡ length slots
  unfolding run_slots
  length-run_slots [] slots = refl
  length-run_slots (i ∷ order) slots =
      length-run_slots order (run_slot x base tcs i slots) ∙ length-run_slot i slots

  run_slot_self :
      (j : ℕ) (slots : Slots)
      → length slots ≡ length tcs
      → get_elem? (run_slot x base tcs j slots) j ≡ slot_at x base tcs j
  unfolding run_slot
  run_slot_self j slots len = elim (Option-cases (get_elem? tcs j)) [
    | inl e ↦ rw (e, run_slot, slot_at) (past_end slots tcs j len e)
    | inr (tc, e) ↦
        rw (e, run_slot, slot_at)
          (get_elem?-set_self slots j (call_tool x tc (base + j))
            (omega (arith, lt-length_of_some tcs j e)))
  ]

  run_slot_keeps :
      (i j : ℕ) (slots : Slots)
      → length slots ≡ length tcs
      → get_elem? slots j ≡ slot_at x base tcs j
      → get_elem? (run_slot x base tcs i slots) j ≡ slot_at x base tcs j
  run_slot_keeps i j slots len h = elim (Bool-cases (i == j)) [
    | inl e ↦ let same : i ≡ j = ground arith in rw same (run_slot_self j slots len)
    | inr e ↦ run_slot_other i j slots (ground arith) ∙ h
  ]

  run_slots_keeps :
      (order : List ℕ) (j : ℕ) (slots : Slots)
      → length slots ≡ length tcs
      → get_elem? slots j ≡ slot_at x base tcs j
      → get_elem? (run_slots x base tcs order slots) j ≡ slot_at x base tcs j
  unfolding run_slots
  run_slots_keeps [] j slots len h = h
  run_slots_keeps (i ∷ order) j slots len h =
      run_slots_keeps order j (run_slot x base tcs i slots) (length-run_slot i slots ∙ len)
        (run_slot_keeps i j slots len h)

  run_slots_done :
      (order : List ℕ) (j : ℕ) (slots : Slots)
      → length slots ≡ length tcs
      → any_by (λ i. i == j) order ≡ true
      → get_elem? (run_slots x base tcs order slots) j ≡ slot_at x base tcs j
  unfolding run_slots
  run_slots_done [] j slots len h = cc
  run_slots_done (i ∷ order) j slots len h =
      let len' = length-run_slot i slots ∙ len in
      elim (Bool-cases (i == j)) [
        | inl e ↦
            let same : i ≡ j = ground arith in
            run_slots_keeps order j (run_slot x base tcs i slots) len'
              (rw same (run_slot_self j slots len))
        | inr e ↦ run_slots_done order j (run_slot x base tcs i slots) len' (ground arith)
      ]

  past_blank : (j : ℕ) → length tcs ≤ j → get_elem? (blank tcs) j ≡ none
  past_blank j h = elim (Option-cases (get_elem? (blank tcs) j)) [
    | inl e ↦ e
    | inr (r, e) ↦ absurd (omega (arith, lt-length_of_some (blank tcs) j e, length-blank tcs))
  ]

  past_slots : (j : ℕ) → length tcs ≤ j → slot_at x base tcs j ≡ none
  past_slots j h = elim (Option-cases (get_elem? tcs j)) [
    | inl e ↦ rw (e, slot_at)
    | inr (tc, e) ↦ absurd (omega (arith, lt-length_of_some tcs j e))
  ]

  -- In whatever order the goroutines end, the slots are those of a sequential run.
  pub run_slots-eq-slots_of :
      (order : List ℕ)
      → IsComplete tcs order
      → run_slots x base tcs order (blank tcs) ≡ slots_of x base tcs
  run_slots-eq-slots_of order complete =
      list_ext _ _
        (length-run_slots order (blank tcs) ∙ length-blank tcs ∙ sym (length-slots_of x base tcs))
        (λ j. elim (dec_lt j (length tcs)) [
          | yes in_range ↦
              run_slots_done order j (blank tcs) (length-blank tcs) (complete j in_range)
              ∙ sym (get_elem?-slots_of x base tcs j)
          | no beyond ↦
              run_slots_keeps order j (blank tcs) (length-blank tcs)
                (past_blank j (omega arith) ∙ sym (past_slots j (omega arith)))
              ∙ sym (get_elem?-slots_of x base tcs j)
        ])
