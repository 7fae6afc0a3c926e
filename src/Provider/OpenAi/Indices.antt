-- ===== src/Provider/OpenAi/Indices.antt =====
-- The indices of the calls: which ones are safe.
use mathlib.Core.Path.{subst}
use morign.Base.{
  ◌≡◌, refl, ap, ◌∙◌, ℕ, zero, suc, ◌+◌, Bool, true, false, ◌&&◌, Option, none, some, List, [], ◌∷◌,
  ◌++◌, if◌then◌else◌, length, length-append, ltb, leb, inl, inr, Bool-cases, ℤ, pos, negsuc, arith,
}
use morign.Llm.{ToolCall}
use morign.Provider.OpenAi.{CallDelta, new_call, grow_at, accumulate_one, accumulate}

-- An index fits when it is that of a call so far, or the next one.
abbrev fits_one : ℕ → ℤ → Bool
fits_one n (pos i) = leb i n
fits_one n (negsuc i) = false

-- The number of calls after an index that fits.
abbrev count_after : ℕ → ℤ → ℕ
count_after n (pos i) = if ltb i n then n else n + 1
count_after n (negsuc i) = n

abbrev pub fits : ℕ → List CallDelta → Bool
fits n [] = true
fits n (d ∷ ds) = fits_one n d.index && fits (count_after n d.index) ds

abbrev pub has_value : Option (List ToolCall) → Bool
has_value none = false
has_value (some calls) = true

-- What growing gives: the calls, as many as before, or nothing.
abbrev Grows : ℕ → Bool → Option (List ToolCall) → Type 0
Grows n good none = good ≡ false
Grows n good (some calls) = (good ≡ true) × (length calls ≡ n)

-- The calls with one more before them.
Grows-cons :
    (tc : ToolCall) (n : ℕ) (good : Bool) (o : Option (List ToolCall))
    → Grows n good o
    → Grows (suc n) good (elim o [ none ↦ none | some tcs ↦ some (tc ∷ tcs) ])
Grows-cons tc n good none h = h
Grows-cons tc n good (some tcs) h = (h.0, ap suc h.1)

ltb-suc : (i n : ℕ) → ltb i n ≡ ltb (suc i) (suc n)
ltb-suc i n = ground arith

ltb_next : (i n : ℕ) → ltb i n ≡ false → ltb i (n + 1) ≡ leb i n
ltb_next i n h = ground arith

leb_of_ltb : (i n : ℕ) → ltb i n ≡ true → true ≡ leb i n
leb_of_ltb i n h = ground arith

grow_at-Grows :
    (calls : List ToolCall) (i : ℕ) (d : CallDelta)
    → Grows (length calls) (ltb i (length calls)) (grow_at calls i d)
unfolding grow_at
grow_at-Grows [] i d = ground arith
grow_at-Grows (tc ∷ calls) zero d = (ground arith, refl)
grow_at-Grows (tc ∷ calls) (suc i) d =
    let grown = grow_at calls i d in
    subst
      (λ good.
        Grows (suc (length calls)) good (elim grown [ none ↦ none | some tcs ↦ some (tc ∷ tcs) ]))
      (ltb-suc i (length calls))
      (Grows-cons tc (length calls) (ltb i (length calls)) grown (grow_at-Grows calls i d))

accumulate_one-Grows :
    (calls : List ToolCall) (d : CallDelta) (index : ℤ)
    → Grows
        (count_after (length calls) index)
        (fits_one (length calls) index)
        (accumulate_one calls d index)
unfolding accumulate_one
accumulate_one-Grows calls d (negsuc i) = refl
accumulate_one-Grows calls d (pos i) =
    let n = length calls in
    let more = calls ++ (new_call d ∷ []) in
    elim (Bool-cases (ltb i n)) [
      | inl old ↦
          let grown =
            subst (λ good. Grows n good (grow_at calls i d)) (old ∙ leb_of_ltb i n old)
              (grow_at-Grows calls i d) in
          rw (accumulate_one, old) grown
      | inr new ↦
          let counted : length more ≡ n + 1 = length-append calls (new_call d ∷ []) in
          let grown =
            subst (λ m. Grows m (ltb i m) (grow_at more i d)) counted (grow_at-Grows more i d) in
          let kept =
            subst (λ good. Grows (n + 1) good (grow_at more i d)) (ltb_next i n new) grown in
          rw (accumulate_one, new) kept
    ]

-- What is left to do after one delta.
after_one :
    (n : ℕ) (good : Bool) (o : Option (List ToolCall)) (ds : List CallDelta)
    → Grows n good o
    → ((calls : List ToolCall) → has_value (accumulate calls ds) ≡ fits (length calls) ds)
    → has_value (elim o [ none ↦ none | some calls ↦ accumulate calls ds ]) ≡ (good && fits n ds)
after_one n good none ds h later = rw (h) refl
after_one n good (some calls) ds h later = rw (h.0, ← h.1) (later calls)

-- The program goes on after the deltas exactly when each index is that of a call so far or the next
-- one: a gap or a negative index stops it.
pub accumulate-fits :
    (calls : List ToolCall) (ds : List CallDelta)
    → has_value (accumulate calls ds) ≡ fits (length calls) ds
unfolding accumulate
accumulate-fits calls [] = refl
accumulate-fits calls (d ∷ ds) =
    after_one (count_after (length calls) d.index) (fits_one (length calls) d.index)
      (accumulate_one calls d d.index) ds (accumulate_one-Grows calls d d.index)
      (λ calls'. accumulate-fits calls' ds)
