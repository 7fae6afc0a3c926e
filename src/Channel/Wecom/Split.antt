-- ===== src/Channel/Wecom/Split.antt =====
-- splitByBytes of pkg/services/channels/wecom/websocket.go: a message is sent in chunks of a bounded
-- number of bytes. A text is here the list of its bytes in UTF-8.
use morign.Base.{
  ℕ, zero, suc, ◌+◌, ◌-◌, ◌/◌, ◌≤◌, ◌≡◌, refl, Bool, true, false, List, [], ◌∷◌, ◌++◌,
  if◌then◌else◌, ◌==◌, leb, leb→le, length, take, drop, get_elem?, none, some, All, arith, ◌∙◌, ap,
  sym, take-append-drop, length-drop, Bool-cases, inl, inr,
}
use mathlib.Core.Path.{subst}
use mathlib.Core.List.{append-nil}

-- `s[end]>>6 == 0b10`: the byte goes on with a character.
abbrev pub goes_on : ℕ → Bool
goes_on b = b / 64 == 2

abbrev pub goes_on_at : List ℕ → ℕ → Bool
goes_on_at s i = elim (get_elem? s i) [ none ↦ false | some b ↦ goes_on b ]

-- The walk back from `end` to the start of a character.
unfoldable pub back : List ℕ → ℕ → ℕ
back s zero = 0
back s (suc end) = let less = back s end in if goes_on_at s (suc end) then less else suc end

abbrev pub or_max : ℕ → ℕ → ℕ
or_max max_bytes zero = max_bytes
or_max max_bytes (suc end) = suc end

-- The length of the next chunk.
unfoldable pub cut_len : ℕ → List ℕ → ℕ
unfolding back
cut_len max_bytes s =
    if leb (length s) max_bytes then length s else or_max max_bytes (back s max_bytes)

-- The loop, on fuel.
unfoldable pub split_loop : ℕ → ℕ → List ℕ → List (List ℕ)
split_loop zero max_bytes s = []
split_loop (suc fuel) max_bytes [] = []
split_loop (suc fuel) max_bytes (b ∷ s) =
    let end = cut_len max_bytes (b ∷ s) in
    take end (b ∷ s) ∷ split_loop fuel max_bytes (drop end (b ∷ s))

-- splitByBytes
unfoldable pub split_by_bytes : List ℕ → ℕ → List (List ℕ)
unfolding split_loop cut_len
split_by_bytes s max_bytes =
    if leb (length s) max_bytes then s ∷ [] else split_loop (length s) max_bytes s

-- The chunks one after another.
abbrev pub joined : List (List ℕ) → List ℕ
joined [] = []
joined (part ∷ parts) = part ++ joined parts

back-le : (s : List ℕ) (end : ℕ) → back s end ≤ end
unfolding back
back-le s zero = omega arith
back-le s (suc end) = ground (arith, back-le s end)

or_max_bounds :
    (max_bytes end : ℕ)
    → 1 ≤ max_bytes
    → end ≤ max_bytes
    → (1 ≤ or_max max_bytes end) × (or_max max_bytes end ≤ max_bytes)
or_max_bounds max_bytes zero h k = omega arith
or_max_bounds max_bytes (suc end) h k = omega arith

cut_len_bounds :
    (max_bytes b : ℕ) (s : List ℕ)
    → 1 ≤ max_bytes
    → (1 ≤ cut_len max_bytes (b ∷ s)) × (cut_len max_bytes (b ∷ s) ≤ max_bytes)
unfolding cut_len
cut_len_bounds max_bytes b s h = elim (Bool-cases (leb (suc (length s)) max_bytes)) [
  | inl fits ↦ rw fits (omega (arith, leb→le (suc (length s)) max_bytes fits))
  | inr long ↦
      rw long (or_max_bounds max_bytes (back (b ∷ s) max_bytes) h (back-le (b ∷ s) max_bytes))
]

length-take-le : (n : ℕ) (s : List ℕ) → length (take n s) ≤ n
length-take-le zero s = omega arith
length-take-le (suc n) [] = omega arith
length-take-le (suc n) (b ∷ s) = omega (arith, length-take-le n s)

-- The chunks make up the text, and none is longer than the limit.
abbrev pub IsSplit : ℕ → List ℕ → List (List ℕ) → Type 0
IsSplit max_bytes s parts = (joined parts ≡ s) × All (λ part. length part ≤ max_bytes) parts

split_loop-IsSplit :
    (fuel max_bytes : ℕ) (s : List ℕ)
    → 1 ≤ max_bytes
    → length s ≤ fuel
    → IsSplit max_bytes s (split_loop fuel max_bytes s)
unfolding split_loop
split_loop-IsSplit zero max_bytes [] h k = (refl, tt)
split_loop-IsSplit zero max_bytes (b ∷ s) h k = absurd (omega arith)
split_loop-IsSplit (suc fuel) max_bytes [] h k = (refl, tt)
split_loop-IsSplit (suc fuel) max_bytes (b ∷ s) h k =
    let end : ℕ = cut_len max_bytes (b ∷ s) in
    let bounds = cut_len_bounds max_bytes b s h in
    let rest =
      split_loop-IsSplit fuel max_bytes (drop end (b ∷ s)) h
        (omega (arith, length-drop {0} end (b ∷ s), bounds)) in
    (
      ap (λ (t : List ℕ). take end (b ∷ s) ++ t) rest.0 ∙ take-append-drop end (b ∷ s),
      (omega (arith, length-take-le end (b ∷ s), bounds), rest.1),
    )

-- For a limit of at least one byte, the chunks put together are the text, and each chunk has at most
-- as many bytes as the limit says: nothing is lost, and the loop gets to the end of the text.
pub split_by_bytes-IsSplit :
    (s : List ℕ) (max_bytes : ℕ) → 1 ≤ max_bytes → IsSplit max_bytes s (split_by_bytes s max_bytes)
unfolding split_by_bytes
split_by_bytes-IsSplit s max_bytes h = elim (Bool-cases (leb (length s) max_bytes)) [
  | inl fits ↦ rw fits (append-nil s, (leb→le (length s) max_bytes fits, tt))
  | inr long ↦ rw long (split_loop-IsSplit (length s) max_bytes s h (omega arith))
]

-- A character has at most three bytes after its first.
abbrev pub ShortRuns : List ℕ → Type 0
ShortRuns s =
    (i : ℕ)
    → goes_on_at s i ≡ true
    → goes_on_at s (suc i) ≡ true
    → goes_on_at s (suc (suc i)) ≡ true
    → goes_on_at s (suc (suc (suc i))) ≡ false

abbrev pub StartsWhole : List ℕ → Type 0
StartsWhole s = goes_on_at s 0 ≡ false

goes_on_at-drop : (n i : ℕ) (s : List ℕ) → goes_on_at (drop n s) i ≡ goes_on_at s (n + i)
goes_on_at-drop zero i s = let e : 0 + i ≡ i = omega arith in rw e refl
goes_on_at-drop (suc n) i [] = refl
goes_on_at-drop (suc n) i (b ∷ s) =
    let e : suc n + i ≡ suc (n + i) = omega arith in rw e (goes_on_at-drop n i s)

goes_on_at-take : (n i : ℕ) (s : List ℕ) → goes_on_at s i ≡ false → goes_on_at (take n s) i ≡ false
goes_on_at-take zero i s h = refl
goes_on_at-take (suc n) i [] h = refl
goes_on_at-take (suc n) zero (b ∷ s) h = h
goes_on_at-take (suc n) (suc i) (b ∷ s) h = goes_on_at-take n i s h

drop-ShortRuns : (n : ℕ) (s : List ℕ) → ShortRuns s → ShortRuns (drop n s)
drop-ShortRuns zero s h = h
drop-ShortRuns (suc n) [] h = λ i p q r. refl
drop-ShortRuns (suc n) (b ∷ s) h = drop-ShortRuns n s (λ i. h (suc i))

back_whole :
    (s : List ℕ) (k : ℕ)
    → ShortRuns s
    → goes_on_at s (or_max (suc (suc (suc (suc k)))) (back s (suc (suc (suc (suc k)))))) ≡ false
unfolding back
back_whole s k h = ground (arith, h (suc k))

get_elem?_end : (s : List ℕ) (i : ℕ) → length s ≤ i → goes_on_at s i ≡ false
get_elem?_end [] i h = refl
get_elem?_end (b ∷ s) zero h = absurd (omega arith)
get_elem?_end (b ∷ s) (suc i) h = get_elem?_end s i (omega arith)

cut_len_whole :
    (k : ℕ) (s : List ℕ) → ShortRuns s → goes_on_at s (cut_len (suc (suc (suc (suc k)))) s) ≡ false
unfolding cut_len
cut_len_whole k s h = elim (Bool-cases (leb (length s) (suc (suc (suc (suc k)))))) [
  | inl fits ↦ rw fits (get_elem?_end s (length s) (omega arith))
  | inr long ↦ rw long (back_whole s k h)
]

split_loop-StartsWhole :
    (fuel k : ℕ) (s : List ℕ)
    → ShortRuns s
    → StartsWhole s
    → All StartsWhole (split_loop fuel (suc (suc (suc (suc k)))) s)
unfolding split_loop
split_loop-StartsWhole zero k s h w = tt
split_loop-StartsWhole (suc fuel) k [] h w = tt
split_loop-StartsWhole (suc fuel) k (b ∷ s) h w =
    let end : ℕ = cut_len (suc (suc (suc (suc k)))) (b ∷ s) in
    let e : end + 0 ≡ end = omega arith in
    (
      goes_on_at-take end 0 (b ∷ s) w,
      split_loop-StartsWhole fuel k (drop end (b ∷ s)) (drop-ShortRuns end (b ∷ s) h)
          (goes_on_at-drop end 0 (b ∷ s) ∙ (rw e (cut_len_whole k (b ∷ s) h))),
    )

-- For a limit of at least four bytes, where no character of the text has more than three bytes after
-- its first and the text starts with a character, each chunk starts with a character too: no
-- character is cut in two.
pub split_by_bytes-StartsWhole :
    (s : List ℕ) (max_bytes : ℕ)
    → 4 ≤ max_bytes
    → ShortRuns s
    → StartsWhole s
    → All StartsWhole (split_by_bytes s max_bytes)
unfolding split_by_bytes
split_by_bytes-StartsWhole s max_bytes m h w =
    let e : max_bytes ≡ suc (suc (suc (suc (max_bytes - 4)))) = omega arith in
    elim (Bool-cases (leb (length s) max_bytes)) [
      | inl fits ↦ rw fits (w, tt)
      | inr long ↦ rw long (
          subst (λ n. All StartsWhole (split_loop (length s) n s)) (sym e)
            (split_loop-StartsWhole (length s) (max_bytes - 4) s h w))
    ]
