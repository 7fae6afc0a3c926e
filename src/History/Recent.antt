-- ===== src/History/Recent.antt =====
-- RecentlyWithTokens takes the longest end of the history that fits.
use morign.Base.{
  ℕ, ◌+◌, ◌≤◌, ◌<◌, ◌≡◌, ◌∙◌, refl, sym, ap, false, List, [], ◌∷◌, ◌++◌, arith, Bool-cases, inl,
  inr, ltb, ltb→lt,
}
use mathlib.Core.List.{append-nil, append_assoc}
use morign.History.{HistoryItem, calc_tokens, reverse, recent_loop, recently_with_tokens}

abbrev pub tokens : List HistoryItem → ℕ
tokens [] = 0
tokens (z ∷ zs) = calc_tokens z + tokens zs

-- The items before the cut, from the last to the first: none, or the last of them does not fit.
abbrev pub IsFull : ℕ → List HistoryItem → List HistoryItem → Type 0
IsFull size [] kept = Unit
IsFull size (z ∷ left) kept = size < calc_tokens z + tokens kept

-- `kept` is the end of `all` after the items `left`, which are named from the last to the first.
pub record IsCut (size : ℕ) (all left kept : List HistoryItem) : Type 0 where
  pub parts : all ≡ reverse left ++ kept
  pub fits : tokens kept ≤ size
  pub full : IsFull size left kept

not_ltb : (a b : ℕ) → ltb a b ≡ false → b ≤ a
not_ltb a b e = ground arith

recent_loop-IsCut :
    (size : ℕ) (zs : List HistoryItem) (count : ℕ) (ohi : List HistoryItem)
    → count ≡ tokens ohi
    → tokens ohi ≤ size
    → (left : List HistoryItem) × IsCut size
        (reverse zs ++ ohi)
        left
        (recent_loop size zs count ohi)
unfolding recent_loop
recent_loop-IsCut size [] count ohi e h = ([], record { parts = refl; fits = h; full = tt })
recent_loop-IsCut size (z ∷ zs) count ohi e h =
    elim (Bool-cases (ltb size (count + calc_tokens z))) [
      | inl over ↦
          let lt = ltb→lt size (count + calc_tokens z) over in
          rw over (z ∷ zs, record { parts = refl; fits = h; full = omega arith })
      | inr room ↦
          let le = not_ltb size (count + calc_tokens z) room in
          let (left, cut) =
            recent_loop-IsCut size zs (count + calc_tokens z) (z ∷ ohi) (omega arith)
              (omega arith) in
          rw room (
            left,
            record {
              parts = append_assoc (reverse zs) (z ∷ []) ohi ∙ cut.parts;
              fits = cut.fits;
              full = cut.full;
            },
          )
    ]

reverse-append : (xs ys : List HistoryItem) → reverse (xs ++ ys) ≡ reverse ys ++ reverse xs
reverse-append [] ys = sym (append-nil (reverse ys))
reverse-append (x ∷ xs) ys =
    ap (λ t. t ++ (x ∷ [])) (reverse-append xs ys) ∙ append_assoc (reverse ys) (reverse xs) (x ∷ [])

reverse-reverse : (xs : List HistoryItem) → reverse (reverse xs) ≡ xs
reverse-reverse [] = refl
reverse-reverse (x ∷ xs) =
    reverse-append (reverse xs) (x ∷ []) ∙ ap (λ t. x ∷ t) (reverse-reverse xs)

-- The chosen items are the end of the history, in their order; their tokens fit the size; and the
-- item before them, if there is one, would not fit any more.
pub recently_with_tokens-IsCut :
    (zs : List HistoryItem) (size : ℕ)
    → (left : List HistoryItem) × IsCut size zs left (recently_with_tokens zs size)
unfolding recently_with_tokens
recently_with_tokens-IsCut zs size =
    let (left, cut) = recent_loop-IsCut size (reverse zs) 0 [] refl (omega arith) in
    (
      left,
      record {
        parts = sym (append-nil (reverse (reverse zs)) ∙ reverse-reverse zs) ∙ cut.parts;
        fits = cut.fits;
        full = cut.full;
      },
    )
