-- ===== src/Words/Cuts.antt =====
-- How long the cuts of `TakeHead` and `TakeTail` are, and what they keep.
use morign.Base.{
  ℕ, zero, suc, ◌+◌, ◌-◌, ◌≤◌, ◌≡◌, refl, sym, List, [], ◌∷◌, ◌++◌, Text, length, take, drop, arith,
  length-append, length-take, length-drop, take-append-drop, take_all,
}
use mathlib.Core.List.{append-nil}
use morign.Words.{take_head, take_tail, first_of_variadic}

-- With no ellipsis the cut is the plain prefix.
pub take_head-eq-take : (s : Text) (n : ℕ) → take_head s n [] ≡ take n s
unfolding take_head
take_head-eq-take s zero = refl
take_head-eq-take s (suc n) = ground (arith, take_all (suc n) s, append-nil (take (suc n) s))

pub drop_all : (n : ℕ) (s : Text) → length s ≤ n → drop n s ≡ []
drop_all zero [] h = refl
drop_all zero (c ∷ s) h = absurd (omega arith)
drop_all (suc n) [] h = refl
drop_all (suc n) (c ∷ s) h = drop_all n s (omega arith)

pub drop_zero : (k : ℕ) (s : Text) → k ≡ 0 → drop k s ≡ s
drop_zero zero s h = refl
drop_zero (suc k) s h = absurd (omega arith)

-- With no ellipsis the cut is the plain suffix.
pub take_tail-eq-drop : (s : Text) (n : ℕ) → take_tail s n [] ≡ drop (length s - n) s
unfolding take_tail
take_tail-eq-drop s zero = sym (drop_all (length s - 0) s (omega arith))
take_tail-eq-drop s (suc n) = ground (arith, drop_zero (length s - suc n) s)

-- The cut at the head has at most `n` characters and then the ellipsis.
pub length-take_head :
    (s : Text) (n : ℕ) (es : List Text)
    → length (take_head s n es) ≤ n + length (first_of_variadic es)
unfolding take_head
length-take_head s n es =
    ground (arith, length-append (take n s) (first_of_variadic es), length-take n s)

pub length-take_tail : (s : Text) (n : ℕ) → length (take_tail s n []) ≤ n
length-take_tail s n = rw take_tail-eq-drop (omega (arith, length-drop {0} (length s - n) s))

-- A text is its head and its tail, wherever it is cut, up to its length.
pub take_head-append-take_tail :
    (s : Text) (n : ℕ) → n ≤ length s → take_head s n [] ++ take_tail s (length s - n) [] ≡ s
take_head-append-take_tail s n h =
    let e : length s - (length s - n) ≡ n = omega arith in
    rw (take_head-eq-take, take_tail-eq-drop, e) (take-append-drop n s)
