-- ===== src/Words.antt =====
-- pkg/utils/words/text.go: the first or the last characters of a text. A count that is not positive
-- gives the empty text, so the counts are natural numbers.
pub mod Cuts
use morign.Base.{ℕ, ◌-◌, List, [], ◌∷◌, ◌++◌, Text, length, take, drop, leb, if◌then◌else◌}

-- The variadic `ellipsis`: only its first element counts.
abbrev pub first_of_variadic : List Text → Text
first_of_variadic [] = []
first_of_variadic (e ∷ es) = e

-- TakeHead
unfoldable pub take_head : Text → ℕ → List Text → Text
take_head s n ellipsis =
    if leb n 0 then [] else if leb (length s) n then s else take n s ++ first_of_variadic ellipsis

-- TakeTail
unfoldable pub take_tail : Text → ℕ → List Text → Text
take_tail s n ellipsis =
    if leb n 0
    then []
    else if leb (length s) n
    then s
    else first_of_variadic ellipsis ++ drop (length s - n) s
