-- ===== src/Base/Decimal.antt =====
-- `%d` of `fmt.Sprintf` at a number that is not negative, and a format whose verbs are all `%d`.
use Prim.Native.Nat.{ℕ, zero, suc, ◌+◌, ◌/◌, ◌%◌, ◌≤◌, ◌<◌}
use mathlib.Core.Path.{◌≡◌, ◌∙◌, ap}
use mathlib.Core.List.{List, [], ◌∷◌, ◌++◌}
use native.Mathlib.Omega.{arith}
use morign.Base.Tests.{ltb, if◌then◌else◌}
use morign.Base.Lists.{length, length-append}
use morign.Base.Texts.{Text}

-- One digit a round, the last digit first; `suc n` rounds are more than `n` has digits.
digits : ℕ → ℕ → Text
digits zero n = []
digits (suc f) n =
    let rest = digits f (n / 10) in
    if ltb n 10 then (b'0' + n) ∷ [] else rest ++ (b'0' + n % 10) ∷ []

unfoldable pub decimal : ℕ → Text
unfolding digits
decimal n = digits (suc n) n

digits_mono : (f g n m : ℕ) → n < f → m < g → n ≤ m → length (digits f n) ≤ length (digits g m)
unfolding digits
digits_mono zero g n m hf hg le = absurd (omega arith)
digits_mono (suc f) zero n m hf hg le = absurd (omega arith)
digits_mono (suc f) (suc g) n m hf hg le = ground (
  arith,
  digits_mono f g (n / 10) (m / 10),
  length-append (digits f (n / 10)) ((b'0' + n % 10) ∷ []),
  length-append (digits g (m / 10)) ((b'0' + m % 10) ∷ []),
)

-- A larger number is printed with at least as many characters.
pub decimal_mono : (n m : ℕ) → n ≤ m → length (decimal n) ≤ length (decimal m)
unfolding decimal
decimal_mono n m le = digits_mono (suc n) (suc m) n m (omega arith) (omega arith) le

-- The pieces of the format between its verbs, and the numbers.
unfoldable pub sprintf : List Text → List ℕ → Text
sprintf [] ns = []
sprintf (p ∷ ps) [] = p ++ sprintf ps []
sprintf (p ∷ ps) (n ∷ ns) = p ++ (decimal n ++ sprintf ps ns)

abbrev pub AllLe : List ℕ → List ℕ → Type 0
AllLe [] [] = Unit
AllLe [] (m ∷ ms) = ⊥
AllLe (n ∷ ns) [] = ⊥
AllLe (n ∷ ns) (m ∷ ms) = (n ≤ m) × AllLe ns ms

length-sprintf :
    (p : Text) (ps : List Text) (n : ℕ) (ns : List ℕ)
    → length (sprintf (p ∷ ps) (n ∷ ns)) ≡ length p + (length (decimal n) + length (sprintf ps ns))
unfolding sprintf
length-sprintf p ps n ns =
    length-append p (decimal n ++ sprintf ps ns)
    ∙ ap (λ (k : ℕ). length p + k) (length-append (decimal n) (sprintf ps ns))

pub sprintf_mono :
    (ps : List Text) (ns ms : List ℕ)
    → AllLe ns ms
    → length (sprintf ps ns) ≤ length (sprintf ps ms)
unfolding sprintf
sprintf_mono [] ns ms h = omega arith
sprintf_mono (p ∷ ps) [] [] h = omega arith
sprintf_mono (p ∷ ps) [] (m ∷ ms) h = absurd h
sprintf_mono (p ∷ ps) (n ∷ ns) [] h = absurd h
sprintf_mono (p ∷ ps) (n ∷ ns) (m ∷ ms) h =
    rw (length-sprintf p ps n ns, length-sprintf p ps m ms)
      (omega (arith, decimal_mono n m h.0, sprintf_mono ps ns ms h.1))
