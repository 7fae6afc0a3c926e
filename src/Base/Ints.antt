-- ===== src/Base/Ints.antt =====
-- The integers of the source, over the native natural numbers.
use Prim.Native.Nat.{ℕ, ◌+◌}
use mathlib.Core.List.{◌∷◌}
use morign.Base.Texts.{Text}
use morign.Base.Decimal.{decimal}

pub data ℤ : Type 0 where
  pos : ℕ → ℤ
  negsuc : ℕ → ℤ  -- `negsuc 0` is -1

-- `%d`
abbrev pub int_text : ℤ → Text
int_text (pos n) = decimal n
int_text (negsuc n) = 0x2d ∷ decimal (n + 1)
