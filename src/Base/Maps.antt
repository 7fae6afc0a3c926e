-- ===== src/Base/Maps.antt =====
-- A Go map from strings as the list of its entries, in the order in which a range over it meets
-- them; the source relies on no order.
use mathlib.Core.Path.{◌≡◌, refl}
use mathlib.Core.Bool.{Bool, true, false, ◌||◌}
use mathlib.Core.List.{List, [], ◌∷◌}
use mathlib.Core.Option.{Option, none, some}
use native.Mathlib.Omega.{arith}
use morign.Base.Tests.{if◌then◌else◌, Bool-cases}
use mathlib.Core.Logic.{inl, inr}
use morign.Base.Texts.{Text, text_eq, text_eq_refl, text_eq_iff}

module _ {ℓ} {V : Type ℓ} where
  -- `m[key]` with its second result.
  unfoldable pub lookup : Text → List (Text × V) → Option V
  lookup key [] = none
  lookup key ((k, v) ∷ m) = if text_eq k key then some v else lookup key m

  -- `delete(m, key)`
  unfoldable pub delete : Text → List (Text × V) → List (Text × V)
  delete key [] = []
  delete key ((k, v) ∷ m) = let rest = delete key m in if text_eq k key then rest else (k, v) ∷ rest

  -- `m[key] = v`
  abbrev pub insert : Text → V → List (Text × V) → List (Text × V)
  insert key v m = (key, v) ∷ delete key m

  pub lookup-delete_ne :
      (key k : Text) (m : List (Text × V))
      → text_eq key k ≡ false
      → lookup k (delete key m) ≡ lookup k m
  unfolding lookup delete
  lookup-delete_ne key k [] e = refl
  lookup-delete_ne key k ((k', v) ∷ m) e =
      ground (arith, lookup-delete_ne key k m, text_eq_iff k' key, text_eq_iff k' k)

  pub lookup-delete_eq :
      (key k : Text) (m : List (Text × V)) → text_eq key k ≡ true → lookup k (delete key m) ≡ none
  unfolding lookup delete
  lookup-delete_eq key k [] e = refl
  lookup-delete_eq key k ((k', v) ∷ m) e =
      ground
        (arith, lookup-delete_eq key k m e, text_eq_iff k' k, text_eq_iff key k, text_eq_iff k' key)

  pub lookup-delete-some :
      (key k : Text) (m : List (Text × V)) (v : V)
      → lookup k (delete key m) ≡ some v
      → lookup k m ≡ some v
  lookup-delete-some key k m v e = elim (Bool-cases (text_eq key k)) [
    | inl same ↦ cc (lookup-delete_eq key k m same, e)
    | inr apart ↦ cc (lookup-delete_ne key k m apart, e)
  ]

  pub lookup-insert_self :
      (key : Text) (v : V) (m : List (Text × V)) → lookup key (insert key v m) ≡ some v
  unfolding lookup
  lookup-insert_self key v m = rw (lookup, text_eq_refl)

  pub lookup-insert_eq :
      (key k : Text) (v : V) (m : List (Text × V))
      → text_eq key k ≡ true
      → lookup k (insert key v m) ≡ some v
  unfolding lookup
  lookup-insert_eq key k v m e = rw (lookup, e)

  pub lookup-insert_ne :
      (key k : Text) (v : V) (m : List (Text × V))
      → text_eq key k ≡ false
      → lookup k (insert key v m) ≡ lookup k m
  unfolding lookup
  lookup-insert_ne key k v m e = rw (lookup, e) (lookup-delete_ne key k m e)

-- `slices.Contains`
unfoldable pub contains : List Text → Text → Bool
contains [] x = false
contains (y ∷ ys) x = text_eq y x || contains ys x
