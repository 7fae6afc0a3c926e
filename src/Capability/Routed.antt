-- ===== src/Capability/Routed.antt =====
-- Where the parameters of a call go, in pkg/services/stores/capability_invoker.go.
use morign.Base.{◌≡◌, refl, false, [], ◌∷◌, ◌++◌, Text, All, codes}
use morign.Base.{has_prefix}
use morign.Skills.{cut_at}
use morign.Capability.Invoke.{Params, placeholder, contains_text, substitute}

-- A parameter whose place the path does not have.
abbrev pub HasNoPlace : Text → Text × Text → Type 0
HasNoPlace path (key, value) = contains_text path (placeholder key) ≡ false

substitute_none :
    (path : Text) (params : Params)
    → All (HasNoPlace path) params
    → substitute path params ≡ (path, params)
unfolding substitute
substitute_none path [] h = refl
substitute_none path ((key, value) ∷ params) h = rw (h.0, substitute_none path params h.1) refl

-- The value of one parameter that names the place of another is filled in or not by the order in
-- which the loop meets the two, which Go leaves open: met first, it takes the other's value into
-- the path, and the other remains nowhere.
value_filled :
    (v : Text)
    → substitute (codes "/{a}") ((codes "a", codes "{b}") ∷ ((codes "b", v) ∷ []))
      ≡ (0x2f ∷ (v ++ []), [])
unfolding substitute cut_at has_prefix
value_filled v = refl

value_left :
    (v : Text)
    → substitute (codes "/{a}") ((codes "b", v) ∷ ((codes "a", codes "{b}") ∷ []))
      ≡ (codes "/{b}", (codes "b", v) ∷ [])
unfolding substitute cut_at has_prefix
value_left v = refl
