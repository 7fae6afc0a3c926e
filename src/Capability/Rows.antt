-- ===== src/Capability/Rows.antt =====
-- The rows of pkg/services/stores/capability_x.go by key and by identifier, and which of them a
-- change leaves alone.
use morign.Base.{
  ℕ, ◌≤◌, ◌≡◌, refl, Bool, true, false, ◌&&◌, none, some, List, [], ◌∷◌, map, Text, text_eq,
  text_eq_iff, ◌==◌, ==_iff, filter_by, arith, Bool-cases, inl, inr,
}
use morign.Capability.{Capability, Store, Env, find_key, find_id, has_key}

-- No call of the database fails, and the upper case of an upper case is itself. The embedding may
-- fail.
pub record IsQuiet (x : Env) : Type 0 where
  pub upper_idem : (t : Text) → x.upper (x.upper t) ≡ x.upper t
  pub gets : (m e : Text) → x.get_fails m e ≡ false
  pub inserts : (m e : Text) → x.insert_fails m e ≡ none
  pub updates : (n : ℕ) → x.update_fails n ≡ none
  pub deletes : (n : ℕ) → x.delete_fails n ≡ none

-- No two rows have the same identifier, and those from the next one on are free.
abbrev pub DistinctIds : List Capability → Type 0
DistinctIds [] = Unit
DistinctIds (z ∷ rows) = (find_id z.id rows ≡ none) × DistinctIds rows

pub record IsSound (s : Store) : Type 0 where
  pub distinct : DistinctIds s.rows
  pub fresh : (n : ℕ) → s.next_id ≤ n → find_id n s.rows ≡ none

pub find_id-of_find_key :
    (m e : Text) (rows : List Capability) (z : Capability)
    → DistinctIds rows
    → find_key m e rows ≡ some z
    → find_id z.id rows ≡ some z
unfolding find_key find_id
find_id-of_find_key m e [] z d h = cc
find_id-of_find_key m e (r ∷ rows) z d h =
    ground (arith, find_id-of_find_key m e rows z d.1, ==_iff r.id z.id)

pub find_key-has_key :
    (m e : Text) (rows : List Capability) (z : Capability)
    → find_key m e rows ≡ some z
    → has_key m e z ≡ true
unfolding find_key
find_key-has_key m e [] z h = cc
find_key-has_key m e (r ∷ rows) z h = ground (arith, find_key-has_key m e rows z)

pub find_key-map :
    (g : Capability → Capability) (m e : Text) (rows : List Capability) (z : Capability)
    → ((r : Capability) → has_key m e (g r) ≡ has_key m e r)
    → find_key m e rows ≡ some z
    → find_key m e (map g rows) ≡ some (g z)
unfolding find_key
find_key-map g m e [] z keep h = cc
find_key-map g m e (r ∷ rows) z keep h = ground (arith, keep r, find_key-map g m e rows z keep)

pub find_id-map-none :
    (g : Capability → Capability) (id : ℕ) (rows : List Capability)
    → ((r : Capability) → (g r).id ≡ r.id)
    → find_id id rows ≡ none
    → find_id id (map g rows) ≡ none
unfolding find_id
find_id-map-none g id [] keep h = refl
find_id-map-none g id (r ∷ rows) keep h = ground (arith, keep r, find_id-map-none g id rows keep)

pub map-DistinctIds :
    (g : Capability → Capability) (rows : List Capability)
    → ((r : Capability) → (g r).id ≡ r.id)
    → DistinctIds rows
    → DistinctIds (map g rows)
map-DistinctIds g [] keep d = tt
map-DistinctIds g (r ∷ rows) keep d =
    (rw (keep r) (find_id-map-none g r.id rows keep d.0), map-DistinctIds g rows keep d.1)

pub find_id-filter :
    (p : Capability → Bool) (id : ℕ) (rows : List Capability)
    → find_id id rows ≡ none
    → find_id id (filter_by p rows) ≡ none
unfolding find_id
find_id-filter p id [] h = refl
find_id-filter p id (r ∷ rows) h = ground (arith, find_id-filter p id rows)

pub filter-DistinctIds :
    (p : Capability → Bool) (rows : List Capability)
    → DistinctIds rows
    → DistinctIds (filter_by p rows)
filter-DistinctIds p [] d = tt
filter-DistinctIds p (r ∷ rows) d = elim (Bool-cases (p r)) [
  | inl kept ↦ rw kept (find_id-filter p r.id rows d.0, filter-DistinctIds p rows d.1)
  | inr gone ↦ rw gone (filter-DistinctIds p rows d.1)
]

pub find_key-filter :
    (p : Capability → Bool) (m e : Text) (rows : List Capability) (z : Capability)
    → find_key m e rows ≡ some z
    → p z ≡ true
    → find_key m e (filter_by p rows) ≡ some z
unfolding find_key
find_key-filter p m e [] z h k = cc
find_key-filter p m e (r ∷ rows) z h k = ground (arith, find_key-filter p m e rows z)

pub has_key_parts :
    (m e : Text) (z : Capability) → has_key m e z ≡ true → (z.method ≡ m) × (z.endpoint ≡ e)
has_key_parts m e z h =
    (ground (arith, text_eq_iff z.method m), ground (arith, text_eq_iff z.endpoint e))

-- A row is left alone by a change of the row of another key.
pub other_id :
    (m e m' e' : Text) (rows : List Capability) (z z' : Capability)
    → DistinctIds rows
    → find_key m e rows ≡ some z
    → find_key m' e' rows ≡ some z'
    → (text_eq m' m && text_eq e' e) ≡ false
    → (z.id == z'.id) ≡ false
other_id m e m' e' rows z z' d h h' other = elim (Bool-cases (z.id == z'.id)) [
  | inr apart ↦ apart
  | inl same ↦
      let ids : z.id ≡ z'.id = (==_iff z.id z'.id).0 same in
      let own = find_id-of_find_key m e rows z d h in
      let own' = find_id-of_find_key m' e' rows z' d h' in
      let one : z ≡ z' = cc in
      let key = has_key_parts m e z (find_key-has_key m e rows z h) in
      let key' = has_key_parts m' e' z' (find_key-has_key m' e' rows z' h') in
      let ms : m' ≡ m = cc (key.0, key'.0) in
      let es : e' ≡ e = cc (key.1, key'.1) in
      absurd (ground (arith, text_eq_iff m' m, text_eq_iff e' e))
]
