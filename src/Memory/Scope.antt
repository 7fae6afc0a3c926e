-- ===== src/Memory/Scope.antt =====
-- Whose memories a request sees, changes or loses.
use mathlib.Core.Path.{subst}
use morign.Base.{
  ◌≡◌, refl, sym, ap, ◌∙◌, ℕ, Bool, true, false, Option, none, some, List, [], ◌∷◌, Text, ◌==◌,
  filter_by, All, inl, inr, Bool-cases, Option-cases, arith,
}
use morign.Memory.{
  Query, with_page, Context, restricted_to_owner, owner_id_from_context, owner_allowed, Memory,
  Table, Faults, ConvoMemorySpec, narrowed, apply_owner_scope, sifts, list_memory, find_id, without,
  delete_found, delete_memory,
}

-- The memory is one of this owner.
abbrev pub IsOwnedBy : Option ℕ → Memory → Type 0
IsOwnedBy owner m = owner ≡ some m.owner_id

-- A page of a list has rows of the list only.
abbrev pub KeepsRows : Query → Type 1
KeepsRows q = (P : Memory → Type 0) (n : ℕ) (ms : List Memory) → All P ms → All P (q.page n ms)

eq_of : (n m : ℕ) → (n == m) ≡ true → some m ≡ some n
eq_of n m h = let same : m ≡ n = ground arith in ap (λ k. some k) same

abbrev owned_spec : ConvoMemorySpec → ℕ → ConvoMemorySpec
owned_spec spec id = record spec { owner_id = some id }

sifts-IsOwnedBy :
    (match : Text → Text → Bool) (spec : ConvoMemorySpec) (id : ℕ) (ms : List Memory)
    → All (IsOwnedBy (some id)) (filter_by (sifts match (owned_spec spec id)) ms)
sifts-IsOwnedBy match spec id [] = tt
sifts-IsOwnedBy match spec id (m ∷ ms) =
    let rest = sifts-IsOwnedBy match spec id ms in
    elim (Bool-cases (m.owner_id == id)) [
      | inr other ↦
          let out : sifts match (owned_spec spec id) m ≡ false = rw (other) refl in rw (out) rest
      | inl mine ↦ elim (Bool-cases (sifts match (owned_spec spec id) m)) [
        | inr out ↦ rw (out) rest
        | inl kept ↦ rw (kept) (eq_of m.owner_id id mine, rest)
      ]
    ]

-- The narrowed list.
abbrev listed_for : Query → Option ConvoMemorySpec → List Memory → List Memory
listed_for q spec rows = elim spec [
  | none ↦ []
  | some spec' ↦ q.page spec'.limit (filter_by (sifts q.match spec') rows)
]

narrowed-own :
    (q : Query) (spec : ConvoMemorySpec) (owner : Option ℕ) (rows : List Memory)
    → KeepsRows q
    → All (IsOwnedBy owner) (listed_for q (narrowed spec owner) rows)
unfolding narrowed
narrowed-own q spec none rows keeps = tt
narrowed-own q spec (some id) rows keeps =
    keeps (IsOwnedBy (some id)) spec.limit (filter_by (sifts q.match (owned_spec spec id)) rows)
      (sifts-IsOwnedBy q.match spec id rows)

-- A user who is not a keeper sees no memories but his own, whatever filter, owner or page the
-- request asks for, when a page of a list has rows of the list only; a login without a valid
-- number sees none.
pub list_memory-own :
    (q : Query) (ctx : Context) (spec : ConvoMemorySpec) (rows : List Memory)
    → KeepsRows q
    → restricted_to_owner ctx ≡ true
    → All (IsOwnedBy (owner_id_from_context ctx)) (list_memory q ctx spec rows)
unfolding list_memory apply_owner_scope
list_memory-own q ctx spec rows keeps restricted =
    rw (list_memory, apply_owner_scope, restricted)
      (narrowed-own q (with_page ctx spec) (owner_id_from_context ctx) rows keeps)

-- The memories of an owner.
abbrev pub rows_of : ℕ → List Memory → List Memory
rows_of owner ms = filter_by (λ m. m.owner_id == owner) ms

abbrev value_or : Memory → Option Memory → Memory
value_or m none = m
value_or m (some r) = r

eq_ids : (n m : ℕ) → (n == m) ≡ true → n ≡ m
eq_ids n m h = ground arith

find_id-id : (id : ℕ) (ms : List Memory) (m : Memory) → find_id id ms ≡ some m → m.id ≡ id
unfolding find_id
find_id-id id [] m e = cc
find_id-id id (x ∷ ms) m e = elim (Bool-cases (x.id == id)) [
  | inl same ↦
      let found : some x ≡ some m = sym (rw (find_id, same) refl) ∙ e in
      sym (ap (λ o. (value_or x o).id) found) ∙ eq_ids x.id id same
  | inr other ↦ find_id-id id ms m (sym (rw (find_id, other) refl) ∙ e)
]

without_others :
    (id other : ℕ) (ms : List Memory) (m : Memory)
    → find_id id ms ≡ some m
    → (m.owner_id == other) ≡ false
    → rows_of other (without id ms) ≡ rows_of other ms
unfolding find_id without
without_others id other [] m e ne = refl
without_others id other (x ∷ ms) m e ne = elim (Bool-cases (x.id == id)) [
  | inl same ↦
      let found : some x ≡ some m = sym (rw (find_id, same) refl) ∙ e in
      let not_theirs : (x.owner_id == other) ≡ false =
        ap (λ o. (value_or x o).owner_id == other) found ∙ ne in
      rw (without, same, not_theirs) refl
  | inr differs ↦
      let rest : find_id id ms ≡ some m = sym (rw (find_id, differs) refl) ∙ e in
      let ih = without_others id other ms m rest ne in
      elim (Bool-cases (x.owner_id == other)) [
        | inl theirs ↦ rw (without, differs, theirs) (ap (λ l. x ∷ l) ih)
        | inr not_theirs ↦ rw (without, differs, not_theirs) ih
      ]
]

both_values : (b : Bool) → b ≡ true → ¬ (b ≡ false)
both_values true e h = cc
both_values false e h = cc

delete_found-others :
    (f : Faults) (ctx : Context) (t : Table) (id other : ℕ) (found : Option Memory)
    → find_id id t.rows ≡ found
    → owner_allowed ctx other ≡ false
    → rows_of other (delete_found f ctx t found).0.rows ≡ rows_of other t.rows
unfolding delete_found
delete_found-others f ctx t id other none e denied = refl
delete_found-others f ctx t id other (some m) e denied =
    elim (Bool-cases (owner_allowed ctx m.owner_id)) [
      | inr refused ↦ rw (delete_found, refused) refl
      | inl allowed ↦ elim (Bool-cases (m.owner_id == other)) [
        | inl same ↦ absurd (
            both_values (owner_allowed ctx other)
              (subst (λ o. owner_allowed ctx o ≡ true) (eq_ids m.owner_id other same) allowed)
              denied)
        | inr ne ↦ elim (Option-cases f.delete) [
          | inr (e', bad) ↦ rw (delete_found, allowed, bad) refl
          | inl good ↦
              rw (delete_found, allowed, good, find_id-id id t.rows m e)
                (without_others id other t.rows m e ne)
        ]
      ]
    ]

-- Deleting takes none of the memories of an owner that the requester may not act for.
pub delete_memory-others :
    (f : Faults) (ctx : Context) (t : Table) (id other : ℕ)
    → owner_allowed ctx other ≡ false
    → rows_of other (delete_memory f ctx t id).0.rows ≡ rows_of other t.rows
unfolding delete_memory
delete_memory-others f ctx t id other denied = elim (Option-cases f.get) [
  | inr (e, bad) ↦ rw (delete_memory, bad) refl
  | inl good ↦
      rw (delete_memory, good)
        (delete_found-others f ctx t id other (find_id id t.rows) refl denied)
]
