-- ===== src/Channel/Window.antt =====
-- The window in which a message counts as seen.
use morign.Base.{
  ◌||◌, ◌≡◌, ◌≢◌, refl, sym, ◌∙◌, ℕ, ◌-◌, Bool, true, false, not, List, [], ◌∷◌, Text, text_eq,
  text_eq_refl, ltb, filter_by, any_by, inl, inr, Bool-cases,
}
use morign.Channel.Guards.{Seen, is_fresh, has_id, mark, dedup_ttl, is_duplicate}

or_false : (a b : Bool) → (a || b) ≡ false → (a ≡ false) × (b ≡ false)
or_false true b h = cc
or_false false b h = (refl, h)

-- What is not seen in a list is not seen in a part of it.
not_seen_in_part :
    (id : Text) (later : ℕ) (seen : List Seen)
    → any_by (has_id id) seen ≡ false
    → any_by (has_id id) (filter_by (is_fresh later) seen) ≡ false
not_seen_in_part id later [] h = refl
not_seen_in_part id later (s ∷ seen) h =
    let (other, rest) = or_false (text_eq s.id id) (any_by (has_id id) seen) h in
    let ih = not_seen_in_part id later seen rest in
    elim (Bool-cases (is_fresh later s)) [
      | inl fresh ↦ rw (fresh, other) ih
      | inr old ↦ rw (old) ih
    ]

mark_flag :
    (id : Text) (now : ℕ) (kept : List Seen) (found : Bool) → (mark id now kept found).1 ≡ found
mark_flag id now kept true = refl
mark_flag id now kept false = refl

-- Of the entry just made and of entries of other messages, one is seen while the entry is fresh.
entry_seen :
    (id : Text) (now later : ℕ) (kept : List Seen)
    → any_by (has_id id) kept ≡ false
    → any_by (has_id id) (filter_by (is_fresh later) (record { id = id; at = now } ∷ kept))
      ≡ not (ltb dedup_ttl (later - now))
entry_seen id now later kept h = elim (Bool-cases (ltb dedup_ttl (later - now))) [
  | inl old ↦ rw (old) (not_seen_in_part id later kept h)
  | inr fresh ↦ rw (fresh, text_eq_refl id) refl
]

-- A message that was new at a time is a duplicate at a later one exactly when no more than the
-- window of a minute has passed.
pub is_duplicate_again :
    (seen : List Seen) (now later : ℕ) (id : Text)
    → id ≢ []
    → (is_duplicate seen now id).1 ≡ false
    → (is_duplicate (is_duplicate seen now id).0 later id).1 ≡ not (ltb dedup_ttl (later - now))
unfolding is_duplicate
is_duplicate_again seen now later [] nonempty new = absurd (nonempty refl)
is_duplicate_again seen now later (c ∷ id) nonempty new =
    let kept = filter_by (is_fresh now) seen in
    let nothing : any_by (has_id (c ∷ id)) kept ≡ false =
      sym (mark_flag (c ∷ id) now kept (any_by (has_id (c ∷ id)) kept)) ∙ new in
    rw (is_duplicate, nothing)
      (mark_flag (c ∷ id) later _ _ ∙ entry_seen (c ∷ id) now later kept nothing)
