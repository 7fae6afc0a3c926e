-- ===== src/Channel/Guards.antt =====
-- pkg/services/channels/allowlist.go and dedup.go: who may write, and which messages are new. Times
-- are in nanoseconds; `fold` stands for strings.EqualFold.
use morign.Base.{
  ◌++◌, err, ok, Result, ℕ, ◌*◌, ◌-◌, ◌^◌, Bool, true, false, not, ◌||◌, List, [], ◌∷◌, Text, codes,
  is_empty, text_eq, if◌then◌else◌, ltb, ◌==◌, trim_space, filter_by, any_by,
}

-- The words of `strings.Split` after the first letter of a text.
abbrev pub add_letter : ℕ → List Text → List Text
add_letter c [] = (c ∷ []) ∷ []
add_letter c (w ∷ ws) = (c ∷ w) ∷ ws

-- `strings.Split(s, ",")`
unfoldable pub split_comma : Text → List Text
split_comma [] = [] ∷ []
split_comma (c ∷ s) = let rest = split_comma s in if c == 0x2c then [] ∷ rest else add_letter c rest

-- AllowList
unfoldable pub allow_list : (Text → Text → Bool) → Text → Text → Bool
unfolding split_comma
allow_list fold allow_from user_id =
    let trimmed = trim_space allow_from in
    if is_empty trimmed || text_eq trimmed (codes "*")
    then true
    else any_by (λ id. fold (trim_space id) user_id) (split_comma trimmed)

-- dedupTTL
abbrev pub dedup_ttl : ℕ
dedup_ttl = 60 * 10 ^ 9

-- The `seen` of msgDedup.
pub record Seen : Type 0 where
  pub id : Text
  pub at : ℕ

abbrev pub is_fresh : ℕ → Seen → Bool
is_fresh now s = not (ltb dedup_ttl (now - s.at))

abbrev pub has_id : Text → Seen → Bool
has_id id s = text_eq s.id id

abbrev pub mark : Text → ℕ → List Seen → Bool → List Seen × Bool
mark id now seen true = (seen, true)
mark id now seen false = (record { id = id; at = now } ∷ seen, false)

-- IsDuplicate of msgDedup
unfoldable pub is_duplicate : List Seen → ℕ → Text → List Seen × Bool
is_duplicate seen now [] = (seen, false)
is_duplicate seen now (c ∷ id) =
    let kept = filter_by (is_fresh now) seen in
    mark (c ∷ id) now kept (any_by (has_id (c ∷ id)) kept)

-- IsDuplicate of Dedup, for what SetNX returns: whether the key was added.
unfoldable pub is_duplicate_by : Text → Result Text Bool → Result Text Bool
is_duplicate_by [] added = ok false
is_duplicate_by (c ∷ id) (err e) = err (codes "dedup check: " ++ e)
is_duplicate_by (c ∷ id) (ok added) = ok (not added)
