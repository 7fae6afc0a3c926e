-- ===== src/Memory.antt =====
-- pkg/services/stores/convo_x.go and pkg/models/convo/memory_decay.go: the memories of users,
-- whom they belong to, and the tools that list, store and forget them. The table is a list of
-- rows with fresh numbers; `Faults` says which calls fail. Scores are numbers, as only their
-- order is used.
pub mod Scope
pub mod Tools
pub mod Keys
pub mod Tiers
use morign.Base.{
  ℕ, ◌+◌, ◌-◌, ◌≤◌, Bool, true, false, not, ◌&&◌, ◌||◌, Option, none, some, List, [], ◌∷◌, ◌++◌,
  Text, codes, is_empty, text_eq, if◌then◌else◌, ◌==◌, ltb, leb, take, filter_by, any_by, map, ℤ,
  pos, negsuc, Result, ok, err,
}

-- The login: its number, which may be no valid one, and whether it is a keeper (UserIsKeeper).
pub record Login : Type 0 where
  pub oid : Option ℕ
  pub keeper : Bool

pub record Context : Type 0 where
  pub user : Option Login

abbrev pub has_user : Context → Bool
has_user ctx = elim ctx.user [ none ↦ false | some u ↦ true ]

-- IsKeeper
abbrev pub is_keeper : Context → Bool
is_keeper ctx = elim ctx.user [ none ↦ false | some u ↦ u.keeper ]

-- restrictedToOwner
unfoldable pub restricted_to_owner : Context → Bool
restricted_to_owner ctx = has_user ctx && not (is_keeper ctx)

-- ownerIDFromContext
unfoldable pub owner_id_from_context : Context → Option ℕ
owner_id_from_context ctx = elim ctx.user [ none ↦ none | some u ↦ u.oid ]

abbrev pub is_number : ℕ → Option ℕ → Bool
is_number n none = false
is_number n (some m) = n == m

-- ownerAllowed
unfoldable pub owner_allowed : Context → ℕ → Bool
unfolding restricted_to_owner owner_id_from_context
owner_allowed ctx owner =
    not (restricted_to_owner ctx) || is_number owner (owner_id_from_context ctx)

-- Memory
pub record Memory : Type 0 where
  pub id : ℕ
  pub owner_id : ℕ
  pub key : Text
  pub cate : Text
  pub content : Text
  pub tier : Text
  pub access_count : ℕ

pub record Table : Type 0 where
  pub rows : List Memory
  pub next_id : ℕ

pub record Faults : Type 0 where
  pub get : Option Text
  pub create : Option Text
  pub embed : Option Text
  pub update : Option Text
  pub delete : Option Text

-- ErrForbidden, the errors of a missing login and of a key that the owner has already, ErrNotFound,
-- and any other error.
pub data MemoryError : Type 0 where
  forbidden need_login not_found duplicate : MemoryError
  failing : Text → MemoryError

-- ConvoMemorySpec
pub record ConvoMemorySpec : Type 0 where
  pub owner_id : Option ℕ
  pub is_owner : Bool
  pub key : Text
  pub cate : Text
  pub tier : Text
  pub limit : ℕ

-- defaultMemoryLimit, maxMemoryLimit, defaultMemoryPageLimit
abbrev pub default_memory_limit : ℕ
default_memory_limit = 5

abbrev pub max_memory_limit : ℕ
max_memory_limit = 100

abbrev pub default_memory_page_limit : ℕ
default_memory_page_limit = 20

abbrev pub with_page : Context → ConvoMemorySpec → ConvoMemorySpec
with_page ctx spec =
    if has_user ctx && spec.limit == 0
    then record spec { limit = default_memory_page_limit }
    else spec

-- The list is narrowed to an owner; nothing for a login without a valid number.
unfoldable pub narrowed : ConvoMemorySpec → Option ℕ → Option ConvoMemorySpec
narrowed spec none = none
narrowed spec (some id) = some (record spec { owner_id = some id })

abbrev is_open : ConvoMemorySpec → Bool
is_open spec = elim spec.owner_id [ none ↦ spec.is_owner | some o ↦ false ]

-- applyOwnerScope
unfoldable pub apply_owner_scope : Context → ConvoMemorySpec → Option ConvoMemorySpec
unfolding restricted_to_owner owner_id_from_context narrowed
apply_owner_scope ctx spec =
    if restricted_to_owner ctx
    then narrowed (with_page ctx spec) (owner_id_from_context ctx)
    else if is_keeper ctx && is_open spec
    then narrowed (with_page ctx spec) (owner_id_from_context ctx)
    else some (with_page ctx spec)

abbrev passes_owner : Option ℕ → ℕ → Bool
passes_owner none n = true
passes_owner (some id) n = n == id

-- siftMatch: an empty filter lets every row pass.
abbrev passes_text : (Text → Text → Bool) → Text → Text → Bool
passes_text match wanted t = is_empty wanted || match wanted t

abbrev pub sifts : (Text → Text → Bool) → ConvoMemorySpec → Memory → Bool
sifts match spec m =
    passes_owner spec.owner_id m.owner_id
    && (passes_text match spec.key m.key
        && (passes_text match spec.cate m.cate && passes_text match spec.tier m.tier))

-- What the library of the store does for a list: the test of siftMatch, and the page of ListModel
-- for a limit.
pub record Query : Type 0 where
  pub match : Text → Text → Bool
  pub page : ℕ → List Memory → List Memory

-- ListMemory through Sift and SiftX, of the rows in the order of the list.
unfoldable pub list_memory : Query → Context → ConvoMemorySpec → List Memory → List Memory
unfolding apply_owner_scope
list_memory q ctx spec rows = elim (apply_owner_scope ctx spec) [
  | none ↦ []
  | some spec' ↦ q.page spec'.limit (filter_by (sifts q.match spec') rows)
]

unfoldable pub find_id : ℕ → List Memory → Option Memory
find_id id [] = none
find_id id (m ∷ ms) = if m.id == id then some m else find_id id ms

-- The row of a number is taken out.
unfoldable pub without : ℕ → List Memory → List Memory
without id [] = []
without id (m ∷ ms) = let rest = without id ms in if m.id == id then ms else m ∷ rest

-- GetMemory with afterLoadMemory
unfoldable pub get_memory : Faults → Context → Table → ℕ → Result MemoryError Memory
unfolding owner_allowed find_id
get_memory f ctx t id = elim f.get [
  | some e ↦ err (failing e)
  | none ↦ elim (find_id id t.rows) [
    | none ↦ err not_found
    | some m ↦ if owner_allowed ctx m.owner_id then ok m else err forbidden
  ]
]

-- DeleteMemory with dbBeforeDeleteMemory, of the row that was found: a row that is not there is no
-- error.
unfoldable pub delete_found : Faults → Context → Table → Option Memory → Table × Option MemoryError
unfolding owner_allowed without
delete_found f ctx t none = (t, none)
delete_found f ctx t (some m) =
    if owner_allowed ctx m.owner_id
    then elim f.delete [
      | some e ↦ (t, some (failing e))
      | none ↦ (record t { rows = without m.id t.rows }, none)
    ]
    else (t, some forbidden)

-- DeleteMemory
unfoldable pub delete_memory : Faults → Context → Table → ℕ → Table × Option MemoryError
unfolding delete_found find_id
delete_memory f ctx t id = elim f.get [
  | some e ↦ (t, some (failing e))
  | none ↦ delete_found f ctx t (find_id id t.rows)
]

-- The owner that dbBeforeCreateMemory leaves.
abbrev pub owner_or : ℕ → Option ℕ → ℕ
owner_or owner none = owner
owner_or owner (some id) = id

-- The keys of an owner are unique.
abbrev same_key : Memory → Memory → Bool
same_key row m = m.owner_id == row.owner_id && text_eq m.key row.key

abbrev pub is_taken : Memory → List Memory → Bool
is_taken row ms = any_by (same_key row) ms

-- dbInsert, and then afterCreatedMemory: the row stays when its vector cannot be made.
unfoldable pub insert_memory : Faults → Table → Memory → Bool → Table × Result MemoryError ℕ
insert_memory f t row true = (t, err duplicate)
insert_memory f t row false = (
  record { rows = row ∷ t.rows; next_id = t.next_id + 1 },
  elim f.embed [ some e ↦ err (failing e) | none ↦ ok t.next_id ],
)

abbrev pub new_memory : Context → Table → Memory → Memory
new_memory ctx t m = record m {
  id = t.next_id;
  owner_id = owner_or m.owner_id (owner_id_from_context ctx);
}

-- CreateMemory
unfoldable pub create_memory : Faults → Context → Table → Memory → Table × Result MemoryError ℕ
unfolding owner_id_from_context insert_memory
create_memory f ctx t m = elim f.create [
  | some e ↦ (t, err (failing e))
  | none ↦ insert_memory f t (new_memory ctx t m) (is_taken (new_memory ctx t m) t.rows)
]

-- RouteTier
unfoldable pub route_tier : ℕ → ℕ → ℕ → Text
route_tier score long_term short_term =
    if leb long_term score
    then codes "long-term"
    else if leb short_term score
    then codes "short-term"
    else codes "working"

-- PromoteTier; the empty text is no promotion.
unfoldable pub promote_tier : Text → ℕ → ℕ → ℕ → Text
promote_tier tier count w2s s2l =
    if text_eq tier (codes "working") && leb w2s count
    then codes "short-term"
    else if text_eq tier (codes "short-term") && leb s2l count
    then codes "long-term"
    else []
