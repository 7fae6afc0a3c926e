-- ===== src/Skills.antt =====
-- pkg/services/stores/skills_x.go, pkg/services/agent/skill_inject.go and
-- pkg/models/skills/skills_x.go: the skills, who sees them, and what of them goes into the
-- prompt. The table is a list of rows, the newest first; `Database` says which calls fail, and
-- what page ListModel makes of a list for a limit. The YAML of a skill is not read here.
pub mod Files
pub mod Replaced
pub mod Sight
pub mod Front
use morign.Base.{
  ℕ, ◌+◌, Bool, true, false, not, ◌&&◌, ◌||◌, Option, none, some, List, [], ◌∷◌, ◌++◌, Text, codes,
  is_empty, text_eq, if◌then◌else◌, ◌==◌, ltb, length, take, drop, filter_by, any_by, map,
  has_prefix, trim_space, byte_len, Result, ok, err,
}

-- Channel, as the bits that it has.
pub record Channel : Type 0 where
  pub web : Bool
  pub wecom : Bool
  pub feishu : Bool

pub record Skill : Type 0 where
  pub name : Text
  pub description : Text
  pub content : Text
  pub channel : Channel
  pub owner : ℕ

-- The channel and the user of a context.
pub record Context : Type 0 where
  pub channel_name : Text
  pub user : Option ℕ

-- channelBit, as the test `channel & bit != 0`.
unfoldable pub on_channel : Context → Channel → Bool
on_channel ctx c =
    if text_eq ctx.channel_name (codes "wecom")
    then c.wecom
    else if text_eq ctx.channel_name (codes "feishu")
    then c.feishu
    else c.web

abbrev is_owner : Option ℕ → ℕ → Bool
is_owner none n = false
is_owner (some id) n = n == id

-- skillVisible
unfoldable pub skill_visible : Context → Skill → Bool
unfolding on_channel
skill_visible ctx s = if is_owner ctx.user s.owner then true else on_channel ctx s.channel

-- skillVisibleCond, as the test that the database makes of a row.
unfoldable pub skill_visible_cond : Context → Skill → Bool
unfolding on_channel
skill_visible_cond ctx s = elim ctx.user [
  | none ↦ on_channel ctx s.channel
  | some id ↦ on_channel ctx s.channel || s.owner == id
]

pub record Database : Type 0 where
  pub list : Option Text
  pub get : Option Text
  pub page : ℕ → List Skill → List Skill

-- ErrSkillNotFound, and any other error.
pub data SkillError : Type 0 where
  skill_not_found : SkillError
  database : Text → SkillError

-- TopRecent, through ListVisibleMetadata.
unfoldable pub top_recent : Database → Context → List Skill → ℕ → Result SkillError (List Skill)
unfolding skill_visible_cond
top_recent f ctx rows limit = elim f.list [
  | some e ↦ err (database e)
  | none ↦ ok (f.page limit (filter_by (skill_visible_cond ctx) rows))
]

unfoldable pub find_name : Text → List Skill → Option Skill
find_name name [] = none
find_name name (s ∷ rows) = if text_eq s.name name then some s else find_name name rows

-- The visibility is looked at after the row was found.
unfoldable pub if_visible : Context → Option Skill → Result SkillError Skill
unfolding skill_visible
if_visible ctx none = err skill_not_found
if_visible ctx (some s) = if skill_visible ctx s then ok s else err skill_not_found

-- LoadForName
unfoldable pub load_for_name : Database → Context → List Skill → Text → Result SkillError Skill
unfolding if_visible find_name
load_for_name f ctx rows name = elim f.get [
  | some e ↦ err (database e)
  | none ↦ if_visible ctx (find_name name rows)
]

-- dedupe, with the names seen so far.
unfoldable pub dedupe_from : List Text → List Text → List Text
dedupe_from seen [] = []
dedupe_from seen (n ∷ names) =
    let name = trim_space n in
    let skipped = dedupe_from seen names in
    let kept = dedupe_from (name ∷ seen) names in
    if is_empty name || any_by (text_eq name) seen then skipped else name ∷ kept

unfoldable pub dedupe : List Text → List Text
unfolding dedupe_from
dedupe names = dedupe_from [] names

-- resolveNames
unfoldable pub resolve_names :
    Database → Context → List Skill → ℕ → List Text → Result SkillError (List Text)
unfolding dedupe top_recent
resolve_names f ctx rows count (n ∷ requested) = ok (dedupe (n ∷ requested))
resolve_names f ctx rows count [] = elim (top_recent f ctx rows count) [
  | err e ↦ err e
  | ok data' ↦ ok (map (λ (s : Skill). s.name) data')
]

abbrev pub push_loaded : Result SkillError Skill → List Skill → List Skill
push_loaded (err e) rest = rest
push_loaded (ok s) rest = s ∷ rest

-- The skills of the names; one that cannot be loaded is left out.
unfoldable pub load_all : Database → Context → List Skill → List Text → List Skill
unfolding load_for_name
load_all f ctx rows [] = []
load_all f ctx rows (n ∷ names) =
    push_loaded (load_for_name f ctx rows n) (load_all f ctx rows names)

unfoldable pub index_lines : List Skill → Text
index_lines [] = []
index_lines (s ∷ ss) =
    codes "- " ++ s.name ++ codes ": " ++ s.description ++ codes "\n" ++ index_lines ss

unfoldable pub index_text : List Skill → Text
unfolding index_lines
index_text [] = []
index_text (s ∷ ss) =
    codes "\n\n# Available Skills\n" ++ index_lines (s ∷ ss) ++ codes "可通过 skill_read 工具加载技能全文。\n"

-- BuildSkillIndex
unfoldable pub build_skill_index :
    Database → Context → List Skill → ℕ → List Text → Result SkillError Text
unfolding resolve_names load_all index_text
build_skill_index f ctx rows count requested = elim (resolve_names f ctx rows count requested) [
  | err e ↦ err e
  | ok names ↦ ok (index_text (load_all f ctx rows names))
]

-- SkillPromptByCommand
unfoldable pub skill_prompt_by_command :
    Database → Context → List Skill → Text → Result SkillError Text
unfolding load_for_name
skill_prompt_by_command f ctx rows name = elim (load_for_name f ctx rows name) [
  | err e ↦ err e
  | ok s ↦ ok (codes "\n## Skill: " ++ s.name ++ codes "\n" ++ s.content)
]

-- What stands before and after the first place of a part in a text.
abbrev pub prepend : ℕ → Option (Text × Text) → Option (Text × Text)
prepend c none = none
prepend c (some (before, after)) = some (c ∷ before, after)

unfoldable pub cut_at : Text → Text → Option (Text × Text)
cut_at part [] = if is_empty part then some ([], []) else none
cut_at part (c ∷ s) =
    let rest = prepend c (cut_at part s) in
    if has_prefix (c ∷ s) part then some ([], drop (length part) (c ∷ s)) else rest

abbrev pub closing : Text
closing = codes "\n---"

-- The frontmatter after its first line.
abbrev pub cut_rest : Option (Text × Text) → Option (Text × Text)
cut_rest none = none
cut_rest (some (line, rest)) = cut_at closing rest

abbrev pub byte_order_mark : ℕ
byte_order_mark = 0xfeff

abbrev pub without_mark : Text → Text
without_mark [] = []
without_mark (c ∷ s) = if c == byte_order_mark then s else c ∷ s

-- cutFrontmatter: the YAML and the body.
unfoldable pub cut_frontmatter : Text → Option (Text × Text)
unfolding cut_at
cut_frontmatter content =
    let s = without_mark content in
    if has_prefix s (codes "---") then cut_rest (cut_at (codes "\n") s) else none

-- maxSkillFileSize, maxSkillBundleSize
abbrev pub max_skill_file_size : ℕ
max_skill_file_size = 1048576

abbrev pub max_skill_bundle_size : ℕ
max_skill_bundle_size = 10485760

-- checkSkillFiles: the sizes of the files are known, of those with the paths.
unfoldable pub check_skill_files : ℕ → List (Text × ℕ) → Option Text
check_skill_files total [] =
    if ltb max_skill_bundle_size total then some (codes "skill bundle exceeds max size") else none
check_skill_files total ((path, size) ∷ files) =
    let rest = check_skill_files (total + size) files in
    if is_empty path
    then some (codes "empty file path")
    else if ltb max_skill_file_size size
    then some (codes "file exceeds max size")
    else rest
