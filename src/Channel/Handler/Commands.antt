-- ===== src/Channel/Handler/Commands.antt =====
-- pkg/web/api/commands.go and the names of skills in pkg/models/skills/skills_x.go: the commands
-- at the start of a message.
use morign.Base.{
  ℕ, ◌≡◌, refl, Bool, true, false, ◌&&◌, ◌||◌, Option, none, some, List, [], ◌∷◌, ◌++◌, Text, codes,
  has_prefix, trim_space, is_space, if◌then◌else◌, ◌==◌, ltb, leb, length, drop, byte_len, any_by,
  arith,
}
use morign.Skills.{cut_at}

-- The message, with the fields that are read here.
pub record Incoming : Type 0 where
  pub session_key : Text
  pub message_id : Text
  pub content : Text
  pub skill_name : Text

pub data Command : Type 0 where
  reset skill : Command

-- The first byte of the rest is a space; a byte of a character beyond ASCII is none.
abbrev pub starts_apart : Text → Bool
starts_apart [] = true
starts_apart (c ∷ rest) = ltb c 0x80 && is_space c

-- isCommandMatch
unfoldable pub is_command_match : Text → Text → Bool
is_command_match content alias =
    has_prefix content alias && starts_apart (drop (length alias) content)

abbrev pub reset_aliases : List Text
reset_aliases = codes "/reset" ∷ (codes "/new" ∷ (codes "/clear" ∷ []))

-- DetectCommand, over commandRegistry.
unfoldable pub detect_command : Text → Option Command
unfolding is_command_match
detect_command content =
    let trimmed = trim_space content in
    if any_by (is_command_match trimmed) reset_aliases
    then some reset
    else if is_command_match trimmed (codes "/skill")
    then some skill
    else none

-- nameRe, with whether a word has begun.
abbrev pub is_name_letter : ℕ → Bool
is_name_letter c = (leb 0x61 c && leb c 0x7a) || (leb 0x30 c && leb c 0x39)

unfoldable pub name_from : Bool → Text → Bool
name_from begun [] = begun
name_from begun (c ∷ name) = elim (is_name_letter c) [
  | true ↦ name_from true name
  | false ↦ elim (begun && c == 0x2d) [ true ↦ name_from false name | false ↦ false ]
]

-- ValidName
unfoldable pub valid_name : Text → Bool
unfolding name_from
valid_name name = ltb 0 (byte_len name) && (leb (byte_len name) 64 && name_from false name)

-- `strings.Cut(rest, " ")`
abbrev pub cut_blank : Text → Option (Text × Text) → Text × Text
cut_blank rest none = (rest, [])
cut_blank rest (some parts) = parts

abbrev pub with_skill : Incoming → Text → Text → Incoming
with_skill msg name tail =
    if valid_name name then record msg { skill_name = name; content = trim_space tail } else msg

abbrev pub activate : Incoming → Text → Incoming
activate msg rest =
    let (name, tail) = cut_blank rest (cut_at (codes " ") rest) in
    with_skill msg (trim_space name) tail

abbrev pub after_skill : Incoming → Text → Incoming
after_skill msg rest = if starts_apart rest then activate msg (trim_space rest) else msg

-- handleSkillCommand: the message that goes on to the agent.
unfoldable pub handle_skill_command : Incoming → Incoming
unfolding valid_name cut_at
handle_skill_command msg =
    let content = trim_space msg.content in
    if has_prefix content (codes "/skill") then after_skill msg (drop 6 content) else msg

-- A name with a line break in it is not valid, so that a skill whose name a line break follows is
-- not activated, though the command is detected.
name_from_broken : (begun : Bool) (name rest : Text) → name_from begun (name ++ (10 ∷ rest)) ≡ false
unfolding name_from
name_from_broken true [] rest = refl
name_from_broken false [] rest = refl
name_from_broken begun (c ∷ name) rest =
    ground (arith, name_from_broken true name rest, name_from_broken false name rest)
