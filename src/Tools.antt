-- ===== src/Tools.antt =====
-- pkg/services/tools/policy.go: which tools a context may use. `Folding` holds what the Unicode
-- tables of Go say of characters beyond ASCII; `strings.ToLower` and `strings.EqualFold` are here
-- on ASCII. A map is its list of entries.
pub mod Calls
pub mod Servers
pub mod Wiring
pub mod Reach
pub mod Undo
use morign.Base.{
  ℕ, ◌+◌, Bool, true, false, not, ◌&&◌, ◌||◌, Option, none, some, List, [], ◌∷◌, ◌++◌, Text, map,
  leb, ltb, ◌==◌, if◌then◌else◌, text_eq, lookup, insert, contains, Result,
}
use morign.Llm.Objects.{Fields}

pub record Folding : Type 0 where
  pub lower_beyond : ℕ → ℕ
  pub fold_beyond : ℕ → ℕ → Bool

abbrev pub lower_rune : Folding → ℕ → ℕ
lower_rune u c =
    if ltb c 128 then (if leb 65 c && leb c 90 then c + 32 else c) else u.lower_beyond c

-- `strings.ToLower`
unfoldable pub to_lower : Folding → Text → Text
to_lower u s = map (lower_rune u) s

abbrev pub fold_rune : Folding → ℕ → ℕ → Bool
fold_rune u c d =
    c == d
    || (if ltb c 128 && ltb d 128 then lower_rune u c == lower_rune u d else u.fold_beyond c d)

-- `strings.EqualFold`
unfoldable pub equal_fold : Folding → Text → Text → Bool
equal_fold u [] [] = true
equal_fold u [] (d ∷ t) = false
equal_fold u (c ∷ s) [] = false
equal_fold u (c ∷ s) (d ∷ t) = fold_rune u c d && equal_fold u s t

-- SourceBuiltinPublic, SourceBuiltinKeeper, SourceMCPGlobal, SourceMCPChannel
pub data ToolSource : Type 0 where
  builtin_public builtin_keeper mcp_global mcp_channel : ToolSource

-- ToolDescriptor
pub record ToolDescriptor : Type 0 where
  pub name : Text
  pub description : Text
  pub input_schema : Fields

-- What the context of a request says: whether the caller is a keeper, and the channel ("" if none).
pub record Context : Type 0 where
  pub keeper : Bool
  pub channel : Text

-- Invoker
abbrev pub Invoker : Type 0
Invoker = Context → Fields → Result Text (Option Fields)

-- MCPConnection, without its client.
pub record Connection : Type 0 where
  pub name : Text
  pub url : Text
  pub tool_names : List Text

-- channelToolSet
pub record ToolSet : Type 0 where
  pub tools : List ToolDescriptor
  pub invokers : List (Text × Invoker)
  pub servers : List (Text × Connection)

-- Registry
pub record Registry : Type 0 where
  pub tools : List ToolDescriptor
  pub invokers : List (Text × Invoker)
  pub categories : List (Text × ToolSource)
  pub priv_tools : List ToolDescriptor
  pub servers : List (Text × Connection)
  pub channel_tools : List (Text × ToolSet)

-- EffectiveToolPolicy
pub record Policy : Type 0 where
  pub keeper : Bool
  pub channel : Text
  pub registered : List Text
  pub categories : List (Text × ToolSource)
  pub channel_owners : List (Text × Text)

abbrev pub invoker_names : List (Text × Invoker) → List Text
invoker_names [] = []
invoker_names ((k, inv) ∷ m) = k ∷ invoker_names m

abbrev pub tool_names : List ToolDescriptor → List Text
tool_names [] = []
tool_names (t ∷ ts) = t.name ∷ tool_names ts

-- One of the two inner loops over a channel's tools.
unfoldable pub put_owner : Folding → Text → List Text → List (Text × Text) → List (Text × Text)
put_owner u ch [] owners = owners
put_owner u ch (n ∷ ns) owners = put_owner u ch ns (insert (to_lower u n) ch owners)

-- The loop over the channels.
unfoldable pub put_owners :
    Folding → List (Text × ToolSet) → List (Text × Text) → List (Text × Text)
put_owners u [] owners = owners
put_owners u ((ch, cs) ∷ sets) owners =
    put_owners u sets
      (put_owner u ch (tool_names cs.tools) (put_owner u ch (invoker_names cs.invokers) owners))

-- PolicyFor
unfoldable pub policy_for : Folding → Registry → Context → Policy
unfolding put_owners put_owner to_lower
policy_for u r ctx = record {
  keeper = ctx.keeper;
  channel = ctx.channel;
  registered = map (to_lower u) (invoker_names r.invokers ++ tool_names r.tools);
  categories = r.categories;
  channel_owners = put_owners u r.channel_tools [];
}

-- Source; `none` is the empty text.
unfoldable pub source : Folding → Policy → Text → Option ToolSource
source u p name = elim (lookup (to_lower u name) p.categories) [
  | some src ↦ some src
  | none ↦ elim (lookup (to_lower u name) p.channel_owners) [
    | some ch ↦ some mcp_channel
    | none ↦ none
  ]
]

-- Registered
unfoldable pub registered : Folding → Policy → Text → Bool
registered u p name =
    contains p.registered (to_lower u name)
    || elim (lookup (to_lower u name) p.channel_owners) [ some ch ↦ true | none ↦ false ]

-- `m[key]` on a map of strings: the empty text where the key is missing.
abbrev pub or_blank : Option Text → Text
or_blank none = []
or_blank (some t) = t

unfoldable pub allows_source : Folding → Policy → Text → Option ToolSource → Bool
allows_source u p name (some builtin_public) = true
allows_source u p name (some mcp_global) = true
allows_source u p name (some builtin_keeper) = p.keeper
allows_source u p name (some mcp_channel) =
    text_eq (or_blank (lookup (to_lower u name) p.channel_owners)) p.channel
allows_source u p name none = false

-- Allows
unfoldable pub allows : Folding → Policy → Text → Bool
unfolding allows_source source
allows u p name = allows_source u p name (source u p name)
