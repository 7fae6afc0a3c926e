-- ===== src/Provider.antt =====
-- pkg/services/llm: the clients of the model providers. The HTTP exchange is given by what it
-- returns. A provider's stream yields to its caller; `accept n` says whether the caller's loop
-- goes on after the n-th value.
pub mod Ends
pub mod Anthropic
pub mod OpenAi
use morign.Base.{
  ◌&&◌, ◌||◌, ℕ, Bool, true, false, not, Option, none, some, List, [], ◌∷◌, ◌++◌, Text, codes,
  is_empty, text_eq, if◌then◌else◌, has_prefix, trim_space, ◌==◌,
}
use morign.Llm.{Event, Usage}

-- `strings.HasSuffix`
unfoldable pub has_suffix : Text → Text → Bool
has_suffix [] p = is_empty p
has_suffix (c ∷ s) p = text_eq (c ∷ s) p || has_suffix s p

-- `strings.TrimRight(s, "/")`
unfoldable pub trim_slashes : Text → Text
trim_slashes [] = []
trim_slashes (c ∷ s) =
    let rest = trim_slashes s in if c == 0x2f && is_empty rest then [] else c ∷ rest

-- What the end of a stream of lines is: the end of the file, or an error of the reader.
pub data ReadEnd : Type 0 where
  eof : ReadEnd
  broken : Text → ReadEnd

-- The adapter that StreamChat passes on: it names the author.
abbrev pub authored : Event → Event
authored ev = record ev { author = codes "assistant" }
