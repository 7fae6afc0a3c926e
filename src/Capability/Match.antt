-- ===== src/Capability/Match.antt =====
-- pkg/services/stores/capability_x.go: the matching of capabilities for an intent
-- (InvokerForMatch) and the ranking by a model (rerankCapabilities). `Services` has what the
-- cache, the model and the decoder return, and the matches by vector; `list` is the query for a
-- list of identifiers.
use morign.Base.{
  ℕ, zero, suc, Bool, true, false, ◌&&◌, Option, none, some, List, [], ◌∷◌, map, Text, codes,
  is_empty, text_eq, has_prefix, trim_space, if◌then◌else◌, ◌==◌, ltb, length, take, get_elem?, ℤ,
  pos, negsuc, Result, ok, err, ◌>>=◌,
}
use morign.Skills.{cut_at}
use morign.Capability.{Capability}

-- rerankResult: the numbers of the relevant candidates, from 1.
abbrev pub RerankResult : Type 0
RerankResult = List ℤ

pub record Services : Type 0 where
  pub id_text : ℕ → Text
  pub cached : Text → List Text
  pub chat : Option (Text → List Capability → Result Text Text)
  pub decode : Text → Result Text RerankResult
  pub embed : Text → Result Text (List ℕ)
  pub match_vector : List ℕ → ℤ → Result Text (List ℕ)
  pub list : List ℕ → Result Text (List Capability)
  pub summary : Text → Result Text Text

pub record Settings : Type 0 where
  pub rerank_enabled : Bool
  pub rerank_recall_limit : ℤ
  pub vector_limit : ℤ
  pub vector_len : ℕ

-- rerankRebuildFromCache
unfoldable pub find_text : (ℕ → Text) → Text → List Capability → Option Capability
find_text id_text id [] = none
find_text id_text id (z ∷ candidates) =
    if text_eq (id_text z.id) id then some z else find_text id_text id candidates

abbrev pub push_found : Option Capability → List Capability → List Capability
push_found none rest = rest
push_found (some z) rest = z ∷ rest

unfoldable pub rerank_rebuild_from_cache :
    (ℕ → Text) → List Text → List Capability → List Capability
unfolding find_text
rerank_rebuild_from_cache id_text [] candidates = []
rerank_rebuild_from_cache id_text (id ∷ ids) candidates =
    push_found (find_text id_text id candidates) (rerank_rebuild_from_cache id_text ids candidates)

-- The text before the last place of a part, when there is one.
abbrev pub prefer : ℕ → Option Text → Option Text → Option Text
prefer c (some before) here = some (c ∷ before)
prefer c none here = here

unfoldable pub cut_last : Text → Text → Option Text
cut_last part [] = none
cut_last part (c ∷ s) =
    prefer c (cut_last part s) (if has_prefix (c ∷ s) part then some [] else none)

abbrev pub fence : Text
fence = codes "```"

-- Both cuts are made at a place after the first letter only.
abbrev pub after_line : Text → Option (Text × Text) → Text
after_line content none = content
after_line content (some ([], after)) = content
after_line content (some (c ∷ before, after)) = after

abbrev pub before_fence : Text → Option Text → Text
before_fence content none = content
before_fence content (some []) = content
before_fence content (some (c ∷ before)) = c ∷ before

unfoldable pub strip_fences : Text → Text
unfolding cut_at cut_last
strip_fences content =
    let inner = after_line content (cut_at (codes "\n") content) in
    if has_prefix content fence
    then trim_space (before_fence inner (cut_last fence inner))
    else content

-- The candidate of a number.
abbrev pub candidate : List Capability → ℤ → Option Capability
candidate candidates (pos zero) = none
candidate candidates (pos (suc n)) = get_elem? candidates n
candidate candidates (negsuc n) = none

unfoldable pub pick : List Capability → RerankResult → List Capability
pick candidates [] = []
pick candidates (index ∷ relevant) =
    push_found (candidate candidates index) (pick candidates relevant)

-- The ranked candidates, and the identifiers that are written to the cache, if any are.
abbrev pub Ranked : Type 0
Ranked = Result Text (List Capability) × Option (List Text)

abbrev pub after_decode : Services → List Capability → Result Text RerankResult → Ranked
after_decode x candidates (err e) = (err e, none)
after_decode x candidates (ok []) = (ok [], some [])
after_decode x candidates (ok (index ∷ relevant)) =
    let out = pick candidates (index ∷ relevant) in
    (ok out, some (map (λ (z : Capability). x.id_text z.id) out))

abbrev pub after_chat : Services → List Capability → Result Text Text → Ranked
after_chat x candidates (err e) = (err e, none)
after_chat x candidates (ok content) =
    after_decode x candidates (x.decode (strip_fences (trim_space content)))

abbrev pub ask_model :
    Services → Text → List Capability → Option (Text → List Capability → Result Text Text) → Ranked
ask_model x query candidates none = (err (codes "rerank LLM client not configured"), none)
ask_model x query candidates (some chat) = after_chat x candidates (chat query candidates)

abbrev pub or_cached : List Capability → Ranked → Ranked
or_cached [] asked = asked
or_cached (z ∷ out) asked = (ok (z ∷ out), none)

-- rerankCapabilities
unfoldable pub rerank_capabilities : Services → Text → List Capability → Ranked
unfolding rerank_rebuild_from_cache pick strip_fences
rerank_capabilities x query [] = (ok [], none)
rerank_capabilities x query (z ∷ candidates) =
    or_cached (rerank_rebuild_from_cache x.id_text (x.cached query) (z ∷ candidates))
      (ask_model x query (z ∷ candidates) x.chat)

-- setDefaults, for the limit.
abbrev pub default_limit : Settings → ℤ → ℤ
default_limit c (pos zero) = c.vector_limit
default_limit c limit = limit

-- MatchSpec
pub record MatchSpec : Type 0 where
  pub query : Text
  pub limit : ℤ
  pub skip_keywords : Bool

abbrev pub list_matches : Services → List ℕ → Result Text (List Capability)
list_matches x [] = ok []
list_matches x (id ∷ ids) = x.list (id ∷ ids)

abbrev pub by_vector : Services → Settings → ℤ → List ℕ → Result Text (List Capability)
by_vector x c limit vec =
    if length vec == c.vector_len
    then (x.match_vector vec limit >>= λ ids. list_matches x ids)
    else ok []

abbrev pub by_subject : Services → Settings → ℤ → Text → Result Text (List Capability)
by_subject x c limit subject =
    if is_empty subject then ok [] else (x.embed subject >>= λ vec. by_vector x c limit vec)

-- MatchCapabilities
unfoldable pub match_capabilities : Services → Settings → MatchSpec → Result Text (List Capability)
match_capabilities x c ms =
    (if ms.skip_keywords then ok ms.query else x.summary ms.query) >>= λ subject.
    by_subject x c (default_limit c ms.limit) subject

-- `a > b`
abbrev pub gt_int : ℤ → ℤ → Bool
gt_int (pos a) (pos b) = ltb b a
gt_int (pos a) (negsuc b) = true
gt_int (negsuc a) (pos b) = false
gt_int (negsuc a) (negsuc b) = ltb a b

-- What the tool does: a slice to a limit below zero panics.
pub data MatchOutcome : Type 0 where
  tool_error : Text → MatchOutcome
  no_match : MatchOutcome
  matches : List Capability → MatchOutcome
  panics : MatchOutcome

unfoldable pub cut_to : ℤ → List Capability → MatchOutcome
cut_to (pos limit) caps = matches (if ltb limit (length caps) then take limit caps else caps)
cut_to (negsuc n) caps = panics

abbrev pub or_original : List Capability → Result Text (List Capability) → List Capability
or_original caps (err e) = caps
or_original caps (ok []) = caps
or_original caps (ok (z ∷ reranked)) = z ∷ reranked

unfoldable pub ranked : Services → Settings → Text → ℤ → List Capability → List Capability
unfolding rerank_capabilities
ranked x c intent limit caps =
    if c.rerank_enabled && gt_int (pos (length caps)) limit
    then or_original caps (rerank_capabilities x intent caps).0
    else caps

abbrev pub after_match :
    Services → Settings → Text → ℤ → Result Text (List Capability) → MatchOutcome
after_match x c intent limit (err e) = tool_error e
after_match x c intent limit (ok []) = no_match
after_match x c intent limit (ok (z ∷ caps)) = cut_to limit (ranked x c intent limit (z ∷ caps))

-- parseMatchArgs, for the arguments when they have their types; the limit is cut to an integer.
abbrev pub limit_of : Option ℤ → ℤ
limit_of none = pos 6
limit_of (some limit) = limit

abbrev pub recall_limit : Settings → ℤ → ℤ
recall_limit c limit =
    if c.rerank_enabled && gt_int c.rerank_recall_limit limit then c.rerank_recall_limit else limit

abbrev pub match_intent : Services → Settings → Text → ℤ → MatchOutcome
match_intent x c [] limit = tool_error (codes "missing required argument: intent")
match_intent x c (d ∷ intent) limit = after_match x c (d ∷ intent) limit (
    match_capabilities x c
      (record { query = d ∷ intent; limit = recall_limit c limit; skip_keywords = true }))

-- InvokerForMatch
unfoldable pub invoker_for_match : Services → Settings → Option Text → Option ℤ → MatchOutcome
unfolding ranked cut_to match_capabilities
invoker_for_match x c none limit = tool_error (codes "missing required argument: intent")
invoker_for_match x c (some intent) limit = match_intent x c intent (limit_of limit)
