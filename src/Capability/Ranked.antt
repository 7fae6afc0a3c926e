-- ===== src/Capability/Ranked.antt =====
-- What the match tool of pkg/services/stores/capability_x.go returns.
use mathlib.Core.Path.{subst}
use morign.Base.{
  ℕ, zero, suc, ◌≤◌, ◌≡◌, refl, true, false, Option, none, some, List, [], ◌∷◌, Text, All, length,
  take, get_elem?, ltb, ℤ, pos, negsuc, Result, ok, err, arith, Bool-cases, inl, inr, text_eq,
  is_empty, ◌&&◌,
}
use morign.Capability.{Capability}
use morign.Capability.Match.{
  Services, Settings, MatchOutcome, matches, panics, find_text, push_found,
  rerank_rebuild_from_cache, candidate, pick, after_decode, after_chat, ask_model, or_cached,
  rerank_capabilities, or_original, ranked, cut_to, match_capabilities, recall_limit, limit_of,
  invoker_for_match, gt_int, Ranked,
}

module _ (P : Capability → Type 0) where
  push_found-All :
      (z : Option Capability) (rest : List Capability)
      → ((r : Capability) → z ≡ some r → P r)
      → All P rest
      → All P (push_found z rest)
  push_found-All none rest h k = k
  push_found-All (some z) rest h k = (h z refl, k)

  find_text-All :
      (id_text : ℕ → Text) (id : Text) (caps : List Capability)
      → All P caps
      → (r : Capability) → find_text id_text id caps ≡ some r
      → P r
  unfolding find_text
  find_text-All id_text id [] h r e = cc
  find_text-All id_text id (z ∷ caps) h r e = elim (Bool-cases (text_eq (id_text z.id) id)) [
    | inl same ↦ let e' = rw same at e in subst P (cc) h.0
    | inr other ↦ find_text-All id_text id caps h.1 r (rw other at e)
  ]

  rebuild-All :
      (id_text : ℕ → Text) (ids : List Text) (caps : List Capability)
      → All P caps
      → All P (rerank_rebuild_from_cache id_text ids caps)
  unfolding rerank_rebuild_from_cache
  rebuild-All id_text [] caps h = tt
  rebuild-All id_text (id ∷ ids) caps h =
      push_found-All (find_text id_text id caps) _ (find_text-All id_text id caps h)
        (rebuild-All id_text ids caps h)

  get_elem?-All :
      (caps : List Capability) (n : ℕ)
      → All P caps
      → (r : Capability) → get_elem? caps n ≡ some r
      → P r
  get_elem?-All [] n h r e = cc
  get_elem?-All (z ∷ caps) zero h r e = subst P (cc) h.0
  get_elem?-All (z ∷ caps) (suc n) h r e = get_elem?-All caps n h.1 r e

  candidate-All :
      (caps : List Capability) (index : ℤ)
      → All P caps
      → (r : Capability) → candidate caps index ≡ some r
      → P r
  candidate-All caps (pos zero) h r e = cc
  candidate-All caps (pos (suc n)) h r e = get_elem?-All caps n h r e
  candidate-All caps (negsuc n) h r e = cc

  pick-All : (caps : List Capability) (relevant : List ℤ) → All P caps → All P (pick caps relevant)
  unfolding pick
  pick-All caps [] h = tt
  pick-All caps (index ∷ relevant) h =
      push_found-All (candidate caps index) _ (candidate-All caps index h)
        (pick-All caps relevant h)

  -- The ranking of candidates, or an error.
  abbrev AllRanked : Ranked → Type 0
  AllRanked (err e, ids) = Unit
  AllRanked (ok out, ids) = All P out

  after_decode-All :
      (x : Services) (caps : List Capability) (r : Result Text (List ℤ))
      → All P caps
      → AllRanked (after_decode x caps r)
  after_decode-All x caps (err e) h = tt
  after_decode-All x caps (ok []) h = tt
  after_decode-All x caps (ok (index ∷ relevant)) h = pick-All caps (index ∷ relevant) h

  after_chat-All :
      (x : Services) (caps : List Capability) (r : Result Text Text)
      → All P caps
      → AllRanked (after_chat x caps r)
  after_chat-All x caps (err e) h = tt
  after_chat-All x caps (ok content) h = after_decode-All x caps _ h

  ask_model-All :
      (x : Services) (query : Text) (caps : List Capability)
      (chat : Option (Text → List Capability → Result Text Text))
      → All P caps
      → AllRanked (ask_model x query caps chat)
  ask_model-All x query caps none h = tt
  ask_model-All x query caps (some chat) h = after_chat-All x caps (chat query caps) h

  or_cached-All :
      (out : List Capability) (r : Ranked) → All P out → AllRanked r → AllRanked (or_cached out r)
  or_cached-All [] r h k = k
  or_cached-All (z ∷ out) r h k = h

  rerank_capabilities-All :
      (x : Services) (query : Text) (caps : List Capability)
      → All P caps
      → AllRanked (rerank_capabilities x query caps)
  unfolding rerank_capabilities
  rerank_capabilities-All x query [] h = tt
  rerank_capabilities-All x query (z ∷ caps) h =
      or_cached-All _ _ (rebuild-All x.id_text (x.cached query) (z ∷ caps) h)
        (ask_model-All x query (z ∷ caps) x.chat h)

  or_original-All :
      (caps : List Capability) (r : Ranked)
      → All P caps
      → AllRanked r
      → All P (or_original caps r.0)
  or_original-All caps (err e, ids) h k = h
  or_original-All caps (ok [], ids) h k = h
  or_original-All caps (ok (z ∷ out), ids) h k = k

  ranked-All :
      (x : Services) (c : Settings) (intent : Text) (limit : ℤ) (caps : List Capability)
      → All P caps
      → All P (ranked x c intent limit caps)
  unfolding ranked
  ranked-All x c intent limit caps h =
      elim (Bool-cases (c.rerank_enabled && gt_int (pos (length caps)) limit)) [
        | inl asked ↦ rw asked (
            or_original-All caps (rerank_capabilities x intent caps) h
              (rerank_capabilities-All x intent caps h))
        | inr kept ↦ rw kept h
      ]

  take-All : (n : ℕ) (caps : List Capability) → All P caps → All P (take n caps)
  take-All zero caps h = tt
  take-All (suc n) [] h = tt
  take-All (suc n) (z ∷ caps) h = (h.0, take-All n caps h.1)

length-take-le : (n : ℕ) (caps : List Capability) → length (take n caps) ≤ n
length-take-le zero caps = omega arith
length-take-le (suc n) [] = omega arith
length-take-le (suc n) (z ∷ caps) = omega (arith, length-take-le n caps)

-- At most as many as the limit, and each with the property.
abbrev pub IsCut : (Capability → Type 0) → ℤ → MatchOutcome → Type 0
IsCut P (pos limit) (matches caps) = (length caps ≤ limit) × All P caps
IsCut P (pos limit) _ = ⊥
IsCut P (negsuc n) outcome = outcome ≡ panics

cut_to-IsCut :
    (P : Capability → Type 0) (limit : ℤ) (caps : List Capability)
    → All P caps
    → IsCut P limit (cut_to limit caps)
unfolding cut_to
cut_to-IsCut P (negsuc n) caps h = refl
cut_to-IsCut P (pos limit) caps h = elim (Bool-cases (ltb limit (length caps))) [
  | inl long ↦ rw long (length-take-le limit caps, take-All P limit caps h)
  | inr short ↦ rw short (ground arith, h)
]

-- When the matching of an intent gives some capabilities, whatever the cache, the model and the
-- decoder do: for a limit that is not below zero, the tool returns at most as many as the limit,
-- and all of them are among those that were matched (they have each property that all of these
-- have); for a limit below zero it panics.
pub invoker_for_match-IsCut :
    (P : Capability → Type 0) (x : Services) (c : Settings) (intent : Text) (limit : Option ℤ)
    (z : Capability) (caps : List Capability)
    → is_empty intent ≡ false
    → match_capabilities x c
        (record { query = intent; limit = recall_limit c (limit_of limit); skip_keywords = true })
      ≡ ok (z ∷ caps)
    → All P (z ∷ caps)
    → IsCut P (limit_of limit) (invoker_for_match x c (some intent) limit)
unfolding invoker_for_match
invoker_for_match-IsCut P x c [] limit z caps named found h = cc
invoker_for_match-IsCut P x c (d ∷ intent) limit z caps named found h = rw found (
    cut_to-IsCut P (limit_of limit) (ranked x c (d ∷ intent) (limit_of limit) (z ∷ caps))
      (ranked-All P x c (d ∷ intent) (limit_of limit) (z ∷ caps) h))
