-- ===== src/Web/Identity.antt =====
-- The keys of pkg/web/api/handle_turn.go: which requests have the same one.
use morign.Base.{
  ℕ, zero, suc, ◌≡◌, ◌≢◌, ◌⊎◌, inl, inr, Bool-cases, text_eq, text_eq_iff, refl, sym, ap, ◌∙◌,
  false, [], ◌∷◌, ◌++◌, Text, All, codes, length, length-append, join, arith,
}
use morign.Web.Chat.{
  ChatRequest, Codec, web_turn_key, request_digest, turn_digest, join_parts, get_conversion_id,
  owner_part,
}
use mathlib.Core.List.{append_assoc}

-- What is relied on of SHA-256 and of the identifiers: the digests have 64 characters, and no two
-- owners have the same text, nor that of a visitor without an owner.
pub record IsCodec (x : Codec) : Type 0 where
  pub sha_length : (a : Text) → length (x.sha a) ≡ 64
  pub owner_inj : (a b : ℕ) → x.owner_text a ≡ x.owner_text b → a ≡ b
  pub owner_named : (a : ℕ) → x.owner_text a ≢ codes "anon:"

-- Two texts that differ have the same digest.
abbrev pub Collide : Codec → Text → Text → Type 0
Collide x a b = (a ≢ b) × (x.sha a ≡ x.sha b)

-- The same digest is that of one text, or a collision.
digest_cases : (x : Codec) (a b : Text) → x.sha a ≡ x.sha b → Collide x a b ⊎ (a ≡ b)
digest_cases x a b e = elim (Bool-cases (text_eq a b)) [
  | inl same ↦ inr ((text_eq_iff a b).0 same)
  | inr other ↦ inl ((λ s. cc (other, (text_eq_iff a b).1 s)), e)
]

abbrev pub NoNul : Text → Type 0
NoNul = All (λ c. c ≢ 0)

-- Texts without a zero end where the first zero stands.
cut_nul :
    (a b rest rest' : Text)
    → NoNul a
    → NoNul b
    → a ++ (0 ∷ rest) ≡ b ++ (0 ∷ rest')
    → (a ≡ b) × (rest ≡ rest')
cut_nul [] [] rest rest' h k e = (refl, cc)
cut_nul [] (c ∷ b) rest rest' h k e = absurd (k.0 (cc))
cut_nul (c ∷ a) [] rest rest' h k e = absurd (h.0 (cc))
cut_nul (c ∷ a) (d ∷ b) rest rest' h k e =
    let tails = cut_nul a b rest rest' h.1 k.1 (cc) in let heads : c ≡ d = cc in (cc, tails.1)

-- Texts with ends of the same length.
append_inj : (a b d e : Text) → length d ≡ length e → a ++ d ≡ b ++ e → (a ≡ b) × (d ≡ e)
append_inj [] [] d e l h = (refl, h)
append_inj [] (c ∷ b) d e l h = absurd (omega (arith, ap (length {0}) h, length-append {0} b e))
append_inj (c ∷ a) [] d e l h = absurd (omega (arith, ap (length {0}) h, length-append {0} a d))
append_inj (c ∷ a) (c' ∷ b) d e l h =
    let rest = append_inj a b d e l (cc) in let heads : c ≡ c' = cc in (cc, rest.1)

owner_part_inj : (x : Codec) → IsCodec x → (a b : ℕ) → owner_part x a ≡ owner_part x b → a ≡ b
owner_part_inj x h zero zero e = refl
owner_part_inj x h zero (suc b) e = absurd (h.owner_named (suc b) (sym e))
owner_part_inj x h (suc a) zero e = absurd (h.owner_named (suc a) e)
owner_part_inj x h (suc a) (suc b) e = h.owner_inj (suc a) (suc b) e

-- The text of the digest, and that of the key, from its owner on.
abbrev pub digested : ChatRequest → Text
digested param = join_parts (
    param.prompt
    ∷ (get_conversion_id param
        ∷ (join (codes ",") param.skills ∷ (join (codes ",") param.mcps ∷ []))))

digested_inj :
    (param param' : ChatRequest)
    → NoNul param.prompt
    → NoNul param'.prompt
    → NoNul (get_conversion_id param)
    → NoNul (get_conversion_id param')
    → digested param ≡ digested param'
    → (param.prompt ≡ param'.prompt) × (get_conversion_id param ≡ get_conversion_id param')
unfolding join_parts
digested_inj param param' p p' c c' e =
    let first = cut_nul param.prompt param'.prompt _ _ p p' e in
    let second = cut_nul (get_conversion_id param) (get_conversion_id param') _ _ c c' first.1 in
    (first.0, second.0)

abbrev before_digest : Codec → ℕ → ChatRequest → Text
before_digest x owner param = owner_part x owner ++ (get_conversion_id param ++ param.prompt)

key_text :
    (x : Codec) (owner : ℕ) (param : ChatRequest)
    → (web_turn_key x owner param false).0
      ≡ codes "web:" ++ x.sha (before_digest x owner param ++ request_digest x param)
unfolding web_turn_key
key_text x owner param = ap (λ (t : Text). codes "web:" ++ x.sha t) (simp (append_assoc))

-- The text that the key is the digest of.
abbrev pub keyed : Codec → ℕ → ChatRequest → Text
keyed x owner param = before_digest x owner param ++ request_digest x param

same_digests :
    (x : Codec) (owner owner' : ℕ) (param param' : ChatRequest)
    → IsCodec x
    → NoNul param.prompt
    → NoNul param'.prompt
    → NoNul (get_conversion_id param)
    → NoNul (get_conversion_id param')
    → before_digest x owner param ≡ before_digest x owner' param'
    → digested param ++ (0 ∷ []) ≡ digested param' ++ (0 ∷ [])
    → (owner ≡ owner')
      × (get_conversion_id param ≡ get_conversion_id param')
      × (param.prompt ≡ param'.prompt)
same_digests x owner owner' param param' h p p' c c' e d =
    let same =
      digested_inj param param' p p' c c'
        (append_inj (digested param) (digested param') (0 ∷ []) (0 ∷ []) refl d).0 in
    let owners =
      append_inj (owner_part x owner) (owner_part x owner') _ _ (rw (same.1, same.0) refl) e in
    (owner_part_inj x h owner owner' owners.0, same.1, same.0)

-- If two requests that are no retries, and have no zero character in their prompts and conversation
-- identifiers, get the same key, then they are of the same owner, in the same conversation, and of
-- the same prompt, or SHA-256 has a collision: between the texts that the two keys are made of, or
-- between those of the two request digests.
pub web_turn_key_inj :
    (x : Codec)
    → IsCodec x
    → (owner owner' : ℕ) (param param' : ChatRequest) → NoNul param.prompt
    → NoNul param'.prompt
    → NoNul (get_conversion_id param)
    → NoNul (get_conversion_id param')
    → (web_turn_key x owner param false).0 ≡ (web_turn_key x owner' param' false).0
    → Collide x (keyed x owner param) (keyed x owner' param')
      ⊎ (Collide x (digested param ++ (0 ∷ [])) (digested param' ++ (0 ∷ []))
          ⊎ ((owner ≡ owner')
              × (get_conversion_id param ≡ get_conversion_id param')
              × (param.prompt ≡ param'.prompt)))
unfolding request_digest turn_digest
web_turn_key_inj x h owner owner' param param' p p' c c' e =
    let keys = sym (key_text x owner param) ∙ (e ∙ key_text x owner' param') in
    elim (digest_cases x (keyed x owner param) (keyed x owner' param') (cc keys)) [
      | inl collision ↦ inl collision
      | inr texts ↦
          let parts =
            append_inj (before_digest x owner param) (before_digest x owner' param') _ _
              (h.sha_length _ ∙ sym (h.sha_length _)) texts in
          elim (digest_cases x (digested param ++ (0 ∷ [])) (digested param' ++ (0 ∷ [])) parts.1) [
            | inl collision ↦ inr (inl collision)
            | inr digests ↦
                inr (inr (same_digests x owner owner' param param' h p p' c c' parts.0 digests))
          ]
    ]
