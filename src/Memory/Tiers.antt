-- ===== src/Memory/Tiers.antt =====
-- The tiers of memories only rise by being recalled.
use mathlib.Core.Path.{subst}
use morign.Base.{
  sym, ◌≡◌, refl, ℕ, ◌+◌, ◌≤◌, [], Text, codes, text_eq, text_eq_iff, if◌then◌else◌, leb, inl, inr,
  Bool-cases, arith,
}
use morign.Memory.{Memory, promote_tier}
use morign.Memory.Tools.{tier_or, recalled}

-- How long a tier lasts: TierDecayRate.
unfoldable pub tier_decay_rate : Text → ℕ
tier_decay_rate tier =
    if text_eq tier (codes "long-term")
    then 60
    else if text_eq tier (codes "short-term")
    then 7
    else 1

-- The tier of a memory that was recalled so many times.
abbrev risen : Text → ℕ → ℕ → ℕ → Text
risen tier count w2s s2l = tier_or tier (promote_tier tier count w2s s2l)

working_rises :
    (count w2s s2l : ℕ)
    → tier_decay_rate (codes "working") ≤ tier_decay_rate (risen (codes "working") count w2s s2l)
unfolding tier_decay_rate promote_tier text_eq
working_rises count w2s s2l = elim (Bool-cases (leb w2s count)) [
  | inl often ↦ rw (promote_tier, often) (omega arith)
  | inr seldom ↦ rw (promote_tier, seldom) (omega arith)
]

short_term_rises :
    (count w2s s2l : ℕ)
    → tier_decay_rate (codes "short-term")
      ≤ tier_decay_rate (risen (codes "short-term") count w2s s2l)
unfolding tier_decay_rate promote_tier text_eq
short_term_rises count w2s s2l = elim (Bool-cases (leb s2l count)) [
  | inl often ↦ rw (promote_tier, often) (omega arith)
  | inr seldom ↦ rw (promote_tier, seldom) (omega arith)
]

tier_rises :
    (tier : Text) (count w2s s2l : ℕ)
    → tier_decay_rate tier ≤ tier_decay_rate (risen tier count w2s s2l)
unfolding promote_tier
tier_rises tier count w2s s2l = elim (Bool-cases (text_eq tier (codes "working"))) [
  | inl working ↦
      let same = (text_eq_iff tier (codes "working")).0 working in
      subst (λ t. tier_decay_rate t ≤ tier_decay_rate (risen t count w2s s2l)) (sym same)
        (working_rises count w2s s2l)
  | inr not_working ↦ elim (Bool-cases (text_eq tier (codes "short-term"))) [
    | inl short ↦
        let same = (text_eq_iff tier (codes "short-term")).0 short in
        subst (λ t. tier_decay_rate t ≤ tier_decay_rate (risen t count w2s s2l)) (sym same)
          (short_term_rises count w2s s2l)
    | inr other ↦
        let stays : promote_tier tier count w2s s2l ≡ [] =
          rw (promote_tier, not_working, other) refl in
        rw (stays) (omega arith)
  ]
]

-- A recalled memory decays no faster than before.
pub recalled-le-tier_decay_rate :
    (w2s s2l : ℕ) (m : Memory) → tier_decay_rate m.tier ≤ tier_decay_rate (recalled w2s s2l m).tier
recalled-le-tier_decay_rate w2s s2l m = tier_rises m.tier (m.access_count + 1) w2s s2l
