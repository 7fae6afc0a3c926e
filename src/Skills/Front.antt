-- ===== src/Skills/Front.antt =====
-- The frontmatter of a skill is found where it was written.
use morign.Base.{
  ◌≡◌, refl, ap, ℕ, true, false, some, [], ◌∷◌, ◌++◌, Text, codes, length, drop, has_prefix, arith,
}
use morign.Skills.{prepend, cut_at, closing, cut_frontmatter}

-- No place of the text before its end begins the part, when the part and more follow.
abbrev pub NotBefore : Text → Text → Text → Type 0
NotBefore part [] after = Unit
NotBefore part (c ∷ s) after =
    (has_prefix (c ∷ (s ++ part ++ after)) part ≡ false) × NotBefore part s after

has_prefix-append : (p s : Text) → has_prefix (p ++ s) p ≡ true
unfolding has_prefix
has_prefix-append [] s = refl
has_prefix-append (c ∷ p) s = ground (arith, has_prefix-append p s)

drop-length-append : (p s : Text) → drop (length p) (p ++ s) ≡ s
drop-length-append [] s = refl
drop-length-append (c ∷ p) s = drop-length-append p s

cut_at-append :
    (d : ℕ) (part s after : Text)
    → NotBefore (d ∷ part) s after
    → cut_at (d ∷ part) (s ++ (d ∷ part) ++ after) ≡ some (s, after)
unfolding cut_at
cut_at-append d part [] after h =
    rw (cut_at, has_prefix-append (d ∷ part) after, drop-length-append part after) refl
cut_at-append d part (c ∷ s) after h =
    rw (cut_at, h.0) (ap (prepend c) (cut_at-append d part s after h.1))

-- A text that is written as frontmatter between its two lines, and a body after it, is read as that
-- frontmatter and that body, when no line of the frontmatter begins like the closing one.
pub cut_frontmatter-append :
    (yaml body : Text)
    → NotBefore closing yaml body
    → cut_frontmatter (codes "---\n" ++ (yaml ++ closing ++ body)) ≡ some (yaml, body)
unfolding cut_frontmatter cut_at has_prefix
cut_frontmatter-append yaml body h = cut_at-append 10 (codes "---") yaml body h
