-- ===== src/Records/Pages.antt =====
-- Reading page after page gives the whole text back, once.
use morign.Base.{
  ℤ, pos, negsuc, ◌*◌, ltb→lt, Bool-cases, inl, inr, ℕ, zero, suc, ◌+◌, ◌-◌, ◌≤◌, ◌<◌, ◌≡◌, ◌∙◌,
  refl, sym, ap, min, false, [], ◌∷◌, ◌++◌, Text, length, take, drop, arith, leb, ltb,
  if◌then◌else◌, length-take, length-drop, take-append-drop,
}
use morign.Records.{clamp_offset, clamp_limit, page}

drop_nil : (n : ℕ) → ◌≡◌ {A = Text} [] (drop n [])
drop_nil zero = refl
drop_nil (suc n) = refl

drop-drop : (a b : ℕ) (s : Text) → drop a (drop b s) ≡ drop (b + a) s
drop-drop a zero s = let e : a ≡ 0 + a = omega arith in ap (λ k. drop k s) e
drop-drop zero (suc b) [] = drop_nil _
drop-drop (suc a) (suc b) [] = drop_nil _
drop-drop a (suc b) (c ∷ s) =
    let e : suc (b + a) ≡ suc b + a = omega arith in drop-drop a b s ∙ ap (λ k. drop k (c ∷ s)) e

not_ltb : (a b : ℕ) → ltb a b ≡ false → b ≤ a
not_ltb a b e = ground arith

not_leb : (a b : ℕ) → leb a b ≡ false → b < a
not_leb a b e = ground arith

end_minus :
    (total o l : ℕ)
    → o ≤ total
    → (if ltb total (o + l) then total else o + l) - o ≡ min l (total - o)
end_minus total o l h = elim (Bool-cases (ltb total (o + l))) [
  | inl over ↦ let lt = ltb→lt total (o + l) over in rw over (omega arith)
  | inr fits ↦ let le = not_ltb total (o + l) fits in rw fits (omega arith)
]

-- A page has between 1 and 8000 characters, unless the text ends.
pub clamp_limit_range : (limit : ℤ) → (1 ≤ clamp_limit limit) × (clamp_limit limit ≤ 8000)
unfolding clamp_limit
clamp_limit_range (negsuc n) = (omega arith, omega arith)
clamp_limit_range (pos n) = elim (Bool-cases (leb n 0)) [
  | inl default ↦ rw (clamp_limit, default) (omega arith, omega arith)
  | inr given ↦ elim (Bool-cases (ltb 8000 n)) [
    | inl over ↦ rw (clamp_limit, given, over) (omega arith, omega arith)
    | inr fits ↦
        let some_left = not_leb n 0 given in
        let le = not_ltb 8000 n fits in rw (clamp_limit, given, fits) (omega arith, omega arith)
  ]
]

page_from :
    (content : Text) (o : ℕ) (limit : ℤ)
    → o ≤ length content
    → page content (pos o) limit
      ≡ take (min (clamp_limit limit) (length content - o)) (drop o content)
unfolding page clamp_offset
page_from content o limit h =
    let start : clamp_offset (pos o) (length content) ≡ o = ground arith in
    rw (page, start)
      (ap (λ k. take k (drop o content)) (end_minus (length content) o (clamp_limit limit) h))

-- The pages from an offset on, as a caller reads them who asks again at the end of each page.
abbrev pub pages : ℕ → Text → ℕ → ℤ → Text
pages zero content offset limit = []
pages (suc n) content offset limit =
    let p = page content (pos offset) limit in p ++ pages n content (offset + length p) limit

drop-length : (s : Text) → drop (length s) s ≡ []
drop-length [] = refl
drop-length (c ∷ s) = drop-length s

pages_from :
    (n : ℕ) (content : Text) (o : ℕ) (limit : ℤ)
    → o ≤ length content
    → length content ≤ o + n * clamp_limit limit
    → pages n content o limit ≡ drop o content
pages_from zero content o limit h k =
    sym (ap (λ i. drop i content) (omega arith) ∙ drop-length content)
pages_from (suc n) content o limit h k =
    let l = clamp_limit limit in
    let m = min l (length content - o) in
    let p = page_from content o limit h in
    let len : length (page content (pos o) limit) ≡ m =
      ap (λ t. length t) p
      ∙ length-take m (drop o content)
      ∙ ap (min m) (length-drop o content)
      ∙ omega arith in
    let rest : pages n content (o + m) limit ≡ drop (o + m) content =
      pages_from n content (o + m) limit (omega arith) (omega arith) in
    let next : pages n content (o + length (page content (pos o) limit)) limit
        ≡ drop m (drop o content) =
      ap (λ j. pages n content (o + j) limit) len ∙ rest ∙ sym (drop-drop m o content) in
    rw (next, p) (take-append-drop m (drop o content))

-- Reading page after page from the start, with any limit, gives the whole text and nothing twice, in
-- the number of pages of that size which the text needs.
pub pages_whole :
    (n : ℕ) (content : Text) (limit : ℤ)
    → length content ≤ n * clamp_limit limit
    → pages n content 0 limit ≡ content
pages_whole n content limit k = pages_from n content 0 limit (omega arith) (omega arith)
