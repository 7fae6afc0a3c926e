-- ===== src/Skills/Sight.antt =====
-- Which skills a request gets to see.
use morign.Base.{
  Result-cases, arith, text_eq_iff, ◌==◌, ◌≡◌, refl, sym, ap, ◌∙◌, ℕ, Bool, true, false, ◌||◌,
  Option, none, some, List, [], ◌∷◌, Text, All, inl, inr, Bool-cases, Option-cases, if◌then◌else◌,
  Result, ok, err,
}
use mathlib.Core.Path.{subst}
use morign.Skills.{
  Context, Skill, skill_visible, skill_visible_cond, on_channel, Database, SkillError, find_name,
  if_visible, load_for_name, push_loaded, load_all, index_text, build_skill_index, resolve_names,
}

or_comm : (a b : Bool) → (a || b) ≡ (if b then true else a)
or_comm true true = refl
or_comm true false = refl
or_comm false true = refl
or_comm false false = refl

-- The condition that the database evaluates for a list of skills and the test that the program makes
-- of a single one let the same skills pass.
pub skill_visible_cond-skill_visible :
    (ctx : Context) (s : Skill) → skill_visible_cond ctx s ≡ skill_visible ctx s
unfolding skill_visible_cond skill_visible
skill_visible_cond-skill_visible ctx s = elim (Option-cases ctx.user) [
  | inl nobody ↦ rw (skill_visible_cond, skill_visible, nobody) refl
  | inr (id, login) ↦
      rw (skill_visible_cond, skill_visible, login)
        (or_comm (on_channel ctx s.channel) (s.owner == id))
]

find_name_name :
    (name : Text) (rows : List Skill) (s : Skill) → find_name name rows ≡ some s → s.name ≡ name
unfolding find_name
find_name_name name [] s h = cc
find_name_name name (r ∷ rows) s h =
    ground (arith, find_name_name name rows s, text_eq_iff r.name name)

-- The row of a name is that of its own name.
find_name_self :
    (name : Text) (rows : List Skill) (s : Skill)
    → find_name name rows ≡ some s
    → find_name s.name rows ≡ some s
unfolding find_name
find_name_self name rows s h =
    subst (λ (n : Text). find_name n rows ≡ some s) (sym (find_name_name name rows s h)) h

-- A skill that the requester may see.
abbrev pub IsVisible : Context → Skill → Type 0
IsVisible ctx s = skill_visible ctx s ≡ true

-- A row of the table, under its name, that the requester may see.
abbrev pub IsSeen : Context → List Skill → Skill → Type 0
IsSeen ctx rows s = (find_name s.name rows ≡ some s) × IsVisible ctx s

push_loaded-IsSeen :
    (ctx : Context) (rows : List Skill) (name : Text) (found : Option Skill) (rest : List Skill)
    → find_name name rows ≡ found
    → All (IsSeen ctx rows) rest
    → All (IsSeen ctx rows) (push_loaded (if_visible ctx found) rest)
unfolding if_visible
push_loaded-IsSeen ctx rows name none rest e h = h
push_loaded-IsSeen ctx rows name (some s) rest e h = elim (Bool-cases (skill_visible ctx s)) [
  | inl seen ↦ rw (if_visible, seen) ((find_name_self name rows s e, seen), h)
  | inr hidden ↦ rw (if_visible, hidden) h
]

load_all-IsSeen :
    (f : Database) (ctx : Context) (rows : List Skill) (names : List Text)
    → All (IsSeen ctx rows) (load_all f ctx rows names)
unfolding load_all load_for_name
load_all-IsSeen f ctx rows [] = tt
load_all-IsSeen f ctx rows (n ∷ names) = elim (Option-cases f.get) [
  | inr (e, bad) ↦ rw (load_all, load_for_name, bad) (load_all-IsSeen f ctx rows names)
  | inl good ↦
      rw (load_all, load_for_name, good)
        (push_loaded-IsSeen ctx rows n (find_name n rows) (load_all f ctx rows names) refl
          (load_all-IsSeen f ctx rows names))
]

abbrev text_or_blank : Result SkillError Text → Text
text_or_blank (ok t) = t
text_or_blank (err e) = []

not_both : (r : Result SkillError Text) {e : SkillError} {t : Text} → r ≡ err e → ¬ (r ≡ ok t)
not_both r e h = cc

-- Whatever names are asked for, the index of skills that goes into the prompt is made of rows of
-- the table, each the one under its name, that the requester may see, or there is an error.
pub build_skill_index-IsVisible :
    (f : Database) (ctx : Context) (rows : List Skill) (count : ℕ) (requested : List Text)
    {text : Text}
    → build_skill_index f ctx rows count requested ≡ ok text
    → (seen : List Skill) × (index_text seen ≡ text) × All (IsSeen ctx rows) seen
unfolding build_skill_index
build_skill_index-IsVisible f ctx rows count requested {text} e =
    elim (Result-cases (resolve_names f ctx rows count requested)) [
      | inl (names, found) ↦
          let same : build_skill_index f ctx rows count requested
              ≡ ok (index_text (load_all f ctx rows names)) =
            rw (build_skill_index, found) refl in
          (
            load_all f ctx rows names,
            sym (ap text_or_blank same) ∙ ap text_or_blank e,
            load_all-IsSeen f ctx rows names,
          )
      | inr (e', bad) ↦
          let same : build_skill_index f ctx rows count requested ≡ err e' =
            rw (build_skill_index, bad) refl in
          absurd (not_both (build_skill_index f ctx rows count requested) same e)
    ]
