-- ===== src/History/Repeats.antt =====
-- No two neighbours of a history have the same user text.
use morign.Base.{
  ◌≡◌, refl, Bool, true, false, ◌||◌, Option, none, some, List, [], ◌∷◌, ◌++◌, length, Bool-cases,
  inl, inr, if◌then◌else◌, ltb, text_eq_iff,
}
use morign.History.{
  HistoryItem, HistoryChatItem, Faults, init, tail, last, same_chat, same_user, replaces,
  drop_last_same, push_item, add_history,
}

-- Neighbours differ in their user text, or one of them has no chat item.
abbrev pub NoRepeat : List HistoryItem → Type 0
NoRepeat [] = Unit
NoRepeat (z ∷ []) = Unit
NoRepeat (z ∷ (y ∷ zs)) = (same_user z y ≡ false) × NoRepeat (y ∷ zs)

NoRepeat-tail : (zs : List HistoryItem) → NoRepeat zs → NoRepeat (tail zs)
NoRepeat-tail [] h = tt
NoRepeat-tail (z ∷ []) h = tt
NoRepeat-tail (z ∷ (y ∷ zs)) h = h.1

NoRepeat-push :
    (zs : List HistoryItem) (item : HistoryItem)
    → NoRepeat zs
    → replaces (last zs) item ≡ false
    → NoRepeat (zs ++ (item ∷ []))
NoRepeat-push [] item h e = tt
NoRepeat-push (z ∷ []) item h e = (e, tt)
NoRepeat-push (z ∷ (y ∷ zs)) item h e = (h.0, NoRepeat-push (y ∷ zs) item h.1 e)

NoRepeat-init : (zs : List HistoryItem) → NoRepeat zs → NoRepeat (init zs)
NoRepeat-init [] h = tt
NoRepeat-init (z ∷ []) h = tt
NoRepeat-init (z ∷ (y ∷ [])) h = tt
NoRepeat-init (z ∷ (y ∷ (x ∷ zs))) h = (h.0, NoRepeat-init (y ∷ (x ∷ zs)) h.1)

same_chat_trans :
    (a b c : Option HistoryChatItem)
    → same_chat a b ≡ false
    → same_chat b c ≡ true
    → same_chat a c ≡ false
same_chat_trans none b c h k = refl
same_chat_trans (some a) none c h k = cc
same_chat_trans (some a) (some b) none h k = refl
same_chat_trans (some a) (some b) (some c) h k =
    let e = (text_eq_iff b.user c.user).0 k in cc (h, e)

-- The item before one with the user text of `item` has another user text.
before_same :
    (zs : List HistoryItem) (item : HistoryItem)
    → NoRepeat zs
    → replaces (last zs) item ≡ true
    → replaces (last (init zs)) item ≡ false
before_same [] item h e = cc
before_same (z ∷ []) item h e = refl
before_same (z ∷ (y ∷ [])) item h e = same_chat_trans z.chat_item y.chat_item item.chat_item h.0 e
before_same (z ∷ (y ∷ (x ∷ zs))) item h e = before_same (y ∷ (x ∷ zs)) item h.1 e

dropped :
    (f : Faults) (zs : List HistoryItem) (item : HistoryItem)
    → f.index_fails ≡ false
    → f.rpop_fails ≡ false
    → NoRepeat zs
    → NoRepeat (drop_last_same f zs item)
      × (replaces (last (drop_last_same f zs item)) item ≡ false)
unfolding drop_last_same
dropped f zs item reads pops h = elim (Bool-cases (replaces (last zs) item)) [
  | inl same ↦
      rw (drop_last_same, reads, pops, same) (NoRepeat-init zs h, before_same zs item h same)
  | inr other ↦ rw (drop_last_same, reads, pops, other) (h, other)
]

push_cases :
    (stops expires over pops : Bool) (zs all : List HistoryItem)
    → NoRepeat zs
    → NoRepeat all
    → let r : List HistoryItem × Bool =
        if stops
        then (zs, false)
        else if expires
        then (all, false)
        else if over
        then (if pops then (all, false) else (tail all, true))
        else (all, true) in
      NoRepeat r.0
push_cases true expires over pops zs all h k = h
push_cases false true over pops zs all h k = k
push_cases false false true true zs all h k = k
push_cases false false true false zs all h k = NoRepeat-tail all k
push_cases false false false pops zs all h k = k

pushed :
    (f : Faults) (zs : List HistoryItem) (item : HistoryItem)
    → NoRepeat zs
    → NoRepeat (zs ++ (item ∷ []))
    → NoRepeat (push_item f zs item).0
unfolding push_item
pushed f zs item h k =
    push_cases (f.marshal_fails || f.rpush_fails) f.expire_fails
      (ltb 25 (length (zs ++ (item ∷ [])))) f.lpop_fails zs (zs ++ (item ∷ [])) h k

-- Adding an item keeps the neighbours of a history different, unless Redis fails to read or to
-- remove the last item.
pub add_history-NoRepeat :
    (f : Faults) (zs : List HistoryItem) (item : HistoryItem)
    → f.index_fails ≡ false
    → f.rpop_fails ≡ false
    → NoRepeat zs
    → NoRepeat (add_history f zs item).0
unfolding add_history
add_history-NoRepeat f zs item reads pops h =
    let (kept, other) = dropped f zs item reads pops h in
    pushed f (drop_last_same f zs item) item kept
      (NoRepeat-push (drop_last_same f zs item) item kept other)
