-- ===== src/History/Bounds.antt =====
-- The history of a conversation stays short.
use morign.Base.{
  ℕ, ◌-◌, ◌≤◌, ◌≡◌, false, not, ◌&&◌, ◌||◌, List, [], ◌∷◌, ◌++◌, length, arith, length-append,
  Bool-cases, inl, inr, ltb,
}
use morign.History.{
  HistoryItem, Faults, init, tail, last, replaces, drop_last_same, push_item, add_history,
}

length-init : (zs : List HistoryItem) → length (init zs) ≤ length zs
length-init [] = omega arith
length-init (z ∷ []) = omega arith
length-init (z ∷ (y ∷ zs)) = omega (arith, length-init (y ∷ zs))

length-tail : (zs : List HistoryItem) → length (tail zs) ≡ length zs - 1
length-tail [] = omega arith
length-tail (z ∷ zs) = omega arith

length-drop_last_same :
    (f : Faults) (zs : List HistoryItem) (item : HistoryItem)
    → length (drop_last_same f zs item) ≤ length zs
unfolding drop_last_same
length-drop_last_same f zs item =
    elim (Bool-cases (not f.index_fails && (replaces (last zs) item && not f.rpop_fails))) [
      | inl drops ↦ rw (drop_last_same, drops) (length-init zs)
      | inr keeps ↦ rw (drop_last_same, keeps) (omega arith)
    ]

not_ltb : (a b : ℕ) → ltb a b ≡ false → b ≤ a
not_ltb a b e = ground arith

length-push_item :
    (f : Faults) (zs : List HistoryItem) (item : HistoryItem) (n : ℕ)
    → 25 ≤ n
    → length zs ≤ n
    → f.expire_fails ≡ false
    → f.lpop_fails ≡ false
    → length (push_item f zs item).0 ≤ n
unfolding push_item
length-push_item f zs item n le short expires pops =
    elim (Bool-cases (f.marshal_fails || f.rpush_fails)) [
      | inl stops ↦ rw (push_item, stops) short
      | inr goes ↦ elim (Bool-cases (ltb 25 (length (zs ++ (item ∷ []))))) [
        | inl over ↦
            rw (push_item, goes, expires, over, pops, length-tail, length-append) (omega arith)
        | inr fits ↦
            let small = not_ltb 25 (length (zs ++ (item ∷ []))) fits in
            rw (push_item, goes, expires, fits) (omega arith)
      ]
    ]

-- A history of at most `n` items, for an `n` of at least 25, still has at most `n` after an item was
-- added, whichever calls of Redis fail but the expiry and the removal of the oldest item.
pub length-add_history :
    (f : Faults) (zs : List HistoryItem) (item : HistoryItem) (n : ℕ)
    → 25 ≤ n
    → length zs ≤ n
    → f.expire_fails ≡ false
    → f.lpop_fails ≡ false
    → length (add_history f zs item).0 ≤ n
unfolding add_history
length-add_history f zs item n le short expires pops =
    let kept = length-drop_last_same f zs item in
    length-push_item f (drop_last_same f zs item) item n le (omega arith) expires pops
