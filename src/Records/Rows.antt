-- ===== src/Records/Rows.antt =====
-- A handle leads to the full text that was written under it, and to the caller's own rows only.
use morign.Base.{
  ℤ, ℕ, ◌+◌, ◌<◌, ◌≡◌, ◌⊎◌, refl, ap, ◌&&◌, Option, some, List, [], ◌∷◌, Text, map, arith, ◌==◌,
  length, ok, Bool-cases, Option-cases, inl, inr,
}
use mathlib.Core.Path.{subst}
use morign.Agent.ToolCalls.{ToolRecordSpill}
use morign.Records.{
  Context, ToolRecord, Table, Faults, no_faults, Scope, tool_scope, tool_record, create_tool_record,
  spill_tool_result, find_tool_record, set_outcome, upsert_in, upsert_tool_record, page, find_owned,
  read_tool_record,
}

abbrev pub IsRow : ToolRecord → List ToolRecord → Type 0
IsRow r [] = ⊥
IsRow r (q ∷ qs) = (q ≡ r) ⊎ IsRow r qs

find_owned_own :
    (id : ℕ) (scope : Scope) (rows : List ToolRecord) (r : ToolRecord)
    → find_owned id scope rows ≡ some r
    → IsRow r rows × (r.session_id ≡ scope.session_id) × (r.owner_id ≡ scope.owner_id)
unfolding find_owned
find_owned_own id scope [] r e = cc
find_owned_own id scope (q ∷ qs) r e =
    elim (Bool-cases
      (q.id == id && (q.session_id == scope.session_id && q.owner_id == scope.owner_id))) [
        | inl own ↦
            let same : q ≡ r = ground arith in
            subst
              (λ (x : ToolRecord).
                IsRow x (q ∷ qs)
                × (x.session_id ≡ scope.session_id)
                × (x.owner_id ≡ scope.owner_id))
              same (inl refl, ground arith, ground arith)
        | inr other ↦
            let (row, session, owner) = find_owned_own id scope qs r (ground arith) in
            (inr row, session, owner)
      ]

-- Whatever handle is given: a text that is read is a page of a row of the table, and that row is of
-- the caller's session and of the caller.
pub read_tool_record_own :
    (f : Faults) (t : Table) (ctx : Context) (handle : Option ℕ) (offset limit : ℤ) (text : Text)
    (total : ℕ)
    → read_tool_record f t ctx handle offset limit ≡ ok (text, total)
    → (scope : Scope) × (r : ToolRecord) × (tool_scope ctx ≡ some scope)
      × IsRow r t.rows
      × (r.session_id ≡ scope.session_id)
      × (r.owner_id ≡ scope.owner_id)
      × (text ≡ page r.content offset limit)
unfolding read_tool_record
read_tool_record_own f t ctx handle offset limit text total e =
    elim (Option-cases (tool_scope ctx)) [
      | inl none_set ↦ absurd (ground arith)
      | inr (scope, known) ↦ elim (Option-cases handle) [
        | inl blank ↦ absurd (ground arith)
        | inr (id, given) ↦ elim (Option-cases (find_owned id scope t.rows)) [
          | inl gone ↦ absurd (ground arith)
          | inr (r, found) ↦
              let (row, session, owner) = find_owned_own id scope t.rows r found in
              (scope, r, known, row, session, owner, ground arith)
        ]
      ]
    ]

find_owned-set_outcome :
    (id k : ℕ) (scope : Scope) (s : ToolRecordSpill) (rows : List ToolRecord) (r : ToolRecord)
    → find_owned id scope rows ≡ some r
    → find_owned id scope (map (set_outcome k s) rows) ≡ some (set_outcome k s r)
unfolding find_owned
find_owned-set_outcome id k scope s [] r e = cc
find_owned-set_outcome id k scope s (q ∷ qs) r e =
    ground (arith, find_owned-set_outcome id k scope s qs r)

-- The row of a number below the next one keeps its text, whatever another call writes.
upsert_keeps :
    (f : Faults) (t : Table) (ctx : Context) (s : ToolRecordSpill) (id : ℕ) (scope : Scope)
    (r : ToolRecord)
    → id < t.next_id
    → find_owned id scope t.rows ≡ some r
    → (r' : ToolRecord) × (find_owned id scope (upsert_tool_record f t ctx s).0.rows ≡ some r')
      × (r'.content ≡ r.content)
unfolding upsert_tool_record upsert_in create_tool_record tool_record find_owned
upsert_keeps f t ctx s id scope r old found = elim (Option-cases (tool_scope ctx)) [
  | inl none_set ↦ rw (upsert_tool_record, none_set) (r, found, refl)
  | inr (own, known) ↦ elim (Option-cases f.find) [
    | inr (e, fails) ↦ rw (upsert_tool_record, known, upsert_in, fails) (r, found, refl)
    | inl reads ↦ elim (Option-cases (find_tool_record own.turn_id s.call_id t.rows)) [
      | inr (x, exists) ↦ elim (Option-cases f.update) [
        | inr (e, fails) ↦
            rw (upsert_tool_record, known, upsert_in, reads, exists, fails) (r, found, refl)
        | inl writes ↦
            rw (upsert_tool_record, known, upsert_in, reads, exists, writes)
              (
                set_outcome x.id s r,
                find_owned-set_outcome id x.id scope s t.rows r found,
                ground arith,
              )
      ]
      | inl new ↦ elim (Option-cases f.create) [
        | inr (e, fails) ↦
            rw (upsert_tool_record, known, upsert_in, reads, new, create_tool_record, fails)
              (r, found, refl)
        | inl writes ↦
            rw (upsert_tool_record, known, upsert_in, reads, new, create_tool_record, writes)
              (r, ground arith, refl)
      ]
    ]
  ]
]

-- The full text that was written when a result was cut can be read under its handle by the same
-- caller in the same session, page by page, also after the record of any call was written again,
-- whichever calls of that write fail; the first write and the reading do not fail.
pub spilled_text_stays :
    (f : Faults) (t : Table) (ctx other : Context) (scope : Scope) (r s : ToolRecordSpill)
    (offset limit : ℤ)
    → tool_scope ctx ≡ some scope
    → read_tool_record no_faults
        (upsert_tool_record f (spill_tool_result no_faults t ctx r).0 other s).0
        ctx
        (some t.next_id)
        offset
        limit
      ≡ ok (page r.content offset limit, length r.content)
unfolding spill_tool_result read_tool_record create_tool_record
spilled_text_stays f t ctx other scope r s offset limit known =
    let row = tool_record t.next_id scope r in
    let t' : Table = record { rows = row ∷ t.rows; next_id = t.next_id + 1 } in
    let here : find_owned t.next_id scope t'.rows ≡ some row =
      unfold find_owned tool_record in ground arith in
    let (row', found, same) = upsert_keeps f t' other s t.next_id scope row (omega arith) here in
    rw (spill_tool_result, known, create_tool_record, read_tool_record, known, found)
      (unfold tool_record in ap (λ (c : Text). ok (page c offset limit, length c)) same)
