-- ===== src/Agent/Truncate/Bounds.antt =====
-- The cut result never passes its limit, keeps the text's head and tail, and is the text itself
-- exactly where nothing had to be cut.
use mathlib.Core.List.{append-nil}
use morign.Base.{
  ℕ, ◌+◌, ◌-◌, ◌*◌, ◌/◌, ◌≤◌, ◌<◌, ◌≡◌, ◌↔◌, inl, inr, ap, List, [], ◌∷◌, ◌++◌, Text, All, length,
  take, drop, leb, is_empty, arith, length-append, sprintf_mono, Bool-cases,
}
use morign.Words.{take_head, take_tail}
use morign.Words.Cuts.{
  take_head-eq-take, take_tail-eq-drop, length-take_head, length-take_tail, drop_all,
}
use morign.Agent.Truncate.{
  TruncNoticeFormat, trunc_notice_full, trunc_notice_short, trunc_notice_minimal, notice_formats,
  Split, split_loop, trunc_split, truncate_tool_result,
}

-- A notice does not get longer when the counts it prints get smaller.
abbrev IsMonotone : TruncNoticeFormat → Type 0
IsMonotone f = (h h' t t' size : ℕ) → h ≤ h' → t ≤ t' → length (f h t size) ≤ length (f h' t' size)

full-IsMonotone : IsMonotone trunc_notice_full
unfolding trunc_notice_full
full-IsMonotone h h' t t' size p q = sprintf_mono _ _ _ (p, (q, (omega arith, tt)))

short-IsMonotone : IsMonotone trunc_notice_short
unfolding trunc_notice_short
short-IsMonotone h h' t t' size p q = sprintf_mono _ _ _ (p, (q, (omega arith, tt)))

minimal-IsMonotone : IsMonotone trunc_notice_minimal
unfolding trunc_notice_minimal
minimal-IsMonotone h h' t t' size p q = omega arith

abbrev pub split_total : Split → ℕ
split_total s = s.head_len + (length s.notice + s.tail_len)

split_loop_total :
    (fs : List TruncNoticeFormat) (limit size : ℕ)
    → All IsMonotone fs
    → split_total (split_loop fs limit size) ≤ limit
unfolding split_loop
split_loop_total [] limit size h = omega arith
split_loop_total (f ∷ fs) limit size (mono, more) =
    let payload = limit - length (f limit limit size) in
    elim (Bool-cases (leb payload 0)) [
      | inl none_left ↦ rw none_left (split_loop_total fs limit size more)
      | inr room ↦
          rw room
            (ground (arith, mono (payload * 3 / 4) limit (payload - payload * 3 / 4) limit size))
    ]

-- Head, notice and tail together never pass the limit.
pub trunc_split_total : (limit size : ℕ) → split_total (trunc_split limit size) ≤ limit
unfolding trunc_split
trunc_split_total limit size =
    split_loop_total notice_formats limit size
      (full-IsMonotone, (short-IsMonotone, (minimal-IsMonotone, tt)))

-- Whatever the text, a positive limit is kept.
pub truncate_tool_result-le-limit :
    (limit : ℕ) (text : Text) → 0 < limit → length (truncate_tool_result limit text) ≤ limit
unfolding truncate_tool_result
truncate_tool_result-le-limit limit text h =
    let s = trunc_split limit (length text) in
    let head = take_head text s.head_len [] in
    let tail = take_tail text s.tail_len [] in
    ground (
      arith,
      length-append head (s.notice ++ tail),
      length-append s.notice tail,
      length-take_head text s.head_len [],
      length-take_head text limit [],
      length-take_tail text s.tail_len,
      trunc_split_total limit (length text),
    )

-- A text longer than its positive limit is cut to a prefix, a notice and a suffix that fit the
-- limit.
pub truncate_tool_result_shape :
    (limit : ℕ) (text : Text)
    → 0 < limit
    → limit < length text
    → (s : Split) × (truncate_tool_result limit text
        ≡ take s.head_len text ++ (s.notice ++ drop (length text - s.tail_len) text))
      × (split_total s ≤ limit)
unfolding truncate_tool_result
truncate_tool_result_shape limit text pos long =
    let s = trunc_split limit (length text) in
    elim (Bool-cases (is_empty s.notice)) [
      | inl bare ↦ (
        record { head_len = limit; tail_len = 0; notice = [] },
        ground (
          arith,
          take_head-eq-take text limit,
          append-nil (take limit text),
          drop_all (length text - 0) text,
        ),
        omega arith,
      )
      | inr noted ↦ (
        s,
        ground (arith, take_head-eq-take text s.head_len, take_tail-eq-drop text s.tail_len),
        trunc_split_total limit (length text),
      )
    ]

-- With a positive limit the result is the text itself exactly when the text fits the limit.
pub truncate_tool_result-eq_iff :
    (limit : ℕ) (text : Text)
    → 0 < limit
    → (truncate_tool_result limit text ≡ text) ↔ (length text ≤ limit)
unfolding truncate_tool_result
truncate_tool_result-eq_iff limit text pos = (
  λ e. omega (arith, truncate_tool_result-le-limit limit text pos, ap (λ (t : Text). length t) e),
  λ fits. ground arith,
)

-- With no limit the result is the text itself.
pub truncate_tool_result_unlimited : (text : Text) → truncate_tool_result 0 text ≡ text
unfolding truncate_tool_result
truncate_tool_result_unlimited text = ground arith
