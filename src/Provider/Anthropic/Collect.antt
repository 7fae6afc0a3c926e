-- ===== src/Provider/Anthropic/Collect.antt =====
-- The tool calls that a stream collects, against a reading of its blocks.
use morign.Base.{
  ◌&&◌, text_eq_iff, ◌≡◌, ◌∙◌, refl, sym, ap, Bool, true, false, Option, none, some, List, [], ◌∷◌,
  ◌++◌, Text, codes, text_eq, if◌then◌else◌, Bool-cases, Option-cases, inl, inr, arith, ℤ, not,
  is_empty, has_prefix, trim_space, take, length,
}
use mathlib.Core.List.{append-nil, append_assoc}
use morign.Llm.{ToolCall}
use morign.Provider.Anthropic.{
  StartMessage, StreamEvent, StreamState, fresh, Step, quiet, push_checked, push_unchecked,
  push_last, Delta, ContentBlock, tool_use_start, start_block, append_arguments, is_argument_part,
  add_json, delta_step, message_delta_step, start_step, handle_stream_event,
}

-- The tool call that an event begins.
abbrev begins_block : ℤ → Option ContentBlock → Option ToolCall
begins_block index none = none
begins_block index (some block) =
    if text_eq block.kind (codes "tool_use") then some (tool_use_start index block) else none

unfoldable pub begins : StreamEvent → Option ToolCall
begins se =
    if text_eq se.kind (codes "content_block_start")
    then begins_block se.index se.content_block
    else none

-- The texts that are not of the arguments: after blanks, a quoted word that starts with `thinking`.
abbrev pub is_thought : Text → Bool
is_thought json = text_eq (take 9 (trim_space json)) (0x22 ∷ codes "thinking")

-- The part of the arguments that a delta brings: the JSON of a delta of that kind, which is not a
-- thought.
abbrev delta_part : Delta → Text
delta_part d =
    if text_eq d.kind (codes "input_json_delta")
    then (if is_thought d.partial_json then [] else d.partial_json)
    else []

-- The part of the arguments that an event brings.
unfoldable pub brings : StreamEvent → Text
brings se =
    if text_eq se.kind (codes "content_block_start")
    then []
    else if text_eq se.kind (codes "content_block_delta")
    then delta_part se.delta
    else []

-- The parts up to the next begin of a tool call, joined.
abbrev pub arguments_before_next : List StreamEvent → Text
arguments_before_next [] = []
arguments_before_next (se ∷ ses) =
    let rest = arguments_before_next ses in
    elim (begins se) [ some tc ↦ [] | none ↦ brings se ++ rest ]

-- One call for each event that begins one, with the parts up to the next.
abbrev pub calls_of : List StreamEvent → List ToolCall
calls_of [] = []
calls_of (se ∷ ses) =
    let rest = calls_of ses in
    elim (begins se) [
      | some tc ↦ record tc { arguments = arguments_before_next ses } ∷ rest
      | none ↦ rest
    ]

-- The state after an event, whatever is pushed.
abbrev pub left_by : StreamState → Step → StreamState
left_by st (quiet st') = st'
left_by st (push_checked ev st') = st'
left_by st (push_unchecked ev st') = st'
left_by st (push_last ev) = st

unfoldable pub state_after : StreamState → List StreamEvent → StreamState
state_after st [] = st
state_after st (se ∷ ses) = state_after (left_by st (handle_stream_event st se)) ses

-- How one event changes the calls.
changed : List ToolCall → StreamEvent → List ToolCall
changed tcs se = elim (begins se) [
  | some tc ↦ tcs ++ (tc ∷ [])
  | none ↦ append_arguments tcs (brings se)
]

append_arguments_nil : (tcs : List ToolCall) → append_arguments tcs [] ≡ tcs
unfolding append_arguments
append_arguments_nil [] = refl
append_arguments_nil (tc ∷ []) =
    ap (λ t. record tc { arguments = t } ∷ []) (append-nil tc.arguments)
append_arguments_nil (tc ∷ (next ∷ tcs)) = ap (λ t. tc ∷ t) (append_arguments_nil (next ∷ tcs))

start_changes :
    (st : StreamState) (index : ℤ) (block : Option ContentBlock)
    → (start_block st index block).tool_calls ≡ elim (begins_block index block) [
      | some tc ↦ st.tool_calls ++ (tc ∷ [])
      | none ↦ st.tool_calls
    ]
unfolding start_block
start_changes st index none = refl
start_changes st index (some block) = ground arith

-- A text has a prefix if its first letters are those.
has_prefix-take : (s p : Text) → text_eq (take (length p) s) p ≡ has_prefix s p
unfolding has_prefix text_eq
has_prefix-take s [] = refl
has_prefix-take [] (d ∷ p) = refl
has_prefix-take (c ∷ s) (d ∷ p) = ground (arith, has_prefix-take s p)

-- An empty part is left out either way.
parts :
    (json : Text) (b : Bool)
    → (if b then [] else json) ≡ (if not (is_empty json) && not b then json else [])
parts [] true = refl
parts [] false = refl
parts (c ∷ json) true = refl
parts (c ∷ json) false = refl

argument_part :
    (json : Text)
    → (if is_thought json then [] else json) ≡ (if is_argument_part json then json else [])
argument_part json =
    rw (has_prefix-take (trim_space json) (0x22 ∷ codes "thinking"))
      (parts json (has_prefix (trim_space json) (0x22 ∷ codes "thinking")))

-- A text is not equal to two different ones.
apart : (k a b : Text) → text_eq k a ≡ true → text_eq a b ≡ false → text_eq k b ≡ false
apart k a b e ne = let same = (text_eq_iff k a).0 e in rw same ne

delta_changes :
    (st : StreamState) (d : Delta)
    → (left_by st (delta_step st d)).tool_calls ≡ append_arguments st.tool_calls (delta_part d)
unfolding delta_step add_json text_eq
delta_changes st d = elim (Bool-cases (text_eq d.kind (codes "text_delta"))) [
  | inl t ↦
      let no_json = apart d.kind _ (codes "input_json_delta") t refl in
      rw (delta_step, t, no_json) (sym (append_arguments_nil st.tool_calls))
  | inr nt ↦ elim (Bool-cases (text_eq d.kind (codes "thinking_delta"))) [
    | inl t ↦
        let no_json = apart d.kind _ (codes "input_json_delta") t refl in
        rw (delta_step, nt, t, no_json) (sym (append_arguments_nil st.tool_calls))
    | inr nk ↦ elim (Bool-cases (text_eq d.kind (codes "input_json_delta"))) [
      | inr other ↦ rw (delta_step, nt, nk, other) (sym (append_arguments_nil st.tool_calls))
      | inl json ↦ elim (Bool-cases (is_argument_part d.partial_json)) [
        | inl part ↦
            rw (delta_step, nt, nk, json, add_json, argument_part d.partial_json, part) refl
        | inr other ↦
            rw (delta_step, nt, nk, json, add_json, argument_part d.partial_json, other)
              (sym (append_arguments_nil st.tool_calls))
      ]
    ]
  ]
]

start_message_changes :
    (st : StreamState) (m : Option StartMessage)
    → (left_by st (start_step st m)).tool_calls ≡ st.tool_calls
unfolding start_step
start_message_changes st none = refl
start_message_changes st (some m) = refl

ends_with_nil :
    (tcs : List ToolCall) (next : Option ToolCall)
    → elim next [ some tc ↦ tcs ++ (tc ∷ []) | none ↦ tcs ]
      ≡ elim next [ some tc ↦ tcs ++ (tc ∷ []) | none ↦ append_arguments tcs [] ]
ends_with_nil tcs none = sym (append_arguments_nil tcs)
ends_with_nil tcs (some tc) = refl

rest_changes :
    (st : StreamState) (se : StreamEvent)
    → text_eq se.kind (codes "content_block_start") ≡ false
    → text_eq se.kind (codes "content_block_delta") ≡ false
    → (left_by st (handle_stream_event st se)).tool_calls ≡ st.tool_calls
unfolding handle_stream_event message_delta_step
rest_changes st se ns nd = elim (Bool-cases (text_eq se.kind (codes "message_delta"))) [
  | inl delta ↦ rw (handle_stream_event, ns, nd, delta) refl
  | inr nm ↦ elim (Bool-cases (text_eq se.kind (codes "message_stop"))) [
    | inl stop ↦ rw (handle_stream_event, ns, nd, nm, stop) refl
    | inr np ↦ elim (Bool-cases (text_eq se.kind (codes "message_start"))) [
      | inl start ↦
          rw (handle_stream_event, ns, nd, nm, np, start) (start_message_changes st se.message)
      | inr other ↦ rw (handle_stream_event, ns, nd, nm, np, other) refl
    ]
  ]
]

abbrev grown : List ToolCall → Option ToolCall → Text → List ToolCall
grown tcs next json = elim next [ some tc ↦ tcs ++ (tc ∷ []) | none ↦ append_arguments tcs json ]

changed-none :
    (tcs : List ToolCall) (se : StreamEvent) (part : Text)
    → begins se ≡ none
    → brings se ≡ part
    → changed tcs se ≡ append_arguments tcs part
unfolding changed
changed-none tcs se part goes_on e = rw (changed, goes_on, e) refl

handle_changes :
    (st : StreamState) (se : StreamEvent)
    → (left_by st (handle_stream_event st se)).tool_calls ≡ changed st.tool_calls se
unfolding handle_stream_event changed begins brings message_delta_step
handle_changes st se = elim (Bool-cases (text_eq se.kind (codes "content_block_start"))) [
  | inl starts ↦
      let nothing : brings se ≡ [] = rw (brings, starts) refl in
      let kept =
        start_changes st se.index se.content_block
        ∙ ends_with_nil st.tool_calls (begins_block se.index se.content_block)
        ∙ ap (grown st.tool_calls (begins_block se.index se.content_block)) (sym nothing) in
      rw (handle_stream_event, changed, begins, starts) kept
  | inr ns ↦ elim (Bool-cases (text_eq se.kind (codes "content_block_delta"))) [
    | inl delta ↦
        let goes_on : begins se ≡ none = rw (begins, ns) refl in
        let part : brings se ≡ delta_part se.delta = rw (brings, ns, delta) refl in
        let kept = delta_changes st se.delta ∙ sym (changed-none st.tool_calls se _ goes_on part) in
        rw (handle_stream_event, ns, delta) kept
    | inr nd ↦
        let goes_on : begins se ≡ none = rw (begins, ns) refl in
        let part : brings se ≡ [] = rw (brings, ns, nd) refl in
        rest_changes st se ns nd
        ∙ sym (append_arguments_nil st.tool_calls)
        ∙ sym (changed-none st.tool_calls se _ goes_on part)
  ]
]

-- A call begins without arguments.
begins_block-arguments :
    (index : ℤ) (block : Option ContentBlock) (tc : ToolCall)
    → begins_block index block ≡ some tc
    → tc.arguments ≡ []
begins_block-arguments index none tc e = ground arith
begins_block-arguments index (some block) tc e = ground arith

begins-arguments : (se : StreamEvent) (tc : ToolCall) → begins se ≡ some tc → tc.arguments ≡ []
unfolding begins
begins-arguments se tc e = elim (Bool-cases (text_eq se.kind (codes "content_block_start"))) [
  | inl starts ↦
      let same : begins se ≡ begins_block se.index se.content_block = rw (begins, starts) refl in
      begins_block-arguments se.index se.content_block tc (sym same ∙ e)
  | inr ns ↦ let same : begins se ≡ none = rw (begins, ns) refl in ground (arith, same, e)
]

-- The calls go on with `tc`, whose arguments so far are known.
abbrev with_arguments : ToolCall → Text → ToolCall
with_arguments tc json = record tc { arguments = json }

append_arguments_last :
    (tcs : List ToolCall) (tc : ToolCall) (json : Text)
    → append_arguments (tcs ++ (tc ∷ [])) json
      ≡ tcs ++ (with_arguments tc (tc.arguments ++ json) ∷ [])
unfolding append_arguments
append_arguments_last [] tc json = refl
append_arguments_last (x ∷ []) tc json = refl
append_arguments_last (x ∷ (y ∷ tcs)) tc json =
    ap (λ t. x ∷ t) (append_arguments_last (y ∷ tcs) tc json)

collect_from :
    (st : StreamState) (ses : List StreamEvent) (tcs : List ToolCall) (tc : ToolCall)
    → st.tool_calls ≡ tcs ++ (tc ∷ [])
    → (state_after st ses).tool_calls
      ≡ tcs ++ (with_arguments tc (tc.arguments ++ arguments_before_next ses) ∷ calls_of ses)
unfolding state_after changed
collect_from st [] tcs tc e =
    e ∙ ap (λ t. tcs ++ (with_arguments tc t ∷ [])) (sym (append-nil tc.arguments))
collect_from st (se ∷ ses) tcs tc e =
    let st' = left_by st (handle_stream_event st se) in
    let step = handle_changes st se in
    elim (Option-cases (begins se)) [
      | inr (next, starts) ↦
          let now : st'.tool_calls ≡ (tcs ++ (tc ∷ [])) ++ (next ∷ []) =
            step ∙ rw (changed, starts, e) refl in
          let joined =
            ap
              (λ t.
                (tcs ++ (tc ∷ []))
                ++ (with_arguments next (t ++ arguments_before_next ses) ∷ calls_of ses))
              (begins-arguments se next starts)
            ∙ append_assoc tcs (tc ∷ [])
                (with_arguments next (arguments_before_next ses) ∷ calls_of ses)
            ∙ ap
                (λ t.
                  tcs
                  ++ (with_arguments tc t
                      ∷ (with_arguments next (arguments_before_next ses) ∷ calls_of ses)))
                (sym (append-nil tc.arguments)) in
          rw (state_after, arguments_before_next, calls_of, starts)
            (collect_from st' ses (tcs ++ (tc ∷ [])) next now ∙ joined)
      | inl goes_on ↦
          let now : st'.tool_calls ≡ tcs ++ (with_arguments tc (tc.arguments ++ brings se) ∷ []) =
            step ∙ rw (changed, goes_on, e) (append_arguments_last tcs tc (brings se)) in
          rw (state_after, arguments_before_next, calls_of, goes_on)
            (collect_from st' ses tcs (with_arguments tc (tc.arguments ++ brings se)) now
              ∙ ap (λ t. tcs ++ (with_arguments tc t ∷ calls_of ses))
                  (append_assoc tc.arguments (brings se) (arguments_before_next ses)))
    ]

collect_none :
    (st : StreamState) (ses : List StreamEvent)
    → st.tool_calls ≡ []
    → (state_after st ses).tool_calls ≡ calls_of ses
unfolding state_after changed append_arguments
collect_none st [] e = e
collect_none st (se ∷ ses) e =
    let st' = left_by st (handle_stream_event st se) in
    let step = handle_changes st se in
    elim (Option-cases (begins se)) [
      | inr (next, starts) ↦
          let now : st'.tool_calls ≡ [] ++ (next ∷ []) = step ∙ rw (changed, starts, e) refl in
          let joined =
            ap (λ t. with_arguments next (t ++ arguments_before_next ses) ∷ calls_of ses)
              (begins-arguments se next starts) in
          rw (state_after, calls_of, starts) (collect_from st' ses [] next now ∙ joined)
      | inl goes_on ↦
          let now : st'.tool_calls ≡ [] = step ∙ rw (changed, goes_on, e) refl in
          rw (state_after, calls_of, goes_on) (collect_none st' ses now)
    ]

-- The folded state of a stream has exactly one tool call for each block of kind tool_use, in the
-- order in which they begin, and its arguments are the JSON parts that come before the next such
-- block, joined in order, without those that start, after blanks, with a quote and `thinking`.
pub state_after-calls_of :
    (ses : List StreamEvent) → (state_after fresh ses).tool_calls ≡ calls_of ses
state_after-calls_of ses = collect_none fresh ses refl
