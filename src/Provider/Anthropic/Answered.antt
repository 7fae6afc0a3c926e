-- ===== src/Provider/Anthropic/Answered.antt =====
-- The messages sent to Anthropic answer each use of a tool in the message after it.
use mathlib.Core.Path.{subst}
use morign.Base.{
  ℕ, ◌+◌, ◌≡◌, ◌≢◌, ◌∙◌, refl, sym, ap, Bool, List, [], ◌∷◌, ◌++◌, Text, trim_space, ◌⊎◌, inl, inr,
  arith,
}
use mathlib.Core.List.{append-nil, append_assoc}
use morign.Llm.{Role, system, user, assistant, tool, other_role, ToolCall, Message}
use morign.Agent.Batch.Pairing.{Answers, IsPaired, paired_end, plain, round}
use morign.Provider.Anthropic.Convert.{
  to_anthropic_messages, InputPart, text_part, thinking_part, tool_use_part, tool_result_part,
  InputMessage, of_user, of_assistant, to_input_parts, to_input_text, to_input_thinking,
  tool_use_id, add_tool_result, add_user, add_assistant, normal_role, tool_uses, convert_user,
  convert_as, convert_from,
}

-- The identifiers of the tool uses, and those of the tool results.
unfoldable pub uses : List InputPart → List Text
uses [] = []
uses (text_part t ∷ parts) = uses parts
uses (thinking_part t ∷ parts) = uses parts
uses (tool_use_part id name input ∷ parts) = id ∷ uses parts
uses (tool_result_part id content ∷ parts) = uses parts

unfoldable pub answered_in : List InputPart → List Text
answered_in [] = []
answered_in (text_part t ∷ parts) = answered_in parts
answered_in (thinking_part t ∷ parts) = answered_in parts
answered_in (tool_use_part id name input ∷ parts) = answered_in parts
answered_in (tool_result_part id content ∷ parts) = id ∷ answered_in parts

-- The uses of each message of the assistant have their results in the next message, one each, in
-- their order; a message of the user uses no tool.
abbrev pub IsAnswered : List InputMessage → Type 0
IsAnswered [] = Unit
IsAnswered (of_user parts ∷ ms) = (uses parts ≡ []) × IsAnswered ms
IsAnswered (of_assistant parts ∷ []) = uses parts ≡ []
IsAnswered (of_assistant parts ∷ (of_assistant more ∷ ms)) =
    (uses parts ≡ []) × IsAnswered (of_assistant more ∷ ms)
IsAnswered (of_assistant parts ∷ (of_user results ∷ ms)) =
    ((uses parts ≡ []) ⊎ (answered_in results ≡ uses parts)) × IsAnswered (of_user results ∷ ms)

IsAnswered-append :
    (xs ys : List InputMessage) → IsAnswered xs → IsAnswered ys → IsAnswered (xs ++ ys)
IsAnswered-append [] ys h k = k
IsAnswered-append (of_user parts ∷ xs) ys h k = (h.0, IsAnswered-append xs ys h.1 k)
IsAnswered-append (of_assistant parts ∷ []) [] h k = h
IsAnswered-append (of_assistant parts ∷ []) (of_user results ∷ ys) h k = (inl h, k)
IsAnswered-append (of_assistant parts ∷ []) (of_assistant more ∷ ys) h k = (h, k)
IsAnswered-append (of_assistant parts ∷ (of_user results ∷ xs)) ys h k =
    (h.0, IsAnswered-append (of_user results ∷ xs) ys h.1 k)
IsAnswered-append (of_assistant parts ∷ (of_assistant more ∷ xs)) ys h k =
    (h.0, IsAnswered-append (of_assistant more ∷ xs) ys h.1 k)

uses-append : (ps qs : List InputPart) → uses (ps ++ qs) ≡ uses ps ++ uses qs
unfolding uses
uses-append [] qs = refl
uses-append (text_part t ∷ ps) qs = uses-append ps qs
uses-append (thinking_part t ∷ ps) qs = uses-append ps qs
uses-append (tool_use_part id name input ∷ ps) qs = ap (λ t. id ∷ t) (uses-append ps qs)
uses-append (tool_result_part id content ∷ ps) qs = uses-append ps qs

uses-to_input_parts : (m : Message) → uses (to_input_parts m) ≡ []
unfolding uses to_input_parts to_input_text to_input_thinking
uses-to_input_parts m = ground arith

-- The parts of the results that answer the calls.
result_parts : List Message → List InputPart
result_parts [] = []
result_parts (m ∷ ms) = tool_result_part m.tool_call_id m.content ∷ result_parts ms

add_tool_result-user :
    (out : List InputMessage) (parts : List InputPart) (part : InputPart)
    → add_tool_result (out ++ (of_user parts ∷ [])) part
      ≡ out ++ (of_user (parts ++ (part ∷ [])) ∷ [])
unfolding add_tool_result
add_tool_result-user [] parts part = refl
add_tool_result-user (of_user x ∷ []) parts part = refl
add_tool_result-user (of_assistant x ∷ []) parts part = refl
add_tool_result-user (of_user m ∷ (x ∷ out)) parts part =
    ap (λ t. of_user m ∷ t) (add_tool_result-user (x ∷ out) parts part)
add_tool_result-user (of_assistant m ∷ (x ∷ out)) parts part =
    ap (λ t. of_assistant m ∷ t) (add_tool_result-user (x ∷ out) parts part)

add_tool_result-assistant :
    (out : List InputMessage) (parts : List InputPart) (part : InputPart)
    → add_tool_result (out ++ (of_assistant parts ∷ [])) part
      ≡ out ++ (of_assistant parts ∷ (of_user (part ∷ []) ∷ []))
unfolding add_tool_result
add_tool_result-assistant [] parts part = refl
add_tool_result-assistant (of_user x ∷ []) parts part = refl
add_tool_result-assistant (of_assistant x ∷ []) parts part = refl
add_tool_result-assistant (of_user m ∷ (x ∷ out)) parts part =
    ap (λ t. of_user m ∷ t) (add_tool_result-assistant (x ∷ out) parts part)
add_tool_result-assistant (of_assistant m ∷ (x ∷ out)) parts part =
    ap (λ t. of_assistant m ∷ t) (add_tool_result-assistant (x ∷ out) parts part)

-- An identifier that is sent as it is.
abbrev pub IsClean : Text → Type 0
IsClean id = (trim_space id ≡ id) × (id ≢ [])

-- What is asked of the messages of a paired history: the calls have clean identifiers, and only a
-- tool message says which call it answers.
abbrev pub HasCleanCalls : List ToolCall → Type 0
HasCleanCalls [] = Unit
HasCleanCalls (tc ∷ tcs) = IsClean tc.id × HasCleanCalls tcs

abbrev pub AreClean : List Message → Type 0
AreClean [] = Unit
AreClean (m ∷ ms) =
    HasCleanCalls m.tool_calls
    × ((m.role ≢ tool) → m.tool_call_id ≡ [])
    × ((t : Text) → m.role ≢ other_role t)
    × AreClean ms

AreClean-right : (xs ys : List Message) → AreClean (xs ++ ys) → AreClean ys
AreClean-right [] ys h = h
AreClean-right (x ∷ xs) ys h = AreClean-right xs ys h.3

tool_use_id_clean : (i : ℕ) (id : Text) → IsClean id → tool_use_id i id ≡ id
unfolding tool_use_id
tool_use_id_clean i [] h = absurd (h.1 refl)
tool_use_id_clean i (c ∷ id) h = rw (h.0) refl

add_user-IsAnswered :
    (out : List InputMessage) (parts : List InputPart)
    → uses parts ≡ []
    → IsAnswered out
    → IsAnswered (add_user out parts)
unfolding add_user
add_user-IsAnswered out [] e h = h
add_user-IsAnswered out (part ∷ parts) e h = IsAnswered-append out _ h (e, tt)

add_assistant-IsAnswered :
    (out : List InputMessage) (parts : List InputPart)
    → uses parts ≡ []
    → IsAnswered out
    → IsAnswered (add_assistant out parts)
unfolding add_assistant
add_assistant-IsAnswered out [] e h = h
add_assistant-IsAnswered out (part ∷ parts) e h = IsAnswered-append out _ h e

add_assistant_more :
    (out : List InputMessage) (ps : List InputPart) (part : InputPart) (qs : List InputPart)
    → add_assistant out (ps ++ (part ∷ qs)) ≡ out ++ (of_assistant (ps ++ (part ∷ qs)) ∷ [])
unfolding add_assistant
add_assistant_more out [] part qs = refl
add_assistant_more out (p ∷ ps) part qs = refl

uses-result_parts : (ms : List Message) → uses (result_parts ms) ≡ []
unfolding uses result_parts
uses-result_parts [] = refl
uses-result_parts (m ∷ ms) = uses-result_parts ms

-- A known role is its own normal form.
normal_role_known :
    (lower : Text → Text) (role : Role)
    → ((t : Text) → role ≢ other_role t)
    → normal_role lower role ≡ role
unfolding normal_role
normal_role_known lower system h = refl
normal_role_known lower user h = refl
normal_role_known lower assistant h = refl
normal_role_known lower tool h = refl
normal_role_known lower (other_role t) h = absurd (h t refl)

module _ (lower : Text → Text) (valid : Text → Bool) (quote : Text → Text) where
  abbrev convert_all : List InputMessage → List Message → List InputMessage
  convert_all out ms = convert_from lower valid quote out ms

  -- The results of the calls, after the uses of the calls.
  answered_uses :
      (i : ℕ) (tcs : List ToolCall) (ms : List Message)
      → HasCleanCalls tcs
      → Answers tcs ms
      → answered_in (result_parts ms) ≡ uses (tool_uses lower valid quote i tcs)
  unfolding answered_in uses tool_uses result_parts
  answered_uses i [] [] clean h = refl
  answered_uses i [] (m ∷ ms) clean h = absurd h
  answered_uses i (tc ∷ tcs) [] clean h = absurd h
  answered_uses i (tc ∷ tcs) (m ∷ ms) clean h =
      rw (h.1, tool_use_id_clean i tc.id clean.0)
        (ap (λ t. tc.id ∷ t) (answered_uses (i + 1) tcs ms clean.1 h.3))

  convert_user_plain :
      (out : List InputMessage) (m : Message)
      → m.tool_call_id ≡ []
      → IsAnswered out
      → IsAnswered (convert_user lower valid quote out m)
  unfolding convert_user
  convert_user_plain out m no_id h =
      rw (convert_user, no_id)
        (add_user-IsAnswered out (to_input_parts m) (uses-to_input_parts m) h)

  convert_plain :
      (out : List InputMessage) (m : Message) (role : Role)
      → m.tool_calls ≡ []
      → role ≢ tool
      → m.tool_call_id ≡ []
      → IsAnswered out
      → IsAnswered (convert_as lower valid quote out m role)
  unfolding convert_as tool_uses
  convert_plain out m system calls not_tool no_id h = h
  convert_plain out m tool calls not_tool no_id h = absurd (not_tool refl)
  convert_plain out m user calls not_tool no_id h = convert_user_plain out m no_id h
  convert_plain out m (other_role t) calls not_tool no_id h = h
  convert_plain out m assistant calls not_tool no_id h =
      rw (convert_as, calls, tool_uses, append-nil (to_input_parts m))
        (add_assistant-IsAnswered out (to_input_parts m) (uses-to_input_parts m) h)

  convert_tool :
      (out : List InputMessage) (m : Message) (ms : List Message)
      → m.role ≡ tool
      → convert_all out (m ∷ ms)
        ≡ convert_all (add_tool_result out (tool_result_part m.tool_call_id m.content)) ms
  unfolding convert_from convert_as normal_role
  convert_tool out m ms role = rw (role) refl

  -- The answers after the first go into the same message.
  convert-Answers :
      (out : List InputMessage) (parts : List InputPart) (tcs : List ToolCall)
      (answers rest : List Message)
      → Answers tcs answers
      → convert_all (out ++ (of_user parts ∷ [])) (answers ++ rest)
        ≡ convert_all (out ++ (of_user (parts ++ result_parts answers) ∷ [])) rest
  unfolding result_parts
  convert-Answers out parts [] [] rest h =
      ap (λ ps. convert_all (out ++ (of_user ps ∷ [])) rest) (sym (append-nil parts))
  convert-Answers out parts [] (m ∷ ms) rest h = absurd h
  convert-Answers out parts (tc ∷ tcs) [] rest h = absurd h
  convert-Answers out parts (tc ∷ tcs) (m ∷ ms) rest h =
      let part = tool_result_part m.tool_call_id m.content in
      convert_tool (out ++ (of_user parts ∷ [])) m (ms ++ rest) (h.0)
      ∙ ap (λ o. convert_all o (ms ++ rest)) (add_tool_result-user out parts part)
      ∙ convert-Answers out (parts ++ (part ∷ [])) tcs ms rest h.3
      ∙ ap (λ ps. convert_all (out ++ (of_user ps ∷ [])) rest)
          (append_assoc parts (part ∷ []) (result_parts ms))

  -- A round of calls leads to messages that are answered, from which the rest is converted.
  convert_round :
      (out : List InputMessage) (parts : List InputPart) (tcs : List ToolCall)
      (answers rest : List Message)
      → uses parts ≡ []
      → HasCleanCalls tcs
      → Answers tcs answers
      → IsAnswered out
      → (out' : List InputMessage) × IsAnswered out'
        × (convert_all
              (add_assistant out (parts ++ tool_uses lower valid quote 0 tcs))
              (answers ++ rest)
            ≡ convert_all out' rest)
  unfolding tool_uses answered_in uses result_parts
  convert_round out parts [] [] rest e clean h k = (
    add_assistant out parts,
    add_assistant-IsAnswered out parts e k,
    ap (λ ps. convert_all (add_assistant out ps) rest) (append-nil parts),
  )
  convert_round out parts [] (m ∷ ms) rest e clean h k = absurd h
  convert_round out parts (tc ∷ tcs) [] rest e clean h k = absurd h
  convert_round out parts (tc ∷ tcs) (m ∷ ms) rest e clean h k =
      let more = tool_uses lower valid quote 0 (tc ∷ tcs) in
      let content = parts ++ more in
      let part = tool_result_part m.tool_call_id m.content in
      let results = part ∷ result_parts ms in
      let asked : uses content ≡ uses more = uses-append parts more ∙ ap (λ t. t ++ uses more) e in
      let answered : answered_in results ≡ uses content =
        answered_uses 0 (tc ∷ tcs) (m ∷ ms) clean h ∙ sym asked in
      (
        out ++ (of_assistant content ∷ (of_user results ∷ [])),
        IsAnswered-append out _ k (inr answered, (uses-result_parts ms, tt)),
        ap (λ o. convert_all o (m ∷ (ms ++ rest)))
              (add_assistant_more out parts _ (tool_uses lower valid quote 1 tcs))
            ∙ convert_tool (out ++ (of_assistant content ∷ [])) m (ms ++ rest) (h.0)
            ∙ ap (λ o. convert_all o (ms ++ rest))
                (add_tool_result-assistant out content part
                  ∙ sym (append_assoc out (of_assistant content ∷ []) (of_user (part ∷ []) ∷ [])))
            ∙ convert-Answers (out ++ (of_assistant content ∷ [])) (part ∷ []) tcs ms rest h.3
            ∙ ap (λ o. convert_all o rest)
                (append_assoc out (of_assistant content ∷ []) (of_user results ∷ [])),
      )

  -- A paired history whose calls have identifiers without spaces around them, which are not empty,
  -- is sent as messages in which each use of a tool has its result in the message after it.
  convert_paired :
      (ms : List Message)
      → IsPaired ms
      → AreClean ms
      → (out : List InputMessage) → IsAnswered out
      → IsAnswered (convert_from lower valid quote out ms)
  unfolding convert_from convert_as normal_role
  convert_paired [] paired_end clean out k = k
  convert_paired (m ∷ ms) (plain m' calls role p) clean out k =
      rw (convert_from, normal_role_known lower m.role clean.2)
        (convert_paired ms p clean.3 (convert_as lower valid quote out m m.role)
          (convert_plain out m m.role calls role (clean.1 role) k))
  convert_paired (m ∷ l) (round m' answers {ms} role ans e p) clean out k =
      let rest : AreClean (answers ++ ms) = subst AreClean e clean.3 in
      let (out', k', same) =
        convert_round out (to_input_parts m) m.tool_calls answers ms (uses-to_input_parts m) clean.0
          ans k in
      rw (convert_from, role, normal_role, convert_as, e, same)
        (convert_paired ms p (AreClean-right answers ms rest) out' k')

  -- A paired history whose calls have identifiers that are not empty and have no spaces around them,
  -- in which only a tool message names a call and every role is a known one, is sent as messages in
  -- which each use of a tool has its result in the message after it, one each and in their order.
  pub to_anthropic_messages-IsAnswered :
      (ms : List Message)
      → IsPaired ms
      → AreClean ms
      → IsAnswered (to_anthropic_messages lower valid quote ms).0
  unfolding to_anthropic_messages
  to_anthropic_messages-IsAnswered ms p clean = convert_paired ms p clean [] tt
