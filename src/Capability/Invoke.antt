-- ===== src/Capability/Invoke.antt =====
-- pkg/services/stores/capability_invoker.go: the call of an API with its parameters. The
-- parameters are a list in the order that the loop over the map meets them; a value is its text
-- (cast.ToString), and `Web` has the parts of net/url, net/http and encoding/json that are used.
use morign.Base.{
  ℕ, zero, suc, ◌-◌, Bool, true, false, ◌||◌, Option, none, some, List, [], ◌∷◌, ◌++◌, Text, codes,
  is_empty, text_eq, has_prefix, if◌then◌else◌, ◌==◌, leb, length, lookup, decimal, Result, ok, err,
}
use morign.Skills.{cut_at}

abbrev pub Params : Type 0
Params = List (Text × Text)

-- A parsed URL: its path, and what stands around it.
pub record Url : Type 0 where
  pub before : Text
  pub path : Text
  pub after : Text

pub record Request : Type 0 where
  pub method : Text
  pub url : Text
  pub body : Option Params

-- The response: its code, its status line, and its decoded body.
pub record Response : Type 0 where
  pub status_code : ℕ
  pub status : Text
  pub body : Result Text Params

pub record Web : Type 0 where
  pub upper : Text → Text
  pub parse : Text → Result Text Url
  pub url_text : Url → Text
  pub add_query : Params → Url → Url
  pub marshal_fails : Params → Option Text
  pub send : Request → Result Text (Option Response)

-- `strings.ReplaceAll` of a part that is not empty, with the letters that are still to be dropped.
unfoldable pub replace_from : ℕ → Text → Text → Text → Text
replace_from skip part new [] = []
replace_from (suc skip) part new (c ∷ s) = replace_from skip part new s
replace_from zero part new (c ∷ s) = elim (has_prefix (c ∷ s) part) [
  | true ↦ new ++ replace_from (length part - 1) part new s
  | false ↦ c ∷ replace_from 0 part new s
]

abbrev pub placeholder : Text → Text
placeholder key = 0x7b ∷ (key ++ (0x7d ∷ []))

-- `strings.Contains`
abbrev pub found : Option (Text × Text) → Bool
found none = false
found (some parts) = true

unfoldable pub contains_text : Text → Text → Bool
unfolding cut_at
contains_text s part = found (cut_at part s)

-- The path with its parameters put in, and the parameters that remain.
abbrev pub Substituted : Type 0
Substituted = Text × Params

unfoldable pub substitute : Text → Params → Substituted
unfolding contains_text replace_from
substitute path [] = (path, [])
substitute path ((key, value) ∷ params) =
    let put = substitute (replace_from 0 (placeholder key) value path) params in
    let kept = substitute path params in
    if contains_text path (placeholder key) then put else (kept.0, (key, value) ∷ kept.1)

abbrev pub in_query : Text → Bool
in_query method = text_eq method (codes "GET") || text_eq method (codes "DELETE")

abbrev pub in_body : Text → Bool
in_body method =
    text_eq method (codes "POST")
    || (text_eq method (codes "PUT") || text_eq method (codes "PATCH"))

abbrev pub Built : Type 0
Built = Result Text (Text × Option Params)

abbrev pub body_of : Web → Url → Params → Built
body_of w u remaining = elim (w.marshal_fails remaining) [
  | some e ↦ err (codes "marshal params: " ++ e)
  | none ↦ ok (w.url_text u, some remaining)
]

-- The remaining parameters, by the method: one that has neither a query nor a body drops them.
unfoldable pub route : Web → Text → Url → Params → Built
route w method u [] = ok (w.url_text u, none)
route w method u (p ∷ remaining) =
    if in_query method
    then ok (w.url_text (w.add_query (p ∷ remaining) u), none)
    else if in_body method
    then body_of w u (p ∷ remaining)
    else ok (w.url_text u, none)

abbrev pub after_parse : Web → Text → Params → Result Text Url → Built
after_parse w method params (err e) = err (codes "parse url: " ++ e)
after_parse w method params (ok u) =
    let put = substitute u.path params in route w method (record u { path = put.0 }) put.1

-- buildRequestData
unfoldable pub build_request_data : Web → Text → Text → Text → Params → Built
unfolding substitute route
build_request_data w base_url method endpoint [] = ok (base_url ++ endpoint, none)
build_request_data w base_url method endpoint (p ∷ params) =
    after_parse w method (p ∷ params) (w.parse (base_url ++ endpoint))

abbrev pub send_built : Web → Text → Built → Result Text (Option Response)
send_built w method (err e) = err e
send_built w method (ok (url, body)) = w.send (record { method = method; url = url; body = body })

-- Invoke
unfoldable pub invoke : Web → Text → Text → Text → Params → Result Text (Option Response)
unfolding build_request_data
invoke w base_url method endpoint params =
    send_built w (w.upper method) (build_request_data w base_url (w.upper method) endpoint params)

-- What the tool returns: an error text, the whole body, or the part of it under the key of results.
pub data ToolReply : Type 0 where
  tool_error : Text → ToolReply
  whole : Params → ToolReply
  part : Text → ToolReply

abbrev pub reply_part : Params → Option Text → ToolReply
reply_part result none = whole result
reply_part result (some value) = part value

unfoldable pub reply_of : Text → ℕ → Text → Params → ToolReply
reply_of result_key code status result =
    if leb 400 code
    then (if code == 403
        then tool_error (codes "Permission denied: no access to this API")
        else tool_error (codes "HTTP error " ++ (decimal code ++ (codes ": " ++ status))))
    else if is_empty result_key
    then whole result
    else reply_part result (lookup result_key result)

abbrev pub after_body : Text → Response → Result Text Params → ToolReply
after_body result_key r (err e) = tool_error e
after_body result_key r (ok result) = reply_of result_key r.status_code r.status result

abbrev pub after_invoke : Text → Result Text (Option Response) → ToolReply
after_invoke result_key (err e) = tool_error e
after_invoke result_key (ok none) = tool_error (codes "nil response from invoker")
after_invoke result_key (ok (some r)) = after_body result_key r r.body

-- InvokeAsTool, for the arguments, empty where they are missing or of another type.
unfoldable pub invoke_as_tool : Web → Text → Text → Text → Text → Params → ToolReply
unfolding invoke reply_of
invoke_as_tool w base_url result_key [] endpoint params =
    tool_error (codes "missing required argument: method")
invoke_as_tool w base_url result_key (m ∷ method) [] params =
    tool_error (codes "missing required argument: endpoint")
invoke_as_tool w base_url result_key (m ∷ method) (c ∷ endpoint) params =
    after_invoke result_key (invoke w base_url (m ∷ method) (c ∷ endpoint) params)
