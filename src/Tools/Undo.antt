-- ===== src/Tools/Undo.antt =====
-- Removing a server that was added gives the list of tools back.
use morign.Base.{
  ◌≡◌, refl, sym, Bool, true, false, not, none, some, List, [], ◌∷◌, ◌++◌, Text, map, is_empty,
  text_eq_refl, text_eq_iff, lookup, contains, filter_by, All, arith, Option-cases, inl, inr,
  if◌then◌else◌, Result, ok,
}
use morign.Tools.{ToolSource, Folding, ToolDescriptor, Connection, ToolSet, Registry}
use morign.Tools.Servers.{
  ServerBasic, ServerTool, AddError, unsupported_transport, url_required, remote_failed,
  check_tool_name_conflict, check_server_name_conflict, check_tools, key_of, has_tool, put_tools,
  put_server, put_categories, global_set, set_global, install, add_server, remove_server,
  without_server, is_remote,
}
use morign.Tools.Wiring.{add_cases}
use mathlib.Core.List.{append-nil, append_assoc}

abbrev described : ServerBasic → List ServerTool → List ToolDescriptor
described server [] = []
described server (t ∷ ts) =
    record { name = key_of server t; description = t.description; input_schema = t.input_schema }
    ∷ described server ts

put_tools_tools :
    (server : ServerBasic) (ts : List ServerTool) (c : ToolSet)
    → (put_tools server ts c).tools ≡ c.tools ++ described server ts
unfolding put_tools
put_tools_tools server [] c = sym (append-nil c.tools)
put_tools_tools server (t ∷ ts) c =
    rw (put_tools, put_tools_tools server ts) (append_assoc c.tools _ _)

filter_by-append :
    {A : Type 0} (p : A → Bool) (xs ys : List A)
    → filter_by p (xs ++ ys) ≡ filter_by p xs ++ filter_by p ys
filter_by-append p [] ys = refl
filter_by-append p (x ∷ xs) ys = ground (arith, filter_by-append p xs ys)

filter_by-All :
    {A : Type 0} (p : A → Bool) (xs : List A) → All (λ a. p a ≡ true) xs → filter_by p xs ≡ xs
filter_by-All p [] h = refl
filter_by-All p (x ∷ xs) h = rw (h.0, filter_by-All p xs h.1)

filter_by_none :
    {A : Type 0} (p : A → Bool) (xs : List A) → All (λ a. p a ≡ false) xs → filter_by p xs ≡ []
filter_by_none p [] h = refl
filter_by_none p (x ∷ xs) h = rw (h.0, filter_by_none p xs h.1)

contains_keys :
    (server : ServerBasic) (ts : List ServerTool) (ns : List Text)
    → ((n : Text) → contains (map (key_of server) ts) n ≡ true → contains ns n ≡ true)
    → All (λ t. not (contains ns t.name) ≡ false) (described server ts)
unfolding contains
contains_keys server [] ns h = tt
contains_keys server (t ∷ ts) ns h = (
  rw (h (key_of server t) (rw (contains, text_eq_refl))) refl,
  contains_keys server ts ns (λ n e. h n (ground arith)),
)

free_keys :
    (r : Registry) (server : ServerBasic) (ts : List ServerTool)
    → check_tools r server ts ≡ none
    → All (λ s. has_tool (key_of server s) r.tools ≡ false) ts
unfolding check_tools check_tool_name_conflict
free_keys r server [] e = tt
free_keys r server (t ∷ ts) e = (ground arith, free_keys r server ts (ground arith))

fresh_head :
    (server : ServerBasic) (x : ToolDescriptor) (xs : List ToolDescriptor) (ts : List ServerTool)
    → All (λ s. has_tool (key_of server s) (x ∷ xs) ≡ false) ts
    → (contains (map (key_of server) ts) x.name ≡ false)
      × All (λ s. has_tool (key_of server s) xs ≡ false) ts
unfolding contains
fresh_head server x xs [] h = (refl, tt)
fresh_head server x xs (t ∷ ts) h =
    let (later, others) = fresh_head server x xs ts h.1 in
    let here = h.0 in
    (
      ground (
        arith,
        text_eq_iff x.name (key_of server t),
        text_eq_iff (key_of server t) x.name,
        text_eq_refl x.name,
      ),
      (ground arith, others),
    )

fresh_tools :
    (server : ServerBasic) (xs : List ToolDescriptor) (ts : List ServerTool)
    → All (λ s. has_tool (key_of server s) xs ≡ false) ts
    → All (λ t. not (contains (map (key_of server) ts) t.name) ≡ true) xs
fresh_tools server [] ts h = tt
fresh_tools server (x ∷ xs) ts h =
    let (head, others) = fresh_head server x xs ts h in
    (rw head refl, fresh_tools server xs ts others)

-- The server can be removed, and that leaves these tools.
abbrev pub Restores : Folding → Text → List ToolDescriptor → Registry → Type 0
Restores u name tools q = (r' : Registry) × (remove_server u q name ≡ some r') × (r'.tools ≡ tools)

filtered_back :
    (server : ServerBasic) (ts : List ServerTool) (c : ToolSet)
    → All (λ s. has_tool (key_of server s) c.tools ≡ false) ts
    → filter_by (λ t. not (contains (map (key_of server) ts) t.name)) (put_tools server ts c).tools
      ≡ c.tools
filtered_back server ts c h =
    let p : ToolDescriptor → Bool = λ t. not (contains (map (key_of server) ts) t.name) in
    rw
      (
        put_tools_tools server ts c,
        filter_by-append p c.tools (described server ts),
        filter_by-All p c.tools (fresh_tools server c.tools ts h),
        filter_by_none p (described server ts) (contains_keys server ts _ (λ n e. e)),
      )
      (append-nil c.tools)

put-Restores :
    (u : Folding) (r : Registry) (server : ServerBasic) (ts : List ServerTool)
    (categories : List (Text × ToolSource))
    → check_tools r server ts ≡ none
    → Restores u server.name r.tools (set_global (put_server server ts (global_set r)) categories r)
unfolding remove_server put_server lookup without_server
put-Restores u r server ts categories free =
    let q = set_global (put_server server ts (global_set r)) categories r in
    let conn : Connection = record {
      name = server.name;
      url = server.url;
      tool_names = map (key_of server) ts;
    } in
    (
      without_server u q server.name conn,
      rw (remove_server, put_server, lookup, text_eq_refl server.name) refl,
      filtered_back server ts (global_set r) (free_keys r server ts free),
    )

installed-Restores :
    (u : Folding) (r : Registry) (server : ServerBasic) (ts : List ServerTool)
    → is_empty server.channel ≡ true
    → (install u r server ts).1 ≡ ok tt
    → Restores u server.name r.tools (install u r server ts).0
unfolding install
installed-Restores u r server ts global e = elim (Option-cases (check_tools r server ts)) [
  | inr (bad, is_bad) ↦ absurd (ground arith)
  | inl free ↦
      rw (install, global, free)
        (put-Restores u r server ts (put_categories u server ts r.categories) free)
]

-- A global server that was added can be removed by its name, and then the tools are those that were
-- there before, in their order.
pub remove_server-add_server :
    (u : Folding) (remote : ServerBasic → Result Text (List ServerTool)) (r : Registry)
    (server : ServerBasic)
    → is_empty server.channel ≡ true
    → (add_server u remote r server).1 ≡ ok tt
    → Restores u server.name r.tools (add_server u remote r server).0
unfolding add_server
remove_server-add_server u remote r server global =
    add_cases unsupported_transport url_required (is_remote server.trans_type) (is_empty server.url)
      (if is_empty server.channel then check_server_name_conflict r server.name else none)
      (remote server) remote_failed
      (λ (q : Registry × Result AddError (Unit {0})).
        q.1 ≡ ok tt → Restores u server.name r.tools q.0)
      (install u r server) (λ e bad. cc bad)
      (λ ts good. installed-Restores u r server ts global good)
