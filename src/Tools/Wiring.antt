-- ===== src/Tools/Wiring.antt =====
-- Every operation of the registry keeps the shown tools wired to their invokers, and a server that
-- is added and removed leaves the list of tools as it was.
use morign.Base.{
  lookup-delete-some, ℕ, ◌≡◌, ◌∙◌, refl, sym, Bool, true, false, not, Option, none, some, List, [],
  ◌∷◌, ◌++◌, Text, is_empty, text_eq, text_eq_refl, lookup, insert, All, All-append, Bool-cases,
  Option-cases, inl, inr, lookup-insert_eq, lookup-insert_ne, if◌then◌else◌, Result, ok, err,
}
use mathlib.Core.Path.{subst}
use morign.Tools.{Folding, ToolDescriptor, Invoker, ToolSet, Registry, ToolSource}
use morign.Tools.Calls.{register_tool, register_invoker}
use morign.Tools.Servers.{
  check_server_name_conflict, is_remote, ServerBasic, ServerTool, AddError, unsupported_transport,
  url_required, remote_failed, gen_tool_key, check_tools, key_of, put_tools, put_server, global_set,
  set_global, empty_set, channel_set, install, add_server, remove_channel_tools,
}
use morign.Tools.Reach.{HasInvoker, IsWired}

-- A container in which every tool has its invoker.
abbrev pub IsWiredSet : ToolSet → Type 0
IsWiredSet c = All (λ t. HasInvoker c.invokers t.name) c.tools

HasInvoker-insert :
    (k n : Text) (v : Invoker) (m : List (Text × Invoker))
    → HasInvoker m n
    → HasInvoker (insert k v m) n
HasInvoker-insert k n v m h = elim (Bool-cases (text_eq k n)) [
  | inl same ↦ record { named = h.named; bound = (v, lookup-insert_eq k n v m same) }
  | inr apart ↦ record {
    named = h.named;
    bound = (h.bound.0, lookup-insert_ne k n v m apart ∙ h.bound.1);
  }
]

All-insert :
    (k : Text) (v : Invoker) (m : List (Text × Invoker)) (ts : List ToolDescriptor)
    → All (λ t. HasInvoker m t.name) ts
    → All (λ t. HasInvoker (insert k v m) t.name) ts
All-insert k v m [] h = tt
All-insert k v m (t ∷ ts) h = (HasInvoker-insert k t.name v m h.0, All-insert k v m ts h.1)

nonempty_append : (a b : Text) (c : ℕ) → is_empty (a ++ (c ∷ b)) ≡ false
nonempty_append [] b c = refl
nonempty_append (x ∷ a) b c = refl

gen_tool_key_nonempty : (sn tn ch : Text) → is_empty (gen_tool_key sn tn ch) ≡ false
unfolding gen_tool_key
gen_tool_key_nonempty sn tn [] = nonempty_append sn _ _
gen_tool_key_nonempty sn tn (c ∷ ch) = refl

put_tools-IsWiredSet :
    (server : ServerBasic) (ts : List ServerTool) (c : ToolSet)
    → IsWiredSet c
    → IsWiredSet (put_tools server ts c)
unfolding put_tools
put_tools-IsWiredSet server [] c h = h
put_tools-IsWiredSet server (t ∷ ts) c h = put_tools-IsWiredSet server ts _ (
    All-append _ c.tools _ (All-insert (key_of server t) t.call c.invokers c.tools h) (
      record {
        named = gen_tool_key_nonempty server.name t.name server.channel;
        bound = (
          t.call,
          lookup-insert_eq (key_of server t) _ t.call c.invokers (text_eq_refl (key_of server t)),
        );
      },
      tt,
    ))

put_tools_others :
    (server : ServerBasic) (ts : List ServerTool) (c : ToolSet) (xs : List ToolDescriptor)
    → All (λ t. HasInvoker c.invokers t.name) xs
    → All (λ t. HasInvoker (put_tools server ts c).invokers t.name) xs
unfolding put_tools
put_tools_others server [] c xs h = h
put_tools_others server (t ∷ ts) c xs h =
    put_tools_others server ts _ xs (All-insert (key_of server t) t.call c.invokers xs h)

empty-IsWiredSet : IsWiredSet empty_set
empty-IsWiredSet = tt

channel_set-IsWiredSet : (r : Registry) (ch : Text) → IsWired r → IsWiredSet (channel_set r ch)
channel_set-IsWiredSet r ch h = elim (Option-cases (lookup ch r.channel_tools)) [
  | inl gone ↦ rw (channel_set, gone) tt
  | inr (cs, at) ↦ rw (channel_set, at) (h.channels_wired ch cs at)
]

put_channel-IsWired :
    (r : Registry) (ch : Text) (c : ToolSet)
    → IsWired r
    → IsWiredSet c
    → IsWired (record r { channel_tools = insert ch c r.channel_tools })
put_channel-IsWired r ch c h w = record {
  tools_wired = h.tools_wired;
  priv_wired = h.priv_wired;
  channels_wired = λ k cs at. elim (Bool-cases (text_eq ch k)) [
    | inl same ↦
        let eq : c ≡ cs = cc (lookup-insert_eq ch k c r.channel_tools same, at) in
        subst (λ (q : ToolSet). IsWiredSet q) eq w
    | inr apart ↦ h.channels_wired k cs (sym (lookup-insert_ne ch k c r.channel_tools apart) ∙ at)
  ];
}

-- Registering an invoker while the program runs keeps a wired registry wired.
pub register_invoker-IsWired :
    (u : Folding) (r : Registry) (name : Text) (inv : Option Invoker)
    → IsWired r
    → IsWired (register_invoker u r name inv)
unfolding register_invoker register_tool
register_invoker-IsWired u r name none h = h
register_invoker-IsWired u r name (some inv) h = elim (Bool-cases (is_empty name)) [
  | inl blank ↦ rw blank h
  | inr named ↦ rw named record {
    tools_wired = All-append _ r.tools _ (All-insert name inv r.invokers r.tools h.tools_wired) (
      record {
        named = named;
        bound = (inv, lookup-insert_eq name name inv r.invokers (text_eq_refl name));
      },
      tt,
    );
    priv_wired = All-insert name inv r.invokers r.priv_tools h.priv_wired;
    channels_wired = h.channels_wired;
  }
]

install_global :
    (u : Folding) (r : Registry) (server : ServerBasic) (ts : List ServerTool)
    (categories : List (Text × ToolSource))
    → IsWired r
    → IsWired (set_global (put_server server ts (global_set r)) categories r)
unfolding put_server
install_global u r server ts categories h = record {
  tools_wired = put_tools-IsWiredSet server ts (global_set r) h.tools_wired;
  priv_wired = put_tools_others server ts (global_set r) r.priv_tools h.priv_wired;
  channels_wired = h.channels_wired;
}

install-IsWired :
    (u : Folding) (r : Registry) (server : ServerBasic) (ts : List ServerTool)
    → IsWired r
    → IsWired (install u r server ts).0
unfolding install put_server
install-IsWired u r server ts h = elim (Bool-cases (is_empty server.channel)) [
  | inl global ↦ elim (Option-cases (check_tools r server ts)) [
    | inl free ↦ rw (install, global, free) (install_global u r server ts _ h)
    | inr (e, bad) ↦ rw (install, global, bad) h
  ]
  | inr local ↦
      let w = channel_set-IsWiredSet r server.channel h in
      elim (Option-cases (check_tools r server ts)) [
        | inl free ↦
            rw (install, local, free)
              (put_channel-IsWired r server.channel _ h (put_tools-IsWiredSet server ts _ w))
        | inr (e, bad) ↦ rw (install, local, bad) (put_channel-IsWired r server.channel _ h w)
      ]
]

pub add_cases :
    {A E : Type 0} {r : A} (bad1 bad2 : E) (remote_kind blank : Bool) (conflict : Option E)
    (answer : Result Text (List ServerTool)) (failed : Text → E)
    (P : A × Result E (Unit {0}) → Type 0) (install' : List ServerTool → A × Result E (Unit {0}))
    → ((e : E) → P (r, err e))
    → ((ts : List ServerTool) → P (install' ts))
    → P (
        if not remote_kind then (r, err bad1) else if blank then (r, err bad2) else elim conflict [
          | some e ↦ (r, err e)
          | none ↦ elim answer [ err e ↦ (r, err (failed e)) | ok ts ↦ install' ts ]
        ])
add_cases _ _ false blank conflict answer _ P i h k = h _
add_cases _ _ true true conflict answer _ P i h k = h _
add_cases _ _ true false (some e) answer _ P i h k = h e
add_cases _ _ true false none (err e) _ P i h k = h _
add_cases _ _ true false none (ok ts) _ P i h k = k ts

-- AddServer keeps a wired registry wired, whatever the server answers and whether it is taken or
-- not.
pub add_server-IsWired :
    (u : Folding) (remote : ServerBasic → Result Text (List ServerTool)) (r : Registry)
    (server : ServerBasic)
    → IsWired r
    → IsWired (add_server u remote r server).0
unfolding add_server
add_server-IsWired u remote r server h =
    let installed : (ts : List ServerTool) → IsWired (install u r server ts).0 =
      λ ts. install-IsWired u r server ts h in
    add_cases unsupported_transport url_required (is_remote server.trans_type) (is_empty server.url)
      (if is_empty server.channel then check_server_name_conflict r server.name else none)
      (remote server) remote_failed (λ (q : Registry × Result AddError (Unit {0})). IsWired q.0)
      (install u r server) (λ e. h) installed

-- Removing the tools of a channel keeps the registry wired.
pub remove_channel_tools-IsWired :
    (r : Registry) (ch : Text) → IsWired r → IsWired (remove_channel_tools r ch)
unfolding remove_channel_tools
remove_channel_tools-IsWired r ch h = elim (Option-cases (lookup ch r.channel_tools)) [
  | inl gone ↦ rw (remove_channel_tools, gone) h
  | inr (cs, at) ↦
      rw (remove_channel_tools, at)
        record {
          tools_wired = h.tools_wired;
          priv_wired = h.priv_wired;
          channels_wired =
              λ k c e. h.channels_wired k c (lookup-delete-some ch k r.channel_tools c e);
        }
]
