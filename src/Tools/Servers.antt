-- ===== src/Tools/Servers.antt =====
-- pkg/services/tools/registry.go and connection.go: the servers of the registry. `remote` is what
-- the transport and the MCP client return for a server: an error, or the tools that it lists.
-- Each operation is taken whole, as its locks make it.
use morign.Base.{
  Bool, true, false, not, ◌||◌, Option, none, some, List, [], ◌∷◌, ◌++◌, Text, codes, map, is_empty,
  if◌then◌else◌, text_eq, lookup, insert, delete, contains, Result, ok, err, filter_by, any_by,
}
use morign.Llm.Objects.{Fields}
use morign.Tools.{
  Folding, to_lower, ToolSource, mcp_global, ToolDescriptor, Invoker, Connection, ToolSet, Registry,
}

-- TransType
pub data TransType : Type 0 where
  std_io sse streamable in_memory : TransType

-- IsRemote
abbrev pub is_remote : TransType → Bool
is_remote sse = true
is_remote streamable = true
is_remote _ = false

-- ServerBasic
pub record ServerBasic : Type 0 where
  pub name : Text
  pub trans_type : TransType
  pub url : Text
  pub channel : Text

-- A tool that a server lists, with what the server does when it is called.
pub record ServerTool : Type 0 where
  pub name : Text
  pub description : Text
  pub input_schema : Fields
  pub call : Invoker

pub data AddError : Type 0 where
  unsupported_transport url_required : AddError
  server_builtin server_exists tool_builtin tool_exists : Text → AddError
  remote_failed : Text → AddError

-- The names that the two conflict checks compare with.
abbrev pub builtin_names : List Text
builtin_names =
    codes "kb_search"
    ∷ codes "kb_create"
    ∷ codes "fetch"
    ∷ codes "memory_list"
    ∷ codes "memory_recall"
    ∷ codes "memory_store"
    ∷ codes "memory_forget"
    ∷ codes "tool_result_read"
    ∷ []

-- genToolKey
unfoldable pub gen_tool_key : Text → Text → Text → Text
gen_tool_key sn tn ch =
    let tail = sn ++ (codes "__" ++ tn) in if is_empty ch then tail else ch ++ (codes "__" ++ tail)

abbrev pub has_server : Text → List (Text × Connection) → Bool
has_server name [] = false
has_server name ((k, s) ∷ m) = text_eq s.name name || has_server name m

-- checkServerNameConflict
unfoldable pub check_server_name_conflict : Registry → Text → Option AddError
check_server_name_conflict r name =
    if contains builtin_names name
    then some (server_builtin name)
    else if has_server name r.servers
    then some (server_exists name)
    else none

abbrev pub has_tool : Text → List ToolDescriptor → Bool
has_tool name ts = any_by (λ t. text_eq t.name name) ts

-- checkToolNameConflict
unfoldable pub check_tool_name_conflict : Registry → Text → Option AddError
check_tool_name_conflict r name =
    if contains builtin_names name
    then some (tool_builtin name)
    else if has_tool name r.tools || has_tool name r.priv_tools
    then some (tool_exists name)
    else none

-- The first loop of registerToolsLocked.
unfoldable pub check_tools : Registry → ServerBasic → List ServerTool → Option AddError
check_tools r server [] = none
check_tools r server (t ∷ ts) =
    let later = check_tools r server ts in
    elim (check_tool_name_conflict r (gen_tool_key server.name t.name server.channel)) [
      | some e ↦ some e
      | none ↦ later
    ]

abbrev pub key_of : ServerBasic → ServerTool → Text
key_of server t = gen_tool_key server.name t.name server.channel

-- The second loop of registerToolsLocked: the container.
unfoldable pub put_tools : ServerBasic → List ServerTool → ToolSet → ToolSet
put_tools server [] c = c
put_tools server (t ∷ ts) c = put_tools server ts (record c {
  tools =
      c.tools
      ++ (record {
        name = key_of server t;
        description = t.description;
        input_schema = t.input_schema;
      }
          ∷ []);
  invokers = insert (key_of server t) t.call c.invokers;
})

-- The second loop of registerToolsLocked: the categories, where the container is the global one.
unfoldable pub put_categories :
    Folding → ServerBasic → List ServerTool → List (Text × ToolSource) → List (Text × ToolSource)
put_categories u server [] m = m
put_categories u server (t ∷ ts) m =
    put_categories u server ts (insert (to_lower u (key_of server t)) mcp_global m)

-- registerToolsLocked, after its conflict check.
unfoldable pub put_server : ServerBasic → List ServerTool → ToolSet → ToolSet
unfolding put_tools
put_server server ts c =
    let c' = put_tools server ts c in
    let conn : Connection = record {
      name = server.name;
      url = server.url;
      tool_names = map (key_of server) ts;
    } in
    record c' { servers = insert server.name conn c'.servers }

abbrev pub global_set : Registry → ToolSet
global_set r = record { tools = r.tools; invokers = r.invokers; servers = r.servers }

abbrev pub set_global : ToolSet → List (Text × ToolSource) → Registry → Registry
set_global c categories r = record r {
  tools = c.tools;
  invokers = c.invokers;
  servers = c.servers;
  categories = categories;
}

abbrev pub empty_set : ToolSet
empty_set = record { tools = []; invokers = []; servers = [] }

abbrev pub channel_set : Registry → Text → ToolSet
channel_set r ch = elim (lookup ch r.channel_tools) [ none ↦ empty_set | some cs ↦ cs ]

-- The end of AddServer: a channel's container is made even if the check then fails.
unfoldable pub install :
    Folding → Registry → ServerBasic → List ServerTool → Registry × Result AddError (Unit {0})
unfolding put_server put_categories check_tools
install u r server ts =
    if is_empty server.channel
    then elim (check_tools r server ts) [
      | some e ↦ (r, err e)
      | none ↦ (
        set_global (put_server server ts (global_set r)) (put_categories u server ts r.categories)
            r,
        ok tt,
      )
    ]
    else (let cs = channel_set r server.channel in
        elim (check_tools r server ts) [
          | some e ↦ (record r { channel_tools = insert server.channel cs r.channel_tools }, err e)
          | none ↦ (
            record r {
              channel_tools = insert server.channel (put_server server ts cs) r.channel_tools;
            },
            ok tt,
          )
        ])

-- AddServer
unfoldable pub add_server :
    Folding
    → (ServerBasic → Result Text (List ServerTool))
    → Registry
    → ServerBasic
    → Registry × Result AddError (Unit {0})
unfolding install
add_server u remote r server =
    if not (is_remote server.trans_type)
    then (r, err unsupported_transport)
    else if is_empty server.url
    then (r, err url_required)
    else elim (if is_empty server.channel then check_server_name_conflict r server.name else none) [
      | some e ↦ (r, err e)
      | none ↦ elim (remote server) [
        | err e ↦ (r, err (remote_failed e))
        | ok ts ↦ install u r server ts
      ]
    ]

-- RemoveChannelTools
unfoldable pub remove_channel_tools : Registry → Text → Registry
remove_channel_tools r ch = elim (lookup ch r.channel_tools) [
  | none ↦ r
  | some cs ↦ record r { channel_tools = delete ch r.channel_tools }
]

unfoldable pub delete_all {ℓ} : {V : Type ℓ} → List Text → List (Text × V) → List (Text × V)
delete_all [] m = m
delete_all (n ∷ ns) m = delete_all ns (delete n m)

-- RemoveServer, for the connection that it found.
unfoldable pub without_server : Folding → Registry → Text → Connection → Registry
unfolding delete_all
without_server u r name conn = record r {
  invokers = delete_all conn.tool_names r.invokers;
  categories = delete_all (map (to_lower u) conn.tool_names) r.categories;
  tools = filter_by (λ t. not (contains conn.tool_names t.name)) r.tools;
  servers = delete name r.servers;
}

-- RemoveServer; `none` where the server is not found.
unfoldable pub remove_server : Folding → Registry → Text → Option Registry
unfolding without_server
remove_server u r name = elim (lookup name r.servers) [
  | none ↦ none
  | some conn ↦ some (without_server u r name conn)
]

-- loadServers, after the listing: each remote server is added, failures are passed over, and the
-- servers that were added are counted.
unfoldable pub load_servers :
    Folding
    → (ServerBasic → Result Text (List ServerTool))
    → Registry
    → List ServerBasic
    → Registry × List Text
unfolding add_server
load_servers u remote r [] = (r, [])
load_servers u remote r (s ∷ ss) =
    let added = add_server u remote r s in
    let (r', names) = load_servers u remote added.0 ss in
    (r', elim added.1 [ ok _ ↦ s.name ∷ names | err e ↦ names ])
