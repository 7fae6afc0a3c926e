-- ===== src/Records.antt =====
-- pkg/services/stores/convo_record_x.go: the full texts of tool results, kept by turn and call, and
-- read back page by page. The table is a list of rows with fresh numbers; `Faults` says which calls
-- of the database fail.
pub mod Pages
pub mod Rows
use morign.Base.{
  ℤ, pos, negsuc, ℕ, ◌+◌, ◌-◌, Bool, true, false, not, ◌&&◌, ◌||◌, Option, none, some, List, [],
  ◌∷◌, Text, map, if◌then◌else◌, text_eq, length, take, drop, leb, ltb, ◌==◌, Result, ok, err,
}
use morign.Llm.{ToolStatus, ToolErrorCode}
use morign.Agent.ToolCalls.{ToolRecordSpill}

-- The turn, the session and the owner of a context; 0 is the zero identifier of an owner.
pub record Context : Type 0 where
  pub turn : Option ℕ
  pub session : Option ℕ
  pub owner : ℕ

-- ToolRecord
pub record ToolRecord : Type 0 where
  pub id : ℕ
  pub turn_id : ℕ
  pub session_id : ℕ
  pub owner_id : ℕ
  pub seq : ℕ
  pub call_id : Text
  pub tool_name : Text
  pub arguments : Text
  pub status : ToolStatus
  pub content : Text
  pub preview : Text
  pub spilled : Bool
  pub error_code : ToolErrorCode
  pub duration_ms : ℕ

pub record Table : Type 0 where
  pub rows : List ToolRecord
  pub next_id : ℕ

pub record Faults : Type 0 where
  pub create : Option Text
  pub find : Option Text
  pub update : Option Text

abbrev pub no_faults : Faults
no_faults = record { create = none; find = none; update = none }

-- ErrNoTurnScope, ErrForbidden, and any other error of the database.
pub data RecordError : Type 0 where
  no_turn_scope forbidden : RecordError
  database : Text → RecordError

pub record Scope : Type 0 where
  pub turn_id : ℕ
  pub session_id : ℕ
  pub owner_id : ℕ

-- toolScope
unfoldable pub tool_scope : Context → Option Scope
tool_scope ctx = elim ctx.turn [
  | none ↦ none
  | some t ↦ elim ctx.session [
    | none ↦ none
    | some s ↦ some (record { turn_id = t; session_id = s; owner_id = ctx.owner })
  ]
]

-- toolRecordBasic, as the row that CreateToolRecord makes of it.
unfoldable pub tool_record : ℕ → Scope → ToolRecordSpill → ToolRecord
tool_record id scope r = record {
  id = id;
  turn_id = scope.turn_id;
  session_id = scope.session_id;
  owner_id = scope.owner_id;
  seq = r.seq;
  call_id = r.call_id;
  tool_name = r.tool_name;
  arguments = r.arguments;
  status = r.status;
  content = r.content;
  preview = r.preview;
  spilled = r.spilled;
  error_code = r.error_code;
  duration_ms = r.duration_ms;
}

-- CreateToolRecord
unfoldable pub create_tool_record :
    Faults → Table → Scope → ToolRecordSpill → Table × Result RecordError ℕ
create_tool_record f t scope r = elim f.create [
  | some e ↦ (t, err (database e))
  | none ↦ (
    record { rows = tool_record t.next_id scope r ∷ t.rows; next_id = t.next_id + 1 },
    ok t.next_id,
  )
]

-- SpillToolResult; the handle is the number of the row.
unfoldable pub spill_tool_result :
    Faults → Table → Context → ToolRecordSpill → Table × Result RecordError ℕ
unfolding create_tool_record tool_record tool_scope
spill_tool_result f t ctx r = elim (tool_scope ctx) [
  | none ↦ (t, err no_turn_scope)
  | some scope ↦ create_tool_record f t scope r
]

-- findToolRecord
unfoldable pub find_tool_record : ℕ → Text → List ToolRecord → Option ToolRecord
find_tool_record turn call [] = none
find_tool_record turn call (r ∷ rs) =
    if r.turn_id == turn && text_eq r.call_id call then some r else find_tool_record turn call rs

-- The fields that UpsertToolRecord updates.
abbrev pub set_outcome : ℕ → ToolRecordSpill → ToolRecord → ToolRecord
set_outcome id r row =
    if row.id == id
    then record row { status = r.status; error_code = r.error_code; duration_ms = r.duration_ms }
    else row

-- UpsertToolRecord, for a scope.
unfoldable pub upsert_in : Faults → Table → Scope → ToolRecordSpill → Table × Option RecordError
unfolding find_tool_record create_tool_record tool_record
upsert_in f t scope r = elim f.find [
  | some e ↦ (t, some (database e))
  | none ↦ elim (find_tool_record scope.turn_id r.call_id t.rows) [
    | some exist ↦ elim f.update [
      | some e ↦ (t, some (database e))
      | none ↦ (record t { rows = map (set_outcome exist.id r) t.rows }, none)
    ]
    | none ↦
        let made =
          create_tool_record f t scope (record r { spilled = false; preview = r.content }) in
        (made.0, elim made.1 [ ok id ↦ none | err e ↦ some e ])
  ]
]

-- UpsertToolRecord
unfoldable pub upsert_tool_record :
    Faults → Table → Context → ToolRecordSpill → Table × Option RecordError
unfolding upsert_in tool_scope
upsert_tool_record f t ctx r = elim (tool_scope ctx) [
  | none ↦ (t, some no_turn_scope)
  | some scope ↦ upsert_in f t scope r
]

-- toolResultReadDefaultLimit, toolResultReadMaxLimit
abbrev pub tool_result_read_default_limit : ℕ
tool_result_read_default_limit = 4000

abbrev pub tool_result_read_max_limit : ℕ
tool_result_read_max_limit = 8000

-- The offset, cut to the text.
unfoldable pub clamp_offset : ℤ → ℕ → ℕ
clamp_offset (negsuc n) total = 0
clamp_offset (pos n) total = if ltb total n then total else n

unfoldable pub clamp_limit : ℤ → ℕ
clamp_limit (negsuc n) = tool_result_read_default_limit
clamp_limit (pos n) =
    let l = if leb n 0 then tool_result_read_default_limit else n in
    if ltb tool_result_read_max_limit l then tool_result_read_max_limit else l

-- The page `runes[offset:end]`.
unfoldable pub page : Text → ℤ → ℤ → Text
unfolding clamp_offset clamp_limit
page content offset limit =
    let total = length content in
    let start = clamp_offset offset total in
    let stop = start + clamp_limit limit in
    let end = if ltb total stop then total else stop in take (end - start) (drop start content)

unfoldable pub find_owned : ℕ → Scope → List ToolRecord → Option ToolRecord
find_owned id scope [] = none
find_owned id scope (r ∷ rs) =
    if r.id == id && (r.session_id == scope.session_id && r.owner_id == scope.owner_id)
    then some r
    else find_owned id scope rs

-- ReadToolRecord; `none` is a handle that names no row number.
unfoldable pub read_tool_record :
    Faults → Table → Context → Option ℕ → ℤ → ℤ → Result RecordError (Text × ℕ)
unfolding page find_owned tool_scope
read_tool_record f t ctx handle offset limit = elim (tool_scope ctx) [
  | none ↦ err forbidden
  | some scope ↦ elim handle [
    | none ↦ err forbidden
    | some id ↦ elim f.find [
      | some e ↦ err (database e)
      | none ↦ elim (find_owned id scope t.rows) [
        | none ↦ err forbidden
        | some r ↦ ok (page r.content offset limit, length r.content)
      ]
    ]
  ]
]
