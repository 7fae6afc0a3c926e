-- ===== src/Tests/Spills.antt =====
-- Concrete tool records: pkg/services/stores/convo_record_x.go.
use morign.Base.{pos, ◌≡◌, refl, true, none, some, [], codes, ok, arith}
use morign.Llm.{status_ok, no_error}
use morign.Records.{
  Context, Table, Faults, Scope, tool_scope, spill_tool_result, upsert_tool_record, clamp_limit,
  page, read_tool_record,
}
use morign.Records.Pages.{pages, pages_whole}
use morign.Records.Rows.{spilled_text_stays}
use morign.Agent.ToolCalls.{ToolRecordSpill}

abbrev caller : Context
caller = record { turn = some 1; session = some 2; owner = 3 }

abbrev scope : Scope
scope = record { turn_id = 1; session_id = 2; owner_id = 3 }

abbrev spilled_result : ToolRecordSpill
spilled_result = record {
  seq = 0;
  call_id = codes "c1";
  tool_name = codes "fetch";
  arguments = [];
  status = status_ok;
  content = codes "whole";
  preview = codes "wh";
  spilled = true;
  error_code = no_error;
  duration_ms = 4;
}

abbrev blank_table : Table
blank_table = record { rows = []; next_id = 1 }

abbrev works : Faults
works = record { create = none; find = none; update = none }

spilled_text_stays_example :
    read_tool_record works
      (upsert_tool_record works
        (spill_tool_result works blank_table caller spilled_result).0
        caller
        spilled_result).0
      caller
      (some 1)
      (pos 1)
      (pos 2)
    ≡ ok (page (codes "whole") (pos 1) (pos 2), 5)
unfolding tool_scope
spilled_text_stays_example =
    spilled_text_stays works blank_table caller caller scope spilled_result spilled_result (pos 1)
      (pos 2) refl

pages_whole_example : pages 3 (codes "whole") 0 (pos 2) ≡ codes "whole"
unfolding clamp_limit
pages_whole_example = pages_whole 3 (codes "whole") (pos 2) (omega arith)
