-- ===== src/Llm/Objects.antt =====
-- `map[string]any` as the tools of the source use it. A list of maps (`[]map[string]any`) and a
-- list of values (`[]any`) are different Go types, and have a constructor each.
use morign.Base.{Bool, Option, none, some, Text, text_eq, if◌then◌else◌}

mutual
  pub data Value : Type 0 where
    null : Value
    boolean : Bool → Value
    number : Text → Value
    str : Text → Value
    arr : Items → Value
    maps : Objects → Value
    obj : Fields → Value

  pub data Items : Type 0 where
    no_items : Items
    item : Value → Items → Items

  pub data Objects : Type 0 where
    no_objects : Objects
    object : Fields → Objects → Objects

  pub data Fields : Type 0 where
    no_fields : Fields
    field : Text → Value → Fields → Fields

-- `m[key]` with its second result.
unfoldable pub get_field : Text → Fields → Option Value
get_field key no_fields = none
get_field key (field k v rest) = if text_eq k key then some v else get_field key rest

-- `m[key].(string)` with its second result.
abbrev pub as_string : Option Value → Option Text
as_string (some (str s)) = some s
as_string _ = none

-- `m[key].(bool)` with its second result.
abbrev pub as_bool : Option Value → Option Bool
as_bool (some (boolean b)) = some b
as_bool _ = none

-- `m[key].(map[string]any)` with its second result.
abbrev pub as_object : Option Value → Option Fields
as_object (some (obj fields)) = some fields
as_object _ = none
