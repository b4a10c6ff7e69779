-- ===== src/CommandCode/Json.antt =====
-- Decoded JSON documents, what the code takes from gjson (github.com/tidwall/gjson), and
-- commandcode/protocol.go's `commandCodeToolInput`.
use cpa_plugins.Base.{
  ℕ, String, Bool, true, false, ◌||◌, Option, none, some, ◌=ₛ◌, if◌then◌else◌, trim_space,
}

-- A number is kept as its literal.
mutual
  pub data Json : Type 0 where
    null : Json
    bool : Bool → Json
    num : String → Json
    str : String → Json
    arr : Items → Json
    obj : Fields → Json

  pub data Items : Type 0 where
    nil : Items
    cons : Json → Items → Items

  -- A map: the pairs that it holds, one for each key.
  pub data Fields : Type 0 where
    end : Fields
    field : String → Json → Fields → Fields

-- encoding/json between texts and documents. The theorems hold for any such pair of functions.
pub record Codec : Type 0 where
  pub unmarshal : String → Option Json
  pub marshal : Json → String

-- The type of a gjson.Result.
pub data Kind : Type 0 where
  null_kind false_kind number_kind string_kind true_kind json_kind : Kind

-- gjson: a result, `Get` by a path, and the readings of a result. `int` gives the bit pattern of an
-- int64. The theorems hold for any such functions.
pub record Gjson : Type 1 where
  pub Node : Type 0
  pub parse : String → Node
  pub valid : String → Bool
  pub get : Node → String → Node
  pub exists : Node → Bool
  pub is_object : Node → Bool
  pub kind : Node → Kind
  pub string : Node → String
  pub int : Node → ℕ
  pub boolean : Node → Bool
  pub raw : Node → String

-- `m[key]` of a map[string]any; the absent value reads as no value at all.
unfoldable pub field_of : Fields → String → Option Json
field_of end key = none
field_of (field k v fs) key = if k =ₛ key then some v else field_of fs key

-- `json.Unmarshal(raw, &text)` into a string: null leaves the empty text.
abbrev pub as_string : Option Json → Option String
as_string (some (str s)) = some s
as_string (some null) = some ""
as_string _ = none

abbrev string_or_empty : Option Json → String
string_or_empty (some (str s)) = s
string_or_empty _ = ""

abbrev single : Option Json → Option Json
single (some (arr (cons v nil))) = some v
single _ = none

abbrev fields_or_none : Option Json → Option Fields
fields_or_none (some (obj fs)) = some fs
fields_or_none _ = none

-- The name and whether the value is an array, by the property's type.
abbrev by_type : String → String → String × Bool
by_type name type_name =
    if type_name =ₛ "string"
    then (name, false)
    else if type_name =ₛ "array"
    then (name, true)
    else ("", false)

-- A missing `properties` object, like a missing property, is a nil map.
unfoldable pub property_of : Fields → String → String × Bool
unfolding field_of
property_of schema name = elim (fields_or_none (field_of schema "properties")) [
  | none ↦ ("", false)
  | some properties ↦ elim (fields_or_none (field_of properties name)) [
    | none ↦ ("", false)
    | some property ↦ by_type name (string_or_empty (field_of property "type"))
  ]
]

unfoldable pub single_required_property : Fields → String × Bool
unfolding property_of
single_required_property schema = elim (single (field_of schema "required")) [
  | some (str name) ↦ if name =ₛ "" then ("", false) else property_of schema name
  | _ ↦ ("", false)
]

module _ (codec : Codec) where
  open codec use {unmarshal}

  -- A text that is itself a JSON document is read again.
  abbrev reread : Json → Json
  reread (str text) = elim (unmarshal text) [ none ↦ str text | some decoded ↦ decoded ]
  reread value = value

  -- An array of one element stands for the element; `none` is the early return.
  abbrev unwrap : Json → Option Json
  unwrap (arr (cons v nil)) = some v
  unwrap (arr _) = none
  unwrap value = some value

  abbrev wrap_text : String × Bool → String → Fields
  wrap_text (property, array) text =
      if property =ₛ ""
      then end
      else if array
      then field property (arr (cons (str text) nil)) end
      else field property (str text) end

  abbrev to_input : Fields → Option Json → Fields
  to_input schema (some (obj fs)) = fs
  to_input schema (some (str text)) = wrap_text (single_required_property schema) text
  to_input schema _ = end

  abbrev decode_value : String → Option Json
  decode_value trimmed = elim (unmarshal trimmed) [
    | some value ↦ some value
    | none ↦ elim (as_string (unmarshal trimmed)) [ some text ↦ some (str text) | none ↦ none ]
  ]

  -- The result is a map: its pairs. A nil schema is the empty one.
  unfoldable pub tool_input : String → Fields → Fields
  unfolding single_required_property
  tool_input raw schema =
      let trimmed = trim_space raw in
      let decoded : Fields = elim (decode_value trimmed) [
        | none ↦ end
        | some value ↦ to_input schema (unwrap (reread value))
      ] in
      if trimmed =ₛ "" || trimmed =ₛ "null" then end else decoded
