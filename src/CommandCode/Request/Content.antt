-- ===== src/CommandCode/Request/Content.antt =====
-- commandcode/protocol.go: the content of a message, as text or as parts.
use cpa_plugins.Base.{
  String, ◌=ₛ◌, Bool, not, ◌||◌, List, [], ◌∷◌, ◌++◌, Option, none, some, if◌then◌else◌, trim_space,
  lower_is, lower_starts, join, split_at_code, drop_chars,
}
use cpa_plugins.CommandCode.Json.{
  Json, null, str, arr, obj, Items, nil, cons, Fields, end, Codec, field_of, as_string,
}
use cpa_plugins.CommandCode.Request.{Part, text_part, reasoning_part, image_part}

-- stringValueFromMap
unfoldable pub string_value : Fields → String → String
unfolding field_of
string_value fs key = elim (field_of fs key) [ some (str s) ↦ s | _ ↦ "" ]

-- An array of objects, as `json.Unmarshal` reads it into maps: null is the nil map.
unfoldable pub objects_of : Items → Option (List Fields)
objects_of nil = some []
objects_of (cons (obj fs) items) = elim (objects_of items) [
  | none ↦ none
  | some rest ↦ some (fs ∷ rest)
]
objects_of (cons null items) = elim (objects_of items) [
  | none ↦ none
  | some rest ↦ some (end ∷ rest)
]
objects_of (cons _ items) = none

abbrev as_objects : Option Json → Option (List Fields)
as_objects (some (arr items)) = objects_of items
as_objects _ = none

abbrev is_blank : String → Bool
is_blank trimmed = trimmed =ₛ "" || trimmed =ₛ "null"

-- A content is a text, or a list of objects, or neither.
pub data Shape : Type 0 where
  blank : Shape
  one_text : String → Shape
  objects : List Fields → Shape
  malformed : String → Shape

abbrev shape_of_objects : String → Option (List Fields) → Shape
shape_of_objects trimmed none = malformed trimmed
shape_of_objects trimmed (some parts) = objects parts

abbrev shape_of_text : String → Option String → Shape → Shape
shape_of_text trimmed (some text) other = one_text text
shape_of_text trimmed none other = other

-- The steps that the readers of a content begin with.
module _ (codec : Codec) where
  unfoldable pub shape : String → Shape
  unfolding objects_of
  shape raw =
      let trimmed = trim_space raw in
      let decoded = codec.unmarshal trimmed in
      if is_blank trimmed
      then blank
      else shape_of_text trimmed (as_string decoded) (shape_of_objects trimmed (as_objects decoded))

-- The media type of a data URL, which ends at its first semicolon; the scheme has five characters.
abbrev media_type : Option (String × String) → String
media_type none = ""
media_type (some (before, after)) = drop_chars 5 before

-- The URL and its media type.
unfoldable pub image_url : String → String × String
image_url raw =
    let value = trim_space raw in
    if value =ₛ ""
    then ("", "")
    else if lower_starts value "data:"
    then (value, media_type (split_at_code 59 value))
    else (value, "")

-- An image, unless it has no URL; a model for texts alone gets a text in its place.
abbrev image_parts : Bool → String → String → List Part
image_parts allow_images url mime_type =
    if url =ₛ ""
    then []
    else if not allow_images
    then text_part "[image omitted: the active model is text-only]" ∷ []
    else image_part url mime_type ∷ []

abbrev nested_url : Fields → Option Json → String
nested_url part (some (obj nested)) = string_value nested "url"
nested_url part _ = string_value part "url"

abbrev explicit_or : String → String → String
explicit_or explicit mime_type = if explicit =ₛ "" then mime_type else explicit

abbrev is_type : Fields → String → Bool
is_type part name = lower_is (trim_space (string_value part "type")) name

-- The parts that one object gives.
unfoldable pub user_part : Bool → Fields → List Part
unfolding string_value image_url
user_part allow_images part =
    let linked = image_url (nested_url part (field_of part "image_url")) in
    let held = image_url (string_value part "image") in
    if is_type part "text" || is_type part "input_text"
    then text_part (string_value part "text") ∷ []
    else if is_type part "image_url"
    then image_parts allow_images linked.0 linked.1
    else if is_type part "image"
    then image_parts allow_images held.0 (explicit_or (string_value part "mimeType") held.1)
    else []

unfoldable pub user_parts : Bool → List Fields → List Part
user_parts allow_images [] = []
user_parts allow_images (part ∷ parts) =
    user_part allow_images part ++ user_parts allow_images parts

unfoldable pub user_of_shape : Bool → Shape → List Part
unfolding user_parts
user_of_shape allow_images blank = []
user_of_shape allow_images (one_text text) = text_part text ∷ []
user_of_shape allow_images (objects parts) = user_parts allow_images parts
user_of_shape allow_images (malformed trimmed) = []

abbrev reasoning_parts : String → List Part
reasoning_parts text = if text =ₛ "" then [] else reasoning_part text ∷ []

unfoldable pub assistant_part : Fields → List Part
unfolding string_value
assistant_part part =
    let thinking = string_value part "thinking" in
    if is_type part "text" || is_type part "output_text"
    then text_part (string_value part "text") ∷ []
    else if is_type part "thinking" || is_type part "reasoning"
    then reasoning_parts (if thinking =ₛ "" then string_value part "text" else thinking)
    else []

unfoldable pub assistant_parts : List Fields → List Part
assistant_parts [] = []
assistant_parts (part ∷ parts) = assistant_part part ++ assistant_parts parts

unfoldable pub assistant_of_shape : Shape → List Part
unfolding assistant_parts
assistant_of_shape blank = []
assistant_of_shape (one_text text) = if text =ₛ "" then [] else text_part text ∷ []
assistant_of_shape (objects parts) = assistant_parts parts
assistant_of_shape (malformed trimmed) = []

-- The type is not trimmed here.
abbrev is_text_type : String → Bool
is_text_type t = lower_is t "text" || lower_is t "input_text" || lower_is t "output_text"

unfoldable pub texts_of : List Fields → List String
unfolding string_value
texts_of [] = []
texts_of (part ∷ parts) =
    let rest = texts_of parts in
    if is_text_type (string_value part "type") then string_value part "text" ∷ rest else rest

unfoldable pub text_of_shape : Shape → String
unfolding texts_of
text_of_shape blank = ""
text_of_shape (one_text text) = text
text_of_shape (objects parts) = join "\n" (texts_of parts)
text_of_shape (malformed trimmed) = trimmed

module _ (codec : Codec) where
  unfoldable pub user_content : String → Bool → List Part
  unfolding shape user_of_shape
  user_content raw allow_images = user_of_shape allow_images (shape codec raw)

  unfoldable pub assistant_content_parts : String → List Part
  unfolding shape assistant_of_shape
  assistant_content_parts raw = assistant_of_shape (shape codec raw)

  unfoldable pub text_from_raw_content : String → String
  unfolding shape text_of_shape
  text_from_raw_content raw = text_of_shape (shape codec raw)
