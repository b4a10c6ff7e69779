-- ===== src/Forward/Bodies.antt =====
-- embeddings-forward/decisions.go: the bodies of the requests for the questions, and the merged answer.
-- A map of raw values is the list of its fields, one for each key. The decoders and encoders of
-- encoding/json, and the floats of strconv, are parameters.
use cpa_plugins.Base.{
  String, ◌=ₛ◌, Bool, ◌&&◌, ◌||◌, List, [], ◌∷◌, Option, none, some, if◌then◌else◌, trim_space,
  has_prefix, is_in,
}
use cpa_plugins.Forward.Config.{Match}
use cpa_plugins.Forward.Decisions.{Field}
use cpa_plugins.Forward.Objects.{Member, ordered_object, encode_object}

-- m[key] = value
unfoldable pub put_raw : String → String → List Field → List Field
put_raw key value [] = record { key = key; value = value } ∷ []
put_raw key value (f ∷ fs) =
    if f.key =ₛ key then record f { value = value } ∷ fs else f ∷ put_raw key value fs

-- value, ok := m[key]
unfoldable pub raw_of : String → List Field → Option String
raw_of key [] = none
raw_of key (f ∷ fs) = if f.key =ₛ key then some f.value else raw_of key fs

abbrev pub raw_or_empty : Option String → String
raw_or_empty none = ""
raw_or_empty (some raw) = raw

-- strings.Contains
unfoldable pub contains : String → String → Bool
contains String.[] t = t =ₛ ""
contains (String.◌∷◌ c s) t = has_prefix (String.◌∷◌ c s) t || contains s t

-- Fields that only the decisions API knows.
abbrev decisions_only_fields : List String
decisions_only_fields = "provider" ∷ "session_id" ∷ "trace" ∷ "user" ∷ []

-- json.Unmarshal into a map of raw values: an error, the nil map of null, or the fields.
pub data Raw : Type 0 where
  malformed : Raw
  nil_map : Raw
  raw_map : List Field → Raw

abbrev fields_or_none : Raw → List Field
fields_or_none (raw_map fs) = fs
fields_or_none _ = []

-- `marshal` is `mustJSON` of a map of raw values.
unfoldable pub with_field : (List Field → String) → List Field → String → String → String
unfolding put_raw
with_field marshal top name value = marshal (put_raw name value top)

-- `quote` is `mustJSON` of a text and `marshal` of a map of raw values, `compact` is json.Compact,
-- `members` the members of an object in their order and `unmarshal` the decoder of a map.
module _ (quote : String → String) (marshal : List Field → String)
    (compact : String → Option String) (members : String → Option (List Member))
    (unmarshal : String → Raw) where
  abbrev set_instructions : String → List Field → Option String → String
  set_instructions question object none = question
  set_instructions question object (some text) =
      marshal (put_raw "instructions" (quote text) object)

  abbrev encode_instructions : String → List Field → Option String → String
  encode_instructions question object none = question
  encode_instructions question object (some instructions) =
      if has_prefix (trim_space instructions) "\""
      then question
      else set_instructions question object (compact instructions)

  unfoldable pub string_instructions : String → String
  unfolding put_raw raw_of
  string_instructions question = elim (unmarshal question) [
    | malformed ↦ question
    | nil_map ↦ question
    | raw_map object ↦ encode_instructions question object (raw_of "instructions" object)
  ]

  -- The loop over the assets.
  unfoldable pub keep_referenced : String → String → List Field → List Field
  unfolding contains
  keep_referenced state questions [] = []
  keep_referenced state questions (asset ∷ assets) =
      let rest = keep_referenced state questions assets in
      if contains state asset.key || contains questions asset.key then asset ∷ rest else rest

  unfoldable pub referenced_assets : String → String → String → String
  unfolding keep_referenced ordered_object encode_object
  referenced_assets assets state questions = elim (ordered_object members assets) [
    | none ↦ assets
    | some fields ↦ encode_object quote (keep_referenced state questions fields)
  ]

  unfoldable pub encoded_batch : Bool → List Field → List Field
  unfolding string_instructions
  encoded_batch strings [] = []
  encoded_batch strings (q ∷ qs) =
      record q { value = if strings then string_instructions q.value else q.value }
      ∷ encoded_batch strings qs

  -- The loop that copies the fields of the request.
  unfoldable pub copied : Bool → List Field → List Field
  copied systemone [] = []
  copied systemone (f ∷ fs) =
      let rest = copied systemone fs in
      if systemone && is_in f.key decisions_only_fields then rest else f ∷ rest

  abbrev with_assets : Option String → Bool → String → String → List Field → List Field
  with_assets none batched state questions out = out
  with_assets (some assets) batched state questions out =
      if batched then put_raw "assets" (referenced_assets assets state questions) out else out

  unfoldable pub decision_body : List Field → Match → List Field → Bool → String
  unfolding put_raw raw_of encoded_batch copied referenced_assets encode_object
  decision_body top m batch batched =
      let out =
        put_raw "model" (quote m.mapping.name) (copied (m.provider.api =ₛ "systemone") top) in
      let questions = encode_object quote (encoded_batch m.mapping.string_instructions batch) in
      marshal (
        with_assets (raw_of "assets" top) batched (raw_or_empty (raw_of "state" top)) questions
          (put_raw "questions" questions out))
