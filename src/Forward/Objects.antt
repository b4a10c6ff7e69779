-- ===== src/Forward/Objects.antt =====
-- embeddings-forward/decisions.go: JSON objects whose members keep their order. json.Decoder gives the
-- members of an object in their order, repeated ones included, or an error (`none`); a raw value is the
-- text of its bytes.
pub mod Order
pub mod Values
use cpa_plugins.Base.{
  ℕ, String, ◌++ₛ◌, List, [], ◌∷◌, ◌++◌, map, Option, none, some, length, get_or, set, update,
}
use cpa_plugins.Forward.Decisions.{Field}

abbrev pub Member : Type 0
Member = String × String

abbrev pub no_field : Field
no_field = record { key = ""; value = "" }

-- `fields` and `index`.
pub record Ordered : Type 0 where
  pub fields : List Field
  pub index : String → Option ℕ

abbrev pub nothing : Ordered
nothing = record { fields = []; index = λ k. none }

-- One turn of the loop of `orderedObject`.
unfoldable pub insert_at : Option ℕ → Member → Ordered → Ordered
insert_at (some i) (key, value) o = record o {
  fields = set o.fields i (record (get_or o.fields i no_field) { value = value });
}
insert_at none (key, value) o = record {
  fields = o.fields ++ record { key = key; value = value } ∷ [];
  index = update o.index key (some (length o.fields));
}

unfoldable pub insert_all : List Member → Ordered → Ordered
unfolding insert_at
insert_all [] o = o
insert_all (m ∷ ms) o = insert_all ms (insert_at (o.index m.0) m o)

module _ (members : String → Option (List Member)) where
  unfoldable pub ordered_object : String → Option (List Field)
  unfolding insert_all
  ordered_object raw = elim (members raw) [
    | none ↦ none
    | some ms ↦ some (insert_all ms nothing).fields
  ]

-- The loop of `encodeObject`; `quote` is json.Marshal of a string.
module _ (quote : String → String) where
  unfoldable pub encode_members : List Field → String
  encode_members [] = ""
  encode_members (f ∷ []) = quote f.key ++ₛ ":" ++ₛ f.value
  encode_members (f ∷ g ∷ fs) = quote f.key ++ₛ ":" ++ₛ f.value ++ₛ "," ++ₛ encode_members (g ∷ fs)

  unfoldable pub encode_object : List Field → String
  unfolding encode_members
  encode_object fs = "{" ++ₛ encode_members fs ++ₛ "}"
