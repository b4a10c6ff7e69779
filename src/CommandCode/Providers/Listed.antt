-- ===== src/CommandCode/Providers/Listed.antt =====
-- commandcode/plugin.go: the models that the provider lists.
use mathlib.Core.Bool.{true≢false}
use cpa_plugins.Base.{
  ◌≡◌, refl, sym, ap, ◌∙◌, subst, String, ◌=ₛ◌, Bool, true, false, ◌||◌, List, [], ◌∷◌, Option,
  none, some, ℤ, pos, ◌≤ℤ◌, of_bits, if◌then◌else◌, Bool-cases, inl, inr, All, is_in, update, arith,
  trim_space,
}
use cpa_plugins.CommandCode.Catalog.{ModelInfo, command_code_models}
use cpa_plugins.CommandCode.Json.{Gjson}
use cpa_plugins.CommandCode.Models.{max_tokens_cap}
use cpa_plugins.CommandCode.Providers.{
  static_from, static_models, capped, with_fallback, listed_model, list_models,
  models_from_response,
}

-- A limit from 1 to 64000.
abbrev pub IsLimited : ModelInfo → Type 0
IsLimited m = (pos 1 ≤ℤ m.max_completion_tokens) × (m.max_completion_tokens ≤ℤ max_tokens_cap)

-- Ids that are not seen, none of them twice.
unfoldable pub AreFresh : List String → List ModelInfo → Type 0
AreFresh seen [] = Unit
AreFresh seen (m ∷ ms) = (is_in m.id seen ≡ false) × AreFresh (m.id ∷ seen) ms

abbrev AllLimited : List ModelInfo → Type 0
AllLimited ms = All IsLimited ms

builtin-IsLimited : AllLimited command_code_models
unfolding command_code_models
builtin-IsLimited = ground arith

LimitedOr : Option ModelInfo → Type 0
LimitedOr none = Unit
LimitedOr (some m) = IsLimited m

LimitedOr-if :
    (b : Bool) (o p : Option ModelInfo) → LimitedOr o → LimitedOr p → LimitedOr (if b then o else p)
LimitedOr-if true o p h k = h
LimitedOr-if false o p h k = k

static_from-Limited :
    (ms : List ModelInfo) (known : String → Option ModelInfo) (id : String)
    → AllLimited ms
    → ((key : String) → LimitedOr (known key))
    → LimitedOr (static_from ms known id)
unfolding static_from LimitedOr
static_from-Limited [] known id h k = k id
static_from-Limited (m ∷ ms) known id (h, hs) k =
    static_from-Limited ms (update known m.id (some m)) id hs
      λ key. LimitedOr-if (m.id =ₛ key) (some m) (known key) h (k key)

capped-limits : (n : ℤ) → (pos 1 ≤ℤ capped n) × (capped n ≤ℤ max_tokens_cap)
capped-limits n = ground arith

static_models-Limited : (id : String) → LimitedOr (static_models id)
unfolding static_models LimitedOr
static_models-Limited id =
    static_from-Limited command_code_models (λ key. none) id builtin-IsLimited λ key. tt

with_fallback-IsLimited :
    (o : Option ModelInfo) (m : ModelInfo)
    → LimitedOr o
    → IsLimited m
    → IsLimited (with_fallback o m)
unfolding with_fallback LimitedOr
with_fallback-IsLimited none m h k = k
with_fallback-IsLimited (some fallback) m h k = h

with_fallback-id : (o : Option ModelInfo) (m : ModelInfo) → (with_fallback o m).id ≡ m.id
unfolding with_fallback
with_fallback-id none m = refl
with_fallback-id (some fallback) m = refl

right_false : (a b : Bool) → (a || b) ≡ false → b ≡ false
right_false false b e = e
right_false true b e = absurd (true≢false e)

module _ (gjson : Gjson) (now : ℤ) where
  open gjson use {Node}

  listed_model-IsLimited : (item : Node) (id : String) → IsLimited (listed_model gjson now item id)
  unfolding listed_model
  listed_model-IsLimited item id =
      with_fallback-IsLimited (static_models id) _ (static_models-Limited id)
        (capped-limits (of_bits (gjson.int (gjson.get item "context_length"))))

  listed_model-id : (item : Node) (id : String) → (listed_model gjson now item id).id ≡ id
  unfolding listed_model
  listed_model-id item id = with_fallback-id (static_models id) _

  abbrev IsListed : List String → List ModelInfo → Type 0
  IsListed seen ms = AllLimited ms × AreFresh seen ms

  IsListed-if :
      (seen : List String) (item : Node) (id : String) (rest rest' : List ModelInfo)
      → IsListed seen rest
      → IsListed (id ∷ seen) rest'
      → IsListed seen
          (if id =ₛ "" || is_in id seen then rest else listed_model gjson now item id ∷ rest')
  unfolding AreFresh
  IsListed-if seen item id rest rest' h k = elim (Bool-cases (id =ₛ "" || is_in id seen)) [
    | inl e ↦ rw (e, if◌then◌else◌) h
    | inr e ↦
        rw (e, if◌then◌else◌)
          (
            (listed_model-IsLimited item id, k.0),
            (
              ap (λ x. is_in x seen) (listed_model-id item id)
                  ∙ right_false (id =ₛ "") (is_in id seen) e,
              subst (λ x. AreFresh (x ∷ seen) rest') (sym (listed_model-id item id)) k.1,
            ),
          )
  ]

  list_models-IsListed :
      (seen : List String) (items : List Node) → IsListed seen (list_models gjson now seen items)
  unfolding list_models AreFresh
  list_models-IsListed seen [] = (tt, tt)
  list_models-IsListed seen (item ∷ items) =
      IsListed-if seen item _ _ _ (list_models-IsListed seen items)
        (list_models-IsListed (trim_space (gjson.string (gjson.get item "id")) ∷ seen) items)

  -- The models that a response of the provider lists have different ids, and an output limit from 1 to
  -- 64000 each, whatever numbers the response holds.
  pub models_from_response-IsLimited :
      (data_of : String → List Node) (body : String)
      → All IsLimited (models_from_response gjson now data_of body)
        × AreFresh [] (models_from_response gjson now data_of body)
  unfolding models_from_response
  models_from_response-IsLimited data_of body = list_models-IsListed [] (data_of body)
