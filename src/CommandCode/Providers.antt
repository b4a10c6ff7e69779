-- ===== src/CommandCode/Providers.antt =====
-- commandcode/plugin.go: the models that the provider lists, and those that the host configures. gjson,
-- strings.EqualFold of two texts and filepath.Match of their lower cases are parameters.
pub mod Listed
pub mod Configured
use cpa_plugins.Base.{
  zero, String, ◌++ₛ◌, ◌=ₛ◌, Bool, true, false, not, ◌&&◌, ◌||◌, List, [], ◌∷◌, ◌++◌, Option, none,
  some, ℤ, pos, negsuc, ltb_ℤ, of_bits, if◌then◌else◌, trim_space, trim_slashes, has_suffix, is_in,
  update, leb, ltb,
}
use cpa_plugins.CommandCode.Catalog.{ModelInfo, endpoints, command_code_models}
use cpa_plugins.CommandCode.Json.{Gjson}
use cpa_plugins.CommandCode.Models.{max_tokens_cap}

pub record ModelAlias : Type 0 where
  pub name : String
  pub alias : String

-- The `static` map: a later model replaces an earlier one of its id.
unfoldable pub static_from :
    List ModelInfo → (String → Option ModelInfo) → String → Option ModelInfo
static_from [] known = known
static_from (info ∷ infos) known = static_from infos (update known info.id (some info))

unfoldable pub static_models : String → Option ModelInfo
unfolding static_from command_code_models
static_models = static_from command_code_models λ id. none

abbrev display_name : String → String → String
display_name name id =
    let shown = if name =ₛ "" then id else name in
    if has_suffix shown " (CC)" then shown else shown ++ₛ " (CC)"

abbrev is_zero : ℤ → Bool
is_zero (pos zero) = true
is_zero _ = false

abbrev pub capped : ℤ → ℤ
capped context_length =
    if ltb_ℤ (pos 0) context_length && ltb_ℤ context_length max_tokens_cap
    then context_length
    else max_tokens_cap

-- What a model of the catalog with the same id gives.
unfoldable pub with_fallback : Option ModelInfo → ModelInfo → ModelInfo
with_fallback none model = model
with_fallback (some fallback) model = record model {
  max_completion_tokens = fallback.max_completion_tokens;
  supported_input_modalities = fallback.supported_input_modalities;
  thinking = fallback.thinking;
}

module _ (gjson : Gjson) (now : ℤ) where
  open gjson use {Node}

  abbrev text_at : Node → String → String
  text_at item key = trim_space (gjson.string (gjson.get item key))

  abbrev int_at : Node → String → ℤ
  int_at item key = of_bits (gjson.int (gjson.get item key))

  abbrev or_now : ℤ → ℤ
  or_now created = if is_zero created then now else created

  unfoldable pub listed_model : Node → String → ModelInfo
  unfolding static_models with_fallback
  listed_model item id = with_fallback (static_models id) (record {
    id = id;
    object = "model";
    created = or_now (int_at item "created");
    owned_by = "command-code";
    type_name = "commandcode";
    display_name = display_name (text_at item "name") id;
    name = "";
    version = id;
    description = "";
    context_length = int_at item "context_length";
    max_completion_tokens = capped (int_at item "context_length");
    supported_parameters = "tools" ∷ [];
    supported_endpoints = endpoints;
    supported_input_modalities = "text" ∷ [];
    supported_output_modalities = "text" ∷ [];
    thinking = none;
  })

  -- The loop over the items of `data`, with the ids seen so far.
  unfoldable pub list_models : List String → List Node → List ModelInfo
  unfolding listed_model
  list_models seen [] = []
  list_models seen (item ∷ items) =
      let id = text_at item "id" in
      let rest = list_models seen items in
      let rest' = list_models (id ∷ seen) items in
      if id =ₛ "" || is_in id seen then rest else listed_model item id ∷ rest'

  -- `data_of` is the array under `data` of a body.
  module _ (data_of : String → List Node) where
    unfoldable pub models_from_response : String → List ModelInfo
    unfolding list_models
    models_from_response body = list_models [] (data_of body)

    abbrev or_builtin : List ModelInfo → List ModelInfo
    or_builtin [] = command_code_models
    or_builtin (m ∷ ms) = m ∷ ms

    abbrev is_2xx : ℤ → Bool
    is_2xx (pos n) = leb 200 n && ltb n 300
    is_2xx (negsuc n) = false

    -- The status and the body of the response to the request for this URL, `none` for an error.
    unfoldable pub fetch_models : (String → Option (ℤ × String)) → String → List ModelInfo
    unfolding models_from_response command_code_models
    fetch_models get base_url = elim (get (trim_slashes base_url ++ₛ "/provider/v1/models")) [
      | none ↦ command_code_models
      | some (status, body) ↦
          if is_2xx status then or_builtin (models_from_response body) else command_code_models
    ]

module _ (same_fold is_match : String → String → Bool) where
  unfoldable pub excluded_model : String → List String → Bool
  excluded_model model [] = false
  excluded_model model (pattern ∷ patterns) =
      same_fold pattern model || is_match pattern model || excluded_model model patterns

  -- The inner loop.
  unfoldable pub aliased : ModelInfo → List String → List ModelAlias → List ModelInfo
  unfolding excluded_model
  aliased model excluded [] = []
  aliased model excluded (a ∷ aliases) =
      let rest = aliased model excluded aliases in
      if a.name =ₛ model.id && not (a.alias =ₛ "") && not (excluded_model a.alias excluded)
      then record model { id = a.alias; name = model.id } ∷ rest
      else rest

  unfoldable pub configured_models : List ModelInfo → List ModelAlias → List String → List ModelInfo
  unfolding aliased excluded_model
  configured_models [] aliases excluded = []
  configured_models (model ∷ models) aliases excluded =
      let rest = configured_models models aliases excluded in
      if excluded_model model.id excluded
      then rest
      else (model ∷ aliased model excluded aliases) ++ rest
