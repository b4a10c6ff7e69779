-- ===== src/CommandCode/Models.antt =====
-- commandcode/protocol.go: what a request takes from the catalog of models, its output limit, its
-- reasoning effort and whether it may hold images.
pub mod Limits
use cpa_plugins.Base.{
  ℕ, ◌+◌, String, ◌++ₛ◌, ◌=ₛ◌, Bool, true, false, ◌&&◌, ◌||◌, List, [], ◌∷◌, Option, none, some, ℤ,
  pos, negsuc, ltb_ℤ, ◌≤ℤ◌, if◌then◌else◌, trim_space, equal_fold, decimal_ℤ,
}
use cpa_plugins.CommandCode.Catalog.{ModelInfo, command_code_models}
use cpa_plugins.CommandCode.Errors.{StreamError, status_error}

-- The loop of `lookupCommandCodeModelInfo` over a catalog.
unfoldable pub find_model : String → List ModelInfo → Option ModelInfo
find_model model [] = none
find_model model (info ∷ infos) =
    if trim_space info.id =ₛ model then some info else find_model model infos

unfoldable pub lookup_model_info : String → Option ModelInfo
unfolding find_model command_code_models
lookup_model_info model = find_model (trim_space model) command_code_models

unfoldable pub has_image : List String → Bool
has_image [] = false
has_image (modality ∷ modalities) = equal_fold (trim_space modality) "image" || has_image modalities

unfoldable pub model_supports_images : String → Bool
unfolding lookup_model_info has_image
model_supports_images model = elim (lookup_model_info model) [
  | none ↦ false
  | some info ↦ has_image info.supported_input_modalities
]

abbrev pub max_tokens_cap : ℤ
max_tokens_cap = pos 64000

unfoldable pub limit_of : Option ModelInfo → ℤ
limit_of none = max_tokens_cap
limit_of (some info) =
    if ltb_ℤ (pos 0) info.max_completion_tokens && ltb_ℤ info.max_completion_tokens max_tokens_cap
    then info.max_completion_tokens
    else max_tokens_cap

unfoldable pub model_max_tokens : String → ℤ
unfolding lookup_model_info limit_of
model_max_tokens model = limit_of (lookup_model_info model)

-- An int or a statusErr.
pub data Allowed : Type 0 where
  tokens : ℤ → Allowed
  rejected : StreamError → Allowed

-- The two returns behind the loop.
abbrev pub chosen : Option ℤ → Option ℤ → ℤ → ℤ
chosen (some n) completion limit = n
chosen none (some n) limit = n
chosen none none limit = limit

-- The error of the first field that has one.
abbrev pub unless_refused : Option StreamError → Option StreamError → ℤ → Allowed
unless_refused (some e) second n = rejected e
unless_refused none (some e) n = rejected e
unless_refused none none n = tokens n

-- `quote` is fmt's %q.
module _ (quote : String → String) where
  -- One turn of the loop: the error of a field, if it has one.
  unfoldable pub refuse : String → String → ℤ → Option ℤ → Option StreamError
  unfolding decimal_ℤ
  refuse name model limit none = none
  refuse name model limit (some value) =
      if ltb_ℤ value (pos 1)
      then some (status_error 400 (name ++ₛ " must be greater than 0"))
      else if ltb_ℤ limit value
      then some (
          status_error 400 (
            name
            ++ₛ " for CommandCode model "
            ++ₛ quote model
            ++ₛ " must be less than or equal to "
            ++ₛ decimal_ℤ limit))
      else none

  unfoldable pub max_tokens : Option ℤ → Option ℤ → String → Allowed
  unfolding refuse
  max_tokens tokens' completion model =
      let limit = model_max_tokens model in
      unless_refused (refuse "max_tokens" model limit tokens')
        (refuse "max_completion_tokens" model limit completion) (chosen tokens' completion limit)

-- The loop of `commandCodeReasoningEffort`.
unfoldable pub level_of : String → List String → String
level_of effort [] = ""
level_of effort (level ∷ levels) =
    if equal_fold effort (trim_space level) then trim_space level else level_of effort levels

abbrev pub levels_of : Option ModelInfo → List String
levels_of none = []
levels_of (some info) = elim info.thinking [ none ↦ [] | some levels ↦ levels ]

unfoldable pub reasoning_effort : String → String → String
unfolding level_of
reasoning_effort effort model =
    let effort' = trim_space effort in
    if effort' =ₛ "" then "" else level_of effort' (levels_of (lookup_model_info model))
