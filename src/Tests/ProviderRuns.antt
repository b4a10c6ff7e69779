-- ===== src/Tests/ProviderRuns.antt =====
-- commandcode/plugin.go and embeddings-forward: concrete models, objects and usage.
use cpa_plugins.Base.{
  ◌≡◌, refl, String, ◌=ₛ◌, Bool, true, false, List, [], ◌∷◌, Option, some, pos, All, if◌then◌else◌,
  trim_space, atoi,
}
use cpa_plugins.CommandCode.Catalog.{command_code_models}
use cpa_plugins.CommandCode.Json.{Gjson, string_kind}
use cpa_plugins.CommandCode.Providers.{excluded_model, configured_models, models_from_response}
use cpa_plugins.CommandCode.Providers.Configured.{configured_models-IsOffered}
use cpa_plugins.CommandCode.Providers.Listed.{IsLimited, AreFresh, models_from_response-IsLimited}
use cpa_plugins.Forward.Bodies.{raw_of}
use cpa_plugins.Forward.Calls.{UpstreamResult, no_result}
use cpa_plugins.Forward.Decisions.{Field}
use cpa_plugins.Forward.Merged.{Floats, summed}
use cpa_plugins.Forward.Merged.Fields.{is_whole}
use cpa_plugins.Forward.Merged.Sums.{has_key, sum_bits, all_fields, expected, summed-whole}
use cpa_plugins.Forward.Objects.{Member, ordered_object}
use cpa_plugins.Forward.Objects.Order.{
  keys_of, first_keys, value_of, last_value, ordered_object_lem,
}

abbrev repeated : List Member
repeated = ("a", "1") ∷ ("b", "2") ∷ ("a", "3") ∷ []

abbrev members_of : String → Option (List Member)
members_of raw = some repeated

ordered_object_example :
    (fs : List Field) × (ordered_object members_of "{}" ≡ some fs)
    × (keys_of fs ≡ first_keys [] repeated)
    × (value_of "a" fs ≡ last_value "a" repeated)
ordered_object_example = ordered_object_lem members_of "{}" "a" repeated refl

-- Texts as floats.
abbrev text_floats : Floats
text_floats = record {
  Float = String;
  parse = λ s. some s;
  of_int = λ n. "";
  zero_float = "0";
  add = λ a b. b;
  format = λ a. a;
}

abbrev usage_of : String → List Field
usage_of body =
    if body =ₛ "one"
    then record { key = "tokens"; value = "7" } ∷ []
    else record { key = "tokens"; value = "-3" } ∷ record { key = "cost"; value = "0.5" } ∷ []

abbrev two_results : List UpstreamResult
two_results = record no_result { body = "one" } ∷ record no_result { body = "two" } ∷ []

tokens-whole :
    All (λ f. is_whole text_floats "tokens" f ≡ true) (all_fields text_floats usage_of two_results)
unfolding is_whole all_fields atoi trim_space
tokens-whole = (refl, (refl, (refl, tt)))

summed_example :
    raw_of "tokens" (summed text_floats usage_of two_results)
    ≡ expected text_floats
        (has_key "tokens" (all_fields text_floats usage_of two_results))
        (sum_bits "tokens" (all_fields text_floats usage_of two_results))
summed_example = summed-whole text_floats usage_of "tokens" two_results tokens-whole

abbrev same : String → String → Bool
same s t = s =ₛ t

configured_models_example :
    All
      (λ m. excluded_model same same m.id ("gpt-5.5" ∷ "hidden" ∷ []) ≡ false)
      (configured_models same same command_code_models
        (record { name = "gpt-5.4"; alias = "hidden" } ∷ [])
        ("gpt-5.5" ∷ "hidden" ∷ []))
configured_models_example =
    configured_models-IsOffered same same ("gpt-5.5" ∷ "hidden" ∷ []) command_code_models
      (record { name = "gpt-5.4"; alias = "hidden" } ∷ [])

-- A node is the text that it holds; a number is 300.
abbrev text_nodes : Gjson
text_nodes = record {
  Node = String;
  parse = λ s. s;
  valid = λ s. true;
  get = λ n key. if key =ₛ "id" then n else "";
  exists = λ n. true;
  is_object = λ n. true;
  kind = λ n. string_kind;
  string = λ n. n;
  int = λ n. 300;
  boolean = λ n. false;
  raw = λ n. n;
}

abbrev three_items : String → List String
three_items body = "new-model" ∷ "gpt-5.5" ∷ " new-model" ∷ []

models_from_response_example :
    All IsLimited (models_from_response text_nodes (pos 5) three_items "")
    × AreFresh [] (models_from_response text_nodes (pos 5) three_items "")
models_from_response_example = models_from_response-IsLimited text_nodes (pos 5) three_items ""
