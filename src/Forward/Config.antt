-- ===== src/Forward/Config.antt =====
-- embeddings-forward/config.go: the configuration's records and the choice of providers.
use cpa_plugins.Base.{
  String, Bool, false, ◌||◌, List, [], ◌∷◌, ◌++◌, Option, none, some, ℤ, ◌=ₛ◌, if◌then◌else◌,
}

pub record ModelMapping : Type 0 where
  pub name : String
  pub alias : String
  pub string_instructions : Bool

-- The strategy is "failover" or "round_robin" and the limits are not negative: `normalize` sees to it.
pub record Provider : Type 0 where
  pub name : String
  pub base_url : String
  pub path : String
  pub api_keys : List String
  pub models : List ModelMapping
  pub strategy : String
  pub cooldown_seconds : ℤ
  pub api : String
  pub max_questions : ℤ
  pub max_concurrency : ℤ
  pub url : String

pub record Module : Type 0 where
  pub enabled : Bool
  pub providers : List Provider

-- The provider is a pointer in the source; it is only read here.
pub record Match : Type 0 where
  pub provider : Provider
  pub mapping : ModelMapping

unfoldable pub effective_alias : ModelMapping → String
effective_alias mm = if mm.alias =ₛ "" then mm.name else mm.alias

-- Does a mapping serve the client's model?
unfoldable pub serves : String → ModelMapping → Bool
unfolding effective_alias
serves client_model mm = effective_alias mm =ₛ client_model || mm.name =ₛ client_model

-- The inner loop of `resolve`, with its `break`.
unfoldable pub first_mapping : String → List ModelMapping → Option ModelMapping
unfolding serves
first_mapping client_model [] = none
first_mapping client_model (mm ∷ rest) =
    if serves client_model mm then some mm else first_mapping client_model rest

-- What one provider adds to the matches.
unfoldable pub match_of : String → Provider → List ModelMapping → List Match
unfolding first_mapping
match_of client_model p [] =
    record {
      provider = p;
      mapping = record { name = client_model; alias = ""; string_instructions = false };
    }
    ∷ []
match_of client_model p (m ∷ ms) = elim (first_mapping client_model (m ∷ ms)) [
  | none ↦ []
  | some mm ↦ record { provider = p; mapping = mm } ∷ []
]

unfoldable pub resolve_from : String → List Provider → List Match
unfolding match_of
resolve_from client_model [] = []
resolve_from client_model (p ∷ ps) =
    match_of client_model p p.models ++ resolve_from client_model ps

unfoldable pub resolve : Module → String → List Match
unfolding resolve_from
resolve m client_model = resolve_from client_model m.providers
