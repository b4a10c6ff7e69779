-- ===== src/Forward/Normalize.antt =====
-- embeddings-forward/config.go: the checks and defaults of a parsed configuration. `url.Parse` is a
-- parameter. A configuration comes from `yaml.Unmarshal`, which is not modelled.
pub mod Accepted
pub mod Modules
use Prim.Native.String
use cpa_plugins.Base.{
  is_in, ℕ, String, Char, code, ◌++ₛ◌, ◌=ₛ◌, starts_with, Bool, true, false, not, ◌&&◌, ◌||◌, List,
  [], ◌∷◌, ◌++◌, map, Option, none, some, ℤ, pos, negsuc, ltb_ℤ, ◌==◌, if◌then◌else◌, trim_space,
  trim_slashes, lower_is,
}
use cpa_plugins.Forward.Config.{ModelMapping, Provider, Module}
use cpa_plugins.Forward.Keys.{is_zero}

pub record ParsedUrl : Type 0 where
  pub scheme : String
  pub host : String
  pub has_user : Bool
  pub raw_query : String
  pub fragment : String
  pub path : String
  pub text : String

pub data Fault : Type 0 where
  name_required no_api_keys invalid_api_key unknown_strategy unknown_api only_decisions
        negative_limit :
      Fault
  model_without_name invalid_url without_providers duplicate_name : Fault

pub data Checked (A : Type 0) : Type 0 where
  ok : A → Checked A
  rejected : Fault → Checked A

-- An early return.
unfoldable pub unless_fault : {A : Type 0} → Bool → Fault → Checked A → Checked A
unless_fault true fault rest = rejected fault
unless_fault false fault rest = rest

-- strings.ContainsAny(key, "\r\n")
unfoldable pub has_line_break : String → Bool
has_line_break String.[] = false
has_line_break (String.◌∷◌ c s) = code c == 13 || code c == 10 || has_line_break s

unfoldable pub is_bad_key : String → Bool
is_bad_key key = trim_space key =ₛ "" || has_line_break key

unfoldable pub any_bad_key : List String → Bool
any_bad_key [] = false
any_bad_key (key ∷ keys) = is_bad_key key || any_bad_key keys

unfoldable pub any_unnamed : List ModelMapping → Bool
any_unnamed [] = false
any_unnamed (m ∷ ms) = trim_space m.name =ₛ "" || any_unnamed ms

abbrev pub no_keys : List String → Bool
no_keys [] = true
no_keys _ = false

abbrev pub no_providers : List Provider → Bool
no_providers [] = true
no_providers _ = false

-- The `switch` on the strategy; `none` is its default.
unfoldable pub strategy_of : String → Option String
strategy_of s =
    if trim_space s =ₛ "" || lower_is (trim_space s) "failover"
    then some "failover"
    else if lower_is (trim_space s) "round_robin"
    then some "round_robin"
    else none

-- The `switch` on the API of a decisions provider.
unfoldable pub api_of : String → Option String
api_of api =
    if api =ₛ ""
    then some "decisions"
    else if api =ₛ "decisions" || api =ₛ "systemone"
    then some api
    else none

abbrev pub is_negative : ℤ → Bool
is_negative n = ltb_ℤ n (pos 0)

-- strings.Contains(s, "/..")
unfoldable pub has_dots : String → Bool
has_dots String.[] = false
has_dots (String.◌∷◌ c s) = starts_with (String.◌∷◌ c s) "/.." || has_dots s

unfoldable pub path_of : String → String → String
path_of path default_path =
    let trimmed = trim_space path in
    let p = if trimmed =ₛ "" then default_path else trimmed in
    if not (starts_with p "/") then "/" ++ₛ p else p

unfoldable pub is_good_url : ParsedUrl → Bool
is_good_url u =
    (u.scheme =ₛ "http" || u.scheme =ₛ "https")
    && not (u.host =ₛ "")
    && not u.has_user
    && u.raw_query =ₛ ""
    && u.fragment =ₛ ""
    && not (has_dots u.path)

-- `p.API` after its checks; `none` stands for the fault given.
unfoldable pub check_api : Bool → Provider → Checked String
check_api true p = elim (api_of p.api) [ some api ↦ ok api | none ↦ rejected unknown_api ]
check_api false p =
    unless_fault
      (not (p.api =ₛ "") || not (is_zero p.max_questions) || not (is_zero p.max_concurrency))
      only_decisions (ok p.api)

pub record PluginConfig : Type 0 where
  pub embeddings : Module
  pub rerank : Module
  pub decisions : Module
  pub system_one : Module

abbrev no_module : Module
no_module = record { enabled = false; providers = [] }

abbrev default_api : Provider → Provider
default_api p = if p.api =ₛ "" then record p { api = "systemone" } else p

-- The providers of the module `systemone` join those of the decisions.
unfoldable pub join_system_one : PluginConfig → PluginConfig
join_system_one cfg =
    let joined =
      if cfg.system_one.enabled
      then record {
        enabled = true;
        providers = cfg.decisions.providers ++ map default_api cfg.system_one.providers;
      }
      else cfg.decisions in
    record cfg { decisions = joined; system_one = no_module }

abbrev pub decisions_path : Provider → String
decisions_path p = if p.api =ₛ "systemone" then "/v1/systemone" else "/alpha/decisions"

-- The limits, the models and the URL.
module _ (parse_url : String → Option ParsedUrl) where
  unfoldable pub check_url : String → Provider → Checked Provider
  check_url default_path p =
      elim (parse_url (trim_slashes (trim_space p.base_url) ++ₛ path_of p.path default_path)) [
        | none ↦ rejected invalid_url
        | some u ↦ unless_fault (not (is_good_url u)) invalid_url (ok (record p { url = u.text }))
      ]

  unfoldable pub check_limits : String → Provider → Checked Provider
  check_limits default_path p =
      unless_fault
        (is_negative p.cooldown_seconds
          || is_negative p.max_questions
          || is_negative p.max_concurrency)
        negative_limit
        (unless_fault (any_unnamed p.models) model_without_name (
          check_url default_path (record p {
            max_concurrency = if is_zero p.max_concurrency then pos 4 else p.max_concurrency;
          })))

  -- `next` is what follows a check.
  unfoldable pub and_then : {A : Type 0} → Checked A → (A → Checked Provider) → Checked Provider
  and_then (ok a) next = next a
  and_then (rejected fault) next = rejected fault

  unfoldable pub normalize : Bool → String → Provider → Checked Provider
  normalize decisions default_path p =
      let name = trim_space p.name in
      unless_fault (name =ₛ "") name_required (
        unless_fault (no_keys p.api_keys) no_api_keys (
          unless_fault (any_bad_key p.api_keys) invalid_api_key (elim (strategy_of p.strategy) [
            | none ↦ rejected unknown_strategy
            | some strategy ↦ and_then (check_api decisions p) λ api.
                check_limits default_path (record p { name = name; strategy = strategy; api = api })
          ])))

  -- The loop over the providers; the names seen are those of the ones before.
  unfoldable pub normalize_all :
      Bool → (Provider → String) → List String → List Provider → Checked (List Provider)
  normalize_all decisions path seen [] = ok []
  normalize_all decisions path seen (p ∷ ps) = elim (normalize decisions (path p) p) [
    | rejected fault ↦ rejected fault
    | ok p' ↦
        unless_fault (is_in p'.name seen) duplicate_name
          (elim (normalize_all decisions path (p'.name ∷ seen) ps) [
            | rejected fault ↦ rejected fault
            | ok ps' ↦ ok (p' ∷ ps')
          ])
  ]

  unfoldable pub normalize_module : Bool → (Provider → String) → Module → Checked Module
  normalize_module decisions path m =
      if not m.enabled
      then ok m
      else unless_fault (no_providers m.providers) without_providers
          (elim (normalize_all decisions path [] m.providers) [
            | rejected fault ↦ rejected fault
            | ok ps ↦ ok (record m { providers = ps })
          ])

  -- What follows a module that is accepted.
  unfoldable pub then_module : {A : Type 0} → Checked Module → (Module → Checked A) → Checked A
  then_module (ok m) next = next m
  then_module (rejected fault) next = rejected fault

  -- parseConfig, from the decoded configuration on.
  unfoldable pub parse_config : PluginConfig → Checked PluginConfig
  parse_config given =
      let cfg = join_system_one given in
      then_module (normalize_module false (λ p. "/embeddings") cfg.embeddings) λ embeddings.
        then_module (normalize_module false (λ p. "/rerank") cfg.rerank) λ rerank.
          then_module (normalize_module true decisions_path cfg.decisions) λ decisions.
            ok (record cfg { embeddings = embeddings; rerank = rerank; decisions = decisions })
