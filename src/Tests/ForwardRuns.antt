-- ===== src/Tests/ForwardRuns.antt =====
-- embeddings-forward/forward.go and config.go: concrete keys, providers and requests.
use cpa_plugins.Base.{
  trim_slashes, is_in, ℕ, zero, suc, ◌≡◌, ◌⊎◌, refl, String, ◌=ₛ◌, true, false, not, List, [], ◌∷◌,
  ◌++◌, Perm, Option, none, some, ℤ, pos, trim_space, lower_is, ◌+ℤ◌, max_ℤ, ltb_ℤ, length, All,
  keep, if◌then◌else◌, arith,
}
use cpa_plugins.Forward.Config.{Module, ModelMapping, Provider, Match}
use cpa_plugins.Forward.Keys.{
  KeyState, ordered, advance, start_of, is_cooling, seconds, is_zero, cool, all_cooling, order,
}
use cpa_plugins.Forward.Keys.Rotation.{rotate, ordered-rotate}
use cpa_plugins.Forward.Keys.RoundRobin.{first_keys, first_keys-perm}
use cpa_plugins.Forward.Keys.Providers.{order-perm, order-keep, cool-is_cooling}
use cpa_plugins.Forward.Calls.{
  Outcome, classify, UpstreamResult, HostHttpRequest, HostHttpResponse, World, Call, try_provider,
  forward,
}
use cpa_plugins.Forward.Calls.Attempts.{IsDefinitive, status_of, Asked, Retried}
use cpa_plugins.Forward.Calls.Tries.{Tries, try_provider_lem}
use cpa_plugins.Forward.Calls.Run.{forward_lem}
use cpa_plugins.Forward.Normalize.{
  PluginConfig, parse_config, join_system_one, then_module, normalize_module, ParsedUrl, ok,
  normalize_all, normalize, unless_fault, any_bad_key, is_bad_key, has_line_break, strategy_of,
  and_then, check_api, api_of, check_limits, any_unnamed, check_url, is_good_url, has_dots, path_of,
}
use cpa_plugins.Forward.Normalize.Modules.{IsReady, parse_config-IsReady}
use cpa_plugins.Forward.Normalize.Accepted.{IsNormal, AreNew, normalize_all-IsNormal}

abbrev circle : Provider
circle = record {
  name = "p";
  base_url = "https://up.example";
  path = "";
  api_keys = "a" ∷ "b" ∷ "c" ∷ [];
  models = [];
  strategy = "round_robin";
  cooldown_seconds = pos 30;
  api = "";
  max_questions = pos 0;
  max_concurrency = pos 4;
  url = "https://up.example/embeddings";
}

abbrev second : Provider
second = record circle {
  name = "q";
  url = "https://other.example/embeddings";
  strategy = "failover";
}

-- Key "b" of the first provider is cooling until 50, and its turn has come.
abbrev keys_used : KeyState
keys_used = record {
  next = λ name. if name =ₛ "p" then 1 else 0;
  cooldowns = λ k. if k =ₛ "p\0b" then some (pos 50) else none;
}

abbrev all_hot : KeyState
all_hot = record { next = λ name. 1; cooldowns = λ k. none }

ordered_example :
    let turn = rotate (start_of keys_used circle) circle.api_keys in
    ordered keys_used circle (pos 20)
    ≡ some (
      keep (λ k. not (is_cooling keys_used circle (pos 20) k)) turn
          ++ keep (is_cooling keys_used circle (pos 20)) turn,
      advance keys_used circle,
    )
ordered_example = ordered-rotate keys_used circle (pos 20) (omega arith)

all_hot-is_cooling : (k : String) → is_cooling all_hot circle (pos 0) k ≡ false
unfolding is_cooling
all_hot-is_cooling k = refl

first_keys_example : Perm (first_keys 3 all_hot circle (pos 0)) circle.api_keys
first_keys_example =
    first_keys-perm all_hot circle (pos 0) refl (omega arith) (omega arith) all_hot-is_cooling

abbrev mapping : ModelMapping
mapping = record { name = "m"; alias = ""; string_instructions = false }

abbrev matches : List Match
matches =
    record { provider = circle; mapping = mapping }
    ∷ record { provider = second; mapping = mapping }
    ∷ []

order_perm_example : Perm (order keys_used (λ n. pos n) 0 matches) matches
order_perm_example = order-perm keys_used (λ n. pos n) 0 matches

order-keep_example :
    order keys_used (λ _. pos 20) 0 matches
    ≡ keep (λ m. not (all_cooling keys_used m.provider (pos 20))) matches
      ++ keep (λ m. all_cooling keys_used m.provider (pos 20)) matches
order-keep_example = order-keep keys_used (pos 20) 0 matches

cool_example : is_cooling (cool keys_used circle "a" (pos 5) (pos 20)) circle (pos 25) "a" ≡ (
    if is_zero (seconds circle.cooldown_seconds)
    then is_cooling keys_used circle (pos 25) "a"
    else if "a" =ₛ "a"
    then ltb_ℤ (pos 25) (pos 20 +ℤ max_ℤ (seconds circle.cooldown_seconds) (pos 5))
    else is_cooling keys_used circle (pos 25) "a")
cool_example = cool-is_cooling keys_used circle "a" "a" (pos 5) (pos 20) (pos 25)

abbrev clock : ℕ → ℤ
clock n = pos n

abbrev status_at : ℕ → ℤ
status_at zero = pos 429
status_at (suc n) = pos 200

-- The first request is told to wait, the second one succeeds.
abbrev upstream : ℕ → HostHttpRequest → Option HostHttpResponse
upstream n req = some (record { status_code = status_at n; headers = []; body = "{}" })

abbrev context : Call
context = record { callback_id = "cb"; module_name = "embeddings" }

abbrev quiet : World
quiet = record { keys = keys_used; sent = []; reads = 0; logs = [] }

try_provider_example :
    (keys : List String) × (t : UpstreamResult × Outcome × World) × (ordered quiet.keys circle
        (clock 0)
      ≡ some (keys, advance quiet.keys circle))
    × (try_provider clock upstream context
          (record { provider = circle; mapping = mapping })
          "{}"
          []
          quiet
        ≡ some t)
    × Tries clock upstream context
        (record { provider = circle; mapping = mapping })
        "{}"
        []
        keys
        []
        t
try_provider_example =
    try_provider_lem clock upstream context (record { provider = circle; mapping = mapping }) "{}"
      [] quiet (omega arith)

forward_example :
    (u : UpstreamResult × World) × (latest : HostHttpRequest) × (earlier : List HostHttpRequest)
    × (forward clock upstream context matches (λ m. "{}") quiet ≡ some u)
    × (u.1.sent ≡ latest ∷ earlier)
    × Retried clock upstream earlier
    × (u.0.status ≡ status_of (upstream (length earlier) latest))
    × (IsDefinitive (classify u.0.status) ⊎ All (λ m. Asked m.provider.url u.1.sent) matches)
forward_example =
    forward_lem clock upstream context (λ m. "{}") matches quiet (omega arith)
      (omega arith, (omega arith, tt)) refl

-- Every URL is accepted.
abbrev parse_url : String → Option ParsedUrl
parse_url text = some (record {
  scheme = "https";
  host = "up.example";
  has_user = false;
  raw_query = "";
  fragment = "";
  path = "/";
  text = text;
})

abbrev given : List Provider
given = record circle { name = " p "; strategy = ""; max_concurrency = pos 0 } ∷ []

abbrev accepted : List Provider
accepted =
    record circle {
      name = "p";
      strategy = "failover";
      api = "decisions";
      url = "https://up.example/embeddings";
      max_concurrency = pos 4;
    }
    ∷ []

given-accepted : normalize_all parse_url true (λ p. "/embeddings") [] given ≡ ok accepted
unfolding normalize_all normalize unless_fault trim_space any_bad_key is_bad_key has_line_break
    strategy_of and_then check_api api_of check_limits any_unnamed check_url is_good_url has_dots
    is_in lower_is path_of trim_slashes
given-accepted = refl

normalize_example : All IsNormal accepted × AreNew [] accepted
normalize_example =
    normalize_all-IsNormal parse_url true (λ p. "/embeddings") given accepted given-accepted

abbrev off : Module
off = record { enabled = false; providers = [] }

-- Its one provider comes from the module systemone.
abbrev joined : PluginConfig
joined = record {
  embeddings = off;
  rerank = off;
  decisions = off;
  system_one = record { enabled = true; providers = given };
}

abbrev ready : PluginConfig
ready = record {
  embeddings = off;
  rerank = off;
  decisions = record {
    enabled = true;
    providers =
        record circle {
          name = "p";
          strategy = "failover";
          api = "systemone";
          url = "https://up.example/v1/systemone";
          max_concurrency = pos 4;
        }
        ∷ [];
  };
  system_one = off;
}

joined-ready : parse_config parse_url joined ≡ ok ready
unfolding parse_config join_system_one then_module normalize_module normalize_all normalize
    unless_fault trim_space any_bad_key is_bad_key has_line_break strategy_of and_then check_api
    api_of check_limits any_unnamed check_url is_good_url has_dots is_in lower_is path_of
    trim_slashes
joined-ready = refl

parse_config_example : IsReady ready.embeddings × IsReady ready.rerank × IsReady ready.decisions
parse_config_example = parse_config-IsReady parse_url joined ready joined-ready
