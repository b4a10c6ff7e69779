-- ===== src/Forward/Calls.antt =====
-- embeddings-forward/forward.go: the attempts at one provider and at one provider after another.
-- The host's HTTP call and the clock are parameters; what they may change between calls is given by
-- the number of requests sent and of readings made so far.
pub mod Attempts
pub mod Tries
pub mod Run
use cpa_plugins.Base.{
  ℕ, zero, suc, ◌+◌, ◌%◌, String, ◌++ₛ◌, Bool, true, false, ◌&&◌, ◌||◌, List, [], ◌∷◌, ◌++◌, Option,
  none, some, ℤ, pos, negsuc, ltb_ℤ, min_ℤ, length, ltb, leb, ◌==◌, if◌then◌else◌, Headers,
  put_header, equal_fold, trim_space, atoi,
}
use cpa_plugins.Forward.Config.{Provider, Match}
use cpa_plugins.Forward.Keys.{KeyState, ordered, cool, order, seconds, is_zero}

pub data Outcome : Type 0 where
  success final next_key next_provider : Outcome

-- The status is an int; a status below 0 falls under `default` like 1 does.
unfoldable pub classify : ℤ → Outcome
classify (negsuc n) = final
classify (pos status) =
    if leb 200 status && ltb status 300
    then success
    else if status == 429 || status == 402
    then next_key
    else if status == 0 || leb 500 status
    then next_provider
    else final

-- Status 0 means no HTTP response. A body is the text of its bytes.
pub record UpstreamResult : Type 0 where
  pub provider : String
  pub status : ℤ
  pub headers : Headers
  pub body : String
  pub malformed : Bool

-- `var last upstreamResult`
abbrev pub no_result : UpstreamResult
no_result = record { provider = ""; status = pos 0; headers = []; body = ""; malformed = false }

pub record HostHttpRequest : Type 0 where
  pub host_callback_id : String
  pub method : String
  pub url : String
  pub headers : Headers
  pub body : String

pub record HostHttpResponse : Type 0 where
  pub status_code : ℤ
  pub headers : Headers
  pub body : String

pub record LogEntry : Type 0 where
  pub callback_id : String
  pub level : String
  pub message : String
  pub module_name : String
  pub provider : String
  pub status : ℤ

-- The fields of the handler that a request changes, the requests sent so far (newest first), the
-- number of readings of the clock and the log (newest first).
pub record World : Type 0 where
  pub keys : KeyState
  pub sent : List HostHttpRequest
  pub reads : ℕ
  pub logs : List LogEntry

-- The first header of that name with a value. The list's order stands for that of the iteration
-- over the map, which Go leaves open.
unfoldable pub header_value : Headers → String → String
header_value [] name = ""
header_value ((key, []) ∷ rest) name = header_value rest name
header_value ((key, v ∷ vs) ∷ rest) name = if equal_fold key name then v else header_value rest name

abbrev max_retry_after : ℤ
max_retry_after = pos 3600000000000

-- `seconds, err := strconv.Atoi(value); err == nil && seconds > 0`; the product of durations wraps.
unfoldable pub retry_delay : Option ℤ → ℤ
retry_delay none = pos 0
retry_delay (some n) = if ltb_ℤ (pos 0) n then min_ℤ (seconds n) max_retry_after else pos 0

unfoldable pub retry_after : Headers → ℤ
unfolding retry_delay header_value
retry_after headers = retry_delay (atoi (trim_space (header_value headers "Retry-After")))

-- `for name, values := range extra { headers[name] = values }`
unfoldable pub add_headers : Headers → Headers → Headers
add_headers headers [] = headers
add_headers headers ((name, values) ∷ extra) = add_headers (put_header name values headers) extra

-- Request-scoped context.
pub record Call : Type 0 where
  pub callback_id : String
  pub module_name : String

unfoldable pub request : Call → Match → String → Headers → String → HostHttpRequest
unfolding add_headers
request c m body extra key = record {
  host_callback_id = c.callback_id;
  method = "POST";
  url = m.provider.url;
  headers =
      add_headers
        (("Content-Type", "application/json" ∷ [])
          ∷ ("Authorization", ("Bearer " ++ₛ key) ∷ [])
          ∷ [])
        extra;
  body = body;
}

-- `last = upstreamResult{provider: …}` and, with no error, the answer's fields.
unfoldable pub result_of : Match → Option HostHttpResponse → UpstreamResult
result_of m none = record no_result { provider = m.provider.name }
result_of m (some resp) = record {
  provider = m.provider.name;
  status = resp.status_code;
  headers = resp.headers;
  body = resp.body;
  malformed = false;
}

abbrev is_success : Outcome → Bool
is_success success = true
is_success _ = false

abbrev pub log : String → Call → String → UpstreamResult → World → World
log level c message r w = record w {
  logs =
      record {
        callback_id = c.callback_id;
        level = level;
        message = message;
        module_name = c.module_name;
        provider = r.provider;
        status = r.status;
      }
      ∷ w.logs;
}

unfoldable pub log_attempt : Call → UpstreamResult → World → World
log_attempt c r w =
    if is_success (classify r.status)
    then w
    else log "debug" c "embeddings-forward: upstream attempt failed" r w

module _ (clock : ℕ → ℤ) (upstream : ℕ → HostHttpRequest → Option HostHttpResponse) where
  -- `c.h.keys.cool(…)`: the clock is read only if the provider has a cooldown.
  unfoldable pub cool_key : Match → String → UpstreamResult → World → World
  cool_key m key r w = if is_zero (seconds m.provider.cooldown_seconds) then w else record w {
    keys = cool w.keys m.provider key (retry_after r.headers) (clock w.reads);
    reads = suc w.reads;
  }

  -- The loop over the keys.
  unfoldable pub try_keys :
      Call
      → Match
      → String
      → Headers
      → List String
      → UpstreamResult
      → World
      → UpstreamResult × Outcome × World
  try_keys c m body extra [] last w = (last, next_provider, w)
  try_keys c m body extra (key ∷ keys) last w =
      let req = request c m body extra key in
      let r = result_of m (upstream (length w.sent) req) in
      let w' = log_attempt c r (record w { sent = req ∷ w.sent }) in
      elim (classify r.status) [
        | next_key ↦ try_keys c m body extra keys r (cool_key m key r w')
        | other ↦ (r, other, w')
      ]

  -- `none` is the panic of `ordered`.
  unfoldable pub try_provider :
      Call → Match → String → Headers → World → Option (UpstreamResult × Outcome × World)
  unfolding try_keys
  try_provider c m body extra w = elim (ordered w.keys m.provider (clock w.reads)) [
    | none ↦ none
    | some (keys, ks) ↦
        some (try_keys c m body extra keys no_result (record w { keys = ks; reads = suc w.reads }))
  ]

  -- The loop over the providers.
  unfoldable pub forward_from :
      Call
      → (Match → String)
      → List Match
      → UpstreamResult
      → World
      → Option (UpstreamResult × World)
  forward_from c body [] last w = some (last, w)
  forward_from c body (m ∷ ms) last w = elim (try_provider c m (body m) [] w) [
    | none ↦ none
    | some (r, success, w') ↦ some (r, w')
    | some (r, final, w') ↦ some (r, w')
    | some (r, next_key, w') ↦ forward_from c body ms r w'
    | some (r, next_provider, w') ↦ forward_from c body ms r w'
  ]

  unfoldable pub forward :
      Call → List Match → (Match → String) → World → Option (UpstreamResult × World)
  unfolding forward_from order
  forward c matches body w =
      forward_from c body (order w.keys clock w.reads matches) no_result
        (record w { reads = w.reads + length matches })
