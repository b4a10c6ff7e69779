-- ===== src/Forward/Handler.antt =====
-- embeddings-forward/plugin.go: the calls of the host, and the requests of clients that the plugin
-- answers. encoding/json, yaml.v3 and net/url are parameters. The batches of a round of questions run at
-- the same time; what they give and how they leave the handler is a parameter.
pub mod Routes
pub mod Reaches
pub mod Replies
use cpa_plugins.Base.{
  ℕ, ◌+◌, ◌*◌, String, ◌++ₛ◌, ◌=ₛ◌, Bool, true, false, not, ◌&&◌, ◌||◌, List, [], ◌∷◌, ◌++◌, Option,
  none, some, ◌⊎◌, inl, inr, ℤ, pos, if◌then◌else◌, Headers, put_header, trim_space, equal_fold,
  has_prefix,
}
use cpa_plugins.NativeAbi.{AbiError, plain_error}
use cpa_plugins.Forward.Bodies.{Raw, malformed, nil_map, raw_map, raw_of, raw_or_empty, with_field}
use cpa_plugins.Forward.Calls.{
  World, UpstreamResult, Call, Outcome, success, classify, HostHttpRequest, HostHttpResponse,
  header_value, forward, log,
}
use cpa_plugins.Forward.Config.{Module, Match, resolve}
use cpa_plugins.Forward.Decisions.{Field, AnswerMap, Decision, refused, unanswered, single, merged}
use cpa_plugins.Forward.Merged.{Floats, merge_decisions}
use cpa_plugins.Forward.Normalize.{PluginConfig}
use cpa_plugins.Forward.Objects.{Member, ordered_object}
use cpa_plugins.Forward.Responses.{
  DirectResponse, ErrorPayload, error_response, client_response, json_header,
}

abbrev pub route_embeddings : String
route_embeddings = "/v1/embeddings"

abbrev pub route_rerank : String
route_rerank = "/v1/rerank"

abbrev pub route_system_one : String
route_system_one = "/v1/systemone"

abbrev pub route_decisions : String
route_decisions = "/api/alpha/decisions"

pub record IngressRoute : Type 0 where
  pub methods : List String
  pub path : String
  pub max_body_bytes : ℕ

pub record IngressRequest : Type 0 where
  pub method : String
  pub path : String
  pub headers : Headers
  pub body : String
  pub host_callback_id : String

-- `mod` and `name` of a path.
pub data Target : Type 0 where
  to_embeddings to_rerank to_decisions elsewhere : Target

unfoldable pub target_of : String → Target
target_of path =
    if path =ₛ route_embeddings
    then to_embeddings
    else if path =ₛ route_rerank
    then to_rerank
    else if path =ₛ route_system_one || path =ₛ route_decisions
    then to_decisions
    else elsewhere

abbrev pub module_of : PluginConfig → Target → Option Module
module_of cfg to_embeddings = some cfg.embeddings
module_of cfg to_rerank = some cfg.rerank
module_of cfg to_decisions = some cfg.decisions
module_of cfg elsewhere = none

abbrev pub name_of : Target → String
name_of to_embeddings = "embeddings"
name_of to_rerank = "rerank"
name_of to_decisions = "decisions"
name_of elsewhere = ""

abbrev route : String → IngressRoute
route path = record { methods = "POST" ∷ []; path = path; max_body_bytes = 33554432 }

-- `add` of `ingress.register`.
unfoldable pub add_routes : Bool → List String → List IngressRoute → List IngressRoute
add_routes enabled [] routes = routes
add_routes enabled (path ∷ paths) routes =
    add_routes enabled paths (if enabled then routes ++ route path ∷ [] else routes)

unfoldable pub register_routes : PluginConfig → List IngressRoute
unfolding add_routes
register_routes cfg = add_routes cfg.decisions.enabled (route_system_one ∷ route_decisions ∷ []) (
    add_routes cfg.rerank.enabled (route_rerank ∷ [])
      (add_routes cfg.embeddings.enabled (route_embeddings ∷ []) []))

-- `canonical` is http.CanonicalHeaderKey.
unfoldable pub add_danger_zone : (String → String) → Headers → Headers → Headers
add_danger_zone canonical [] out = out
add_danger_zone canonical ((name, values) ∷ headers) out = add_danger_zone canonical headers (
    if has_prefix (canonical name) "Typesafe-Danger-Zone-"
    then put_header (canonical name) values out
    else out)

unfoldable pub danger_zone_headers : (String → String) → Headers → Headers
unfolding add_danger_zone
danger_zone_headers canonical headers = add_danger_zone canonical headers []

-- No answer, an answer, or a panic.
pub data Reply : Type 0 where
  not_handled : Reply
  replied : DirectResponse → Reply
  panicked : Reply

-- A request that is not refused: what `handle` has found when it reaches the providers.
pub data Accepted : Type 0 where
  skipped : Accepted
  answered : DirectResponse → Accepted
  accepted : Target → List Field → String → List Match → Accepted

module _ (is_structured : String → Bool) (marshal_error : ErrorPayload → String)
    (unmarshal : String → Raw) (unmarshal_text : String → Option String) where
  abbrev bad_request : ℤ → String → String → DirectResponse
  bad_request status code message =
      error_response is_structured marshal_error status "invalid_request_error" code message ""

  abbrev pub is_compressed : String → Bool
  is_compressed encoding = not (encoding =ₛ "") && not (equal_fold encoding "identity")

  abbrev with_matches : Target → List Field → String → List Match → Accepted
  with_matches target top model [] =
      answered (bad_request (pos 404) "model_not_found" ("model is not configured: " ++ₛ model))
  with_matches target top model (m ∷ ms) = accepted target top model (m ∷ ms)

  abbrev missing_model : Accepted
  missing_model =
      answered (bad_request (pos 400) "missing_model" "model must be a non-empty string")

  abbrev with_model : Module → Target → List Field → Option String → Accepted
  with_model mod' target top none = missing_model
  with_model mod' target top (some model) =
      if trim_space model =ₛ ""
      then missing_model
      else with_matches target top model (resolve mod' model)

  abbrev with_body : Module → Target → Raw → Accepted
  with_body mod' target (raw_map top) =
      with_model mod' target top (unmarshal_text (raw_or_empty (raw_of "model" top)))
  with_body mod' target _ =
      answered (bad_request (pos 400) "invalid_json" "request body must be a JSON object")

  abbrev with_module : Option Module → Target → IngressRequest → Accepted
  with_module none target req = skipped
  with_module (some mod') target req =
      if not mod'.enabled || not (req.method =ₛ "POST")
      then skipped
      else if is_compressed (trim_space (header_value req.headers "Content-Encoding"))
      then answered (
          bad_request (pos 415) "unsupported_content_encoding"
            "request bodies must be uncompressed JSON")
      else with_body mod' target (unmarshal req.body)

  -- `handle` up to the providers.
  unfoldable pub accept : PluginConfig → IngressRequest → Accepted
  unfolding target_of resolve raw_of error_response
  accept cfg req = let target = target_of req.path in with_module (module_of cfg target) target req

-- The handler's configuration and what a request changes.
pub record Handler : Type 0 where
  pub cfg : PluginConfig
  pub world : World

-- The values of `Call`; the constant metadata of a registration is left out.
pub data Answer : Type 0 where
  registered : Answer
  routes : List IngressRoute → Answer
  reply : Reply → Answer
  empty : Answer
  errored : AbiError → Answer

abbrev is_failure : Outcome → Bool
is_failure success = false
is_failure _ = true

abbrev failed_message : String
failed_message = "embeddings-forward: request failed"

-- The log entry of a request that fails.
abbrev log_failure : Call → UpstreamResult → World → World
log_failure c r w = log "warn" c failed_message r w

abbrev replied_or_panic : Option String → Reply
replied_or_panic none = panicked
replied_or_panic (some body) =
    replied (record { status_code = pos 200; headers = json_header; body = body })

-- The cases of the switch on the method.
pub data Method : Type 0 where
  register ingress_register ingress_handle quiesce unsupported : Method

unfoldable pub method_of : String → Method
method_of name =
    if name =ₛ "plugin.register" || name =ₛ "plugin.reconfigure"
    then register
    else if name =ₛ "ingress.register"
    then ingress_register
    else if name =ₛ "ingress.handle"
    then ingress_handle
    else if name =ₛ "plugin.quiesce" || name =ₛ "plugin.shutdown"
    then quiesce
    else unsupported

module _ (is_structured : String → Bool) (marshal_error : ErrorPayload → String)
    (unmarshal : String → Raw) (unmarshal_text : String → Option String)
    (marshal : List Field → String) (quote : String → String) (canonical : String → String)
    (members : String → Option (List Member)) (clock : ℕ → ℤ)
    (upstream : ℕ → HostHttpRequest → Option HostHttpResponse)
    (decide_with : Call → List Match → List Field → List Field → Headers → World → Decision × World)
    (floats : Floats) (usage_of : String → List Field) where
  -- What follows the loop of `decide`.
  unfoldable pub respond : Call → List Field → Decision × World → Reply × World
  unfolding client_response merge_decisions
  respond c questions (refused r, w) =
      (replied (client_response is_structured marshal_error r), log_failure c r w)
  respond c questions (unanswered r, w) =
      (replied (client_response is_structured marshal_error r), log_failure c r w)
  respond c questions (single r, w) = (replied (client_response is_structured marshal_error r), w)
  respond c questions (merged answers rs, w) = (
    replied_or_panic (merge_decisions floats usage_of quote marshal unmarshal questions answers rs),
    w,
  )

  abbrev invalid_questions : Reply
  invalid_questions = replied (
      error_response is_structured marshal_error (pos 400) "invalid_request_error"
        "invalid_questions" "questions must be a non-empty JSON object" "")

  abbrev with_questions :
      Call → List Match → List Field → Headers → Option (List Field) → World → Reply × World
  with_questions c ms top headers none w = (invalid_questions, w)
  with_questions c ms top headers (some []) w = (invalid_questions, w)
  with_questions c ms top headers (some (q ∷ qs)) w =
      respond c (q ∷ qs) (decide_with c ms (q ∷ qs) top headers w)

  unfoldable pub answer_decisions : Call → List Match → List Field → Headers → World → Reply × World
  unfolding ordered_object raw_of respond error_response
  answer_decisions c ms top headers w =
      with_questions c ms top headers
        (ordered_object members (raw_or_empty (raw_of "questions" top))) w

  -- The body is the client's for a provider that has the model under this name.
  abbrev body_for : String → String → List Field → Match → String
  body_for body model top m =
      if m.mapping.name =ₛ model
      then body
      else with_field marshal top "model" (quote m.mapping.name)

  unfoldable pub after_forward : Call → Option (UpstreamResult × World) → World → Reply × World
  unfolding client_response classify
  after_forward c none w = (panicked, w)
  after_forward c (some (r, w')) w = (
    replied (client_response is_structured marshal_error r),
    if is_failure (classify r.status) then log_failure c r w' else w',
  )

  abbrev call_of : IngressRequest → Target → Call
  call_of req t = record { callback_id = req.host_callback_id; module_name = name_of t }

  unfoldable pub proceed : IngressRequest → Accepted → World → Reply × World
  unfolding danger_zone_headers answer_decisions forward with_field after_forward
  proceed req skipped w = (not_handled, w)
  proceed req (answered r) w = (replied r, w)
  proceed req (accepted to_decisions top model ms) w =
      answer_decisions (call_of req to_decisions) ms top (danger_zone_headers canonical req.headers)
        w
  proceed req (accepted t top model ms) w =
      after_forward (call_of req t)
        (forward clock upstream (call_of req t) ms (body_for req.body model top) w) w

  unfoldable pub handle : Handler → IngressRequest → Reply × World
  unfolding accept proceed
  handle h req =
      proceed req (accept is_structured marshal_error unmarshal unmarshal_text h.cfg req) h.world

  -- `lifecycle_of` and `ingress_of` decode a request and `parse_config` its configuration, or gives the
  -- text of an error.
  module _ (lifecycle_of : String → Option String) (ingress_of : String → Option IngressRequest)
      (parse_config : String → String ⊎ PluginConfig) where
    abbrev undecoded : String → AbiError
    undecoded message = record (plain_error "invalid_request" message) { http_status = 400 }

    abbrev configure : String ⊎ PluginConfig → Handler → Answer × Handler
    configure (inl message) h = (errored (plain_error "invalid_config" message), h)
    configure (inr cfg) h = (registered, record h { cfg = cfg })

    abbrev on_register : Option String → Handler → Answer × Handler
    on_register none h = (errored (undecoded "decode lifecycle request"), h)
    on_register (some raw) h = configure (parse_config raw) h

    abbrev after_handle : Handler → Reply × World → Answer × Handler
    after_handle h (r, w) = (reply r, record h { world = w })

    abbrev on_handle : Option IngressRequest → Handler → Answer × Handler
    on_handle none h = (errored (undecoded "decode ingress request"), h)
    on_handle (some req) h = after_handle h (handle h req)

    unfoldable pub answer : Method → String → Handler → Answer × Handler
    unfolding handle register_routes
    answer register request h = on_register (lifecycle_of request) h
    answer ingress_register request h = (routes (register_routes h.cfg), h)
    answer ingress_handle request h = on_handle (ingress_of request) h
    answer quiesce request h = (empty, h)
    answer unsupported request h =
        (errored (plain_error "unsupported_method" "unsupported plugin method"), h)

    unfoldable pub call : String → String → Handler → Answer × Handler
    unfolding answer method_of
    call method request h = answer (method_of method) request h
