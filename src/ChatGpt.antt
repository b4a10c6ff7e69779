-- ===== src/ChatGpt.antt =====
-- chatgpt-backend/plugin.go: the ingress plugin that hands requests under /backend-api/ on to ChatGPT,
-- with a credential for the account that the request names. url.Parse and the decoders of YAML and JSON
-- are parameters. A read or write of the handler's fields under its lock is one step.
pub mod Plans
pub mod Ready
use cpa_plugins.Base.{
  ℕ, String, ◌++ₛ◌, ◌=ₛ◌, Bool, true, false, not, ◌&&◌, ◌||◌, List, [], ◌∷◌, Option, none, some,
  if◌then◌else◌, trim_space, equal_fold, has_prefix, trim_slashes, Headers,
}
use cpa_plugins.NativeAbi.{AbiError, plain_error}

abbrev pub backend_path_prefix : String
backend_path_prefix = "/backend-api/"

abbrev pub account_id_header : String
account_id_header = "ChatGPT-Account-ID"

abbrev pub default_base_url : String
default_base_url = "https://chatgpt.com"

abbrev ingress_methods : List String
ingress_methods =
    "GET" ∷ "HEAD" ∷ "POST" ∷ "PUT" ∷ "PATCH" ∷ "DELETE" ∷ "CONNECT" ∷ "OPTIONS" ∷ "TRACE" ∷ []

pub record Handler : Type 0 where
  pub base_url : String
  pub origin : String
  pub transport : String

pub record IngressRoute : Type 0 where
  pub methods : List String
  pub path_prefix : String
  pub required_headers : List String
  pub upstream_origins : List String

pub record IngressRequest : Type 0 where
  pub method : String
  pub path : String
  pub escaped_path : String
  pub raw_query : String
  pub headers : Headers
  pub present_headers : List String

pub record CredentialValueSource : Type 0 where
  pub kind : String
  pub path : String
  pub claim : String

pub record CredentialSelector : Type 0 where
  pub provider : String
  pub identity_sources : List CredentialValueSource
  pub equals : String
  pub case_insensitive : Bool
  pub order : String

pub record CredentialInjection : Type 0 where
  pub header : String
  pub prefix : String
  pub value_sources : List CredentialValueSource

pub record CredentialUse : Type 0 where
  pub selector : CredentialSelector
  pub injection : CredentialInjection
  pub fallback_to_inbound : Bool

pub record IngressProxyPlan : Type 0 where
  pub upstream_url : String
  pub credential : CredentialUse
  pub transport : String

-- The metadata of a registration is constant; `base_url_of` is the `base-url` of a configuration.
pub record Registration : Type 0 where
  pub schema_version : ℕ
  pub name : String
  pub author : String
  pub repository : String
  pub ingress_proxy : Bool

-- The values of `Call`.
pub data Answer : Type 0 where
  registered : Registration → Answer
  routes : List IngressRoute → Answer
  unhandled : Answer
  planned : IngressProxyPlan → Answer
  empty : Answer
  refused : AbiError → Answer

-- A *url.URL, with the text of its String method.
pub record Url : Type 0 where
  pub scheme : String
  pub host : String
  pub has_user : Bool
  pub raw_query : String
  pub fragment : String
  pub text : String

-- A value, or the message of an error.
pub data Parsed (A : Type 0) : Type 0 where
  wrong : String → Parsed A
  right : A → Parsed A

abbrev source : String → String → CredentialValueSource
source kind path = record { kind = kind; path = path; claim = "" }

abbrev claim_source : String → CredentialValueSource
claim_source path = record {
  kind = "jwt_claim";
  path = path;
  claim = "/https:~1~1api.openai.com~1auth/chatgpt_account_id";
}

unfoldable pub account_identity_sources : List CredentialValueSource
account_identity_sources =
    source "attribute" "chatgpt_account_id"
    ∷ source "attribute" "account_id"
    ∷ source "metadata" "chatgpt_account_id"
    ∷ source "metadata" "account_id"
    ∷ source "metadata" "tokens.account_id"
    ∷ source "metadata" "tokens.chatgpt_account_id"
    ∷ claim_source "id_token"
    ∷ claim_source "tokens.id_token"
    ∷ []

unfoldable pub access_token_sources : List CredentialValueSource
access_token_sources =
    source "metadata" "access_token"
    ∷ source "metadata" "auth_token"
    ∷ source "metadata" "bearer_token"
    ∷ source "metadata" "tokens.access_token"
    ∷ source "metadata" "tokens.auth_token"
    ∷ source "metadata" "tokens.bearer_token"
    ∷ source "attribute" "access_token"
    ∷ source "attribute" "auth_token"
    ∷ source "attribute" "bearer_token"
    ∷ []

-- The headers come in the order in which the loop over the map finds them.
unfoldable pub first_header : Headers → String → String
first_header [] name = ""
first_header ((key, []) ∷ headers) name = first_header headers name
first_header ((key, value ∷ values) ∷ headers) name =
    if equal_fold key name then value else first_header headers name

unfoldable pub contains_fold : List String → String → Bool
contains_fold [] expected = false
contains_fold (value ∷ values) expected =
    equal_fold (trim_space value) expected || contains_fold values expected

unfoldable pub ensure_leading_slash : String → String
ensure_leading_slash path = if has_prefix path "/" then path else "/" ++ₛ path

-- A *url.Error over errInvalidBaseURL; `quote` is fmt's %q.
abbrev invalid_base_url : (String → String) → String → String
invalid_base_url quote raw =
    "parse "
    ++ₛ quote raw
    ++ₛ ": base-url must be an HTTP(S) origin or base path without credentials, query, or fragment"

abbrev invalid_request : String → AbiError
invalid_request message = record (plain_error "invalid_request" message) { http_status = 400 }

abbrev query_suffix : String → String
query_suffix raw_query = if raw_query =ₛ "" then "" else "?" ++ₛ raw_query

abbrev plan_for : Handler → IngressRequest → String → IngressProxyPlan
plan_for h req account_id = record {
  upstream_url =
      (h.base_url
        ++ₛ ensure_leading_slash (if req.escaped_path =ₛ "" then req.path else req.escaped_path))
      ++ₛ query_suffix req.raw_query;
  credential = record {
    selector = record {
      provider = "codex";
      identity_sources = account_identity_sources;
      equals = account_id;
      case_insensitive = true;
      order = "oldest";
    };
    injection = record {
      header = "Authorization";
      prefix = "Bearer ";
      value_sources = access_token_sources;
    };
    fallback_to_inbound = true;
  };
  transport = h.transport;
}

unfoldable pub handle_ingress : Handler → IngressRequest → Answer
unfolding contains_fold first_header ensure_leading_slash account_identity_sources
    access_token_sources
handle_ingress h req =
    let account_id = trim_space (first_header req.headers account_id_header) in
    if not (has_prefix req.path backend_path_prefix)
      || not (contains_fold req.present_headers "Authorization")
    then unhandled
    else if account_id =ₛ ""
    then unhandled
    else planned (plan_for h req account_id)

abbrev pub route_of : Handler → IngressRoute
route_of h = record {
  methods = ingress_methods;
  path_prefix = backend_path_prefix;
  required_headers = "Authorization" ∷ account_id_header ∷ [];
  upstream_origins = h.origin ∷ [];
}

abbrev registration : Registration
registration = record {
  schema_version = 8;
  name = "ChatGPT backend passthrough";
  author = "unstableneutron";
  repository = "https://github.com/unstableneutron/cpa-plugins";
  ingress_proxy = true;
}

abbrev pub answer_configured : Option String × Handler → Answer × Handler
answer_configured (some message, h) = (refused (plain_error "invalid_config" message), h)
answer_configured (none, h) = (registered registration, h)

-- The cases of the switch on the method.
pub data Method : Type 0 where
  register ingress_register ingress_handle quiesce unsupported : Method

unfoldable pub method_of : String → Method
method_of name =
    if name =ₛ "plugin.register" || name =ₛ "plugin.reconfigure"
    then register
    else if name =ₛ "ingress.register"
    then ingress_register
    else if name =ₛ "ingress.handle"
    then ingress_handle
    else if name =ₛ "plugin.quiesce" || name =ₛ "plugin.shutdown"
    then quiesce
    else unsupported

abbrev pub is_base_url : Url → Bool
is_base_url u = not (
    not (u.scheme =ₛ "https") && not (u.scheme =ₛ "http")
    || u.host =ₛ ""
    || u.has_user
    || not (u.raw_query =ₛ "")
    || not (u.fragment =ₛ ""))

abbrev pub transport_of : String → String
transport_of origin = if has_prefix origin "http://" then "standard" else "utls"

abbrev pub install : Parsed (String × String) → Handler → Option String × Handler
install (wrong message) h = (some message, h)
install (right (base_url, origin)) h =
    (none, record { base_url = base_url; origin = origin; transport = transport_of origin })

module _ (quote : String → String) (parse_url : String → Parsed Url) where
  -- The base URL and its origin.
  abbrev pub normalize_parsed : String → Parsed Url → Parsed (String × String)
  normalize_parsed raw (wrong message) = wrong message
  normalize_parsed raw (right u) =
      if is_base_url u
      then right (trim_slashes u.text, u.scheme ++ₛ "://" ++ₛ u.host)
      else wrong (invalid_base_url quote raw)

  unfoldable pub normalize_base_url : String → Parsed (String × String)
  normalize_base_url raw =
      let raw' = if trim_space raw =ₛ "" then default_base_url else trim_space raw in
      normalize_parsed raw' (parse_url raw')

  -- `base_url_of` is yaml.Unmarshal into a configuration with the default base URL.
  module _ (base_url_of : String → Parsed String) where
    abbrev pub configured : Parsed String → Handler → Option String × Handler
    configured (wrong message) h = (some message, h)
    configured (right base_url) h = install (normalize_base_url base_url) h

    -- The message of the error, if there is one.
    unfoldable pub configure : String → Handler → Option String × Handler
    unfolding normalize_base_url
    configure raw h = configured (if raw =ₛ "" then right default_base_url else base_url_of raw) h

    unfoldable pub new_handler : Handler
    unfolding configure
    new_handler = (configure "" (record { base_url = ""; origin = ""; transport = "" })).1

    -- `lifecycle_of` and `ingress_of` are json.Unmarshal of a lifecycle request, for its configuration,
    -- and of an ingress request.
    module _ (lifecycle_of : String → Option String)
        (ingress_of : String → Option IngressRequest) where
      abbrev pub on_register : Option String → Handler → Answer × Handler
      on_register none h = (refused (invalid_request "decode lifecycle request"), h)
      on_register (some raw) h = answer_configured (configure raw h)

      abbrev on_handle : Option IngressRequest → Handler → Answer
      on_handle none h = refused (invalid_request "decode ingress request")
      on_handle (some req) h = handle_ingress h req

      unfoldable pub answer : Method → String → Handler → Answer × Handler
      unfolding configure handle_ingress
      answer register request h = on_register (lifecycle_of request) h
      answer ingress_register request h = (routes (route_of h ∷ []), h)
      answer ingress_handle request h = (on_handle (ingress_of request) h, h)
      answer quiesce request h = (empty, h)
      answer unsupported request h =
          (refused (plain_error "unsupported_method" "unsupported plugin method"), h)

      unfoldable pub call : String → String → Handler → Answer × Handler
      unfolding answer method_of
      call method request h = answer (method_of method) request h
