-- ===== src/Tests/IngressRuns.antt =====
-- chatgpt-backend and embeddings-forward: concrete requests to the ingress plugins.
use cpa_plugins.Base.{
  ℕ, ◌≡◌, inl, inr, refl, sym, ◌∙◌, trim_space, Bool-cases, if◌then◌else◌, Option, ap, subst,
  String, ◌++ₛ◌, ◌=ₛ◌, true, false, List, [], ◌∷◌, none, some, pos, Headers, trim_slashes,
}
use cpa_plugins.ChatGpt.{
  Handler as ChatGptHandler, IngressRequest as ChatGptRequest, Url, Parsed, right, wrong,
  handle_ingress, call, is_base_url, default_base_url,
}
use cpa_plugins.ChatGpt.Ready.{IsReady, HasPlainHost, parsed_text, call-IsReady}
use cpa_plugins.ChatGpt.Plans.{Handled, handle_ingress-Handled}
use cpa_plugins.Forward.Bodies.{Raw, raw_map}
use cpa_plugins.Forward.Calls.{World, Call, no_result}
use cpa_plugins.Forward.Config.{Module, Match, Provider}
use cpa_plugins.Forward.Decisions.{Field, Decision, unanswered}
use cpa_plugins.Forward.Handler.{Handler, IngressRequest}
use cpa_plugins.Forward.Keys.{new_key_state}
use cpa_plugins.Forward.Merged.{Floats}
use cpa_plugins.Forward.Normalize.{PluginConfig}
use cpa_plugins.Forward.Responses.{ErrorPayload}

abbrev ready : ChatGptHandler
ready = record { base_url = "https://a.b/c"; origin = "https://a.b"; transport = "utls" }

ready-IsReady : IsReady ready
unfolding IsReady
ready-IsReady = ("a.b", "/c", refl, inl (refl, refl))

abbrev backend_request : ChatGptRequest
backend_request = record {
  method = "GET";
  path = "/backend-api/me";
  escaped_path = "";
  raw_query = "x=1";
  headers = ("ChatGPT-Account-ID", "acct" ∷ []) ∷ [];
  present_headers = "authorization" ∷ [];
}

handle_ingress_example : Handled ready backend_request (handle_ingress ready backend_request)
handle_ingress_example = handle_ingress-Handled ready backend_request ready-IsReady

abbrev plain_url : Url
plain_url = record {
  scheme = "http";
  host = "h";
  has_user = false;
  raw_query = "";
  fragment = "";
  text = "http://h/p/";
}

abbrev userless_url : Url
userless_url = record plain_url { scheme = "mailto"; host = ""; text = "mailto:x" }

abbrev foreign_url : Url
foreign_url = record plain_url { host = "é"; text = "http://%C3%A9/" }

-- An HTTP URL, an opaque one, one whose host is escaped, and none.
abbrev some_urls : String → Parsed Url
some_urls raw =
    if raw =ₛ "http://h/p/"
    then right plain_url
    else if raw =ₛ "mailto:x"
    then right userless_url
    else if raw =ₛ "http://é/"
    then right foreign_url
    else wrong "parse"

abbrev escaped : String → String
escaped host = if host =ₛ "é" then "%C3%A9" else host

abbrev url_of : Parsed Url → Url
url_of (wrong message) = plain_url
url_of (right u) = u

abbrev Splits : Url → Type 0
Splits u =
    is_base_url u ≡ true
    → (path : String) × (u.text ≡ (u.scheme ++ₛ "://" ++ₛ escaped u.host) ++ₛ path)
      × (trim_slashes u.host ≡ u.host)

plain_url-Splits : Splits plain_url
unfolding trim_slashes
plain_url-Splits k = ("/p/", refl, refl)

userless_url-Splits : Splits userless_url
userless_url-Splits k = cc k

foreign_url-Splits : Splits foreign_url
unfolding trim_slashes
foreign_url-Splits k = ("/", refl, refl)

some_urls-Splits : (raw : String) → Splits (url_of (some_urls raw))
some_urls-Splits raw = elim (Bool-cases (raw =ₛ "http://h/p/")) [
  | inl e ↦ rw (e, if◌then◌else◌) plain_url-Splits
  | inr e ↦ elim (Bool-cases (raw =ₛ "mailto:x")) [
    | inl f ↦ rw (e, f, if◌then◌else◌) userless_url-Splits
    | inr f ↦ elim (Bool-cases (raw =ₛ "http://é/")) [
      | inl k ↦ rw (e, f, k, if◌then◌else◌) foreign_url-Splits
      | inr k ↦ rw (e, f, k, if◌then◌else◌) plain_url-Splits
    ]
  ]
]

some_urls-splits : (raw : String) (u : Url) → some_urls raw ≡ right u → Splits u
some_urls-splits raw u e = subst Splits (ap url_of e) (some_urls-Splits raw)

abbrev quoted : String → String
quoted s = s

-- A request is its configuration, and a configuration its base URL.
abbrev whole : String → Parsed String
whole raw = right raw

abbrev text_of : Parsed String → String
text_of (wrong message) = ""
text_of (right text) = text

abbrev text_or : Option String → String
text_or none = ""
text_or (some text) = text

plain_example :
    (raw : String)
    → some "http://h/p/" ≡ some raw
    → HasPlainHost quoted escaped some_urls some_urls-splits whole raw
unfolding trim_space
plain_example raw e base_url f u k = subst (λ v. escaped v.host ≡ v.host) (ap url_of located) refl
  where
    located : some_urls "http://h/p/" ≡ right u
    located =
        subst (λ b. some_urls (parsed_text quoted escaped some_urls some_urls-splits b) ≡ right u)
          (ap text_of (sym f)
            ∙ ap (λ r. text_of (if r =ₛ "" then right default_base_url else whole r))
                (ap text_or (sym e)))
          k

backend_call_example :
    IsReady
      (call quoted some_urls whole
        (λ raw. some raw)
        (λ raw. none)
        "plugin.reconfigure"
        "http://h/p/"
        ready).1
backend_call_example =
    call-IsReady quoted escaped some_urls some_urls-splits whole (λ raw. some raw) (λ raw. none)
      "plugin.reconfigure" "http://h/p/" ready plain_example ready-IsReady

abbrev off : Module
off = record { enabled = false; providers = [] }

abbrev keyed_provider : Provider
keyed_provider = record {
  name = "p";
  base_url = "";
  path = "";
  api_keys = "k" ∷ [];
  models = [];
  strategy = "failover";
  cooldown_seconds = pos 0;
  api = "";
  max_questions = pos 0;
  max_concurrency = pos 4;
  url = "https://up.example";
}

abbrev on : Module
on = record { enabled = true; providers = keyed_provider ∷ [] }

abbrev configuration : PluginConfig
configuration = record { embeddings = on; rerank = off; decisions = on; system_one = off }

abbrev idle : World
idle = record { keys = new_key_state; sent = []; reads = 0; logs = [] }

abbrev forwarding : Handler
forwarding = record { cfg = configuration; world = idle }

abbrev embeddings_request : IngressRequest
embeddings_request = record {
  method = "POST";
  path = "/v1/embeddings";
  headers = [];
  body = "{}";
  host_callback_id = "7";
}

abbrev number_floats : Floats
number_floats = record {
  Float = ℕ;
  parse = λ s. none;
  of_int = λ n. n;
  zero_float = 0;
  add = λ a b. a;
  format = λ a. "";
}

abbrev written : ErrorPayload → String
written e = e.message

abbrev decide_nothing :
    Call → List Match → List Field → List Field → Headers → World → Decision × World
decide_nothing c ms qs top headers w = (unanswered no_result, w)

abbrev named : String → Raw
named s = raw_map (record { key = "model"; value = "m" } ∷ [])
