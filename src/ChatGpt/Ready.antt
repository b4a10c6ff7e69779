-- ===== src/ChatGpt/Ready.antt =====
-- chatgpt-backend/plugin.go: what the configuration keeps true of the handler.

use mathlib.Core.Bool.{true≢false}
use text.Mathlib.TextLemmas.{append_assoc}
use cpa_plugins.Base.{
  ◌≡◌, ◌⊎◌, inl, inr, refl, sym, ap, ◌∙◌, subst, String, ◌++ₛ◌, ◌=ₛ◌, eq_iff, Bool, true, false,
  not, ◌&&◌, ◌||◌, Option, none, some, if◌then◌else◌, Bool-cases, has_prefix, has_prefix-covered,
  has_prefix-append, covers, trim_slashes, trim_slashes-append, trim_slashes-end, trim_space,
}
use cpa_plugins.ChatGpt.{
  Handler, Url, Parsed, wrong, right, is_base_url, normalize_parsed, normalize_base_url,
  transport_of, install, configured, configure, IngressRequest, Method, register, ingress_register,
  ingress_handle, quiesce, unsupported, method_of, answer_configured, on_register, answer, call,
  default_base_url,
}

-- The base URL begins with the origin, which is that of an HTTP or HTTPS URL; the transport goes with it.
unfoldable pub IsReady : Handler → Type 0
IsReady h =
    (host path : String) × (h.base_url ≡ h.origin ++ₛ path)
    × (((h.origin ≡ "https://" ++ₛ host) × (h.transport ≡ "utls"))
        ⊎ ((h.origin ≡ "http://" ++ₛ host) × (h.transport ≡ "standard")))

https : (host : String) → has_prefix ("https://" ++ₛ host) "http://" ≡ false
unfolding covers has_prefix
https host = has_prefix-covered "https://" host "http://" refl

http : (host : String) → has_prefix ("http://" ++ₛ host) "http://" ≡ true
http host = has_prefix-append "http://" host

base_url-tests :
    (s t h u q f : Bool)
    → not (not s && not t || h || u || not q || not f) ≡ true
    → ((s ≡ true) ⊎ (t ≡ true)) × (h ≡ false)
base_url-tests true t false u q f e = (inl refl, refl)
base_url-tests false true false u q f e = (inr refl, refl)
base_url-tests true t true u q f e = absurd (true≢false (sym e))
base_url-tests false true true u q f e = absurd (true≢false (sym e))
base_url-tests false false h u q f e = absurd (true≢false (sym e))

origin-kept :
    (scheme host : String)
    → trim_slashes host ≡ host
    → (host =ₛ "") ≡ false
    → trim_slashes (scheme ++ₛ "://" ++ₛ host) ≡ scheme ++ₛ "://" ++ₛ host
origin-kept scheme host k n =
    ap trim_slashes (sym (append_assoc scheme "://" host))
    ∙ trim_slashes-end (scheme ++ₛ "://") host k n
    ∙ append_assoc scheme "://" host

origin_cases :
    (scheme host : String)
    → ((scheme =ₛ "https") ≡ true) ⊎ ((scheme =ₛ "http") ≡ true)
    → ((scheme ++ₛ "://" ++ₛ host ≡ "https://" ++ₛ host)
        × (transport_of (scheme ++ₛ "://" ++ₛ host) ≡ "utls"))
      ⊎ ((scheme ++ₛ "://" ++ₛ host ≡ "http://" ++ₛ host)
          × (transport_of (scheme ++ₛ "://" ++ₛ host) ≡ "standard"))
origin_cases scheme host (inl e) =
    let o =
      ap (λ x. x ++ₛ "://" ++ₛ host) ((eq_iff scheme "https").0 e)
      ∙ sym (append_assoc "https" "://" host) in
    inl (o, ap transport_of o ∙ rw (https host, if◌then◌else◌) refl)
origin_cases scheme host (inr e) =
    let o =
      ap (λ x. x ++ₛ "://" ++ₛ host) ((eq_iff scheme "http").0 e)
      ∙ sym (append_assoc "http" "://" host) in
    inr (o, ap transport_of o ∙ rw (http host, if◌then◌else◌) refl)

IsReady-install :
    (h : Handler) (u : Url) (path : String)
    → is_base_url u ≡ true
    → u.text ≡ (u.scheme ++ₛ "://" ++ₛ u.host) ++ₛ path
    → trim_slashes u.host ≡ u.host
    → IsReady (install (right (trim_slashes u.text, u.scheme ++ₛ "://" ++ₛ u.host)) h).1
unfolding IsReady
IsReady-install h u path e t k =
    let (s, n) =
      base_url-tests (u.scheme =ₛ "https") (u.scheme =ₛ "http") (u.host =ₛ "") u.has_user
        (u.raw_query =ₛ "") (u.fragment =ₛ "") e in
    (
      u.host,
      trim_slashes path,
      ap trim_slashes t
          ∙ trim_slashes-append (u.scheme ++ₛ "://" ++ₛ u.host) path
              (origin-kept u.scheme u.host k n),
      origin_cases u.scheme u.host s,
    )

-- An error changes nothing; without one the handler is ready.
abbrev IsConfigured : Handler → Option String × Handler → Type 0
IsConfigured h (some message, h') = h' ≡ h
IsConfigured h (none, h') = IsReady h'

answered-IsReady :
    (h : Handler) (o : Option String × Handler)
    → IsReady h
    → IsConfigured h o
    → IsReady (answer_configured o).1
answered-IsReady h (some message, h') r e = subst IsReady (sym e) r
answered-IsReady h (none, h') r k = k

-- A URL with a scheme and a host, and without a user, is written as the scheme, the escaped host and the
-- rest; the host has no slash at its end.
module _ (quote escape_host : String → String) (parse_url : String → Parsed Url)
    (splits : (raw : String) (u : Url)
      → parse_url raw ≡ right u
      → is_base_url u ≡ true
      → (path : String) × (u.text ≡ (u.scheme ++ₛ "://" ++ₛ escape_host u.host) ++ₛ path)
        × (trim_slashes u.host ≡ u.host)) where
  -- The host of the URL that is parsed needs no escapes.
  abbrev pub IsPlain : String → Type 0
  IsPlain raw = (u : Url) → parse_url raw ≡ right u → escape_host u.host ≡ u.host

  install-IsConfigured :
      (raw : String) (p : Parsed Url) (h : Handler)
      → parse_url raw ≡ p
      → IsPlain raw
      → IsConfigured h (install (normalize_parsed quote parse_url raw p) h)
  install-IsConfigured raw (wrong message) h e plain = refl
  install-IsConfigured raw (right u) h e plain = elim (Bool-cases (is_base_url u)) [
    | inl k ↦
        let (path, t, host) = splits raw u e k in
        let written = t ∙ ap (λ x. (u.scheme ++ₛ "://" ++ₛ x) ++ₛ path) (plain u e) in
        rw (k, if◌then◌else◌) (IsReady-install h u path k written host)
    | inr k ↦ rw (k, if◌then◌else◌) refl
  ]

  -- The text that is parsed for a base URL.
  abbrev pub parsed_text : String → String
  parsed_text base_url = if trim_space base_url =ₛ "" then default_base_url else trim_space base_url

  module _ (base_url_of : String → Parsed String) where
    -- The base URL of a configuration needs no escapes in its host.
    abbrev pub HasPlainHost : String → Type 0
    HasPlainHost raw =
        (base_url : String)
        → (if raw =ₛ "" then right default_base_url else base_url_of raw) ≡ right base_url
        → IsPlain (parsed_text base_url)

    configured-IsConfigured :
        (p : Parsed String) (h : Handler)
        → ((base_url : String) → p ≡ right base_url → IsPlain (parsed_text base_url))
        → IsConfigured h (configured quote parse_url base_url_of p h)
    unfolding normalize_base_url
    configured-IsConfigured (wrong message) h plain = refl
    configured-IsConfigured (right base_url) h plain =
        install-IsConfigured (parsed_text base_url) _ h refl (plain base_url refl)

    -- A configuration that has an error leaves the handler as it is. After one that has none, and whose
    -- base URL needs no escapes in its host, the base URL of the handler begins with its origin, the
    -- origin is that of an HTTP or HTTPS URL, and the transport is the one for that scheme.
    configure-IsConfigured :
        (raw : String) (h : Handler)
        → HasPlainHost raw
        → IsConfigured h (configure quote parse_url base_url_of raw h)
    unfolding configure
    configure-IsConfigured raw h plain =
        configured-IsConfigured (if raw =ₛ "" then right default_base_url else base_url_of raw) h
          plain

    module _ (lifecycle_of : String → Option String)
        (ingress_of : String → Option IngressRequest) where
      registered-IsReady :
          (request : Option String) (h : Handler)
          → ((raw : String) → request ≡ some raw → HasPlainHost raw)
          → IsReady h
          → IsReady (on_register quote parse_url base_url_of lifecycle_of ingress_of request h).1
      registered-IsReady none h plain r = r
      registered-IsReady (some raw) h plain r =
          answered-IsReady h _ r (configure-IsConfigured raw h (plain raw refl))

      answer-IsReady :
          (m : Method) (request : String) (h : Handler)
          → ((raw : String) → lifecycle_of request ≡ some raw → HasPlainHost raw)
          → IsReady h
          → IsReady (answer quote parse_url base_url_of lifecycle_of ingress_of m request h).1
      unfolding answer
      answer-IsReady register request h plain r =
          registered-IsReady (lifecycle_of request) h plain r
      answer-IsReady ingress_register request h plain r = r
      answer-IsReady ingress_handle request h plain r = r
      answer-IsReady quiesce request h plain r = r
      answer-IsReady unsupported request h plain r = r

      -- No call of the host makes a ready handler one that is not, whatever its method and its request,
      -- if the base URL of a configuration in the request needs no escapes in its host. It is assumed
      -- that an HTTP or HTTPS URL with a host and without a user, query or fragment is written as its
      -- scheme, its escaped host and a rest, and that its host has no slash at its end.
      pub call-IsReady :
          (method request : String) (h : Handler)
          → ((raw : String) → lifecycle_of request ≡ some raw → HasPlainHost raw)
          → IsReady h
          → IsReady (call quote parse_url base_url_of lifecycle_of ingress_of method request h).1
      unfolding call
      call-IsReady method request h plain = answer-IsReady (method_of method) request h plain
