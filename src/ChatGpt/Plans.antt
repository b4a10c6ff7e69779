-- ===== src/ChatGpt/Plans.antt =====
-- chatgpt-backend/plugin.go: the plans for the requests that the plugin handles.
use mathlib.Core.Bool.{true≢false}
use text.Mathlib.TextLemmas.{append_assoc}
use cpa_plugins.Base.{
  ◌≡◌, refl, sym, ap, ◌∙◌, String, ◌++ₛ◌, ◌=ₛ◌, Bool, true, false, not, ◌||◌, if◌then◌else◌,
  has_prefix, has_prefix-append, trim_space,
}
use cpa_plugins.ChatGpt.{
  Handler, IngressRequest, IngressProxyPlan, Answer, unhandled, planned, backend_path_prefix,
  account_id_header, first_header, contains_fold, handle_ingress, plan_for,
}
use cpa_plugins.ChatGpt.Ready.{IsReady}

-- The account that a request names.
abbrev account_of : IngressRequest → String
account_of req = trim_space (first_header req.headers account_id_header)

-- A request that meets the route: its path, its credential and its account.
unfoldable pub Matches : IngressRequest → Type 0
Matches req =
    (has_prefix req.path backend_path_prefix ≡ true)
    × (contains_fold req.present_headers "Authorization" ≡ true)
    × ((account_of req =ₛ "") ≡ false)

-- A plan stays at the origin of the route, under its transport, and asks for the credential of the account.
unfoldable pub Follows : Handler → IngressRequest → IngressProxyPlan → Type 0
Follows h req plan =
    (has_prefix plan.upstream_url h.origin ≡ true)
    × (plan.transport ≡ h.transport)
    × (plan.credential.selector.equals ≡ account_of req)

unfoldable pub Handled : Handler → IngressRequest → Answer → Type 0
unfolding Matches Follows
Handled h req unhandled = Matches req → ⊥
Handled h req (planned plan) = Matches req × Follows h req plan
Handled h req _ = ⊥

url_from :
    (base origin path s t : String)
    → base ≡ origin ++ₛ path
    → (base ++ₛ s) ++ₛ t ≡ origin ++ₛ (path ++ₛ s ++ₛ t)
url_from base origin path s t e =
    append_assoc base s t ∙ ap (λ x. x ++ₛ s ++ₛ t) e ∙ append_assoc origin path (s ++ₛ t)

choose-Handled :
    (h : Handler) (req : IngressRequest) (plan : IngressProxyPlan) (a b c : Bool)
    → has_prefix req.path backend_path_prefix ≡ a
    → contains_fold req.present_headers "Authorization" ≡ b
    → (account_of req =ₛ "") ≡ c
    → Follows h req plan
    → Handled h req (if not a || not b then unhandled else if c then unhandled else planned plan)
unfolding Handled Matches
choose-Handled h req plan true true true p q r f = λ m. true≢false (sym r ∙ m.2)
choose-Handled h req plan true true false p q r f = ((p, q, r), f)
choose-Handled h req plan true false c p q r f = λ m. true≢false (sym m.1 ∙ q)
choose-Handled h req plan false b c p q r f = λ m. true≢false (sym m.0 ∙ p)

plan-Follows :
    (h : Handler) (req : IngressRequest)
    → IsReady h
    → Follows h req (plan_for h req (account_of req))
unfolding Follows IsReady
plan-Follows h req (host, path, base, o) = (
  ap (λ x. has_prefix x h.origin) (url_from h.base_url h.origin path _ _ base)
      ∙ has_prefix-append h.origin _,
  refl,
  refl,
)

-- Where the handler is ready: a request gets a plan exactly when its path lies under /backend-api/, an
-- Authorization header is present and the account header is not blank. The plan's URL begins with the
-- origin that the plugin registers for its route, its transport is the one of that origin, and the
-- credential is that of the account.
pub handle_ingress-Handled :
    (h : Handler) (req : IngressRequest) → IsReady h → Handled h req (handle_ingress h req)
unfolding handle_ingress
handle_ingress-Handled h req r =
    choose-Handled h req (plan_for h req (account_of req)) _ _ _ refl refl refl
      (plan-Follows h req r)
