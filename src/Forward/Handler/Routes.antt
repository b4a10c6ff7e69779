-- ===== src/Forward/Handler/Routes.antt =====
-- embeddings-forward/plugin.go: the routes that the plugin registers are the requests that it answers.
use cpa_plugins.Base.{
  ◌≡◌, refl, sym, ap, ◌∙◌, subst, String, ◌=ₛ◌, eq_iff, Bool, true, false, not, ◌&&◌, ◌||◌, List,
  [], ◌∷◌, Option, none, some, if◌then◌else◌, Bool-cases, inl, inr, arith, trim_space,
}
use cpa_plugins.Forward.Bodies.{Raw, malformed, nil_map, raw_map, raw_of, raw_or_empty}
use cpa_plugins.Forward.Config.{Module, Match, resolve}
use cpa_plugins.Forward.Normalize.{PluginConfig}
use cpa_plugins.Forward.Responses.{DirectResponse, ErrorPayload}
use cpa_plugins.Forward.Handler.{
  route_embeddings, route_rerank, route_system_one, route_decisions, IngressRoute, IngressRequest,
  Target, to_embeddings, to_rerank, to_decisions, elsewhere, target_of, module_of, add_routes,
  register_routes, Accepted, skipped, answered, accept, with_model, with_body, with_matches,
  with_module,
}

-- Whether one of the routes has this path.
unfoldable pub is_routed : String → List IngressRoute → Bool
is_routed path [] = false
is_routed path (r ∷ rs) = path =ₛ r.path || is_routed path rs

abbrev enabled_at : Bool → Bool → Bool → Target → Bool
enabled_at e r d to_embeddings = e
enabled_at e r d to_rerank = r
enabled_at e r d to_decisions = d
enabled_at e r d elsewhere = false

abbrev routes_for : Bool → Bool → Bool → List IngressRoute
routes_for e r d =
    add_routes d (route_system_one ∷ route_decisions ∷ [])
      (add_routes r (route_rerank ∷ []) (add_routes e (route_embeddings ∷ []) []))

abbrev Agree : Bool → Bool → Bool → String → Type 0
Agree e r d path = is_routed path (routes_for e r d) ≡ enabled_at e r d (target_of path)

at_embeddings : (e r d : Bool) → Agree e r d route_embeddings
unfolding is_routed add_routes target_of
at_embeddings e r d = ground arith

at_rerank : (e r d : Bool) → Agree e r d route_rerank
unfolding is_routed add_routes target_of
at_rerank e r d = ground arith

at_system_one : (e r d : Bool) → Agree e r d route_system_one
unfolding is_routed add_routes target_of
at_system_one e r d = ground arith

at_decisions : (e r d : Bool) → Agree e r d route_decisions
unfolding is_routed add_routes target_of
at_decisions e r d = ground arith

at_other :
    (e r d : Bool) (path : String)
    → (path =ₛ route_embeddings) ≡ false
    → (path =ₛ route_rerank) ≡ false
    → (path =ₛ route_system_one) ≡ false
    → (path =ₛ route_decisions) ≡ false
    → Agree e r d path
unfolding is_routed add_routes target_of
at_other e r d path h1 h2 h3 h4 = ground arith

agree : (e r d : Bool) (path : String) → Agree e r d path
agree e r d path = elim (Bool-cases (path =ₛ route_embeddings)) [
  | inl h ↦ subst (Agree e r d) (sym ((eq_iff path route_embeddings).0 h)) (at_embeddings e r d)
  | inr h1 ↦ elim (Bool-cases (path =ₛ route_rerank)) [
    | inl h ↦ subst (Agree e r d) (sym ((eq_iff path route_rerank).0 h)) (at_rerank e r d)
    | inr h2 ↦ elim (Bool-cases (path =ₛ route_system_one)) [
      | inl h ↦ subst (Agree e r d) (sym ((eq_iff path route_system_one).0 h)) (at_system_one e r d)
      | inr h3 ↦ elim (Bool-cases (path =ₛ route_decisions)) [
        | inl h ↦ subst (Agree e r d) (sym ((eq_iff path route_decisions).0 h)) (at_decisions e r d)
        | inr h4 ↦ at_other e r d path h1 h2 h3 h4
      ]
    ]
  ]
]

abbrev pub is_skipped : Accepted → Bool
is_skipped skipped = true
is_skipped _ = false

abbrev enabled_of : Option Module → Bool
enabled_of none = false
enabled_of (some m) = m.enabled

skip-if :
    (a b c : Bool) (r : DirectResponse) (x : Accepted)
    → is_skipped x ≡ false
    → is_skipped (if not a || not b then skipped else if c then answered r else x) ≡ not (a && b)
skip-if true true true r x h = refl
skip-if true true false r x h = h
skip-if true false c r x h = refl
skip-if false b c r x h = refl

enabled_of-module :
    (cfg : PluginConfig) (t : Target)
    → enabled_at cfg.embeddings.enabled cfg.rerank.enabled cfg.decisions.enabled t
      ≡ enabled_of (module_of cfg t)
enabled_of-module cfg to_embeddings = refl
enabled_of-module cfg to_rerank = refl
enabled_of-module cfg to_decisions = refl
enabled_of-module cfg elsewhere = refl

module _ (is_structured : String → Bool) (marshal_error : ErrorPayload → String)
    (unmarshal : String → Raw) (unmarshal_text : String → Option String) where
  with_body-kept :
      (m : Module) (t : Target) (b : Raw)
      → is_skipped (with_body is_structured marshal_error unmarshal unmarshal_text m t b) ≡ false
  with_body-kept m t malformed = refl
  with_body-kept m t nil_map = refl
  with_body-kept m t (raw_map top) = go (unmarshal_text (raw_or_empty (raw_of "model" top)))
    where
      found :
          (model : String) (ms : List Match)
          → is_skipped
              (with_matches is_structured marshal_error unmarshal unmarshal_text t top model ms)
            ≡ false
      found model [] = refl
      found model (m' ∷ ms) = refl

      go :
          (o : Option String)
          → is_skipped (with_model is_structured marshal_error unmarshal unmarshal_text m t top o)
            ≡ false
      go none = refl
      go (some model) = elim (Bool-cases (trim_space model =ₛ "")) [
        | inl e ↦ rw (e, if◌then◌else◌) refl
        | inr e ↦ rw (e, if◌then◌else◌) (found model (resolve m model))
      ]

  with_module-skips :
      (o : Option Module) (t : Target) (req : IngressRequest)
      → is_skipped (with_module is_structured marshal_error unmarshal unmarshal_text o t req)
        ≡ not (enabled_of o && req.method =ₛ "POST")
  with_module-skips none t req = refl
  with_module-skips (some m) t req =
      skip-if m.enabled (req.method =ₛ "POST") _ _ _ (with_body-kept m t (unmarshal req.body))

  pub accept-skips :
      (cfg : PluginConfig) (req : IngressRequest)
      → is_skipped (accept is_structured marshal_error unmarshal unmarshal_text cfg req)
        ≡ not (is_routed req.path (register_routes cfg) && req.method =ₛ "POST")
  unfolding accept register_routes
  accept-skips cfg req =
      with_module-skips (module_of cfg (target_of req.path)) (target_of req.path) req
      ∙ ap (λ b. not (b && req.method =ₛ "POST"))
          (sym (
            agree cfg.embeddings.enabled cfg.rerank.enabled cfg.decisions.enabled req.path
            ∙ enabled_of-module cfg (target_of req.path)))
