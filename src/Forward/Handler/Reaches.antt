-- ===== src/Forward/Handler/Reaches.antt =====
-- embeddings-forward/plugin.go: a request that reaches the providers is for a target whose providers
-- have keys.
use cpa_plugins.Base.{
  ◌≡◌, refl, String, ◌=ₛ◌, Bool, true, false, not, List, [], ◌∷◌, Option, none, some, if◌then◌else◌,
  trim_space, All, All-append, length, ◌<◌, ◌||◌,
}
use cpa_plugins.Forward.Bodies.{Raw, malformed, nil_map, raw_map, raw_of, raw_or_empty}
use cpa_plugins.Forward.Calls.{header_value}
use cpa_plugins.Forward.Calls.Tries.{HasKeys}
use cpa_plugins.Forward.Config.{
  Module, Match, Provider, ModelMapping, resolve, resolve_from, match_of, first_mapping,
}
use cpa_plugins.Forward.Normalize.{PluginConfig}
use cpa_plugins.Forward.Responses.{DirectResponse, ErrorPayload}
use cpa_plugins.Forward.Handler.{
  IngressRequest, Target, to_embeddings, to_rerank, to_decisions, elsewhere, target_of, module_of,
  Accepted, skipped, answered, accepted, accept, with_model, with_body, with_matches, with_module,
  is_compressed,
}

abbrev pub Keyed : List Provider → Type 0
Keyed = All (λ p. 0 < length p.api_keys)

-- Each provider of each module has a key, as an accepted configuration requires.
abbrev pub AllKeyed : PluginConfig → Type 0
AllKeyed cfg =
    Keyed cfg.embeddings.providers × Keyed cfg.rerank.providers × Keyed cfg.decisions.providers

match_of-HasKeys :
    (model : String) (p : Provider) (mms : List ModelMapping)
    → 0 < length p.api_keys
    → All HasKeys (match_of model p mms)
unfolding match_of
match_of-HasKeys model p [] k = (k, tt)
match_of-HasKeys model p (mm ∷ mms) k = from (first_mapping model (mm ∷ mms))
  where
    from :
        (o : Option ModelMapping)
        → All HasKeys
            (elim o [ none ↦ [] | some found ↦ record { provider = p; mapping = found } ∷ [] ])
    from none = tt
    from (some found) = (k, tt)

resolve_from-HasKeys :
    (model : String) (ps : List Provider) → Keyed ps → All HasKeys (resolve_from model ps)
unfolding resolve_from
resolve_from-HasKeys model [] ks = tt
resolve_from-HasKeys model (p ∷ ps) (k, ks) =
    All-append HasKeys (match_of model p p.models) (resolve_from model ps)
      (match_of-HasKeys model p p.models k) (resolve_from-HasKeys model ps ks)

resolve-HasKeys : (m : Module) (model : String) → Keyed m.providers → All HasKeys (resolve m model)
unfolding resolve
resolve-HasKeys m model ks = resolve_from-HasKeys model m.providers ks

-- A request that reaches the providers is for this target, and they have keys.
abbrev pub Reaches : Target → Accepted → Type 0
Reaches t skipped = Unit
Reaches t (answered r) = Unit
Reaches t (accepted t' top model ms) = (t' ≡ t) × All HasKeys ms

abbrev SomeKeyed : Option Module → Type 0
SomeKeyed none = Unit
SomeKeyed (some m) = Keyed m.providers

module_of-SomeKeyed : (cfg : PluginConfig) (t : Target) → AllKeyed cfg → SomeKeyed (module_of cfg t)
module_of-SomeKeyed cfg to_embeddings ks = ks.0
module_of-SomeKeyed cfg to_rerank ks = ks.1
module_of-SomeKeyed cfg to_decisions ks = ks.2
module_of-SomeKeyed cfg elsewhere ks = tt

either :
    (t : Target) (b : Bool) (x y : Accepted)
    → Reaches t x
    → Reaches t y
    → Reaches t (if b then x else y)
either t true x y h k = h
either t false x y h k = k

accept-if :
    (t : Target) (a b c : Bool) (r : DirectResponse) (x : Accepted)
    → Reaches t x
    → Reaches t (if not a || not b then skipped else if c then answered r else x)
accept-if t true true true r x h = tt
accept-if t true true false r x h = h
accept-if t true false c r x h = tt
accept-if t false b c r x h = tt

module _ (is_structured : String → Bool) (marshal_error : ErrorPayload → String)
    (unmarshal : String → Raw) (unmarshal_text : String → Option String) where
  with_body-Reaches :
      (m : Module) (t : Target) (b : Raw)
      → Keyed m.providers
      → Reaches t (with_body is_structured marshal_error unmarshal unmarshal_text m t b)
  with_body-Reaches m t malformed ks = tt
  with_body-Reaches m t nil_map ks = tt
  with_body-Reaches m t (raw_map top) ks = go (unmarshal_text (raw_or_empty (raw_of "model" top)))
    where
      found :
          (model : String) (ms : List Match)
          → All HasKeys ms
          → Reaches t
              (with_matches is_structured marshal_error unmarshal unmarshal_text t top model ms)
      found model [] h = tt
      found model (m' ∷ ms) h = (refl, h)

      go :
          (o : Option String)
          → Reaches t (with_model is_structured marshal_error unmarshal unmarshal_text m t top o)
      go none = tt
      go (some model) =
          either t (trim_space model =ₛ "") _ _ tt
            (found model (resolve m model) (resolve-HasKeys m model ks))

  with_module-Reaches :
      (o : Option Module) (t : Target) (req : IngressRequest)
      → SomeKeyed o
      → Reaches t (with_module is_structured marshal_error unmarshal unmarshal_text o t req)
  with_module-Reaches none t req ks = tt
  with_module-Reaches (some m) t req ks =
      accept-if t m.enabled (req.method =ₛ "POST")
        (is_compressed is_structured marshal_error unmarshal unmarshal_text
          (trim_space (header_value req.headers "Content-Encoding")))
        _ (with_body is_structured marshal_error unmarshal unmarshal_text m t (unmarshal req.body))
        (with_body-Reaches m t (unmarshal req.body) ks)

  pub accept-Reaches :
      (cfg : PluginConfig) (req : IngressRequest)
      → AllKeyed cfg
      → Reaches
          (target_of req.path)
          (accept is_structured marshal_error unmarshal unmarshal_text cfg req)
  unfolding accept
  accept-Reaches cfg req ks =
      with_module-Reaches (module_of cfg (target_of req.path)) (target_of req.path) req
        (module_of-SomeKeyed cfg (target_of req.path) ks)
