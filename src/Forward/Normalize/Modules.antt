-- ===== src/Forward/Normalize/Modules.antt =====
-- embeddings-forward/config.go: what holds of the three modules of a configuration that is accepted.
use cpa_plugins.Base.{
  is_in, length, ◌<◌, String, ◌≡◌, ◌⊎◌, refl, subst, inl, inr, Bool, true, false, List, [], ◌∷◌,
  Option, if◌then◌else◌, Bool-cases, arith, All,
}
use cpa_plugins.Forward.Config.{Provider, Module}
use cpa_plugins.Forward.Normalize.{
  PluginConfig, parse_config, join_system_one, then_module, normalize_module, decisions_path,
  no_providers, without_providers, ParsedUrl, Checked, ok, rejected, unless_fault, duplicate_name,
  normalize, normalize_all,
}
use cpa_plugins.Forward.Normalize.Accepted.{
  Granted, unless-Granted, IsNormal, AreNew, normalize_all-Granted,
}

-- A module is disabled or has at least one provider, and its providers are in order.
abbrev pub IsReady : Module → Type 0
IsReady m =
    (m.enabled ≡ false)
    ⊎ ((0 < length m.providers) × All IsNormal m.providers × AreNew [] m.providers)

abbrev AllReady : PluginConfig → Type 0
AllReady cfg = IsReady cfg.embeddings × IsReady cfg.rerank × IsReady cfg.decisions

module _ (parse_url : String → Option ParsedUrl) where
  some-Granted :
      (c : Checked (List Provider)) (b : Bool) (q : Provider)
      → Granted
          (λ qs. 0 < length qs)
          (unless_fault b duplicate_name
            (elim c [ rejected fault ↦ rejected fault | ok ps ↦ ok (q ∷ ps) ]))
  some-Granted c b q = unless-Granted (λ qs. 0 < length qs) b duplicate_name _ λ e. from c
    where
      from :
          (c : Checked (List Provider))
          → Granted
              (λ qs. 0 < length qs)
              (elim c [ rejected fault ↦ rejected fault | ok ps ↦ ok (q ∷ ps) ])
      from (ok ps) = omega arith
      from (rejected fault) = tt

  -- No provider is dropped, so that a list with providers has some when it is accepted.
  normalize_all-some :
      (decisions : Bool) (path : Provider → String) (seen : List String) (ps : List Provider)
      → no_providers ps ≡ false
      → Granted (λ qs. 0 < length qs) (normalize_all parse_url decisions path seen ps)
  unfolding normalize_all
  normalize_all-some decisions path seen [] h = cc h
  normalize_all-some decisions path seen (p ∷ ps) h =
      from (normalize parse_url decisions (path p) p)
    where
      from :
          (c : Checked Provider)
          → Granted
              (λ qs. 0 < length qs)
              (elim c [
                | rejected fault ↦ rejected fault
                | ok p' ↦
                    unless_fault
                      (is_in p'.name seen)
                      duplicate_name
                      (elim (normalize_all parse_url decisions path (p'.name ∷ seen) ps) [
                        | rejected fault ↦ rejected fault
                        | ok ps' ↦ ok (p' ∷ ps')
                      ])
              ])
      from (ok p') =
          some-Granted (normalize_all parse_url decisions path (p'.name ∷ seen) ps)
            (is_in p'.name seen) p'
      from (rejected fault) = tt

  module-Granted :
      (decisions : Bool) (path : Provider → String) (m : Module)
      → Granted IsReady (normalize_module parse_url decisions path m)
  unfolding normalize_module
  module-Granted decisions path m = elim (Bool-cases m.enabled) [
    | inl e ↦
        rw (e, if◌then◌else◌)
          (unless-Granted IsReady (no_providers m.providers) without_providers _ λ some_provider.
            from (normalize_all parse_url decisions path [] m.providers)
              (normalize_all-Granted parse_url decisions path [] m.providers)
              (normalize_all-some decisions path [] m.providers some_provider))
    | inr e ↦ rw (e, if◌then◌else◌) (inl refl)
  ]
    where
      from :
          (c : Checked (List Provider))
          → Granted (λ qs. All IsNormal qs × AreNew [] qs) c
          → Granted (λ qs. 0 < length qs) c
          → Granted IsReady (elim c [
            | rejected fault ↦ rejected fault
            | ok ps ↦ ok (record m { providers = ps })
          ])
      from (ok ps) (all, fresh) k = inr (k, all, fresh)
      from (rejected fault) h k = tt

  then-Granted :
      {A : Type 0} (P : A → Type 0) (c : Checked Module) (next : Module → Checked A)
      → Granted IsReady c
      → ((m : Module) → IsReady m → Granted P (next m))
      → Granted P (then_module parse_url c next)
  unfolding then_module
  then-Granted P (ok m) next h f = f m h
  then-Granted P (rejected fault) next h f = tt

  -- In a configuration that is accepted each of the three modules is disabled, or it has at least one
  -- provider, and its providers are in order, with different names.
  pub parse_config-IsReady :
      (given cfg : PluginConfig)
      → parse_config parse_url given ≡ ok cfg
      → IsReady cfg.embeddings × IsReady cfg.rerank × IsReady cfg.decisions
  unfolding parse_config join_system_one
  parse_config-IsReady given cfg e = subst (Granted AllReady) e accepted
    where
      accepted : Granted AllReady (parse_config parse_url given)
      accepted =
          then-Granted AllReady
            (normalize_module parse_url false (λ p. "/embeddings") given.embeddings) _
            (module-Granted false (λ p. "/embeddings") given.embeddings)
            λ m h.
              then-Granted AllReady (normalize_module parse_url false (λ p. "/rerank") given.rerank)
                _ (module-Granted false (λ p. "/rerank") given.rerank)
                λ m' h'.
                  then-Granted AllReady
                    (normalize_module parse_url true decisions_path
                      (join_system_one given).decisions)
                    _ (module-Granted true decisions_path (join_system_one given).decisions)
                    λ m'' h''. (h, h', h'')
