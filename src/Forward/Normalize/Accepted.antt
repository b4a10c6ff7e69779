-- ===== src/Forward/Normalize/Accepted.antt =====
-- embeddings-forward/config.go: what holds of a configuration that is accepted.
use mathlib.Core.Option.{some-injective, none-ne-some}
use cpa_plugins.Base.{
  is_in, ℕ, String, ◌==◌, ◌++ₛ◌, ◌=ₛ◌, ◌≡◌, ◌⊎◌, refl, sym, subst, inl, inr, Bool, true, false, not,
  ◌||◌, List, [], ◌∷◌, Option, none, some, ℤ, pos, negsuc, ltb_ℤ, if◌then◌else◌, Bool-cases, arith,
  All, trim_slashes, trim_space,
}
use cpa_plugins.Forward.Config.{Provider}
use cpa_plugins.Forward.Keys.{is_zero}
use cpa_plugins.Forward.Normalize.{
  ParsedUrl, Fault, Checked, ok, rejected, unless_fault, duplicate_name, invalid_url,
  unknown_strategy, path_of, is_good_url, no_keys, any_bad_key, any_unnamed, is_negative,
  strategy_of, check_api, check_url, check_limits, and_then, normalize, normalize_all,
}

-- What holds of the value that is accepted.
abbrev pub Granted : {A : Type 0} → (A → Type 0) → Checked A → Type 0
Granted P (ok a) = P a
Granted P (rejected fault) = Unit

pub unless-Granted :
    {A : Type 0} (P : A → Type 0) (b : Bool) (fault : Fault) (rest : Checked A)
    → (b ≡ false → Granted P rest)
    → Granted P (unless_fault b fault rest)
unfolding unless_fault
unless-Granted P true fault rest f = tt
unless-Granted P false fault rest f = f refl

-- A provider has a name, keys that can stand in a header, one of the two strategies, no limit
-- below 0 and room for a batch.
abbrev pub IsNormal : Provider → Type 0
IsNormal p =
    ((p.name =ₛ "") ≡ false)
    × (no_keys p.api_keys ≡ false)
    × (any_bad_key p.api_keys ≡ false)
    × ((p.strategy ≡ "failover") ⊎ (p.strategy ≡ "round_robin"))
    × (any_unnamed p.models ≡ false)
    × (is_negative p.cooldown_seconds ≡ false)
    × (is_negative p.max_questions ≡ false)
    × (ltb_ℤ (pos 0) p.max_concurrency ≡ true)

strategy_cases :
    (s : String) (strategy : String)
    → strategy_of s ≡ some strategy
    → (strategy ≡ "failover") ⊎ (strategy ≡ "round_robin")
unfolding strategy_of
strategy_cases s strategy = from _ _
  where
    from :
        (a b : Bool)
        → (if a then some "failover" else if b then some "round_robin" else none) ≡ some strategy
        → (strategy ≡ "failover") ⊎ (strategy ≡ "round_robin")
    from true b e = inl (sym (some-injective _ _ e))
    from false true e = inr (sym (some-injective _ _ e))
    from false false e = absurd (none-ne-some _ e)

or_false : (a b : Bool) → (a || b) ≡ false → (a ≡ false) × (b ≡ false)
or_false true b e = cc e
or_false false b e = (refl, e)

positive : (n : ℕ) → (n == 0) ≡ false → ltb_ℤ (pos 0) (pos n) ≡ true
positive n e = ground arith

negative : (n : ℕ) → is_negative (negsuc n) ≡ false → ⊥
negative n e = ground arith

concurrency :
    (n : ℤ) → is_negative n ≡ false → ltb_ℤ (pos 0) (if is_zero n then pos 4 else n) ≡ true
concurrency (pos n) h = elim (Bool-cases (n == 0)) [
  | inl e ↦ rw (e, if◌then◌else◌) refl
  | inr e ↦ rw (e, if◌then◌else◌) (positive n e)
]
concurrency (negsuc n) h = absurd (negative n h)

-- The names are not among those seen, nor twice in the list.
abbrev pub AreNew : List String → List Provider → Type 0
AreNew seen [] = Unit
AreNew seen (p ∷ ps) = (is_in p.name seen ≡ false) × AreNew (p.name ∷ seen) ps

module _ (parse_url : String → Option ParsedUrl) where
  url-Granted :
      (path : String) (p : Provider)
      → ((url : String) → IsNormal (record p { url = url }))
      → Granted IsNormal (check_url parse_url path p)
  unfolding check_url
  url-Granted path p h =
      from (parse_url (trim_slashes (trim_space p.base_url) ++ₛ path_of p.path path))
    where
      from :
          (o : Option ParsedUrl)
          → Granted IsNormal (elim o [
            | none ↦ rejected invalid_url
            | some u ↦
                unless_fault (not (is_good_url u)) invalid_url (ok (record p { url = u.text }))
          ])
      from none = tt
      from (some u) = unless-Granted IsNormal (not (is_good_url u)) invalid_url _ λ e. h u.text

  -- Up to the limits.
  limits-Granted :
      (path : String) (p : Provider)
      → (p.name =ₛ "") ≡ false
      → no_keys p.api_keys ≡ false
      → any_bad_key p.api_keys ≡ false
      → (p.strategy ≡ "failover") ⊎ (p.strategy ≡ "round_robin")
      → Granted IsNormal (check_limits parse_url path p)
  unfolding check_limits
  limits-Granted path p named keyed good strategy = unless-Granted IsNormal _ _ _ λ e.
      let (first, batches) =
        or_false (is_negative p.cooldown_seconds || is_negative p.max_questions) _ e in
      let (cool, questions) = or_false (is_negative p.cooldown_seconds) _ first in
      unless-Granted IsNormal _ _ _ λ models. url-Granted path _ λ url. (
        named,
        keyed,
        good,
        strategy,
        models,
        cool,
        questions,
        concurrency p.max_concurrency batches,
      )

  next-Granted :
      {A : Type 0} (c : Checked A) (next : A → Checked Provider)
      → ((a : A) → Granted IsNormal (next a))
      → Granted IsNormal (and_then parse_url c next)
  unfolding and_then
  next-Granted (ok a) next f = f a
  next-Granted (rejected fault) next f = tt

  normalize-Granted :
      (decisions : Bool) (path : String) (p : Provider)
      → Granted IsNormal (normalize parse_url decisions path p)
  unfolding normalize
  normalize-Granted decisions path p = unless-Granted IsNormal _ _ _ λ named.
      unless-Granted IsNormal _ _ _ λ keyed.
        unless-Granted IsNormal _ _ _
          λ good. from named keyed good (strategy_of p.strategy) (strategy_cases p.strategy)
    where
      from :
          (trim_space p.name =ₛ "") ≡ false
          → no_keys p.api_keys ≡ false
          → any_bad_key p.api_keys ≡ false
          → (o : Option String)
          → ((s : String) → o ≡ some s → (s ≡ "failover") ⊎ (s ≡ "round_robin"))
          → Granted IsNormal (elim o [
            | none ↦ rejected unknown_strategy
            | some strategy ↦ and_then parse_url (check_api decisions p) λ api.
                check_limits parse_url path
                  (record p { name = trim_space p.name; strategy = strategy; api = api })
          ])
      from named keyed good none known = tt
      from named keyed good (some s) known = next-Granted (check_api decisions p) _ λ api.
          limits-Granted path (record p { name = trim_space p.name; strategy = s; api = api }) named
            keyed good (known s refl)

  -- After one provider.
  cons-Granted :
      (seen : List String) (p : Provider) (rest : Checked (List Provider))
      → IsNormal p
      → Granted (λ qs. All IsNormal qs × AreNew (p.name ∷ seen) qs) rest
      → Granted
          (λ qs. All IsNormal qs × AreNew seen qs)
          (unless_fault
            (is_in p.name seen)
            duplicate_name
            (elim rest [ rejected fault ↦ rejected fault | ok ps ↦ ok (p ∷ ps) ]))
  cons-Granted seen p rest h k =
      unless-Granted (λ qs. All IsNormal qs × AreNew seen qs) (is_in p.name seen) duplicate_name _
        λ e. from e rest k
    where
      from :
          is_in p.name seen ≡ false
          → (rest : Checked (List Provider))
          → Granted (λ qs. All IsNormal qs × AreNew (p.name ∷ seen) qs) rest
          → Granted
              (λ qs. All IsNormal qs × AreNew seen qs)
              (elim rest [ rejected fault ↦ rejected fault | ok ps ↦ ok (p ∷ ps) ])
      from e (ok ps) (all, fresh) = ((h, all), (e, fresh))
      from e (rejected fault) k = tt

  pub normalize_all-Granted :
      (decisions : Bool) (path : Provider → String) (seen : List String) (ps : List Provider)
      → Granted
          (λ qs. All IsNormal qs × AreNew seen qs)
          (normalize_all parse_url decisions path seen ps)
  unfolding normalize_all
  normalize_all-Granted decisions path seen [] = (tt, tt)
  normalize_all-Granted decisions path seen (p ∷ ps) =
      from (normalize parse_url decisions (path p) p) (normalize-Granted decisions (path p) p)
        λ q. normalize_all-Granted decisions path (q.name ∷ seen) ps
    where
      from :
          (c : Checked Provider)
          → Granted IsNormal c
          → ((q : Provider)
              → Granted
                  (λ qs. All IsNormal qs × AreNew (q.name ∷ seen) qs)
                  (normalize_all parse_url decisions path (q.name ∷ seen) ps))
          → Granted
              (λ qs. All IsNormal qs × AreNew seen qs)
              (elim c [
                | rejected fault ↦ rejected fault
                | ok p' ↦
                    unless_fault
                      (is_in p'.name seen)
                      duplicate_name
                      (elim (normalize_all parse_url decisions path (p'.name ∷ seen) ps) [
                        | rejected fault ↦ rejected fault
                        | ok ps' ↦ ok (p' ∷ ps')
                      ])
              ])
      from (ok p') h k =
          cons-Granted seen p' (normalize_all parse_url decisions path (p'.name ∷ seen) ps) h (k p')
      from (rejected fault) h k = tt

  -- The providers of an accepted list are in order, and no two of them have the same name.
  pub normalize_all-IsNormal :
      (decisions : Bool) (path : Provider → String) (ps qs : List Provider)
      → normalize_all parse_url decisions path [] ps ≡ ok qs
      → All IsNormal qs × AreNew [] qs
  normalize_all-IsNormal decisions path ps qs e =
      subst (Granted (λ l. All IsNormal l × AreNew [] l)) e
        (normalize_all-Granted decisions path [] ps)
