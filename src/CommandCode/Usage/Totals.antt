-- ===== src/CommandCode/Usage/Totals.antt =====
-- commandcode/protocol.go: the totals of the usage that the client and the host are given.
use mathlib.Core.Option.{some-injective, none-ne-some}
use cpa_plugins.Base.{
  ℕ, ◌≡◌, refl, sym, ap, ◌∙◌, ◌⊎◌, inl, inr, Bool, true, false, Option, some, arith, ◌==◌, ==_iff,
  if◌then◌else◌, Bool-cases,
}
use cpa_plugins.CommandCode.Usage.{
  TokenUsage, OpenAiUsage, add64, prompt_with_cache, usage_object, openai_usage, detail,
  usage_object,
}

-- The four ways in which a reported total can be the sum of its parts.
abbrev pub Explained : TokenUsage → Type 0
Explained u =
    (u.total ≡ add64 u.input u.output)
    ⊎ ((u.total ≡ add64 (prompt_with_cache u) u.output)
        ⊎ ((u.total ≡ add64 (add64 u.input u.output) u.reasoning)
            ⊎ (u.total ≡ add64 (add64 (prompt_with_cache u) u.output) u.reasoning)))

add64_assoc : (a b c : ℕ) → add64 (add64 a b) c ≡ add64 a (add64 b c)
add64_assoc a b c = omega arith

add64_middle : (a b c d : ℕ) → add64 (add64 (add64 a b) c) d ≡ add64 (add64 (add64 a d) b) c
add64_middle a b c d = omega arith

-- A choice among six usage objects: what holds for each that is given holds for the one given.
module _ (P : OpenAiUsage → Type 0) {a : Option OpenAiUsage} {b : Option OpenAiUsage} where
  either :
      (c : Bool)
      → (c ≡ true → (o : OpenAiUsage) → a ≡ some o → P o)
      → (c ≡ false → (o : OpenAiUsage) → b ≡ some o → P o)
      → (o : OpenAiUsage) → (if c then a else b) ≡ some o
      → P o
  either true f g o e = f refl o e
  either false f g o e = g refl o e

-- The object that is given holds these counts.
object-counts :
    (u : TokenUsage) (p c t : ℕ) (o : OpenAiUsage)
    → usage_object u p c t ≡ some o
    → (o.prompt_tokens ≡ p) × (o.completion_tokens ≡ c) × (o.total_tokens ≡ t)
object-counts u p c t o = elim (Bool-cases (t == 0)) [
  | inl e ↦ rw (e, if◌then◌else◌) λ h. absurd (none-ne-some _ h)
  | inr e ↦
      rw (e, if◌then◌else◌)
        λ h.
          let k = some-injective _ _ h in
          (
            ap (λ x. x.prompt_tokens) (sym k),
            ap (λ x. x.completion_tokens) (sym k),
            ap (λ x. x.total_tokens) (sym k),
          )
]

abbrev pub IsGiven : TokenUsage → Type 0
IsGiven u = (u.total ≡ 0) ⊎ Explained u

-- What the two theorems say of an object.
abbrev Shown : TokenUsage → OpenAiUsage → Type 0
Shown u o =
    (IsGiven u → add64 o.prompt_tokens o.completion_tokens ≡ o.total_tokens)
    × (o.total_tokens ≡ (detail u).total_tokens)

Shown-object :
    (u : TokenUsage) (p c t : ℕ)
    → (IsGiven u → add64 p c ≡ t)
    → t ≡ (detail u).total_tokens
    → (o : OpenAiUsage) → usage_object u p c t ≡ some o
    → Shown u o
Shown-object u p c t sum total o e =
    let (ep, ec, et) = object-counts u p c t o e in rw (ep, ec, et) (sum, total)

detail_given : (u : TokenUsage) → (u.total == 0) ≡ false → u.total ≡ (detail u).total_tokens
unfolding detail
detail_given u e = rw (e, if◌then◌else◌) refl

detail_missing :
    (u : TokenUsage)
    → (u.total == 0) ≡ true
    → add64 (prompt_with_cache u) u.output ≡ (detail u).total_tokens
unfolding detail
detail_missing u e =
    rw (e, if◌then◌else◌) (add64_middle u.input u.cache_read u.cache_write u.output)

equal : (a b : ℕ) → (a == b) ≡ true → b ≡ a
equal a b e = sym ((==_iff a b).0 e)

-- The last case is reached by a total that nothing explains.
unexplained :
    (u : TokenUsage)
    → (u.total == 0) ≡ false
    → (u.total == add64 u.input u.output) ≡ false
    → (u.total == add64 (prompt_with_cache u) u.output) ≡ false
    → (u.total == add64 (add64 u.input u.output) u.reasoning) ≡ false
    → (u.total == add64 (add64 (prompt_with_cache u) u.output) u.reasoning) ≡ false
    → ¬ IsGiven u
unexplained u e0 e1 e2 e3 e4 (inl h) = cc (e0, (==_iff _ _).1 h)
unexplained u e0 e1 e2 e3 e4 (inr (inl h)) = cc (e1, (==_iff _ _).1 h)
unexplained u e0 e1 e2 e3 e4 (inr (inr (inl h))) = cc (e2, (==_iff _ _).1 h)
unexplained u e0 e1 e2 e3 e4 (inr (inr (inr (inl h)))) = cc (e3, (==_iff _ _).1 h)
unexplained u e0 e1 e2 e3 e4 (inr (inr (inr (inr h)))) = cc (e4, (==_iff _ _).1 h)

usage-Shown : (u : TokenUsage) (o : OpenAiUsage) → openai_usage u ≡ some o → Shown u o
unfolding openai_usage
usage-Shown u =
    let p = prompt_with_cache u in
    either (Shown u) (u.total == 0) (λ e. Shown-object u _ _ _ (λ _. refl) (detail_missing u e))
      λ e0.
        let given = detail_given u e0 in
        either (Shown u) (u.total == add64 u.input u.output)
          (λ e. Shown-object u _ _ _ (λ _. equal u.total _ e) given)
          λ e1.
            either (Shown u) (u.total == add64 p u.output)
              (λ e. Shown-object u _ _ _ (λ _. equal u.total _ e) given)
              λ e2.
                either (Shown u) (u.total == add64 (add64 u.input u.output) u.reasoning)
                  (λ e.
                    Shown-object u _ _ _
                      (λ _. sym (add64_assoc u.input u.output u.reasoning) ∙ equal u.total _ e)
                      given)
                  λ e3.
                    either (Shown u) (u.total == add64 (add64 p u.output) u.reasoning)
                      (λ e.
                        Shown-object u _ _ _
                          (λ _. sym (add64_assoc p u.output u.reasoning) ∙ equal u.total _ e) given)
                      λ e4.
                        Shown-object u _ _ _ (λ h. absurd (unexplained u e0 e1 e2 e3 e4 h)) given

module _ (u : TokenUsage) {o : OpenAiUsage} (given : openai_usage u ≡ some o) where
  -- The counts shown to the client add up: prompt and completion make the total, as int64, unless
  -- the upstream reported a total that none of the four layouts explains.
  pub openai_usage-sum : IsGiven u → add64 o.prompt_tokens o.completion_tokens ≡ o.total_tokens
  openai_usage-sum = (usage-Shown u o given).0

  -- The total shown to the client is the total reported to the host.
  openai_usage-detail : o.total_tokens ≡ (detail u).total_tokens
  openai_usage-detail = (usage-Shown u o given).1
