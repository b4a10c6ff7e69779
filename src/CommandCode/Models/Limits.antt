-- ===== src/CommandCode/Models/Limits.antt =====
-- commandcode/protocol.go: the output limit and the effort that a request is given.
use cpa_plugins.Base.{
  ◌≡◌, ◌⊎◌, inl, inr, refl, sym, subst, String, ◌=ₛ◌, eq_iff, true, false, List, [], ◌∷◌, map,
  Option, none, some, ℤ, pos, ltb_ℤ, ◌≤ℤ◌, if◌then◌else◌, Bool-cases, trim_space, equal_fold, All,
  is_in, arith,
}
use cpa_plugins.CommandCode.Catalog.{ModelInfo}
use cpa_plugins.CommandCode.Errors.{StreamError, status_error}
use cpa_plugins.CommandCode.Models.{
  max_tokens_cap, limit_of, model_max_tokens, Allowed, tokens, rejected, refuse, chosen, max_tokens,
  unless_refused, level_of, levels_of, reasoning_effort, lookup_model_info,
}

-- A value from 1 to the limit, or none at all.
unfoldable pub Fits : ℤ → Option ℤ → Type 0
Fits limit none = Unit
Fits limit (some value) = (pos 1 ≤ℤ value) × (value ≤ℤ limit)

-- What a request may be answered: the number asked for, or a refusal with status 400.
unfoldable pub Judged : ℤ → Option ℤ → Option ℤ → Allowed → Type 0
Judged limit a b (tokens n) =
    Fits limit a × Fits limit b × (n ≡ chosen a b limit) × Fits limit (some n)
Judged limit a b (rejected e) =
    ((Fits limit a → ⊥) ⊎ (Fits limit b → ⊥)) × (message : String) × (e ≡ status_error 400 message)

ltb_ℤ-le : (a b : ℤ) → ltb_ℤ a b ≡ false → b ≤ℤ a
ltb_ℤ-le a b h = ground arith

ltb_ℤ-lt : (a b : ℤ) → ltb_ℤ a b ≡ true → b ≤ℤ a → ⊥
ltb_ℤ-lt a b h l = ground arith

one_le : (a : ℤ) → ltb_ℤ (pos 0) a ≡ true → pos 1 ≤ℤ a
one_le a h = ground arith

lt_le : (a b : ℤ) → ltb_ℤ a b ≡ true → a ≤ℤ b
lt_le a b h = ground arith

cap-Fits : Fits max_tokens_cap (some max_tokens_cap)
unfolding Fits
cap-Fits = ground arith

limit_of-Fits : (info : Option ModelInfo) → Fits max_tokens_cap (some (limit_of info))
unfolding limit_of Fits
limit_of-Fits none = cap-Fits
limit_of-Fits (some info) = elim (Bool-cases (ltb_ℤ (pos 0) info.max_completion_tokens)) [
  | inl p ↦ elim (Bool-cases (ltb_ℤ info.max_completion_tokens max_tokens_cap)) [
    | inl q ↦
        rw (p, q, if◌then◌else◌)
          (one_le info.max_completion_tokens p, lt_le info.max_completion_tokens max_tokens_cap q)
    | inr q ↦ rw (p, q, if◌then◌else◌) cap-Fits
  ]
  | inr p ↦ rw (p, if◌then◌else◌) cap-Fits
]

-- A field that is checked: it fits, or it is refused.
Tested : ℤ → Option ℤ → Option StreamError → Type 0
unfolding Fits
Tested limit o none = Fits limit o
Tested limit o (some e) = (Fits limit o → ⊥) × (message : String) × (e ≡ status_error 400 message)

module _ (quote : String → String) where
  refuse-Tested :
      (name model : String) (limit : ℤ) (o : Option ℤ)
      → Tested limit o (refuse quote name model limit o)
  unfolding refuse Fits Tested
  refuse-Tested name model limit none = tt
  refuse-Tested name model limit (some value) = elim (Bool-cases (ltb_ℤ value (pos 1))) [
    | inl p ↦ rw (p, if◌then◌else◌) (λ f. ltb_ℤ-lt value (pos 1) p f.0, _, refl)
    | inr p ↦ elim (Bool-cases (ltb_ℤ limit value)) [
      | inl q ↦ rw (p, q, if◌then◌else◌) (λ f. ltb_ℤ-lt limit value q f.1, _, refl)
      | inr q ↦ rw (p, q, if◌then◌else◌) (ltb_ℤ-le value (pos 1) p, ltb_ℤ-le limit value q)
    ]
  ]

chosen-Fits :
    (limit : ℤ) (a b : Option ℤ)
    → Fits limit a
    → Fits limit b
    → Fits limit (some limit)
    → Fits limit (some (chosen a b limit))
unfolding Fits
chosen-Fits limit (some n) b f g h = f
chosen-Fits limit none (some n) f g h = g
chosen-Fits limit none none f g h = h

unless_refused-Judged :
    (limit : ℤ) (a b : Option ℤ) (r s : Option StreamError)
    → Fits limit (some limit)
    → Tested limit a r
    → Tested limit b s
    → Judged limit a b (unless_refused r s (chosen a b limit))
unfolding Judged Tested
unless_refused-Judged limit a b (some e) s h (n, m, e') g = (inl n, m, e')
unless_refused-Judged limit a b none (some e) h f (n, m, e') = (inr n, m, e')
unless_refused-Judged limit a b none none h f g = (f, g, refl, chosen-Fits limit a b f g h)

Fits-same : (limit n : ℤ) → Fits limit (some n) → Fits n (some n)
unfolding Fits
Fits-same limit n h = (h.0, omega arith)

-- The limit of every model is from 1 to 64000. A request gets the max_tokens that it asks for, or else
-- its max_completion_tokens, or else the limit, which is then from 1 to the limit of its model; it is
-- refused with status 400 exactly when one of the two fields is outside that range.
pub max_tokens_lem :
    (quote : String → String) (a b : Option ℤ) (model : String)
    → Fits max_tokens_cap (some (model_max_tokens model))
      × Judged (model_max_tokens model) a b (max_tokens quote a b model)
unfolding model_max_tokens max_tokens
max_tokens_lem quote a b model =
    let limit = limit_of (lookup_model_info model) in
    let h = limit_of-Fits (lookup_model_info model) in
    (
      h,
      unless_refused-Judged limit a b _ _ (Fits-same max_tokens_cap limit h)
          (refuse-Tested quote "max_tokens" model limit a)
          (refuse-Tested quote "max_completion_tokens" model limit b),
    )

-- An effort that no level matches, or the level that it is.
unfoldable pub Graded : String → List String → String → Type 0
Graded effort levels r =
    ((r ≡ "") × All (λ level. equal_fold effort (trim_space level) ≡ false) levels)
    ⊎ ((is_in r (map trim_space levels) ≡ true) × (equal_fold effort r ≡ true))

is_in-later :
    (name n : String) (names : List String)
    → is_in name names ≡ true
    → is_in name (n ∷ names) ≡ true
unfolding is_in
is_in-later name n names h = elim (Bool-cases (n =ₛ name)) [ inl e ↦ rw e refl | inr e ↦ rw e h ]

Graded-cons :
    (effort level r : String) (levels : List String)
    → equal_fold effort (trim_space level) ≡ false
    → Graded effort levels r
    → Graded effort (level ∷ levels) r
unfolding Graded
Graded-cons effort level r levels n (inl (e, all)) = inl (e, (n, all))
Graded-cons effort level r levels n (inr (i, m)) =
    inr (is_in-later r (trim_space level) (map trim_space levels) i, m)

is_in-here : (name : String) (names : List String) → is_in name (name ∷ names) ≡ true
unfolding is_in
is_in-here name names = rw ((eq_iff name name).1 refl) refl

level_of-match :
    (effort level : String) (levels : List String)
    → equal_fold effort (trim_space level) ≡ true
    → level_of effort (level ∷ levels) ≡ trim_space level
unfolding level_of
level_of-match effort level levels e = rw (e, if◌then◌else◌) refl

level_of-miss :
    (effort level : String) (levels : List String)
    → equal_fold effort (trim_space level) ≡ false
    → level_of effort (level ∷ levels) ≡ level_of effort levels
unfolding level_of
level_of-miss effort level levels e = rw (e, if◌then◌else◌) refl

Graded-here :
    (effort level : String) (levels : List String)
    → equal_fold effort (trim_space level) ≡ true
    → Graded effort (level ∷ levels) (trim_space level)
unfolding Graded
Graded-here effort level levels e = inr (is_in-here (trim_space level) (map trim_space levels), e)

level_of-Graded :
    (effort : String) (levels : List String) → Graded effort levels (level_of effort levels)
unfolding level_of Graded
level_of-Graded effort [] = inl (refl, tt)
level_of-Graded effort (level ∷ levels) = elim (Bool-cases (equal_fold effort (trim_space level))) [
  | inl e ↦
      subst (Graded effort (level ∷ levels)) (sym (level_of-match effort level levels e))
        (Graded-here effort level levels e)
  | inr e ↦
      subst (Graded effort (level ∷ levels)) (sym (level_of-miss effort level levels e))
        (Graded-cons effort level _ levels e (level_of-Graded effort levels))
]

-- For an effort that is not blank, the effort that is sent is the level of the model, trimmed, that
-- it matches without regard to case; it is left out exactly when no level of the model matches.
pub reasoning_effort-Graded :
    (effort model : String)
    → (trim_space effort =ₛ "") ≡ false
    → Graded
        (trim_space effort)
        (levels_of (lookup_model_info model))
        (reasoning_effort effort model)
unfolding reasoning_effort
reasoning_effort-Graded effort model e =
    rw (e, if◌then◌else◌)
      (level_of-Graded (trim_space effort) (levels_of (lookup_model_info model)))
