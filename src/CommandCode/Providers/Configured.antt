-- ===== src/CommandCode/Providers/Configured.antt =====
-- commandcode/plugin.go: what the host excludes is not offered.
use mathlib.Core.Bool.{true≢false}
use cpa_plugins.Base.{
  ◌≡◌, refl, sym, String, ◌=ₛ◌, Bool, true, false, not, ◌&&◌, List, [], ◌∷◌, ◌++◌, if◌then◌else◌,
  Bool-cases, inl, inr, All, All-append,
}
use cpa_plugins.CommandCode.Catalog.{ModelInfo}
use cpa_plugins.CommandCode.Providers.{ModelAlias, excluded_model, aliased, configured_models}

All-if :
    {A : Type 0} (P : A → Type 0) (b : Bool) (x : A) (xs : List A)
    → (b ≡ true → P x)
    → All P xs
    → All P (if b then x ∷ xs else xs)
All-if P true x xs h k = (h refl, k)
All-if P false x xs h k = k

last_test : (p q x : Bool) → (p && q && not x) ≡ true → x ≡ false
last_test p q false e = refl
last_test true true true e = absurd (true≢false (sym e))
last_test true false true e = absurd (true≢false (sym e))
last_test false q true e = absurd (true≢false (sym e))

module _ (same_fold is_match : String → String → Bool) (excluded : List String) where
  abbrev IsOffered : ModelInfo → Type 0
  IsOffered m = excluded_model same_fold is_match m.id excluded ≡ false

  aliased-IsOffered :
      (model : ModelInfo) (aliases : List ModelAlias)
      → All IsOffered (aliased same_fold is_match model excluded aliases)
  unfolding aliased
  aliased-IsOffered model [] = tt
  aliased-IsOffered model (a ∷ aliases) =
      All-if IsOffered _ _ (aliased same_fold is_match model excluded aliases)
        (last_test (a.name =ₛ model.id) (not (a.alias =ₛ ""))
          (excluded_model same_fold is_match a.alias excluded))
        (aliased-IsOffered model aliases)

  IsOffered-here :
      (model : ModelInfo) (aliases : List ModelAlias) (rest : List ModelInfo)
      → All IsOffered rest
      → All IsOffered (
          if excluded_model same_fold is_match model.id excluded
          then rest
          else (model ∷ aliased same_fold is_match model excluded aliases) ++ rest)
  IsOffered-here model aliases rest h =
      elim (Bool-cases (excluded_model same_fold is_match model.id excluded)) [
        | inl e ↦ rw (e, if◌then◌else◌) h
        | inr e ↦
            rw (e, if◌then◌else◌)
              (All-append IsOffered (model ∷ aliased same_fold is_match model excluded aliases) rest
                (e, aliased-IsOffered model aliases) h)
      ]

  -- No model that is offered, under its own id or an alias, is one that the host excludes.
  pub configured_models-IsOffered :
      (models : List ModelInfo) (aliases : List ModelAlias)
      → All
          (λ m. excluded_model same_fold is_match m.id excluded ≡ false)
          (configured_models same_fold is_match models aliases excluded)
  unfolding configured_models
  configured_models-IsOffered [] aliases = tt
  configured_models-IsOffered (model ∷ models) aliases =
      IsOffered-here model aliases _ (configured_models-IsOffered models aliases)
