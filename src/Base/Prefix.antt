-- ===== src/Base/Prefix.antt =====
-- Prefixes of texts that are put together, and their trailing slashes.
use Prim.Native.Char.{Char, code}
use Prim.Native.String.{String}
use mathlib.Core.Path.{◌≡◌, refl, sym, ap, ◌∙◌}
use mathlib.Core.Logic.{inl, inr}
use mathlib.Core.Bool.{Bool, true, false, ◌&&◌, true≢false}
use text.Mathlib.Text.{◌==◌ as ◌=ₛ◌}
use text.Mathlib.TextEquality.{eq_iff}
use text.Mathlib.TextLemmas.{cons-append, nil-append, cons-ne-nil, tail-eq_of_cons-eq}
use cpa_plugins.Base.Tests.{◌==◌, ==_iff, if◌then◌else◌, Bool-cases}
use cpa_plugins.Base.Text.{◌++ₛ◌, has_prefix, trim_slashes}

-- Whether a text has no fewer characters than another.
unfoldable pub covers : String → String → Bool
covers s String.[] = true
covers String.[] (String.◌∷◌ d t) = false
covers (String.◌∷◌ c s) (String.◌∷◌ d t) = covers s t

pub has_prefix-covered :
    (s t p : String) → covers s p ≡ true → has_prefix (s ++ₛ t) p ≡ has_prefix s p
unfolding has_prefix covers
has_prefix-covered s t String.[] = λ h. refl
has_prefix-covered String.[] t (String.◌∷◌ d p) = λ h. absurd (true≢false (sym h))
has_prefix-covered (String.◌∷◌ c s) t (String.◌∷◌ d p) = λ h.
    ap (λ x. has_prefix x (String.◌∷◌ d p)) (cons-append c s t)
    ∙ ap (λ b. code c == code d && b) (has_prefix-covered s t p h)

pub has_prefix-append : (s t : String) → has_prefix (s ++ₛ t) s ≡ true
unfolding has_prefix
has_prefix-append String.[] t = refl
has_prefix-append (String.◌∷◌ c s) t =
    ap (λ x. has_prefix x (String.◌∷◌ c s)) (cons-append c s t)
    ∙ ap (λ b. b && has_prefix (s ++ₛ t) s) ((==_iff (code c) (code c)).1 refl)
    ∙ has_prefix-append s t

cons-not_empty : (c : Char) (s : String) → (String.◌∷◌ c s =ₛ "") ≡ false
cons-not_empty c s = elim (Bool-cases (String.◌∷◌ c s =ₛ "")) [
  | inl e ↦ absurd (cons-ne-nil c s ((eq_iff (String.◌∷◌ c s) "").0 e))
  | inr e ↦ e
]

append-not_empty : (s t : String) → (s =ₛ "") ≡ false → ((s ++ₛ t) =ₛ "") ≡ false
append-not_empty String.[] t = λ h. absurd (true≢false (sym ((eq_iff "" "").1 refl) ∙ h))
append-not_empty (String.◌∷◌ c s) t =
    λ h. ap (λ x. x =ₛ "") (cons-append c s t) ∙ cons-not_empty c (s ++ₛ t)

slashes-kept :
    (c : Char) (s : String)
    → trim_slashes (String.◌∷◌ c s) ≡ String.◌∷◌ c s
    → (trim_slashes s ≡ s) × ((code c == 47 && s =ₛ "") ≡ false)
unfolding trim_slashes
slashes-kept c s = elim (Bool-cases (code c == 47 && trim_slashes s =ₛ "")) [
  | inl e ↦ rw (e, if◌then◌else◌) λ h. absurd (cons-ne-nil c s (sym h))
  | inr e ↦
      rw (e, if◌then◌else◌)
        λ h. let k = tail-eq_of_cons-eq h in (k, ap (λ x. code c == 47 && x =ₛ "") (sym k) ∙ e)
]

slash-append :
    (c : Char) (s t : String)
    → (code c == 47 && s =ₛ "") ≡ false
    → (code c == 47 && (s ++ₛ t) =ₛ "") ≡ false
slash-append c s t = elim (Bool-cases (code c == 47)) [
  | inl e ↦ rw e λ h. append-not_empty s t h
  | inr e ↦ rw e λ h. refl
]

trim_slashes-cons :
    (c : Char) (s : String)
    → (code c == 47 && trim_slashes s =ₛ "") ≡ false
    → trim_slashes (String.◌∷◌ c s) ≡ String.◌∷◌ c (trim_slashes s)
unfolding trim_slashes
trim_slashes-cons c s e = rw (e, if◌then◌else◌) refl

pub trim_slashes-append :
    (s t : String) → trim_slashes s ≡ s → trim_slashes (s ++ₛ t) ≡ s ++ₛ trim_slashes t
trim_slashes-append String.[] t = λ h. ap trim_slashes (nil-append t) ∙ sym (nil-append _)
trim_slashes-append (String.◌∷◌ c s) t = λ h.
    let (k, n) = slashes-kept c s h in
    let ih = trim_slashes-append s t k in
    ap trim_slashes (cons-append c s t)
    ∙ trim_slashes-cons c (s ++ₛ t)
        (ap (λ x. code c == 47 && x =ₛ "") ih ∙ slash-append c s (trim_slashes t) n)
    ∙ ap (String.◌∷◌ c) ih
    ∙ sym (cons-append c s (trim_slashes t))

and-false : (a : Bool) {b : Bool} → b ≡ false → (a && b) ≡ false
and-false true h = h
and-false false h = refl

right-not_empty : (s t : String) → (t =ₛ "") ≡ false → ((s ++ₛ t) =ₛ "") ≡ false
right-not_empty String.[] t h = ap (λ x. x =ₛ "") (nil-append t) ∙ h
right-not_empty (String.◌∷◌ c s) t h =
    ap (λ x. x =ₛ "") (cons-append c s t) ∙ cons-not_empty c (s ++ₛ t)

-- A text that ends with a text without trailing slashes has none.
pub trim_slashes-end :
    (s t : String) → trim_slashes t ≡ t → (t =ₛ "") ≡ false → trim_slashes (s ++ₛ t) ≡ s ++ₛ t
trim_slashes-end String.[] t h n = ap trim_slashes (nil-append t) ∙ h ∙ sym (nil-append t)
trim_slashes-end (String.◌∷◌ c s) t h n =
    let ih = trim_slashes-end s t h n in
    ap trim_slashes (cons-append c s t)
    ∙ trim_slashes-cons c (s ++ₛ t)
        (ap (λ x. code c == 47 && x =ₛ "") ih ∙ and-false (code c == 47) (right-not_empty s t n))
    ∙ ap (String.◌∷◌ c) ih
    ∙ sym (cons-append c s t)
