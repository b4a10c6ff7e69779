-- ===== src/Forward/Merged/Fields.antt =====
-- embeddings-forward/decisions.go: one field of a usage, added to the totals.
use mathlib.Core.Bool.{true≢false}
use cpa_plugins.Base.{
  ℕ, ◌+◌, ◌%◌, ◌≡◌, refl, sym, ap, ◌∙◌, String, ◌=ₛ◌, eq_iff, Bool, true, false, not, ◌&&◌, ◌||◌,
  List, [], ◌∷◌, ◌++◌, Option, none, some, ℤ, if◌then◌else◌, Bool-cases, inl, inr, trim_space,
  is_in, update, atoi, arith,
}
use cpa_plugins.Forward.Decisions.{Field}
use cpa_plugins.Forward.Merged.{
  bits_of, Floats, Total, Usage, has_value, total_or_zero, add_number, add_value, add_field,
}

module _ (floats : Floats) where
  -- Whether a field has another key, or a whole number in the range of an int64 as its value.
  unfoldable pub is_whole : String → Field → Bool
  is_whole k f =
      not (f.key =ₛ k)
      || has_value floats (floats.parse (trim_space f.value))
        && has_value floats (atoi (trim_space f.value))

  abbrev pub whole : ℕ → Total floats
  whole n = record {
    integer = n % 18446744073709551616;
    float = floats.zero_float;
    is_float = false;
  }

  -- What the maps and the order hold of a key: nothing, or a total of whole numbers.
  unfoldable pub Holds : String → Usage floats → Bool → ℕ → Type 0
  Holds k u false n = (n ≡ 0) × (u.totals k ≡ none) × (u.other k ≡ none) × (is_in k u.order ≡ false)
  Holds k u true n = (u.totals k ≡ some (whole n)) × (is_in k u.order ≡ true)

  update-same :
      {V : Type 0} (m : String → Option V) (k : String) (v : Option V) → update m k v k ≡ v
  update-same m k v = rw ((eq_iff k k).1 refl, if◌then◌else◌) refl

  update-other :
      {V : Type 0} (m : String → Option V) (j k : String) (v : Option V)
      → (j =ₛ k) ≡ false
      → update m j v k ≡ m k
  update-other m j k v e = rw (e, if◌then◌else◌) refl

  is_in-other :
      (j k : String) (ids : List String) → (j =ₛ k) ≡ false → is_in k (ids ++ j ∷ []) ≡ is_in k ids
  unfolding is_in
  is_in-other j k [] e = rw e refl
  is_in-other j k (x ∷ xs) e = ap (λ b. x =ₛ k || b) (is_in-other j k xs e)

  is_in-added : (k : String) (ids : List String) → is_in k (ids ++ k ∷ []) ≡ true
  unfolding is_in
  is_in-added k [] = rw ((eq_iff k k).1 refl) refl
  is_in-added k (x ∷ xs) = elim (Bool-cases (x =ₛ k)) [
    | inl e ↦ rw e refl
    | inr e ↦ rw e (is_in-added k xs)
  ]

  -- A field with another key.
  is_in-if :
      (b : Bool) (j k : String) (ids : List String)
      → (j =ₛ k) ≡ false
      → is_in k (if b then ids else ids ++ j ∷ []) ≡ is_in k ids
  is_in-if true j k ids e = refl
  is_in-if false j k ids e = is_in-other j k ids e

  unfoldable pub Kept : String → Usage floats → Usage floats → Type 0
  Kept k u v =
      (v.totals k ≡ u.totals k) × (v.other k ≡ u.other k) × (is_in k v.order ≡ is_in k u.order)

  pub add_field-Kept :
      (f : Field) (u : Usage floats) (k : String)
      → (f.key =ₛ k) ≡ false
      → Kept k u (add_field floats f u)
  unfolding add_field Kept add_value
  add_field-Kept f u k e = go (floats.parse (trim_space f.value))
    where
      order : List String
      order =
          if has_value floats (u.totals f.key) || has_value floats (u.other f.key)
          then u.order
          else u.order ++ f.key ∷ []

      go :
          (o : Option floats.Float)
          → Kept k u (add_value floats f.key f.value o (record u { order = order }))
      go (some x) = (
        update-other u.totals f.key k _ e,
        refl,
        is_in-if (has_value floats (u.totals f.key) || has_value floats (u.other f.key)) f.key k
            u.order e,
      )
      go none = kept_other (has_value floats (u.other f.key))
        where
          kept_other :
              (b : Bool)
              → Kept k u (
                  if b
                  then record u { order = order }
                  else record u { order = order; other = update u.other f.key (some f.value) })
          kept_other true = (refl, refl, is_in-if _ f.key k u.order e)
          kept_other false = (refl, update-other u.other f.key k _ e, is_in-if _ f.key k u.order e)

  mod_add :
      (a b : ℕ)
      → (a % 18446744073709551616 + b) % 18446744073709551616 ≡ (a + b) % 18446744073709551616
  mod_add a b = omega arith

  add_number-whole :
      (x : floats.Float) (i : ℤ) (n : ℕ)
      → add_number floats x (some i) (whole n) ≡ whole (n + bits_of i)
  unfolding add_number
  add_number-whole x i n = ap (λ j. record (whole n) { integer = j }) (mod_add n (bits_of i))

  is_in-own :
      (b : Bool) (k : String) (ids : List String)
      → (b ≡ true → is_in k ids ≡ true)
      → is_in k (if b then ids else ids ++ k ∷ []) ≡ true
  is_in-own true k ids h = h refl
  is_in-own false k ids h = is_in-added k ids

  none-false :
      (t : Option (Total floats)) (o : Option String)
      → t ≡ none
      → o ≡ none
      → (has_value floats t || has_value floats o) ≡ true
      → ⊥
  none-false t o e e' h = true≢false (
      sym h
      ∙ ap (λ x. has_value floats x || has_value floats o) e
      ∙ ap (λ x. has_value floats x) e')

  pub add_field-own :
      (f : Field) (u : Usage floats) (seen : Bool) (n : ℕ) (x : floats.Float) (i : ℤ)
      → floats.parse (trim_space f.value) ≡ some x
      → atoi (trim_space f.value) ≡ some i
      → Holds f.key u seen n
      → Holds f.key (add_field floats f u) true (n + bits_of i)
  unfolding Holds add_field add_value
  add_field-own f u seen n x i p a h = rw (p, a) (go seen h)
    where
      goal : Type 0
      goal =
          (update u.totals f.key
              (some (add_number floats x (some i) (total_or_zero floats (u.totals f.key)))) f.key
            ≡ some (whole (n + bits_of i)))
          × (is_in f.key (
                if has_value floats (u.totals f.key) || has_value floats (u.other f.key)
                then u.order
                else u.order ++ f.key ∷ [])
              ≡ true)

      go : (b : Bool) → Holds f.key u b n → goal
      go true (t, o) = (
        update-same u.totals f.key _
            ∙ ap (λ y. some (add_number floats x (some i) (total_or_zero floats y))) t
            ∙ ap some (add_number-whole x i n),
        is_in-own _ f.key u.order (λ b. o),
      )
      go false (z, t, o, m) = (
        update-same u.totals f.key _
            ∙ ap (λ y. some (add_number floats x (some i) (total_or_zero floats y))) t
            ∙ ap some (add_number-whole x i 0)
            ∙ ap (λ j. some (whole (j + bits_of i))) (sym z),
        is_in-own _ f.key u.order (λ b. absurd (none-false (u.totals f.key) (u.other f.key) t o b)),
      )
