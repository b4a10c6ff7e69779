-- ===== src/Forward/Merged/Sums.antt =====
-- embeddings-forward/decisions.go: the usage of several batches is the sum of theirs.
use mathlib.Core.Bool.{true≢false}
use cpa_plugins.Base.{
  ℕ, ◌+◌, ◌%◌, ◌≡◌, refl, sym, ap, ◌∙◌, subst, String, ◌=ₛ◌, eq_iff, Bool, true, false, ◌&&◌, ◌||◌,
  List, [], ◌∷◌, ◌++◌, Option, none, some, ℤ, if◌then◌else◌, Bool-cases, inl, inr, All, trim_space,
  is_in, atoi, of_bits, decimal_ℤ, arith,
}
use cpa_plugins.Forward.Bodies.{raw_of}
use cpa_plugins.Forward.Calls.{UpstreamResult}
use cpa_plugins.Forward.Decisions.{Field}
use cpa_plugins.Forward.Merged.{
  bits_of, Floats, Usage, no_usage, has_value, add_field, add_fields, format_total, field_value,
  usage_fields, add_results, summed,
}
use cpa_plugins.Forward.Merged.Fields.{is_whole, Holds, Kept, add_field-Kept, add_field-own}

abbrev bits_or_zero : Option ℤ → ℕ
bits_or_zero none = 0
bits_or_zero (some i) = bits_of i

-- The sum of the bit patterns of a key's values.
unfoldable pub sum_bits : String → List Field → ℕ
sum_bits k [] = 0
sum_bits k (f ∷ fs) =
    let rest = sum_bits k fs in
    if f.key =ₛ k then bits_or_zero (atoi (trim_space f.value)) + rest else rest

unfoldable pub has_key : String → List Field → Bool
has_key k [] = false
has_key k (f ∷ fs) = f.key =ₛ k || has_key k fs

module _ (floats : Floats) where
  Holds-Kept :
      (k : String) (u v : Usage floats) (seen : Bool) (n : ℕ)
      → Kept floats k u v
      → Holds floats k u seen n
      → Holds floats k v seen n
  unfolding Holds Kept
  Holds-Kept k u v true n (t', o', i') (t, i) = (t' ∙ t, i' ∙ i)
  Holds-Kept k u v false n (t', o', i') (z, t, o, i) = (z, t' ∙ t, o' ∙ o, i' ∙ i)

  some_of : {A : Type 0} (o : Option A) → has_value floats o ≡ true → (a : A) × (o ≡ some a)
  some_of none e = absurd (true≢false (sym e))
  some_of (some a) e = (a, refl)

  both : (a b : Bool) → (a && b) ≡ true → (a ≡ true) × (b ≡ true)
  both true true e = (refl, refl)
  both true false e = absurd (true≢false (sym e))
  both false b e = absurd (true≢false (sym e))

  add_field-same :
      (f : Field) (u : Usage floats) (k : String) (seen : Bool) (n : ℕ)
      → (f.key =ₛ k) ≡ true
      → is_whole floats k f ≡ true
      → Holds floats k u seen n
      → Holds floats k (add_field floats f u) true (n + bits_or_zero (atoi (trim_space f.value)))
  unfolding is_whole
  add_field-same f u k seen n e = rw e λ w h.
      let (p, a) =
        both (has_value floats (floats.parse (trim_space f.value)))
          (has_value floats (atoi (trim_space f.value))) w in
      let (x, px) = some_of (floats.parse (trim_space f.value)) p in
      let (i, ai) = some_of (atoi (trim_space f.value)) a in
      let j = (eq_iff f.key k).0 e in
      subst
        (λ y.
          Holds floats y (add_field floats f u) true (n + bits_or_zero (atoi (trim_space f.value))))
        j
        (subst (λ b. Holds floats f.key (add_field floats f u) true (n + b))
          (ap bits_or_zero (sym ai))
          (add_field-own floats f u seen n x i px ai
            (subst (λ y. Holds floats y u seen n) (sym j) h)))

  or_true : (b : Bool) → (b || true) ≡ true
  or_true true = refl
  or_true false = refl

  or_false : (b : Bool) → (b || false) ≡ b
  or_false true = refl
  or_false false = refl

  Holds-at :
      (k : String) (u : Usage floats) (b c : Bool) (m n : ℕ)
      → b ≡ c
      → m ≡ n
      → Holds floats k u b m
      → Holds floats k u c n
  Holds-at k u b c m n e e' h =
      subst (λ x. Holds floats k u x n) e (subst (Holds floats k u b) e' h)

  add_fields-Holds :
      (k : String) (fs : List Field) (u : Usage floats) (seen : Bool) (n : ℕ)
      → All (λ f. is_whole floats k f ≡ true) fs
      → Holds floats k u seen n
      → Holds floats k (add_fields floats fs u) (seen || has_key k fs) (n + sum_bits k fs)
  unfolding add_fields has_key sum_bits
  add_fields-Holds k [] u seen n w h =
      Holds-at k u (seen) (seen || false) n (n + 0) (sym (or_false seen)) (omega arith) h
  add_fields-Holds k (f ∷ fs) u seen n (w, ws) h = elim (Bool-cases (f.key =ₛ k)) [
    | inl e ↦
        rw (e, if◌then◌else◌)
          (Holds-at k _ true (seen || true) _ _ (sym (or_true seen)) (omega arith) (
            add_fields-Holds k fs (add_field floats f u) true
              (n + bits_or_zero (atoi (trim_space f.value))) ws
              (add_field-same f u k seen n e w h)))
    | inr e ↦
        rw (e, if◌then◌else◌)
          (add_fields-Holds k fs (add_field floats f u) seen n ws
            (Holds-Kept k u _ seen n (add_field-Kept floats f u k e) h))
  ]

  no_usage-Holds : (k : String) → Holds floats k (no_usage floats) false 0
  unfolding Holds is_in
  no_usage-Holds k = (refl, refl, refl, refl)

  raw_of-usage :
      (keys : List String) (u : Usage floats) (k : String)
      → raw_of k (usage_fields floats keys u)
        ≡ (if is_in k keys then some (field_value floats (u.totals k) (u.other k)) else none)
  unfolding raw_of usage_fields is_in
  raw_of-usage [] u k = refl
  raw_of-usage (key ∷ keys) u k = elim (Bool-cases (key =ₛ k)) [
    | inl e ↦
        rw (e, if◌then◌else◌)
          (ap (λ j. some (field_value floats (u.totals j) (u.other j))) ((eq_iff key k).0 e))
    | inr e ↦ rw (e, if◌then◌else◌) (raw_of-usage keys u k)
  ]

  add_fields-append :
      (fs gs : List Field) (u : Usage floats)
      → add_fields floats (fs ++ gs) u ≡ add_fields floats gs (add_fields floats fs u)
  unfolding add_fields
  add_fields-append [] gs u = refl
  add_fields-append (f ∷ fs) gs u = add_fields-append fs gs (add_field floats f u)

  abbrev pub expected : Bool → ℕ → Option String
  expected true n = some (decimal_ℤ (of_bits (n % 18446744073709551616)))
  expected false n = none

  Holds-expected :
      (k : String) (u : Usage floats) (b : Bool) (n : ℕ)
      → Holds floats k u b n
      → raw_of k (usage_fields floats u.order u) ≡ expected b n
  unfolding Holds field_value format_total
  Holds-expected k u true n (t, i) =
      raw_of-usage u.order u k
      ∙ ap (λ x. if x then some (field_value floats (u.totals k) (u.other k)) else none) i
      ∙ ap (λ x. some (field_value floats x (u.other k))) t
  Holds-expected k u false n (z, t, o, i) =
      raw_of-usage u.order u k
      ∙ ap (λ x. if x then some (field_value floats (u.totals k) (u.other k)) else none) i

  -- The usage fields of all results, one after another.
  module _ (usage_of : String → List Field) where
    unfoldable pub all_fields : List UpstreamResult → List Field
    all_fields [] = []
    all_fields (r ∷ rs) = usage_of r.body ++ all_fields rs

    add_results-fields :
        (rs : List UpstreamResult) (u : Usage floats)
        → add_results floats usage_of rs u ≡ add_fields floats (all_fields rs) u
    unfolding add_results all_fields add_fields
    add_results-fields [] u = refl
    add_results-fields (r ∷ rs) u =
        add_results-fields rs (add_fields floats (usage_of r.body) u)
        ∙ sym (add_fields-append (usage_of r.body) (all_fields rs) u)

    -- Where all values of a usage key are whole numbers in the range of an int64: the merged usage has the
    -- key exactly when one of the results has it, and its value is the decimal form of the int64 that the
    -- sum of all the values wraps to.
    pub summed-whole :
        (k : String) (results : List UpstreamResult)
        → All (λ f. is_whole floats k f ≡ true) (all_fields results)
        → raw_of k (summed floats usage_of results)
          ≡ expected (has_key k (all_fields results)) (sum_bits k (all_fields results))
    unfolding summed
    summed-whole k results w =
        Holds-expected k (add_results floats usage_of results (no_usage floats)) _ _ (
          subst
            (λ u.
              Holds floats k u (has_key k (all_fields results)) (sum_bits k (all_fields results)))
            (sym (add_results-fields results (no_usage floats)))
            (Holds-at k _ _ _ (0 + sum_bits k (all_fields results))
              (sum_bits k (all_fields results)) refl (omega arith)
              (add_fields-Holds k (all_fields results) (no_usage floats) false 0 w
                (no_usage-Holds k))))
