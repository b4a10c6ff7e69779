-- ===== src/Forward/Objects/Order.antt =====
-- embeddings-forward/decisions.go: which members an object keeps, and where.
use mathlib.Core.Bool.{true≢false}
use mathlib.Core.List.{append-nil, append_assoc}
use cpa_plugins.Base.{
  ◌≡◌, refl, sym, ap, ◌∙◌, String, ◌=ₛ◌, eq_iff, true, false, List, [], ◌∷◌, ◌++◌, Option, none,
  some, if◌then◌else◌, Bool-cases, inl, inr, is_in,
}
use cpa_plugins.Forward.Decisions.{Field}
use cpa_plugins.Forward.Objects.{Member, nothing, insert_all, ordered_object}
use cpa_plugins.Forward.Objects.Values.{put_field, put_all, insert_all_lem}

-- The keys of the members that are not among those seen, each where it comes first.
unfoldable pub first_keys : List String → List Member → List String
first_keys seen [] = []
first_keys seen ((key, value) ∷ ms) =
    let rest = first_keys seen ms in
    let rest' = first_keys (seen ++ key ∷ []) ms in if is_in key seen then rest else key ∷ rest'

-- The value of the last member with a key.
unfoldable pub or_earlier : Option String → Option String → Option String
or_earlier none o = o
or_earlier (some v) o = some v

unfoldable pub last_value : String → List Member → Option String
unfolding or_earlier
last_value k [] = none
last_value k ((key, value) ∷ ms) =
    or_earlier (last_value k ms) (if key =ₛ k then some value else none)

-- The value of the first field with a key.
unfoldable pub value_of : String → List Field → Option String
value_of k [] = none
value_of k (f ∷ fs) = if f.key =ₛ k then some f.value else value_of k fs

unfoldable pub keys_of : List Field → List String
keys_of [] = []
keys_of (f ∷ fs) = f.key ∷ keys_of fs

-- A key that is there: the fields keep their order.
put_field-old :
    (key value : String) (fs : List Field)
    → is_in key (keys_of fs) ≡ true
    → keys_of (put_field (key, value) fs) ≡ keys_of fs
unfolding put_field is_in keys_of
put_field-old key value [] = λ e. absurd (true≢false (sym e))
put_field-old key value (f ∷ fs) = elim (Bool-cases (f.key =ₛ key)) [
  | inl k ↦ rw (k, if◌then◌else◌) λ e. refl
  | inr k ↦ rw (k, if◌then◌else◌) λ e. ap (◌∷◌ f.key) (put_field-old key value fs e)
]

put_field-new :
    (key value : String) (fs : List Field)
    → is_in key (keys_of fs) ≡ false
    → keys_of (put_field (key, value) fs) ≡ keys_of fs ++ key ∷ []
unfolding put_field is_in keys_of
put_field-new key value [] = λ e. refl
put_field-new key value (f ∷ fs) = elim (Bool-cases (f.key =ₛ key)) [
  | inl k ↦ rw (k, if◌then◌else◌) λ e. absurd (true≢false e)
  | inr k ↦ rw (k, if◌then◌else◌) λ e. ap (◌∷◌ f.key) (put_field-new key value fs e)
]

keys_of-put_all :
    (ms : List Member) (fs : List Field)
    → keys_of (put_all ms fs) ≡ keys_of fs ++ first_keys (keys_of fs) ms
unfolding put_all first_keys
keys_of-put_all [] fs = sym (append-nil (keys_of fs))
keys_of-put_all ((key, value) ∷ ms) fs =
    keys_of-put_all ms (put_field (key, value) fs) ∙ (elim (Bool-cases (is_in key (keys_of fs))) [
      | inl k ↦
          rw (k, if◌then◌else◌) (ap (λ ks. ks ++ first_keys ks ms) (put_field-old key value fs k))
      | inr k ↦
          rw (k, if◌then◌else◌)
            (ap (λ ks. ks ++ first_keys ks ms) (put_field-new key value fs k)
              ∙ append_assoc (keys_of fs) _ _)
    ])

or_earlier-none : (a : Option String) → or_earlier a none ≡ a
unfolding or_earlier
or_earlier-none none = refl
or_earlier-none (some v) = refl

or_earlier_assoc :
    (a b c : Option String) → or_earlier a (or_earlier b c) ≡ or_earlier (or_earlier a b) c
unfolding or_earlier
or_earlier_assoc none b c = refl
or_earlier_assoc (some v) b c = refl

value_of-replaced :
    (f : Field) (key value k : String) (fs : List Field)
    → f.key ≡ key
    → value_of k (record f { value = value } ∷ fs)
      ≡ or_earlier
          (if key =ₛ k then some value else none)
          (if f.key =ₛ k then some f.value else value_of k fs)
unfolding value_of or_earlier
value_of-replaced f key value k fs e = elim (Bool-cases (f.key =ₛ k)) [
  | inl t ↦ rw (sym e, t, if◌then◌else◌) refl
  | inr t ↦ rw (sym e, t, if◌then◌else◌) refl
]

value_of-kept :
    (f : Field) (key value k : String) (fs gs : List Field)
    → (f.key =ₛ key) ≡ false
    → value_of k gs ≡ or_earlier (if key =ₛ k then some value else none) (value_of k fs)
    → value_of k (f ∷ gs) ≡ or_earlier (if key =ₛ k then some value else none) (value_of k (f ∷ fs))
unfolding value_of or_earlier
value_of-kept f key value k fs gs n ih = elim (Bool-cases (f.key =ₛ k)) [
  | inl t ↦ elim (Bool-cases (key =ₛ k)) [
    | inl u ↦ absurd (
        true≢false
          (sym ((eq_iff f.key key).1 ((eq_iff f.key k).0 t ∙ sym ((eq_iff key k).0 u))) ∙ n))
    | inr u ↦ rw (t, u, if◌then◌else◌) refl
  ]
  | inr t ↦ rw (t, if◌then◌else◌) ih
]

value_of-put :
    (key value k : String) (fs : List Field)
    → value_of k (put_field (key, value) fs)
      ≡ or_earlier (if key =ₛ k then some value else none) (value_of k fs)
unfolding put_field value_of or_earlier
value_of-put key value k [] = elim (Bool-cases (key =ₛ k)) [
  | inl e ↦ rw (e, if◌then◌else◌) refl
  | inr e ↦ rw (e, if◌then◌else◌) refl
]
value_of-put key value k (f ∷ fs) = elim (Bool-cases (f.key =ₛ key)) [
  | inl e ↦ rw (e, if◌then◌else◌) (value_of-replaced f key value k fs ((eq_iff f.key key).0 e))
  | inr e ↦
      rw (e, if◌then◌else◌)
        (value_of-kept f key value k fs (put_field (key, value) fs) e (value_of-put key value k fs))
]

value_of-put_all :
    (k : String) (ms : List Member) (fs : List Field)
    → value_of k (put_all ms fs) ≡ or_earlier (last_value k ms) (value_of k fs)
unfolding put_all last_value or_earlier
value_of-put_all k [] fs = refl
value_of-put_all k ((key, value) ∷ ms) fs =
    value_of-put_all k ms (put_field (key, value) fs)
    ∙ ap (or_earlier (last_value k ms)) (value_of-put key value k fs)
    ∙ or_earlier_assoc (last_value k ms) _ _

module _ (members : String → Option (List Member)) where
  -- An object that decodes gives fields whose keys are the keys of the members, each once and where it
  -- comes first, and each with the value of the last member with that key.
  pub ordered_object_lem :
      (raw k : String) (ms : List Member)
      → members raw ≡ some ms
      → (fs : List Field) × (ordered_object members raw ≡ some fs)
        × (keys_of fs ≡ first_keys [] ms)
        × (value_of k fs ≡ last_value k ms)
  unfolding ordered_object keys_of value_of last_value
  ordered_object_lem raw k ms e = (
    (insert_all ms nothing).fields,
    rw (e, ordered_object) refl,
    ap keys_of (insert_all_lem ms) ∙ keys_of-put_all ms [],
    ap (value_of k) (insert_all_lem ms)
        ∙ value_of-put_all k ms []
        ∙ or_earlier-none (last_value k ms),
  )
