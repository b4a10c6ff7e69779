-- ===== src/Forward/Objects/Values.antt =====
-- embeddings-forward/decisions.go: the loop with its index is the insertion by key.
use mathlib.Core.Bool.{true≢false}
use mathlib.Core.Option.{some-injective, none-ne-some, some-ne-none}
use cpa_plugins.Base.{
  ℕ, suc, ◌≡◌, ◌⊎◌, inl, inr, refl, sym, ap, ◌∙◌, String, ◌=ₛ◌, eq_iff, true, false, List, [], ◌∷◌,
  ◌++◌, Option, none, some, length, get_or, set, update, if◌then◌else◌, Bool-cases,
}
use cpa_plugins.Forward.Decisions.{Field}
use cpa_plugins.Forward.Objects.{Member, no_field, Ordered, nothing, insert_at, insert_all}

-- A map as the list of its fields: a key that is there gets the new value, another comes last.
unfoldable pub put_field : Member → List Field → List Field
put_field (key, value) [] = record { key = key; value = value } ∷ []
put_field (key, value) (f ∷ fs) =
    if f.key =ₛ key then record f { value = value } ∷ fs else f ∷ put_field (key, value) fs

unfoldable pub put_all : List Member → List Field → List Field
put_all [] fs = fs
put_all (m ∷ ms) fs = put_all ms (put_field m fs)

abbrev next : Option ℕ → Option ℕ
next none = none
next (some i) = some (suc i)

-- The place of a key.
unfoldable position : String → List Field → Option ℕ
position key [] = none
position key (f ∷ fs) = if f.key =ₛ key then some 0 else next (position key fs)

abbrev Indexes : (String → Option ℕ) → List Field → Type 0
Indexes index fs = (key : String) → index key ≡ position key fs

next-some : (o : Option ℕ) (i : ℕ) → next o ≡ some i → (j : ℕ) × (i ≡ suc j) × (o ≡ some j)
next-some none i e = absurd (none-ne-some _ e)
next-some (some j) i e = (j, sym (some-injective _ _ e), refl)

next-none : (o : Option ℕ) → next o ≡ none → o ≡ none
next-none none e = refl
next-none (some j) e = absurd (some-ne-none _ e)

-- Writing at the key's place is putting it.
set-put :
    (key value : String) (fs : List Field) (i : ℕ)
    → position key fs ≡ some i
    → set fs i (record (get_or fs i no_field) { value = value }) ≡ put_field (key, value) fs
unfolding position put_field
set-put key value [] i = λ e. absurd (none-ne-some _ e)
set-put key value (f ∷ fs) i = elim (Bool-cases (f.key =ₛ key)) [
  | inl k ↦
      rw (k, if◌then◌else◌)
        λ e.
          ap (λ j. set (f ∷ fs) j (record (get_or (f ∷ fs) j no_field) { value = value }))
            (sym (some-injective _ _ e))
  | inr k ↦
      rw (k, if◌then◌else◌)
        λ e.
          let (j, ij, at) = next-some (position key fs) i e in
          rw ij (ap (◌∷◌ f) (set-put key value fs j at))
]

append-put :
    (key value : String) (fs : List Field)
    → position key fs ≡ none
    → fs ++ record { key = key; value = value } ∷ [] ≡ put_field (key, value) fs
unfolding position put_field
append-put key value [] = λ e. refl
append-put key value (f ∷ fs) = elim (Bool-cases (f.key =ₛ key)) [
  | inl k ↦ rw (k, if◌then◌else◌) λ e. absurd (some-ne-none _ e)
  | inr k ↦ rw (k, if◌then◌else◌) λ e. ap (◌∷◌ f) (append-put key value fs (next-none _ e))
]

-- A key that is there keeps all places.
position-put :
    (key value other : String) (fs : List Field) (i : ℕ)
    → position key fs ≡ some i
    → position other (put_field (key, value) fs) ≡ position other fs
unfolding position put_field
position-put key value other [] i = λ e. absurd (none-ne-some _ e)
position-put key value other (f ∷ fs) i = elim (Bool-cases (f.key =ₛ key)) [
  | inl k ↦ rw (k, if◌then◌else◌) λ e. refl
  | inr k ↦
      rw (k, if◌then◌else◌)
        λ e.
          let (j, ij, at) = next-some (position key fs) i e in
          ap (λ o. if f.key =ₛ other then some 0 else next o) (position-put key value other fs j at)
]

update-same :
    (m : String → Option ℕ) (key other : String) (v : Option ℕ)
    → (key =ₛ other) ≡ true
    → update m key v other ≡ v
update-same m key other v e = rw (e, if◌then◌else◌) refl

update-other :
    (m : String → Option ℕ) (key other : String) (v : Option ℕ)
    → (key =ₛ other) ≡ false
    → update m key v other ≡ m other
update-other m key other v e = rw (e, if◌then◌else◌) refl

position-here :
    (f : Field) (fs : List Field) (other : String)
    → (f.key =ₛ other) ≡ true
    → position other (f ∷ fs) ≡ some 0
unfolding position
position-here f fs other e = rw (e, if◌then◌else◌) refl

position-later :
    (f : Field) (fs : List Field) (other : String)
    → (f.key =ₛ other) ≡ false
    → position other (f ∷ fs) ≡ next (position other fs)
unfolding position
position-later f fs other e = rw (e, if◌then◌else◌) refl

position-append-cons :
    (key value other : String) (f : Field) (fs : List Field)
    → position other (fs ++ record { key = key; value = value } ∷ [])
      ≡ update (λ k. position k fs) key (some (length fs)) other
    → (f.key =ₛ key) ≡ false
    → ((key =ₛ other) ≡ true) ⊎ ((key =ₛ other) ≡ false)
    → ((f.key =ₛ other) ≡ true) ⊎ ((f.key =ₛ other) ≡ false)
    → position other (f ∷ (fs ++ record { key = key; value = value } ∷ []))
      ≡ update (λ k. position k (f ∷ fs)) key (some (suc (length fs))) other
position-append-cons key value other f fs ih k (inl e) (inl e') = absurd (
    true≢false
      (sym ((eq_iff f.key key).1 ((eq_iff f.key other).0 e' ∙ sym ((eq_iff key other).0 e))) ∙ k))
position-append-cons key value other f fs ih k (inl e) (inr e') =
    position-later f _ other e'
    ∙ ap next (ih ∙ update-same (λ k. position k fs) key other _ e)
    ∙ sym (update-same (λ k. position k (f ∷ fs)) key other _ e)
position-append-cons key value other f fs ih k (inr e) (inl e') =
    position-here f _ other e'
    ∙ sym (update-other (λ k. position k (f ∷ fs)) key other _ e ∙ position-here f fs other e')
position-append-cons key value other f fs ih k (inr e) (inr e') =
    position-later f _ other e'
    ∙ ap next (ih ∙ update-other (λ k. position k fs) key other _ e)
    ∙ sym (update-other (λ k. position k (f ∷ fs)) key other _ e ∙ position-later f fs other e')

-- A new key comes last.
position-append :
    (key value other : String) (fs : List Field)
    → position key fs ≡ none
    → position other (fs ++ record { key = key; value = value } ∷ [])
      ≡ update (λ k. position k fs) key (some (length fs)) other
unfolding position
position-append key value other [] = λ e. refl
position-append key value other (f ∷ fs) = elim (Bool-cases (f.key =ₛ key)) [
  | inl k ↦ λ e. absurd (some-ne-none _ (sym (position-here f fs key k) ∙ e))
  | inr k ↦ λ e.
      position-append-cons key value other f fs
        (position-append key value other fs (next-none _ (sym (position-later f fs key k) ∙ e))) k
        (Bool-cases (key =ₛ other)) (Bool-cases (f.key =ₛ other))
]

insert_at-put :
    (o : Option ℕ) (m : Member) (s : Ordered)
    → position m.0 s.fields ≡ o
    → Indexes s.index s.fields
    → ((insert_at o m s).fields ≡ put_field m s.fields)
      × Indexes (insert_at o m s).index (insert_at o m s).fields
unfolding insert_at
insert_at-put (some i) (key, value) s e h = (
  set-put key value s.fields i e,
  λ other.
      h other
      ∙ sym (
          ap (position other) (set-put key value s.fields i e)
          ∙ position-put key value other s.fields i e),
)
insert_at-put none (key, value) s e h = (
  append-put key value s.fields e,
  λ other.
      ap (λ o. if key =ₛ other then some (length s.fields) else o) (h other)
      ∙ sym (position-append key value other s.fields e),
)

insert_all-put :
    (ms : List Member) (s : Ordered)
    → Indexes s.index s.fields
    → (insert_all ms s).fields ≡ put_all ms s.fields
unfolding insert_all put_all
insert_all-put [] s h = refl
insert_all-put (m ∷ ms) s h =
    let (e, h') = insert_at-put (s.index m.0) m s (sym (h m.0)) h in
    insert_all-put ms (insert_at (s.index m.0) m s) h' ∙ ap (put_all ms) e

-- The loop's index does what a search by key would do.
pub insert_all_lem : (ms : List Member) → (insert_all ms nothing).fields ≡ put_all ms []
unfolding position
insert_all_lem ms = insert_all-put ms nothing λ key. refl
