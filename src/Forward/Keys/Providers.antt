-- ===== src/Forward/Keys/Providers.antt =====
-- embeddings-forward/forward.go: what `cool` and `allCooling` mean, and where `order` puts providers.
use mathlib.Core.List.{map-append, perm_append_comm}
use mathlib.Core.Path.{ap₂}
use text.Mathlib.TextLemmas.{append_cancel_left}
use mathlib.Core.List.Perm
use cpa_plugins.Base.{
  ℕ, suc, ◌≡◌, refl, ap, subst, ◌∙◌, sym, ◌↔◌, String, ◌++ₛ◌, Bool, true, false, not, List, [], ◌∷◌,
  ◌++◌, map, Perm, ℤ, ◌+ℤ◌, ltb_ℤ, max_ℤ, keep, inl, inr, Bool-cases, keep-split-perm,
  if◌then◌else◌, ◌=ₛ◌, eq_iff, All,
}
use cpa_plugins.Forward.Config.{Provider, Match}
use cpa_plugins.Forward.Keys.{
  KeyState, is_cooling, cool, all_keys_cooling, all_cooling, flag_cooling, insert_stable,
  sort_stable, order, seconds, cooldown_key, is_zero,
}

abbrev flagged : Match × Bool → Bool
flagged x = x.1

-- Inserting a cooling provider into a sorted list puts it behind those that are not.
insert-cooling :
    (m : Match) (hot cold : List (Match × Bool))
    → All (λ y. y.1 ≡ false) hot
    → All (λ y. y.1 ≡ true) cold
    → insert_stable (m, true) (hot ++ cold) ≡ hot ++ (m, true) ∷ cold
unfolding insert_stable
insert-cooling m [] [] h c = refl
insert-cooling m [] ((n, true) ∷ ys) h c = refl
insert-cooling m [] ((n, false) ∷ ys) h c = cc (c.0)
insert-cooling m ((n, true) ∷ ys) cold h c = cc (h.0)
insert-cooling m ((n, false) ∷ ys) cold h c = ap (◌∷◌ (n, false)) (insert-cooling m ys cold h.1 c)

insert-hot : (m : Match) (ys : List (Match × Bool)) → insert_stable (m, false) ys ≡ (m, false) ∷ ys
unfolding insert_stable
insert-hot m [] = refl
insert-hot m ((n, true) ∷ ys) = refl
insert-hot m ((n, false) ∷ ys) = refl

All-keep : (xs : List (Match × Bool)) → All (λ y. y.1 ≡ true) (keep flagged xs)
All-keep [] = tt
All-keep ((m, true) ∷ xs) = (refl, All-keep xs)
All-keep ((m, false) ∷ xs) = All-keep xs

All-keep-not : (xs : List (Match × Bool)) → All (λ y. y.1 ≡ false) (keep (λ x. not (flagged x)) xs)
All-keep-not [] = tt
All-keep-not ((m, true) ∷ xs) = All-keep-not xs
All-keep-not ((m, false) ∷ xs) = (refl, All-keep-not xs)

-- A stable sort by `less` is a stable partition.
sort_stable-keep :
    (xs : List (Match × Bool)) → sort_stable xs ≡ keep (λ x. not (flagged x)) xs ++ keep flagged xs
unfolding sort_stable
sort_stable-keep [] = refl
sort_stable-keep ((m, true) ∷ xs) =
    rw (sort_stable-keep xs) (insert-cooling m _ _ (All-keep-not xs) (All-keep xs))
sort_stable-keep ((m, false) ∷ xs) = rw (sort_stable-keep xs) (insert-hot m _)

flag_cooling-map :
    (s : KeyState) (clock : ℕ → ℤ) (reads : ℕ) (ms : List Match)
    → map (λ x. x.0) (flag_cooling s clock reads ms) ≡ ms
unfolding flag_cooling
flag_cooling-map s clock reads [] = refl
flag_cooling-map s clock reads (m ∷ ms) = ap (◌∷◌ m) (flag_cooling-map s clock (suc reads) ms)

-- Cooling only moves providers: each match is tried, as often as it was resolved.
pub order-perm :
    (s : KeyState) (clock : ℕ → ℤ) (reads : ℕ) (ms : List Match) → Perm (order s clock reads ms) ms
unfolding order
order-perm s clock reads ms =
    subst (Perm (order s clock reads ms)) (flag_cooling-map s clock reads ms) (
      Perm.map (λ x. x.0)
        (subst (λ ys. Perm ys flags) (sym (sort_stable-keep flags))
          (Perm.trans (perm_append_comm (keep (λ x. not (flagged x)) flags) (keep flagged flags))
            (keep-split-perm flagged flags))))
  where
    flags : List (Match × Bool)
    flags = flag_cooling s clock reads ms

map-keep_flags :
    (f : Bool → Bool) (s : KeyState) (now : ℤ) (reads : ℕ) (ms : List Match)
    → map (λ x. x.0) (keep (λ x. f (flagged x)) (flag_cooling s (λ _. now) reads ms))
      ≡ keep (λ m. f (all_cooling s m.provider now)) ms
unfolding flag_cooling
map-keep_flags f s now reads [] = refl
map-keep_flags f s now reads (m ∷ ms) = elim (Bool-cases (f (all_cooling s m.provider now))) [
  | inl e ↦ rw (e, if◌then◌else◌) (ap (◌∷◌ m) (map-keep_flags f s now (suc reads) ms))
  | inr e ↦ rw (e, if◌then◌else◌) (map-keep_flags f s now (suc reads) ms)
]

-- At one instant: the providers with a key that is not cooling come first, then those whose keys
-- are all cooling, and each of the two groups keeps the order of the configuration.
pub order-keep :
    (s : KeyState) (now : ℤ) (reads : ℕ) (ms : List Match)
    → order s (λ _. now) reads ms
      ≡ keep (λ m. not (all_cooling s m.provider now)) ms
        ++ keep (λ m. all_cooling s m.provider now) ms
unfolding order
order-keep s now reads ms =
    ap (map (λ x. x.0)) (sort_stable-keep flags)
    ∙ map-append (λ x. x.0) (keep (λ x. not (flagged x)) flags) (keep flagged flags)
    ∙ ap₂ ◌++◌ (map-keep_flags not s now reads ms) (map-keep_flags (λ b. b) s now reads ms)
  where
    flags : List (Match × Bool)
    flags = flag_cooling s (λ _. now) reads ms

module _ {ℓ} (P : Match → Type ℓ) where
  All-insert :
      (x : Match × Bool) (ys : List (Match × Bool))
      → P x.0
      → All (λ y. P y.0) ys
      → All (λ y. P y.0) (insert_stable x ys)
  unfolding insert_stable
  All-insert x [] p h = (p, tt)
  All-insert (m, true) ((n, false) ∷ ys) p h = (h.0, All-insert (m, true) ys p h.1)
  All-insert (m, true) ((n, true) ∷ ys) p h = (p, h)
  All-insert (m, false) ((n, true) ∷ ys) p h = (p, h)
  All-insert (m, false) ((n, false) ∷ ys) p h = (p, h)

  insert-All :
      (x : Match × Bool) (ys : List (Match × Bool))
      → All (λ y. P y.0) (insert_stable x ys)
      → P x.0 × All (λ y. P y.0) ys
  unfolding insert_stable
  insert-All x [] h = (h.0, tt)
  insert-All (m, true) ((n, false) ∷ ys) h =
      let (p, k) = insert-All (m, true) ys h.1 in (p, (h.0, k))
  insert-All (m, true) ((n, true) ∷ ys) h = (h.0, h.1)
  insert-All (m, false) ((n, true) ∷ ys) h = (h.0, h.1)
  insert-All (m, false) ((n, false) ∷ ys) h = (h.0, h.1)

  All-map_fst : (xs : List (Match × Bool)) → All (λ y. P y.0) xs → All P (map (λ x. x.0) xs)
  All-map_fst [] h = tt
  All-map_fst (x ∷ xs) h = (h.0, All-map_fst xs h.1)

  map_fst-All : (xs : List (Match × Bool)) → All P (map (λ x. x.0) xs) → All (λ y. P y.0) xs
  map_fst-All [] h = tt
  map_fst-All (x ∷ xs) h = (h.0, map_fst-All xs h.1)

  All-sort :
      (s : KeyState) (clock : ℕ → ℤ) (reads : ℕ) (ms : List Match)
      → All P ms
      → All (λ y. P y.0) (sort_stable (flag_cooling s clock reads ms))
  unfolding sort_stable flag_cooling
  All-sort s clock reads [] h = tt
  All-sort s clock reads (m ∷ ms) h = All-insert _ _ h.0 (All-sort s clock (suc reads) ms h.1)

  sort-All :
      (s : KeyState) (clock : ℕ → ℤ) (reads : ℕ) (ms : List Match)
      → All (λ y. P y.0) (sort_stable (flag_cooling s clock reads ms))
      → All P ms
  unfolding sort_stable flag_cooling
  sort-All s clock reads [] h = tt
  sort-All s clock reads (m ∷ ms) h =
      let (p, k) = insert-All _ _ h in (p, sort-All s clock (suc reads) ms k)

  -- What holds of all matches holds of them in any order, and back.
  pub order-All :
      (s : KeyState) (clock : ℕ → ℤ) (reads : ℕ) (ms : List Match)
      → All P ms ↔ All P (order s clock reads ms)
  unfolding order
  order-All s clock reads ms = (
    λ h. All-map_fst _ (All-sort s clock reads ms h),
    λ h. sort-All s clock reads ms (map_fst-All _ h),
  )

all_keys_cooling_iff :
    (s : KeyState) (p : Provider) (now : ℤ) (keys : List String)
    → (all_keys_cooling s p now keys ≡ true) ↔ All (λ k. is_cooling s p now k ≡ true) keys
unfolding all_keys_cooling
all_keys_cooling_iff s p now [] = (λ _. tt, λ _. refl)
all_keys_cooling_iff s p now (k ∷ ks) = elim (Bool-cases (is_cooling s p now k)) [
  | inl e ↦
      rw (e, if◌then◌else◌, not)
        (
          λ h. (refl, (all_keys_cooling_iff s p now ks).0 h),
          λ h. (all_keys_cooling_iff s p now ks).1 h.1,
        )
  | inr e ↦ rw (e, if◌then◌else◌, not) (λ h. cc, λ h. cc (h.0))
]

-- A provider counts as cooling exactly when each of its keys is.
all_cooling_iff :
    (s : KeyState) (p : Provider) (now : ℤ)
    → (all_cooling s p now ≡ true) ↔ All (λ k. is_cooling s p now k ≡ true) p.api_keys
unfolding all_cooling
all_cooling_iff s p now = all_keys_cooling_iff s p now p.api_keys

cooldown_key_inj : (p : Provider) (j k : String) → cooldown_key p j ≡ cooldown_key p k → j ≡ k
cooldown_key_inj p j k h =
    append_cancel_left "\0" j k (append_cancel_left p.name ("\0" ++ₛ j) ("\0" ++ₛ k) h)

cooldown_key_eq : (p : Provider) (j k : String) → (cooldown_key p j =ₛ cooldown_key p k) ≡ (j =ₛ k)
cooldown_key_eq p j k = elim (Bool-cases (j =ₛ k)) [
  | inl e ↦ (eq_iff _ _).1 (ap (cooldown_key p) ((eq_iff j k).0 e)) ∙ sym e
  | inr e ↦ elim (Bool-cases (cooldown_key p j =ₛ cooldown_key p k)) [
    | inl f ↦ f ∙ sym ((eq_iff j k).1 (cooldown_key_inj p j k ((eq_iff _ _).0 f)))
    | inr f ↦ f ∙ sym e
  ]
]

-- `cool` puts a key on cooldown from now for the longer of the provider's cooldown and the
-- Retry-After, whatever was noted of it before, and leaves the provider's other keys as they were;
-- without a cooldown it changes nothing.
pub cool-is_cooling :
    (s : KeyState) (p : Provider) (key other : String) (retry_after now later : ℤ)
    → is_cooling (cool s p key retry_after now) p later other ≡ (
        if is_zero (seconds p.cooldown_seconds)
        then is_cooling s p later other
        else if key =ₛ other
        then ltb_ℤ later (now +ℤ max_ℤ (seconds p.cooldown_seconds) retry_after)
        else is_cooling s p later other)
unfolding cool is_cooling
cool-is_cooling s p key other ra now later =
    elim (Bool-cases (is_zero (seconds p.cooldown_seconds))) [
      | inl e ↦ rw (e, cool)
      | inr e ↦ elim (Bool-cases (key =ₛ other)) [
        | inl f ↦ rw (e, f, cool) (rw (cooldown_key_eq p key other ∙ f))
        | inr f ↦ rw (e, f, cool) (rw (cooldown_key_eq p key other ∙ f))
      ]
    ]
