-- ===== src/Forward/Keys/Rotation.antt =====
-- embeddings-forward/forward.go: the order in which `ordered` gives a provider's keys.
use native.Mathlib.Nat.{mod-eq_of_lt, mod-lt, zero-add, add-zero, suc-add}
use mathlib.Core.Path.{ap₂}
use mathlib.Core.List.{append_assoc, append-nil, perm_append_comm}
use mathlib.Core.List.Perm
use cpa_plugins.Base.{
  ℕ, zero, suc, ◌+◌, ◌-◌, ◌%◌, ◌≤◌, ◌<◌, ◌≡◌, refl, ap, subst, ◌∙◌, String, Bool, not, List, [],
  ◌∷◌, ◌++◌, Perm, some, ℤ, arith, length, get_or, take, drop, keep, inl, inr, Bool-cases,
  keep-split-perm, take-append-drop, length-drop, if◌then◌else◌,
}
use cpa_plugins.Forward.Config.{Provider}
use cpa_plugins.Forward.Keys.{
  KeyState, is_cooling, sort_keys, start_of, advance, ordered, is_round_robin,
}

-- The keys from a start on, then those before it.
abbrev pub rotate {ℓ} : {A : Type ℓ} → ℕ → List A → List A
rotate start xs = drop start xs ++ take start xs

-- The keys at the `rounds` indices from start + i on, modulo the number of keys.
unfoldable pub window : List String → ℕ → ℕ → ℕ → List String
window keys start zero i = []
window keys start (suc rounds) i =
    get_or keys ((start + i) % length keys) "" ∷ window keys start rounds (suc i)

sort_keys-window :
    (c : String → Bool) (keys : List String) (start rounds i : ℕ) (hot cold : List String)
    → sort_keys c keys start rounds i hot cold
      ≡ (hot ++ keep (λ k. not (c k)) (window keys start rounds i))
        ++ (cold ++ keep c (window keys start rounds i))
unfolding sort_keys window
sort_keys-window c keys start zero i hot cold = simp append-nil
sort_keys-window c keys start (suc rounds) i hot cold =
    let key = get_or keys ((start + i) % length keys) "" in
    elim (Bool-cases (c key)) [
      | inl e ↦
          rw (e, if◌then◌else◌, not)
            (sort_keys-window c keys start rounds (suc i) hot (cold ++ key ∷ [])
              ∙ simp append_assoc)
      | inr e ↦
          rw (e, if◌then◌else◌, not)
            (sort_keys-window c keys start rounds (suc i) (hot ++ key ∷ []) cold
              ∙ simp append_assoc)
    ]

pub drop-get_or :
    (xs : List String) (k : ℕ) → k < length xs → drop k xs ≡ get_or xs k "" ∷ drop (suc k) xs
drop-get_or [] k h = elim h [ ]
drop-get_or (x ∷ xs) zero h = refl
drop-get_or (x ∷ xs) (suc k) h = drop-get_or xs k (omega arith)

-- Indices that stay below the number of keys.
window_straight :
    (keys : List String) (start rounds i : ℕ)
    → start + i + rounds ≤ length keys
    → window keys start rounds i ≡ take rounds (drop (start + i) keys)
unfolding window
window_straight keys start zero i h = refl
window_straight keys start (suc r) i h =
    let below : start + i < length keys = omega arith in
    let next : start + suc i ≡ suc (start + i) = omega arith in
    rw (mod-eq_of_lt below, drop-get_or keys (start + i) below)
      (ap (◌∷◌ (get_or keys (start + i) ""))
        (window_straight keys start r (suc i) (omega arith) ∙ ap (λ k. take r (drop k keys)) next))

-- Indices that have passed the number of keys once.
window_wrapped :
    (keys : List String) (start rounds i j : ℕ)
    → start + i ≡ length keys + j
    → j + rounds ≤ length keys
    → window keys start rounds i ≡ take rounds (drop j keys)
unfolding window
window_wrapped keys start zero i j e h = refl
window_wrapped keys start (suc r) i j e h =
    let below : j < length keys = omega arith in
    let index : (start + i) % length keys ≡ j = rw e (grind arith) in
    rw (index, drop-get_or keys j below)
      (ap (◌∷◌ (get_or keys j ""))
        (window_wrapped keys start r (suc i) (suc j) (omega arith) (omega arith)))

window-append :
    (keys : List String) (start r t i : ℕ)
    → window keys start (r + t) i ≡ window keys start r i ++ window keys start t (i + r)
unfolding window
window-append keys start zero t i = simp (zero-add, add-zero)
window-append keys start (suc r) t i = rw suc-add (
    ap (◌∷◌ (get_or keys ((start + i) % length keys) "")) (
      window-append keys start r t (suc i)
      ∙ ap (λ k. window keys start r (suc i) ++ window keys start t k) shift))
  where
    shift : suc i + r ≡ i + suc r
    shift = omega arith

take_all : (n : ℕ) (xs : List String) → length xs ≤ n → take n xs ≡ xs
take_all zero [] h = refl
take_all zero (x ∷ xs) h = elim h [ ]
take_all (suc n) [] h = refl
take_all (suc n) (x ∷ xs) h = ap (◌∷◌ x) (take_all n xs (omega arith))

pub window-rotate :
    (keys : List String) (start : ℕ)
    → start ≤ length keys
    → window keys start (length keys) 0 ≡ rotate start keys
window-rotate keys start h =
    ap (λ n. window keys start n 0) size
    ∙ window-append keys start (length keys - start) start 0
    ∙ ap₂ ◌++◌ ahead behind
  where
    size : length keys ≡ length keys - start + start
    size = omega arith

    ahead : window keys start (length keys - start) 0 ≡ drop start keys
    ahead =
        window_straight keys start (length keys - start) 0 (omega arith)
        ∙ ap (λ k. take (length keys - start) (drop k keys)) (add-zero start)
        ∙ take_all (length keys - start) (drop start keys) (omega (arith, length-drop start keys))

    behind : window keys start start (0 + (length keys - start)) ≡ take start keys
    behind =
        window_wrapped keys start start (0 + (length keys - start)) 0 (omega arith) (omega arith)

-- The keys that `ordered` gives, at any start that is an index.
sort_keys-rotate :
    (c : String → Bool) (keys : List String) (start : ℕ)
    → start ≤ length keys
    → sort_keys c keys start (length keys) 0 [] []
      ≡ keep (λ k. not (c k)) (rotate start keys) ++ keep c (rotate start keys)
sort_keys-rotate c keys start h =
    sort_keys-window c keys start (length keys) 0 [] []
    ∙ ap (λ w. keep (λ k. not (c k)) w ++ keep c w) (window-rotate keys start h)

start-le : (s : KeyState) (p : Provider) → 0 < length p.api_keys → start_of s p ≤ length p.api_keys
start-le s p h = elim (Bool-cases (is_round_robin p)) [
  | inl e ↦ rw e (omega (arith, mod-lt (s.next p.name) h))
  | inr e ↦ rw e (omega arith)
]

-- With at least one key configured, `ordered` takes the keys from the turn's start on, in a circle:
-- first those that are not cooling, then those that are, each group in the order of the circle.
pub ordered-rotate :
    (s : KeyState) (p : Provider) (now : ℤ)
    → 0 < length p.api_keys
    → let turn = rotate (start_of s p) p.api_keys in
      ordered s p now
      ≡ some (
        keep (λ k. not (is_cooling s p now k)) turn ++ keep (is_cooling s p now) turn,
        advance s p,
      )
unfolding ordered
ordered-rotate s p now h =
    ground (arith, sort_keys-rotate (is_cooling s p now) p.api_keys (start_of s p) (start-le s p h))

pub rotate-perm {ℓ} : {A : Type ℓ} (n : ℕ) (xs : List A) → Perm (rotate n xs) xs
rotate-perm n xs =
    Perm.trans (perm_append_comm (drop n xs) (take n xs))
      (subst (Perm (take n xs ++ drop n xs)) (take-append-drop n xs) (Perm.refl _))

hot_cold-perm {ℓ} :
    {A : Type ℓ} (c : A → Bool) (xs : List A) → Perm (keep (λ k. not (c k)) xs ++ keep c xs) xs
hot_cold-perm c xs =
    Perm.trans (perm_append_comm (keep (λ k. not (c k)) xs) (keep c xs)) (keep-split-perm c xs)

-- Every configured key is tried, each as often as it is configured, whatever is cooling.
pub ordered-perm :
    (s : KeyState) (p : Provider) (now : ℤ)
    → 0 < length p.api_keys
    → (keys : List String) × (ordered s p now ≡ some (keys, advance s p)) × Perm keys p.api_keys
ordered-perm s p now h = (
  keep (λ k. not (is_cooling s p now k)) (rotate (start_of s p) p.api_keys)
      ++ keep (is_cooling s p now) (rotate (start_of s p) p.api_keys),
  ordered-rotate s p now h,
  Perm.trans (hot_cold-perm (is_cooling s p now) _) (rotate-perm (start_of s p) p.api_keys),
)
