-- ===== src/Forward/Keys/RoundRobin.antt =====
-- embeddings-forward/forward.go: the fairness of the round robin.
use native.Mathlib.Nat.{mod-lt, mod-add-mod}
use mathlib.Core.Path.{ap₂}
use text.Mathlib.TextPositions.{eq_refl}
use cpa_plugins.Base.{
  ℕ, zero, suc, ◌+◌, ◌%◌, ◌<◌, ◌≡◌, refl, sym, ap, subst, ◌∙◌, String, Bool, true, false, not, List,
  [], ◌∷◌, ◌++◌, Perm, none, some, ℤ, arith, length, get_or, take, drop, keep, inl, inr, Bool-cases,
  eq_iff,
}
use cpa_plugins.Forward.Config.{Provider}
use cpa_plugins.Forward.Keys.{KeyState, is_cooling, start_of, advance, ordered, is_round_robin}
use cpa_plugins.Forward.Keys.Rotation.{
  rotate, window, drop-get_or, window-rotate, ordered-rotate, rotate-perm,
}

-- The keys that n requests in a row try first, the clock standing still.
pub first_keys : ℕ → KeyState → Provider → ℤ → List String
first_keys zero s p now = []
first_keys (suc n) s p now = elim (ordered s p now) [
  | none ↦ []
  | some (keys, s') ↦ get_or keys 0 "" ∷ first_keys n s' p now
]

keep_none : (c : String → Bool) (xs : List String) → ((k : String) → c k ≡ false) → keep c xs ≡ []
keep_none c [] h = refl
keep_none c (x ∷ xs) h = rw (h x) (keep_none c xs h)

keep_every :
    (c : String → Bool) (xs : List String)
    → ((k : String) → c k ≡ false)
    → keep (λ k. not (c k)) xs ≡ xs
keep_every c [] h = refl
keep_every c (x ∷ xs) h = rw (h x) (ap (◌∷◌ x) (keep_every c xs h))

get_or-append : (xs ys : List String) → 0 < length xs → get_or (xs ++ ys) 0 "" ≡ get_or xs 0 ""
get_or-append [] ys h = elim h [ ]
get_or-append (x ∷ xs) ys h = refl

ordered-first :
    (s : KeyState) (p : Provider) (now : ℤ)
    → 0 < length p.api_keys
    → start_of s p < length p.api_keys
    → ((k : String) → is_cooling s p now k ≡ false)
    → (keys : List String) × (ordered s p now ≡ some (keys, advance s p))
      × (get_or keys 0 "" ≡ get_or p.api_keys (start_of s p) "")
ordered-first s p now n h hot = (
  (drop start p.api_keys ++ take start p.api_keys) ++ [],
  ordered-rotate s p now n
      ∙ ap (λ ks. some (ks, advance s p))
          (ap₂ ◌++◌ (keep_every _ (rotate start p.api_keys) hot)
            (keep_none _ (rotate start p.api_keys) hot)),
  ap (λ ks. get_or ((ks ++ take start p.api_keys) ++ []) 0 "") (drop-get_or p.api_keys start h),
)
  where
    start : ℕ
    start = start_of s p

advance-next :
    (s : KeyState) (p : Provider)
    → is_round_robin p ≡ true
    → (advance s p).next p.name ≡ (s.next p.name + 1) % 18446744073709551616
advance-next s p rr = rw (rr, eq_refl p.name)

advance-cooling :
    (s : KeyState) (p : Provider) (now : ℤ) (k : String)
    → is_cooling (advance s p) p now k ≡ is_cooling s p now k
unfolding is_cooling
advance-cooling s p now k = elim (Bool-cases (is_round_robin p)) [ inl e ↦ rw e | inr e ↦ rw e ]

start_of-eq :
    (s : KeyState) (p : Provider) (n : ℕ)
    → is_round_robin p ≡ true
    → s.next p.name ≡ n
    → start_of s p ≡ n % length p.api_keys
start_of-eq s p n rr e = rw (rr, e)

first_keys-window :
    (rounds i : ℕ) (s : KeyState) (p : Provider) (now : ℤ) (start : ℕ)
    → is_round_robin p ≡ true
    → 0 < length p.api_keys
    → ((k : String) → is_cooling s p now k ≡ false)
    → s.next p.name ≡ start + i
    → start + i + rounds < 18446744073709551616
    → first_keys rounds s p now ≡ window p.api_keys start rounds i
unfolding first_keys window
first_keys-window zero i s p now start rr n hot e h = refl
first_keys-window (suc r) i s p now start rr n hot e h =
    rw (taken.1, first_keys)
      (ap₂ ◌∷◌ (taken.2 ∙ ap (λ k. get_or p.api_keys k "") turn) (
        first_keys-window r (suc i) (advance s p) p now start rr n
          (λ k. advance-cooling s p now k ∙ hot k) (advance-next s p rr ∙ counted) (omega arith)))
  where
    turn : start_of s p ≡ (start + i) % length p.api_keys
    turn = start_of-eq s p (start + i) rr e

    counted : (s.next p.name + 1) % 18446744073709551616 ≡ start + suc i
    counted = omega arith

    taken :
        (keys : List String) × (ordered s p now ≡ some (keys, advance s p))
        × (get_or keys 0 "" ≡ get_or p.api_keys (start_of s p) "")
    taken =
        ordered-first s p now n
          (subst (λ k. k < length p.api_keys) (sym turn) (mod-lt (start + i) n)) hot

window-mod :
    (keys : List String) (start rounds i : ℕ)
    → 0 < length keys
    → window keys start rounds i ≡ window keys (start % length keys) rounds i
unfolding window
window-mod keys start zero i h = refl
window-mod keys start (suc r) i h =
    ap₂ (λ k ks. get_or keys k "" ∷ ks) same (window-mod keys start r (suc i) h)
  where
    same : (start + i) % length keys ≡ (start % length keys + i) % length keys
    same = sym (mod-add-mod start (length keys) i)

-- Round robin is fair: while no key of the provider is cooling and its counter does not wrap, as
-- many requests in a row as there are keys begin with each key exactly as often as it is configured.
pub first_keys-perm :
    (s : KeyState) (p : Provider) (now : ℤ)
    → p.strategy ≡ "round_robin"
    → 0 < length p.api_keys
    → s.next p.name + length p.api_keys < 18446744073709551616
    → ((k : String) → is_cooling s p now k ≡ false)
    → Perm (first_keys (length p.api_keys) s p now) p.api_keys
first_keys-perm s p now rr n fits hot =
    subst (λ ks. Perm ks p.api_keys) (sym turns)
      (rotate-perm (s.next p.name % length p.api_keys) p.api_keys)
  where
    turns :
        first_keys (length p.api_keys) s p now
        ≡ rotate (s.next p.name % length p.api_keys) p.api_keys
    turns =
        first_keys-window (length p.api_keys) 0 s p now (s.next p.name)
          ((eq_iff p.strategy "round_robin").1 rr) n hot (omega arith) (omega arith)
        ∙ window-mod p.api_keys (s.next p.name) (length p.api_keys) 0 n
        ∙ window-rotate p.api_keys (s.next p.name % length p.api_keys)
            (omega (arith, mod-lt (s.next p.name) n))
