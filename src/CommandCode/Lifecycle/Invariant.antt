-- ===== src/CommandCode/Lifecycle/Invariant.antt =====
-- commandcode/plugin.go: the counter of the running streams.
use cpa_plugins.Base.{
  ℕ, suc, ◌+◌, ◌-◌, ◌<◌, ◌≤◌, ◌≡◌, refl, sym, ap, subst, ◌∙◌, inl, inr, String, true, false, List,
  [], ◌∷◌, some, ◌==◌, ==_iff, if◌then◌else◌, Bool-cases, length, arith,
}
use mathlib.Core.Option.{some-injective, none-ne-some}
use cpa_plugins.CommandCode.Lifecycle.{
  Lifecycle, has, assign, remove, begin_async_stream, set_async_stream_upstream,
  finish_async_stream, done, mark, resume, Step, began, assigned, finished, released, marked,
  Reachable, new, stepped, resumed,
}

-- The newest stream comes first.
unfoldable pub Below : ℕ → List (ℕ × String) → Type 0
Below n [] = Unit
Below n ((a, id) ∷ rest) = (a < n) × Below a rest

-- Every registered stream, and every one about to release it, is counted once.
unfoldable pub IsValid : Lifecycle → Type 0
IsValid l = Below l.allocated l.streams × (l.waiting ≡ length l.streams + l.releasing)

Below-weaken : (n m : ℕ) (xs : List (ℕ × String)) → n ≤ m → Below n xs → Below m xs
unfolding Below
Below-weaken n m [] le h = tt
Below-weaken n m ((a, id) ∷ rest) le (lt, h) = (omega arith, h)

pub Below-remove : (n : ℕ) (xs : List (ℕ × String)) (a : ℕ) → Below n xs → Below n (remove xs a)
unfolding Below remove
Below-remove n [] a h = tt
Below-remove n ((b, id) ∷ rest) a (lt, h) = elim (Bool-cases (b == a)) [
  | inl e ↦ rw (e, if◌then◌else◌) (Below-weaken b n rest (omega arith) h)
  | inr e ↦ rw (e, if◌then◌else◌) (lt, Below-remove b rest a h)
]

Below-assign :
    (n : ℕ) (xs : List (ℕ × String)) (a : ℕ) (id' : String) → Below n xs → Below n (assign xs a id')
unfolding Below assign
Below-assign n [] a id' h = tt
Below-assign n ((b, id) ∷ rest) a id' (lt, h) = elim (Bool-cases (b == a)) [
  | inl e ↦ rw (e, if◌then◌else◌) (lt, h)
  | inr e ↦ rw (e, if◌then◌else◌) (lt, Below-assign b rest a id' h)
]

length-remove :
    (xs : List (ℕ × String)) (a : ℕ) → has xs a ≡ true → suc (length (remove xs a)) ≡ length xs
unfolding has remove
length-remove [] a = λ h. cc h
length-remove ((b, id) ∷ rest) a = elim (Bool-cases (b == a)) [
  | inl e ↦ rw (e, if◌then◌else◌) λ h. refl
  | inr e ↦ rw (e, if◌then◌else◌) λ h. ap suc (length-remove rest a h)
]

length-assign :
    (xs : List (ℕ × String)) (a : ℕ) (id' : String) → length (assign xs a id') ≡ length xs
unfolding assign
length-assign [] a id' = refl
length-assign ((b, id) ∷ rest) a id' = elim (Bool-cases (b == a)) [
  | inl e ↦ rw (e, if◌then◌else◌) refl
  | inr e ↦ rw (e, if◌then◌else◌) (ap suc (length-assign rest a id'))
]

began-IsValid :
    (l : Lifecycle) {a : ℕ} {l' : Lifecycle}
    → IsValid l
    → begin_async_stream l ≡ some (a, l')
    → IsValid l'
unfolding begin_async_stream IsValid Below
began-IsValid l {a} {l'} (below, count) = elim (Bool-cases l.quiescing) [
  | inl q ↦ rw (q, if◌then◌else◌) λ e. absurd (none-ne-some _ e)
  | inr q ↦
      rw (q, if◌then◌else◌)
        λ e. subst (λ x. IsValid x.1) (some-injective _ _ e) ((omega arith, below), omega arith)
]

assigned-IsValid :
    (a : ℕ) (id : String) (l : Lifecycle) → IsValid l → IsValid (set_async_stream_upstream a id l).1
unfolding set_async_stream_upstream IsValid
assigned-IsValid a id l v = elim (Bool-cases l.quiescing) [
  | inl q ↦ rw (q, if◌then◌else◌) v
  | inr q ↦ elim (Bool-cases (has l.streams a)) [
    | inl h ↦
        rw (q, h, if◌then◌else◌)
          (
            Below-assign l.allocated l.streams a id v.0,
            v.1 ∙ ap (λ n. n + l.releasing) (sym (length-assign l.streams a id)),
          )
    | inr h ↦ rw (q, h, if◌then◌else◌) v
  ]
]

pub finished-IsValid : (a : ℕ) (l : Lifecycle) → IsValid l → IsValid (finish_async_stream a l)
unfolding finish_async_stream IsValid
finished-IsValid a l (below, count) = elim (Bool-cases (has l.streams a)) [
  | inl e ↦
      let shorter = length-remove l.streams a e in
      rw (e, if◌then◌else◌) (Below-remove l.allocated l.streams a below, omega arith)
  | inr e ↦ rw (e, if◌then◌else◌) (below, count)
]

mark-IsValid : (l : Lifecycle) → IsValid l → IsValid (mark l).1
unfolding mark IsValid
mark-IsValid l v = v

resume-IsValid : (l : Lifecycle) → IsValid l → IsValid (resume l)
unfolding resume IsValid
resume-IsValid l v = v

pub length_zero : (xs : List (ℕ × String)) → length xs ≡ 0 → xs ≡ []
length_zero [] h = refl
length_zero (x ∷ xs) h = absurd (omega arith)

has-Below : (n a : ℕ) (xs : List (ℕ × String)) → n ≤ a → Below n xs → has xs a ≡ false
unfolding Below has
has-Below n a [] le h = refl
has-Below n a ((b, id) ∷ rest) le (lt, h) = elim (Bool-cases (b == a)) [
  | inl e ↦ let same = (==_iff b a).0 e in absurd (omega arith)
  | inr e ↦ rw (e, if◌then◌else◌) (has-Below b a rest (omega arith) h)
]

once : (n : ℕ) (xs : List (ℕ × String)) (a : ℕ) → Below n xs → has (remove xs a) a ≡ false
unfolding Below has remove
once n [] a h = refl
once n ((b, id) ∷ rest) a (lt, h) = elim (Bool-cases (b == a)) [
  | inl e ↦
      let same = (==_iff b a).0 e in rw (e, if◌then◌else◌) (has-Below b a rest (omega arith) h)
  | inr e ↦ rw (e, if◌then◌else◌) (rw (e, if◌then◌else◌) (once b rest a h))
]

-- The lifecycle after a `Done`.
abbrev pub released_of : Lifecycle → Lifecycle
released_of l = record l { waiting = l.waiting - 1; releasing = l.releasing - 1 }

pub done-released : (l : Lifecycle) → 0 < l.waiting → done l ≡ some (released_of l)
unfolding done
done-released l h =
    let e : l.waiting ≡ suc (l.waiting - 1) = omega arith in counted (l.waiting - 1) l e
  where
    counted :
        (n : ℕ) (l : Lifecycle)
        → l.waiting ≡ suc n
        → done l ≡ some (record l { waiting = n; releasing = l.releasing - 1 })
    counted n l e = rw e refl

released-IsValid :
    (l : Lifecycle) {l' : Lifecycle} → 0 < l.releasing → IsValid l → done l ≡ some l' → IsValid l'
unfolding IsValid
released-IsValid l some_left (below, count) e =
    subst IsValid (some-injective _ _ (sym (done-released l (omega arith)) ∙ e))
      (below, omega arith)

pub Step-IsValid : {l : Lifecycle} {l' : Lifecycle} → Step l l' → IsValid l → IsValid l'
Step-IsValid {l} (began e) v = began-IsValid l v e
Step-IsValid {l} (assigned a id) v = assigned-IsValid a id l v
Step-IsValid {l} (finished a) v = finished-IsValid a l v
Step-IsValid {l} (released h e) v = released-IsValid l h v e
Step-IsValid marked v = mark-IsValid _ v

pub Reachable-IsValid : {l : Lifecycle} → Reachable l → IsValid l
unfolding IsValid Below
Reachable-IsValid new = (tt, refl)
Reachable-IsValid (stepped r s) = Step-IsValid s (Reachable-IsValid r)
Reachable-IsValid (resumed r) = resume-IsValid _ (Reachable-IsValid r)

IsValid-counted : (l : Lifecycle) → IsValid l → l.waiting ≡ length l.streams + l.releasing
unfolding IsValid
IsValid-counted l v = v.1

-- A stream is registered once.
pub has-remove : (l : Lifecycle) (a : ℕ) → IsValid l → has (remove l.streams a) a ≡ false
unfolding IsValid
has-remove l a v = once l.allocated l.streams a v.0

-- In every reachable state the WaitGroup counts the registered streams and the goroutines that are
-- about to call `Done`.
pub waiting_lem : {l : Lifecycle} → Reachable l → l.waiting ≡ length l.streams + l.releasing
waiting_lem {l} r = IsValid-counted l (Reachable-IsValid r)

-- A goroutine that is about to call `Done` does not make it panic.
done_lem : {l : Lifecycle} → Reachable l → 0 < l.releasing → done l ≡ some (released_of l)
done_lem {l} r h = let count = waiting_lem r in done-released l (omega arith)

-- A counter of 0, for which `Wait` waits, means that no stream is registered and no goroutine is left.
wait_ends : {l : Lifecycle} → Reachable l → l.waiting ≡ 0 → (l.streams ≡ []) × (l.releasing ≡ 0)
wait_ends {l} r z = let count = waiting_lem r in (length_zero l.streams (omega arith), omega arith)
