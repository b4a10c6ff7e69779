-- ===== src/CommandCode/Lifecycle/Quiesce.antt =====
-- commandcode/plugin.go: what a plugin that quiesces still does.
use cpa_plugins.Base.{
  ℕ, zero, suc, ◌≡◌, ◌⊎◌, refl, sym, subst, ◌∙◌, inl, inr, String, true, false, List, [], ◌∷◌, none,
  some, ◌==◌, ◌=ₛ◌, eq_iff, if◌then◌else◌, Bool-cases, All, All-map,
}
use mathlib.Core.List.{Memᴰ}
use mathlib.Core.List.Memᴰ.{head, tail}
use mathlib.Core.Option.{some-injective, none-ne-some}
use cpa_plugins.CommandCode.Lifecycle.{
  Lifecycle, has, remove, upstreams, begin_async_stream, set_async_stream_upstream,
  finish_async_stream, done, mark, Step, began, assigned, finished, released, marked, Steps,
  none_left, then_step,
}

module _ (P : ℕ × String → Type 0) where
  All-remove : (xs : List (ℕ × String)) (a : ℕ) → All P xs → All P (remove xs a)
  unfolding remove
  All-remove [] a h = h
  All-remove ((b, id) ∷ rest) a h = elim (Bool-cases (b == a)) [
    | inl e ↦ rw (e, if◌then◌else◌) h.1
    | inr e ↦ rw (e, if◌then◌else◌) (h.0, All-remove rest a h.1)
  ]

  -- A plugin that quiesces stays so, and what holds of its streams goes on to.
  abbrev Drains : Lifecycle → Type 0
  Drains l = (l.quiescing ≡ true) × All P l.streams

  refuses_begin : (l : Lifecycle) → l.quiescing ≡ true → begin_async_stream l ≡ none
  unfolding begin_async_stream
  refuses_begin l q = rw (q, if◌then◌else◌) refl

  refuses_set :
      (a : ℕ) (id : String) (l : Lifecycle)
      → l.quiescing ≡ true
      → set_async_stream_upstream a id l ≡ (false, l)
  unfolding set_async_stream_upstream
  refuses_set a id l q = rw (q, if◌then◌else◌) refl

  finish-Drains : (a : ℕ) (l : Lifecycle) → Drains l → Drains (finish_async_stream a l)
  unfolding finish_async_stream
  finish-Drains a l (q, h) = elim (Bool-cases (has l.streams a)) [
    | inl e ↦ rw (e, if◌then◌else◌) (q, All-remove l.streams a h)
    | inr e ↦ rw (e, if◌then◌else◌) (q, h)
  ]

  done-Drains : (l : Lifecycle) {l' : Lifecycle} → done l ≡ some l' → Drains l → Drains l'
  unfolding done
  done-Drains l {l'} e d = from l.waiting refl
    where
      from : (n : ℕ) → l.waiting ≡ n → Drains l'
      from zero z = absurd (none-ne-some _ (rw z at e))
      from (suc n) z = subst Drains (some-injective _ _ (rw z at e)) d

  Step-Drains : {l : Lifecycle} {l' : Lifecycle} → Step l l' → Drains l → Drains l'
  unfolding mark
  Step-Drains {l} (began e) d = absurd (none-ne-some _ (sym (refuses_begin l d.0) ∙ e))
  Step-Drains {l} (assigned a id) d = subst (λ r. Drains r.1) (sym (refuses_set a id l d.0)) d
  Step-Drains {l} (finished a) d = finish-Drains a l d
  Step-Drains {l} (released h e) d = done-Drains l e d
  Step-Drains marked d = (refl, d.1)

  Steps-Drains : {l : Lifecycle} {l' : Lifecycle} → Steps l l' → Drains l → Drains l'
  Steps-Drains none_left d = d
  Steps-Drains (then_step ss s) d = Step-Drains s (Steps-Drains ss d)

-- The stream has no upstream yet or one of these.
abbrev pub IsClosed : List String → ℕ × String → Type 0
IsClosed ids p = (p.1 ≡ "") ⊎ Memᴰ p.1 ids

IsClosed-more :
    (id : String) (ids : List String) (p : ℕ × String) → IsClosed ids p → IsClosed (id ∷ ids) p
IsClosed-more id ids p (inl e) = inl e
IsClosed-more id ids p (inr m) = inr (tail m)

upstreams-IsClosed : (xs : List (ℕ × String)) → All (IsClosed (upstreams xs)) xs
unfolding upstreams
upstreams-IsClosed [] = tt
upstreams-IsClosed ((b, id) ∷ rest) = elim (Bool-cases (id =ₛ "")) [
  | inl e ↦
      let k : upstreams ((b, id) ∷ rest) ≡ upstreams rest = rw (e, if◌then◌else◌) refl in
      subst (λ ids. All (IsClosed ids) ((b, id) ∷ rest)) (sym k)
        (inl ((eq_iff id "").0 e), upstreams-IsClosed rest)
  | inr e ↦
      let k : upstreams ((b, id) ∷ rest) ≡ id ∷ upstreams rest = rw (e, if◌then◌else◌) refl in
      subst (λ ids. All (IsClosed ids) ((b, id) ∷ rest)) (sym k)
        (
          inr (head refl),
          All-map (IsClosed-more id (upstreams rest)) rest (upstreams-IsClosed rest),
        )
]

-- Whatever the goroutines do after `quiesce` has set the flag and before a `resume`: no stream begins
-- and none gets an upstream stream, and every upstream stream of a registered one is among those
-- that `quiesce` closes.
pub quiesce_lem :
    (l : Lifecycle) {l' : Lifecycle} (a : ℕ) (id : String)
    → Steps (mark l).1 l'
    → (begin_async_stream l' ≡ none)
      × (set_async_stream_upstream a id l' ≡ (false, l'))
      × All (IsClosed (mark l).0) l'.streams
unfolding mark
quiesce_lem l {l'} a id ss =
    let P = IsClosed (upstreams l.streams) in
    let (q, closed) = Steps-Drains P ss (refl, upstreams-IsClosed l.streams) in
    (refuses_begin P l' q, refuses_set P a id l' q, closed)
