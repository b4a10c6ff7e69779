-- ===== src/CommandCode/Lifecycle/Start.antt =====
-- commandcode/plugin.go: the upstream stream that `executeStream` opens.
use cpa_plugins.Base.{
  ℕ, suc, ◌≡◌, ◌⊎◌, refl, sym, ap, subst, ◌∙◌, inl, inr, String, Bool, true, false, not, List, [],
  ◌∷◌, Option, none, some, ◌==◌, ==_iff, if◌then◌else◌, Bool-cases,
}
use mathlib.Core.List.{Memᴰ}
use mathlib.Core.List.Memᴰ.{head, tail}
use cpa_plugins.CommandCode.Lifecycle.{
  Lifecycle, has, assign, begin_async_stream, set_async_stream_upstream, finish_async_stream,
  Outcome, running, failed, run_or_close, after_open, execute_stream, began, Reachable, stepped,
}
use cpa_plugins.CommandCode.Lifecycle.Invariant.{IsValid, Reachable-IsValid, has-remove}

-- What becomes of the upstream stream and of the registration of stream `a`.
abbrev pub Owned : ℕ → Option String → Outcome × Lifecycle → Type 0
Owned a opened (running b, l) =
    (b ≡ a) × ((id : String) × (opened ≡ some id) × Memᴰ (a, id) l.streams)
Owned a opened (failed closed, l) = (closed ≡ opened) × (has l.streams a ≡ false)

finish-has : (a : ℕ) (l : Lifecycle) → IsValid l → has (finish_async_stream a l).streams a ≡ false
unfolding finish_async_stream
finish-has a l v = elim (Bool-cases (has l.streams a)) [
  | inl e ↦ rw (e, if◌then◌else◌) (has-remove l a v)
  | inr e ↦ rw (e, if◌then◌else◌) e
]

assign-mem :
    (xs : List (ℕ × String)) (a : ℕ) (id : String) → has xs a ≡ true → Memᴰ (a, id) (assign xs a id)
unfolding has assign
assign-mem [] a id = λ h. cc h
assign-mem ((b, old) ∷ rest) a id = elim (Bool-cases (b == a)) [
  | inl e ↦ rw (e, if◌then◌else◌) λ h. head (ap (λ n. (n, id)) (sym ((==_iff b a).0 e)))
  | inr e ↦ rw (e, if◌then◌else◌) λ h. tail (assign-mem rest a id h)
]

set_cases :
    (a : ℕ) (id : String) (l : Lifecycle)
    → (set_async_stream_upstream a id l ≡ (false, l))
      ⊎ ((has l.streams a ≡ true)
          × (set_async_stream_upstream a id l
              ≡ (true, record l { streams = assign l.streams a id })))
unfolding set_async_stream_upstream
set_cases a id l = elim (Bool-cases l.quiescing) [
  | inl q ↦ inl (rw (q, if◌then◌else◌) refl)
  | inr q ↦ elim (Bool-cases (has l.streams a)) [
    | inl h ↦ inr (h, rw (q, h, if◌then◌else◌) refl)
    | inr h ↦ inl (rw (q, h, if◌then◌else◌) refl)
  ]
]

after_open-Owned :
    (opened : Option String) (a : ℕ) (l : Lifecycle)
    → IsValid l
    → Owned a opened (after_open opened a l)
unfolding after_open run_or_close
after_open-Owned none a l v = (refl, finish-has a l v)
after_open-Owned (some id) a l v = elim (set_cases a id l) [
  | inl e ↦ subst (λ r. Owned a (some id) (run_or_close a id r)) (sym e) (refl, finish-has a l v)
  | inr (h, e) ↦
      subst (λ r. Owned a (some id) (run_or_close a id r)) (sym e)
        (refl, (id, refl, assign-mem l.streams a id h))
]

-- The lifecycle with one more stream.
abbrev registered : Lifecycle → Lifecycle
registered l = record l {
  streams = (l.allocated, "") ∷ l.streams;
  waiting = suc l.waiting;
  allocated = suc l.allocated;
}

begin_cases :
    (l : Lifecycle)
    → ((l.quiescing ≡ true) × (begin_async_stream l ≡ none))
      ⊎ ((l.quiescing ≡ false)
          × ((l' : Lifecycle) × (begin_async_stream l ≡ some (l.allocated, l'))))
unfolding begin_async_stream
begin_cases l = elim (Bool-cases l.quiescing) [
  | inl q ↦ inl (q, rw (q, if◌then◌else◌) refl)
  | inr q ↦ inr (q, (registered l, rw (q, if◌then◌else◌) refl))
]

module _ (prepared : Bool) (opened : Option String) (meanwhile : Lifecycle → Lifecycle) where
  settle : Lifecycle → Option (ℕ × Lifecycle) → Outcome × Lifecycle
  settle l none = (failed none, l)
  settle l (some (a, l')) =
      if not prepared
      then (failed none, finish_async_stream a l')
      else after_open opened a (meanwhile l')

  execute_stream-settle :
      (l : Lifecycle) → execute_stream prepared opened meanwhile l ≡ settle l (begin_async_stream l)
  unfolding execute_stream settle
  execute_stream-settle l = refl

settle-Owned :
    (prepared : Bool) (opened : Option String) (meanwhile : Lifecycle → Lifecycle)
    → ((l : Lifecycle) → Reachable l → Reachable (meanwhile l))
    → (l : Lifecycle) (a : ℕ) (l' : Lifecycle) → Reachable l'
    → Owned a
        (if prepared then opened else none)
        (settle prepared opened meanwhile l (some (a, l')))
unfolding settle
settle-Owned true opened meanwhile interleaved l a l' r =
    after_open-Owned opened a (meanwhile l') (Reachable-IsValid (interleaved l' r))
settle-Owned false opened meanwhile interleaved l a l' r =
    (refl, finish-has a l' (Reachable-IsValid r))

-- `executeStream`, whether or not the request can be prepared and whatever reachable state the other
-- goroutines, which can also quiesce and resume the plugin, leave while it opens the upstream. A plugin
-- that quiesces starts nothing. Otherwise the stream is left running with its upstream stream registered,
-- or it fails, has closed the upstream stream if one was opened, and is not registered. A request that
-- cannot be prepared opens nothing, so that it fails, and it too is not registered.
pub execute_stream-Owned :
    (prepared : Bool) (opened : Option String) (meanwhile : Lifecycle → Lifecycle)
    → ((l : Lifecycle) → Reachable l → Reachable (meanwhile l))
    → (l : Lifecycle) → Reachable l
    → let result : Outcome × Lifecycle = execute_stream prepared opened meanwhile l in
      ((l.quiescing ≡ true) × (result ≡ (failed none, l)))
      ⊎ ((l.quiescing ≡ false) × Owned l.allocated (if prepared then opened else none) result)
unfolding settle
execute_stream-Owned prepared opened meanwhile interleaved l r = elim (begin_cases l) [
  | inl (q, e) ↦ inl (
    q,
    execute_stream-settle prepared opened meanwhile l ∙ ap (settle prepared opened meanwhile l) e,
  )
  | inr (q, (l', e)) ↦ inr (
    q,
    subst (Owned l.allocated (if prepared then opened else none))
        (sym (
          execute_stream-settle prepared opened meanwhile l
          ∙ ap (settle prepared opened meanwhile l) e))
        (settle-Owned prepared opened meanwhile interleaved l l.allocated l' (stepped r (began e))),
  )
]
