-- ===== src/CommandCode/Lifecycle.antt =====
-- commandcode/plugin.go: the streams that run in the background and how the plugin is quiesced. What
-- happens under `lifecycleMu` is one operation; other goroutines act between two operations.
pub mod Invariant
pub mod Quiesce
pub mod Start
use cpa_plugins.Base.{
  ℕ, zero, suc, ◌<◌, ◌-◌, ◌≡◌, String, Bool, true, false, not, ◌&&◌, List, [], ◌∷◌, Option, none,
  some, ◌==◌, ◌=ₛ◌, if◌then◌else◌,
}

-- A stream is a pointer: the number of its allocation. `waiting` is the counter of the WaitGroup and
-- `releasing` counts the goroutines between the unlock and the `Done` of `finishAsyncStream`.
pub record Lifecycle : Type 0 where
  pub quiescing : Bool
  pub streams : List (ℕ × String)
  pub waiting : ℕ
  pub releasing : ℕ
  pub allocated : ℕ

abbrev pub new_lifecycle : Lifecycle
new_lifecycle = record {
  quiescing = false;
  streams = [];
  waiting = 0;
  releasing = 0;
  allocated = 0;
}

unfoldable pub has : List (ℕ × String) → ℕ → Bool
has [] a = false
has ((b, id) ∷ rest) a = if b == a then true else has rest a

unfoldable pub assign : List (ℕ × String) → ℕ → String → List (ℕ × String)
assign [] a id = []
assign ((b, old) ∷ rest) a id = if b == a then (b, id) ∷ rest else (b, old) ∷ assign rest a id

unfoldable pub remove : List (ℕ × String) → ℕ → List (ℕ × String)
remove [] a = []
remove ((b, id) ∷ rest) a = if b == a then rest else (b, id) ∷ remove rest a

-- The ids of the upstream streams to close.
unfoldable pub upstreams : List (ℕ × String) → List String
upstreams [] = []
upstreams ((b, id) ∷ rest) = if id =ₛ "" then upstreams rest else id ∷ upstreams rest

-- `none` is the failure of a plugin that quiesces.
unfoldable pub begin_async_stream : Lifecycle → Option (ℕ × Lifecycle)
begin_async_stream l =
    if l.quiescing
    then none
    else some (
      l.allocated,
      record l {
        streams = (l.allocated, "") ∷ l.streams;
        waiting = suc l.waiting;
        allocated = suc l.allocated;
      },
    )

unfoldable pub set_async_stream_upstream : ℕ → String → Lifecycle → Bool × Lifecycle
unfolding assign
set_async_stream_upstream a id l =
    if l.quiescing
    then (false, l)
    else if not (has l.streams a)
    then (false, l)
    else (true, record l { streams = assign l.streams a id })

-- The part of `finishAsyncStream` under the lock.
unfoldable pub finish_async_stream : ℕ → Lifecycle → Lifecycle
unfolding remove
finish_async_stream a l =
    if has l.streams a
    then record l { streams = remove l.streams a; releasing = suc l.releasing }
    else l

-- `streamWG.Done()`, which panics on a counter of 0.
unfoldable pub done : Lifecycle → Option Lifecycle
done l = elim l.waiting [
  | zero ↦ none
  | suc n ↦ some (record l { waiting = n; releasing = l.releasing - 1 })
]

-- `quiesce` up to the unlock, with the ids that are closed after it.
unfoldable pub mark : Lifecycle → List String × Lifecycle
mark l = (upstreams l.streams, record l { quiescing = true })

unfoldable pub resume : Lifecycle → Lifecycle
resume l = record l { quiescing = false }

-- What the goroutines do, in any order.
pub data Step : Lifecycle → Lifecycle → Type 0 where
  began : {l : Lifecycle} {a : ℕ} {l' : Lifecycle} → begin_async_stream l ≡ some (a, l') → Step l l'
  assigned : {l : Lifecycle} (a : ℕ) (id : String) → Step l (set_async_stream_upstream a id l).1
  finished : {l : Lifecycle} (a : ℕ) → Step l (finish_async_stream a l)
  released : {l : Lifecycle} {l' : Lifecycle} → 0 < l.releasing → done l ≡ some l' → Step l l'
  marked : {l : Lifecycle} → Step l (mark l).1

pub data Steps : Lifecycle → Lifecycle → Type 0 where
  none_left : {l : Lifecycle} → Steps l l
  then_step : {l : Lifecycle} {m : Lifecycle} {n : Lifecycle} → Steps l m → Step m n → Steps l n

pub data Reachable : Lifecycle → Type 0 where
  new : Reachable new_lifecycle
  stepped : {l : Lifecycle} {l' : Lifecycle} → Reachable l → Step l l' → Reachable l'
  resumed : {l : Lifecycle} → Reachable l → Reachable (resume l)

-- What `executeStream` comes to, and the lifecycle it leaves: a running stream, or a failure with the
-- upstream stream that it closes.
pub data Outcome : Type 0 where
  running : ℕ → Outcome
  failed : Option String → Outcome

-- A stream that was not registered is closed.
unfoldable pub run_or_close : ℕ → String → Bool × Lifecycle → Outcome × Lifecycle
run_or_close a id (true, l) = (running a, l)
run_or_close a id (false, l) = (failed (some id), finish_async_stream a l)

unfoldable pub after_open : Option String → ℕ → Lifecycle → Outcome × Lifecycle
after_open none a l = (failed none, finish_async_stream a l)
after_open (some id) a l = run_or_close a id (set_async_stream_upstream a id l)

-- `executeStream`; `meanwhile` is what the other goroutines do while the upstream is opened.
unfoldable pub execute_stream :
    Bool → Option String → (Lifecycle → Lifecycle) → Lifecycle → Outcome × Lifecycle
execute_stream prepared opened meanwhile l = elim (begin_async_stream l) [
  | none ↦ (failed none, l)
  | some (a, l') ↦
      if not prepared
      then (failed none, finish_async_stream a l')
      else after_open opened a (meanwhile l')
]
