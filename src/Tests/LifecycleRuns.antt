-- ===== src/Tests/LifecycleRuns.antt =====
-- commandcode/plugin.go: concrete runs of the streams' lifecycle.
use cpa_plugins.Base.{◌+◌, ◌≡◌, ◌⊎◌, refl, true, false, [], ◌∷◌, none, some, length, All}
use cpa_plugins.CommandCode.Lifecycle.{
  Lifecycle, has, after_open, run_or_close, begin_async_stream, set_async_stream_upstream,
  finish_async_stream, mark, execute_stream, Outcome, failed, none_left, then_step, Step, began,
  assigned, finished, Reachable, new, stepped,
}
use cpa_plugins.CommandCode.Lifecycle.Invariant.{waiting_lem}
use cpa_plugins.CommandCode.Lifecycle.Quiesce.{IsClosed, quiesce_lem}
use cpa_plugins.CommandCode.Lifecycle.Start.{Owned, execute_stream-Owned}

-- One stream with its upstream.
abbrev one_stream : Lifecycle
one_stream = record {
  quiescing = false;
  streams = (0, "up") ∷ [];
  waiting = 1;
  releasing = 0;
  allocated = 1;
}

abbrev begun : Lifecycle
begun = record one_stream { streams = (0, "") ∷ [] }

begun-Reachable : Reachable begun
unfolding begin_async_stream
begun-Reachable = stepped new (began {a = 0} refl)

one_stream-Reachable : Reachable one_stream
unfolding set_async_stream_upstream has
one_stream-Reachable = stepped begun-Reachable (assigned 0 "up")

abbrev finished_stream : Lifecycle
finished_stream = record one_stream { streams = []; releasing = 1 }

finished-Reachable : Reachable finished_stream
unfolding finish_async_stream has
finished-Reachable = stepped one_stream-Reachable (finished 0)

waiting_example : one_stream.waiting ≡ length one_stream.streams + one_stream.releasing
waiting_example = waiting_lem one_stream-Reachable

-- While quiescing, the stream finishes.
quiesce_example :
    let l = finish_async_stream 0 (mark one_stream).1 in
    (begin_async_stream l ≡ none)
    × (set_async_stream_upstream 0 "late" l ≡ (false, l))
    × All (IsClosed (mark one_stream).0) l.streams
quiesce_example = quiesce_lem one_stream 0 "late" (then_step none_left (finished 0))

-- Quiescing begins while the upstream is opened.
execute_stream_example :
    let result : Outcome × Lifecycle =
      execute_stream true (some "up2") (λ l. (mark l).1) one_stream in
    ((false ≡ true) × (result ≡ (failed none, one_stream)))
    ⊎ ((false ≡ false) × Owned 1 (some "up2") result)
execute_stream_example =
    execute_stream-Owned true (some "up2") (λ l. (mark l).1) (λ l r. stepped r Step.marked)
      one_stream one_stream-Reachable

-- The stream that was opened too late is closed.
late_stream :
    (execute_stream true (some "up2") (λ l. (mark l).1) one_stream).0 ≡ failed (some "up2")
unfolding execute_stream begin_async_stream set_async_stream_upstream after_open run_or_close mark
late_stream = refl
