-- ===== src/CommandCode/Continuation.antt =====
-- commandcode/plugin.go: the goroutine that streams a reply (`stream`), over the upstream streams of its
-- continuations. What the host does is given by parameters: the lines of a continuation's upstream and
-- the failure that ends them, the failure of an emission, by the number of emissions before, and what
-- opening, cancelling and registering give.
pub mod Settled
use cpa_plugins.Base.{
  ℕ, zero, suc, ◌+◌, String, Bool, true, false, not, ◌&&◌, ◌||◌, List, [], ◌∷◌, ◌++◌, Option, none,
  some, length, ◌=ₛ◌, if◌then◌else◌,
}
use cpa_plugins.CommandCode.Json.{Codec, Gjson}
use cpa_plugins.CommandCode.Usage.{openai_usage}
use cpa_plugins.CommandCode.Errors.{StreamError, Failure, failure}
use cpa_plugins.CommandCode.Stream.{State, Chunk, stream_chunk, no_delta, reset_continuation}
use cpa_plugins.CommandCode.Stream.Events.{Reply, line_to_chunks}

-- The calls of the host, but for the reads.
pub data Effect : Type 0 where
  opened : String → Effect
  emitted : Chunk → Effect
  emitted_done : Effect
  closed_upstream : String → Effect
  closed_output : Option Failure → Effect

abbrev pub quiescing_failure : Failure
quiescing_failure = record {
  code = "plugin_quiescing";
  message = "Command Code plugin is quiescing";
  retryable = true;
  http_status = 503;
  scope = "request";
}

abbrev pub incomplete_stream : Failure
incomplete_stream = record {
  code = "incomplete_stream";
  message = "CommandCode stream ended unexpectedly before completion";
  retryable = false;
  http_status = 502;
  scope = "request";
}

-- `open` fails with the stream id of its response.
pub data Opening : Type 0 where
  open_failed : Failure → String → Opening
  open_as : String → Opening

unfoldable pub close_http : String → List Effect
close_http id = if id =ₛ "" then [] else closed_upstream id ∷ []

-- A line with an error has no chunks.
unfoldable pub failing :
    Option StreamError
    → State
    → State × List Effect × Option Failure
    → State × List Effect × Option Failure
failing (some e) s rest = (s, [], some (failure e))
failing none s rest = rest

-- A failure ends the emissions.
unfoldable pub unless_broken :
    Chunk → Option Failure → List Effect × Option Failure → List Effect × Option Failure
unless_broken c (some f) rest = (emitted c ∷ [], some f)
unless_broken c none (es, f) = (emitted c ∷ es, f)

-- The next upstream stream, which is closed if it cannot be registered.
unfoldable pub after_reopen : Bool → Opening → (String → List Effect) → List Effect
after_reopen registered (open_failed f id) next = closed_output (some f) ∷ close_http id
after_reopen registered (open_as id) next =
    opened id
    ∷ (if not registered
        then close_http id ++ closed_output (some quiescing_failure) ∷ close_http id
        else next id)

module _ (emit : ℕ → Chunk → Option Failure) where
  -- `for _, chunk := range chunks`
  unfoldable pub emit_chunks : ℕ → List Chunk → List Effect × Option Failure
  emit_chunks n [] = ([], none)
  emit_chunks n (c ∷ cs) = let rest = emit_chunks (suc n) cs in unless_broken c (emit n c) rest

  module _ (codec : Codec) (g : Gjson) where
    -- What follows the emissions of a line.
    unfoldable pub after_line :
        List Effect × Option Failure
        → State
        → State × List Effect × Option Failure
        → State × List Effect × Option Failure
    after_line (es, some f) s rest = (s, es, some f)
    after_line (es, none) s (t, es', f) = (t, es ++ es', f)

    -- The lines of one upstream, which end with `broken`.
    unfoldable pub read_lines :
        ℕ → State → List String → Option Failure → State × List Effect × Option Failure
    read_lines n s [] broken = (s, [], broken)
    read_lines n s (line ∷ lines) broken =
        let r : Reply = line_to_chunks codec g s line in
        let sent = emit_chunks n r.chunks in
        let rest = read_lines (n + length sent.0) r.state lines broken in
        failing r.failure r.state (after_line sent r.state rest)

    -- The stream's regular end.
    abbrev end_output : String → List Effect
    end_output id = emitted_done ∷ closed_output none ∷ close_http id

    abbrev pub stop_chunk : State → Chunk
    stop_chunk s = stream_chunk s no_delta (some "stop") (openai_usage s.usage)

    unfoldable pub unless_failed : Option Failure → String → List Effect
    unless_failed (some f) id = closed_output (some f) ∷ close_http id
    unless_failed none id = end_output id

    -- After the loop, with the last chunk of a reply that still pauses.
    unfoldable pub finish_output : ℕ → String → State → List Effect
    finish_output n id s =
        if s.finish =ₛ "pause_turn"
        then emitted (stop_chunk s) ∷ unless_failed (emit n (stop_chunk s)) id
        else end_output id

    -- A turn of the loop after its lines; `continue` is what a paused reply goes on with.
    unfoldable pub after_read :
        ℕ → String → Option Failure → State → List Effect → Bool → List Effect
    after_read n id (some f) s continue may = closed_output (some f) ∷ close_http id
    after_read n id none s continue may =
        if not s.terminal && not (s.finish =ₛ "pause_turn")
        then closed_output (some incomplete_stream) ∷ close_http id
        else if not (s.finish =ₛ "pause_turn") || not may
        then finish_output n id s
        else continue

    module _ (upstream : ℕ → List String × Option Failure) (canceled registered : ℕ → Bool)
        (open_upstream : ℕ → Opening) where
      -- `next` goes on with the upstream stream of that id. The deferred close is that of the last
      -- response, so that a stream is closed twice when the loop stops here.
      unfoldable pub reopen : ℕ → String → (String → List Effect) → List Effect
      reopen k id next =
          close_http id
          ++ (if canceled k
              then closed_output (some quiescing_failure) ∷ close_http id
              else after_reopen (registered k) (open_upstream k) next)

      -- `remaining` continuations may follow the k-th one.
      unfoldable pub stream_from : ℕ → ℕ → ℕ → String → State → List Effect
      stream_from zero k n id s =
          let (t, es, f) = read_lines n s (upstream k).0 (upstream k).1 in
          es ++ after_read (n + length es) id f t [] false
      stream_from (suc remaining) k n id s =
          let (t, es, f) = read_lines n s (upstream k).0 (upstream k).1 in
          es
          ++ after_read (n + length es) id f t
              (reopen k id
                λ id'. stream_from remaining (suc k) (n + length es) id' (reset_continuation t))
              true

      -- `stream`, with commandCodeContinuationLimit.
      unfoldable pub stream : String → State → List Effect
      stream id s = stream_from 5 0 0 id s
