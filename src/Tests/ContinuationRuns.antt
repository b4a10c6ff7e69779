-- ===== src/Tests/ContinuationRuns.antt =====
-- commandcode/plugin.go: a reply that pauses once.
use cpa_plugins.Base.{ℕ, zero, suc, String, Bool, true, false, List, [], ◌∷◌, Option, none}
use cpa_plugins.CommandCode.Errors.{Failure}
use cpa_plugins.CommandCode.Stream.{Chunk}
use cpa_plugins.CommandCode.Continuation.{Opening, open_as, stream}
use cpa_plugins.CommandCode.Continuation.Settled.{Settles, stream-Settles}
use cpa_plugins.Tests.StreamRuns.{codec, g, start}

abbrev no_failure : ℕ → Chunk → Option Failure
no_failure n c = none

-- The first upstream pauses, the second one finishes.
abbrev upstream : ℕ → List String × Option Failure
upstream zero = ("text" ∷ "hold" ∷ [], none)
upstream (suc k) = ("text" ∷ "finish" ∷ [], none)

abbrev never : ℕ → Bool
never k = false

abbrev always : ℕ → Bool
always k = true

abbrev reopened : ℕ → Opening
reopened k = open_as "up2"

stream_example :
    Settles "up1" (stream no_failure codec g upstream never always reopened "up1" start)
stream_example = stream-Settles no_failure codec g upstream never always reopened "up1" start
