-- ===== src/CommandCode/Stream/Events/Reasons.antt =====
-- commandcode/protocol.go: a pause in the spelling with a dash.
use cpa_plugins.Base.{◌≡◌, refl, true, [], ◌∷◌, some, trim_space, lower_is, equal_fold}
use cpa_plugins.CommandCode.Json.{Codec, Gjson}
use cpa_plugins.CommandCode.Usage.{openai_usage}
use cpa_plugins.CommandCode.Stream.{State, stream_chunk, no_delta}
use cpa_plugins.CommandCode.Stream.Events
use cpa_plugins.CommandCode.Stream.Events.{finish, handle_event, map_finish_reason}

module _ (codec : Codec) (g : Gjson) where
  -- A finish event without a raw reason and with the reason "pause-turn", in lower case, is not
  -- recognised as a pause: it gives the client a closing chunk, with the reason "pause_turn" and the
  -- usage, and leaves the state at the stream's end. What the loop over the continuations does then is
  -- not stated.
  pub pause-turn_ends :
      (s : State) (root : g.Node)
      → g.string (g.get root "rawFinishReason") ≡ ""
      → g.string (g.get root "finishReason") ≡ "pause-turn"
      → let r = handle_event codec g finish s root in
        (r.chunks ≡ stream_chunk s no_delta (some "pause_turn") (openai_usage r.state.usage) ∷ [])
        × (r.state.finish ≡ "pause_turn")
        × (r.state.terminal ≡ true)
  unfolding handle_event Events.on_finish Events.settle_usage trim_space equal_fold lower_is
      map_finish_reason
  pause-turn_ends s root raw reason = rw (raw, reason) (refl, refl, refl)
