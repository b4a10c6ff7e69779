-- ===== src/CommandCode/Stream/Events/Cases.antt =====
-- commandcode/protocol.go: what a line can be, as one rule for proofs about it.
use cpa_plugins.Base.{
  ◌≡◌, refl, ◌⊎◌, inl, inr, String, Bool, true, false, not, ◌&&◌, ◌||◌, ◌=ₛ◌, if◌then◌else◌,
  Bool-cases, trim_space,
}
use cpa_plugins.CommandCode.Json.{Codec, Gjson}
use cpa_plugins.CommandCode.Stream.{State}
use cpa_plugins.CommandCode.Stream.Events
use cpa_plugins.CommandCode.Stream.Events.{
  EventType, error, handle, handle_event, line_to_chunks, event_type, json_payload, Reply, silent,
}

module _ (codec : Codec) (g : Gjson) where
  live_or_error :
      (b : Bool) (t : EventType)
      → (b && not (Events.is_error codec g t)) ≡ false
      → (b ≡ false) ⊎ (t ≡ error)
  live_or_error true error h = inr refl
  live_or_error false t h = inl refl
  live_or_error true t h = cc

  -- A line has no effect, is the end mark, or is an event; at the end of the stream only an error is.
  pub line_cases {ℓ} :
      (P : Reply → Type ℓ) (s : State) (line : String)
      → P (silent s)
      → P (silent (record s { saw_done = true }))
      → ((t : EventType) (root : g.Node)
          → (s.terminal ≡ false) ⊎ (t ≡ error)
          → P (handle_event codec g t s root))
      → P (line_to_chunks codec g s line)
  unfolding line_to_chunks handle
  line_cases P s line nothing done event =
      elim (Bool-cases (trim_space line =ₛ "[DONE]" || trim_space line =ₛ "data: [DONE]")) [
        | inl e ↦ rw (e, if◌then◌else◌) done
        | inr e ↦ elim (Bool-cases (json_payload codec g line =ₛ "")) [
          | inl f ↦ rw (e, f, if◌then◌else◌) nothing
          | inr f ↦ elim (Bool-cases (not (g.is_object (g.parse (json_payload codec g line))))) [
            | inl k ↦ rw (e, f, k, if◌then◌else◌) nothing
            | inr k ↦ rw (e, f, k, if◌then◌else◌) object
          ]
        ]
      ]
    where
      root : g.Node
      root = g.parse (json_payload codec g line)

      t : EventType
      t = event_type (g.string (g.get root "type"))

      object : P (handle codec g s root)
      object = elim (Bool-cases (s.terminal && not (Events.is_error codec g t))) [
        | inl e ↦ rw (e, if◌then◌else◌) nothing
        | inr e ↦ rw (e, if◌then◌else◌) (event t root (live_or_error s.terminal t e))
      ]
