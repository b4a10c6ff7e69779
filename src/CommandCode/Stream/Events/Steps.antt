-- ===== src/CommandCode/Stream/Events/Steps.antt =====
-- commandcode/protocol.go: every line of the event stream keeps the tool calls and their index in step.
use cpa_plugins.Base.{
  ℕ, ◌≡◌, refl, ap, inl, inr, String, not, ◌&&◌, arith, map, ◌=ₛ◌, if◌then◌else◌, Bool-cases,
}
use cpa_plugins.CommandCode.Json.{Codec, Gjson}
use cpa_plugins.CommandCode.Stream.{State}
use cpa_plugins.CommandCode.Stream.Events
use cpa_plugins.CommandCode.Stream.Events.{
  EventType, handle, handle_event, line_to_chunks, event_type, json_payload, Reply, silent,
}
use cpa_plugins.CommandCode.Usage.{has_usage}
use cpa_plugins.CommandCode.Stream.Events.Cases.{line_cases}
use cpa_plugins.CommandCode.Stream.Events.Calls.{
  IsIndexed, same, Grows-from, Grows-IsIndexed, Stepped, unchanged, start_call-Stepped,
  add_arguments-Stepped, client_call-Stepped, ensure_tool_call-Ensured, Ensured,
}

-- A step from a state with the same calls.
Stepped-from :
    {s s' : State} {r : Reply}
    → s'.tool_calls ≡ s.tool_calls
    → s'.index_by_id ≡ s.index_by_id
    → Stepped s' r
    → Stepped s r
Stepped-from {s} {s'} e f v = record {
  grows = Grows-from {s = s} {s' = s'} e f v.grows;
  valid = v.valid;
}

Ensured-from :
    {s s' : State} {r : ℕ × State}
    → s'.tool_calls ≡ s.tool_calls
    → s'.index_by_id ≡ s.index_by_id
    → Ensured s' r
    → Ensured s r
Ensured-from {s} {s'} e f v = record {
  grows = Grows-from {s = s} {s' = s'} e f v.grows;
  place = v.place;
}

IsIndexed-from :
    (s s' : State)
    → s'.tool_calls ≡ s.tool_calls
    → s'.index_by_id ≡ s.index_by_id
    → IsIndexed s
    → IsIndexed s'
IsIndexed-from s s' e f v =
    Grows-IsIndexed {s = s} {t = s'} (same (ap (λ cs. map (λ c. c.id) cs) e) f) v

module _ (codec : Codec) (g : Gjson) where
  call_id-same :
      (s : State) (id : String)
      → ((Events.call_id codec g s id).1.tool_calls ≡ s.tool_calls)
        × ((Events.call_id codec g s id).1.index_by_id ≡ s.index_by_id)
  unfolding Events.call_id
  call_id-same s id = ground arith

  route_call-Stepped :
      (id : String) (s : State) (root : g.Node)
      → IsIndexed s
      → Stepped s (Events.route_call codec g (id, s) root)
  unfolding Events.route_call
  route_call-Stepped id s root v = elim (Bool-cases (g.boolean (g.get root "providerExecuted"))) [
    | inl e ↦ rw (e, if◌then◌else◌) (unchanged s _ (ground arith) (ground arith) tt)
    | inr e ↦ elim (Bool-cases (not (id =ₛ "") && s.provider_executed id)) [
      | inl f ↦ rw (e, f, if◌then◌else◌) (unchanged s _ refl refl tt)
      | inr f ↦ rw (e, f, if◌then◌else◌) (client_call-Stepped codec g s id _ _ v)
    ]
  ]

  close_anonymous-same :
      (s : State) (id : String)
      → ((Events.close_anonymous codec g s id).tool_calls ≡ s.tool_calls)
        × ((Events.close_anonymous codec g s id).index_by_id ≡ s.index_by_id)
  close_anonymous-same s id = elim (Bool-cases (id =ₛ "")) [
    | inl e ↦ rw e (refl, refl)
    | inr e ↦ rw e (refl, refl)
  ]

  on_input_start-Stepped :
      (s : State) (root : g.Node) → IsIndexed s → Stepped s (Events.on_input_start codec g s root)
  unfolding Events.on_input_start
  on_input_start-Stepped s root v = start_call-Stepped codec g s _ (
      Ensured-from {s = s} {s' = s'} e f (
        ensure_tool_call-Ensured s' (Events.event_id codec g root) (Events.event_name codec g root)
          (IsIndexed-from s s' e f v)))
    where
      s' : State
      s' = Events.close_anonymous codec g s (Events.event_id codec g root)

      e : s'.tool_calls ≡ s.tool_calls
      e = (close_anonymous-same s (Events.event_id codec g root)).0

      f : s'.index_by_id ≡ s.index_by_id
      f = (close_anonymous-same s (Events.event_id codec g root)).1

  on_tool_call-Stepped :
      (s : State) (root : g.Node) → IsIndexed s → Stepped s (Events.on_tool_call codec g s root)
  unfolding Events.on_tool_call
  on_tool_call-Stepped s root v =
      Stepped-from {s = s} {s' = called.1} e f
        (route_call-Stepped called.0 called.1 root (IsIndexed-from s called.1 e f v))
    where
      called : String × State
      called = Events.call_id codec g s (Events.event_id codec g root)

      e : called.1.tool_calls ≡ s.tool_calls
      e = (call_id-same s (Events.event_id codec g root)).0

      f : called.1.index_by_id ≡ s.index_by_id
      f = (call_id-same s (Events.event_id codec g root)).1

  on_finish_step-Stepped :
      (s : State) (root : g.Node) → Stepped s (Events.on_finish_step codec g s root)
  unfolding Events.on_finish_step
  on_finish_step-Stepped s root =
      elim (Bool-cases (has_usage (Events.usage_of_event codec g root))) [
        | inl e ↦ rw (e, if◌then◌else◌) (unchanged s _ refl refl tt)
        | inr e ↦ rw (e, if◌then◌else◌) (unchanged s _ refl refl tt)
      ]

  on_finish-Stepped : (s : State) (root : g.Node) → Stepped s (Events.on_finish codec g s root)
  unfolding Events.on_finish Events.settle_usage
  on_finish-Stepped s root = elim (Bool-cases (Events.is_pause codec g root)) [
    | inl e ↦ rw (e, if◌then◌else◌) (unchanged s _ refl refl tt)
    | inr e ↦ rw (e, if◌then◌else◌) (unchanged s _ refl refl (tt, tt))
  ]

  handle_event-Stepped :
      (t : EventType) (s : State) (root : g.Node)
      → IsIndexed s
      → Stepped s (handle_event codec g t s root)
  unfolding handle_event Events.on_text Events.on_reasoning Events.on_input_delta Events.on_abort
      Events.on_error Events.settle_usage
  handle_event-Stepped EventType.text_delta s root v = unchanged s _ refl refl (tt, tt)
  handle_event-Stepped EventType.reasoning_delta s root v = unchanged s _ refl refl (tt, tt)
  handle_event-Stepped EventType.input_start s root v = on_input_start-Stepped s root v
  handle_event-Stepped EventType.input_delta s root v =
      add_arguments-Stepped codec g s _ _ (ensure_tool_call-Ensured s _ _ v)
  handle_event-Stepped EventType.tool_call s root v = on_tool_call-Stepped s root v
  handle_event-Stepped EventType.finish_step s root v = on_finish_step-Stepped s root
  handle_event-Stepped EventType.finish s root v = on_finish-Stepped s root
  handle_event-Stepped EventType.abort s root v = unchanged s _ refl refl tt
  handle_event-Stepped EventType.error s root v = unchanged s _ refl refl tt
  handle_event-Stepped EventType.ignored s root v = unchanged s _ refl refl tt

  pub line-Stepped :
      (s : State) (line : String) → IsIndexed s → Stepped s (line_to_chunks codec g s line)
  line-Stepped s line v =
      line_cases codec g (Stepped s) s line (unchanged s _ refl refl tt)
        (unchanged s _ refl refl tt) (λ t root h. handle_event-Stepped t s root v)
