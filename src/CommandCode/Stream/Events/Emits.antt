-- ===== src/CommandCode/Stream/Events/Emits.antt =====
-- commandcode/protocol.go: how the chunks that a line gives relate to the state that it leaves.
use text.Mathlib.TextLemmas.{append-nil}
use cpa_plugins.Base.{
  ℕ, ◌≡◌, refl, sym, ap, ◌∙◌, ◌⊎◌, inl, inr, String, ◌++ₛ◌, true, not, ◌&&◌, List, [], ◌∷◌, none,
  some, arith, All, ◌=ₛ◌, if◌then◌else◌, Bool-cases, Option-cases, get_or, update,
}
use cpa_plugins.CommandCode.Json.{Codec, Gjson}
use cpa_plugins.CommandCode.Usage.{has_usage}
use cpa_plugins.CommandCode.Stream.{
  no_call, State, Delta, content, reasoning_content, Chunk, ensure_tool_call, anonymous_id,
  ensure_known, name_call, append_call, lookup_tool_call,
}
use cpa_plugins.CommandCode.Stream.Events
use cpa_plugins.CommandCode.Stream.Events.Cases.{line_cases}
use cpa_plugins.CommandCode.Stream.Events.{
  EventType, handle, handle_event, line_to_chunks, event_type, json_payload, Reply,
}

abbrev pub content_of : Delta → String
content_of (content s) = s
content_of _ = ""

abbrev pub reasoning_in : Delta → String
reasoning_in (reasoning_content s) = s
reasoning_in _ = ""

-- The text that the chunks carry, in order.
abbrev pub contents : List Chunk → String
contents [] = ""
contents (c ∷ cs) = content_of c.delta ++ₛ contents cs

abbrev pub reasonings : List Chunk → String
reasonings [] = ""
reasonings (c ∷ cs) = reasoning_in c.delta ++ₛ reasonings cs

abbrev pub IsOpen : Chunk → Type 0
IsOpen c = c.finish_reason ≡ none

-- The last of these chunks, and no other, has the finish reason, and the state is at its end.
abbrev pub Closes : List Chunk → State → Type 0
Closes [] t = ⊥
Closes (c ∷ []) t = (c.finish_reason ≡ some t.finish) × (t.terminal ≡ true)
Closes (c ∷ d ∷ cs) t = IsOpen c × Closes (d ∷ cs) t

-- The state has the text of the chunks, and only a chunk that ends the stream has a finish reason.
pub record Emits (s t : State) (cs : List Chunk) : Type 0 where
  pub texts : t.text ≡ s.text ++ₛ contents cs
  pub reasons : t.reasoning ≡ s.reasoning ++ₛ reasonings cs
  pub closing : All IsOpen cs ⊎ Closes cs t

-- A reply without text and without a finish reason.
quiet :
    (s : State) (r : Reply)
    → r.state.text ≡ s.text
    → r.state.reasoning ≡ s.reasoning
    → r.chunks ≡ []
    → Emits s r.state r.chunks
quiet s r e f k = rw k (record {
  texts = e ∙ sym (append-nil s.text);
  reasons = f ∙ sym (append-nil s.reasoning);
  closing = inl tt;
})

Keeps : State → State → Type 0
Keeps s t = (t.text ≡ s.text) × (t.reasoning ≡ s.reasoning)

anonymous_id-Keeps : (s : State) (id : String) → Keeps s (anonymous_id s id).1
unfolding Keeps anonymous_id
anonymous_id-Keeps s id = ground arith

ensure_known-Keeps : (p : String × State) (name : String) → Keeps p.1 (ensure_known p name).1
unfolding Keeps name_call append_call
ensure_known-Keeps (id, s) name = ground arith

ensure_tool_call-Keeps : (s : State) (id name : String) → Keeps s (ensure_tool_call s id name).1
unfolding Keeps ensure_tool_call
ensure_tool_call-Keeps s id name = (
  (ensure_known-Keeps (anonymous_id s id) name).0 ∙ (anonymous_id-Keeps s id).0,
  (ensure_known-Keeps (anonymous_id s id) name).1 ∙ (anonymous_id-Keeps s id).1,
)

Emits-from : {s s' t : State} {cs : List Chunk} → Keeps s s' → Emits s' t cs → Emits s t cs
unfolding Keeps
Emits-from {cs = cs} (e, f) v = record {
  texts = v.texts ∙ ap (λ x. x ++ₛ contents cs) e;
  reasons = v.reasons ∙ ap (λ x. x ++ₛ reasonings cs) f;
  closing = v.closing;
}

-- A chunk for a tool call.
for_tool :
    (s t : State) (c : Chunk)
    → Keeps s t
    → content_of c.delta ≡ ""
    → reasoning_in c.delta ≡ ""
    → IsOpen c
    → Emits s t (c ∷ [])
unfolding Keeps
for_tool s t c (e, f) a b o = record {
  texts = e ∙ sym (append-nil s.text) ∙ ap (λ x. s.text ++ₛ (x ++ₛ "")) (sym a);
  reasons = f ∙ sym (append-nil s.reasoning) ∙ ap (λ x. s.reasoning ++ₛ (x ++ₛ "")) (sym b);
  closing = inl (o, tt);
}

module _ (codec : Codec) (g : Gjson) where
  start_call-Emits :
      (p : ℕ × State)
      → Emits p.1 (Events.start_call codec g p).state (Events.start_call codec g p).chunks
  unfolding Events.start_call Keeps
  start_call-Emits (i, s) = elim (Bool-cases (s.started (get_or s.tool_calls i no_call).id)) [
    | inl e ↦ rw (e, if◌then◌else◌) (quiet s (Events.silent s) refl refl refl)
    | inr e ↦ rw (e, if◌then◌else◌) (for_tool s _ _ (refl, refl) refl refl refl)
  ]

  add_arguments-Emits :
      (p : ℕ × State) (delta : String)
      → let r = Events.add_arguments codec g p delta in Emits p.1 r.state r.chunks
  unfolding Events.add_arguments Keeps
  add_arguments-Emits (i, s) delta = for_tool s _ _ (refl, refl) refl refl refl

  whole_call-Emits :
      (p : ℕ × State) (arguments : String)
      → let r = Events.whole_call codec g p arguments in Emits p.1 r.state r.chunks
  unfolding Events.whole_call Keeps
  whole_call-Emits (i, s) arguments = for_tool s _ _ (refl, refl) refl refl refl

  known_call-Keeps :
      (s : State) (i : ℕ) (name arguments : String)
      → Keeps s (Events.set_arguments codec g (name_call s i name) i arguments)
  unfolding Keeps Events.set_arguments name_call
  known_call-Keeps s i name arguments = ground arith

  client_call-Emits :
      (s : State) (id name arguments : String)
      → let r = Events.client_call codec g s id name arguments in Emits s r.state r.chunks
  unfolding Events.client_call Keeps
  client_call-Emits s id name arguments = elim (Option-cases (lookup_tool_call s id)) [
    | inl e ↦
        rw (e, Events.client_call)
          (Emits-from {s = s} (ensure_tool_call-Keeps s id name) (whole_call-Emits _ arguments))
    | inr (i, e) ↦
        rw (e, Events.client_call)
          (quiet s (Events.silent (Events.set_arguments codec g (name_call s i name) i arguments))
            (known_call-Keeps s i name arguments).0 (known_call-Keeps s i name arguments).1 refl)
  ]

  provider_call-Keeps :
      (s : State) (id : String)
      → Keeps s (
          if not (id =ₛ "")
          then record s { provider_executed = update s.provider_executed id true }
          else s)
  unfolding Keeps
  provider_call-Keeps s id = ground arith

  route_call-Emits :
      (id : String) (s : State) (root : g.Node)
      → let r = Events.route_call codec g (id, s) root in Emits s r.state r.chunks
  unfolding Events.route_call Keeps
  route_call-Emits id s root = elim (Bool-cases (g.boolean (g.get root "providerExecuted"))) [
    | inl e ↦
        rw (e, if◌then◌else◌)
          (quiet s (Events.silent _) (provider_call-Keeps s id).0 (provider_call-Keeps s id).1 refl)
    | inr e ↦ elim (Bool-cases (not (id =ₛ "") && s.provider_executed id)) [
      | inl f ↦ rw (e, f, if◌then◌else◌) (quiet s (Events.silent s) refl refl refl)
      | inr f ↦ rw (e, f, if◌then◌else◌) (client_call-Emits s id _ _)
    ]
  ]

  call_id-Keeps : (s : State) (id : String) → Keeps s (Events.call_id codec g s id).1
  unfolding Keeps Events.call_id
  call_id-Keeps s id = ground arith

  close_anonymous-Keeps : (s : State) (id : String) → Keeps s (Events.close_anonymous codec g s id)
  unfolding Keeps
  close_anonymous-Keeps s id = ground arith

  on_text-Emits :
      (s : State) (root : g.Node)
      → let r = Events.on_text codec g s root in Emits s r.state r.chunks
  unfolding Events.on_text
  on_text-Emits s root = record {
    texts = ap (◌++ₛ◌ s.text) (sym (append-nil (g.string (g.get root "text"))));
    reasons = sym (append-nil s.reasoning);
    closing = inl (refl, tt);
  }

  on_reasoning-Emits :
      (s : State) (root : g.Node)
      → let r = Events.on_reasoning codec g s root in Emits s r.state r.chunks
  unfolding Events.on_reasoning
  on_reasoning-Emits s root = record {
    texts = sym (append-nil s.text);
    reasons = ap (◌++ₛ◌ s.reasoning) (sym (append-nil (g.string (g.get root "text"))));
    closing = inl (refl, tt);
  }

  on_finish-Emits :
      (s : State) (root : g.Node)
      → let r = Events.on_finish codec g s root in Emits s r.state r.chunks
  unfolding Events.on_finish Events.settle_usage
  on_finish-Emits s root = elim (Bool-cases (Events.is_pause codec g root)) [
    | inl e ↦
        rw (e, if◌then◌else◌)
          (record {
            texts = sym (append-nil s.text);
            reasons = sym (append-nil s.reasoning);
            closing = inl tt;
          })
    | inr e ↦
        rw (e, if◌then◌else◌)
          (record {
            texts = sym (append-nil s.text);
            reasons = sym (append-nil s.reasoning);
            closing = inr (refl, refl);
          })
  ]

  on_finish_step-Keeps :
      (s : State) (root : g.Node) → Keeps s (Events.on_finish_step codec g s root).state
  unfolding Keeps Events.on_finish_step
  on_finish_step-Keeps s root = elim (Bool-cases (has_usage (Events.usage_of_event codec g root))) [
    | inl e ↦ rw (e, if◌then◌else◌) (refl, refl)
    | inr e ↦ rw (e, if◌then◌else◌) (refl, refl)
  ]

  handle_event-Emits :
      (t : EventType) (s : State) (root : g.Node)
      → let r = handle_event codec g t s root in Emits s r.state r.chunks
  unfolding handle_event Keeps Events.on_input_start Events.on_input_delta Events.on_tool_call
      Events.on_finish_step Events.on_abort Events.on_error Events.settle_usage
  handle_event-Emits EventType.text_delta s root = on_text-Emits s root
  handle_event-Emits EventType.reasoning_delta s root = on_reasoning-Emits s root
  handle_event-Emits EventType.input_start s root =
      let id = Events.event_id codec g root in
      let s' = Events.close_anonymous codec g s id in
      Emits-from {s = s} (close_anonymous-Keeps s id) (
        Emits-from {s = s'} (ensure_tool_call-Keeps s' id (Events.event_name codec g root))
          (start_call-Emits (ensure_tool_call s' id (Events.event_name codec g root))))
  handle_event-Emits EventType.input_delta s root =
      let id = Events.event_id codec g root in
      Emits-from {s = s} (ensure_tool_call-Keeps s id (Events.event_name codec g root))
        (add_arguments-Emits (ensure_tool_call s id (Events.event_name codec g root)) _)
  handle_event-Emits EventType.tool_call s root =
      let id = Events.event_id codec g root in
      Emits-from {s = s} (call_id-Keeps s id)
        (route_call-Emits (Events.call_id codec g s id).0 (Events.call_id codec g s id).1 root)
  handle_event-Emits EventType.finish_step s root =
      quiet s (Events.on_finish_step codec g s root) (on_finish_step-Keeps s root).0
        (on_finish_step-Keeps s root).1 refl
  handle_event-Emits EventType.finish s root = on_finish-Emits s root
  handle_event-Emits EventType.abort s root =
      quiet s (Events.on_abort codec g s root) refl refl refl
  handle_event-Emits EventType.error s root =
      quiet s (Events.on_error codec g s root) refl refl refl
  handle_event-Emits EventType.ignored s root = quiet s (Events.silent s) refl refl refl

  pub line-Emits :
      (s : State) (line : String)
      → let r = line_to_chunks codec g s line in Emits s r.state r.chunks
  line-Emits s line =
      line_cases codec g (λ r. Emits s r.state r.chunks) s line
        (quiet s (Events.silent s) refl refl refl)
        (quiet s (Events.silent (record s { saw_done = true })) refl refl refl)
        (λ t root h. handle_event-Emits t s root)
