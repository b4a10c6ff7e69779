-- ===== src/CommandCode/Stream/Events/Arguments.antt =====
-- commandcode/protocol.go: the fragments of arguments that the client gets are those of the calls they
-- name.
use cpa_plugins.Base.{
  ℕ, zero, suc, ◌≡◌, refl, ap, ◌∙◌, inl, inr, String, List, [], ◌∷◌, ◌++◌, some, get_or, get_elem?,
  set, All, ◌++ₛ◌, ◌=ₛ◌, not, ◌&&◌, if◌then◌else◌, Bool-cases, Option-cases, map,
}
use cpa_plugins.CommandCode.Json.{Codec, Gjson}
use cpa_plugins.CommandCode.Stream.{
  ToolCall, no_call, State, Delta, tool_arguments, ensure_tool_call, ensure_known, anonymous_id,
  name_call, append_call, lookup_tool_call,
}
use cpa_plugins.CommandCode.Stream.Events
use cpa_plugins.CommandCode.Stream.Events.{EventType, handle_event, line_to_chunks, Reply, silent}
use cpa_plugins.CommandCode.Stream.Events.Cases.{line_cases}
use cpa_plugins.CommandCode.Stream.Events.Calls.{
  ids, IsIndexed, IsPrefixed, ValidDelta, Ensured, ensure_tool_call-Ensured, anonymous_id-same,
}
use cpa_plugins.CommandCode.Stream.Events.Run.{run_lines, run_lines-IsIndexed}

-- The arguments of the call at this place; those of a call that there is not are empty.
abbrev pub arguments_at : State → ℕ → String
arguments_at s i = (get_or s.tool_calls i no_call).arguments

-- A fragment of arguments is what the arguments of the call that it names grow by.
abbrev pub Appends : State → State → Delta → Type 0
Appends s t (tool_arguments i delta) = arguments_at t i ≡ arguments_at s i ++ₛ delta
Appends s t _ = Unit

abbrev AppendsAll : State → Reply → Type 0
AppendsAll s r = All (λ c. Appends s r.state c.delta) r.chunks

arguments-set :
    (cs : List ToolCall) (j : ℕ) (c : ToolCall) (i : ℕ)
    → c.arguments ≡ (get_or cs j no_call).arguments
    → (get_or (set cs j c) i no_call).arguments ≡ (get_or cs i no_call).arguments
arguments-set [] j c i e = refl
arguments-set (d ∷ cs) zero c zero e = e
arguments-set (d ∷ cs) zero c (suc i) e = refl
arguments-set (d ∷ cs) (suc j) c zero e = refl
arguments-set (d ∷ cs) (suc j) c (suc i) e = arguments-set cs j c i e

arguments-append :
    (cs : List ToolCall) (c : ToolCall) (i : ℕ)
    → c.arguments ≡ ""
    → (get_or (cs ++ c ∷ []) i no_call).arguments ≡ (get_or cs i no_call).arguments
arguments-append [] c zero e = e
arguments-append [] c (suc i) e = refl
arguments-append (d ∷ cs) c zero e = refl
arguments-append (d ∷ cs) c (suc i) e = arguments-append cs c i e

get_or-set :
    (cs : List ToolCall) (i : ℕ) (c : ToolCall) (id : String)
    → get_elem? (map (λ c. c.id) cs) i ≡ some id
    → get_or (set cs i c) i no_call ≡ c
get_or-set [] i c id h = cc h
get_or-set (d ∷ cs) zero c id h = refl
get_or-set (d ∷ cs) (suc i) c id h = get_or-set cs i c id h

name_call-arguments :
    (s : State) (j : ℕ) (name : String) (i : ℕ)
    → arguments_at (name_call s j name) i ≡ arguments_at s i
unfolding name_call
name_call-arguments s j name i =
    elim (Bool-cases (not (name =ₛ "") && (get_or s.tool_calls j no_call).name =ₛ "")) [
      | inl e ↦
          rw (e, if◌then◌else◌)
            (arguments-set s.tool_calls j (record (get_or s.tool_calls j no_call) { name = name }) i
              refl)
      | inr e ↦ rw (e, if◌then◌else◌) refl
    ]

ensure_known-arguments :
    (s : State) (id name : String) (i : ℕ)
    → arguments_at (ensure_known (id, s) name).1 i ≡ arguments_at s i
unfolding append_call
ensure_known-arguments s id name i = elim (Option-cases (s.index_by_id id)) [
  | inl e ↦ rw (e, ensure_known) (arguments-append s.tool_calls _ i refl)
  | inr (j, e) ↦ rw (e, ensure_known) (name_call-arguments s j name i)
]

-- To find or to add a call changes no arguments.
ensure_tool_call-arguments :
    (s : State) (id name : String) (i : ℕ)
    → arguments_at (ensure_tool_call s id name).1 i ≡ arguments_at s i
unfolding ensure_tool_call
ensure_tool_call-arguments s id name i =
    ensure_known-arguments (anonymous_id s id).1 (anonymous_id s id).0 name i
    ∙ ap (λ cs. (get_or cs i no_call).arguments) (anonymous_id-same s id).0

module _ (codec : Codec) (g : Gjson) where
  add_arguments-Appends :
      (s : State) (r : ℕ × State) (delta : String)
      → Ensured s r
      → ((i : ℕ) → arguments_at r.1 i ≡ arguments_at s i)
      → AppendsAll s (Events.add_arguments codec g r delta)
  unfolding Events.add_arguments
  add_arguments-Appends s (i, t) delta v same =
      let call : ToolCall = get_or t.tool_calls i no_call in
      (
        ap (λ c. c.arguments)
              (get_or-set t.tool_calls i (record call { arguments = call.arguments ++ₛ delta })
                v.place.0 v.place.1)
            ∙ ap (λ a. a ++ₛ delta) (same i),
        tt,
      )

  start_call-Appends : (s : State) (r : ℕ × State) → AppendsAll s (Events.start_call codec g r)
  unfolding Events.start_call
  start_call-Appends s (i, t) = elim (Bool-cases (t.started (get_or t.tool_calls i no_call).id)) [
    | inl e ↦ rw (e, if◌then◌else◌) tt
    | inr e ↦ rw (e, if◌then◌else◌) (tt, tt)
  ]

  client_call-Appends :
      (s s' : State) (id name arguments : String)
      → AppendsAll s (Events.client_call codec g s' id name arguments)
  unfolding Events.client_call Events.whole_call
  client_call-Appends s s' id name arguments = elim (Option-cases (lookup_tool_call s' id)) [
    | inl e ↦ rw (e, Events.client_call) (tt, tt)
    | inr (i, e) ↦ rw (e, Events.client_call) tt
  ]

  route_call-Appends :
      (s : State) (id : String) (s' : State) (root : g.Node)
      → AppendsAll s (Events.route_call codec g (id, s') root)
  unfolding Events.route_call
  route_call-Appends s id s' root = elim (Bool-cases (g.boolean (g.get root "providerExecuted"))) [
    | inl e ↦ rw (e, if◌then◌else◌) tt
    | inr e ↦ elim (Bool-cases (not (id =ₛ "") && s'.provider_executed id)) [
      | inl f ↦ rw (e, f, if◌then◌else◌) tt
      | inr f ↦ rw (e, f, if◌then◌else◌) (client_call-Appends s s' id _ _)
    ]
  ]

  on_finish-Appends : (s : State) (root : g.Node) → AppendsAll s (Events.on_finish codec g s root)
  unfolding Events.on_finish
  on_finish-Appends s root = elim (Bool-cases (Events.is_pause codec g root)) [
    | inl e ↦ rw (e, if◌then◌else◌) tt
    | inr e ↦ rw (e, if◌then◌else◌) (tt, tt)
  ]

  handle_event-Appends :
      (t : EventType) (s : State) (root : g.Node)
      → IsIndexed s
      → AppendsAll s (handle_event codec g t s root)
  unfolding handle_event Events.on_text Events.on_reasoning Events.on_input_start
      Events.on_input_delta Events.on_tool_call Events.on_finish_step Events.on_abort
      Events.on_error
  handle_event-Appends EventType.text_delta s root v = (tt, tt)
  handle_event-Appends EventType.reasoning_delta s root v = (tt, tt)
  handle_event-Appends EventType.input_start s root v = start_call-Appends s _
  handle_event-Appends EventType.input_delta s root v =
      let id = Events.event_id codec g root in
      let name = Events.event_name codec g root in
      add_arguments-Appends s (ensure_tool_call s id name) (Events.input_delta_text codec g root)
        (ensure_tool_call-Ensured s id name v) λ i. ensure_tool_call-arguments s id name i
  handle_event-Appends EventType.tool_call s root v =
      let called = Events.call_id codec g s (Events.event_id codec g root) in
      route_call-Appends s called.0 called.1 root
  handle_event-Appends EventType.finish_step s root v = tt
  handle_event-Appends EventType.finish s root v = on_finish-Appends s root
  handle_event-Appends EventType.abort s root v = tt
  handle_event-Appends EventType.error s root v = tt
  handle_event-Appends EventType.ignored s root v = tt

  line-Appends :
      (s : State) (line : String) → IsIndexed s → AppendsAll s (line_to_chunks codec g s line)
  line-Appends s line v =
      line_cases codec g (AppendsAll s) s line tt tt λ t root h. handle_event-Appends t s root v

  -- From a state whose index knows exactly the ids of the calls, each with its place, any lines lead
  -- to such a state, the ids of the calls being those before with new ones after them; each start of a
  -- call among the chunks names its place and the id that stands there, and each fragment of arguments
  -- the place of a call. A fragment that the line after them gives is what the arguments of the call at
  -- the place it names grow by.
  pub run_lines-Appends :
      (s : State) (lines : List String) (line : String)
      → IsIndexed s
      → let r = run_lines codec g s lines in
        let next = line_to_chunks codec g r.state line in
        IsIndexed r.state
        × IsPrefixed (ids s) (ids r.state)
        × All (λ c. ValidDelta r.state c.delta) r.chunks
        × All (λ c. Appends r.state next.state c.delta) next.chunks
  run_lines-Appends s lines line v =
      let (indexed, longer, valid) = run_lines-IsIndexed codec g s lines v in
      (indexed, longer, valid, line-Appends (run_lines codec g s lines).state line indexed)
