-- ===== src/CommandCode/Stream/Events/Ends.antt =====
-- commandcode/protocol.go: the end of a stream, its finish reason and its usage.
use mathlib.Core.List
use cpa_plugins.Base.{
  ◌≡◌, refl, sym, ap, ◌∙◌, ◌⊎◌, inl, inr, String, true, false, List, [], ◌∷◌, ◌++◌, some, All,
  All-append, subst, if◌then◌else◌, Bool-cases,
}
use cpa_plugins.CommandCode.Json.{Codec, Gjson}
use cpa_plugins.CommandCode.Stream.{State, Chunk}
use cpa_plugins.CommandCode.Stream.Events
use cpa_plugins.CommandCode.Stream.Events.{
  EventType, error, finish, handle_event, line_to_chunks, Reply, silent, map_finish_reason,
}
use cpa_plugins.CommandCode.Stream.Events.Cases.{line_cases}
use cpa_plugins.CommandCode.Stream.Events.Emits.{line-Emits, IsOpen, Closes}
use cpa_plugins.CommandCode.Stream.Events.Run.{run_lines, run_rule}

-- The same state, but for saw_done.
abbrev pub Same : State → State → Type 0
Same s t = ◌≡◌ {A = State} (record t { saw_done = false }) (record s { saw_done = false })

Closes-terminal : (cs : List Chunk) (t : State) → Closes cs t → t.terminal ≡ true
Closes-terminal [] t h = absurd h
Closes-terminal (c ∷ []) t h = h.1
Closes-terminal (c ∷ d ∷ cs) t h = Closes-terminal (d ∷ cs) t h.1

Closes-append : (cs ds : List Chunk) (t : State) → All IsOpen cs → Closes ds t → Closes (cs ++ ds) t
Closes-append [] ds t h k = k
Closes-append (c ∷ []) [] t h k = absurd k
Closes-append (c ∷ []) (d ∷ ds) t h k = (h.0, k)
Closes-append (c ∷ d ∷ cs) ds t h k = (h.0, Closes-append (d ∷ cs) ds t h.1 k)

Closes-Same : (cs : List Chunk) (s t : State) → Same s t → Closes cs s → Closes cs t
Closes-Same [] s t e h = h
Closes-Same (c ∷ []) s t e h = (h.0 ∙ ap (λ x. some x.finish) (sym e), ap (λ x. x.terminal) e ∙ h.1)
Closes-Same (c ∷ d ∷ cs) s t e h = (h.0, Closes-Same (d ∷ cs) s t e h.1)

module _ (codec : Codec) (g : Gjson) where
  terminal_line :
      (s : State) (line : String)
      → s.terminal ≡ true
      → let r = line_to_chunks codec g s line in (r.chunks ≡ []) × Same s r.state
  terminal_line s line h =
      line_cases codec g (λ r. (r.chunks ≡ []) × Same s r.state) s line (refl, refl) (refl, refl)
        after
    where
      after :
          (t : EventType) (root : g.Node)
          → (s.terminal ≡ false) ⊎ (t ≡ error)
          → let r = handle_event codec g t s root in (r.chunks ≡ []) × Same s r.state
      after t root (inl e) = cc
      after t root (inr e) = rw e (unfold handle_event Events.on_error in (refl, refl))

  -- A terminal state in front of a run that keeps terminal states.
  frozen :
      (s : State) (line : String) (t : State) (cs : List Chunk)
      → let r = line_to_chunks codec g s line in
        (r.state.terminal ≡ true → (cs ≡ []) × Same r.state t)
        → s.terminal ≡ true
        → (r.chunks ++ cs ≡ []) × Same s t
  frozen s line t cs rest h =
      let step = terminal_line s line h in
      let (none', same) = rest (ap (λ x. x.terminal) step.1 ∙ h) in
      (ap (λ ds. ds ++ cs) step.0 ∙ none', same ∙ step.1)

  -- From a state at the stream's end no line adds a chunk or changes anything but saw_done.
  run_lines-terminal :
      (s : State) (lines : List String)
      → s.terminal ≡ true
      → let r = run_lines codec g s lines in (r.chunks ≡ []) × Same s r.state
  run_lines-terminal =
      run_rule codec g (λ s t cs. s.terminal ≡ true → (cs ≡ []) × Same s t) (λ s h. (refl, refl))
        (λ s line t cs rest h. frozen s line t cs rest h)

  -- An event that ends the stream: an abort event, or a finish event that does not pause.
  abbrev pub IsEnding : g.Node → Type 0
  IsEnding root =
      (g.string (g.get root "type") ≡ "abort")
      ⊎ ((g.string (g.get root "type") ≡ "finish") × (Events.is_pause codec g root ≡ false))

  on_finish-terminal :
      (s : State) (root : g.Node)
      → Events.is_pause codec g root ≡ false
      → (Events.on_finish codec g s root).state.terminal ≡ true
  unfolding Events.on_finish
  on_finish-terminal s root h = rw (h, if◌then◌else◌) refl

  handle-terminal :
      (s : State) (root : g.Node)
      → IsEnding root
      → (Events.handle codec g s root).state.terminal ≡ true
  unfolding Events.handle Events.event_type handle_event Events.on_abort Events.settle_usage
  handle-terminal s root (inl e) = elim (Bool-cases s.terminal) [
    | inl h ↦ rw (e, h, if◌then◌else◌) refl
    | inr h ↦ rw (e, h, if◌then◌else◌) refl
  ]
  handle-terminal s root (inr (e, k)) = elim (Bool-cases s.terminal) [
    | inl h ↦ rw (e, h, if◌then◌else◌) refl
    | inr h ↦ rw (e, h, if◌then◌else◌) (on_finish-terminal (record s { terminal = false }) root k)
  ]

  -- An abort event, and a finish event that does not pause, leave the state at the stream's end; after
  -- it no line adds a chunk or changes anything but saw_done: a late text, tool call or second finish
  -- cannot reach the client.
  pub handle-ends :
      (s : State) (root : g.Node) (lines : List String)
      → IsEnding root
      → let after = Events.handle codec g s root in
        let r = run_lines codec g after.state lines in
        (after.state.terminal ≡ true) × (r.chunks ≡ []) × Same after.state r.state
  handle-ends s root lines e =
      let h = handle-terminal s root e in
      let (silent', same) = run_lines-terminal (Events.handle codec g s root).state lines h in
      (h, silent', same)

  -- At most one chunk of a run has a finish reason; it is the last one, it has the reason that the
  -- state keeps, and the state is then at its end.
  pub run_lines-closing :
      (s : State) (lines : List String)
      → let r = run_lines codec g s lines in All IsOpen r.chunks ⊎ Closes r.chunks r.state
  run_lines-closing s lines = (both s lines).0
    where
      P : State → State → List Chunk → Type 0
      P s t cs = (All IsOpen cs ⊎ Closes cs t) × (s.terminal ≡ true → (cs ≡ []) × Same s t)

      step :
          (s : State) (line : String) (t : State) (cs : List Chunk)
          → let r = line_to_chunks codec g s line in
            All IsOpen r.chunks ⊎ Closes r.chunks r.state → P r.state t cs → P s t (r.chunks ++ cs)
      step s line t cs (inl o) (inl q, h) = (
        inl (All-append IsOpen (line_to_chunks codec g s line).chunks cs o q),
        frozen s line t cs h,
      )
      step s line t cs (inl o) (inr q, h) = (
        inr (Closes-append (line_to_chunks codec g s line).chunks cs t o q),
        frozen s line t cs h,
      )
      step s line t cs (inr c) (q, h) =
          let r = line_to_chunks codec g s line in
          let (none', same) = h (Closes-terminal r.chunks r.state c) in
          (
            inr (
                subst (λ l. Closes l t) (sym (ap (◌++◌ r.chunks) none' ∙ List.append-nil r.chunks))
                  (Closes-Same r.chunks r.state t same c)),
            frozen s line t cs h,
          )

      both :
          (s : State) (lines : List String)
          → P s (run_lines codec g s lines).state (run_lines codec g s lines).chunks
      both =
          run_rule codec g P (λ s. (inl tt, λ h. (refl, refl)))
            λ s line t cs h. step s line t cs (line-Emits codec g s line).closing h
