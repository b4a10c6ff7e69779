-- ===== src/CommandCode/Stream/Events/Run.antt =====
-- commandcode/protocol.go and plugin.go: the lines of one upstream response in a row.
use text.Mathlib.TextLemmas.{append-nil, append_assoc, nil-append}
use mathlib.Core.List
use cpa_plugins.Base.{
  ℕ, ◌≡◌, sym, ap, ◌∙◌, inl, inr, String, ◌++ₛ◌, Bool, ◌||◌, List, [], ◌∷◌, ◌++◌, Option, none,
  some, All, All-append, All-map, subst, ◌=ₛ◌, if◌then◌else◌, Option-cases, get_elem?,
}
use cpa_plugins.CommandCode.Json.{Codec, Gjson}
use cpa_plugins.CommandCode.Errors.{StreamError, status_error}
use cpa_plugins.CommandCode.Stream.{
  State, Delta, Chunk, tool_start, tool_arguments, no_delta, content, reasoning_content,
}
use cpa_plugins.CommandCode.Stream.Events.{line_to_chunks}
use cpa_plugins.CommandCode.Stream.Events.Calls.{
  ids, IsIndexed, Grows-IsIndexed, Grows-prefix, get_elem?-append_left, IsPrefixed, ValidDelta,
}
use cpa_plugins.CommandCode.Stream.Events.Steps.{line-Stepped}
use cpa_plugins.CommandCode.Stream.Events.Emits.{line-Emits, contents, reasonings}

-- The state, the chunks emitted and the error that stopped the reading.
pub record Read : Type 0 where
  pub state : State
  pub chunks : List Chunk
  pub failure : Option StreamError

module _ (codec : Codec) (g : Gjson) where
  -- The calls of `handle` for each line, until one gives an error.
  unfoldable pub run_lines : State → List String → Read
  run_lines s [] = record { state = s; chunks = []; failure = none }
  run_lines s (line ∷ lines) =
      let r = line_to_chunks codec g s line in
      let rest = run_lines r.state lines in
      elim r.failure [
        | some e ↦ record { state = r.state; chunks = r.chunks; failure = some e }
        | none ↦ record {
          state = rest.state;
          chunks = r.chunks ++ rest.chunks;
          failure = rest.failure;
        }
      ]

  abbrev is_complete : State → Bool
  is_complete s = s.terminal || s.finish =ₛ "pause_turn"

  abbrev or_incomplete : Read → Option StreamError
  or_incomplete r = elim r.failure [
    | some e ↦ some e
    | none ↦
        if is_complete r.state
        then none
        else some (
            status_error 502
              "CommandCode stream ended unexpectedly before completion (no finish event)")
  ]

  -- collectCommandCodeStreamState, over the lines read.
  unfoldable pub collect : State → List String → State × Option StreamError
  collect s lines = let r = run_lines s lines in (r.state, or_incomplete r)

  -- What holds of no line, and of one line more when it holds of the lines after, holds of a run.
  pub run_rule {ℓ} :
      (P : State → State → List Chunk → Type ℓ)
      → ((s : State) → P s s [])
      → ((s : State) (line : String) (t : State) (cs : List Chunk)
          → let r = line_to_chunks codec g s line in P r.state t cs → P s t (r.chunks ++ cs))
      → (s : State) (lines : List String) → P s (run_lines s lines).state (run_lines s lines).chunks
  unfolding run_lines
  run_rule P none' more s [] = none' s
  run_rule P none' more s (line ∷ lines) =
      let r = line_to_chunks codec g s line in
      elim (Option-cases r.failure) [
        | inl e ↦ rw (e, run_lines) (more s line _ _ (run_rule P none' more r.state lines))
        | inr (x, e) ↦
            rw (e, run_lines)
              (subst (P s r.state) (List.append-nil r.chunks)
                (more s line r.state [] (none' r.state)))
      ]

  contents-append : (cs ds : List Chunk) → contents (cs ++ ds) ≡ contents cs ++ₛ contents ds
  contents-append [] ds = sym (nil-append (contents ds))
  contents-append (c ∷ cs) ds =
      ap (◌++ₛ◌ _) (contents-append cs ds) ∙ sym (append_assoc _ (contents cs) (contents ds))

  reasonings-append : (cs ds : List Chunk) → reasonings (cs ++ ds) ≡ reasonings cs ++ₛ reasonings ds
  reasonings-append [] ds = sym (nil-append (reasonings ds))
  reasonings-append (c ∷ cs) ds =
      ap (◌++ₛ◌ _) (reasonings-append cs ds) ∙ sym (append_assoc _ (reasonings cs) (reasonings ds))

  -- A client that joins the streamed deltas gets the text and the reasoning that the buffered answer
  -- has, whatever the lines and also where an error stops them.
  pub run_lines-text :
      (s : State) (lines : List String)
      → let r = run_lines s lines in
        (r.state.text ≡ s.text ++ₛ contents r.chunks)
        × (r.state.reasoning ≡ s.reasoning ++ₛ reasonings r.chunks)
  run_lines-text =
      run_rule
        (λ s t cs.
          (t.text ≡ s.text ++ₛ contents cs) × (t.reasoning ≡ s.reasoning ++ₛ reasonings cs))
        (λ s. (sym (append-nil s.text), sym (append-nil s.reasoning)))
        λ s line t cs h.
          let r = line_to_chunks codec g s line in
          let v = line-Emits codec g s line in
          (
            h.0
                ∙ ap (λ x. x ++ₛ contents cs) v.texts
                ∙ append_assoc s.text (contents r.chunks) (contents cs)
                ∙ ap (◌++ₛ◌ s.text) (sym (contents-append r.chunks cs)),
            h.1
                ∙ ap (λ x. x ++ₛ reasonings cs) v.reasons
                ∙ append_assoc s.reasoning (reasonings r.chunks) (reasonings cs)
                ∙ ap (◌++ₛ◌ s.reasoning) (sym (reasonings-append r.chunks cs)),
          )

  get_elem?-prefixed :
      (xs ys : List String) (i : ℕ) (x : String)
      → IsPrefixed xs ys
      → get_elem? xs i ≡ some x
      → get_elem? ys i ≡ some x
  get_elem?-prefixed xs ys i x (zs, e) h =
      ap (λ l. get_elem? l i) e ∙ get_elem?-append_left xs zs i x h

  ValidDelta-mono :
      (s t : State) (d : Delta) → IsPrefixed (ids s) (ids t) → ValidDelta s d → ValidDelta t d
  ValidDelta-mono s t (tool_start i id name arguments) p v = get_elem?-prefixed _ _ i id p v
  ValidDelta-mono s t (tool_arguments i delta) p (id, v) = (id, get_elem?-prefixed _ _ i id p v)
  ValidDelta-mono s t no_delta p v = tt
  ValidDelta-mono s t (content x) p v = tt
  ValidDelta-mono s t (reasoning_content x) p v = tt

  IsPrefixed-trans :
      (xs ys zs : List String) → IsPrefixed xs ys → IsPrefixed ys zs → IsPrefixed xs zs
  IsPrefixed-trans xs ys zs (a, e) (b, f) =
      (a ++ b, f ∙ ap (λ l. l ++ b) e ∙ List.append_assoc xs a b)

  -- Over a run from a state whose index is right, the index stays right, no call is lost or moved,
  -- every start chunk names the final place of the call with its id, and every fragment a place of one.
  pub run_lines-IsIndexed :
      (s : State) (lines : List String)
      → IsIndexed s
      → let r = run_lines s lines in
        IsIndexed r.state
        × IsPrefixed (ids s) (ids r.state)
        × All (λ c. ValidDelta r.state c.delta) r.chunks
  run_lines-IsIndexed =
      run_rule
        (λ s t cs.
          IsIndexed s
          → IsIndexed t × IsPrefixed (ids s) (ids t) × All (λ c. ValidDelta t c.delta) cs)
        (λ s v. (v, ([], sym (List.append-nil (ids s))), tt))
        λ s line t cs h v.
          let r = line_to_chunks codec g s line in
          let step = line-Stepped codec g s line v in
          let (last, rest, valid) = h (Grows-IsIndexed {s = s} {t = r.state} step.grows v) in
          (
            last,
            IsPrefixed-trans (ids s) (ids r.state) (ids t)
                (Grows-prefix {s = s} {t = r.state} step.grows) rest,
            All-append (λ c. ValidDelta t c.delta) r.chunks cs
                (All-map (λ c. ValidDelta-mono r.state t c.delta rest) r.chunks step.valid) valid,
          )
