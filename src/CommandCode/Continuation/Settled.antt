-- ===== src/CommandCode/Continuation/Settled.antt =====
-- commandcode/plugin.go: the ends of a streamed reply.
use cpa_plugins.Base.{
  ℕ, zero, suc, ◌+◌, ◌≡◌, ◌⊎◌, refl, sym, subst, inl, inr, String, Bool, true, false, not, ◌||◌,
  List, [], ◌∷◌, ◌++◌, Option, none, some, length, ◌=ₛ◌, eq_iff, if◌then◌else◌, Bool-cases,
}
use cpa_plugins.CommandCode.Json.{Codec, Gjson}
use cpa_plugins.CommandCode.Errors.{StreamError, Failure}
use cpa_plugins.CommandCode.Stream.{State, Chunk, reset_continuation}
use cpa_plugins.CommandCode.Stream.Events.{Reply, line_to_chunks}
use cpa_plugins.CommandCode.Continuation.{
  Effect, opened, emitted, emitted_done, closed_upstream, closed_output, quiescing_failure,
  incomplete_stream, Opening, open_failed, open_as, close_http, stop_chunk, unless_broken,
  after_reopen, failing, emit_chunks, after_line, read_lines, unless_failed, finish_output,
  after_read, reopen, stream_from, stream,
}

-- The upstream stream of this id is closed, or there is none.
unfoldable pub IsClosed : String → List Effect → Type 0
IsClosed id [] = id ≡ ""
IsClosed id (closed_upstream other ∷ es) = (other ≡ id) ⊎ IsClosed id es
IsClosed id (_ ∷ es) = IsClosed id es

-- Nothing but closing upstream streams.
unfoldable pub OnlyCloses : List Effect → Type 0
OnlyCloses [] = Unit
OnlyCloses (closed_upstream id ∷ es) = OnlyCloses es
OnlyCloses (_ ∷ es) = ⊥

-- The client's output is closed once, nothing is sent to the client and nothing is opened after it,
-- and every upstream stream that is opened is closed later.
unfoldable pub IsSettled : List Effect → Type 0
IsSettled [] = ⊥
IsSettled (closed_output f ∷ es) = OnlyCloses es
IsSettled (opened id ∷ es) = IsClosed id es × IsSettled es
IsSettled (_ ∷ es) = IsSettled es

-- A run from a stream whose upstream has this id.
abbrev pub Settles : String → List Effect → Type 0
Settles id es = IsClosed id es × IsSettled es

-- Only emissions of chunks.
abbrev Emissions : List Effect → Type 0
Emissions [] = Unit
Emissions (emitted c ∷ es) = Emissions es
Emissions (_ ∷ es) = ⊥

Settles-Emissions :
    (id : String) (es fs : List Effect) → Emissions es → Settles id fs → Settles id (es ++ fs)
unfolding IsClosed IsSettled
Settles-Emissions id [] fs h s = s
Settles-Emissions id (emitted c ∷ es) fs h s = Settles-Emissions id es fs h s
Settles-Emissions id (opened x ∷ es) fs h s = absurd h
Settles-Emissions id (emitted_done ∷ es) fs h s = absurd h
Settles-Emissions id (closed_upstream x ∷ es) fs h s = absurd h
Settles-Emissions id (closed_output f ∷ es) fs h s = absurd h

Emissions-append : (es fs : List Effect) → Emissions es → Emissions fs → Emissions (es ++ fs)
Emissions-append [] fs h k = k
Emissions-append (emitted c ∷ es) fs h k = Emissions-append es fs h k
Emissions-append (opened x ∷ es) fs h k = absurd h
Emissions-append (emitted_done ∷ es) fs h k = absurd h
Emissions-append (closed_upstream x ∷ es) fs h k = absurd h
Emissions-append (closed_output f ∷ es) fs h k = absurd h

close_http-IsClosed : (id : String) → IsClosed id (close_http id)
unfolding IsClosed close_http
close_http-IsClosed id = elim (Bool-cases (id =ₛ "")) [
  | inl e ↦ rw (e, if◌then◌else◌) ((eq_iff id "").0 e)
  | inr e ↦ rw (e, if◌then◌else◌) (inl refl)
]

close_http-OnlyCloses : (id : String) → OnlyCloses (close_http id)
unfolding OnlyCloses close_http
close_http-OnlyCloses id = elim (Bool-cases (id =ₛ "")) [
  | inl e ↦ rw (e, if◌then◌else◌) tt
  | inr e ↦ rw (e, if◌then◌else◌) tt
]

-- Closing the output and then the upstream.
closing-Settles : (f : Option Failure) (id : String) → Settles id (closed_output f ∷ close_http id)
unfolding IsClosed IsSettled
closing-Settles f id = (close_http-IsClosed id, close_http-OnlyCloses id)

blank-IsClosed : (es : List Effect) → IsClosed "" es
unfolding IsClosed
blank-IsClosed [] = refl
blank-IsClosed (closed_upstream x ∷ es) = inr (blank-IsClosed es)
blank-IsClosed (opened x ∷ es) = blank-IsClosed es
blank-IsClosed (emitted c ∷ es) = blank-IsClosed es
blank-IsClosed (emitted_done ∷ es) = blank-IsClosed es
blank-IsClosed (closed_output f ∷ es) = blank-IsClosed es

-- Closing the upstream before something else.
close_http-IsSettled :
    (id : String) (es : List Effect) → IsSettled es → Settles id (close_http id ++ es)
unfolding IsClosed IsSettled close_http
close_http-IsSettled id es h = elim (Bool-cases (id =ₛ "")) [
  | inl e ↦
      rw (e, if◌then◌else◌)
        (subst (λ x. IsClosed x es) (sym ((eq_iff id "").0 e)) (blank-IsClosed es), h)
  | inr e ↦ rw (e, if◌then◌else◌) (inl refl, h)
]

unless_broken-Emissions :
    (c : Chunk) (o : Option Failure) (rest : List Effect × Option Failure)
    → Emissions rest.0
    → Emissions (unless_broken c o rest).0
unfolding unless_broken
unless_broken-Emissions c (some f) rest h = tt
unless_broken-Emissions c none (es, f) h = h

-- What holds of both choices of an `if`, each in its case.
if_holds :
    (P : List Effect → Type 0) (b : Bool) (x y : List Effect)
    → (b ≡ true → P x)
    → (b ≡ false → P y)
    → P (if b then x else y)
if_holds P true x y f g = f refl
if_holds P false x y f g = g refl

or_not : (a b : Bool) → (a || not b) ≡ false → b ≡ true
or_not true b e = cc e
or_not false true e = refl
or_not false false e = cc e

after_reopen-IsSettled :
    (b : Bool) (o : Opening) (next : String → List Effect)
    → ((id : String) → Settles id (next id))
    → IsSettled (after_reopen b o next)
unfolding after_reopen IsSettled
after_reopen-IsSettled b (open_failed f id) next h = close_http-OnlyCloses id
after_reopen-IsSettled b (open_as id) next h =
    if_holds (Settles id) (not b) _ _
      (λ e.
        close_http-IsSettled id (closed_output (some quiescing_failure) ∷ close_http id)
          (close_http-OnlyCloses id))
      λ e. h id

module _ (emit : ℕ → Chunk → Option Failure) where
  emit_chunks-Emissions : (n : ℕ) (cs : List Chunk) → Emissions (emit_chunks emit n cs).0
  unfolding emit_chunks
  emit_chunks-Emissions n [] = tt
  emit_chunks-Emissions n (c ∷ cs) =
      unless_broken-Emissions c (emit n c) (emit_chunks emit (suc n) cs)
        (emit_chunks-Emissions (suc n) cs)

  module _ (codec : Codec) (g : Gjson) where
    after_line-Emissions :
        (sent : List Effect × Option Failure) (s : State)
        (rest : State × List Effect × Option Failure)
        → Emissions sent.0
        → Emissions rest.1
        → Emissions (after_line emit codec g sent s rest).1
    unfolding after_line
    after_line-Emissions (es, some f) s rest h k = h
    after_line-Emissions (es, none) s (t, es', f) h k = Emissions-append es es' h k

    read_lines-Emissions :
        (n : ℕ) (s : State) (lines : List String) (broken : Option Failure)
        → Emissions (read_lines emit codec g n s lines broken).1
    unfolding read_lines failing
    read_lines-Emissions n s [] broken = tt
    read_lines-Emissions n s (line ∷ lines) broken =
        let r : Reply = line_to_chunks codec g s line in
        let sent = emit_chunks emit n r.chunks in
        from r.failure r.state
          (after_line emit codec g sent r.state
            (read_lines emit codec g (n + length sent.0) r.state lines broken))
          (after_line-Emissions sent r.state
            (read_lines emit codec g (n + length sent.0) r.state lines broken)
            (emit_chunks-Emissions n r.chunks)
            (read_lines-Emissions (n + length sent.0) r.state lines broken))
      where
        from :
            (o : Option StreamError) (t : State) (rest : State × List Effect × Option Failure)
            → Emissions rest.1
            → Emissions (failing o t rest).1
        from (some e) t rest h = tt
        from none t rest h = h

    finish_output-Settles :
        (n : ℕ) (id : String) (s : State) → Settles id (finish_output emit codec g n id s)
    unfolding finish_output unless_failed IsClosed IsSettled
    finish_output-Settles n id s =
        if_holds (Settles id) (s.finish =ₛ "pause_turn") _ _
          (λ e. from (emit n (stop_chunk emit codec g s))) λ e. closing-Settles none id
      where
        from : (o : Option Failure) → Settles id (unless_failed emit codec g o id)
        from (some f) = closing-Settles (some f) id
        from none = closing-Settles none id

    after_read-Settles :
        (n : ℕ) (id : String) (f : Option Failure) (s : State) (continue : List Effect) (may : Bool)
        → (may ≡ true → Settles id continue)
        → Settles id (after_read emit codec g n id f s continue may)
    unfolding after_read
    after_read-Settles n id (some f) s continue may h = closing-Settles (some f) id
    after_read-Settles n id none s continue may h =
        if_holds (Settles id) _ _ _ (λ e. closing-Settles (some incomplete_stream) id)
          λ e.
            if_holds (Settles id) (not (s.finish =ₛ "pause_turn") || not may) _ _
              (λ e'. finish_output-Settles n id s) λ e'. h (or_not _ may e')

    module _ (upstream : ℕ → List String × Option Failure) (canceled registered : ℕ → Bool)
        (open_upstream : ℕ → Opening) where
      reopen-Settles :
          (k : ℕ) (id : String) (next : String → List Effect)
          → ((id' : String) → Settles id' (next id'))
          → Settles id (reopen emit codec g upstream canceled registered open_upstream k id next)
      unfolding reopen
      reopen-Settles k id next h = close_http-IsSettled id _ (
          if_holds IsSettled (canceled k) (closed_output (some quiescing_failure) ∷ close_http id)
            (after_reopen (registered k) (open_upstream k) next)
            (λ e. (closing-Settles (some quiescing_failure) id).1)
            λ e. after_reopen-IsSettled (registered k) (open_upstream k) next h)

      stream_from-Settles :
          (remaining k n : ℕ) (id : String) (s : State)
          → Settles id (
              stream_from emit codec g upstream canceled registered open_upstream remaining k n id
                s)
      unfolding stream_from
      stream_from-Settles zero k n id s =
          let r = read_lines emit codec g n s (upstream k).0 (upstream k).1 in
          Settles-Emissions id r.1 _ (read_lines-Emissions n s (upstream k).0 (upstream k).1)
            (after_read-Settles (n + length r.1) id r.2 r.0 [] false λ e. cc e)
      stream_from-Settles (suc remaining) k n id s =
          let r = read_lines emit codec g n s (upstream k).0 (upstream k).1 in
          Settles-Emissions id r.1 _ (read_lines-Emissions n s (upstream k).0 (upstream k).1) (
            after_read-Settles (n + length r.1) id r.2 r.0 _ true λ e. reopen-Settles k id _ λ id'.
              stream_from-Settles remaining (suc k) (n + length r.1) id' (reset_continuation r.0))

      -- However a streamed reply ends (a read, emission or reopen that fails, a plugin that quiesces, a
      -- stream that breaks off, too many pauses or its regular end), the client's output is
      -- closed exactly once, nothing is sent to the client or opened after that, and every upstream
      -- stream, the first one and those of the continuations, is closed.
      pub stream-Settles :
          (id : String) (s : State)
          → Settles id (stream emit codec g upstream canceled registered open_upstream id s)
      unfolding stream
      stream-Settles id s = stream_from-Settles 5 0 0 id s
