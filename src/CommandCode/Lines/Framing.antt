-- ===== src/CommandCode/Lines/Framing.antt =====
-- commandcode/protocol.go: the lines do not depend on how the bytes are cut into slices.
use mathlib.Core.List as List
use cpa_plugins.Base.{
  ℕ, ◌≡◌, inl, inr, refl, sym, ap, ◌∙◌, true, false, List, [], ◌∷◌, ◌++◌, Option, none, some,
  length, ltb, ◌==◌, ==_iff, All, All-append, if◌then◌else◌, ◌+◌, length-append, arith, Bool-cases,
}
use cpa_plugins.CommandCode.Lines.{
  Bytes, Slices, line_slice, full_slice, last_slice, broken_slice, LineError, line_too_long,
  read_failed, max_line_bytes, trim_suffix, flush, read_lines,
}

-- All bytes of the stream.
unfoldable pub content : Slices → Bytes
content (line_slice f rest) = f ++ content rest
content (full_slice f rest) = f ++ content rest
content (last_slice f) = f
content (broken_slice f e) = f

-- What a stream ends with.
unfoldable pub failure_of : Slices → Option LineError
failure_of (line_slice f rest) = failure_of rest
failure_of (full_slice f rest) = failure_of rest
failure_of (last_slice f) = none
failure_of (broken_slice f e) = some (read_failed e)

abbrev pub HasNoFeed : Bytes → Type 0
HasNoFeed = All (λ b. (b == 10) ≡ false)

-- What ReadSlice promises: a line feed ends a slice and stands nowhere else.
unfoldable pub IsSliced : Slices → Type 0
IsSliced (line_slice f rest) = ((g : Bytes) × (f ≡ g ++ (10 ∷ [])) × HasNoFeed g) × IsSliced rest
IsSliced (full_slice f rest) = HasNoFeed f × IsSliced rest
IsSliced (last_slice f) = HasNoFeed f
IsSliced (broken_slice f e) = HasNoFeed f

abbrev last_line : Bytes → List Bytes
last_line [] = []
last_line (b ∷ bs) = trim_suffix 13 (b ∷ bs) ∷ []

-- The result of reading a text byte by byte, with `line` the part of its current line that is read:
-- a line ends at a line feed, and the last may do without one if it is not empty; one carriage return
-- at its end does not belong to it. The first line of more than 16 MiB, its line feed counted, stops the
-- reading with an error.
unfoldable pub result_after : Bytes → Bytes → Option LineError → List Bytes × Option LineError
result_after line [] e =
    if ltb 16777216 (length line) then ([], some line_too_long) else (last_line line, e)
result_after line (b ∷ bs) e =
    let more = result_after (line ++ b ∷ []) bs e in
    let next = result_after [] bs e in
    if b == 10
    then if ltb 16777216 (length line + 1)
      then ([], some line_too_long)
      else (trim_suffix 13 line ∷ next.0, next.1)
    else more

-- Bytes without a line feed belong to the line.
result_after-append :
    (line f rest : Bytes) (e : Option LineError)
    → HasNoFeed f
    → result_after line (f ++ rest) e ≡ result_after (line ++ f) rest e
unfolding result_after
result_after-append line [] rest e h = ap (λ l. result_after l rest e) (sym (List.append-nil line))
result_after-append line (b ∷ f) rest e (k, h) =
    rw (k, if◌then◌else◌)
      (result_after-append (line ++ b ∷ []) f rest e h
        ∙ ap (λ l. result_after l rest e) (List.append_assoc line (b ∷ []) f))

longer :
    (line : Bytes) (b : ℕ)
    → ltb 16777216 (length line) ≡ true
    → ltb 16777216 (length (line ++ b ∷ [])) ≡ true
longer line b h = ground (arith, length-append line (b ∷ []))

-- A line that is too long already stops the reading.
result_after-long :
    (line rest : Bytes) (e : Option LineError)
    → ltb 16777216 (length line) ≡ true
    → result_after line rest e ≡ ([], some line_too_long)
unfolding result_after
result_after-long line [] e h = rw (h, if◌then◌else◌) refl
result_after-long line (b ∷ bs) e h = elim (Bool-cases (b == 10)) [
  | inl k ↦
      let full : ltb 16777216 (length line + 1) ≡ true = ground arith in
      rw (k, full, if◌then◌else◌) refl
  | inr k ↦ rw (k, if◌then◌else◌) (result_after-long (line ++ b ∷ []) bs e (longer line b h))
]

trim_suffix-append : (c : ℕ) (xs : Bytes) → trim_suffix c (xs ++ c ∷ []) ≡ xs
unfolding trim_suffix
trim_suffix-append c [] =
    let e : (c == c) ≡ true = (==_iff c c).1 refl in rw (e, if◌then◌else◌) refl
trim_suffix-append c (x ∷ []) = ap (◌∷◌ x) (trim_suffix-append c [])
trim_suffix-append c (x ∷ y ∷ ys) = ap (◌∷◌ x) (trim_suffix-append c (y ∷ ys))

trim_suffix-feed : (xs : Bytes) → HasNoFeed xs → trim_suffix 10 xs ≡ xs
unfolding trim_suffix
trim_suffix-feed [] h = refl
trim_suffix-feed (x ∷ []) (e, h) = rw (e, if◌then◌else◌) refl
trim_suffix-feed (x ∷ y ∷ ys) (e, h) = ap (◌∷◌ x) (trim_suffix-feed (y ∷ ys) h)

-- A pending line and its line feed are one line.
flush-feed : (xs : Bytes) → flush (xs ++ 10 ∷ []) ≡ trim_suffix 13 xs ∷ []
flush-feed [] = ap (λ l. trim_suffix 13 l ∷ []) (trim_suffix-append 10 [])
flush-feed (x ∷ xs) = ap (λ l. trim_suffix 13 l ∷ []) (trim_suffix-append 10 (x ∷ xs))

flush-last : (xs : Bytes) → HasNoFeed xs → flush xs ≡ last_line xs
flush-last [] h = refl
flush-last (x ∷ xs) h = ap (λ l. trim_suffix 13 l ∷ []) (trim_suffix-feed (x ∷ xs) h)

flushed :
    (pending g : Bytes) → flush (pending ++ (g ++ 10 ∷ [])) ≡ trim_suffix 13 (pending ++ g) ∷ []
flushed pending g =
    ap flush (sym (List.append_assoc pending g (10 ∷ []))) ∙ flush-feed (pending ++ g)

length-feed : (pending g : Bytes) → length (pending ++ (g ++ 10 ∷ [])) ≡ length (pending ++ g) + 1
length-feed pending g =
    ap length (sym (List.append_assoc pending g (10 ∷ []))) ∙ length-append (pending ++ g) (10 ∷ [])

-- At the end of the stream.
at_end :
    (pending f : Bytes) (e : Option LineError)
    → HasNoFeed pending
    → HasNoFeed f
    → (if ltb max_line_bytes (length (pending ++ f))
        then ([], some line_too_long)
        else (flush (pending ++ f), e))
      ≡ result_after pending f e
unfolding result_after
at_end pending f e h k =
    ap
      (λ l. if ltb max_line_bytes (length (pending ++ f)) then ([], some line_too_long) else (l, e))
      (flush-last (pending ++ f) (All-append (λ b. (b == 10) ≡ false) pending f h k))
    ∙ sym (result_after-append pending f [] e k)
    ∙ ap (λ bs. result_after pending bs e) (List.append-nil f)

-- A slice that ends a line.
line_step :
    (pending g : Bytes) (rest : Slices)
    → HasNoFeed g
    → read_lines [] rest ≡ result_after [] (content rest) (failure_of rest)
    → read_lines pending (line_slice (g ++ 10 ∷ []) rest)
      ≡ result_after pending ((g ++ 10 ∷ []) ++ content rest) (failure_of rest)
unfolding read_lines result_after
line_step pending g rest k ih =
    let next : List Bytes × Option LineError = result_after [] (content rest) (failure_of rest) in
    rw (ih, flushed pending g, length-feed pending g)
      (sym (
        ap (λ bs. result_after pending bs (failure_of rest))
          (List.append_assoc g (10 ∷ []) (content rest))
        ∙ result_after-append pending g (10 ∷ content rest) (failure_of rest) k))

read_lines-result :
    (pending : Bytes) (s : Slices)
    → HasNoFeed pending
    → IsSliced s
    → read_lines pending s ≡ result_after pending (content s) (failure_of s)
unfolding read_lines content failure_of IsSliced
read_lines-result pending (full_slice f rest) h (k, s) =
    elim (Bool-cases (ltb max_line_bytes (length (pending ++ f)))) [
      | inl long ↦
          rw (long, if◌then◌else◌)
            (sym (
              result_after-append pending f (content rest) (failure_of rest) k
              ∙ result_after-long (pending ++ f) (content rest) (failure_of rest) long))
      | inr short ↦
          rw (short, if◌then◌else◌)
            (read_lines-result (pending ++ f) rest
                (All-append (λ b. (b == 10) ≡ false) pending f h k) s
              ∙ sym (result_after-append pending f (content rest) (failure_of rest) k))
    ]
read_lines-result pending (line_slice f rest) h ((g, e, k), s) =
    rw e (line_step pending g rest k (read_lines-result [] rest tt s))
read_lines-result pending (last_slice f) h k = at_end pending f none h k
read_lines-result pending (broken_slice f e) h k = at_end pending f (some (read_failed e)) h k

-- What is read from a stream is what reading its bytes as a whole one by one gives, however these were
-- cut into slices and buffers: its lines, in order, each once, followed by the stream's own end. The
-- first line of more than 16 MiB, its line feed counted, ends the lines before it with an error, and
-- there is such an error only at such a line.
pub read_lines_lem :
    (s : Slices) → IsSliced s → read_lines [] s ≡ result_after [] (content s) (failure_of s)
read_lines_lem s h = read_lines-result [] s tt h
