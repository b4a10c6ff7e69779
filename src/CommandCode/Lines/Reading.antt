-- ===== src/CommandCode/Lines/Reading.antt =====
-- commandcode/plugin.go: the bytes that the reader gives.
use mathlib.Core.List as List
use cpa_plugins.Base.{
  ℕ, suc, ◌≡◌, ◌⊎◌, ◌≢◌, inl, inr, refl, sym, ap, subst, arith, length, ◌∙◌, Bool, true, false,
  List, [], ◌∷◌, ◌++◌, Option, none, some, take, drop, take-append-drop,
}
use cpa_plugins.CommandCode.Lines.{
  Bytes, HostRead, read_error, read_bytes, Reader, ReadResult, got, end_of_file, failed, fill,
  Filled, silent, erred, filled, read_filled, read,
}

-- The bytes that the host will still give, up to its end or error.
unfoldable pub upcoming : List HostRead → Bytes
upcoming [] = []
upcoming (read_error e ∷ answers) = []
upcoming (read_bytes payload true ∷ answers) = payload
upcoming (read_bytes payload false ∷ answers) = payload ++ upcoming answers

-- With those that are pending.
unfoldable pub remaining : Bytes → Bool → List HostRead → Bytes
remaining pending true answers = pending
remaining pending false answers = pending ++ upcoming answers

-- What a read takes off the bytes that remain.
unfoldable pub Takes : ReadResult → Bytes → Bytes → Type 0
Takes (got bytes) before after = (before ≡ bytes ++ after) × (bytes ≢ [])
Takes end_of_file before after = before ≡ []
Takes (failed e) before after = before ≡ []

-- The loop loses no bytes, and stops with something to give or at the end.
abbrev Keeps : Bytes → Filled → Type 0
Keeps before silent = Unit
Keeps before (erred e answers) = before ≡ []
Keeps before (filled pending done answers) =
    (before ≡ remaining pending done answers) × ((pending ≢ []) ⊎ (done ≡ true))

some_byte : (b : ℕ) (bs : Bytes) → (b ∷ bs) ≢ []
some_byte b bs e = let n = ap length e in omega arith

fill-Keeps :
    (pending : Bytes) (done : Bool) (answers : List HostRead)
    → Keeps (remaining pending done answers) (fill pending done answers)
unfolding fill remaining upcoming
fill-Keeps (b ∷ bs) done answers = (refl, inl (some_byte b bs))
fill-Keeps [] true answers = (refl, inr refl)
fill-Keeps [] false [] = tt
fill-Keeps [] false (read_error e ∷ answers) = refl
fill-Keeps [] false (read_bytes payload true ∷ answers) = fill-Keeps payload true answers
fill-Keeps [] false (read_bytes payload false ∷ answers) = fill-Keeps payload false answers

-- What a read that returns takes.
abbrev TakesOff : Bytes → Option (ReadResult × Reader × List HostRead) → Type 0
TakesOff before none = Unit
TakesOff before (some (result, r, answers)) =
    Takes result before (remaining r.pending r.done answers)

read_filled-TakesOff :
    (size : ℕ) (before : Bytes) (f : Filled)
    → Keeps before f
    → TakesOff before (read_filled (suc size) f)
unfolding read_filled Takes remaining
read_filled-TakesOff size before silent k = tt
read_filled-TakesOff size before (erred e answers) k = k
read_filled-TakesOff size before (filled [] true answers) (k, h) = k
read_filled-TakesOff size before (filled [] false answers) (k, inl h) = absurd (h refl)
read_filled-TakesOff size before (filled [] false answers) (k, inr h) = cc h
read_filled-TakesOff size before (filled (b ∷ bs) true answers) (k, h) =
    (k ∙ ap (◌∷◌ b) (sym (take-append-drop size bs)), some_byte b (take size bs))
read_filled-TakesOff size before (filled (b ∷ bs) false answers) (k, h) = (
  k
      ∙ ap (◌∷◌ b) (
          ap (λ l. l ++ upcoming answers) (sym (take-append-drop size bs))
          ∙ List.append_assoc (take size bs) (drop size bs) (upcoming answers)),
  some_byte b (take size bs),
)

-- A read into a buffer that is not empty gives some of the bytes that the host still has, in order, or
-- the end or an error only when no byte is left before it.
pub read_lem :
    (size : ℕ) (r : Reader) (answers : List HostRead) {result : ReadResult} {r' : Reader}
    {rest : List HostRead}
    → read (suc size) r answers ≡ some (result, r', rest)
    → Takes result (remaining r.pending r.done answers) (remaining r'.pending r'.done rest)
unfolding read
read_lem size r answers {result} {r'} {rest} e =
    subst (TakesOff (remaining r.pending r.done answers)) e (
      read_filled-TakesOff size _ (fill r.pending r.done answers)
        (fill-Keeps r.pending r.done answers))
