-- ===== src/Forward/Decisions/Batches.antt =====
-- embeddings-forward/decisions.go: the batches of `split`.
use mathlib.Core.List as List
use cpa_plugins.Base.{
  ℕ, zero, suc, ◌<◌, ◌≤◌, ◌≡◌, refl, ap, ◌∙◌, inl, inr, List, [], ◌∷◌, ◌++◌, ℤ, pos, negsuc, length,
  take, drop, take-append-drop, length-drop, length-take, leb, leb→le, if◌then◌else◌, Bool-cases,
  All, arith,
}
use cpa_plugins.Forward.Decisions.{Field, chunks, split}

-- The batches one after another.
unfoldable pub joined : List (List Field) → List Field
joined [] = []
joined (b ∷ bs) = b ++ joined bs

abbrev pub IsBatch : ℕ → List Field → Type 0
IsBatch size batch = (0 < length batch) × (length batch ≤ size)

chunks_lem :
    (fuel size : ℕ) (qs : List Field)
    → 0 < size
    → length qs ≤ fuel
    → (joined (chunks fuel size qs) ≡ qs) × All (IsBatch size) (chunks fuel size qs)
unfolding chunks joined
chunks_lem zero size [] h le = (refl, tt)
chunks_lem zero size (q ∷ qs) h le = absurd (omega arith)
chunks_lem (suc fuel) size [] h le = (refl, tt)
chunks_lem (suc fuel) size (q ∷ qs) h le =
    let l1 = length-take size (q ∷ qs) in
    let l2 = length-drop size (q ∷ qs) in
    let (whole, bounds) = chunks_lem fuel size (drop size (q ∷ qs)) h (omega arith) in
    (
      ap (λ rest. take size (q ∷ qs) ++ rest) whole ∙ take-append-drop size (q ∷ qs),
      ((omega arith, omega arith), bounds),
    )

-- A batch respects a cap above 0; there is no other.
unfoldable pub IsWithin : ℤ → List Field → Type 0
IsWithin (negsuc n) batch = 0 < length batch
IsWithin (pos zero) batch = 0 < length batch
IsWithin (pos (suc n)) batch = IsBatch (suc n) batch

-- Where there is at least one question, the batches hold the questions, each once and in order, and none
-- of them is empty or, for a cap above 0, larger than the cap.
pub split_lem :
    (questions : List Field) (cap : ℤ)
    → 0 < length questions
    → (joined (split questions cap) ≡ questions) × All (IsWithin cap) (split questions cap)
unfolding split joined IsWithin
split_lem questions (negsuc n) h = (List.append-nil questions, (h, tt))
split_lem questions (pos zero) h = (List.append-nil questions, (h, tt))
split_lem questions (pos (suc n)) h = elim (Bool-cases (leb (suc n) 0)) [
  | inl e ↦ let le = leb→le (suc n) 0 e in absurd (omega arith)
  | inr e ↦ elim (Bool-cases (leb (length questions) (suc n))) [
    | inl k ↦
        rw (e, k, if◌then◌else◌)
          (List.append-nil questions, ((h, leb→le (length questions) (suc n) k), tt))
    | inr k ↦
        rw (e, k, if◌then◌else◌)
          (chunks_lem (length questions) (suc n) questions (omega arith) (omega arith))
  ]
]
