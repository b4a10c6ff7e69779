-- ===== src/Forward/Decisions/Excuses.antt =====
-- embeddings-forward/decisions.go: why a decision gives no answers.
use mathlib.Core.List.{Memᴰ}
use mathlib.Core.List.Memᴰ.{head, tail}
use cpa_plugins.Base.{ℕ, suc, ◌≡◌, ◌⊎◌, refl, inl, inr, String, List, [], ◌∷◌, Option, none, some}
use cpa_plugins.Forward.Calls.{UpstreamResult, Outcome, success, final, next_key, next_provider}
use cpa_plugins.Forward.Decisions.{
  Field, AnswerMap, Merge, answer_one, take_answers, Progress, unless_stopped, stopped, going,
  succeeded, merge_result, merge_batches,
}
use cpa_plugins.Forward.Decisions.Known.{Ongoing, batches_rule}

-- The response that stopped the round, if one did.
abbrev pub Stops : (UpstreamResult → Type 0) → Progress → Type 0
Stops P (stopped r) = P r
Stops P (going m) = Unit

-- Nothing is tried again, or there is a reason.
abbrev pub Excused : Type 0 → Merge → Type 0
Excused L m = (m.retry ≡ []) ⊎ L

module _ (parse_answers : String → Option AnswerMap) where
  -- The result of a batch leaves a question without an answer: it is no success, or its body has no
  -- answers, or none for one of the questions.
  abbrev pub Lacks : UpstreamResult × Outcome → List Field → Type 0
  Lacks (r, success) batch =
      (parse_answers r.body ≡ none)
      ⊎ ((got : AnswerMap) × (q : Field) × (parse_answers r.body ≡ some got)
          × Memᴰ q batch
          × (got q.key ≡ none))
  Lacks (r, final) batch = Unit
  Lacks (r, next_key) batch = Unit
  Lacks (r, next_provider) batch = Unit

  one-Stops :
      (P : UpstreamResult → Type 0) (x : UpstreamResult × Outcome) (batch : List Field) (m : Merge)
      (next : Merge → Progress)
      → ((r : UpstreamResult) → x ≡ (r, final) → P r)
      → ((m' : Merge) → Stops P (next m'))
      → Stops P (unless_stopped stopped (merge_result parse_answers x batch m) next)
  unfolding unless_stopped merge_result
  one-Stops P (r, final) batch m next f k = f r refl
  one-Stops P (r, success) batch m next f k = k _
  one-Stops P (r, next_key) batch m next f k = k _
  one-Stops P (r, next_provider) batch m next f k = k _

  -- A round is stopped by a result that is final.
  pub batches-Stops :
      (P : UpstreamResult → Type 0) (results : ℕ → List Field → UpstreamResult × Outcome)
      → ((i : ℕ) (batch : List Field) (r : UpstreamResult) → results i batch ≡ (r, final) → P r)
      → (i : ℕ) (batches : List (List Field)) (m : Merge)
      → Stops P (merge_batches parse_answers results i batches m)
  unfolding merge_batches
  batches-Stops P results f i [] m = tt
  batches-Stops P results f i (batch ∷ batches) m =
      one-Stops P (results i batch) batch m _ (f i batch)
        λ m'. batches-Stops P results f (suc i) batches m'

  one-Excused :
      (L : Type 0) (o : Option String) (q : Field) (m : Merge)
      → (o ≡ none → L)
      → Excused L m
      → Excused L (answer_one o q m)
  unfolding answer_one
  one-Excused L none q m lack e = inr (lack refl)
  one-Excused L (some a) q m lack e = e

  take-Excused :
      (L : Type 0) (got : AnswerMap) (qs : List Field) (m : Merge)
      → ((q : Field) → Memᴰ q qs → got q.key ≡ none → L)
      → Excused L m
      → Excused L (take_answers got qs m)
  unfolding take_answers
  take-Excused L got [] m lack e = e
  take-Excused L got (q ∷ qs) m lack e =
      take-Excused L got qs (answer_one (got q.key) q m) (λ p h. lack p (tail h))
        (one-Excused L (got q.key) q m (lack q (head refl)) e)

  succeeded-Excused :
      (L : Type 0) (r : UpstreamResult) (o : Option AnswerMap) (batch : List Field) (m : Merge)
      → parse_answers r.body ≡ o
      → (Lacks (r, success) batch → L)
      → Excused L m
      → Excused L (succeeded r o batch m)
  unfolding succeeded
  succeeded-Excused L r none batch m f lack e = inr (lack (inl f))
  succeeded-Excused L r (some got) batch m f lack e =
      take-Excused L got batch _ (λ q h n. lack (inr (got, q, f, h, n))) e

  result-Excused :
      (L : Type 0) (x : UpstreamResult × Outcome) (batch : List Field) (m : Merge)
      → (Lacks x batch → L)
      → Excused L m
      → Ongoing (Excused L) (merge_result parse_answers x batch m)
  unfolding merge_result
  result-Excused L (r, final) batch m lack e = tt
  result-Excused L (r, success) batch m lack e =
      succeeded-Excused L r (parse_answers r.body) batch m refl lack e
  result-Excused L (r, next_key) batch m lack e = inr (lack tt)
  result-Excused L (r, next_provider) batch m lack e = inr (lack tt)

  -- After a round nothing is tried again, or the result of a batch left a question without an answer.
  pub batches-Excused :
      (L : Type 0) (results : ℕ → List Field → UpstreamResult × Outcome)
      → ((i : ℕ) (batch : List Field) → Lacks (results i batch) batch → L)
      → (i : ℕ) (batches : List (List Field)) (m : Merge) → m.retry ≡ []
      → Ongoing (Excused L) (merge_batches parse_answers results i batches m)
  batches-Excused L results lack i batches m e =
      batches_rule parse_answers (Excused L) results
        (λ j batch n k. result-Excused L (results j batch) batch n (lack j batch) k) i batches m
        (inl e)
