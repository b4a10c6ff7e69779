-- ===== src/Forward/Decisions/Known.antt =====
-- embeddings-forward/decisions.go: no question is lost.

use mathlib.Core.List.{Memᴰ}
use mathlib.Core.List.Memᴰ.{head, tail, append_left, append_right, append_cases}
use cpa_plugins.Base.{
  ℕ, suc, ◌≡◌, ◌⊎◌, refl, sym, subst, inl, inr, String, true, List, [], ◌∷◌, Option, none, some,
  update, ◌=ₛ◌, eq_iff, if◌then◌else◌, Bool-cases,
}
use cpa_plugins.Forward.Calls.{UpstreamResult, Outcome, success, final, next_key, next_provider}
use cpa_plugins.Forward.Decisions.{
  Field, AnswerMap, Merge, answer_one, take_answers, retry_batch, Progress, unless_stopped, stopped,
  going, succeeded, merge_result, merge_batches,
}
use cpa_plugins.Forward.Decisions.Batches.{joined}

-- A question has an answer.
abbrev pub Answered : AnswerMap → Field → Type 0
Answered answers q = (answer : String) × (answers q.key ≡ some answer)

-- It has an answer or is tried again.
abbrev pub Known : Merge → Field → Type 0
Known m q = Answered m.answers q ⊎ Memᴰ q m.retry

update-Answered :
    (answers : AnswerMap) (key answer : String) (q : Field)
    → Answered answers q
    → Answered (update answers key (some answer)) q
update-Answered answers key answer q (a, e) = elim (Bool-cases (key =ₛ q.key)) [
  | inl k ↦ (answer, rw (k, if◌then◌else◌) refl)
  | inr k ↦ (a, rw (k, if◌then◌else◌) e)
]

one_keeps :
    (o : Option String) (p : Field) (m : Merge) (q : Field) → Known m q → Known (answer_one o p m) q
unfolding answer_one
one_keeps (some a) p m q (inl k) = inl (update-Answered m.answers p.key a q k)
one_keeps (some a) p m q (inr k) = inr k
one_keeps none p m q (inl k) = inl k
one_keeps none p m q (inr k) = inr (append_left (p ∷ []) k)

one_knows : (o : Option String) (q : Field) (m : Merge) → Known (answer_one o q m) q
unfolding answer_one
one_knows (some a) q m =
    let same : (q.key =ₛ q.key) ≡ true = (eq_iff q.key q.key).1 refl in
    inl (a, rw (same, if◌then◌else◌) refl)
one_knows none q m = inr (append_right m.retry (head refl))

take_keeps :
    (got : AnswerMap) (qs : List Field) (m : Merge) (q : Field)
    → Known m q
    → Known (take_answers got qs m) q
unfolding take_answers
take_keeps got [] m q k = k
take_keeps got (p ∷ qs) m q k =
    take_keeps got qs (answer_one (got p.key) p m) q (one_keeps (got p.key) p m q k)

take_knows :
    (got : AnswerMap) (qs : List Field) (m : Merge) (q : Field)
    → Memᴰ q qs
    → Known (take_answers got qs m) q
unfolding take_answers
take_knows got [] m q h = elim h [ ]
take_knows got (p ∷ qs) m q (head e) =
    take_keeps got qs (answer_one (got p.key) p m) q
      (subst (Known (answer_one (got p.key) p m)) (sym e) (one_knows (got p.key) p m))
take_knows got (p ∷ qs) m q (tail h) = take_knows got qs (answer_one (got p.key) p m) q h

retry-Known :
    (r : UpstreamResult) (batch : List Field) (m : Merge) (q : Field)
    → Known m q ⊎ Memᴰ q batch
    → Known (retry_batch r batch m) q
retry-Known r batch m q (inl (inl k)) = inl k
retry-Known r batch m q (inl (inr k)) = inr (append_left batch k)
retry-Known r batch m q (inr h) = inr (append_right m.retry h)

succeeded-Known :
    (r : UpstreamResult) (o : Option AnswerMap) (batch : List Field) (m : Merge) (q : Field)
    → Known m q ⊎ Memᴰ q batch
    → Known (succeeded r o batch m) q
unfolding succeeded
succeeded-Known r (some got) batch m q (inl k) = take_keeps got batch _ q k
succeeded-Known r (some got) batch m q (inr h) = take_knows got batch _ q h
succeeded-Known r none batch m q k = retry-Known (record r { malformed = true }) batch m q k

-- What holds of the merged state, unless an answer is final.
abbrev pub Ongoing : (Merge → Type 0) → Progress → Type 0
Ongoing P (stopped r) = Unit
Ongoing P (going m) = P m

Ongoing-Unit : (x : Progress) → Ongoing (λ m. Unit) x
Ongoing-Unit (stopped r) = tt
Ongoing-Unit (going m) = tt

Ongoing-next :
    (P Q : Merge → Type 0) (x : Progress) (next : Merge → Progress)
    → Ongoing P x
    → ((m : Merge) → P m → Ongoing Q (next m))
    → Ongoing Q (unless_stopped stopped x next)
unfolding unless_stopped
Ongoing-next P Q (stopped r) next h f = tt
Ongoing-next P Q (going m) next h f = f m h

module _ (parse_answers : String → Option AnswerMap) where
  result-Known :
      (x : UpstreamResult × Outcome) (batch : List Field) (m : Merge) (q : Field)
      → Known m q ⊎ Memᴰ q batch
      → Ongoing (λ m'. Known m' q) (merge_result parse_answers x batch m)
  unfolding merge_result
  result-Known (r, final) batch m q k = tt
  result-Known (r, success) batch m q k = succeeded-Known r (parse_answers r.body) batch m q k
  result-Known (r, next_key) batch m q k = retry-Known r batch m q k
  result-Known (r, next_provider) batch m q k = retry-Known r batch m q k

  -- A property that each batch keeps.
  pub batches_rule :
      (P : Merge → Type 0) (results : ℕ → List Field → UpstreamResult × Outcome)
      → ((i : ℕ) (batch : List Field) (m : Merge)
          → P m
          → Ongoing P (merge_result parse_answers (results i batch) batch m))
      → (i : ℕ) (batches : List (List Field)) (m : Merge) → P m
      → Ongoing P (merge_batches parse_answers results i batches m)
  unfolding merge_batches
  batches_rule P results keep i [] m h = h
  batches_rule P results keep i (batch ∷ batches) m h =
      Ongoing-next P P (merge_result parse_answers (results i batch) batch m) _ (keep i batch m h)
        λ m' h'. batches_rule P results keep (suc i) batches m' h'

  -- After the batches of a round each of their questions has an answer or is tried again.
  pub batches-Known :
      (results : ℕ → List Field → UpstreamResult × Outcome) (i : ℕ) (batches : List (List Field))
      (m : Merge) (q : Field)
      → Known m q ⊎ Memᴰ q (joined batches)
      → Ongoing (λ m'. Known m' q) (merge_batches parse_answers results i batches m)
  unfolding merge_batches joined
  batches-Known results i [] m q (inl k) = k
  batches-Known results i [] m q (inr h) = elim h [ ]
  batches-Known results i (batch ∷ batches) m q (inl k) =
      batches_rule (λ m'. Known m' q) results
        (λ j b m' h. result-Known (results j b) b m' q (inl h)) i (batch ∷ batches) m k
  batches-Known results i (batch ∷ batches) m q (inr h) =
      elim (append_cases batch {t = joined batches} h) [
        | inl here ↦
            Ongoing-next (λ m'. Known m' q) (λ m'. Known m' q)
              (merge_result parse_answers (results i batch) batch m) _
              (result-Known (results i batch) batch m q (inr here))
              λ m' k. batches-Known results (suc i) batches m' q (inl k)
        | inr later ↦
            Ongoing-next (λ m'. Unit) (λ m'. Known m' q)
              (merge_result parse_answers (results i batch) batch m) _
              (Ongoing-Unit (merge_result parse_answers (results i batch) batch m))
              λ m' k. batches-Known results (suc i) batches m' q (inr later)
      ]
