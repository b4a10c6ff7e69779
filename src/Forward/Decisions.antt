-- ===== src/Forward/Decisions.antt =====
-- embeddings-forward/decisions.go: questions in batches, over the providers, and their answers.
-- What `tryProvider` gives for the batches of a round, which run at the same time, is a parameter: any
-- results whatever; so is what `json.Unmarshal` finds in a body.
pub mod Batches
pub mod Known
pub mod Excuses
pub mod Answers
use cpa_plugins.Base.{
  ℕ, zero, suc, ◌-◌, String, Bool, true, false, ◌||◌, List, [], ◌∷◌, ◌++◌, Option, none, some, ℤ,
  pos, negsuc, length, take, drop, leb, update, if◌then◌else◌,
}
use cpa_plugins.Forward.Config.{Match}
use cpa_plugins.Forward.Calls.{
  UpstreamResult, no_result, Outcome, success, final, next_key, next_provider,
}

pub record Field : Type 0 where
  pub key : String
  pub value : String

-- The loop of `split`, for a size that is not 0; each turn leaves fewer questions, so that their number
-- is enough fuel.
unfoldable pub chunks : ℕ → ℕ → List Field → List (List Field)
chunks zero size questions = []
chunks (suc fuel) size [] = []
chunks (suc fuel) size (q ∷ qs) = take size (q ∷ qs) ∷ chunks fuel size (drop size (q ∷ qs))

unfoldable pub split : List Field → ℤ → List (List Field)
split questions (negsuc n) = questions ∷ []
split questions (pos size) =
    if leb size 0 || leb (length questions) size
    then questions ∷ []
    else chunks (length questions) size questions

abbrev pub AnswerMap : Type 0
AnswerMap = String → Option String

-- `answers`, `successes`, `last` and `retry`.
pub record Merge : Type 0 where
  pub answers : AnswerMap
  pub successes : List UpstreamResult
  pub last : UpstreamResult
  pub retry : List Field

-- `if answer, found := got[q.key]; found`
unfoldable pub answer_one : Option String → Field → Merge → Merge
answer_one (some answer) q m = record m { answers = update m.answers q.key (some answer) }
answer_one none q m = record m { retry = m.retry ++ (q ∷ []) }

-- The answers of one batch; a question without one is tried again.
unfoldable pub take_answers : AnswerMap → List Field → Merge → Merge
take_answers got [] m = m
take_answers got (q ∷ qs) m = take_answers got qs (answer_one (got q.key) q m)

abbrev pub retry_batch : UpstreamResult → List Field → Merge → Merge
retry_batch r batch m = record m { last = r; retry = m.retry ++ batch }

abbrev pub no_merge : Merge
no_merge = record { answers = λ k. none; successes = []; last = no_result; retry = [] }

-- The end of the loop over the batches: an answer that is final, or what is merged.
pub data Progress : Type 0 where
  stopped : UpstreamResult → Progress
  going : Merge → Progress

-- An answer that is final ends the request.
unfoldable pub unless_stopped : {A : Type 0} → (UpstreamResult → A) → Progress → (Merge → A) → A
unless_stopped halt (stopped r) next = halt r
unless_stopped halt (going m) next = next m

-- `clientResponse` of a result, or the merged answers.
pub data Decision : Type 0 where
  refused : UpstreamResult → Decision
  unanswered : UpstreamResult → Decision
  single : UpstreamResult → Decision
  merged : AnswerMap → List UpstreamResult → Decision

unfoldable pub conclude : List Field → Merge → Decision
conclude (q ∷ pending) m = unanswered m.last
conclude [] m = elim m.successes [ r ∷ [] ↦ single r | other ↦ merged m.answers other ]

-- A success whose body has no answers is tried again.
unfoldable pub succeeded : UpstreamResult → Option AnswerMap → List Field → Merge → Merge
succeeded r (some got) batch m =
    take_answers got batch (record m { successes = m.successes ++ (r ∷ []) })
succeeded r none batch m = retry_batch (record r { malformed = true }) batch m

module _ (parse_answers : String → Option AnswerMap) where
  unfoldable pub merge_result : UpstreamResult × Outcome → List Field → Merge → Progress
  merge_result (r, final) batch m = stopped r
  merge_result (r, success) batch m = going (succeeded r (parse_answers r.body) batch m)
  merge_result (r, next_key) batch m = going (retry_batch r batch m)
  merge_result (r, next_provider) batch m = going (retry_batch r batch m)

  -- `for i, batch := range batches`; `i` is the number of the batch in the round.
  unfoldable pub merge_batches :
      (ℕ → List Field → UpstreamResult × Outcome) → ℕ → List (List Field) → Merge → Progress
  merge_batches results i [] m = going m
  merge_batches results i (batch ∷ batches) m =
      unless_stopped stopped (merge_result (results i batch) batch m)
        λ m'. merge_batches results (suc i) batches m'

  module _ (attempt : ℕ → Match → ℕ → List Field → UpstreamResult × Outcome) where
    -- The loop over the providers, from a round on.
    unfoldable pub decide_from : ℕ → List Match → List Field → Merge → Decision
    decide_from round [] pending m = conclude pending m
    decide_from round (p ∷ ps) [] m = conclude [] m
    decide_from round (p ∷ ps) (q ∷ qs) m =
        unless_stopped refused
          (merge_batches (attempt round p) 0 (split (q ∷ qs) p.provider.max_questions)
            (record m { retry = [] }))
          λ m'. decide_from (suc round) ps m'.retry m'

    -- The providers come in the order of `c.h.keys.order(matches)`.
    unfoldable pub decide : List Match → List Field → Decision
    decide ps questions = decide_from 0 ps questions no_merge
