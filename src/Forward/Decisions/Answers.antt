-- ===== src/Forward/Decisions/Answers.antt =====
-- embeddings-forward/decisions.go: the answers that the client gets.
use mathlib.Core.List.{Memᴰ}
use mathlib.Core.List.Memᴰ.{head, tail, append_left, append_right}
use mathlib.Core.Option.{none-ne-some}
use cpa_plugins.Base.{
  ℕ, suc, ◌≡◌, ◌⊎◌, refl, sym, ap, subst, ◌∙◌, inl, inr, String, true, false, List, [], ◌∷◌, ◌++◌,
  Option, none, some, update, ◌=ₛ◌, eq_iff, if◌then◌else◌, Bool-cases, All, arith,
}
use cpa_plugins.Forward.Config.{Match}
use cpa_plugins.Forward.Calls.{UpstreamResult, Outcome, success, final, next_key, next_provider}
use cpa_plugins.Forward.Decisions.{
  Field, split, AnswerMap, Merge, no_merge, answer_one, take_answers, Progress, unless_stopped,
  stopped, going, Decision, refused, unanswered, single, merged, conclude, succeeded, merge_result,
  merge_batches, decide_from, decide,
}
use cpa_plugins.Forward.Decisions.Batches.{joined, split_lem}
use cpa_plugins.Forward.Decisions.Excuses.{Stops, Lacks, Excused, batches-Excused, batches-Stops}
use cpa_plugins.Forward.Decisions.Known.{Answered, Known, Ongoing, batches_rule, batches-Known}

All-each : {A : Type 0} (P : A → Type 0) (xs : List A) → ((x : A) → Memᴰ x xs → P x) → All P xs
All-each P [] f = tt
All-each P (x ∷ xs) f = (f x (head refl), All-each P xs λ y m. f y (tail m))

open_question :
    {questions : List Field} (q : Field) (batches : List (List Field))
    → joined batches ≡ questions
    → (m : Merge) → Answered m.answers q ⊎ Memᴰ q questions
    → Known (record m { retry = [] }) q ⊎ Memᴰ q (joined batches)
open_question q batches whole m (inl a) = inl (inl a)
open_question q batches whole m (inr h) = inr (subst (Memᴰ q) (sym whole) h)

module _ (parse_answers : String → Option AnswerMap)
    (attempt : ℕ → Match → ℕ → List Field → UpstreamResult × Outcome) where
  -- The response is what an attempt gave that was successful.
  abbrev pub IsSuccess : UpstreamResult → Type 0
  IsSuccess r =
      (round : ℕ) × (p : Match) × (i : ℕ) × (batch : List Field) × (attempt round p i batch
        ≡ (r, success))

  -- The response is what an attempt gave that was final.
  abbrev pub IsFinal : UpstreamResult → Type 0
  IsFinal r =
      (round : ℕ) × (p : Match) × (i : ℕ) × (batch : List Field) × (attempt round p i batch
        ≡ (r, final))

  -- An attempt left a question of its batch without an answer.
  abbrev pub IsLacking : Type 0
  IsLacking =
      (round : ℕ) × (p : Match) × (i : ℕ) × (batch : List Field) × Lacks parse_answers
        (attempt round p i batch) batch

  -- One of these responses, of a successful attempt, gives this answer.
  abbrev pub Source : List UpstreamResult → String → String → Type 0
  Source rs key answer =
      (r : UpstreamResult) × Memᴰ r rs
      × IsSuccess r
      × ((got : AnswerMap) × (parse_answers r.body ≡ some got) × (got key ≡ some answer))

  Source-more :
      (rs more : List UpstreamResult) (key a : String) → Source rs key a → Source (rs ++ more) key a
  Source-more rs more key a (r, h, origin, g) = (r, append_left more h, origin, g)

  abbrev Sourced : Merge → Type 0
  Sourced m = (key answer : String) → m.answers key ≡ some answer → Source m.successes key answer

  -- One response is being merged.
  module _ (r : UpstreamResult) (origin : IsSuccess r) (got : AnswerMap)
      (parsed : parse_answers r.body ≡ some got) where
    abbrev Merging : Merge → Type 0
    Merging m = Memᴰ r m.successes × Sourced m

    one-Merging :
        (o : Option String) (q : Field) (m : Merge)
        → got q.key ≡ o
        → Merging m
        → Merging (answer_one o q m)
    unfolding answer_one
    one-Merging none q m e v = v
    one-Merging (some a) q m e (h, v) = (h, λ key b. from key b (Bool-cases (q.key =ₛ key)))
      where
        from :
            (key b : String)
            → ((q.key =ₛ key) ≡ true) ⊎ ((q.key =ₛ key) ≡ false)
            → update m.answers q.key (some a) key ≡ some b
            → Source m.successes key b
        from key b (inl k) =
            rw (k, if◌then◌else◌)
              λ f. (r, h, origin, (got, parsed, ap got (sym ((eq_iff q.key key).0 k)) ∙ e ∙ f))
        from key b (inr k) = rw (k, if◌then◌else◌) λ f. v key b f

    take-Merging : (qs : List Field) (m : Merge) → Merging m → Merging (take_answers got qs m)
    unfolding take_answers
    take-Merging [] m v = v
    take-Merging (q ∷ qs) m v =
        take-Merging qs (answer_one (got q.key) q m) (one-Merging (got q.key) q m refl v)

  succeeded-Sourced :
      (r : UpstreamResult) (o : Option AnswerMap) (batch : List Field) (m : Merge)
      → IsSuccess r
      → parse_answers r.body ≡ o
      → Sourced m
      → Sourced (succeeded r o batch m)
  unfolding succeeded
  succeeded-Sourced r none batch m origin e v = v
  succeeded-Sourced r (some got) batch m origin e v =
      (take-Merging r origin got e batch (record m { successes = m.successes ++ (r ∷ []) })
        (
          append_right m.successes (head refl),
          λ key a f. Source-more m.successes (r ∷ []) key a (v key a f),
        )).1

  result-Sourced :
      (x : UpstreamResult × Outcome) (batch : List Field) (m : Merge)
      → ((r : UpstreamResult) → x ≡ (r, success) → IsSuccess r)
      → Sourced m
      → Ongoing Sourced (merge_result parse_answers x batch m)
  unfolding merge_result
  result-Sourced (r, final) batch m came v = tt
  result-Sourced (r, success) batch m came v =
      succeeded-Sourced r (parse_answers r.body) batch m (came r refl) refl v
  result-Sourced (r, next_key) batch m came v = v
  result-Sourced (r, next_provider) batch m came v = v

  module _ (providers : List Match) (questions : List Field) where
    -- What a decision means for the questions: the client is given either an upstream's own response,
    -- which answers all of them, or merged answers, each of which some response gave. It is refused by
    -- a final response, and it has no answers only if an attempt left a question without one or there
    -- is no provider.
    unfoldable pub IsComplete : Decision → Type 0
    IsComplete (refused r) = IsFinal r
    IsComplete (unanswered r) = IsLacking ⊎ (providers ≡ [])
    IsComplete (single r) = All (λ q. (a : String) × Source (r ∷ []) q.key a) questions
    IsComplete (merged answers rs) =
        All (λ q. (a : String) × (answers q.key ≡ some a) × Source rs q.key a) questions

    -- Every question is answered or pending.
    abbrev Held : List Field → Merge → Type 0
    Held pending m = (q : Field) → Memᴰ q questions → Answered m.answers q ⊎ Memᴰ q pending

    -- All are answered.
    abbrev Done : Merge → Type 0
    Done m = (q : Field) → Memᴰ q questions → Answered m.answers q

    settled : (m : Merge) → Held [] m → Done m
    settled m h q k = elim (h q k) [ inl a ↦ a | inr none_pending ↦ elim none_pending [ ] ]

    conclude-IsComplete : (m : Merge) → Done m → Sourced m → IsComplete (conclude [] m)
    unfolding conclude IsComplete
    conclude-IsComplete m d v = from m.successes d v
      where
        from :
            (rs : List UpstreamResult)
            → Done m
            → ((key answer : String) → m.answers key ≡ some answer → Source rs key answer)
            → IsComplete (elim rs [ r ∷ [] ↦ single r | other ↦ merged m.answers other ])
        from [] d v = All-each _ questions λ q k. let (a, e) = d q k in (a, e, v q.key a e)
        from (r ∷ []) d v = All-each _ questions λ q k. let (a, e) = d q k in (a, v q.key a e)
        from (r ∷ s ∷ rs) d v =
            All-each _ questions λ q k. let (a, e) = d q k in (a, e, v q.key a e)

    round-IsComplete :
        (x : Progress) (next : Merge → Decision)
        → ((q : Field) → Memᴰ q questions → Ongoing (λ m. Known m q) x)
        → Ongoing Sourced x
        → Ongoing (Excused IsLacking) x
        → Stops IsFinal x
        → ((m : Merge) → Held m.retry m → Sourced m → Excused IsLacking m → IsComplete (next m))
        → IsComplete (unless_stopped refused x next)
    unfolding unless_stopped IsComplete
    round-IsComplete (stopped r) next known v e s f = s
    round-IsComplete (going m) next known v e s f = f m known v e

    excuse :
        (pending : List Field)
        → (pending ≡ []) ⊎ IsLacking
        → (pending ≡ []) ⊎ (IsLacking ⊎ (providers ≡ []))
    excuse pending (inl e) = inl e
    excuse pending (inr l) = inr (inl l)

    decide_from-IsComplete :
        (round : ℕ) (ps : List Match) (pending : List Field) (m : Merge)
        → Held pending m
        → Sourced m
        → (ps ≡ [] → (pending ≡ []) ⊎ (IsLacking ⊎ (providers ≡ [])))
        → IsComplete (decide_from parse_answers attempt round ps pending m)
    unfolding decide_from conclude IsComplete
    decide_from-IsComplete round [] [] m h v e = conclude-IsComplete m (settled m h) v
    decide_from-IsComplete round [] (q ∷ qs) m h v e = elim (e refl) [
      | inl absent ↦ cc
      | inr reason ↦ reason
    ]
    decide_from-IsComplete round (p ∷ ps) [] m h v e = conclude-IsComplete m (settled m h) v
    decide_from-IsComplete round (p ∷ ps) (q ∷ qs) m h v e =
        let cap = p.provider.max_questions in
        let m' : Merge = record m { retry = [] } in
        let batches = split (q ∷ qs) cap in
        let whole = (split_lem (q ∷ qs) cap (omega arith)).0 in
        round-IsComplete (merge_batches parse_answers (attempt round p) 0 batches m') _
          (λ k i.
            batches-Known parse_answers (attempt round p) 0 batches m' k
              (open_question k batches whole m (h k i)))
          (batches_rule parse_answers Sourced (attempt round p)
            (λ i batch n.
              result-Sourced (attempt round p i batch) batch n λ r e. (round, p, i, batch, e))
            0 batches m' v)
          (batches-Excused parse_answers IsLacking (attempt round p)
            (λ i batch lack. (round, p, i, batch, lack)) 0 batches m' refl)
          (batches-Stops parse_answers IsFinal (attempt round p)
            (λ i batch r f. (round, p, i, batch, f)) 0 batches m')
          λ n h' v' e'. decide_from-IsComplete (suc round) ps n.retry n h' v' λ _. excuse n.retry e'

    -- Whatever the attempts give: when the questions are decided without a failure, each of them has
    -- an answer, which the response of a successful attempt gave, and a response passed on as it is
    -- answers them all. The questions are refused only with the response of an attempt that was final;
    -- and they have no answers only if an attempt was no success or its response left a question
    -- of its batch without an answer, or there is no provider.
    pub decide-IsComplete : IsComplete (decide parse_answers attempt providers questions)
    unfolding decide
    decide-IsComplete =
        decide_from-IsComplete 0 providers questions no_merge (λ q h. inr h)
          (λ key a e. absurd (none-ne-some _ e)) λ e. inr (inr e)
