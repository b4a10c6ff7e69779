-- ===== src/Tests/DecisionRuns.antt =====
-- embeddings-forward/decisions.go: a concrete request in two batches.
use cpa_plugins.Base.{ℕ, zero, ◌≡◌, String, false, List, [], ◌∷◌, Option, some, pos, All, arith}
use cpa_plugins.Forward.Config.{Provider, Match}
use cpa_plugins.Forward.Calls.{UpstreamResult, Outcome, success, next_key, no_result}
use cpa_plugins.Forward.Decisions.{Field, split, AnswerMap, decide}
use cpa_plugins.Forward.Decisions.Batches.{joined, IsWithin, split_lem}
use cpa_plugins.Forward.Decisions.Answers.{IsComplete, decide-IsComplete}

abbrev questions : List Field
questions =
    record { key = "a"; value = "1" }
    ∷ record { key = "b"; value = "2" }
    ∷ record { key = "c"; value = "3" }
    ∷ []

abbrev provider : Provider
provider = record {
  name = "p";
  base_url = "";
  path = "";
  api_keys = "k" ∷ [];
  models = [];
  strategy = "failover";
  cooldown_seconds = pos 0;
  api = "decisions";
  max_questions = pos 2;
  max_concurrency = pos 4;
  url = "https://up.example";
}

abbrev providers : List Match
providers =
    let m : Match = record {
      provider = provider;
      mapping = record { name = "m"; alias = ""; string_instructions = false };
    } in
    m ∷ m ∷ []

-- The first batch of the first round is told to wait; the rest is answered.
abbrev attempt : ℕ → Match → ℕ → List Field → UpstreamResult × Outcome
attempt zero m zero batch = (record no_result { status = pos 429 }, next_key)
attempt round m i batch = (record no_result { status = pos 200; body = "answers" }, success)

abbrev parse_answers : String → Option AnswerMap
parse_answers body = some (λ key. some "yes")

split_example :
    (joined (split questions (pos 2)) ≡ questions)
    × All (IsWithin (pos 2)) (split questions (pos 2))
split_example = split_lem questions (pos 2) (omega arith)

decide_example :
    IsComplete parse_answers attempt providers questions
      (decide parse_answers attempt providers questions)
decide_example = decide-IsComplete parse_answers attempt providers questions
