-- ===== src/Tests/UsageRuns.antt =====
-- commandcode/protocol.go: concrete token counts.
use cpa_plugins.Base.{◌≡◌, inl, inr, refl, some}
use cpa_plugins.CommandCode.Usage.{TokenUsage, OpenAiUsage, add64, openai_usage}
use cpa_plugins.CommandCode.Usage.Totals.{openai_usage-sum}

-- The total holds the reasoning tokens.
abbrev reasoned : TokenUsage
reasoned = record {
  input = 10;
  output = 20;
  reasoning = 5;
  cache_read = 3;
  cache_write = 0;
  total = 35;
}

abbrev shown : OpenAiUsage
shown = record {
  prompt_tokens = 10;
  completion_tokens = 25;
  total_tokens = 35;
  cached_tokens = some 3;
  reasoning_tokens = some 5;
}

reasoned-shown : openai_usage reasoned ≡ some shown
unfolding openai_usage
reasoned-shown = refl

openai_usage-sum_example : add64 shown.prompt_tokens shown.completion_tokens ≡ shown.total_tokens
openai_usage-sum_example = openai_usage-sum reasoned reasoned-shown (inr (inr (inr (inl refl))))
