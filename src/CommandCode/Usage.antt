-- ===== src/CommandCode/Usage.antt =====
-- commandcode/protocol.go, types.go and usage/usage.go: token counts. An int64 is its bit pattern,
-- a number below 2 ^ 64, on which +, == and the test for 0 are Go's.
pub mod Totals
use cpa_plugins.Base.{
  ℕ, ◌+◌, ◌%◌, Bool, true, false, not, ◌||◌, Option, none, some, ◌==◌, if◌then◌else◌,
}

abbrev pub add64 : ℕ → ℕ → ℕ
add64 a b = (a + b) % 18446744073709551616

pub record TokenUsage : Type 0 where
  pub input : ℕ
  pub output : ℕ
  pub reasoning : ℕ
  pub cache_read : ℕ
  pub cache_write : ℕ
  pub total : ℕ

abbrev pub no_usage : TokenUsage
no_usage = record {
  input = 0;
  output = 0;
  reasoning = 0;
  cache_read = 0;
  cache_write = 0;
  total = 0;
}

unfoldable pub add : TokenUsage → TokenUsage → TokenUsage
add u other = record {
  input = add64 u.input other.input;
  output = add64 u.output other.output;
  reasoning = add64 u.reasoning other.reasoning;
  cache_read = add64 u.cache_read other.cache_read;
  cache_write = add64 u.cache_write other.cache_write;
  total = add64 u.total other.total;
}

unfoldable pub has_usage : TokenUsage → Bool
has_usage u =
    not (u.input == 0)
    || not (u.output == 0)
    || not (u.reasoning == 0)
    || not (u.cache_read == 0)
    || not (u.cache_write == 0)
    || not (u.total == 0)

-- The values of the usage object; the optional ones are left out when they are 0.
pub record OpenAiUsage : Type 0 where
  pub prompt_tokens : ℕ
  pub completion_tokens : ℕ
  pub total_tokens : ℕ
  pub cached_tokens : Option ℕ
  pub reasoning_tokens : Option ℕ

abbrev unless_zero : ℕ → Option ℕ
unless_zero n = if n == 0 then none else some n

abbrev pub usage_object : TokenUsage → ℕ → ℕ → ℕ → Option OpenAiUsage
usage_object u prompt completion total =
    if total == 0
    then none
    else some (record {
      prompt_tokens = prompt;
      completion_tokens = completion;
      total_tokens = total;
      cached_tokens = unless_zero u.cache_read;
      reasoning_tokens = unless_zero u.reasoning;
    })

abbrev pub prompt_with_cache : TokenUsage → ℕ
prompt_with_cache u = add64 (add64 u.input u.cache_read) u.cache_write

-- The `switch` on the reported total; its last case leaves both counts as they are.
unfoldable pub openai_usage : TokenUsage → Option OpenAiUsage
openai_usage u =
    if u.total == 0
    then usage_object u (prompt_with_cache u) u.output (add64 (prompt_with_cache u) u.output)
    else if u.total == add64 u.input u.output
    then usage_object u u.input u.output u.total
    else if u.total == add64 (prompt_with_cache u) u.output
    then usage_object u (prompt_with_cache u) u.output u.total
    else if u.total == add64 (add64 u.input u.output) u.reasoning
    then usage_object u u.input (add64 u.output u.reasoning) u.total
    else if u.total == add64 (add64 (prompt_with_cache u) u.output) u.reasoning
    then usage_object u (prompt_with_cache u) (add64 u.output u.reasoning) u.total
    else usage_object u u.input u.output u.total

pub record Detail : Type 0 where
  pub input_tokens : ℕ
  pub output_tokens : ℕ
  pub reasoning_tokens : ℕ
  pub cached_tokens : ℕ
  pub cache_read_tokens : ℕ
  pub cache_creation_tokens : ℕ
  pub total_tokens : ℕ

abbrev pub no_detail : Detail
no_detail = record {
  input_tokens = 0;
  output_tokens = 0;
  reasoning_tokens = 0;
  cached_tokens = 0;
  cache_read_tokens = 0;
  cache_creation_tokens = 0;
  total_tokens = 0;
}

unfoldable pub detail : TokenUsage → Detail
detail u = record {
  input_tokens = u.input;
  output_tokens = u.output;
  reasoning_tokens = u.reasoning;
  cached_tokens = u.cache_read;
  cache_read_tokens = u.cache_read;
  cache_creation_tokens = u.cache_write;
  total_tokens =
      if u.total == 0
      then add64 (add64 (add64 u.input u.output) u.cache_read) u.cache_write
      else u.total;
}
