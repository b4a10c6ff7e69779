-- ===== src/Tests/RequestRuns.antt =====
-- commandcode: a concrete request, and what it is sent.
use cpa_plugins.Base.{
  ◌≡◌, refl, String, ◌++ₛ◌, ◌=ₛ◌, Bool, true, false, List, [], ◌∷◌, none, some, ℤ, pos, All, is_in,
  trim_space,
}
use cpa_plugins.CommandCode.Json.{str, Codec}
use cpa_plugins.CommandCode.Lines.{
  Slices, line_slice, last_slice, full_slice, HostRead, read_bytes, Reader, got, trim_suffix,
  read_lines, read,
}
use cpa_plugins.CommandCode.Lines.Framing.{
  IsSliced, content, failure_of, result_after, read_lines_lem,
}
use cpa_plugins.CommandCode.Lines.Reading.{Takes, remaining, read_lem}
use cpa_plugins.CommandCode.Models.{
  max_tokens, max_tokens_cap, model_max_tokens, reasoning_effort, levels_of, lookup_model_info,
}
use cpa_plugins.CommandCode.Models.Limits.{
  Fits, Judged, Graded, max_tokens_lem, reasoning_effort-Graded,
}
use cpa_plugins.CommandCode.Request.{OpenAiMessage, OpenAiToolCall}
use cpa_plugins.CommandCode.Request.Messages.{messages_from_openai}
use cpa_plugins.CommandCode.Request.Messages.Answered.{sent, answered}
use cpa_plugins.CommandCode.Request.Messages.Known.{IsClean}
use cpa_plugins.CommandCode.Request.Messages.Pairing.{messages_from_openai-answered}
use cpa_plugins.CommandCode.Request.Payload.{
  PayloadOptions, Decoded, undecoded, is_uuid, build_payload,
}
use cpa_plugins.CommandCode.Request.Payload.Sound.{IsSound, build_payload-IsSound}

-- Two lines in three slices.
abbrev three_slices : Slices
three_slices = full_slice (97 ∷ []) (line_slice (98 ∷ 13 ∷ 10 ∷ []) (last_slice (99 ∷ [])))

three_slices-IsSliced : IsSliced three_slices
unfolding IsSliced
three_slices-IsSliced = ((refl, tt), ((98 ∷ 13 ∷ [], refl, (refl, (refl, tt))), (refl, tt)))

three_slices-lines : read_lines [] three_slices ≡ ((97 ∷ 98 ∷ []) ∷ (99 ∷ []) ∷ [], none)
unfolding read_lines trim_suffix
three_slices-lines = refl

read_lines_example :
    read_lines [] three_slices ≡ result_after [] (content three_slices) (failure_of three_slices)
read_lines_example = read_lines_lem three_slices three_slices-IsSliced

abbrev fresh_reader : Reader
fresh_reader = record { pending = []; done = false }

abbrev two_answers : List HostRead
two_answers = read_bytes [] false ∷ read_bytes (1 ∷ 2 ∷ 3 ∷ []) true ∷ []

abbrev reader_after : Reader
reader_after = record { pending = 3 ∷ []; done = true }

two_answers-read : read 2 fresh_reader two_answers ≡ some (got (1 ∷ 2 ∷ []), reader_after, [])
unfolding read
two_answers-read = refl

read_example :
    Takes (got (1 ∷ 2 ∷ [])) (remaining [] false two_answers) (remaining (3 ∷ []) true [])
read_example = read_lem 1 fresh_reader two_answers two_answers-read

abbrev quoted : String → String
quoted s = "\"" ++ₛ s ++ₛ "\""

max_tokens_example :
    Fits max_tokens_cap (some (model_max_tokens "poolside/laguna-s-2.1-free"))
    × Judged
        (model_max_tokens "poolside/laguna-s-2.1-free")
        (some (pos 40000))
        none
        (max_tokens quoted (some (pos 40000)) none "poolside/laguna-s-2.1-free")
max_tokens_example = max_tokens_lem quoted (some (pos 40000)) none "poolside/laguna-s-2.1-free"

effort-not_blank : (trim_space " HIGH" =ₛ "") ≡ false
unfolding trim_space
effort-not_blank = refl

reasoning_effort_example :
    Graded
      (trim_space " HIGH")
      (levels_of (lookup_model_info "zai-org/GLM-5.2"))
      (reasoning_effort " HIGH" "zai-org/GLM-5.2")
reasoning_effort_example = reasoning_effort-Graded " HIGH" "zai-org/GLM-5.2" effort-not_blank

-- Every text is a JSON string, and a document is written as nothing.
abbrev plain_codec : Codec
plain_codec = record { unmarshal = λ s. some (str s); marshal = λ j. "" }

abbrev call_made : OpenAiToolCall
call_made = record {
  id = "c1";
  type_name = "function";
  provider_executed = false;
  name = "list";
  arguments = "";
}

abbrev call_lost : OpenAiToolCall
call_lost = record call_made { id = "c2" }

abbrev asked : OpenAiMessage
asked = record {
  role = "assistant";
  content = "hello";
  name = "";
  tool_call_id = "";
  tool_calls = call_made ∷ call_lost ∷ [];
  reasoning_content = "";
  provider_executed = false;
}

abbrev told : OpenAiMessage
told = record asked { role = "Tool "; content = "a b"; tool_call_id = "c1"; tool_calls = [] }

messages-IsClean : All IsClean (asked ∷ told ∷ [])
unfolding IsClean trim_space
messages-IsClean = (((refl, (refl, tt)), refl, refl), ((tt, refl, refl), tt))

messages_example :
    All
      (λ id.
        is_in id (answered (messages_from_openai plain_codec (asked ∷ told ∷ []) [] "m").1) ≡ true)
      (sent (messages_from_openai plain_codec (asked ∷ told ∷ []) [] "m").1)
messages_example =
    messages_from_openai-answered plain_codec (asked ∷ told ∷ []) [] "m" messages-IsClean

abbrev options : PayloadOptions
options = record {
  model = "zai-org/GLM-5.2";
  working_dir = "";
  environment = "";
  thread_id = "other";
  payload = "";
  date = "2026-01-01";
}

abbrev never_decoded : String → Decoded ℤ
never_decoded payload = undecoded "unexpected end"

abbrev one_uuid : String → Bool
one_uuid s = s =ₛ "uuid"

uuid-IsUuid : is_uuid one_uuid "uuid" ≡ true
unfolding is_uuid trim_space
uuid-IsUuid = refl

build_payload_example :
    IsSound one_uuid options
      (build_payload plain_codec never_decoded quoted one_uuid "uuid" "linux" options)
build_payload_example =
    build_payload-IsSound plain_codec never_decoded quoted one_uuid "uuid" "linux" uuid-IsUuid
      options
