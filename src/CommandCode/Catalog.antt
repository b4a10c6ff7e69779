-- ===== src/CommandCode/Catalog.antt =====
-- commandcode/models.go: the catalog of models.
use cpa_plugins.Base.{String, List, [], ◌∷◌, Option, none, some, ℤ, pos}

-- `thinking` is the Levels of the ThinkingSupport.
pub record ModelInfo : Type 0 where
  pub id : String
  pub object : String
  pub created : ℤ
  pub owned_by : String
  pub type_name : String
  pub display_name : String
  pub name : String
  pub version : String
  pub description : String
  pub context_length : ℤ
  pub max_completion_tokens : ℤ
  pub supported_parameters : List String
  pub supported_endpoints : List String
  pub supported_input_modalities : List String
  pub supported_output_modalities : List String
  pub thinking : Option (List String)

abbrev pub endpoints : List String
endpoints = "/v1/chat/completions" ∷ "/v1/responses" ∷ []

abbrev thinking_of : List String → Option (List String)
thinking_of [] = none
thinking_of (level ∷ levels) = some (level ∷ levels)

abbrev model_info : String → String → ℤ → ℤ → List String → List String → ModelInfo
model_info id display_name context_length max_completion_tokens modalities levels = record {
  id = id;
  object = "model";
  created = pos 1786168184;
  owned_by = "command-code";
  type_name = "commandcode";
  display_name = display_name;
  name = "";
  version = id;
  description = "";
  context_length = context_length;
  max_completion_tokens = max_completion_tokens;
  supported_parameters = "tools" ∷ [];
  supported_endpoints = endpoints;
  supported_input_modalities = modalities;
  supported_output_modalities = "text" ∷ [];
  thinking = thinking_of levels;
}

abbrev text : List String
text = "text" ∷ []

abbrev text_image : List String
text_image = "text" ∷ "image" ∷ []

-- commandCodeBuiltinModelInfosV115
unfoldable pub command_code_models : List ModelInfo
command_code_models =
    model_info "claude-sonnet-5" "Claude Sonnet 5 (CC)" (pos 1000000) (pos 64000) text_image
      ("low" ∷ "medium" ∷ "high" ∷ "xhigh" ∷ "max" ∷ [])
    ∷ model_info "claude-sonnet-4-6" "Claude Sonnet 4.6 (CC)" (pos 1000000) (pos 64000) text_image
        ("low" ∷ "medium" ∷ "high" ∷ "xhigh" ∷ "max" ∷ [])
    ∷ model_info "claude-fable-5" "Claude Fable 5 (CC)" (pos 1000000) (pos 64000) text_image
        ("low" ∷ "medium" ∷ "high" ∷ "xhigh" ∷ "max" ∷ [])
    ∷ model_info "claude-opus-5" "Claude Opus 5 (CC)" (pos 1000000) (pos 64000) text_image
        ("low" ∷ "medium" ∷ "high" ∷ "xhigh" ∷ "max" ∷ [])
    ∷ model_info "claude-opus-4-8" "Claude Opus 4.8 (CC)" (pos 1000000) (pos 64000) text_image
        ("low" ∷ "medium" ∷ "high" ∷ "xhigh" ∷ "max" ∷ [])
    ∷ model_info "claude-opus-4-7" "Claude Opus 4.7 (CC)" (pos 1000000) (pos 64000) text_image
        ("low" ∷ "medium" ∷ "high" ∷ "xhigh" ∷ "max" ∷ [])
    ∷ model_info "claude-haiku-4-5-20251001" "Claude Haiku 4.5 (CC)" (pos 200000) (pos 64000)
        text_image []
    ∷ model_info "gpt-5.6-sol" "GPT-5.6 Sol (CC)" (pos 1050000) (pos 64000) text_image
        ("low" ∷ "medium" ∷ "high" ∷ "xhigh" ∷ "max" ∷ [])
    ∷ model_info "gpt-5.6-terra" "GPT-5.6 Terra (CC)" (pos 1050000) (pos 64000) text_image
        ("low" ∷ "medium" ∷ "high" ∷ "xhigh" ∷ "max" ∷ [])
    ∷ model_info "gpt-5.6-luna" "GPT-5.6 Luna (CC)" (pos 1050000) (pos 64000) text_image
        ("low" ∷ "medium" ∷ "high" ∷ "xhigh" ∷ "max" ∷ [])
    ∷ model_info "gpt-5.5" "GPT-5.5 (CC)" (pos 200000) (pos 64000) text_image
        ("low" ∷ "medium" ∷ "high" ∷ "xhigh" ∷ [])
    ∷ model_info "gpt-5.4" "GPT-5.4 (CC)" (pos 400000) (pos 64000) text_image
        ("low" ∷ "medium" ∷ "high" ∷ "xhigh" ∷ [])
    ∷ model_info "gpt-5.3-codex" "GPT-5.3 Codex (CC)" (pos 400000) (pos 64000) text_image
        ("low" ∷ "medium" ∷ "high" ∷ "xhigh" ∷ [])
    ∷ model_info "gpt-5.4-mini" "GPT-5.4 Mini (CC)" (pos 400000) (pos 64000) text_image
        ("low" ∷ "medium" ∷ "high" ∷ [])
    ∷ model_info "deepseek/deepseek-v4-pro" "DeepSeek V4 Pro (CC)" (pos 1000000) (pos 64000) text
        ("high" ∷ "max" ∷ [])
    ∷ model_info "deepseek/deepseek-v4-flash" "DeepSeek V4 Flash (latest) (CC)" (pos 1000000)
        (pos 64000) text ("high" ∷ "max" ∷ [])
    ∷ model_info "moonshotai/Kimi-K3" "Kimi K3 (CC)" (pos 1000000) (pos 64000) text_image []
    ∷ model_info "moonshotai/Kimi-K2.7-Code" "Kimi K2.7 Code (CC)" (pos 256000) (pos 64000)
        text_image []
    ∷ model_info "moonshotai/Kimi-K2.7-Code-Highspeed" "Kimi K2.7 Code HighSpeed (CC)" (pos 262000)
        (pos 64000) text_image []
    ∷ model_info "moonshotai/Kimi-K2.6" "Kimi K2.6 (CC)" (pos 256000) (pos 64000) text_image []
    ∷ model_info "moonshotai/Kimi-K2.5" "Kimi K2.5 (CC)" (pos 256000) (pos 64000) text_image []
    ∷ model_info "zai-org/GLM-5.2" "GLM-5.2 (CC)" (pos 1000000) (pos 64000) text
        ("high" ∷ "max" ∷ [])
    ∷ model_info "zai-org/GLM-5.2-Fast" "GLM-5.2 Fast (CC)" (pos 1000000) (pos 64000) text []
    ∷ model_info "zai-org/GLM-5.1" "GLM-5.1 (CC)" (pos 200000) (pos 64000) text []
    ∷ model_info "zai-org/GLM-5" "GLM-5 (CC)" (pos 200000) (pos 64000) text []
    ∷ model_info "MiniMaxAI/MiniMax-M3" "MiniMax M3 (CC)" (pos 1000000) (pos 64000) text_image []
    ∷ model_info "MiniMaxAI/MiniMax-M2.7" "MiniMax M2.7 (CC)" (pos 200000) (pos 64000) text []
    ∷ model_info "MiniMaxAI/MiniMax-M2.5" "MiniMax M2.5 (CC)" (pos 200000) (pos 64000) text []
    ∷ model_info "xiaomi/mimo-v2.5-pro" "MiMo V2.5 Pro (CC)" (pos 1000000) (pos 64000) text []
    ∷ model_info "xiaomi/mimo-v2.5" "MiMo V2.5 (CC)" (pos 1000000) (pos 64000) text_image []
    ∷ model_info "Qwen/Qwen3.8-Max" "Qwen 3.8 Max (CC)" (pos 1000000) (pos 64000) text_image
        ("low" ∷ "medium" ∷ "xhigh" ∷ [])
    ∷ model_info "Qwen/Qwen3.7-Max" "Qwen 3.7 Max (CC)" (pos 1000000) (pos 64000) text []
    ∷ model_info "Qwen/Qwen3.7-Plus" "Qwen 3.7 Plus (CC)" (pos 1000000) (pos 64000) text_image []
    ∷ model_info "Qwen/Qwen3.7-Flash" "Qwen 3.7 Flash (CC)" (pos 1000000) (pos 64000) text_image []
    ∷ model_info "Qwen/Qwen3.6-Max-Preview" "Qwen 3.6 Max Preview (CC)" (pos 200000) (pos 64000)
        text []
    ∷ model_info "Qwen/Qwen3.6-Plus" "Qwen 3.6 Plus (CC)" (pos 200000) (pos 64000) text_image []
    ∷ model_info "stepfun/Step-3.7-Flash" "Step 3.7 Flash (CC)" (pos 256000) (pos 64000) text_image
        []
    ∷ model_info "stepfun/Step-3.5-Flash" "Step 3.5 Flash (CC)" (pos 1000000) (pos 64000) text []
    ∷ model_info "tencent/hy3-paid" "Tencent Hy3 (CC)" (pos 262144) (pos 64000) text []
    ∷ model_info "google/gemini-3.6-flash" "Gemini 3.6 Flash (CC)" (pos 1000000) (pos 64000)
        text_image ("low" ∷ "medium" ∷ "high" ∷ [])
    ∷ model_info "google/gemini-3.5-flash" "Gemini 3.5 Flash (CC)" (pos 1000000) (pos 64000)
        text_image ("low" ∷ "medium" ∷ "high" ∷ [])
    ∷ model_info "google/gemini-3.5-flash-lite" "Gemini 3.5 Flash Lite (CC)" (pos 1000000)
        (pos 64000) text_image ("low" ∷ "medium" ∷ "high" ∷ [])
    ∷ model_info "google/gemini-3.1-flash-lite" "Gemini 3.1 Flash Lite (CC)" (pos 1000000)
        (pos 64000) text_image ("low" ∷ "medium" ∷ "high" ∷ [])
    ∷ model_info "sakana/fugu-ultra" "Fugu Ultra (CC)" (pos 1000000) (pos 64000) text_image
        ("high" ∷ "xhigh" ∷ [])
    ∷ model_info "nvidia/nemotron-3-ultra-550b-a55b" "Nemotron 3 Ultra (CC)" (pos 1000000)
        (pos 64000) text []
    ∷ model_info "thinkingmachines/inkling" "Inkling (CC)" (pos 256000) (pos 64000) text_image []
    ∷ model_info "thinkingmachines/inkling-small" "Inkling Small (CC)" (pos 1000000) (pos 64000)
        text_image []
    ∷ model_info "poolside/laguna-s-2.1-free" "Laguna S 2.1 (CC)" (pos 256000) (pos 32768) text []
    ∷ model_info "meta/muse-spark-1.1" "Muse Spark 1.1 (CC)" (pos 1048576) (pos 64000) text_image []
    ∷ model_info "meta/muse-spark-1.2" "Muse Spark 1.2 (CC)" (pos 1048576) (pos 64000) text_image []
    ∷ model_info "meta/muse-spark-1.2-contributor" "Muse Spark 1.2 Contributor (CC)" (pos 1048576)
        (pos 64000) text_image []
    ∷ model_info "xai/grok-4.5" "Grok 4.5 (CC)" (pos 500000) (pos 64000) text_image
        ("low" ∷ "medium" ∷ "high" ∷ [])
    ∷ []
