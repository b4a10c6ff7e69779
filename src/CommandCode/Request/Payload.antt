-- ===== src/CommandCode/Request/Payload.antt =====
-- commandcode/protocol.go and types.go: the body that the provider is sent.
pub mod Sound
use cpa_plugins.Base.{
  String, ◌++ₛ◌, ◌=ₛ◌, Bool, true, false, not, ◌&&◌, ◌||◌, List, [], ◌∷◌, Option, none, some, ℤ,
  if◌then◌else◌, trim_space, lower_is,
}
use cpa_plugins.CommandCode.Errors.{StreamError, status_error}
use cpa_plugins.CommandCode.Json.{Json, null, obj, end, Codec}
use cpa_plugins.CommandCode.Models.{Allowed, tokens, rejected, max_tokens, reasoning_effort}
use cpa_plugins.CommandCode.Request.{OpenAiMessage, OpenAiTool, Message}
use cpa_plugins.CommandCode.Request.Messages.{messages_from_openai}

-- commandCodeOpenAIRequest; `temperature` and `top_p` are floats, which the code only hands on.
pub record OpenAiRequest (Float : Type 0) : Type 0 where
  pub messages : List OpenAiMessage
  pub tools : List OpenAiTool
  pub max_tokens : Option ℤ
  pub max_completion_tokens : Option ℤ
  pub reasoning_effort : String
  pub temperature : Option Float
  pub top_p : Option Float
  pub stop : String

-- commandCodePayloadOptions, with the date that `Now` gives.
pub record PayloadOptions : Type 0 where
  pub model : String
  pub working_dir : String
  pub environment : String
  pub thread_id : String
  pub payload : String
  pub date : String

-- The maps of `commandCodeToolsFromOpenAI`.
pub record ToolSpec : Type 0 where
  pub name : String
  pub description : String
  pub input_schema : Json

pub record Config : Type 0 where
  pub working_dir : String
  pub date : String
  pub environment : String
  pub structure : List String
  pub is_git_repo : Bool
  pub current_branch : String
  pub main_branch : String
  pub git_status : String
  pub recent_commits : List String

pub record Params (Float : Type 0) : Type 0 where
  pub model : String
  pub reasoning_effort : String
  pub messages : List Message
  pub tools : List ToolSpec
  pub system : String
  pub max_tokens : ℤ
  pub temperature : Option Float
  pub top_p : Option Float
  pub stop : Option String
  pub stream : Bool

-- `memory`, `taste` and `skills` are always null.
pub record Body (Float : Type 0) : Type 0 where
  pub config : Config
  pub permission_mode : String
  pub thread_id : String
  pub params : Params Float

pub data Built (Float : Type 0) : Type 0 where
  failed : StreamError → Built Float
  built : Body Float → Built Float

-- What `json.Unmarshal` makes of a payload: a request, or the text of an error.
pub data Decoded (Float : Type 0) : Type 0 where
  undecoded : String → Decoded Float
  decoded : OpenAiRequest Float → Decoded Float

unfoldable pub optional_raw : String → Option String
optional_raw raw =
    let trimmed = trim_space raw in
    if trimmed =ₛ "" || trimmed =ₛ "null" then none else some trimmed

unfoldable pub text_or : String → String → String
text_or text other = if trim_space text =ₛ "" then other else trim_space text

abbrev config : PayloadOptions → String → Config
config opts default_environment = record {
  working_dir = text_or opts.working_dir ".";
  date = opts.date;
  environment = text_or opts.environment default_environment;
  structure = [];
  is_git_repo = false;
  current_branch = "";
  main_branch = "";
  git_status = "";
  recent_commits = [];
}

abbrev no_request : {Float : Type 0} → OpenAiRequest Float
no_request = record {
  messages = [];
  tools = [];
  max_tokens = none;
  max_completion_tokens = none;
  reasoning_effort = "";
  temperature = none;
  top_p = none;
  stop = "";
}

module _ (codec : Codec) where
  abbrev schema_or_empty : Option Json → Json
  schema_or_empty (some null) = obj end
  schema_or_empty (some schema) = schema
  schema_or_empty none = obj end

  unfoldable pub tool_spec : OpenAiTool → ToolSpec
  tool_spec tool = record {
    name = tool.name;
    description = tool.description;
    input_schema =
        if trim_space tool.parameters =ₛ ""
        then obj end
        else schema_or_empty (codec.unmarshal tool.parameters);
  }

  unfoldable pub tools_from_openai : List OpenAiTool → List ToolSpec
  unfolding tool_spec
  tools_from_openai [] = []
  tools_from_openai (tool ∷ tools) =
      let rest = tools_from_openai tools in
      if not (lower_is (trim_space tool.type_name) "function")
        && not (trim_space tool.type_name =ₛ "")
      then rest
      else tool_spec tool ∷ rest

-- `parse` is uuid.Parse, and `fresh` the result of uuid.NewString.
module _ (parse : String → Bool) where
  unfoldable pub is_uuid : String → Bool
  is_uuid value = parse (trim_space value)

  unfoldable pub uuid_or : String → String → String
  unfolding is_uuid
  uuid_or text fresh = if is_uuid (trim_space text) then trim_space text else fresh

module _ {Float : Type 0} (codec : Codec) (decode : String → Decoded Float)
    (quote : String → String) (parse : String → Bool) (fresh default_environment : String) where
  abbrev pub body_of : PayloadOptions → OpenAiRequest Float → ℤ → Body Float
  body_of opts req limit =
      let sent = messages_from_openai codec req.messages req.tools opts.model in
      record {
        config = config opts default_environment;
        permission_mode = "standard";
        thread_id = uuid_or parse opts.thread_id fresh;
        params = record {
          model = opts.model;
          reasoning_effort = reasoning_effort req.reasoning_effort opts.model;
          messages = sent.1;
          tools = tools_from_openai codec req.tools;
          system = sent.0;
          max_tokens = limit;
          temperature = req.temperature;
          top_p = req.top_p;
          stop = optional_raw req.stop;
          stream = true;
        };
      }

  abbrev pub limited : PayloadOptions → OpenAiRequest Float → Allowed → Built Float
  limited opts req (rejected e) = failed e
  limited opts req (tokens n) = built (body_of opts req n)

  abbrev pub from_request : PayloadOptions → Decoded Float → Built Float
  from_request opts (undecoded message) =
      failed (status_error 400 ("invalid CommandCode request: " ++ₛ message))
  from_request opts (decoded req) =
      limited opts req (max_tokens quote req.max_tokens req.max_completion_tokens opts.model)

  -- An empty payload is the request without any field.
  unfoldable pub build_payload : PayloadOptions → Built Float
  unfolding messages_from_openai tools_from_openai uuid_or max_tokens reasoning_effort optional_raw
      text_or
  build_payload opts =
      from_request opts (if opts.payload =ₛ "" then decoded no_request else decode opts.payload)
