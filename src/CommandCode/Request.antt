-- ===== src/CommandCode/Request.antt =====
-- commandcode/types.go and protocol.go: the request of the client, and what of it the provider is sent.
-- What `json.Unmarshal` finds in the client's payload is a parameter; a raw value is its text.
pub mod Content
pub mod Messages
pub mod Payload
use cpa_plugins.Base.{String, Bool, List, Option, ℤ}
use cpa_plugins.CommandCode.Json.{Fields, Json}

-- The `arguments` and `parameters` are raw values, empty when they are absent.
pub record OpenAiToolCall : Type 0 where
  pub id : String
  pub type_name : String
  pub provider_executed : Bool
  pub name : String
  pub arguments : String

pub record OpenAiMessage : Type 0 where
  pub role : String
  pub content : String
  pub name : String
  pub tool_call_id : String
  pub tool_calls : List OpenAiToolCall
  pub reasoning_content : String
  pub provider_executed : Bool

pub record OpenAiTool : Type 0 where
  pub type_name : String
  pub name : String
  pub description : String
  pub parameters : String

-- The parts of a message, which the code keeps as maps with the part's type.
pub data Part : Type 0 where
  text_part : String → Part
  reasoning_part : String → Part
  image_part : String → String → Part
  call_part : String → String → Fields → Part
  result_part : String → String → String → Part

-- A message for the provider.
pub record Message : Type 0 where
  pub role : String
  pub content : List Part
