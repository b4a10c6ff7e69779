-- ===== src/CommandCode/Request/Messages.antt =====
-- commandcode/protocol.go: `commandCodeMessagesFromOpenAI`, and what it needs of the tools and the ids.
pub mod Answered
pub mod Quiet
pub mod Known
pub mod Pairing
use cpa_plugins.Base.{
  ℕ, ◌+◌, String, ◌++ₛ◌, ◌=ₛ◌, Bool, true, false, not, ◌&&◌, ◌||◌, List, [], ◌∷◌, ◌++◌, Option,
  none, some, if◌then◌else◌, trim_space, lower_is, equal_fold, is_in, keep, length, decimal, join,
  update,
}
use cpa_plugins.CommandCode.Json.{Json, obj, Fields, end, Codec, tool_input}
use cpa_plugins.CommandCode.Models.{model_supports_images}
use cpa_plugins.CommandCode.Request.{
  OpenAiMessage, OpenAiToolCall, OpenAiTool, Part, text_part, reasoning_part, call_part,
  result_part, Message,
}
use cpa_plugins.CommandCode.Request.Content.{
  user_content, assistant_content_parts, text_from_raw_content,
}

-- The cases of the switches on the role, which is trimmed and put in lower case.
pub data Role : Type 0 where
  instructing asking answering reporting unknown : Role

unfoldable pub role_of : String → Role
role_of role =
    let role' = trim_space role in
    if lower_is role' "system" || lower_is role' "developer"
    then instructing
    else if lower_is role' "user"
    then asking
    else if lower_is role' "assistant"
    then answering
    else if lower_is role' "tool"
    then reporting
    else unknown

abbrev pub add_id : String → List String → List String
add_id id ids = if id =ₛ "" then ids else id ∷ ids

unfoldable pub add_calls : List OpenAiToolCall → List String → List String
add_calls [] ids = ids
add_calls (call ∷ calls) ids = add_id (trim_space call.id) (add_calls calls ids)

abbrev pub ids_called : Role → OpenAiMessage → List String → List String
ids_called answering m ids = add_calls m.tool_calls ids
ids_called _ m ids = ids

abbrev pub ids_reported : Role → OpenAiMessage → List String → List String
ids_reported reporting m ids = add_id (trim_space m.tool_call_id) ids
ids_reported _ m ids = ids

-- `callIDs` and `resultIDs`, as lists of their elements.
unfoldable pub call_ids : List OpenAiMessage → List String
unfolding add_calls role_of
call_ids [] = []
call_ids (m ∷ ms) = ids_called (role_of m.role) m (call_ids ms)

unfoldable pub result_ids : List OpenAiMessage → List String
unfolding role_of
result_ids [] = []
result_ids (m ∷ ms) = ids_reported (role_of m.role) m (result_ids ms)

unfoldable pub paired_tool_call_ids : List OpenAiMessage → List String
unfolding call_ids result_ids
paired_tool_call_ids ms = keep (λ id. is_in id (result_ids ms)) (call_ids ms)

-- `parts` and `missingResults`, whose elements are the id and the name of a call.
pub record Calls : Type 0 where
  pub parts : List Part
  pub missing : List (String × String)

abbrev pub no_result_text : String
no_result_text = "No result — the tool call did not complete (interrupted or lost)."

abbrev pub tool_message : String → String → String → Message
tool_message id name value = record { role = "tool"; content = result_part id name value ∷ [] }

unfoldable pub missing_messages : List (String × String) → List Message
missing_messages [] = []
missing_messages ((id, name) ∷ calls) = tool_message id name no_result_text ∷ missing_messages calls

abbrev is_other_type : String → Bool
is_other_type t = not (trim_space t =ₛ "") && not (equal_fold t "function")

abbrev pub id_or_number : String → ℕ → String
id_or_number id n = if id =ₛ "" then "call_" ++ₛ decimal n else id

unfoldable pub assistant_message : List Part → List Message
assistant_message [] = []
assistant_message (part ∷ parts) = record { role = "assistant"; content = part ∷ parts } ∷ []

unfoldable pub user_message : List Part → List Message
user_message [] = []
user_message (part ∷ parts) = record { role = "user"; content = part ∷ parts } ∷ []

unfoldable pub emitted : Calls → List Message
unfolding assistant_message missing_messages
emitted calls = assistant_message calls.parts ++ missing_messages calls.missing

module _ (codec : Codec) where
  abbrev schema_of : String → Fields
  schema_of parameters =
      if trim_space parameters =ₛ ""
      then end
      else elim (codec.unmarshal parameters) [ some (obj fs) ↦ fs | _ ↦ end ]

  -- The loop over the tools; a later tool replaces an earlier one of its name.
  unfoldable pub add_schemas : List OpenAiTool → (String → Fields) → String → Fields
  add_schemas [] schemas = schemas
  add_schemas (tool ∷ tools) schemas =
      let name = trim_space tool.name in
      add_schemas tools
        (if name =ₛ "" then schemas else update schemas name (schema_of tool.parameters))

  unfoldable pub tool_schemas : List OpenAiTool → String → Fields
  unfolding add_schemas
  tool_schemas tools = add_schemas tools λ name. end

  module _ (schemas : String → Fields) (paired : List String) where
    -- A call that is sent: its part, and its place among the calls without a result.
    unfoldable pub send_call : OpenAiToolCall → String → Calls → Calls
    unfolding tool_input
    send_call call id c = record {
      parts =
          c.parts
          ++ call_part id call.name (tool_input codec call.arguments (schemas call.name)) ∷ [];
      missing = if is_in call.id paired then c.missing else c.missing ++ (id, call.name) ∷ [];
    }

    -- One turn of the loop over the calls of an assistant's message.
    unfoldable pub take_call : OpenAiToolCall → Calls → Calls
    unfolding send_call
    take_call call c =
        if is_other_type call.type_name || call.provider_executed
        then c
        else send_call call (id_or_number (trim_space call.id) (length c.missing + length c.parts))
            c

    unfoldable pub take_calls : List OpenAiToolCall → Calls → Calls
    unfolding take_call
    take_calls [] c = c
    take_calls (call ∷ calls) c = take_calls calls (take_call call c)

    unfoldable pub first_parts : OpenAiMessage → List Part
    unfolding assistant_content_parts
    first_parts m =
        let reasoning = trim_space m.reasoning_content in
        (if reasoning =ₛ "" then [] else reasoning_part reasoning ∷ [])
        ++ assistant_content_parts codec m.content

    -- What one message adds to the messages of the provider.
    unfoldable pub messages_of : String → Role → OpenAiMessage → List Message
    unfolding user_content user_message first_parts take_calls emitted text_from_raw_content
    messages_of model instructing m = []
    messages_of model asking m =
        user_message (user_content codec m.content (model_supports_images model))
    messages_of model answering m =
        emitted (take_calls m.tool_calls (record { parts = first_parts m; missing = [] }))
    messages_of model reporting m =
        if trim_space m.tool_call_id =ₛ "" || m.provider_executed
        then []
        else tool_message m.tool_call_id m.name (text_from_raw_content codec m.content) ∷ []
    messages_of model unknown m = []

    -- The loop over the messages, for the messages of the provider.
    unfoldable pub all_messages : String → List OpenAiMessage → List Message
    unfolding messages_of role_of
    all_messages model [] = []
    all_messages model (m ∷ ms) = messages_of model (role_of m.role) m ++ all_messages model ms

  abbrev system_part : Role → String → List String → List String
  system_part instructing text rest = if text =ₛ "" then rest else text ∷ rest
  system_part _ text rest = rest

  -- The loop over the messages, for the system text.
  unfoldable pub system_parts : List OpenAiMessage → List String
  unfolding text_from_raw_content role_of
  system_parts [] = []
  system_parts (m ∷ ms) =
      system_part (role_of m.role) (text_from_raw_content codec m.content) (system_parts ms)

  unfoldable pub messages_from_openai :
      List OpenAiMessage → List OpenAiTool → String → String × List Message
  unfolding system_parts all_messages tool_schemas paired_tool_call_ids
  messages_from_openai ms tools model = (
    join "\n\n" (system_parts ms),
    all_messages (tool_schemas tools) (paired_tool_call_ids ms) model ms,
  )
