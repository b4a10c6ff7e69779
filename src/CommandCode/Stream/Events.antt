-- ===== src/CommandCode/Stream/Events.antt =====
-- commandcode/protocol.go: what one line of the event stream does to the state and which chunks it
-- gives (commandCodeLineToOpenAIChunks), by the event's type.
pub mod Cases
pub mod Calls
pub mod Steps
pub mod Emits
pub mod Run
pub mod Arguments
pub mod Ends
pub mod Reasons
use cpa_plugins.Base.{
  ℕ, ◌-◌, String, ◌++ₛ◌, Bool, true, false, not, ◌&&◌, ◌||◌, List, [], ◌∷◌, Option, none, some,
  length, get_or, set, ltb, leb, ◌==◌, ◌=ₛ◌, if◌then◌else◌, update, trim_space, lower_is,
  equal_fold, decimal, starts_with, drop_chars, ℤ, pos, atoi,
}
use cpa_plugins.CommandCode.Json.{
  Codec, Gjson, Fields, Json, obj, Kind, string_kind, null_kind, tool_input,
}
use cpa_plugins.CommandCode.Errors.{
  StreamError, abort_error, provider_error, error_status, error_message, event_error_code,
}
use cpa_plugins.CommandCode.Usage.{
  TokenUsage, Detail, no_usage, no_detail, add, has_usage, openai_usage, detail,
}
use cpa_plugins.CommandCode.Stream.{
  ToolCall, no_call, State, Delta, no_delta, content, reasoning_content, tool_start, tool_arguments,
  Chunk, stream_chunk, ensure_tool_call, lookup_tool_call, name_call,
}

pub data EventType : Type 0 where
  text_delta reasoning_delta input_start input_delta tool_call finish_step finish abort error :
      EventType
  ignored : EventType

-- The `switch`; the types without an effect (reasoning-start, reasoning-end, tool-input-end,
-- tool-result) and unknown ones give nothing.
unfoldable pub event_type : String → EventType
event_type name =
    if name =ₛ "text-delta"
    then text_delta
    else if name =ₛ "reasoning-delta"
    then reasoning_delta
    else if name =ₛ "tool-input-start"
    then input_start
    else if name =ₛ "tool-input-delta"
    then input_delta
    else if name =ₛ "tool-call"
    then tool_call
    else if name =ₛ "finish-step"
    then finish_step
    else if name =ₛ "finish"
    then finish
    else if name =ₛ "abort"
    then abort
    else if name =ₛ "error"
    then error
    else ignored

pub record Reply : Type 0 where
  pub state : State
  pub chunks : List Chunk
  pub usage : Detail
  pub failure : Option StreamError

abbrev pub silent : State → Reply
silent s = record { state = s; chunks = []; usage = no_detail; failure = none }

abbrev pub emit : State → Delta → Reply
emit s d = record {
  state = s;
  chunks = stream_chunk s d none none ∷ [];
  usage = no_detail;
  failure = none;
}

-- mapCommandCodeFinishReason
unfoldable pub map_finish_reason : String → String
map_finish_reason reason =
    let r = trim_space reason in
    if lower_is r "tool-calls"
      || lower_is r "tool_calls"
      || lower_is r "tooluse"
      || lower_is r "tool_use"
    then "tool_calls"
    else if lower_is r "length"
        || lower_is r "max_tokens"
        || lower_is r "max-tokens"
        || lower_is r "max_output_tokens"
    then "length"
    else if lower_is r "pause_turn" || lower_is r "pause-turn"
    then "pause_turn"
    else if lower_is r "content-filter" || lower_is r "content_filter"
    then "content_filter"
    else "stop"

module _ (codec : Codec) (g : Gjson) where
  open g use {Node, get, exists, is_object, kind, string, int, boolean, raw}

  -- The first of these members with a text that is not blank.
  unfoldable pub first_text : Node → List String → String
  first_text root [] = ""
  first_text root (path ∷ paths) =
      let value = trim_space (string (get root path)) in
      if not (value =ₛ "") then value else first_text root paths

  abbrev pub event_id : Node → String
  event_id root = first_text root ("toolCallId" ∷ "tool_call_id" ∷ "id" ∷ [])

  abbrev pub event_name : Node → String
  event_name root = first_text root ("toolName" ∷ "tool_name" ∷ "name" ∷ [])

  unfoldable pub first_existing : Node → List String → String
  first_existing root [] = ""
  first_existing root (path ∷ paths) =
      if exists (get root path) then string (get root path) else first_existing root paths

  abbrev pub input_delta_text : Node → String
  input_delta_text root = first_existing root ("delta" ∷ "inputTextDelta" ∷ "text" ∷ [])

  abbrev pub is_null : Kind → Bool
  is_null null_kind = true
  is_null _ = false

  -- json.Marshal of a map that json.Unmarshal gave has no error.
  unfoldable pub first_input : Node → Fields → List String → String
  unfolding tool_input
  first_input root schema [] = "{}"
  first_input root schema (path ∷ paths) =
      let value = get root path in
      if not (exists value) || is_null (kind value)
      then first_input root schema paths
      else codec.marshal (obj (tool_input codec (raw value) schema))

  abbrev pub arguments_of : Node → Fields → String
  arguments_of root schema = first_input root schema ("input" ∷ "args" ∷ "arguments" ∷ [])

  abbrev pub or_else : ℕ → ℕ → ℕ
  or_else a b = if a == 0 then b else a

  -- commandCodeUsageFromEvent, from the usage object on.
  abbrev pub usage_of_node : Node → TokenUsage
  usage_of_node n = record {
    input = int (get n "inputTokens");
    output = int (get n "outputTokens");
    reasoning =
        or_else (int (get n "reasoningTokens"))
          (int (get (get n "outputTokenDetails") "reasoningTokens"));
    cache_read =
        or_else (int (get (get n "inputTokenDetails") "cacheReadTokens"))
          (int (get n "cachedInputTokens"));
    cache_write = int (get (get n "inputTokenDetails") "cacheWriteTokens");
    total = int (get n "totalTokens");
  }

  unfoldable pub usage_of_event : Node → TokenUsage
  usage_of_event root =
      if is_object (get root "totalUsage")
      then usage_of_node (get root "totalUsage")
      else if is_object (get root "usage")
      then usage_of_node (get root "usage")
      else no_usage

  unfoldable pub on_text : State → Node → Reply
  on_text s root =
      let delta = string (get root "text") in
      emit (record s { text = s.text ++ₛ delta }) (content delta)

  unfoldable pub on_reasoning : State → Node → Reply
  on_reasoning s root =
      let delta = string (get root "text") in
      emit (record s { reasoning = s.reasoning ++ₛ delta }) (reasoning_content delta)

  -- The start chunk is emitted once for each call.
  unfoldable pub start_call : ℕ × State → Reply
  start_call (idx, s) =
      let call = get_or s.tool_calls idx no_call in
      if s.started call.id
      then silent s
      else emit (record s { started = update s.started call.id true })
          (tool_start idx call.id call.name "")

  -- A new anonymous call begins.
  abbrev pub close_anonymous : State → String → State
  close_anonymous s id = if id =ₛ "" then record s { last_anonymous = "" } else s

  unfoldable pub on_input_start : State → Node → Reply
  on_input_start s root =
      let id = event_id root in
      start_call (ensure_tool_call (close_anonymous s id) id (event_name root))

  unfoldable pub add_arguments : ℕ × State → String → Reply
  add_arguments (idx, s) delta =
      let call = get_or s.tool_calls idx no_call in
      emit
        (record s {
          tool_calls = set s.tool_calls idx (record call { arguments = call.arguments ++ₛ delta });
        })
        (tool_arguments idx delta)

  unfoldable pub on_input_delta : State → Node → Reply
  on_input_delta s root =
      add_arguments (ensure_tool_call s (event_id root) (event_name root)) (input_delta_text root)

  -- The id of a tool-call event, and the state in which the anonymous call is closed.
  unfoldable pub call_id : State → String → String × State
  call_id s id =
      let s' = record s { last_anonymous = "" } in
      if not (id =ₛ "")
      then (id, s)
      else if not (s.last_anonymous =ₛ "")
      then (s.last_anonymous, s')
      else ("call_" ++ₛ decimal (length s.tool_calls), s')

  -- A call that is known gets its arguments, unless they are empty; the client has had the deltas.
  unfoldable pub set_arguments : State → ℕ → String → State
  set_arguments s idx arguments =
      if not (arguments =ₛ "{}")
      then record s {
        tool_calls =
            set s.tool_calls idx
              (record (get_or s.tool_calls idx no_call) { arguments = arguments });
      }
      else s

  -- A call without deltas is emitted whole.
  unfoldable pub whole_call : ℕ × State → String → Reply
  whole_call (idx, s) arguments =
      let call : ToolCall = record (get_or s.tool_calls idx no_call) { arguments = arguments } in
      emit
        (record s {
          tool_calls = set s.tool_calls idx call;
          started = update s.started call.id true;
        })
        (tool_start idx call.id call.name call.arguments)

  unfoldable pub client_call : State → String → String → String → Reply
  client_call s id name arguments = elim (lookup_tool_call s id) [
    | some idx ↦ silent (set_arguments (name_call s idx name) idx arguments)
    | none ↦ whole_call (ensure_tool_call s id name) arguments
  ]

  unfoldable pub route_call : String × State → Node → Reply
  route_call (id, s) root =
      let name = event_name root in
      if boolean (get root "providerExecuted")
      then silent (
          if not (id =ₛ "")
          then record s { provider_executed = update s.provider_executed id true }
          else s)
      else if not (id =ₛ "") && s.provider_executed id
      then silent s
      else client_call s id name (arguments_of root (s.schemas name))

  unfoldable pub on_tool_call : State → Node → Reply
  on_tool_call s root = route_call (call_id s (event_id root)) root

  unfoldable pub on_finish_step : State → Node → Reply
  on_finish_step s root =
      let parsed = usage_of_event root in
      silent (if has_usage parsed then record s { pending = parsed } else s)

  -- The event's usage or else the pending one is added, and nothing stays pending.
  unfoldable pub settle_usage : State → Node → State
  settle_usage s root =
      let parsed = usage_of_event root in
      record s {
        pending = no_usage;
        usage = add s.usage (if has_usage parsed then parsed else s.pending);
      }

  abbrev pub raw_reason : Node → String
  raw_reason root =
      let raw_finish = trim_space (string (get root "rawFinishReason")) in
      if raw_finish =ₛ "" then trim_space (string (get root "finishReason")) else raw_finish

  abbrev pub reason_of : Node → String
  reason_of root = trim_space (string (get root "finishReason"))

  abbrev pub is_pause : Node → Bool
  is_pause root =
      equal_fold (reason_of root) "pause_turn" || equal_fold (raw_reason root) "pause_turn"

  abbrev pub is_empty : List ToolCall → Bool
  is_empty [] = true
  is_empty _ = false

  -- `stop` becomes `tool_calls` when there are any.
  abbrev pub final_reason : State → String → String
  final_reason s reason =
      let mapped = map_finish_reason reason in
      if mapped =ₛ "stop" && not (is_empty s.tool_calls) then "tool_calls" else mapped

  unfoldable pub on_finish : State → Node → Reply
  on_finish s root =
      let settled = settle_usage (record s { raw_finish = raw_reason root }) root in
      let reason = final_reason s (reason_of root) in
      let done : State = record settled { finish = reason; terminal = true } in
      if is_pause root then silent (record settled { finish = "pause_turn" }) else record {
        state = done;
        chunks = stream_chunk done no_delta (some reason) (openai_usage done.usage) ∷ [];
        usage = detail done.usage;
        failure = none;
      }

  unfoldable pub on_abort : State → Node → Reply
  on_abort s root =
      let settled = settle_usage (record s { aborted = true; terminal = true }) root in
      let message = trim_space (string (get root "message")) in
      record {
        state = settled;
        chunks = [];
        usage = detail settled.usage;
        failure = some (
            abort_error 502 (
              if message =ₛ ""
              then "CommandCode generation aborted before completion"
              else message));
      }

  unfoldable pub on_error : State → Node → Reply
  on_error s root = record {
    state = s;
    chunks = [];
    usage = no_detail;
    failure =
        some
          (provider_error (error_status g root) (error_message g root) (event_error_code g root));
  }

  unfoldable pub handle_event : EventType → State → Node → Reply
  handle_event text_delta s root = on_text s root
  handle_event reasoning_delta s root = on_reasoning s root
  handle_event input_start s root = on_input_start s root
  handle_event input_delta s root = on_input_delta s root
  handle_event tool_call s root = on_tool_call s root
  handle_event finish_step s root = on_finish_step s root
  handle_event finish s root = on_finish s root
  handle_event abort s root = on_abort s root
  handle_event error s root = on_error s root
  handle_event ignored s root = silent s

  abbrev pub is_error : EventType → Bool
  is_error error = true
  is_error _ = false

  -- After the end of the stream only errors count.
  unfoldable pub handle : State → Node → Reply
  handle s root =
      let kind_of = event_type (string (get root "type")) in
      if s.terminal && not (is_error kind_of) then silent s else handle_event kind_of s root

  -- commandCodeJSONPayload; no payload is the empty text.
  unfoldable pub json_payload : String → String
  json_payload line =
      let trimmed = trim_space line in
      let payload =
        if starts_with trimmed "data:" then trim_space (drop_chars 5 trimmed) else trimmed in
      if trimmed =ₛ "" || starts_with trimmed ":" || starts_with trimmed "event:"
      then ""
      else if payload =ₛ "" || payload =ₛ "[DONE]" || not (g.valid payload)
      then ""
      else payload

  -- commandCodeLineToOpenAIChunks
  unfoldable pub line_to_chunks : State → String → Reply
  line_to_chunks s line =
      let trimmed = trim_space line in
      let payload = json_payload line in
      let root = g.parse payload in
      if trimmed =ₛ "[DONE]" || trimmed =ₛ "data: [DONE]"
      then silent (record s { saw_done = true })
      else if payload =ₛ ""
      then silent s
      else if not (is_object root)
      then silent s
      else handle s root
