-- ===== src/CommandCode/Stream.antt =====
-- commandcode/protocol.go: the state of one stream and its tool calls.
pub mod Events
use cpa_plugins.Base.{
  ℕ, suc, String, ◌++ₛ◌, Bool, true, false, not, ◌&&◌, List, [], ◌∷◌, ◌++◌, Option, none, some,
  length, get_or, set, ◌=ₛ◌, if◌then◌else◌, update, trim_space, decimal,
}
use cpa_plugins.CommandCode.Json.{Fields}
use cpa_plugins.CommandCode.Usage.{TokenUsage, OpenAiUsage, no_usage}

pub record ToolCall : Type 0 where
  pub id : String
  pub name : String
  pub arguments : String

abbrev pub no_call : ToolCall
no_call = record { id = ""; name = ""; arguments = "" }

-- commandCodeStreamState. The maps by id are functions; the nil maps that the source guards against
-- are empty ones.
pub record State : Type 0 where
  pub id : String
  pub model : String
  pub finish : String
  pub raw_finish : String
  pub last_anonymous : String
  pub created : ℕ
  pub text : String
  pub reasoning : String
  pub tool_calls : List ToolCall
  pub index_by_id : String → Option ℕ
  pub started : String → Bool
  pub usage : TokenUsage
  pub pending : TokenUsage
  pub terminal : Bool
  pub saw_done : Bool
  pub aborted : Bool
  pub provider_executed : String → Bool
  pub schemas : String → Fields

-- newCommandCodeStreamState; the random id and the time are arguments, and the tools' schemas those
-- that the callers set.
pub new_state : String → ℕ → String → (String → Fields) → State
new_state id created model schemas = record {
  id = id;
  model = model;
  finish = "";
  raw_finish = "";
  last_anonymous = "";
  created = created;
  text = "";
  reasoning = "";
  tool_calls = [];
  index_by_id = λ _. none;
  started = λ _. false;
  usage = no_usage;
  pending = no_usage;
  terminal = false;
  saw_done = false;
  aborted = false;
  provider_executed = λ _. false;
  schemas = schemas;
}

-- The delta of a chunk: the objects that the source builds.
pub data Delta : Type 0 where
  no_delta : Delta
  content : String → Delta
  reasoning_content : String → Delta
  tool_start : ℕ → String → String → String → Delta
  tool_arguments : ℕ → String → Delta

-- streamChunk, before json.Marshal: no finish reason is null, no usage is left out.
pub record Chunk : Type 0 where
  pub id : String
  pub created : ℕ
  pub model : String
  pub delta : Delta
  pub finish_reason : Option String
  pub usage : Option OpenAiUsage

abbrev pub stream_chunk : State → Delta → Option String → Option OpenAiUsage → Chunk
stream_chunk s d finish usage = record {
  id = s.id;
  created = s.created;
  model = s.model;
  delta = d;
  finish_reason = finish;
  usage = usage;
}

-- The id that `ensureToolCall` looks up, with the state in which an anonymous call has got one.
unfoldable pub anonymous_id : State → String → String × State
anonymous_id s id =
    let new = "call_" ++ₛ decimal (length s.tool_calls) in
    if not (trim_space id =ₛ "")
    then (trim_space id, s)
    else if not (s.last_anonymous =ₛ "")
    then (s.last_anonymous, s)
    else (new, record s { last_anonymous = new })

-- Gives a call without a name this one.
unfoldable pub name_call : State → ℕ → String → State
name_call s idx name =
    let call = get_or s.tool_calls idx no_call in
    if not (name =ₛ "") && call.name =ₛ ""
    then record s { tool_calls = set s.tool_calls idx (record call { name = name }) }
    else s

unfoldable pub append_call : State → String → String → State
append_call s id name = record s {
  tool_calls = s.tool_calls ++ record { id = id; name = name; arguments = "" } ∷ [];
  index_by_id = update s.index_by_id id (some (length s.tool_calls));
}

abbrev pub ensure_known : String × State → String → ℕ × State
ensure_known (id, s) name = elim (s.index_by_id id) [
  | some idx ↦ (idx, name_call s idx name)
  | none ↦ (length s.tool_calls, append_call s id name)
]

unfoldable pub ensure_tool_call : State → String → String → ℕ × State
unfolding anonymous_id name_call append_call
ensure_tool_call s id name = ensure_known (anonymous_id s id) name

unfoldable pub lookup_tool_call : State → String → Option ℕ
lookup_tool_call s id = s.index_by_id (trim_space id)

-- resetCommandCodeContinuationState
unfoldable pub reset_continuation : State → State
reset_continuation s = record s {
  finish = "";
  raw_finish = "";
  terminal = false;
  saw_done = false;
  aborted = false;
  pending = no_usage;
}
