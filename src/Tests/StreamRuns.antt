-- ===== src/Tests/StreamRuns.antt =====
-- commandcode/protocol.go: a concrete stream.
use cpa_plugins.Base.{
  ◌≡◌, ◌⊎◌, inr, refl, String, ◌=ₛ◌, ◌++ₛ◌, Bool, true, false, List, [], ◌∷◌, Option, none, some,
  All, if◌then◌else◌, equal_fold, trim_space,
}
use cpa_plugins.CommandCode.Json.{
  Json, Fields, obj, str, bool, end, field, Codec, Gjson, Kind, null_kind, string_kind, json_kind,
  field_of,
}
use cpa_plugins.CommandCode.Usage.{no_usage, openai_usage}
use cpa_plugins.CommandCode.Stream.{State, no_delta, stream_chunk}
use cpa_plugins.CommandCode.Stream.Events.{handle, handle_event, finish, is_pause, line_to_chunks}
use cpa_plugins.CommandCode.Stream.Events.Calls.{IsIndexed, ValidDelta, ids, IsPrefixed}
use cpa_plugins.CommandCode.Stream.Events.Emits.{contents, reasonings, IsOpen, Closes}
use cpa_plugins.CommandCode.Stream.Events.Run.{run_lines, run_lines-text}
use cpa_plugins.CommandCode.Stream.Events.Arguments.{Appends, run_lines-Appends}
use cpa_plugins.CommandCode.Stream.Events.Ends.{Same, run_lines-closing, handle-ends}
use cpa_plugins.CommandCode.Stream.Events.Reasons.{pause-turn_ends}

abbrev texts : List (String × String) → Fields
texts [] = end
texts ((k, v) ∷ rest) = field k (str v) (texts rest)

-- The documents that the lines below stand for.
abbrev document : String → Fields
document line =
    if line =ₛ "text"
    then texts (("type", "text-delta") ∷ ("text", "hi") ∷ [])
    else if line =ₛ "call"
    then texts (("type", "tool-call") ∷ ("id", "a") ∷ ("name", "f") ∷ [])
    else if line =ₛ "delta"
    then texts (("type", "tool-input-delta") ∷ ("id", "b") ∷ ("name", "f") ∷ ("delta", "{}") ∷ [])
    else if line =ₛ "finish"
    then texts (("type", "finish") ∷ ("finishReason", "stop") ∷ [])
    else if line =ₛ "hold"
    then texts (("type", "finish") ∷ ("finishReason", "pause_turn") ∷ [])
    else if line =ₛ "pause"
    then texts (("type", "finish") ∷ ("finishReason", "pause-turn") ∷ [])
    else end

abbrev read_member : Option Json → String → Option Json
read_member (some (obj fs)) key = field_of fs key
read_member _ key = none

abbrev is_some : Option Json → Bool
is_some (some j) = true
is_some none = false

abbrev is_obj : Option Json → Bool
is_obj (some (obj fs)) = true
is_obj _ = false

abbrev kind_of : Option Json → Kind
kind_of (some (str s)) = string_kind
kind_of (some (obj fs)) = json_kind
kind_of _ = null_kind

abbrev text_of : Option Json → String
text_of (some (str s)) = s
text_of _ = ""

abbrev bool_of : Option Json → Bool
bool_of (some (bool b)) = b
bool_of _ = false

abbrev pub g : Gjson
g = record {
  Node = Option Json;
  parse = λ line. some (obj (document line));
  valid = λ line. true;
  get = read_member;
  exists = is_some;
  is_object = is_obj;
  kind = kind_of;
  string = text_of;
  int = λ n. 0;
  boolean = bool_of;
  raw = text_of;
}

abbrev pub codec : Codec
codec = record { unmarshal = λ s. none; marshal = λ j. "{}" }

abbrev pub start : State
start = record {
  id = "chatcmpl-1";
  model = "m";
  finish = "";
  raw_finish = "";
  last_anonymous = "";
  created = 0;
  text = "";
  reasoning = "";
  tool_calls = [];
  index_by_id = λ _. none;
  started = λ _. false;
  usage = no_usage;
  pending = no_usage;
  terminal = false;
  saw_done = false;
  aborted = false;
  provider_executed = λ _. false;
  schemas = λ _. end;
}

abbrev lines : List String
lines = "text" ∷ "call" ∷ "text" ∷ "finish" ∷ []

abbrev live_lines : List String
live_lines = "text" ∷ "call" ∷ "text" ∷ []

start-IsIndexed : IsIndexed start
start-IsIndexed = record { known = λ id i h. cc h; listed = λ id i h. cc h }

run_lines-text_example :
    let r = run_lines codec g start lines in
    (r.state.text ≡ "" ++ₛ contents r.chunks) × (r.state.reasoning ≡ "" ++ₛ reasonings r.chunks)
run_lines-text_example = run_lines-text codec g start lines

run_lines-Appends_example :
    let r = run_lines codec g start live_lines in
    let next = line_to_chunks codec g r.state "delta" in
    IsIndexed r.state
    × IsPrefixed (ids start) (ids r.state)
    × All (λ c. ValidDelta r.state c.delta) r.chunks
    × All (λ c. Appends r.state next.state c.delta) next.chunks
run_lines-Appends_example = run_lines-Appends codec g start live_lines "delta" start-IsIndexed

run_lines-closing_example :
    let r = run_lines codec g start lines in All IsOpen r.chunks ⊎ Closes r.chunks r.state
run_lines-closing_example = run_lines-closing codec g start lines

abbrev finish_root : Option Json
finish_root = some (obj (document "finish"))

abbrev pause_root : Option Json
pause_root = some (obj (document "pause"))

finish_goes_on : is_pause codec g finish_root ≡ false
unfolding field_of equal_fold trim_space
finish_goes_on = refl

finish_type : g.string (g.get finish_root "type") ≡ "finish"
unfolding field_of
finish_type = refl

handle-ends_example :
    let after = handle codec g start finish_root in
    let r = run_lines codec g after.state lines in
    (after.state.terminal ≡ true) × (r.chunks ≡ []) × Same after.state r.state
handle-ends_example =
    handle-ends codec g start finish_root lines (inr (finish_type, finish_goes_on))

no_raw_reason : g.string (g.get pause_root "rawFinishReason") ≡ ""
unfolding field_of
no_raw_reason = refl

dashed_reason : g.string (g.get pause_root "finishReason") ≡ "pause-turn"
unfolding field_of
dashed_reason = refl

pause-turn_example :
    let r = handle_event codec g finish start pause_root in
    (r.chunks ≡ stream_chunk start no_delta (some "pause_turn") (openai_usage r.state.usage) ∷ [])
    × (r.state.finish ≡ "pause_turn")
    × (r.state.terminal ≡ true)
pause-turn_example = pause-turn_ends codec g start pause_root no_raw_reason dashed_reason
