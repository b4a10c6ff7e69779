-- ===== src/CommandCode/Errors.antt =====
-- commandcode/protocol.go and plugin.go: the errors of a stream event and the classification of
-- failures for the host.
use cpa_plugins.Base.{
  ℕ, String, ◌++ₛ◌, Bool, true, false, not, ◌&&◌, ◌||◌, List, [], ◌∷◌, Option, none, some, leb,
  ◌==◌, ◌=ₛ◌, if◌then◌else◌, trim_space, split_at_code, ℤ, pos, negsuc, atoi_value,
}
use cpa_plugins.CommandCode.Json.{Gjson, Kind, string_kind}

-- commandCodeAbortError and commandCodeProviderError (with its error code), a statusErr of the
-- package, and any other error, such as a transport's.
pub data StreamError : Type 0 where
  abort_error : ℕ → String → StreamError
  provider_error : ℕ → String → String → StreamError
  status_error : ℕ → String → StreamError
  other_error : String → StreamError

-- nativeabi.Error, without the retry delay.
pub record Failure : Type 0 where
  pub code : String
  pub message : String
  pub http_status : ℕ
  pub scope : String
  pub retryable : Bool

pub record Class : Type 0 where
  pub code : String
  pub scope : String
  pub retryable : Bool

-- classifyCommandCodeFailure
unfoldable pub classify_failure : ℕ → String → Class → Class
classify_failure status provider_code fallback =
    if status == 400 && provider_code =ₛ "unsupported_model"
    then record { code = "unsupported_model"; scope = "model"; retryable = false }
    else if status == 403 && provider_code =ₛ "upgrade_required"
    then record { code = "upgrade_required"; scope = "credential"; retryable = false }
    else fallback

abbrev pub status_scope : ℕ → String
status_scope status =
    if status == 400 || status == 422
    then "request"
    else if status == 404
    then "model"
    else "credential"

abbrev is_retryable : ℕ → Bool
is_retryable status = status == 429 || leb 500 status

abbrev failure_with : Class → ℕ → String → Failure
failure_with c status message = record {
  code = c.code;
  message = message;
  http_status = status;
  scope = c.scope;
  retryable = c.retryable;
}

-- `failure` on the errors that are not already a nativeabi.Error.
unfoldable pub failure : StreamError → Failure
unfolding classify_failure
failure (abort_error status message) =
    failure_with (record { code = "aborted"; scope = "request"; retryable = false }) status message
failure (provider_error status message error_code) =
    failure_with
      (classify_failure status error_code (record {
        code = "commandcode_error";
        scope = status_scope status;
        retryable = is_retryable status;
      }))
      status message
failure (status_error status message) =
    failure_with
      (record { code = "commandcode_error"; scope = "request"; retryable = is_retryable status })
      status message
failure (other_error message) =
    failure_with (record { code = "commandcode_error"; scope = "request"; retryable = true }) 500
      message

module _ (g : Gjson) where
  open g use {Node, parse, valid, get, exists, is_object, kind, string, int}

  abbrev is_text : Kind → Bool
  is_text string_kind = true
  is_text _ = false

  -- commandCodeStructuredErrorCode
  unfoldable pub structured_error_code : String → String
  structured_error_code body =
      let value = get (parse (trim_space body)) "error.code" in
      if not (valid body)
      then ""
      else if is_text (kind value)
      then trim_space (string value)
      else ""

  -- The status, zero without one, and the message of an error object inside a message.
  unfoldable pub embedded_error : String → Option (ℤ × String)
  embedded_error message = elim (split_at_code b'{' message) [
    | none ↦ none
    | some (before, after) ↦
        let inner = trim_space (string (get (parse after) "error.message")) in
        let type_name = trim_space (string (get (parse after) "error.type")) in
        if inner =ₛ ""
        then none
        else some (
          atoi_value (trim_space before),
          (if type_name =ₛ "" then "error" else type_name) ++ₛ ": " ++ₛ inner,
        )
  ]

  abbrev is_error_status : ℕ → Bool
  is_error_status status = leb 400 status && leb status 599

  -- The first status in range under one of these paths, and whether one was reported at all.
  unfoldable pub reported_status : Node → List String → Bool → Option ℕ × Bool
  reported_status root [] reported = (none, reported)
  reported_status root (path ∷ paths) reported =
      let value = get root path in
      let rest = reported_status root paths (reported || exists value) in
      if exists value && is_error_status (int value) then (some (int value), true) else rest

  abbrev embedded_status : Option (ℤ × String) → Option ℤ
  embedded_status none = none
  embedded_status (some (status, message)) = some status

  -- An embedded status in range ends the search; another one but 0 counts as reported.
  abbrev note_status : Option ℤ → Option ℕ × Bool → Option ℕ × Bool → Option ℕ × Bool
  note_status none ignored reported = ignored
  note_status (some (pos n)) ignored reported =
      if is_error_status n then (some n, true) else if n == 0 then ignored else reported
  note_status (some (negsuc n)) ignored reported = reported

  unfoldable pub embedded_statuses : Node → List String → Bool → Option ℕ × Bool
  unfolding embedded_error
  embedded_statuses root [] reported = (none, reported)
  embedded_statuses root (path ∷ paths) reported =
      let value = get root path in
      let ignored = embedded_statuses root paths reported in
      let noted = embedded_statuses root paths true in
      if is_text (kind value)
      then note_status (embedded_status (embedded_error (string value))) ignored noted
      else ignored

  abbrev message_paths : List String
  message_paths = "message" ∷ "error" ∷ "error.message" ∷ []

  abbrev default_status : Option ℕ × Bool → ℕ
  default_status (some status, reported) = status
  default_status (none, true) = 502
  default_status (none, false) = 500

  abbrev then_embedded : Node → Option ℕ × Bool → Option ℕ × Bool
  then_embedded root (some status, reported) = (some status, reported)
  then_embedded root (none, reported) = embedded_statuses root message_paths reported

  -- commandCodeErrorStatus
  unfoldable pub error_status : Node → ℕ
  unfolding reported_status embedded_statuses
  error_status root = default_status (
      then_embedded root (
        reported_status root
          ("statusCode" ∷ "status_code" ∷ "status" ∷ "error.statusCode" ∷ "error.status_code"
            ∷ "error.status" ∷ [])
          false))

  -- The code in the first message that carries one.
  unfoldable pub code_in_messages : Node → List String → String
  unfolding structured_error_code
  code_in_messages root [] = ""
  code_in_messages root (path ∷ paths) =
      let value = get root path in
      let rest = code_in_messages root paths in
      let found = elim (split_at_code b'{' (string value)) as (λ _. String) [
        | none ↦ ""
        | some (before, after) ↦ structured_error_code after
      ] in
      if not (is_text (kind value)) || found =ₛ "" then rest else found

  -- commandCodeEventErrorCode
  unfoldable pub event_error_code : Node → String
  unfolding code_in_messages
  event_error_code root =
      let value = get root "error.code" in
      if is_text (kind value)
      then trim_space (string value)
      else code_in_messages root message_paths

  abbrev embedded_message : Option (ℤ × String) → String → String
  embedded_message none message = message
  embedded_message (some (status, embedded)) message = embedded

  abbrev format_message : String → String
  format_message message =
      embedded_message (embedded_error (trim_space message)) (trim_space message)

  -- commandCodeErrorMessage
  unfoldable pub error_message : Node → String
  unfolding embedded_error
  error_message root =
      let error_node = get root "error" in
      let top = format_message (string (get root "message")) in
      let inner = format_message (string (get error_node "message")) in
      let plain = format_message (string error_node) in
      if not (top =ₛ "")
      then top
      else if is_object error_node && not (inner =ₛ "")
      then inner
      else if is_text (kind error_node) && not (plain =ₛ "")
      then plain
      else "CommandCode stream error"
