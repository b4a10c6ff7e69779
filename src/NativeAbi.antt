-- ===== src/NativeAbi.antt =====
-- internal/nativeabi/nativeabi.go: the runtime that passes the calls of the host to the handler and
-- back. encoding/json, the handler and the host's callback are parameters; a handler's panic is one of
-- its answers, and a status is compared with 0 only. A read or write of the runtime's fields under the lock is one step.
pub mod Statuses
use cpa_plugins.Base.{
  ℕ, String, ◌++ₛ◌, Bool, true, false, not, List, [], ◌∷◌, Option, none, some, ◌==◌, if◌then◌else◌,
}

pub record AbiError : Type 0 where
  pub code : String
  pub message : String
  pub retryable : Bool
  pub http_status : ℕ
  pub scope : String
  pub retry_after_ms : Option ℕ

-- An error of this code and message.
abbrev pub plain_error : String → String → AbiError
plain_error code message = record {
  code = code;
  message = message;
  retryable = false;
  http_status = 0;
  scope = "";
  retry_after_ms = none;
}

-- An encoding or the message of its error.
pub data Encoding : Type 0 where
  encoded : String → Encoding
  not_encoded : String → Encoding

-- The envelope of a host's response, as far as it decides.
pub record Envelope : Type 0 where
  pub ok : Bool
  pub error : Option AbiError

-- The errors of `HostCall`.
pub data HostError : Type 0 where
  unavailable : HostError
  marshal_request : String → HostError
  returned_status : String → ℕ → HostError
  decode_response : String → HostError
  failed_without_error : String → HostError
  reported : AbiError → HostError

-- A host's callback: the response and its status.
abbrev pub HostCaller : Type 0
HostCaller = String → String → String × ℕ

module _ (Value : Type 0) where
  pub data Answer : Type 0 where
    returned : Value → Answer
    refused : AbiError → Answer
    panicked : Answer

  abbrev pub Handler : Type 0
  Handler = String → String → Answer

  pub record Runtime : Type 0 where
    pub handler : Option Handler
    pub host : Option HostCaller
    pub initialized : Bool

  abbrev pub new_runtime : Runtime
  new_runtime = record { handler = none; host = none; initialized = false }

  -- The Boolean tells whether there was no error.
  unfoldable pub initialize : Handler → HostCaller → Runtime → Bool × Runtime
  initialize handler host r =
      if r.initialized
      then (false, r)
      else (true, record { handler = some handler; host = some host; initialized = true })

  unfoldable pub shutdown : Runtime → Runtime
  shutdown r = record { handler = none; host = none; initialized = r.initialized }

  -- What the host asks of the runtime's state.
  pub data Operation : Type 0 where
    initializing : Handler → HostCaller → Operation
    shutting_down : Operation

  unfoldable pub operate : List Operation → Runtime → Runtime
  unfolding initialize shutdown
  operate [] r = r
  operate (initializing handler host ∷ ops) r = operate ops (initialize handler host r).1
  operate (shutting_down ∷ ops) r = operate ops (shutdown r)

  module _ (encode_value : Value → Encoding) (encode_error : AbiError → String) where
    -- marshalEnvelope of a result, with the status that `Call` returns.
    unfoldable pub marshal_result : Encoding → String × ℕ
    marshal_result (encoded text) = ("{\"ok\":true,\"result\":" ++ₛ text ++ₛ "}", 0)
    marshal_result (not_encoded message) =
        (encode_error (plain_error "internal" ("encode plugin result: " ++ₛ message)), 1)

    unfoldable pub answer_host : Answer → String × ℕ
    answer_host (returned value) = marshal_result (encode_value value)
    answer_host (refused e) = (encode_error e, 1)
    answer_host panicked = (encode_error (plain_error "plugin_panic" "plugin handler panicked"), 1)

    unfoldable pub call_handler : Option Handler → String → String → String × ℕ
    call_handler none method request =
        (encode_error (plain_error "plugin_unavailable" "plugin is not initialized"), 1)
    call_handler (some handler) method request = answer_host (handler method request)

    unfoldable pub call : Runtime → String → String → String × ℕ
    call r method request = call_handler r.handler method request

-- What `HostCall` makes of a response; `none` is success.
unfoldable pub read_response : String → ℕ → Option Envelope → Option HostError
read_response method status none =
    if not (status == 0)
    then some (returned_status method status)
    else some (decode_response method)
read_response method status (some envelope) =
    if not envelope.ok
    then (elim envelope.error [
      | none ↦ some (failed_without_error method)
      | some e ↦ some (reported e)
    ])
    else if not (status == 0)
    then some (returned_status method status)
    else none

module _ (decode : String → Option Envelope) where
  unfoldable pub call_host : Option HostCaller → String → Encoding → Option HostError
  call_host none method request = some unavailable
  call_host (some host) method (not_encoded message) = some (marshal_request method)
  call_host (some host) method (encoded payload) =
      let (response, status) = host method payload in read_response method status (decode response)

  unfoldable pub host_call : {Value : Type 0} → Runtime Value → String → Encoding → Option HostError
  host_call r method request = call_host r.host method request
