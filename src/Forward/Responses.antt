-- ===== src/Forward/Responses.antt =====
-- embeddings-forward/forward.go: the client's response. A body is the text of its bytes. json.Unmarshal
-- of a structured error and json.Marshal are parameters.
pub mod Statuses
use Prim.Native.String
use cpa_plugins.Base.{
  ℕ, ◌+◌, String, Char, code, ◌++ₛ◌, ◌=ₛ◌, Bool, true, false, not, ◌&&◌, List, [], ◌∷◌, ℤ, pos,
  negsuc, ltb, leb, ◌==◌, if◌then◌else◌, Headers, put_header, trim_space, decimal_ℤ,
}
use cpa_plugins.Forward.Keys.{is_zero}
use cpa_plugins.Forward.Calls.{UpstreamResult, header_value, add_headers}

pub record DirectResponse : Type 0 where
  pub status_code : ℤ
  pub headers : Headers
  pub body : String

-- What json.Marshal is given for an error.
pub record ErrorPayload : Type 0 where
  pub message : String
  pub error_type : String
  pub code : String
  pub provider : String

-- The bytes of a character in UTF-8.
unfoldable pub char_bytes : ℕ → ℕ
char_bytes c = if ltb c 128 then 1 else if ltb c 2048 then 2 else if ltb c 65536 then 3 else 4

unfoldable pub bytes : String → ℕ
bytes String.[] = 0
bytes (String.◌∷◌ c s) = char_bytes (code c) + bytes s

-- The longest prefix that ends with a whole character within the first 200 bytes; `used` counts them.
unfoldable pub cut : ℕ → String → String
cut used String.[] = ""
cut used (String.◌∷◌ c s) =
    let rest = cut (used + char_bytes (code c)) s in
    if leb (used + char_bytes (code c)) 200 then String.◌∷◌ c rest else ""

unfoldable pub snippet : String → String
snippet body =
    let text = trim_space body in
    let short = if ltb 200 (bytes text) then cut 0 text ++ₛ "..." else text in
    if short =ₛ "" then "empty body" else short

abbrev pub is_2xx : ℤ → Bool
is_2xx (pos n) = leb 200 n && ltb n 300
is_2xx (negsuc n) = false

abbrev pub json_header : Headers
json_header = ("Content-Type", "application/json" ∷ []) ∷ []

abbrev set_if_given : String → String → Headers → Headers
set_if_given name value headers =
    if not (value =ₛ "") then put_header name (value ∷ []) headers else headers

module _ (is_structured : String → Bool) (marshal_error : ErrorPayload → String) where
  unfoldable pub error_response : ℤ → String → String → String → String → DirectResponse
  error_response status error_type code message provider = record {
    status_code = status;
    headers = json_header;
    body =
        marshal_error
          (record { message = message; error_type = error_type; code = code; provider = provider });
  }

  abbrev retry_headers : UpstreamResult → Headers
  retry_headers r = set_if_given "Retry-After" (header_value r.headers "Retry-After") json_header

  abbrev wrapped : UpstreamResult → DirectResponse
  wrapped r =
      let response =
        error_response r.status "upstream_error" "upstream_error"
          ("provider returned HTTP " ++ₛ decimal_ℤ r.status ++ₛ ": " ++ₛ snippet r.body)
          r.provider in
      record response { headers = add_headers response.headers (retry_headers r) }

  unfoldable pub client_response : UpstreamResult → DirectResponse
  client_response r =
      if r.provider =ₛ ""
      then error_response (pos 502) "upstream_error" "no_provider_attempted"
          "no provider could be attempted" ""
      else if r.malformed
      then error_response (pos 502) "upstream_error" "invalid_upstream_response"
          "provider returned a response without answers" r.provider
      else if is_zero r.status
      then error_response (pos 502) "upstream_error" "upstream_unavailable"
          "upstream request failed" r.provider
      else if is_2xx r.status
      then record {
        status_code = r.status;
        headers =
            set_if_given "Content-Type" (header_value r.headers "Content-Type") (retry_headers r);
        body = r.body;
      }
      else if is_structured r.body
      then record { status_code = r.status; headers = retry_headers r; body = r.body }
      else wrapped r
