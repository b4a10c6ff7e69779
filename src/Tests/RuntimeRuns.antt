-- ===== src/Tests/RuntimeRuns.antt =====
-- internal/nativeabi/nativeabi.go: concrete calls.
use cpa_plugins.Base.{◌≡◌, refl, String, true, [], ◌∷◌, Option, none, some}
use cpa_plugins.NativeAbi.{
  AbiError, encoded, Envelope, HostCaller, returned, Handler, Runtime, shutdown, initializing,
  operate, marshal_result, answer_host, call_handler, call, read_response, call_host, host_call,
}
use cpa_plugins.NativeAbi.Statuses.{
  Succeeds, HostAccepts, call-Succeeds, shutdown_final, host_call-HostAccepts,
}

abbrev echo : Handler String
echo method request = returned request

abbrev host : HostCaller
host method request = ("{\"ok\":true}", 0)

abbrev running : Runtime String
running = record { handler = some echo; host = some host; initialized = true }

abbrev error_text : AbiError → String
error_text e = e.message

abbrev accept : String → Option Envelope
accept text = some (record { ok = true; error = none })

status_zero : (call String encoded error_text running "m" "{}").1 ≡ 0
unfolding call call_handler answer_host marshal_result
status_zero = refl

call_example :
    Succeeds String encoded error_text
      (some echo)
      "m"
      "{}"
      (call String encoded error_text running "m" "{}").0
call_example = call-Succeeds String encoded error_text running "m" "{}" status_zero

shutdown_example :
    (operate String (initializing echo host ∷ []) (shutdown String running)).handler ≡ none
shutdown_example = shutdown_final String (initializing echo host ∷ []) running refl

accepted : host_call accept running "m" (encoded "{}") ≡ none
unfolding host_call call_host read_response
accepted = refl

host_call_example : HostAccepts accept (some host) "m" (encoded "{}")
host_call_example = host_call-HostAccepts accept running "m" (encoded "{}") accepted
