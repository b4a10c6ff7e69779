-- ===== src/CommandCode/Request/Payload/Sound.antt =====
-- commandcode/protocol.go: what holds of every body that is built.
use cpa_plugins.Base.{
  ◌≡◌, refl, String, ◌=ₛ◌, Bool, true, some, if◌then◌else◌, Bool-cases, inl, inr, trim_space,
}
use cpa_plugins.CommandCode.Errors.{status_error}
use cpa_plugins.CommandCode.Json.{Codec}
use cpa_plugins.CommandCode.Models.{Allowed, tokens, rejected, model_max_tokens}
use cpa_plugins.CommandCode.Models.Limits.{Judged, Fits, max_tokens_lem}
use cpa_plugins.CommandCode.Request.Payload.{
  PayloadOptions, OpenAiRequest, Decoded, undecoded, decoded, Built, failed, built, is_uuid,
  uuid_or, limited, from_request, build_payload, no_request,
}

-- A refusal with status 400, or a streamed request for the model, under a thread id that is a UUID,
-- whose token limit is from 1 to the limit of the model.
unfoldable pub IsSound : {Float : Type 0} → (String → Bool) → PayloadOptions → Built Float → Type 0
unfolding Fits
IsSound parse opts (failed e) = (message : String) × (e ≡ status_error 400 message)
IsSound parse opts (built b) =
    Fits (model_max_tokens opts.model) (some b.params.max_tokens)
    × (is_uuid parse b.thread_id ≡ true)
    × (b.params.model ≡ opts.model)
    × (b.params.stream ≡ true)

uuid_or-IsUuid :
    (parse : String → Bool) (text fresh : String)
    → is_uuid parse fresh ≡ true
    → is_uuid parse (uuid_or parse text fresh) ≡ true
unfolding uuid_or
uuid_or-IsUuid parse text fresh h = elim (Bool-cases (is_uuid parse (trim_space text))) [
  | inl e ↦ rw (e, if◌then◌else◌) e
  | inr e ↦ rw (e, if◌then◌else◌) h
]

module _ {Float : Type 0} (codec : Codec) (decode : String → Decoded Float)
    (quote : String → String) (parse : String → Bool) (fresh default_environment : String)
    (h : is_uuid parse fresh ≡ true) where
  limited-IsSound :
      (opts : PayloadOptions) (req : OpenAiRequest Float) (a : Allowed)
      → Judged (model_max_tokens opts.model) req.max_tokens req.max_completion_tokens a
      → IsSound parse opts (limited codec decode quote parse fresh default_environment opts req a)
  unfolding IsSound Judged
  limited-IsSound opts req (tokens n) j =
      (j.3, uuid_or-IsUuid parse opts.thread_id fresh h, refl, refl)
  limited-IsSound opts req (rejected e) j = (j.1, j.2)

  from_request-IsSound :
      (opts : PayloadOptions) (d : Decoded Float)
      → IsSound parse opts (from_request codec decode quote parse fresh default_environment opts d)
  unfolding IsSound
  from_request-IsSound opts (undecoded message) = (_, refl)
  from_request-IsSound opts (decoded req) =
      limited-IsSound opts req _
        (max_tokens_lem quote req.max_tokens req.max_completion_tokens opts.model).1

  -- Where uuid.NewString gives a UUID: a payload is refused with status 400, or its body is a streamed
  -- request for the model of the options, under a thread id that is a UUID, with a token limit from 1
  -- to the limit of the model.
  pub build_payload-IsSound :
      (opts : PayloadOptions)
      → IsSound parse opts (build_payload codec decode quote parse fresh default_environment opts)
  unfolding build_payload
  build_payload-IsSound opts =
      from_request-IsSound opts
        (if opts.payload =ₛ "" then decoded no_request else decode opts.payload)
