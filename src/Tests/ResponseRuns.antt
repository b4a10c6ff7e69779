-- ===== src/Tests/ResponseRuns.antt =====
-- embeddings-forward/forward.go: a concrete error.
use cpa_plugins.Base.{◌≡◌, ◌⊎◌, refl, String, Bool, false, [], ◌∷◌, pos}
use cpa_plugins.Forward.Calls.{UpstreamResult}
use cpa_plugins.Forward.Responses.{ErrorPayload, is_2xx, client_response}
use cpa_plugins.Forward.Responses.Statuses.{client_response_lem}

abbrev never : String → Bool
never body = false

abbrev message_of : ErrorPayload → String
message_of e = e.message

abbrev limited : UpstreamResult
limited = record {
  provider = "p";
  status = pos 429;
  headers = ("Retry-After", "7" ∷ []) ∷ [];
  body = "slow down";
  malformed = false;
}

client_response_example :
    let c = client_response never message_of limited in
    (c.status_code ≡ pos 429)
    × ((c.body ≡ "slow down") ⊎ ((is_2xx (pos 429) ≡ false) × (never "slow down" ≡ false)))
client_response_example = client_response_lem never message_of limited refl refl refl
