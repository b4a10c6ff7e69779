-- ===== src/Forward/Responses/Statuses.antt =====
-- embeddings-forward/forward.go: what reaches the client of an upstream's answer.

use cpa_plugins.Base.{
  ℕ, ◌+◌, ◌≤◌, ◌≡◌, ◌⊎◌, refl, inl, inr, String, code, ◌=ₛ◌, Bool, false, leb, leb→le,
  if◌then◌else◌, Bool-cases, arith,
}
use cpa_plugins.Forward.Keys.{is_zero}
use cpa_plugins.Forward.Calls.{UpstreamResult}
use cpa_plugins.Forward.Responses.{
  ErrorPayload, char_bytes, bytes, cut, is_2xx, error_response, client_response,
}

-- The prefix that a long error body is cut to has at most 200 bytes.
bytes-cut : (used : ℕ) (s : String) → used ≤ 200 → used + bytes (cut used s) ≤ 200
unfolding bytes cut
bytes-cut used String.[] h = omega arith
bytes-cut used (String.◌∷◌ c s) h = elim (Bool-cases (leb (used + char_bytes (code c)) 200)) [
  | inl e ↦
      let fits = leb→le (used + char_bytes (code c)) 200 e in
      let rest = bytes-cut (used + char_bytes (code c)) s fits in
      rw (e, if◌then◌else◌) (omega arith)
  | inr e ↦ rw (e, if◌then◌else◌) (omega arith)
]

module _ (is_structured : String → Bool) (marshal_error : ErrorPayload → String) where
  -- An answer that a provider gave, with its answers where these are asked for, reaches the client
  -- with its own status; a success and a structured error reach it with their own body too.
  pub client_response_lem :
      (r : UpstreamResult)
      → (r.provider =ₛ "") ≡ false
      → r.malformed ≡ false
      → is_zero r.status ≡ false
      → let c = client_response is_structured marshal_error r in
        (c.status_code ≡ r.status)
        × ((c.body ≡ r.body) ⊎ ((is_2xx r.status ≡ false) × (is_structured r.body ≡ false)))
  unfolding client_response error_response
  client_response_lem r p m z = elim (Bool-cases (is_2xx r.status)) [
    | inl s ↦ rw (p, m, z, s, if◌then◌else◌) (refl, inl refl)
    | inr s ↦ elim (Bool-cases (is_structured r.body)) [
      | inl t ↦ rw (p, m, z, s, t, if◌then◌else◌) (refl, inl refl)
      | inr t ↦ rw (p, m, z, s, t, if◌then◌else◌) (refl, inr (refl, refl))
    ]
  ]
