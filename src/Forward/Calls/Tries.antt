-- ===== src/Forward/Calls/Tries.antt =====
-- embeddings-forward/forward.go: which keys of a provider `tryProvider` tries, and when it stops.
use cpa_plugins.Base.{
  ℕ, suc, ◌<◌, ◌≡◌, refl, ◌≢◌, ◌⊎◌, inl, inr, String, List, [], ◌∷◌, ◌++◌, Option, some, ℤ, length,
  Headers, ap, ◌∙◌, sym, subst, All, ◌+◌,
}
use cpa_plugins.Forward.Config.{Match}
use cpa_plugins.Forward.Keys.{ordered, advance, order}
use cpa_plugins.Forward.Keys.Providers.{order-All}
use cpa_plugins.Forward.Calls.{
  Outcome, success, final, next_key, next_provider, classify, UpstreamResult, no_result,
  HostHttpRequest, HostHttpResponse, World, Call, request, try_keys, try_provider, forward_from,
  forward,
}
use cpa_plugins.Forward.Calls.Attempts.{
  status_of, log_attempt-sent, result_of-status, outcome_at, attempted, answer, cooled, cooled-sent,
  ordered-cons,
}

abbrev pub HasKeys : Match → Type 0
HasKeys m = 0 < length m.provider.api_keys

module _ (clock : ℕ → ℤ) (upstream : ℕ → HostHttpRequest → Option HostHttpResponse) where
  module _ (c : Call) (m : Match) (body : String) (extra : Headers) where
    -- After the requests `before`, one request was sent with each of these keys, in their order, and
    -- each was answered by a status after which the next key is due; `after` are then all requests.
    abbrev pub Rejected : List HostHttpRequest → List String → List HostHttpRequest → Type 0
    Rejected before [] after = after ≡ before
    Rejected before (key ∷ keys) after =
        (outcome_at clock upstream before (request c m body extra key) ≡ next_key)
        × Rejected (request c m body extra key ∷ before) keys after

    -- Of these keys some were rejected, one gave the result, and the rest was not tried; nothing is
    -- left to try if the one was rejected too.
    pub record Tries (keys : List String) (before : List HostHttpRequest)
        (t : UpstreamResult × Outcome × World) : Type 0 where
      pub rejected : List String
      pub last : String
      pub untried : List String
      pub earlier : List HostHttpRequest
      pub parts : keys ≡ rejected ++ last ∷ untried
      pub refused : Rejected before rejected earlier
      pub sent : t.2.sent ≡ request c m body extra last ∷ earlier
      pub answered :
          t.0.status ≡ status_of (upstream (length earlier) (request c m body extra last))
      pub outcome :
          ((t.1 ≡ classify t.0.status) × (t.1 ≢ next_key))
          ⊎ ((t.1 ≡ next_provider) × (classify t.0.status ≡ next_key) × (untried ≡ []))

    -- The key that ends the loop.
    ends :
        (key : String) (keys : List String) (r : UpstreamResult) (o : Outcome) (w w' : World)
        → w'.sent ≡ request c m body extra key ∷ w.sent
        → r.status ≡ status_of (upstream (length w.sent) (request c m body extra key))
        → ((o ≡ classify r.status) × (o ≢ next_key))
          ⊎ ((o ≡ next_provider) × (classify r.status ≡ next_key) × (keys ≡ []))
        → Tries (key ∷ keys) w.sent (r, o, w')
    ends key keys r o w w' s a f = record {
      rejected = [];
      last = key;
      untried = keys;
      earlier = w.sent;
      parts = refl;
      refused = refl;
      sent = s;
      answered = a;
      outcome = f;
    }

    -- A key that is rejected, before others.
    after_rejection :
        (key : String) (keys : List String) (before later : List HostHttpRequest)
        (t : UpstreamResult × Outcome × World)
        → later ≡ request c m body extra key ∷ before
        → outcome_at clock upstream before (request c m body extra key) ≡ next_key
        → Tries keys later t
        → Tries (key ∷ keys) before t
    after_rejection key keys before later t e o v = record {
      rejected = key ∷ v.rejected;
      last = v.last;
      untried = v.untried;
      earlier = v.earlier;
      parts = ap (◌∷◌ key) v.parts;
      refused = (o, subst (λ l. Rejected l v.rejected v.earlier) e v.refused);
      sent = v.sent;
      answered = v.answered;
      outcome = v.outcome;
    }

    -- One round of the loop, when the rest of it is known after a rejection.
    round-Tries :
        (key : String) (keys : List String) (last : UpstreamResult) (w : World)
        → let r = answer clock upstream c m body extra key w in
          (classify r.status ≡ next_key
            → Tries (key ∷ keys) w.sent (
                try_keys clock upstream c m body extra keys r
                  (cooled clock upstream c m body extra key w)))
          → Tries (key ∷ keys) w.sent (try_keys clock upstream c m body extra (key ∷ keys) last w)
    unfolding try_keys
    round-Tries key keys last w rest =
        (elim (classify r.status)
            as (λ o.
              classify r.status ≡ o
              → Tries (key ∷ keys) w.sent (elim o [
                | next_key ↦
                    try_keys clock upstream c m body extra keys r
                      (cooled clock upstream c m body extra key w)
                | other ↦ (r, other, w')
              ])) [
                | success ↦ λ e. ends key keys r success w w' s a (inl (sym e, λ k. cc))
                | final ↦ λ e. ends key keys r final w w' s a (inl (sym e, λ k. cc))
                | next_provider ↦ λ e. ends key keys r next_provider w w' s a (inl (sym e, λ k. cc))
                | next_key ↦ rest
              ])
          refl
      where
        r : UpstreamResult
        r = answer clock upstream c m body extra key w

        w' : World
        w' = attempted clock upstream c m body extra key w

        s : w'.sent ≡ request c m body extra key ∷ w.sent
        s = log_attempt-sent c r _

        a : r.status ≡ status_of (upstream (length w.sent) (request c m body extra key))
        a = result_of-status m _

    try_keys-Tries :
        (key : String) (keys : List String) (last : UpstreamResult) (w : World)
        → Tries (key ∷ keys) w.sent (try_keys clock upstream c m body extra (key ∷ keys) last w)
    unfolding try_keys
    try_keys-Tries key [] last w = round-Tries key [] last w λ e.
        ends key [] (answer clock upstream c m body extra key w) next_provider w
          (cooled clock upstream c m body extra key w)
          (cooled-sent clock upstream c m body extra key w) (result_of-status m _)
          (inr (refl, e, refl))
    try_keys-Tries key (next ∷ keys) last w = round-Tries key (next ∷ keys) last w λ e.
        after_rejection key (next ∷ keys) w.sent (cooled clock upstream c m body extra key w).sent _
          (cooled-sent clock upstream c m body extra key w)
          (ap classify (sym (result_of-status m _)) ∙ e)
          (try_keys-Tries next keys (answer clock upstream c m body extra key w)
            (cooled clock upstream c m body extra key w))

    -- At a provider with keys `tryProvider` does not panic. It sends one request with each key, in the
    -- order that `ordered` gives, as long as these are answered by a 429 or a 402, and stops at the first
    -- other answer, whose status and outcome are then its own; if every key is rejected it gives the last
    -- answer and sends the client to the next provider.
    pub try_provider_lem :
        (w : World)
        → 0 < length m.provider.api_keys
        → (keys : List String) × (t : UpstreamResult × Outcome × World) × (ordered w.keys m.provider
              (clock w.reads)
            ≡ some (keys, advance w.keys m.provider))
          × (try_provider clock upstream c m body extra w ≡ some t)
          × Tries keys w.sent t
    unfolding try_provider
    try_provider_lem w n =
        let (key, keys, e) = ordered-cons w.keys m.provider (clock w.reads) n in
        let w' : World = record w { keys = advance w.keys m.provider; reads = suc w.reads } in
        (
          key ∷ keys,
          try_keys clock upstream c m body extra (key ∷ keys) no_result w',
          e,
          rw (e, try_provider) refl,
          try_keys-Tries key keys no_result w',
        )

  go_on_some :
      (c : Call) (body : Match → String) (m : Match) (ms : List Match) (last : UpstreamResult)
      (w : World) (t : UpstreamResult × Outcome × World)
      → try_provider clock upstream c m (body m) [] w ≡ some t
      → ((r : UpstreamResult) (w' : World)
          → (u : UpstreamResult × World) × (forward_from clock upstream c body ms r w' ≡ some u))
      → (u : UpstreamResult × World) × (forward_from clock upstream c body (m ∷ ms) last w ≡ some u)
  unfolding forward_from
  go_on_some c body m ms last w (r, success, w') e rest = ((r, w'), rw (e, forward_from) refl)
  go_on_some c body m ms last w (r, final, w') e rest = ((r, w'), rw (e, forward_from) refl)
  go_on_some c body m ms last w (r, next_key, w') e rest =
      let (u, f) = rest r w' in (u, rw (e, forward_from) f)
  go_on_some c body m ms last w (r, next_provider, w') e rest =
      let (u, f) = rest r w' in (u, rw (e, forward_from) f)

  forward_from-some :
      (c : Call) (body : Match → String) (ms : List Match) (last : UpstreamResult) (w : World)
      → All HasKeys ms
      → (u : UpstreamResult × World) × (forward_from clock upstream c body ms last w ≡ some u)
  unfolding forward_from
  forward_from-some c body [] last w ks = ((last, w), refl)
  forward_from-some c body (m ∷ ms) last w (k, ks) =
      let (keys, t, o, e, v) = try_provider_lem c m (body m) [] w k in
      go_on_some c body m ms last w t e λ r w'. forward_from-some c body ms r w' ks

  -- Providers with keys do not make `forward` panic.
  pub forward-some :
      (c : Call) (body : Match → String) (ms : List Match) (w : World)
      → All HasKeys ms
      → (u : UpstreamResult × World) × (forward clock upstream c ms body w ≡ some u)
  unfolding forward
  forward-some c body ms w ks =
      forward_from-some c body (order w.keys clock w.reads ms) no_result
        (record w { reads = w.reads + length ms })
        ((order-All HasKeys w.keys clock w.reads ms).0 ks)
