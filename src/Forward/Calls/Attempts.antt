-- ===== src/Forward/Calls/Attempts.antt =====
-- embeddings-forward/forward.go: which requests `tryProvider` and `forward` send.
use cpa_plugins.Base.{
  cons_of_perm, ℕ, suc, ◌<◌, ◌≡◌, refl, ◌≢◌, ◌⊎◌, inl, inr, String, List, [], ◌∷◌, Option, none,
  some, ℤ, pos, arith, length, Headers, ap, ◌∙◌, sym, subst,
}
use cpa_plugins.Forward.Config.{Match, Provider}
use cpa_plugins.Forward.Keys.{KeyState, ordered, advance}
use cpa_plugins.Forward.Keys.Rotation.{ordered-perm}
use cpa_plugins.Forward.Calls.{
  Outcome, success, final, next_key, next_provider, classify, UpstreamResult, no_result,
  HostHttpRequest, HostHttpResponse, World, Call, request, result_of, log_attempt, cool_key,
  try_keys, try_provider,
}

-- An answer after which another request follows.
abbrev pub IsRetry : Outcome → Type 0
IsRetry o = (o ≡ next_key) ⊎ (o ≡ next_provider)

abbrev pub IsDefinitive : Outcome → Type 0
IsDefinitive o = (o ≡ success) ⊎ (o ≡ final)

abbrev pub status_of : Option HostHttpResponse → ℤ
status_of none = pos 0
status_of (some resp) = resp.status_code

-- A request to this URL is among those sent.
abbrev pub Asked : String → List HostHttpRequest → Type 0
Asked url [] = ⊥
Asked url (req ∷ reqs) = (req.url ≡ url) ⊎ Asked url reqs

pub log_attempt-sent :
    (c : Call) (r : UpstreamResult) (w : World) → (log_attempt c r w).sent ≡ w.sent
unfolding log_attempt
log_attempt-sent c r w = ground arith

pub result_of-status :
    (m : Match) (resp : Option HostHttpResponse) → (result_of m resp).status ≡ status_of resp
unfolding result_of
result_of-status m none = refl
result_of-status m (some resp) = refl

pub ordered-cons :
    (s : KeyState) (p : Provider) (now : ℤ)
    → 0 < length p.api_keys
    → (key : String) × (keys : List String) × (ordered s p now ≡ some (key ∷ keys, advance s p))
ordered-cons s p now n =
    let (ks, e, perm) = ordered-perm s p now n in
    let (key, keys, f) = cons_of_perm ks p.api_keys n perm in
    (key, keys, e ∙ ap (λ k. some (k, advance s p)) f)

module _ (clock : ℕ → ℤ) (upstream : ℕ → HostHttpRequest → Option HostHttpResponse) where
  cool_key-sent :
      (m : Match) (key : String) (r : UpstreamResult) (w : World)
      → (cool_key clock upstream m key r w).sent ≡ w.sent
  unfolding cool_key
  cool_key-sent m key r w = ground arith

  -- The outcome of the request sent when `earlier` had been.
  abbrev pub outcome_at : List HostHttpRequest → HostHttpRequest → Outcome
  outcome_at earlier req = classify (status_of (upstream (length earlier) req))

  -- Each of these requests, newest first, met a retryable answer.
  abbrev pub Retried : List HostHttpRequest → Type 0
  Retried [] = Unit {0}
  Retried (req ∷ earlier) = IsRetry (outcome_at earlier req) × Retried earlier

  -- What a series of attempts at one provider leaves: each request but the latest met a retryable
  -- answer, the result and its outcome are those of the latest, and no request is forgotten.
  pub record Attempted (m : Match) (before : List HostHttpRequest)
      (t : UpstreamResult × Outcome × World) : Type 0 where
    pub latest : HostHttpRequest
    pub earlier : List HostHttpRequest
    pub sent : t.2.sent ≡ latest ∷ earlier
    pub retried : Retried earlier
    pub answered : t.0.status ≡ status_of (upstream (length earlier) latest)
    pub fits :
        (t.1 ≡ classify t.0.status) ⊎ ((t.1 ≡ next_provider) × (classify t.0.status ≡ next_key))
    pub settled : t.1 ≢ next_key
    pub addressed : latest.url ≡ m.provider.url
    pub kept : (url : String) → Asked url before → Asked url t.2.sent

  settle :
      (c : Call) (m : Match) (body : String) (extra : Headers) (key : String) (r : UpstreamResult)
      (o : Outcome) (w : World) (earlier : List HostHttpRequest)
      → Retried earlier
      → w.sent ≡ request c m body extra key ∷ earlier
      → r.status ≡ status_of (upstream (length earlier) (request c m body extra key))
      → (o ≡ classify r.status) ⊎ ((o ≡ next_provider) × (classify r.status ≡ next_key))
      → o ≢ next_key
      → Attempted m earlier (r, o, w)
  unfolding request
  settle c m body extra key r o w earlier h s a f n = record {
    latest = request c m body extra key;
    earlier = earlier;
    sent = s;
    retried = h;
    answered = a;
    fits = f;
    settled = n;
    addressed = refl;
    kept = λ url q. subst (Asked url) (sym s) (inr q);
  }

  weaken :
      (m : Match) {t : UpstreamResult × Outcome × World} {req : HostHttpRequest}
      {before later : List HostHttpRequest}
      → later ≡ req ∷ before
      → Attempted m later t
      → Attempted m before t
  weaken m e v = record {
    latest = v.latest;
    earlier = v.earlier;
    sent = v.sent;
    retried = v.retried;
    answered = v.answered;
    fits = v.fits;
    settled = v.settled;
    addressed = v.addressed;
    kept = λ url q. v.kept url (subst (Asked url) (sym e) (inr q));
  }

  -- The world after one attempt.
  abbrev pub attempted : Call → Match → String → Headers → String → World → World
  attempted c m body extra key w =
      let req = request c m body extra key in
      log_attempt c (result_of m (upstream (length w.sent) req)) (record w { sent = req ∷ w.sent })

  abbrev pub answer : Call → Match → String → Headers → String → World → UpstreamResult
  answer c m body extra key w = result_of m (upstream (length w.sent) (request c m body extra key))

  -- The world after an attempt that was answered by a 429 or a 402.
  abbrev pub cooled : Call → Match → String → Headers → String → World → World
  cooled c m body extra key w =
      cool_key clock upstream m key (answer c m body extra key w) (attempted c m body extra key w)

  pub cooled-sent :
      (c : Call) (m : Match) (body : String) (extra : Headers) (key : String) (w : World)
      → (cooled c m body extra key w).sent ≡ request c m body extra key ∷ w.sent
  cooled-sent c m body extra key w =
      cool_key-sent m key (answer c m body extra key w) (attempted c m body extra key w)
      ∙ log_attempt-sent c (answer c m body extra key w) _

  -- One round of the loop, when the rest of it goes well after a 429 or a 402.
  round-Attempted :
      (c : Call) (m : Match) (body : String) (extra : Headers) (key : String) (keys : List String)
      (last : UpstreamResult) (w : World)
      → Retried w.sent
      → let r = answer c m body extra key w in
        (classify r.status ≡ next_key
          → Attempted m w.sent (
              try_keys clock upstream c m body extra keys r
                (cool_key clock upstream m key r (attempted c m body extra key w))))
        → Attempted m w.sent (try_keys clock upstream c m body extra (key ∷ keys) last w)
  unfolding try_keys
  round-Attempted c m body extra key keys last w h rest =
      (elim (classify r.status)
          as (λ o.
            classify r.status ≡ o
            → Attempted m w.sent (elim o [
              | next_key ↦
                  try_keys clock upstream c m body extra keys r (cool_key clock upstream m key r w')
              | other ↦ (r, other, w')
            ])) [
              | success ↦
                  λ e. settle c m body extra key r success w' w.sent h s a (inl (sym e)) (λ k. cc)
              | final ↦
                  λ e. settle c m body extra key r final w' w.sent h s a (inl (sym e)) (λ k. cc)
              | next_provider ↦ λ e.
                  settle c m body extra key r next_provider w' w.sent h s a (inl (sym e)) (λ k. cc)
              | next_key ↦ rest
            ])
        refl
    where
      r : UpstreamResult
      r = answer c m body extra key w

      w' : World
      w' = attempted c m body extra key w

      s : w'.sent ≡ request c m body extra key ∷ w.sent
      s = log_attempt-sent c r _

      a : r.status ≡ status_of (upstream (length w.sent) (request c m body extra key))
      a = result_of-status m _

  try_keys-Attempted :
      (c : Call) (m : Match) (body : String) (extra : Headers) (key : String) (keys : List String)
      (last : UpstreamResult) (w : World)
      → Retried w.sent
      → Attempted m w.sent (try_keys clock upstream c m body extra (key ∷ keys) last w)
  unfolding try_keys
  try_keys-Attempted c m body extra key [] last w h =
      round-Attempted c m body extra key [] last w h λ e.
        settle c m body extra key (answer c m body extra key w) next_provider _ w.sent h
          (cooled-sent c m body extra key w) (result_of-status m _) (inr (refl, e)) (λ k. cc)
  try_keys-Attempted c m body extra key (next ∷ keys) last w h =
      round-Attempted c m body extra key (next ∷ keys) last w h λ e.
        weaken m (cooled-sent c m body extra key w) (
          try_keys-Attempted c m body extra next keys (answer c m body extra key w)
            (cooled c m body extra key w)
            (subst Retried (sym (cooled-sent c m body extra key w))
              (inl (ap classify (sym (result_of-status m _)) ∙ e), h)))

  -- At a provider with keys `tryProvider` does not panic and settles the matter.
  pub try_provider-Attempted :
      (c : Call) (m : Match) (body : String) (extra : Headers) (w : World)
      → 0 < length m.provider.api_keys
      → Retried w.sent
      → (t : UpstreamResult × Outcome × World) × (try_provider clock upstream c m body extra w
          ≡ some t)
        × Attempted m w.sent t
  unfolding try_provider
  try_provider-Attempted c m body extra w n h =
      let (key, keys, e) = ordered-cons w.keys m.provider (clock w.reads) n in
      let w' : World = record w { keys = advance w.keys m.provider; reads = suc w.reads } in
      (
        try_keys clock upstream c m body extra (key ∷ keys) no_result w',
        rw (e, try_provider) refl,
        try_keys-Attempted c m body extra key keys no_result w' h,
      )
