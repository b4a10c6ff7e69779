-- ===== src/Forward/Calls/Run.antt =====
-- embeddings-forward/forward.go: the run of `forward` over the providers.
use cpa_plugins.Base.{
  cons_of_perm, ℕ, ◌<◌, ◌≡◌, refl, ◌⊎◌, inl, inr, sym, ap, subst, ◌∙◌, String, List, [], ◌∷◌,
  Option, some, ℤ, length, ◌+◌, All,
}
use cpa_plugins.Forward.Config.{Match}
use cpa_plugins.Forward.Keys.{order}
use cpa_plugins.Forward.Keys.Providers.{order-perm, order-All}
use cpa_plugins.Forward.Calls.{
  Outcome, success, final, next_key, next_provider, classify, UpstreamResult, no_result,
  HostHttpRequest, HostHttpResponse, World, Call, try_provider, forward_from, forward,
}
use cpa_plugins.Forward.Calls.Attempts.{
  IsRetry, IsDefinitive, status_of, Asked, Retried, outcome_at, Attempted, try_provider-Attempted,
}

module _ (clock : ℕ → ℤ) (upstream : ℕ → HostHttpRequest → Option HostHttpResponse) where
  -- What a run over providers leaves.
  record Answered (before : List HostHttpRequest) (t : UpstreamResult × World) : Type 0 where
    latest : HostHttpRequest
    earlier : List HostHttpRequest
    sent : t.1.sent ≡ latest ∷ earlier
    retried : Retried clock upstream earlier
    answered : t.0.status ≡ status_of (upstream (length earlier) latest)
    kept : (url : String) → Asked url before → Asked url t.1.sent

  -- After it gave up, every provider has been asked.
  abbrev AllAsked : List Match → UpstreamResult × World → Type 0
  AllAsked ms (r, w) = IsDefinitive (classify r.status) ⊎ All (λ m. Asked m.provider.url w.sent) ms

  abbrev Complete : List Match → List HostHttpRequest → UpstreamResult × World → Type 0
  Complete ms before t = Answered before t × AllAsked ms t

  -- The attempts at a provider that ends the run.
  Answered_lem :
      (m : Match) (before : List HostHttpRequest) (r : UpstreamResult) (o : Outcome) (w : World)
      → Attempted clock upstream m before (r, o, w)
      → Answered before (r, w)
  Answered_lem m before r o w v = record {
    latest = v.latest;
    earlier = v.earlier;
    sent = v.sent;
    retried = v.retried;
    answered = v.answered;
    kept = v.kept;
  }

  Retried_lem :
      (m : Match) (before : List HostHttpRequest) (r : UpstreamResult) (w : World)
      → Attempted clock upstream m before (r, next_provider, w)
      → Retried clock upstream w.sent
  Retried_lem m before r w v = subst (Retried clock upstream) (sym v.sent) (retry v.fits, v.retried)
    where
      same : classify r.status ≡ outcome_at clock upstream v.earlier v.latest
      same = ap classify v.answered

      retry :
          (next_provider ≡ classify r.status)
            ⊎ ((next_provider ≡ next_provider) × (classify r.status ≡ next_key))
          → IsRetry (outcome_at clock upstream v.earlier v.latest)
      retry (inl e) = inr (sym same ∙ sym e)
      retry (inr (_, e)) = inl (sym same ∙ e)

  -- A run that goes on after provider m, seen from before m.
  resume :
      (m : Match) (ms : List Match) (before : List HostHttpRequest) (w : World) (r : UpstreamResult)
      (t : UpstreamResult × World)
      → Attempted clock upstream m before (r, next_provider, w)
      → Complete ms w.sent t
      → Complete (m ∷ ms) before t
  resume m ms before w r t v (a, asked) = (
    record {
      latest = a.latest;
      earlier = a.earlier;
      sent = a.sent;
      retried = a.retried;
      answered = a.answered;
      kept = λ url q. a.kept url (v.kept url q);
    },
    everyone asked,
  )
    where
      first : Asked m.provider.url t.1.sent
      first = a.kept m.provider.url (subst (Asked m.provider.url) (sym v.sent) (inl v.addressed))

      everyone : AllAsked ms t → AllAsked (m ∷ ms) t
      everyone (inl d) = inl d
      everyone (inr q) = inr (first, q)

  abbrev Ends :
      Call → (Match → String) → List Match → World → Option (UpstreamResult × World) → Type 0
  Ends c body ms w o = (u : UpstreamResult × World) × (o ≡ some u) × Complete ms w.sent u

  -- The rest of the run after one provider, by the outcome there.
  go_on :
      (c : Call) (body : Match → String) (m : Match) (ms : List Match) (last : UpstreamResult)
      (w : World) (t : UpstreamResult × Outcome × World)
      → try_provider clock upstream c m (body m) [] w ≡ some t
      → Attempted clock upstream m w.sent t
      → ((r : UpstreamResult) (w' : World)
          → Attempted clock upstream m w.sent (r, next_provider, w')
          → Ends c body (m ∷ ms) w (forward_from clock upstream c body ms r w'))
      → Ends c body (m ∷ ms) w (forward_from clock upstream c body (m ∷ ms) last w)
  unfolding forward_from
  go_on c body m ms last w (r, success, w') e v rest = (
    (r, w'),
    rw (e, forward_from) refl,
    (Answered_lem m w.sent r success w' v, inl (inl (definitive v.fits))),
  )
    where
      definitive :
          (success ≡ classify r.status)
            ⊎ ((success ≡ next_provider) × (classify r.status ≡ next_key))
          → classify r.status ≡ success
      definitive (inl f) = sym f
      definitive (inr (f, _)) = cc
  go_on c body m ms last w (r, final, w') e v rest = (
    (r, w'),
    rw (e, forward_from) refl,
    (Answered_lem m w.sent r final w' v, inl (inr (definitive v.fits))),
  )
    where
      definitive :
          (final ≡ classify r.status) ⊎ ((final ≡ next_provider) × (classify r.status ≡ next_key))
          → classify r.status ≡ final
      definitive (inl f) = sym f
      definitive (inr (f, _)) = cc
  go_on c body m ms last w (r, next_key, w') e v rest = absurd (v.settled refl)
  go_on c body m ms last w (r, next_provider, w') e v rest =
      let (u, f, done) = rest r w' v in (u, rw (e, forward_from) f, done)

  forward_from-Ends :
      (c : Call) (body : Match → String) (m : Match) (ms : List Match) (last : UpstreamResult)
      (w : World)
      → All (λ n. 0 < length n.provider.api_keys) (m ∷ ms)
      → Retried clock upstream w.sent
      → Ends c body (m ∷ ms) w (forward_from clock upstream c body (m ∷ ms) last w)
  unfolding forward_from
  forward_from-Ends c body m [] last w ns h =
      let (t, e, v) = try_provider-Attempted clock upstream c m (body m) [] w ns.0 h in
      go_on c body m [] last w t e v λ r w' a. (
        (r, w'),
        refl,
        (
          Answered_lem m w.sent r next_provider w' a,
          inr (subst (Asked m.provider.url) (sym a.sent) (inl a.addressed), tt),
        ),
      )
  forward_from-Ends c body m (n ∷ ms) last w ns h =
      let (t, e, v) = try_provider-Attempted clock upstream c m (body m) [] w ns.0 h in
      go_on c body m (n ∷ ms) last w t e v λ r w' a.
        let (u, f, done) = forward_from-Ends c body n ms r w' ns.1 (Retried_lem m w.sent r w' a) in
        (u, f, resume m (n ∷ ms) w.sent w' r u a done)

  -- When at least one provider serves the model and each has a key, `forward` answers, without a
  -- panic. No request follows one that was answered by a success or a final status; the client's
  -- answer has the status of the last request's answer; and if that status is retryable, every
  -- serving provider has been asked.
  pub forward_lem :
      (c : Call) (body : Match → String) (ms : List Match) (w : World)
      → 0 < length ms
      → All (λ n. 0 < length n.provider.api_keys) ms
      → w.sent ≡ []
      → (u : UpstreamResult × World) × (latest : HostHttpRequest) × (earlier : List HostHttpRequest)
        × (forward clock upstream c ms body w ≡ some u)
        × (u.1.sent ≡ latest ∷ earlier)
        × Retried clock upstream earlier
        × (u.0.status ≡ status_of (upstream (length earlier) latest))
        × (IsDefinitive (classify u.0.status) ⊎ All (λ m. Asked m.provider.url u.1.sent) ms)
  unfolding forward
  forward_lem c body ms w n ns e =
      let (m, rest, f) = cons_of_perm _ ms n (order-perm w.keys clock w.reads ms) in
      let ns' = (order-All (λ k. 0 < length k.provider.api_keys) w.keys clock w.reads ms).0 ns in
      let (u, g, (a, asked)) =
        forward_from-Ends c body m rest no_result (record w { reads = w.reads + length ms })
          (subst (All (λ k. 0 < length k.provider.api_keys)) f ns')
          (subst (Retried clock upstream) (sym e) tt) in
      (
        u,
        a.latest,
        a.earlier,
        ap
              (λ l.
                forward_from clock upstream c body l no_result
                  (record w { reads = w.reads + length ms }))
              f
            ∙ g,
        a.sent,
        a.retried,
        a.answered,
        everyone u (subst (λ l. AllAsked l u) (sym f) asked),
      )
    where
      everyone :
          (u : UpstreamResult × World) → AllAsked (order w.keys clock w.reads ms) u → AllAsked ms u
      everyone u (inl d) = inl d
      everyone u (inr q) =
          inr ((order-All (λ k. Asked k.provider.url u.1.sent) w.keys clock w.reads ms).1 q)
