-- ===== src/NativeAbi/Statuses.antt =====
-- internal/nativeabi/nativeabi.go: when a call counts as a success.
use cpa_plugins.Base.{
  ℕ, ◌⊎◌, inl, inr, ◌≡◌, refl, sym, subst, String, ◌++ₛ◌, Bool, true, false, not, List, [], ◌∷◌,
  Option, none, some, ◌==◌, ==_iff, if◌then◌else◌, Bool-cases,
}
use mathlib.Core.Option.{some-ne-none}
use cpa_plugins.NativeAbi.{
  returned_status, failed_without_error, reported, AbiError, Encoding, encoded, not_encoded,
  Envelope, HostCaller, Answer, returned, refused, panicked, Handler, Runtime, initialize, shutdown,
  Operation, initializing, shutting_down, operate, marshal_result, answer_host, call_handler, call,
  read_response, call_host, host_call,
}

module _ (Value : Type 0) (encode_value : Value → Encoding) (encode_error : AbiError → String) where
  -- The handler is there, returns a value and the value is encoded.
  abbrev pub Succeeds : Option (Handler Value) → String → String → String → Type 0
  Succeeds handler method request response =
      (h : Handler Value) × (value : Value) × (text : String) × (handler ≡ some h)
      × (h method request ≡ returned value)
      × (encode_value value ≡ encoded text)
      × (response ≡ "{\"ok\":true,\"result\":" ++ₛ text ++ₛ "}")

  -- A call of the plugin has the status 0 only when a handler is there, returns a value without a
  -- panic or an error, and the value is encoded; the response is then the envelope of the value.
  pub call-Succeeds :
      (r : Runtime Value) (method request : String)
      → (call Value encode_value encode_error r method request).1 ≡ 0
      → Succeeds r.handler method request (call Value encode_value encode_error r method request).0
  unfolding call call_handler answer_host marshal_result
  call-Succeeds r method request = from r.handler
    where
      encoded_as :
          (h : Handler Value) (value : Value) (e : Encoding)
          → h method request ≡ returned value
          → encode_value value ≡ e
          → (marshal_result Value encode_value encode_error e).1 ≡ 0
          → Succeeds (some h) method request (marshal_result Value encode_value encode_error e).0
      encoded_as h value (encoded text) k f z = (h, value, text, refl, k, f, refl)
      encoded_as h value (not_encoded message) k f z = cc z

      answered :
          (h : Handler Value) (a : Answer Value)
          → h method request ≡ a
          → (answer_host Value encode_value encode_error a).1 ≡ 0
          → Succeeds (some h) method request (answer_host Value encode_value encode_error a).0
      answered h (returned value) k z = encoded_as h value (encode_value value) k refl z
      answered h (refused e) k z = cc z
      answered h panicked k z = cc z

      from :
          (o : Option (Handler Value))
          → (call_handler Value encode_value encode_error o method request).1 ≡ 0
          → Succeeds o method request
              (call_handler Value encode_value encode_error o method request).0
      from none z = cc z
      from (some h) z = answered h (h method request) refl z

module _ (Value : Type 0) where
  refuses :
      (handler : Handler Value) (host : HostCaller) (r : Runtime Value)
      → r.initialized ≡ true
      → initialize Value handler host r ≡ (false, r)
  unfolding initialize
  refuses handler host r i = rw (i, if◌then◌else◌) refl

  stays_down :
      (ops : List (Operation Value)) (r : Runtime Value)
      → r.initialized ≡ true
      → r.handler ≡ none
      → (operate Value ops r).handler ≡ none
  unfolding operate initialize shutdown
  stays_down [] r i h = h
  stays_down (initializing handler host ∷ ops) r i h =
      subst (λ x. (operate Value ops x.1).handler ≡ none) (sym (refuses handler host r i))
        (stays_down ops r i h)
  stays_down (shutting_down ∷ ops) r i h = stays_down ops (shutdown Value r) i refl

  -- A runtime that was initialized and shut down has no handler again, whatever follows: another
  -- initialization is refused.
  pub shutdown_final :
      (ops : List (Operation Value)) (r : Runtime Value)
      → r.initialized ≡ true
      → (operate Value ops (shutdown Value r)).handler ≡ none
  unfolding shutdown
  shutdown_final ops r i = stays_down ops (shutdown Value r) i refl

module _ (decode : String → Option Envelope) where
  -- The host is there, takes the request and answers with an envelope that is OK and a status of 0.
  abbrev pub HostAccepts : Option HostCaller → String → Encoding → Type 0
  HostAccepts host method request =
      (f : HostCaller) × (payload : String) × (envelope : Envelope) × (host ≡ some f)
      × (request ≡ encoded payload)
      × (decode (f method payload).0 ≡ some envelope)
      × (envelope.ok ≡ true)
      × ((f method payload).1 ≡ 0)

  read_success :
      (method : String) (status : ℕ) (o : Option Envelope)
      → read_response method status o ≡ none
      → (envelope : Envelope) × (o ≡ some envelope) × (envelope.ok ≡ true) × (status ≡ 0)
  unfolding read_response
  read_success method status none = elim (Bool-cases (status == 0)) [
    | inl e ↦ rw (e, if◌then◌else◌) λ h. absurd (some-ne-none _ h)
    | inr e ↦ rw (e, if◌then◌else◌) λ h. absurd (some-ne-none _ h)
  ]
  read_success method status (some envelope) =
      from envelope.ok envelope.error refl (Bool-cases (status == 0))
    where
      from :
          (ok : Bool) (error : Option AbiError)
          → envelope.ok ≡ ok
          → ((status == 0) ≡ true) ⊎ ((status == 0) ≡ false)
          → (if not ok
              then (elim error [
                | none ↦ some (failed_without_error method)
                | some e ↦ some (reported e)
              ])
              else if not (status == 0)
              then some (returned_status method status)
              else none)
            ≡ none
          → (env : Envelope) × (some envelope ≡ some env) × (env.ok ≡ true) × (status ≡ 0)
      from false none k z h = absurd (some-ne-none _ h)
      from false (some e) k z h = absurd (some-ne-none _ h)
      from true error k (inl z) h = (envelope, refl, k, (==_iff status 0).0 z)
      from true error k (inr z) h = absurd (some-ne-none _ (rw (z, if◌then◌else◌) at h))

  -- A call of the host has no error only when it was accepted.
  pub host_call-HostAccepts :
      {Value : Type 0} (r : Runtime Value) (method : String) (request : Encoding)
      → host_call decode r method request ≡ none
      → HostAccepts r.host method request
  unfolding host_call call_host
  host_call-HostAccepts r method request = from r.host request
    where
      from :
          (o : Option HostCaller) (e : Encoding)
          → call_host decode o method e ≡ none
          → HostAccepts o method e
      from none e h = absurd (some-ne-none _ h)
      from (some f) (not_encoded message) h = absurd (some-ne-none _ h)
      from (some f) (encoded payload) h =
          let (envelope, d, ok, z) =
            read_success method (f method payload).1 (decode (f method payload).0) h in
          (f, payload, envelope, refl, refl, d, ok, z)
