-- ===== src/CommandCode/Stream/Events/Calls.antt =====
-- commandcode/protocol.go: the tool calls of a stream and the index by id stay in step.
use mathlib.Core.List.{append-nil}
use mathlib.Core.Option.{some-injective}
use cpa_plugins.Base.{
  ℕ, zero, suc, ◌≡◌, refl, sym, ap, ◌∙◌, ◌⊎◌, inl, inr, String, List, [], ◌∷◌, ◌++◌, none, some,
  arith, length, get_or, get_elem?, set, All, ◌++ₛ◌, ◌=ₛ◌, eq_iff, if◌then◌else◌, update,
  Bool-cases, Option-cases, map,
}
use cpa_plugins.CommandCode.Json.{Codec, Gjson}
use cpa_plugins.CommandCode.Stream.{
  ToolCall, no_call, State, Delta, tool_start, tool_arguments, ensure_tool_call, ensure_known,
  anonymous_id, lookup_tool_call, name_call, append_call,
}
use cpa_plugins.CommandCode.Stream.Events

abbrev pub ids : State → List String
ids s = map (λ c. c.id) s.tool_calls

-- The index knows exactly the ids of the calls, each with its place.
pub record IsIndexed (s : State) : Type 0 where
  pub known : (id : String) (i : ℕ) → s.index_by_id id ≡ some i → get_elem? (ids s) i ≡ some id
  pub listed : (id : String) (i : ℕ) → get_elem? (ids s) i ≡ some id → s.index_by_id id ≡ some i

-- What a step may do to the calls: leave their ids, or add one with a new id.
pub data Grows (s t : State) : Type 0 where
  same : ids t ≡ ids s → t.index_by_id ≡ s.index_by_id → Grows s t
  added :
      (id : String)
      → s.index_by_id id ≡ none
      → ids t ≡ ids s ++ id ∷ []
      → t.index_by_id ≡ update s.index_by_id id (some (length s.tool_calls))
      → Grows s t

length-map_id : (cs : List ToolCall) → length (map (λ c. c.id) cs) ≡ length cs
length-map_id [] = refl
length-map_id (c ∷ cs) = ap suc (length-map_id cs)

ids-append :
    (cs : List ToolCall) (c : ToolCall)
    → map (λ c. c.id) (cs ++ c ∷ []) ≡ map (λ c. c.id) cs ++ c.id ∷ []
ids-append [] c = refl
ids-append (d ∷ cs) c = ap (◌∷◌ d.id) (ids-append cs c)

-- A call that is replaced by one with its id.
ids-set :
    (cs : List ToolCall) (i : ℕ) (c : ToolCall)
    → c.id ≡ (get_or cs i no_call).id
    → map (λ c. c.id) (set cs i c) ≡ map (λ c. c.id) cs
ids-set [] i c e = refl
ids-set (d ∷ cs) zero c e = ap (λ k. k ∷ map (λ c. c.id) cs) e
ids-set (d ∷ cs) (suc i) c e = ap (◌∷◌ d.id) (ids-set cs i c e)

pub get_elem?-append_left :
    (xs ys : List String) (i : ℕ) (x : String)
    → get_elem? xs i ≡ some x
    → get_elem? (xs ++ ys) i ≡ some x
get_elem?-append_left [] ys i x h = cc
get_elem?-append_left (y ∷ xs) ys zero x h = h
get_elem?-append_left (y ∷ xs) ys (suc i) x h = get_elem?-append_left xs ys i x h

get_elem?-last : (xs : List String) (x : String) → get_elem? (xs ++ x ∷ []) (length xs) ≡ some x
get_elem?-last [] x = refl
get_elem?-last (y ∷ xs) x = get_elem?-last xs x

get_elem?-append_cases :
    (xs : List String) (y : String) (i : ℕ) (x : String)
    → get_elem? (xs ++ y ∷ []) i ≡ some x
    → (get_elem? xs i ≡ some x) ⊎ ((i ≡ length xs) × (y ≡ x))
get_elem?-append_cases [] y zero x h = inr (refl, ground arith)
get_elem?-append_cases [] y (suc i) x h = cc
get_elem?-append_cases (z ∷ xs) y zero x h = inl h
get_elem?-append_cases (z ∷ xs) y (suc i) x h = elim (get_elem?-append_cases xs y i x h) [
  | inl e ↦ inl e
  | inr (e, f) ↦ inr (ap suc e, f)
]

-- Growing keeps the index right.
pub Grows-IsIndexed : {s t : State} → Grows s t → IsIndexed s → IsIndexed t
Grows-IsIndexed {s} {t} (same e f) v = record {
  known = λ id i h. rw e (v.known id i (ap (λ m. m id) (sym f) ∙ h));
  listed = λ id i h. ap (λ m. m id) f ∙ v.listed id i (ap (λ l. get_elem? l i) (sym e) ∙ h);
}
Grows-IsIndexed {s} {t} (added new fresh e f) v = record {
  known = λ id i h. rw e (known' id i (ap (λ m. m id) (sym f) ∙ h));
  listed = λ id i h. ap (λ m. m id) f ∙ listed' id i (ap (λ l. get_elem? l i) (sym e) ∙ h);
}
  where
    known' :
        (id : String) (i : ℕ)
        → update s.index_by_id new (some (length s.tool_calls)) id ≡ some i
        → get_elem? (ids s ++ new ∷ []) i ≡ some id
    known' id i h = elim (Bool-cases (new =ₛ id)) [
      | inl q ↦
          ap (get_elem? (ids s ++ new ∷ []))
            (sym (length-map_id s.tool_calls ∙ some-injective _ _ (rw q at h)))
          ∙ get_elem?-last (ids s) new
          ∙ ap some ((eq_iff new id).0 q)
      | inr q ↦ get_elem?-append_left (ids s) (new ∷ []) i id (v.known id i (rw q at h))
    ]

    listed' :
        (id : String) (i : ℕ)
        → get_elem? (ids s ++ new ∷ []) i ≡ some id
        → update s.index_by_id new (some (length s.tool_calls)) id ≡ some i
    listed' id i h = elim (get_elem?-append_cases (ids s) new i id h) [
      | inl q ↦ elim (Bool-cases (new =ₛ id)) [
        | inl r ↦ cc (fresh, v.listed id i q, ap s.index_by_id ((eq_iff new id).0 r))
        | inr r ↦ rw r (v.listed id i q)
      ]
      | inr (q, r) ↦ rw ((eq_iff new id).1 r) (ap some (sym (q ∙ length-map_id s.tool_calls)))
    ]

abbrev pub IsPrefixed : List String → List String → Type 0
IsPrefixed xs ys = (zs : List String) × (ys ≡ xs ++ zs)

pub Grows-prefix : {s t : State} → Grows s t → IsPrefixed (ids s) (ids t)
Grows-prefix {s} (same e f) = ([], e ∙ sym (append-nil (ids s)))
Grows-prefix (added id fresh e f) = (id ∷ [], e)

pub anonymous_id-same :
    (s : State) (id : String)
    → ((anonymous_id s id).1.tool_calls ≡ s.tool_calls)
      × ((anonymous_id s id).1.index_by_id ≡ s.index_by_id)
unfolding anonymous_id
anonymous_id-same s id = ground arith

name_call-same :
    (s : State) (i : ℕ) (name : String)
    → (ids (name_call s i name) ≡ ids s) × ((name_call s i name).index_by_id ≡ s.index_by_id)
unfolding name_call
name_call-same s i name =
    ground
      (arith, ids-set s.tool_calls i (record (get_or s.tool_calls i no_call) { name = name }) refl)

-- A call that is looked up is found at its index, and a new one is added there.
pub record Ensured (s : State) (r : ℕ × State) : Type 0 where
  pub grows : Grows s r.1
  pub place : (id : String) × (get_elem? (ids r.1) r.0 ≡ some id)

ensure_known-Ensured :
    (s : State) (id : String) (name : String) → IsIndexed s → Ensured s (ensure_known (id, s) name)
unfolding append_call
ensure_known-Ensured s id name v = elim (Option-cases (s.index_by_id id)) [
  | inl e ↦
      rw (e, ensure_known)
        (record {
          grows = added id e (ids-append s.tool_calls _) refl;
          place = (
            id,
            ap (λ l. get_elem? l (length s.tool_calls)) (ids-append s.tool_calls _)
                ∙ ap (get_elem? (ids s ++ id ∷ [])) (sym (length-map_id s.tool_calls))
                ∙ get_elem?-last (ids s) id,
          );
        })
  | inr (i, e) ↦
      rw (e, ensure_known)
        (record {
          grows = same (name_call-same s i name).0 (name_call-same s i name).1;
          place = (id, rw ((name_call-same s i name).0) (v.known id i e));
        })
]

pub Grows-from :
    {s s' t : State}
    → s'.tool_calls ≡ s.tool_calls
    → s'.index_by_id ≡ s.index_by_id
    → Grows s' t
    → Grows s t
Grows-from e f (same a b) = same (a ∙ ap (map (λ c. c.id)) e) (b ∙ f)
Grows-from {s} {s'} {t} e f (added id fresh a b) =
    added id (ap (λ m. m id) (sym f) ∙ fresh) (a ∙ ap (λ cs. map (λ c. c.id) cs ++ id ∷ []) e) (
      b
      ∙ ap (λ m. update m id (some (length s'.tool_calls))) f
      ∙ ap (λ cs. update s.index_by_id id (some (length cs))) e)

pub ensure_tool_call-Ensured :
    (s : State) (id name : String) → IsIndexed s → Ensured s (ensure_tool_call s id name)
unfolding ensure_tool_call
ensure_tool_call-Ensured s id name v = record {
  grows = Grows-from {s = s} (anonymous_id-same s id).0 (anonymous_id-same s id).1 found.grows;
  place = found.place;
}
  where
    same_calls : Grows s (anonymous_id s id).1
    same_calls = same (ap (map (λ c. c.id)) (anonymous_id-same s id).0) (anonymous_id-same s id).1

    found : Ensured (anonymous_id s id).1 (ensure_known (anonymous_id s id) name)
    found = ensure_known-Ensured _ (anonymous_id s id).0 name (Grows-IsIndexed same_calls v)

-- A chunk names a call by its place among the calls, and its start by the id that stands there.
abbrev pub ValidDelta : State → Delta → Type 0
ValidDelta t (tool_start i id name arguments) = get_elem? (ids t) i ≡ some id
ValidDelta t (tool_arguments i delta) = (id : String) × (get_elem? (ids t) i ≡ some id)
ValidDelta t _ = Unit

pub record Stepped (s : State) (r : Events.Reply) : Type 0 where
  pub grows : Grows s r.state
  pub valid : All (λ c. ValidDelta r.state c.delta) r.chunks

id_at :
    (cs : List ToolCall) (i : ℕ) (id : String)
    → get_elem? (map (λ c. c.id) cs) i ≡ some id
    → (get_or cs i no_call).id ≡ id
id_at [] i id h = cc
id_at (c ∷ cs) zero id h = some-injective _ _ h
id_at (c ∷ cs) (suc i) id h = id_at cs i id h

pub Grows-to :
    {s t u : State} → Grows s t → ids u ≡ ids t → u.index_by_id ≡ t.index_by_id → Grows s u
Grows-to (same a b) e f = same (e ∙ a) (f ∙ b)
Grows-to (added id fresh a b) e f = added id fresh (e ∙ a) (f ∙ b)

-- A reply that leaves the calls and names none of them.
pub unchanged :
    (s : State) (r : Events.Reply)
    → ids r.state ≡ ids s
    → r.state.index_by_id ≡ s.index_by_id
    → All (λ c. ValidDelta r.state c.delta) r.chunks
    → Stepped s r
unchanged s r e f v = record { grows = same e f; valid = v }

started_place :
    (t : State) (i : ℕ)
    → (id : String) × (get_elem? (ids t) i ≡ some id)
    → get_elem? (ids t) i ≡ some ((get_or t.tool_calls i no_call).id)
started_place t i (id, e) = e ∙ ap some (sym (id_at t.tool_calls i id e))

module _ (codec : Codec) (g : Gjson) where
  pub start_call-Stepped :
      (s : State) (r : ℕ × State) → Ensured s r → Stepped s (Events.start_call codec g r)
  unfolding Events.start_call
  start_call-Stepped s (i, t) v = elim (Bool-cases (t.started (get_or t.tool_calls i no_call).id)) [
    | inl e ↦ rw (e, if◌then◌else◌) (record { grows = v.grows; valid = tt })
    | inr e ↦
        rw (e, if◌then◌else◌)
          (record { grows = Grows-to v.grows refl refl; valid = (started_place t i v.place, tt) })
  ]

  pub add_arguments-Stepped :
      (s : State) (r : ℕ × State) (delta : String)
      → Ensured s r
      → Stepped s (Events.add_arguments codec g r delta)
  unfolding Events.add_arguments
  add_arguments-Stepped s (i, t) delta v = record {
    grows = Grows-to v.grows kept refl;
    valid = ((v.place.0, ap (λ l. get_elem? l i) kept ∙ v.place.1), tt);
  }
    where
      call : ToolCall
      call = get_or t.tool_calls i no_call

      kept :
          map
            (λ c. c.id)
            (set t.tool_calls i (record call { arguments = call.arguments ++ₛ delta }))
          ≡ ids t
      kept = ids-set t.tool_calls i _ refl

  whole_call-Stepped :
      (s : State) (r : ℕ × State) (arguments : String)
      → Ensured s r
      → Stepped s (Events.whole_call codec g r arguments)
  unfolding Events.whole_call
  whole_call-Stepped s (i, t) arguments v = record {
    grows = Grows-to v.grows kept refl;
    valid = (ap (λ l. get_elem? l i) kept ∙ started_place t i v.place, tt);
  }
    where
      kept :
          map
            (λ c. c.id)
            (set t.tool_calls i (record (get_or t.tool_calls i no_call) { arguments = arguments }))
          ≡ ids t
      kept = ids-set t.tool_calls i _ refl

  set_arguments-same :
      (s : State) (i : ℕ) (arguments : String)
      → (ids (Events.set_arguments codec g s i arguments) ≡ ids s)
        × ((Events.set_arguments codec g s i arguments).index_by_id ≡ s.index_by_id)
  unfolding Events.set_arguments
  set_arguments-same s i arguments = ground (
    arith,
    ids-set s.tool_calls i (record (get_or s.tool_calls i no_call) { arguments = arguments }) refl,
  )

  pub client_call-Stepped :
      (s : State) (id name arguments : String)
      → IsIndexed s
      → Stepped s (Events.client_call codec g s id name arguments)
  unfolding Events.client_call
  client_call-Stepped s id name arguments v = elim (Option-cases (lookup_tool_call s id)) [
    | inl e ↦
        rw (e, Events.client_call)
          (whole_call-Stepped s _ arguments (ensure_tool_call-Ensured s id name v))
    | inr (i, e) ↦
        rw (e, Events.client_call)
          (unchanged s _
            ((set_arguments-same (name_call s i name) i arguments).0 ∙ (name_call-same s i name).0)
            ((set_arguments-same (name_call s i name) i arguments).1 ∙ (name_call-same s i name).1)
            tt)
  ]
