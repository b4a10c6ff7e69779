-- ===== src/CommandCode/Request/Messages/Known.antt =====
-- commandcode/protocol.go: the calls of a message, with the calls that the code finds to have no result.
use mathlib.Core.Bool.{true≢false}
use cpa_plugins.Base.{
  ℕ, ◌+◌, ◌≡◌, ◌⊎◌, inl, inr, refl, sym, ap, ◌∙◌, subst, String, ◌=ₛ◌, eq_iff, Bool, true, false,
  not, ◌||◌, equal_fold, ◌&&◌, List, [], ◌∷◌, ◌++◌, length, if◌then◌else◌, Bool-cases, All,
  All-append, All-map, is_in, keep, trim_space,
}
use cpa_plugins.CommandCode.Json.{Fields, Codec, tool_input}
use cpa_plugins.CommandCode.Request.{OpenAiMessage, OpenAiToolCall, Part, call_part}
use cpa_plugins.CommandCode.Request.Messages.{
  Role, instructing, asking, answering, reporting, unknown, role_of, add_id, add_calls, ids_called,
  call_ids, Calls, id_or_number, send_call, take_call, take_calls,
}
use cpa_plugins.CommandCode.Request.Messages.Answered.{
  part_calls, is_in-left, is_in-right, is_in-later, is_in-here, part_calls-append,
}

abbrev pub ids_of : List (String × String) → List String
ids_of [] = []
ids_of ((id, name) ∷ calls) = id ∷ ids_of calls

ids_of-append : (xs ys : List (String × String)) → ids_of (xs ++ ys) ≡ ids_of xs ++ ids_of ys
ids_of-append [] ys = refl
ids_of-append ((id, name) ∷ xs) ys = ap (◌∷◌ id) (ids_of-append xs ys)

-- No set of ids has the empty one.
add_id-nonempty :
    (id : String) (ids : List String) → is_in "" ids ≡ false → is_in "" (add_id id ids) ≡ false
unfolding is_in
add_id-nonempty id ids h = elim (Bool-cases (id =ₛ "")) [
  | inl e ↦ rw (e, if◌then◌else◌) h
  | inr e ↦ rw (e, if◌then◌else◌, h, e) refl
]

add_calls-nonempty :
    (calls : List OpenAiToolCall) (ids : List String)
    → is_in "" ids ≡ false
    → is_in "" (add_calls calls ids) ≡ false
unfolding add_calls
add_calls-nonempty [] ids h = h
add_calls-nonempty (call ∷ calls) ids h =
    add_id-nonempty (trim_space call.id) _ (add_calls-nonempty calls ids h)

pub call_ids-nonempty : (ms : List OpenAiMessage) → is_in "" (call_ids ms) ≡ false
unfolding call_ids is_in
call_ids-nonempty [] = refl
call_ids-nonempty (m ∷ ms) = go (role_of m.role) (call_ids-nonempty ms)
  where
    go :
        (r : Role)
        → is_in "" (call_ids ms) ≡ false
        → is_in "" (ids_called r m (call_ids ms)) ≡ false
    go instructing h = h
    go asking h = h
    go answering h = add_calls-nonempty m.tool_calls (call_ids ms) h
    go reporting h = h
    go unknown h = h

-- What is kept passes the test, and was there.
pub is_in-keep :
    (p : String → Bool) (id : String) (ids : List String)
    → is_in id (keep p ids) ≡ true
    → (is_in id ids ≡ true) × (p id ≡ true)
unfolding is_in
is_in-keep p id [] = λ e. absurd (true≢false (sym e))
is_in-keep p id (x ∷ xs) = elim (Bool-cases (p x)) [
  | inl k ↦
      rw (k, if◌then◌else◌)
        (elim (Bool-cases (x =ₛ id)) [
          | inl e ↦ rw e λ h. (refl, ap p (sym ((eq_iff x id).0 e)) ∙ k)
          | inr e ↦ rw e λ h. is_in-keep p id xs h
        ])
  | inr k ↦
      rw (k, if◌then◌else◌)
        λ h. (is_in-later id x xs (is_in-keep p id xs h).0, (is_in-keep p id xs h).1)
]

pub is_in-keep-false :
    (p : String → Bool) (id : String) (ids : List String)
    → is_in id ids ≡ false
    → is_in id (keep p ids) ≡ false
is_in-keep-false p id ids h = elim (Bool-cases (is_in id (keep p ids))) [
  | inl e ↦ absurd (true≢false (sym (is_in-keep p id ids e).0 ∙ h))
  | inr e ↦ e
]

-- An id has a result among the missing ones, or is a pair's.
abbrev pub Known : List String → List String → String → Type 0
Known paired missing id = (is_in id missing ≡ true) ⊎ (is_in id paired ≡ true)

abbrev pub AllKnown : List String → Calls → Type 0
AllKnown paired c = All (Known paired (ids_of c.missing)) (part_calls c.parts)

pub Known-more :
    (paired xs ys : List String) (id : String) → Known paired xs id → Known paired (xs ++ ys) id
Known-more paired xs ys id (inl h) = inl (is_in-left id xs ys h)
Known-more paired xs ys id (inr h) = inr h

AllKnown-snoc :
    (paired old new : List String) (parts : List Part) (id name : String) (input : Fields)
    → ((j : String) → Known paired old j → Known paired new j)
    → Known paired new id
    → All (Known paired old) (part_calls parts)
    → All (Known paired new) (part_calls (parts ++ call_part id name input ∷ []))
unfolding part_calls
AllKnown-snoc paired old new parts id name input f k h =
    subst (All (Known paired new)) (sym (part_calls-append parts (call_part id name input ∷ []))) (
      All-append (Known paired new) (part_calls parts) (id ∷ []) (All-map f (part_calls parts) h)
        (k, tt))

pub Known-before :
    (paired xs ys : List String) (id : String) → Known paired ys id → Known paired (xs ++ ys) id
Known-before paired xs ys id (inl h) = inl (is_in-right id xs ys h)
Known-before paired xs ys id (inr h) = inr h

AllKnown-if :
    (paired : List String) (b : Bool) (c d : Calls)
    → AllKnown paired c
    → AllKnown paired d
    → AllKnown paired (if b then c else d)
AllKnown-if paired true c d h k = h
AllKnown-if paired false c d h k = k

-- A call whose id is trimmed; a result that is sent, under a trimmed id.
abbrev pub IsCleanCall : OpenAiToolCall → Type 0
IsCleanCall call = trim_space call.id ≡ call.id

unfoldable pub IsClean : OpenAiMessage → Type 0
IsClean m =
    All IsCleanCall m.tool_calls
    × (trim_space m.tool_call_id ≡ m.tool_call_id)
    × (m.provider_executed ≡ false)

module _ (codec : Codec) (schemas : String → Fields) (paired : List String)
    (n : is_in "" paired ≡ false) where
  send_call-AllKnown :
      (call : OpenAiToolCall) (id : String) (c : Calls)
      → (is_in call.id paired ≡ true → call.id ≡ id)
      → AllKnown paired c
      → AllKnown paired (send_call codec schemas paired call id c)
  unfolding send_call
  send_call-AllKnown call id c same h = go (is_in call.id paired) refl
    where
      input : Fields
      input = tool_input codec call.arguments (schemas call.name)

      go :
          (b : Bool)
          → is_in call.id paired ≡ b
          → All
              (Known paired (ids_of (if b then c.missing else c.missing ++ (id, call.name) ∷ [])))
              (part_calls (c.parts ++ call_part id call.name input ∷ []))
      go true e =
          AllKnown-snoc paired (ids_of c.missing) (ids_of c.missing) c.parts id call.name input
            (λ j k. k) (inr (subst (λ x. is_in x paired ≡ true) (same e) e)) h
      go false e =
          subst
            (λ ids.
              All (Known paired ids) (part_calls (c.parts ++ call_part id call.name input ∷ [])))
            (sym (ids_of-append c.missing ((id, call.name) ∷ [])))
            (AllKnown-snoc paired (ids_of c.missing) (ids_of c.missing ++ id ∷ []) c.parts id
              call.name input (Known-more paired (ids_of c.missing) (id ∷ []))
              (inl (is_in-right id (ids_of c.missing) (id ∷ []) (is_in-here id []))) h)

  id_or_number-same :
      (id : String) (k : ℕ)
      → trim_space id ≡ id
      → is_in id paired ≡ true
      → id ≡ id_or_number (trim_space id) k
  id_or_number-same id k t h = elim (Bool-cases (trim_space id =ₛ "")) [
    | inl e ↦ absurd (
        true≢false (sym h ∙ ap (λ x. is_in x paired) (sym t ∙ (eq_iff (trim_space id) "").0 e) ∙ n))
    | inr e ↦ rw (e, if◌then◌else◌) (sym t)
  ]

  take_call-AllKnown :
      (call : OpenAiToolCall) (c : Calls)
      → IsCleanCall call
      → AllKnown paired c
      → AllKnown paired (take_call codec schemas paired call c)
  unfolding take_call
  take_call-AllKnown call c t h =
      AllKnown-if paired
        (not (trim_space call.type_name =ₛ "") && not (equal_fold call.type_name "function")
          || call.provider_executed)
        c _ h
        (send_call-AllKnown call _ c
          (id_or_number-same call.id (length c.missing + length c.parts) t) h)

  pub take_calls-AllKnown :
      (calls : List OpenAiToolCall) (c : Calls)
      → All IsCleanCall calls
      → AllKnown paired c
      → AllKnown paired (take_calls codec schemas paired calls c)
  unfolding take_calls
  take_calls-AllKnown [] c t h = h
  take_calls-AllKnown (call ∷ calls) c (t, ts) h =
      take_calls-AllKnown calls (take_call codec schemas paired call c) ts
        (take_call-AllKnown call c t h)
