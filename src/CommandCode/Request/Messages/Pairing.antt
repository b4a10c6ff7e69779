-- ===== src/CommandCode/Request/Messages/Pairing.antt =====
-- commandcode/protocol.go: a call that is sent is paired with a result, or it is given one.
use mathlib.Core.Bool.{true≢false}
use mathlib.Core.List.{append-nil}
use cpa_plugins.Base.{
  ◌≡◌, inl, inr, refl, sym, ap, ◌∙◌, subst, String, ◌=ₛ◌, Bool, true, false, ◌||◌, List, [], ◌∷◌,
  ◌++◌, if◌then◌else◌, Bool-cases, All, All-append, All-map, is_in, trim_space,
}
use cpa_plugins.CommandCode.Json.{Fields, Codec}
use cpa_plugins.CommandCode.Request.{OpenAiMessage, OpenAiTool, Part, Message}
use cpa_plugins.CommandCode.Request.Messages.{
  Role, instructing, asking, answering, reporting, unknown, role_of, add_id, ids_reported, call_ids,
  result_ids, paired_tool_call_ids, Calls, missing_messages, tool_message, emitted,
  assistant_message, user_message, messages_of, all_messages, messages_from_openai, tool_schemas,
}
use cpa_plugins.CommandCode.Request.Messages.Answered.{
  part_calls, part_results, sent, answered, is_in-right, sent-append, answered-append,
}
use cpa_plugins.CommandCode.Request.Messages.Quiet.{user_content-quiet, first_parts-quiet}
use cpa_plugins.CommandCode.Request.Content.{text_from_raw_content}
use cpa_plugins.CommandCode.Request.Messages.Known.{
  ids_of, Known, Known-more, Known-before, AllKnown, IsClean, call_ids-nonempty, is_in-keep,
  is_in-keep-false, take_calls-AllKnown,
}

answered-missing :
    (calls : List (String × String)) → answered (missing_messages calls) ≡ ids_of calls
unfolding answered missing_messages
answered-missing [] = refl
answered-missing ((id, name) ∷ calls) = ap (◌∷◌ id) (answered-missing calls)

sent-missing : (calls : List (String × String)) → sent (missing_messages calls) ≡ []
unfolding sent missing_messages
sent-missing [] = refl
sent-missing ((id, name) ∷ calls) = sent-missing calls

sent-assistant : (parts : List Part) → sent (assistant_message parts) ≡ part_calls parts
unfolding sent assistant_message part_calls
sent-assistant [] = refl
sent-assistant (part ∷ parts) = append-nil (part_calls (part ∷ parts))

sent-user : (parts : List Part) → sent (user_message parts) ≡ part_calls parts
unfolding sent user_message part_calls
sent-user [] = refl
sent-user (part ∷ parts) = append-nil (part_calls (part ∷ parts))

sent_nil : sent [] ≡ []
unfolding sent
sent_nil = refl

sent-emitted : (c : Calls) → sent (emitted c) ≡ part_calls c.parts
unfolding emitted
sent-emitted c =
    sent-append (assistant_message c.parts) (missing_messages c.missing)
    ∙ ap (λ t. sent (assistant_message c.parts) ++ t) (sent-missing c.missing)
    ∙ append-nil (sent (assistant_message c.parts))
    ∙ sent-assistant c.parts

sent-report :
    (b : Bool) (id name value : String)
    → sent (if b then [] else tool_message id name value ∷ []) ≡ []
unfolding sent part_calls
sent-report true id name value = refl
sent-report false id name value = refl

is_in-cons :
    (id x : String) (xs ys : List String)
    → (is_in id xs ≡ true → is_in id ys ≡ true)
    → is_in id (x ∷ xs) ≡ true
    → is_in id (x ∷ ys) ≡ true
unfolding is_in
is_in-cons id x xs ys f = elim (Bool-cases (x =ₛ id)) [
  | inl k ↦ rw k λ e. refl
  | inr k ↦ rw k λ e. f e
]

answered-report :
    (tool_call_id name value : String) (provider_executed : Bool) (id : String)
    (results rest : List String)
    → trim_space tool_call_id ≡ tool_call_id
    → provider_executed ≡ false
    → (is_in id results ≡ true → is_in id rest ≡ true)
    → is_in id (add_id (trim_space tool_call_id) results) ≡ true
    → is_in id (
        answered (
          if trim_space tool_call_id =ₛ "" || provider_executed
          then []
          else tool_message tool_call_id name value ∷ [])
        ++ rest)
      ≡ true
unfolding answered part_results
answered-report tool_call_id name value provider_executed id results rest t p ih =
    elim (Bool-cases (trim_space tool_call_id =ₛ "")) [
      | inl k ↦ rw (k, if◌then◌else◌) ih
      | inr k ↦
          rw (p, k, if◌then◌else◌)
            λ e.
              is_in-cons id tool_call_id results rest ih
                (subst (λ x. is_in id (x ∷ results) ≡ true) t e)
    ]

clean-id : (m : OpenAiMessage) → IsClean m → trim_space m.tool_call_id ≡ m.tool_call_id
unfolding IsClean
clean-id m h = h.1

clean-sent : (m : OpenAiMessage) → IsClean m → m.provider_executed ≡ false
unfolding IsClean
clean-sent m h = h.2

module _ (codec : Codec) (schemas : String → Fields) (paired : List String)
    (n : is_in "" paired ≡ false) where
  abbrev AnsweredOr : List Message → Type 0
  AnsweredOr out = All (Known paired (answered out)) (sent out)

  emitted-AnsweredOr : (c : Calls) → AllKnown paired c → AnsweredOr (emitted c)
  unfolding emitted
  emitted-AnsweredOr c h =
      subst (All (Known paired (answered (emitted c)))) (sym (sent-emitted c))
        (All-map (λ id k. Known-into id k) (part_calls c.parts) h)
    where
      Known-into :
          (id : String)
          → Known paired (ids_of c.missing) id
          → Known paired (answered (emitted c)) id
      Known-into id (inr k) = inr k
      Known-into id (inl k) = inl (
          subst (λ ids. is_in id ids ≡ true)
            (sym (answered-append (assistant_message c.parts) (missing_messages c.missing)))
            (is_in-right id (answered (assistant_message c.parts))
              (answered (missing_messages c.missing))
              (subst (λ ids. is_in id ids ≡ true) (sym (answered-missing c.missing)) k)))

  AnsweredOr-nothing : (out : List Message) → sent out ≡ [] → AnsweredOr out
  AnsweredOr-nothing out e = subst (All (Known paired (answered out))) (sym e) tt

  messages_of-AnsweredOr :
      (model : String) (r : Role) (m : OpenAiMessage)
      → IsClean m
      → AnsweredOr (messages_of codec schemas paired model r m)
  unfolding messages_of IsClean
  messages_of-AnsweredOr model instructing m h = AnsweredOr-nothing [] sent_nil
  messages_of-AnsweredOr model asking m h =
      AnsweredOr-nothing _ (sent-user _ ∙ user_content-quiet codec m.content _)
  messages_of-AnsweredOr model answering m h = emitted-AnsweredOr _ (
      take_calls-AllKnown codec schemas paired n m.tool_calls _ h.0
        (subst (All (Known paired [])) (sym (first_parts-quiet codec schemas paired m)) tt))
  messages_of-AnsweredOr model reporting m h =
      AnsweredOr-nothing _
        (sent-report (trim_space m.tool_call_id =ₛ "" || m.provider_executed) _ _ _)
  messages_of-AnsweredOr model unknown m h = AnsweredOr-nothing [] sent_nil

  AnsweredOr-append : (xs ys : List Message) → AnsweredOr xs → AnsweredOr ys → AnsweredOr (xs ++ ys)
  AnsweredOr-append xs ys h k =
      subst (All (Known paired (answered (xs ++ ys)))) (sym (sent-append xs ys)) (
        All-append (Known paired (answered (xs ++ ys))) (sent xs) (sent ys)
          (subst (λ ids. All (Known paired ids) (sent xs)) (sym (answered-append xs ys))
            (All-map (Known-more paired (answered xs) (answered ys)) (sent xs) h))
          (subst (λ ids. All (Known paired ids) (sent ys)) (sym (answered-append xs ys))
            (All-map (Known-before paired (answered xs) (answered ys)) (sent ys) k)))

  all_messages-AnsweredOr :
      (model : String) (ms : List OpenAiMessage)
      → All IsClean ms
      → AnsweredOr (all_messages codec schemas paired model ms)
  unfolding all_messages
  all_messages-AnsweredOr model [] h = AnsweredOr-nothing [] sent_nil
  all_messages-AnsweredOr model (m ∷ ms) (h, hs) =
      AnsweredOr-append (messages_of codec schemas paired model (role_of m.role) m) _
        (messages_of-AnsweredOr model (role_of m.role) m h) (all_messages-AnsweredOr model ms hs)

  -- A result that is reported is sent.
  answered-reported :
      (model : String) (ms : List OpenAiMessage) (id : String)
      → All IsClean ms
      → is_in id (result_ids ms) ≡ true
      → is_in id (answered (all_messages codec schemas paired model ms)) ≡ true
  unfolding result_ids all_messages is_in
  answered-reported model [] id h = λ e. absurd (true≢false (sym e))
  answered-reported model (m ∷ ms) id (h, hs) = λ e.
      subst (λ ids. is_in id ids ≡ true)
        (sym (
          answered-append (messages_of codec schemas paired model (role_of m.role) m)
            (all_messages codec schemas paired model ms)))
        (go (role_of m.role) (answered-reported model ms id hs) e)
    where
      rest : List String
      rest = answered (all_messages codec schemas paired model ms)

      go :
          (r : Role)
          → (is_in id (result_ids ms) ≡ true → is_in id rest ≡ true)
          → is_in id (ids_reported r m (result_ids ms)) ≡ true
          → is_in id (answered (messages_of codec schemas paired model r m) ++ rest) ≡ true
      go instructing ih e = is_in-right id _ rest (ih e)
      go asking ih e = is_in-right id _ rest (ih e)
      go answering ih e = is_in-right id _ rest (ih e)
      go unknown ih e = is_in-right id _ rest (ih e)
      go reporting ih e =
          answered-report m.tool_call_id m.name (text_from_raw_content codec m.content)
            m.provider_executed id (result_ids ms) rest (clean-id m h) (clean-sent m h) ih e

is_in-paired :
    (ms : List OpenAiMessage) (id : String)
    → is_in id (paired_tool_call_ids ms) ≡ true
    → is_in id (result_ids ms) ≡ true
unfolding paired_tool_call_ids
is_in-paired ms id k = (is_in-keep (λ j. is_in j (result_ids ms)) id (call_ids ms) k).1

paired-nonempty : (ms : List OpenAiMessage) → is_in "" (paired_tool_call_ids ms) ≡ false
unfolding paired_tool_call_ids
paired-nonempty ms =
    is_in-keep-false (λ j. is_in j (result_ids ms)) "" (call_ids ms) (call_ids-nonempty ms)

-- When every tool call id and every tool result id comes without surrounding space, and no message is
-- marked as executed by the provider, every call among the messages for the provider has a result
-- with its id among them.
pub messages_from_openai-answered :
    (codec : Codec) (ms : List OpenAiMessage) (tools : List OpenAiTool) (model : String)
    → All IsClean ms
    → All
        (λ id. is_in id (answered (messages_from_openai codec ms tools model).1) ≡ true)
        (sent (messages_from_openai codec ms tools model).1)
unfolding messages_from_openai paired_tool_call_ids
messages_from_openai-answered codec ms tools model h =
    All-map from_pair
      (sent (all_messages codec (tool_schemas codec tools) (paired_tool_call_ids ms) model ms))
      (all_messages-AnsweredOr codec (tool_schemas codec tools) (paired_tool_call_ids ms)
        (paired-nonempty ms) model ms h)
  where
    out : List Message
    out = all_messages codec (tool_schemas codec tools) (paired_tool_call_ids ms) model ms

    from_pair :
        (id : String)
        → Known (paired_tool_call_ids ms) (answered out) id
        → is_in id (answered out) ≡ true
    from_pair id (inl k) = k
    from_pair id (inr k) =
        answered-reported codec (tool_schemas codec tools) (paired_tool_call_ids ms)
          (paired-nonempty ms) model ms id h (is_in-paired ms id k)
