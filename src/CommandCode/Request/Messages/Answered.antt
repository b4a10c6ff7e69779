-- ===== src/CommandCode/Request/Messages/Answered.antt =====
-- commandcode/protocol.go: every call that the provider is sent has its result.
use mathlib.Core.Bool.{true≢false}
use mathlib.Core.List.{append_assoc}
use cpa_plugins.Base.{
  ◌≡◌, inl, inr, refl, sym, ap, ◌∙◌, String, ◌=ₛ◌, eq_iff, true, List, [], ◌∷◌, ◌++◌, Bool-cases,
  is_in,
}
use cpa_plugins.CommandCode.Request.{
  Part, text_part, reasoning_part, image_part, call_part, result_part, Message,
}

-- The ids of the calls and of the results among parts.
unfoldable pub part_calls : List Part → List String
part_calls [] = []
part_calls (text_part s ∷ parts) = part_calls parts
part_calls (reasoning_part s ∷ parts) = part_calls parts
part_calls (image_part s t ∷ parts) = part_calls parts
part_calls (call_part id name input ∷ parts) = id ∷ part_calls parts
part_calls (result_part id name value ∷ parts) = part_calls parts

unfoldable pub part_results : List Part → List String
part_results [] = []
part_results (text_part s ∷ parts) = part_results parts
part_results (reasoning_part s ∷ parts) = part_results parts
part_results (image_part s t ∷ parts) = part_results parts
part_results (call_part id name input ∷ parts) = part_results parts
part_results (result_part id name value ∷ parts) = id ∷ part_results parts

-- The ids of all calls and of all results that messages hold.
unfoldable pub sent : List Message → List String
unfolding part_calls
sent [] = []
sent (m ∷ ms) = part_calls m.content ++ sent ms

unfoldable pub answered : List Message → List String
unfolding part_results
answered [] = []
answered (m ∷ ms) = part_results m.content ++ answered ms

pub is_in-left :
    (id : String) (xs ys : List String) → is_in id xs ≡ true → is_in id (xs ++ ys) ≡ true
unfolding is_in
is_in-left id [] ys = λ e. absurd (true≢false (sym e))
is_in-left id (x ∷ xs) ys = elim (Bool-cases (x =ₛ id)) [
  | inl k ↦ rw k λ e. refl
  | inr k ↦ rw k λ e. is_in-left id xs ys e
]

pub is_in-right :
    (id : String) (xs ys : List String) → is_in id ys ≡ true → is_in id (xs ++ ys) ≡ true
unfolding is_in
is_in-right id [] ys = λ e. e
is_in-right id (x ∷ xs) ys = elim (Bool-cases (x =ₛ id)) [
  | inl k ↦ rw k λ e. refl
  | inr k ↦ rw k λ e. is_in-right id xs ys e
]

pub part_calls-append : (xs ys : List Part) → part_calls (xs ++ ys) ≡ part_calls xs ++ part_calls ys
unfolding part_calls
part_calls-append [] ys = refl
part_calls-append (text_part s ∷ parts) ys = part_calls-append parts ys
part_calls-append (reasoning_part s ∷ parts) ys = part_calls-append parts ys
part_calls-append (image_part s t ∷ parts) ys = part_calls-append parts ys
part_calls-append (call_part id name input ∷ parts) ys = ap (◌∷◌ id) (part_calls-append parts ys)
part_calls-append (result_part id name value ∷ parts) ys = part_calls-append parts ys

pub sent-append : (xs ys : List Message) → sent (xs ++ ys) ≡ sent xs ++ sent ys
unfolding sent
sent-append [] ys = refl
sent-append (m ∷ ms) ys =
    ap (λ t. part_calls m.content ++ t) (sent-append ms ys)
    ∙ sym (append_assoc (part_calls m.content) _ _)

pub answered-append : (xs ys : List Message) → answered (xs ++ ys) ≡ answered xs ++ answered ys
unfolding answered
answered-append [] ys = refl
answered-append (m ∷ ms) ys =
    ap (λ t. part_results m.content ++ t) (answered-append ms ys)
    ∙ sym (append_assoc (part_results m.content) _ _)

pub is_in-later : (id x : String) (xs : List String) → is_in id xs ≡ true → is_in id (x ∷ xs) ≡ true
unfolding is_in
is_in-later id x xs h = elim (Bool-cases (x =ₛ id)) [ inl e ↦ rw e refl | inr e ↦ rw e h ]

pub is_in-here : (id : String) (xs : List String) → is_in id (id ∷ xs) ≡ true
unfolding is_in
is_in-here id xs = rw ((eq_iff id id).1 refl) refl
