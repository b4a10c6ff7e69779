-- ===== src/CommandCode/Request/Messages/Quiet.antt =====
-- commandcode/protocol.go: the content of a message holds no calls.
use cpa_plugins.Base.{
  ◌≡◌, refl, ap, ◌∙◌, String, ◌=ₛ◌, Bool, List, [], ◌∷◌, ◌++◌, if◌then◌else◌, arith, trim_space,
}
use cpa_plugins.CommandCode.Json.{Fields, Codec}
use cpa_plugins.CommandCode.Request.{OpenAiMessage, Part, reasoning_part}
use cpa_plugins.CommandCode.Request.Content.{
  Shape, blank, one_text, objects, malformed, shape, user_part, user_parts, user_of_shape,
  user_content, assistant_part, assistant_parts, assistant_of_shape, assistant_content_parts,
}
use cpa_plugins.CommandCode.Request.Messages.{first_parts}
use cpa_plugins.CommandCode.Request.Messages.Answered.{part_calls, part_calls-append}

abbrev Quiet : List Part → Type 0
Quiet parts = part_calls parts ≡ []

Quiet-append : (xs ys : List Part) → Quiet xs → Quiet ys → Quiet (xs ++ ys)
Quiet-append xs ys h k = part_calls-append xs ys ∙ ap (λ t. t ++ part_calls ys) h ∙ k

user_part-Quiet : (allow_images : Bool) (part : Fields) → Quiet (user_part allow_images part)
unfolding user_part part_calls
user_part-Quiet allow_images part = ground arith

user_parts-Quiet :
    (allow_images : Bool) (parts : List Fields) → Quiet (user_parts allow_images parts)
unfolding user_parts part_calls
user_parts-Quiet allow_images [] = refl
user_parts-Quiet allow_images (part ∷ parts) =
    Quiet-append (user_part allow_images part) _ (user_part-Quiet allow_images part)
      (user_parts-Quiet allow_images parts)

user_of_shape-Quiet : (allow_images : Bool) (s : Shape) → Quiet (user_of_shape allow_images s)
unfolding user_of_shape part_calls
user_of_shape-Quiet allow_images blank = refl
user_of_shape-Quiet allow_images (one_text text) = refl
user_of_shape-Quiet allow_images (objects parts) = user_parts-Quiet allow_images parts
user_of_shape-Quiet allow_images (malformed trimmed) = refl

pub user_content-quiet :
    (codec : Codec) (raw : String) (allow_images : Bool)
    → part_calls (user_content codec raw allow_images) ≡ []
unfolding user_content
user_content-quiet codec raw allow_images = (user_of_shape-Quiet allow_images (shape codec raw))

assistant_part-Quiet : (part : Fields) → Quiet (assistant_part part)
unfolding assistant_part part_calls
assistant_part-Quiet part = ground arith

assistant_parts-Quiet : (parts : List Fields) → Quiet (assistant_parts parts)
unfolding assistant_parts part_calls
assistant_parts-Quiet [] = refl
assistant_parts-Quiet (part ∷ parts) =
    Quiet-append (assistant_part part) _ (assistant_part-Quiet part) (assistant_parts-Quiet parts)

assistant_of_shape-Quiet : (s : Shape) → Quiet (assistant_of_shape s)
unfolding assistant_of_shape part_calls
assistant_of_shape-Quiet blank = refl
assistant_of_shape-Quiet (one_text text) = ground arith
assistant_of_shape-Quiet (objects parts) = assistant_parts-Quiet parts
assistant_of_shape-Quiet (malformed trimmed) = refl

pub first_parts-quiet :
    (codec : Codec) (schemas : String → Fields) (paired : List String) (m : OpenAiMessage)
    → part_calls (first_parts codec schemas paired m) ≡ []
unfolding first_parts assistant_content_parts part_calls
first_parts-quiet codec schemas paired m =
    (Quiet-append
      (if trim_space m.reasoning_content =ₛ ""
        then []
        else reasoning_part (trim_space m.reasoning_content) ∷ [])
      _ (ground arith) (assistant_of_shape-Quiet (shape codec m.content)))
