-- ===== src/Forward/Handler/Replies.antt =====
-- embeddings-forward/plugin.go: which requests are answered, and that an answer is given.
use cpa_plugins.Base.{ℕ, ℤ, Headers, ◌≡◌, ◌⊎◌, String, Bool, true, false, List, Option, none}
use cpa_plugins.Forward.Bodies.{Raw}
use cpa_plugins.Forward.Calls.{World, UpstreamResult, Call, HostHttpRequest, HostHttpResponse}
use cpa_plugins.Forward.Config.{Match}
use cpa_plugins.Forward.Decisions.{AnswerMap, Field, Decision}
use cpa_plugins.Forward.Merged.{Floats, merge_decisions}
use cpa_plugins.Forward.Objects.{Member}
use cpa_plugins.Forward.Responses.{ErrorPayload}
use cpa_plugins.Forward.Handler.{
  Target, to_decisions, Reply, not_handled, replied, panicked, Handler,
}
use cpa_plugins.Forward.Handler.Reaches.{Reaches}

module _ (is_structured : String → Bool) (marshal_error : ErrorPayload → String)
    (unmarshal : String → Raw) (unmarshal_text : String → Option String)
    (marshal : List Field → String) (quote : String → String) (canonical : String → String)
    (members : String → Option (List Member)) (clock : ℕ → ℤ)
    (upstream : ℕ → HostHttpRequest → Option HostHttpResponse)
    (decide_with : Call → List Match → List Field → List Field → Headers → World → Decision × World)
    (floats : Floats) (usage_of : String → List Field) where
  -- There is an answer, unless answers are to be written into a body that is not an object.
  abbrev pub Responds : Target → Reply → Type 0
  Responds t not_handled = ⊥
  Responds t (replied r) = Unit
  Responds t panicked =
      (t ≡ to_decisions)
      × ((questions : List Field) × (answers : AnswerMap) × (rs : List UpstreamResult)
          × (merge_decisions floats usage_of quote marshal unmarshal questions answers rs ≡ none))

  -- What becomes of a request that is or is not routed to this target.
  abbrev pub Served : Bool → Target → Reply → Type 0
  Served b t r = ((b ≡ false) × (r ≡ not_handled)) ⊎ ((b ≡ true) × Responds t r)
