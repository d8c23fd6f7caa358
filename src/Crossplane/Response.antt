-- ===== src/Crossplane/Response.antt =====
-- pkg/crossplane/function.go: what `RunFunction` is given and what it answers. The response starts as
-- the SDK's copy of the request; here stands what the function adds to it.
use crossform.Common.{String, Option, none, List, [], ◌∷◌, ◌++◌}
use crossform.Common.Dict.{Dict}
use crossform.Common.Json.{Fields}
use crossform.Common.Outcome.{Outcome}
use crossform.Executor.Types.{ObservedComposed, DesiredComposed, ResourceSelector}

-- The parts of the request, as the SDK's accessors give them.
pub record RunFunctionRequest : Type 0 where
  pub desired : Outcome (Unit {0})
  pub context_json : Outcome String
  pub xr : Outcome Fields
  pub requested : Outcome (Dict (List Fields))
  pub observed : Outcome (Dict ObservedComposed)

pub data Severity : Type 0 where
  fatal warning normal : Severity

pub record RunFunctionResponse : Type 0 where
  pub results : List (Severity × String)
  pub desired_composite : Option Fields
  pub desired_composed : Dict DesiredComposed
  pub requirements : Option (Dict ResourceSelector)

abbrev pub no_response : RunFunctionResponse
no_response = record {
  results = [];
  desired_composite = none;
  desired_composed = [];
  requirements = none;
}

abbrev pub add_result : Severity → String → RunFunctionResponse → RunFunctionResponse
add_result severity text rsp = record rsp { results = rsp.results ++ (severity, text) ∷ [] }
