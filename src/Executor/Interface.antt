-- ===== src/Executor/Interface.antt =====
-- pkg/executor/executor.go: `genericExecutor`, what the evaluator of a configuration language
-- offers. A nil `*metadata` is `none`.
use crossform.Common.{String, Bool, Option, List, ◌≡◌, ◌≢◌, true, is_some, All}
use crossform.Common.Dict.{Dict}
use crossform.Common.Json.{Fields}
use crossform.Common.Outcome.{Outcome, panic}
use crossform.Executor.Types.{Metadata, Crossform, Ready}

pub record GenericExecutor : Type 0 where
  pub get_file_names : List String
  pub get_fields : String → List String
  pub get_metadata_object : String → String → Option Metadata
  pub get_crossform_object : String → String → Outcome Crossform
  pub validate_inputs : Dict Crossform → Fields → Option String
  pub get_resource : String → String → Outcome (Fields × Bool × Ready)

-- What the executor relies on: a field that is listed has metadata, and no evaluation panics.
pub record IsComplete (e : GenericExecutor) : Type 0 where
  pub described :
      (file : String)
      → All (λ field. is_some (e.get_metadata_object file field) ≡ true) (e.get_fields file)
  pub object : (file field : String) → e.get_crossform_object file field ≢ panic
  pub resource : (file field : String) → e.get_resource file field ≢ panic
