-- ===== src/Executor/File.antt =====
-- pkg/executor/executor.go: `execFile`, one pass over the fields of a file. Without `evaluate` only
-- the requests and the inputs are read.
use crossform.Common.{String, Bool, true, false, List, [], ◌∷◌, ◌++◌, ◌==◌, if◌then◌else◌}
use crossform.Common.Dict.{Dict, put}
use crossform.Common.Json.{Value, Fields}
use crossform.Common.Outcome.{Outcome, ok, fail, panic, must, ◌>>=◌}
use crossform.Executor.Types.{Metadata, Crossform, Ready, DesiredComposed}
use crossform.Executor.Interface.{GenericExecutor}

pub record FileResult : Type 0 where
  pub resources : Dict DesiredComposed
  pub resources_errs : Dict String
  pub resources_deferred : List String
  pub requests : Dict Crossform
  pub requests_errs : Dict String
  pub outputs : Dict Value
  pub outputs_errs : Dict String
  pub inputs : Dict Crossform
  pub inputs_errs : Dict String

abbrev pub no_results : FileResult
no_results = record {
  resources = [];
  resources_errs = [];
  resources_deferred = [];
  requests = [];
  requests_errs = [];
  outputs = [];
  outputs_errs = [];
  inputs = [];
  inputs_errs = [];
}

-- `if err != nil { … continue }`: an error is stored as a value, a panic is not.
abbrev on_result :
    {A : Type 0} → Outcome A → (String → FileResult) → (A → FileResult) → Outcome FileResult
on_result (ok a) stored next = ok (next a)
on_result (fail e) stored next = ok (stored e)
on_result panic stored next = panic

abbrev add_resource : String → Fields × Bool × Ready → FileResult → FileResult
add_resource id (res, true, ready) acc = record acc {
  resources_deferred = acc.resources_deferred ++ id ∷ [];
}
add_resource id (res, false, ready) acc = record acc {
  resources = put id (record { resource = res; ready = ready }) acc.resources;
}

module _ (e : GenericExecutor) (evaluate : Bool) (file : String) where
  exec_resource : String → String → FileResult → Outcome FileResult
  exec_resource name id acc =
      on_result (e.get_resource file name)
        (λ err. record acc { resources_errs = put id err acc.resources_errs })
        (λ r. add_resource id r acc)

  exec_request : String → String → FileResult → Outcome FileResult
  exec_request name id acc =
      on_result (e.get_crossform_object file name)
        (λ err. record acc { requests_errs = put id err acc.requests_errs })
        (λ c. record acc { requests = put id c acc.requests })

  exec_output : String → String → FileResult → Outcome FileResult
  exec_output name id acc =
      on_result (e.get_crossform_object file name)
        (λ err. record acc { outputs_errs = put id err acc.outputs_errs })
        (λ c. record acc { outputs = put id c.output acc.outputs })

  exec_input : String → String → FileResult → Outcome FileResult
  exec_input name id acc =
      on_result (e.get_crossform_object file name)
        (λ err. record acc { inputs_errs = put id err acc.inputs_errs })
        (λ c. record acc { inputs = put id c acc.inputs })

  -- The `switch` on the type that the metadata gives; other types are skipped.
  unfoldable pub dispatch : String → Metadata → FileResult → Outcome FileResult
  unfolding exec_resource exec_request exec_output exec_input
  dispatch name m acc =
      if m.type == "resource"
      then (if evaluate then exec_resource name m.id acc else ok acc)
      else if m.type == "request"
      then exec_request name m.id acc
      else if m.type == "output"
      then (if evaluate then exec_output name m.id acc else ok acc)
      else if m.type == "input"
      then exec_input name m.id acc
      else ok acc

  unfoldable pub exec_field : String → FileResult → Outcome FileResult
  unfolding dispatch ◌>>=◌
  exec_field name acc = do
    metadata ← must (e.get_metadata_object file name)
    dispatch name metadata acc

  unfoldable pub exec_fields : List String → FileResult → Outcome FileResult
  unfolding exec_field
  exec_fields [] acc = ok acc
  exec_fields (name ∷ names) acc = do acc' ← exec_field name acc; exec_fields names acc'

  unfoldable pub exec_file : Outcome FileResult
  unfolding exec_fields
  exec_file = exec_fields (e.get_fields file) no_results
