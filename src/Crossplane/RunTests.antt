-- ===== src/Crossplane/RunTests.antt =====
-- Two runs after another, and a run before the repository is there.
use crossform.Common.{String, ◌≡◌, refl, false, none, some, [], ◌∷◌, inl}
use crossform.Common.Dict.{Dict, lookup, map_option}
use crossform.Common.Json.{str, bool, obj, Fields, end, field, get, set}
use crossform.Common.Outcome.{Outcome, ok, fail}
use crossform.Executor.Types.{ObservedComposed, ExecResult, new_exec_result}
use crossform.Executor.Types.{Crossform, ExecCommand}
use crossform.Executor.Interface.{GenericExecutor}
use crossform.Executor.File.{exec_file, exec_fields, exec_field, dispatch}
use crossform.Executor.Outputs.{status_outputs}
use crossform.Crossplane.Reported.{status_report, Tells, exec-finish-Tells}
use crossform.Crossplane.Kept.{exec-finish_outputs}
use crossform.Executor.Exec.{
  exec, exec_loop, exec_one, exec_round, exec_inputs, merge, make_request_result, is_insufficient,
}
use crossform.Crossplane.Response.{RunFunctionResponse, normal}
use crossform.Crossplane.Function.{finish, run_function}
use crossform.Crossplane.Unready.{managed, run_function-unready}
use crossform.Manager.State.{new_manager, get_repo}
use crossform.Crossplane.Critical.{observed_again}
use crossform.Crossplane.Samples.{
  services, accepts, observed, xr, program, repository, module_spec, request, partial,
}

-- A run gives out an address; in the next one the address cannot be evaluated.
abbrev addressed : ExecResult
addressed = record new_exec_result { outputs = ("url", str "http://site") ∷ [] }

abbrev composite_after : Fields
composite_after = field "apiVersion" (str "example.org/v1") (
    field "kind" (str "Site") (
      field "status"
        (obj (
          field "hasErrors" (bool false) (
            field "report"
              (obj (
                field "outputs" (obj (field "url" (str "OK") end))
                  (field "inputsValidation" (str "OK") end)))
              (field "repository" (obj repository)
                (field "outputs" (obj (field "url" (str "http://site") end)) end)))))
        end))

abbrev answer_after : RunFunctionResponse
answer_after = record {
  results = (normal, "Inputs validation: OK\nOutput url OK") ∷ [];
  desired_composite = some composite_after;
  desired_composed = [];
  requirements = none;
}

finish-addressed : finish services "https://git" "main" observed xr (ok addressed) ≡ ok answer_after
unfolding program
finish-addressed = refl

abbrev url_field : Crossform
url_field = record {
  metadata = record { id = "url"; type = "output" };
  ready = none;
  request = none;
  output = obj end;
  schema = none;
  deferred = false;
}

abbrev evaluator : GenericExecutor
evaluator = record {
  get_file_names = "main" ∷ [];
  get_fields = λ file. "url" ∷ [];
  get_metadata_object = λ file name. some url_field.metadata;
  get_crossform_object = λ file name. fail "no such field";
  validate_inputs = λ inputs values. none;
  get_resource = λ file name. fail "no such field";
}

abbrev cmd : ExecCommand
cmd = record {
  repository_url = "https://git";
  repository_revision = "main";
  path = "module";
  observed = observed;
  requested = [];
  module_name = "example";
  xr = set "spec" (obj end) composite_after;
  context = "{}";
}

executed : Unit {0}
unfolding program exec exec_loop exec_one exec_round exec_inputs merge make_request_result
    is_insufficient exec_file exec_fields exec_field dispatch
executed = tt

exec-next : exec (λ fs. ok "{}") cmd evaluator ≡ ok addressed
unfolding executed
exec-next = refl

exec-finish_outputs_example :
    ((outputs : Fields) × (status_outputs cmd.xr ≡ some outputs)
      × (get "url" outputs ≡ some (str "http://site")))
    × (lookup "url" addressed.outputs_errors ≡ none)
unfolding executed
exec-finish_outputs_example =
    exec-finish_outputs services "https://git" "main" observed xr composite_after addressed
      answer_after "url" (str "http://site") (λ fs. ok "{}") cmd evaluator addressed refl
      finish-addressed refl refl refl exec-next

exec-finish-Tells_example :
    (report : Fields) × (status_report composite_after ≡ some report)
    × Tells addressed answer_after.desired_composed "url" report
unfolding executed
exec-finish-Tells_example =
    exec-finish-Tells services accepts (λ fs. ok "{}") cmd evaluator addressed "https://git" "main"
      observed xr composite_after answer_after "url" exec-next refl finish-addressed refl

-- The manager has no repository at all yet; the hash function keeps its text.
abbrev md5 : String → String
md5 text = text

abbrev module_run : String → ExecCommand → Outcome ExecResult × Dict ObservedComposed
module_run path task = (ok partial, [])

abbrev observed_xr : Fields
observed_xr = field "spec" (obj module_spec) end

get_repo-none :
    get_repo {R = Unit {0}} md5 "https://git" "main" new_manager
    ≡ fail "Repository not found: https://gitmain"
unfolding program get_repo new_manager
get_repo-none = refl

run_function-unready_example :
    (rsp : RunFunctionResponse) × (run_function
        (managed {R = Unit {0}} md5 module_run new_manager services)
        request
      ≡ ok rsp)
    × ((k : String) → lookup k rsp.desired_composed ≡ map_option observed_again (lookup k observed))
unfolding program
run_function-unready_example =
    run_function-unready md5 module_run new_manager services "https://git" "main" "module" "{}"
      observed_xr module_spec [] observed accepts
      (inl ("Repository not found: https://gitmain", get_repo-none)) refl refl refl refl (inl refl)
