-- ===== src/Executor/Samples.antt =====
-- A small module of two files, and what the executor makes of it.
use crossform.Common.{
  String, ◌≡◌, refl, Bool, true, false, none, some, List, [], ◌∷◌, ◌==◌, if◌then◌else◌,
}
use crossform.Common.Dict.{lookup, put}
use crossform.Common.Json.{str, obj, Fields, end, field, get, entries}
use crossform.Common.Outcome.{Outcome, ok, fail, ◌>>=◌}
use crossform.Executor.Types.{
  Metadata, Request, Crossform, Ready, ready_unspecified, ready_true, ObservedComposed,
  DesiredComposed, ExecCommand, ExecResult, new_exec_result,
}
use crossform.Executor.Interface.{GenericExecutor}
use crossform.Executor.File.{FileResult, exec_file, exec_fields, exec_field, dispatch, no_results}
use crossform.Executor.Exec.{
  exec, exec_loop, exec_one, exec_round, exec_inputs, merge, make_request_result, is_insufficient,
  each, fold, requires_ready, keep_observed,
}

-- The fields of a file are named for their types and identifiers.
abbrev pub fields_of : String → List String
fields_of file =
    if file == "a"
    then "provider" ∷ "later" ∷ []
    else if file == "b"
    then "broken" ∷ "out" ∷ []
    else "ask" ∷ []

abbrev pub type_of : String → String
type_of name = if name == "ask" then "request" else if name == "out" then "output" else "resource"

abbrev pub metadata_of : String → Metadata
metadata_of name = record { id = name; type = type_of name }

abbrev pub secret_request : Request
secret_request = record { api_version = "v1"; kind = "Secret"; name = "token"; labels = none }

abbrev pub crossform_of : String → Crossform
crossform_of name = record {
  metadata = metadata_of name;
  ready = none;
  request = some secret_request;
  output = str "done";
  schema = none;
  deferred = false;
}

abbrev pub provider : Fields
provider =
    field "apiVersion" (str "kubernetes.crossplane.io/v1alpha1")
      (field "kind" (str "ProviderConfig") end)

abbrev pub resource_of : String → Outcome (Fields × Bool × Ready)
resource_of name =
    if name == "provider"
    then ok (provider, false, ready_unspecified)
    else if name == "later"
    then ok (end, true, ready_unspecified)
    else fail "no such field"

abbrev pub evaluator : List String → GenericExecutor
evaluator files = record {
  get_file_names = files;
  get_fields = fields_of;
  get_metadata_object = λ file name. some (metadata_of name);
  get_crossform_object = λ file name. ok (crossform_of name);
  validate_inputs = λ inputs values. none;
  get_resource = λ file name. resource_of name;
}

abbrev pub existing : ObservedComposed
existing = record { resource = field "kind" (str "Bucket") end; connection_details = [] }

abbrev pub cmd : ExecCommand
cmd = record {
  repository_url = "https://git";
  repository_revision = "main";
  path = "module";
  observed = ("broken", existing) ∷ [];
  requested = [];
  module_name = "example";
  xr = field "spec" (obj end) end;
  context = "{}";
}

abbrev pub marshal_json : Fields → Outcome String
marshal_json fs = ok "{}"

abbrev pub provider_ready : DesiredComposed
provider_ready = record { resource = provider; ready = ready_true }

abbrev pub of_both : ExecResult
of_both = record new_exec_result {
  desired = ("provider", provider_ready) ∷ ("broken", keep_observed existing) ∷ [];
  desired_errors = ("broken", "no such field") ∷ [];
  outputs = ("out", str "done") ∷ [];
}

unfoldable pub program : Unit {0}
unfolding exec exec_loop exec_one exec_round exec_inputs merge make_request_result is_insufficient
    each fold requires_ready exec_file exec_fields exec_field dispatch get entries lookup put ◌>>=◌
program = tt

-- The deferred resource of the first file is not in the result of both.
pub exec-both : exec marshal_json cmd (evaluator ("a" ∷ "b" ∷ [])) ≡ ok of_both
unfolding program
exec-both = refl

abbrev pub of_first : FileResult
of_first = record no_results {
  resources = ("provider", record { resource = provider; ready = ready_unspecified }) ∷ [];
  resources_deferred = "later" ∷ [];
}

abbrev pub of_second : FileResult
of_second = record no_results {
  resources_errs = ("broken", "no such field") ∷ [];
  outputs = ("out", str "done") ∷ [];
}

abbrev pub after_first : ExecResult
after_first = record new_exec_result {
  desired = ("provider", provider_ready) ∷ [];
  deferred = "later" ∷ [];
}
