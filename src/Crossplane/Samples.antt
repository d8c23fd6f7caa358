-- ===== src/Crossplane/Samples.antt =====
-- A small cluster: a bucket and the composite that asks for it, with what the tests share.
use crossform.Common.{refl, false, none, some, [], ◌∷◌}
use crossform.Common.Dict.{Dict, lookup, put, remove, map_values}
use crossform.Common.Json.{
  str, bool, obj, Fields, end, field, get, set, delete, entries, of_entries,
}
use crossform.Common.Outcome.{ok, fail, ◌>>=◌}
use crossform.Executor.Types.{ready_unspecified, ObservedComposed, ExecResult, new_exec_result}
use crossform.Executor.Exec.{each, fold}
use crossform.Repo.Status.{new_status}
use crossform.Crossplane.Clean.{clean, clean_metadata, update_obj, delete_all, drop_prefixed}
use crossform.Crossplane.Composite.{is_composite, same_value, take_composite}
use crossform.Crossplane.Desired.{keep_deferred, after_execute, desired_of}
use crossform.Crossplane.Status.{status_of, set_repository}
use crossform.Crossplane.Report.{
  status, item_string, report_deferred, report_requests, report_resources, report_outputs,
  report_inputs, new_report, join, item_strings, report_string, report_map,
}
use crossform.Crossplane.Response.{RunFunctionRequest}
use crossform.Crossplane.Function.{Services, finish, run_function}
use crossform.Crossplane.Critical.{Accepts}

abbrev pub services : Services
services = record {
  execute = λ cmd. (fail "no such file", cmd.observed);
  get_repo_status = λ url revision. some new_status;
  set_composite = λ xr. none;
  set_composed = λ d. none;
  sprintf = λ s. s;
}

pub accepts : Accepts services
accepts = record { composite = λ xr. refl; composed = λ d. refl }

abbrev pub labels : Fields
labels = field "crossplane.io/claim-name" (str "claim") (field "app" (str "web") end)

abbrev pub bucket : Fields
bucket = field "kind" (str "Bucket") (
    field "metadata" (obj (field "uid" (str "7") (field "labels" (obj labels) end)))
      (field "status" (obj (field "connectionDetails" (str "secret") end)) end))

abbrev pub clean_bucket_metadata : Fields
clean_bucket_metadata = field "labels" (obj (field "app" (str "web") end)) end

abbrev pub clean_bucket : Fields
clean_bucket = field "kind" (str "Bucket") (field "metadata" (obj clean_bucket_metadata) end)

abbrev pub observed : Dict ObservedComposed
observed = ("bucket", record { resource = bucket; connection_details = [] }) ∷ []

abbrev pub xr : Fields
xr = field "apiVersion" (str "example.org/v1") (
    field "kind" (str "Site")
      (field "metadata" (obj (field "name" (str "site") end)) (field "spec" (obj end) end)))

unfoldable pub program : Unit {0}
unfolding finish run_function after_execute desired_of take_composite is_composite same_value
    keep_deferred each fold status_of set_repository new_report report_deferred report_requests
    report_resources report_outputs report_inputs report_string report_map item_strings item_string
    status join clean clean_metadata update_obj delete_all drop_prefixed get set delete entries
    of_entries lookup put remove map_values ◌>>=◌
program = tt

abbrev pub repository : Fields
repository =
    field "message" (str "UnInitialized")
      (field "commitSha" (str "UnInitialized") (field "ok" (bool false) end))

abbrev pub module_spec : Fields
module_spec =
    field "repository" (str "https://git")
      (field "revision" (str "main") (field "path" (str "module") end))

abbrev pub request : RunFunctionRequest
request = record {
  desired = ok tt;
  context_json = ok "{}";
  xr = ok (field "spec" (obj module_spec) end);
  requested = ok [];
  observed = ok observed;
}

-- A run in which the bucket could not be evaluated, and is kept, and another resource is deferred.
abbrev pub partial : ExecResult
partial = record new_exec_result {
  desired = ("bucket", record { resource = bucket; ready = ready_unspecified }) ∷ [];
  desired_errors = ("bucket", "no such field") ∷ [];
  deferred = "later" ∷ [];
}
