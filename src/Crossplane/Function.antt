-- ===== src/Crossplane/Function.antt =====
-- pkg/crossplane/function.go: `RunFunction`. What the SDK reads from the request is an outcome for
-- each part; the repositories and the SDK's setters are parameters.
use Prim.Native.String.{◌++◌ as ◌+++◌}
use crossform.Common.{String, Bool, true, false, Option, none, some, if◌then◌else◌, is_empty}
use crossform.Common.Dict.{Dict}
use crossform.Common.Json.{obj, Fields, get, set, opt_obj, opt_str}
use crossform.Common.Outcome.{Outcome, ok, fail, panic, must, ◌>>=◌}
use crossform.Executor.Types.{ExecCommand, ExecResult, ObservedComposed, DesiredComposed}
use crossform.Repo.Status.{Status}
use crossform.Crossplane.Report.{Report, new_report, report_string}
use crossform.Crossplane.Response.{
  RunFunctionRequest, RunFunctionResponse, fatal, warning, normal, no_response, add_result,
}
use crossform.Crossplane.Desired.{after_execute, desired_of}
use crossform.Crossplane.Status.{name_of, strip_xr, xr_status, status_of}

-- The world of the function: the manager's two calls, what the setters answer (an error, or none),
-- and `fmt.Sprintf` of a text with no arguments. `execute` also says what it leaves of the observed
-- resources, which the executor changes in place.
pub record Services : Type 0 where
  pub execute : ExecCommand → Outcome ExecResult × Dict ObservedComposed
  pub get_repo_status : String → String → Option Status
  pub set_composite : Fields → Option String
  pub set_composed : Dict DesiredComposed → Option String
  pub sprintf : String → String

module _ (services : Services) where
  -- the calls of the setters, and the last message
  abbrev pub respond :
      Bool
      → ExecResult
      → Report
      → Dict DesiredComposed
      → Fields
      → RunFunctionResponse
      → RunFunctionResponse
  respond is_fatal result report desired xr rsp = elim (services.set_composite xr) [
    | some e ↦ add_result fatal ("cannot set desired XR *v1beta1.RunFunctionResponse: " +++ e) rsp
    | none ↦
        let rsp₁ = record rsp {
          desired_composite = some xr;
          requirements = if is_empty result.request then none else some result.request;
        } in
        elim (services.set_composed desired) [
          | some e ↦
              add_result fatal
                ("cannot set desired composed resources in *v1beta1.RunFunctionResponse: " +++ e)
                rsp₁
          | none ↦
              let rsp₂ = record rsp₁ { desired_composed = desired } in
              if is_fatal
              then add_result warning (report_string report) rsp₂
              else add_result normal (services.sprintf (report_string report)) rsp₂
        ]
  ]

  abbrev pub critical_warning : Bool → RunFunctionResponse
  critical_warning true =
      add_result warning "execution critical error, changes disabled" no_response
  critical_warning false = no_response

  -- from the result of `Execute` on
  unfoldable pub finish :
      String
      → String
      → Dict ObservedComposed
      → Fields
      → Outcome ExecResult
      → Outcome RunFunctionResponse
  finish repository revision observed xr executed = do
    (is_fatal, critical_error, result₀) ← after_execute observed executed
    (desired, xr') ← desired_of observed is_fatal result₀ xr
    let result = record result₀ { desired = desired }
    let report = new_report result critical_error
    let stripped = strip_xr xr'
    status ←
        status_of is_fatal result report (services.get_repo_status repository revision)
          (xr_status stripped)
    ok (
        respond is_fatal result report desired (set "status" (obj status) stripped)
          (critical_warning is_fatal))

  -- an error in reading the request ends the run with a fatal result
  abbrev pub or_fatal :
      {A : Type 0}
      → String
      → Outcome A
      → (A → Outcome RunFunctionResponse)
      → Outcome RunFunctionResponse
  or_fatal text (ok a) next = next a
  or_fatal text (fail e) next = ok (add_result fatal (text +++ ": " +++ e) no_response)
  or_fatal text panic next = panic

  unfoldable pub run_function : RunFunctionRequest → Outcome RunFunctionResponse
  unfolding ◌>>=◌
  run_function req =
      or_fatal "cannot get desired resources from *v1beta1.RunFunctionRequest" req.desired λ _.
        or_fatal "cannot marshal json context *v1beta1.RunFunctionRequest" req.context_json
          λ context.
            or_fatal "cannot get observed composite resource from *v1beta1.RunFunctionRequest"
              req.xr
              λ xr.
                or_fatal "cannot get requested extra resources in *v1beta1.RunFunctionResponse"
                  req.requested
                  λ requested.
                    or_fatal "cannot get input resource in *v1beta1.RunFunctionResponse"
                      req.observed
                      λ observed. do
                        spec ← must (opt_obj (get "spec" xr))
                        repository ← must (opt_str (get "repository" spec))
                        revision ← must (opt_str (get "revision" spec))
                        path ← must (opt_str (get "path" spec))
                        let cmd : ExecCommand = record {
                          repository_url = repository;
                          repository_revision = revision;
                          path = path;
                          observed = observed;
                          requested = requested;
                          module_name = name_of xr;
                          xr = xr;
                          context = context;
                        }
                        let (executed, observed') = services.execute cmd
                        finish repository revision observed' xr executed
