-- ===== src/Crossplane/Status.antt =====
-- pkg/crossplane/function.go: the status that `RunFunction` writes.
use crossform.Common.{String, Bool, Option, none, some, ◌&&◌, ◌||◌, not, if◌then◌else◌, is_empty}
use crossform.Common.Json.{
  bool, str, obj, Fields, end, get, set, delete, of_entries, as_obj, opt_obj, opt_str,
}
use crossform.Common.Outcome.{Outcome, ok, must, ◌>>=◌}
use crossform.Executor.Types.{ExecResult}
use crossform.Repo.Status.{Status}
use crossform.Crossplane.Report.{Report, report_map}
use crossform.Crossplane.Composite.{opt_fields}

abbrev pub has_errors : Bool → ExecResult → Bool
has_errors is_fatal result =
    not (is_empty result.desired_errors)
    || (not (is_empty result.outputs_errors) || (is_fatal || not (is_empty result.deferred)))

-- `status["repository"]`, if the repository is known; another value there than a map panics
unfoldable pub set_repository : Option Status → Fields → Outcome Fields
unfolding ◌>>=◌
set_repository none status = ok status
set_repository (some s) status = do
  rr ← elim (get "repository" status) [ none ↦ ok end | some v ↦ must (as_obj v) ]
  ok (
      set "repository"
        (obj (
          set "ok" (bool (s.is_initialized && s.is_update_success))
            (set "commitSha" (str s.commit_sha) (set "message" (str s.message) rr))))
        status)

-- The status of the composite.
unfoldable pub status_of : Bool → ExecResult → Report → Option Status → Fields → Outcome Fields
status_of is_fatal result report repository status = do
  let flagged = set "hasErrors" (bool (has_errors is_fatal result)) status
  let reported = set "report" (obj (report_map report)) flagged
  with_repository ← set_repository repository reported
  ok (
      if is_fatal
      then with_repository
      else set "outputs" (obj (of_entries result.outputs)) with_repository)

abbrev pub xr_status : Fields → Fields
xr_status xr = opt_fields (opt_obj (get "status" xr))

-- xr.Resource.GetName()
abbrev pub name_of : Fields → String
name_of xr = elim (opt_str (get "name" (opt_fields (opt_obj (get "metadata" xr))))) [
  | none ↦ ""
  | some name ↦ name
]

abbrev pub strip_xr : Fields → Fields
strip_xr xr = delete "spec" (delete "metadata" xr)
