-- ===== src/Crossplane/Desired.antt =====
-- pkg/crossplane/function.go: what `RunFunction` makes of the result of `Execute`, and the resources
-- that it asks for.
use crossform.Common.{
  String, Bool, true, false, none, some, List, [], ◌∷◌, ◌||◌, not, if◌then◌else◌, is_some, is_empty,
}
use crossform.Common.Dict.{Dict, lookup, put, map_values}
use crossform.Common.Json.{Fields}
use crossform.Common.Outcome.{Outcome, ok, fail, panic}
use crossform.Executor.Types.{ExecResult, new_exec_result, ObservedComposed, DesiredComposed}
use crossform.Executor.Exec.{keep_observed}
use crossform.Crossplane.Clean.{clean}
use crossform.Crossplane.Composite.{take_composite}

-- The deferred resources that exist keep their observed state.
unfoldable pub keep_deferred :
    Dict ObservedComposed → List String → Dict DesiredComposed → Dict DesiredComposed
keep_deferred observed [] desired = desired
keep_deferred observed (k ∷ ks) desired =
    keep_deferred observed ks
      (elim (lookup k observed) [ none ↦ desired | some o ↦ put k (keep_observed o) desired ])

abbrev pub clean_desired : DesiredComposed → DesiredComposed
clean_desired d = record d { resource = clean d.resource }

-- Must the changes be disabled?
abbrev pub is_critical : ExecResult → Bool
is_critical result =
    not (is_empty result.inputs_errors)
    || (not (is_empty result.request_errors) || is_some result.inputs_validation_error)

-- What `RunFunction` goes on with after `Execute`: the flag `fatal`, `criticalError`, the result.
unfoldable pub after_execute :
    Dict ObservedComposed → Outcome ExecResult → Outcome (Bool × String × ExecResult)
unfolding map_values
after_execute observed (ok result) = ok (
    if is_critical result
    then (true, "", record result { desired = map_values keep_observed observed })
    else (false, "", result))
after_execute observed (fail e) =
    ok (true, e, record new_exec_result { desired = map_values keep_observed observed })
after_execute observed panic = panic

-- The resources that the response asks for, and the composite.
unfoldable pub desired_of :
    Dict ObservedComposed → Bool → ExecResult → Fields → Outcome (Dict DesiredComposed × Fields)
desired_of observed is_fatal result xr =
    let cleaned =
      map_values clean_desired (keep_deferred observed result.deferred result.desired) in
    if is_fatal then ok (cleaned, xr) else take_composite cleaned xr
