-- ===== src/Crossplane/Critical.antt =====
-- A run with a critical error: the response asks for every observed resource again.
use crossform.Common.{
  String, ◌≡◌, refl, ap, ◌∙◌, Bool, true, false, Option, none, some, List, [], ◌∷◌, arith, eq_iff,
  ◌==◌, ◌⊎◌, Option-cases, inl, inr,
}
use crossform.Common.Dict.{Dict, lookup, put, map_values, map_option, lookup-put, lookup-map_values}
use crossform.Common.Json.{Value, bool, obj, Fields, get, set, get-set}
use crossform.Common.Outcome.{Outcome, ok, fail, panic, ◌>>=◌, Outcome-cases}
use crossform.Executor.Types.{ExecResult, new_exec_result, ObservedComposed, DesiredComposed}
use crossform.Executor.Exec.{keep_observed}
use crossform.Repo.Status.{Status}
use crossform.Crossplane.Report.{Report, new_report, report_map}
use crossform.Crossplane.Response.{RunFunctionResponse}
use crossform.Crossplane.Desired.{
  keep_deferred, clean_desired, is_critical, after_execute, desired_of,
}
use crossform.Crossplane.Status.{strip_xr, xr_status, set_repository, status_of, has_errors}
use crossform.Crossplane.Function.{Services, respond, critical_warning, finish}

-- An error of the execution, or a result that disables the changes.
abbrev pub is_critical_outcome : Outcome ExecResult → Bool
is_critical_outcome (ok result) = is_critical result
is_critical_outcome (fail e) = true
is_critical_outcome panic = false

-- The resource that a critical run asks for in place of an observed one.
abbrev pub observed_again : ObservedComposed → DesiredComposed
observed_again o = clean_desired (keep_observed o)

-- What the setters accept.
pub record Accepts (services : Services) : Type 0 where
  pub composite : (xr : Fields) → services.set_composite xr ≡ none
  pub composed : (d : Dict DesiredComposed) → services.set_composed d ≡ none

lookup-keep_deferred_same :
    (observed : Dict ObservedComposed) (ks : List String) (d : Dict DesiredComposed)
    → ((k : String) → lookup k d ≡ map_option keep_observed (lookup k observed))
    → (k : String)
    → lookup k (keep_deferred observed ks d) ≡ map_option keep_observed (lookup k observed)
unfolding keep_deferred
lookup-keep_deferred_same observed [] d h k = h k
lookup-keep_deferred_same observed (j ∷ ks) d h k = elim (Option-cases (lookup j observed)) [
  | inl absent ↦ rw absent (lookup-keep_deferred_same observed ks d h k)
  | inr (o, p) ↦ rw p (
      lookup-keep_deferred_same observed ks (put j (keep_observed o) d)
        (λ i. ground (arith, h i, lookup-put j i (keep_observed o) d, eq_iff j i)) k)
]

-- The parts of a critical run up to the report.
abbrev critical_text : Outcome ExecResult → String
critical_text (fail e) = e
critical_text _ = ""

abbrev critical_result : Dict ObservedComposed → Outcome ExecResult → ExecResult
critical_result observed (ok result) = record result { desired = map_values keep_observed observed }
critical_result observed _ = record new_exec_result { desired = map_values keep_observed observed }

after_execute-critical :
    (observed : Dict ObservedComposed) (executed : Outcome ExecResult)
    → is_critical_outcome executed ≡ true
    → after_execute observed executed
      ≡ ok (true, critical_text executed, critical_result observed executed)
unfolding after_execute
after_execute-critical observed (ok result) h = rw h
after_execute-critical observed (fail e) h = refl
after_execute-critical observed panic h = cc

abbrev critical_desired : Dict ObservedComposed → Outcome ExecResult → Dict DesiredComposed
critical_desired observed executed =
    let r = critical_result observed executed in
    map_values clean_desired (keep_deferred observed r.deferred r.desired)

lookup-critical_result :
    (observed : Dict ObservedComposed) (executed : Outcome ExecResult) (k : String)
    → lookup k (critical_result observed executed).desired
      ≡ map_option keep_observed (lookup k observed)
lookup-critical_result observed (ok r) k = lookup-map_values keep_observed k observed
lookup-critical_result observed (fail e) k = lookup-map_values keep_observed k observed
lookup-critical_result observed panic k = lookup-map_values keep_observed k observed

lookup-critical_desired :
    (observed : Dict ObservedComposed) (executed : Outcome ExecResult) (k : String)
    → lookup k (critical_desired observed executed) ≡ map_option observed_again (lookup k observed)
lookup-critical_desired observed executed k =
    let r = critical_result observed executed in
    let kept =
      lookup-keep_deferred_same observed r.deferred r.desired
        (lookup-critical_result observed executed) k in
    ground
      (arith, lookup-map_values clean_desired k (keep_deferred observed r.deferred r.desired), kept)

-- The status of the composite has no repository yet, or a map there.
abbrev pub HasPlainRepository : Fields → Type 0
HasPlainRepository status =
    (get "repository" status ≡ none) ⊎ ((rr : Fields) × (get "repository" status ≡ some (obj rr)))

set_repository-ok :
    (s : Option Status) (status : Fields)
    → HasPlainRepository status
    → (out : Fields) × (set_repository s status ≡ ok out)
unfolding set_repository ◌>>=◌
set_repository-ok none status h = (status, refl)
set_repository-ok (some s) status h = elim (Outcome-cases (set_repository (some s) status)) [
  | inl done ↦ done
  | inr stopped ↦ absurd (ground arith)
]

HasPlainRepository-set :
    (k : String) (v : Value) (status : Fields)
    → (k == "repository") ≡ false
    → HasPlainRepository status
    → HasPlainRepository (set k v status)
HasPlainRepository-set k v status e (inl absent) =
    inl (ground (arith, get-set k "repository" v status))
HasPlainRepository-set k v status e (inr (rr, p)) =
    inr (rr, ground (arith, get-set k "repository" v status))

status_of-ok :
    (result : ExecResult) (report : Report) (s : Option Status) (status : Fields)
    → HasPlainRepository status
    → (out : Fields) × (status_of true result report s status ≡ ok out)
unfolding status_of ◌>>=◌
status_of-ok result report s status h =
    let flagged = set "hasErrors" (bool (has_errors true result)) status in
    let reported = set "report" (obj (report_map report)) flagged in
    let (out, p) = set_repository-ok s reported (
      HasPlainRepository-set "report" (obj (report_map report)) flagged refl
        (HasPlainRepository-set "hasErrors" (bool (has_errors true result)) status refl h)) in
    (out, ground arith)

pub respond-composed :
    (services : Services)
    → Accepts services
    → (is_fatal : Bool) (result : ExecResult) (report : Report) (d : Dict DesiredComposed)
      (xr : Fields) (rsp : RunFunctionResponse)
    → (respond services is_fatal result report d xr rsp).desired_composed ≡ d
respond-composed services accepts is_fatal result report d xr rsp =
    ground (arith, accepts.composite xr, accepts.composed d)

-- If the execution fails, or an input or a request is in error, or the inputs are not valid, then the
-- run still answers, and it asks for exactly the observed resources, each as it was observed (and
-- cleaned): it neither deletes nor changes one. This holds if the setters accept the response and the
-- composite has a map, or nothing, as the repository in its status.
pub finish-critical :
    (services : Services)
    → Accepts services
    → (repository revision : String) (observed : Dict ObservedComposed) (xr : Fields)
      (executed : Outcome ExecResult)
    → is_critical_outcome executed ≡ true
    → HasPlainRepository (xr_status (strip_xr xr))
    → (rsp : RunFunctionResponse) × (finish services repository revision observed xr executed
        ≡ ok rsp)
      × ((k : String)
          → lookup k rsp.desired_composed ≡ map_option observed_again (lookup k observed))
unfolding finish desired_of ◌>>=◌
finish-critical services accepts repository revision observed xr executed critical plain =
    let r = critical_result observed executed in
    let d = critical_desired observed executed in
    let result : ExecResult = record r { desired = d } in
    let report = new_report result (critical_text executed) in
    let repo = services.get_repo_status repository revision in
    let (status, p) = status_of-ok result report repo (xr_status (strip_xr xr)) plain in
    let composite = set "status" (obj status) (strip_xr xr) in
    let rsp = respond services true result report d composite (critical_warning services true) in
    (
      rsp,
      rw (after_execute-critical observed executed critical, p),
      λ k.
          ap (lookup k) (
            respond-composed services accepts true result report d composite
              (critical_warning services true))
          ∙ lookup-critical_desired observed executed k,
    )
