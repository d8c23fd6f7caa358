-- ===== src/Crossplane/Reported.antt =====
-- From the executor to the status of the composite: what the report there says.
use crossform.Common.{
  String, ◌≡◌, refl, sym, ◌∙◌, ap, subst, Bool, false, Option, none, some, List, [], ◌∷◌, arith,
  elem, if◌then◌else◌, Option-cases, Bool-cases, inl, inr,
}
use crossform.Common.Dict.{Dict, lookup, put, map_option, IsMap}
use crossform.Common.Maps.{put-IsMap, map_values-IsMap}
use crossform.Common.Json.{str, obj, bool, Fields, get, set, of_entries, opt_obj, get-set}
use crossform.Common.Outcome.{Outcome, ok, bind-ok, Ensures, Ensures-ok, Ensures-bind}
use crossform.Executor.Types.{ExecCommand, ExecResult, ObservedComposed, DesiredComposed}
use crossform.Executor.Interface.{GenericExecutor}
use crossform.Executor.Exec.{exec, keep_observed}
use crossform.Executor.Maps.{AreMaps, exec-AreMaps}
use crossform.Repo.Status.{Status}
use crossform.Crossplane.Report.{Report, new_report, report_map}
use crossform.Crossplane.Statuses.{or_else, error_text, ok_text, new_report-statuses}
use crossform.Crossplane.Inputs.{new_report-asked}
use crossform.Crossplane.Printed.{reported, report_map-reported}
use crossform.Crossplane.Response.{RunFunctionResponse}
use crossform.Crossplane.Composite.{take_composite}
use crossform.Crossplane.Desired.{
  keep_deferred, clean_desired, is_critical, after_execute, desired_of,
}
use crossform.Crossplane.Status.{status_of, strip_xr, has_errors}
use crossform.Crossplane.Function.{Services, respond, critical_warning, finish}
use crossform.Crossplane.Critical.{Accepts, respond-composed}
use crossform.Crossplane.Taken.{take_composite-AreOthers}
use crossform.Crossplane.Answer.{set_repository-get}

-- The resources that a response asks for are a map.
pub keep_deferred-IsMap :
    (observed : Dict ObservedComposed) (ks : List String) (d : Dict DesiredComposed)
    → IsMap d
    → IsMap (keep_deferred observed ks d)
unfolding keep_deferred
keep_deferred-IsMap observed [] d h = h
keep_deferred-IsMap observed (k ∷ ks) d h = elim (Option-cases (lookup k observed)) [
  | inl absent ↦ rw absent (keep_deferred-IsMap observed ks d h)
  | inr (o, p) ↦ rw p (
      keep_deferred-IsMap observed ks (put k (keep_observed o) d)
        (put-IsMap k (keep_observed o) d h))
]

take_composite-IsMap :
    (d : Dict DesiredComposed) (xr : Fields)
    → IsMap d
    → Ensures (λ (t : Dict DesiredComposed × Fields). IsMap t.0) (take_composite d xr)
take_composite-IsMap d xr h = record {
  at = λ t made.
      let (left, others) = take_composite-AreOthers d xr t made in
      subst (λ (t : Dict DesiredComposed × Fields). IsMap t.0) (sym left) h;
}

desired_of-IsMap :
    (observed : Dict ObservedComposed) (is_fatal : Bool) (result : ExecResult) (xr : Fields)
    → IsMap result.desired
    → Ensures
        (λ (t : Dict DesiredComposed × Fields). IsMap t.0)
        (desired_of observed is_fatal result xr)
unfolding desired_of
desired_of-IsMap observed is_fatal result xr h =
    let kept = keep_deferred-IsMap observed result.deferred result.desired h in
    let cleaned = map_values-IsMap clean_desired _ kept in
    elim (Bool-cases is_fatal) [
      | inl fatal ↦ rw fatal (Ensures-ok _ cleaned)
      | inr plain ↦ rw plain (take_composite-IsMap _ xr cleaned)
    ]

-- The report in the status.
status_of-report :
    (is_fatal : Bool) (result : ExecResult) (report : Report) (s : Option Status) (status : Fields)
    → Ensures
        (λ st. get "report" st ≡ some (obj (report_map report)))
        (status_of is_fatal result report s status)
unfolding status_of
status_of-report is_fatal result report s status =
    let flagged = set "hasErrors" (bool (has_errors is_fatal result)) status in
    let written = set "report" (obj (report_map report)) flagged in
    Ensures-bind (λ out. get "report" out ≡ get "report" written) _ _
      (set_repository-get s written "report" refl)
      λ out p. Ensures-ok _ (
        ground (
          arith,
          get-set "outputs" "report" (obj (of_entries result.outputs)) out,
          get-set "report" "report" (obj (report_map report)) flagged,
        ))

-- The report that a composite's status has.
abbrev pub report_in : Option Fields → Option Fields
report_in none = none
report_in (some status) = opt_obj (get "report" status)

abbrev pub status_report : Fields → Option Fields
status_report c = report_in (opt_obj (get "status" c))

-- What a report says of an identifier, by the result of the run and the resources asked for.
pub record Tells (result : ExecResult) (asked : Dict DesiredComposed) (j : String) (report : Fields)
    : Type 0 where
  pub resources :
      reported "resources" j report
      ≡ map_option str (
          or_else error_text (lookup j result.desired_errors) (
            or_else ok_text
              (lookup j asked)
              (if elem j result.deferred then some "DEFERRED" else none)))
  pub outputs :
      reported "outputs" j report
      ≡ map_option str (
          or_else error_text
            (lookup j result.outputs_errors)
            (or_else ok_text (lookup j result.outputs) none))
  pub requests :
      reported "requests" j report
      ≡ map_option str (
          or_else error_text
            (lookup j result.request_errors)
            (or_else ok_text (lookup j result.request) none))
  pub inputs :
      reported "inputs" j report
      ≡ map_option str (
          or_else error_text
            (lookup j result.inputs_errors)
            (or_else ok_text (lookup j result.inputs) none))

new_report-Tells :
    (result : ExecResult) (d : Dict DesiredComposed) (text j : String)
    → AreMaps result
    → IsMap d
    → Tells result d j (report_map (new_report (record result { desired = d }) text))
new_report-Tells result d text j maps asked =
    let result' : ExecResult = record result { desired = d } in
    let (r, q, o, i) = report_map-reported (new_report result' text) j in
    let (rs, os) =
      new_report-statuses result' j
        (record {
          desired = asked;
          desired_errors = maps.desired_errors;
          outputs = maps.outputs;
          outputs_errors = maps.outputs_errors;
        })
        text in
    let (qs, is) =
      new_report-asked result' j
        (record {
          request = maps.request;
          request_errors = maps.request_errors;
          inputs = maps.inputs;
          inputs_errors = maps.inputs_errors;
        })
        text in
    record {
      resources = r ∙ ap (map_option str) rs;
      outputs = o ∙ ap (map_option str) os;
      requests = q ∙ ap (map_option str) qs;
      inputs = i ∙ ap (map_option str) is;
    }

abbrev Reports : ExecResult → RunFunctionResponse → Type 0
Reports result rsp =
    (c : Fields) (j : String)
    → rsp.desired_composite ≡ some c
    → (report : Fields) × (status_report c ≡ some report)
      × Tells result rsp.desired_composed j report

after_execute_plain :
    (observed : Dict ObservedComposed) (result : ExecResult)
    → is_critical result ≡ false
    → after_execute observed (ok result) ≡ ok (false, "", result)
unfolding after_execute
after_execute_plain observed result plain = rw plain

module _ (services : Services) (accepts : Accepts services) where
  respond-Reports :
      (result : ExecResult) (d : Dict DesiredComposed) (text : String) (xr st : Fields)
      → AreMaps result
      → IsMap d
      → get "report" st ≡ some (obj (report_map (new_report (record result { desired = d }) text)))
      → Reports result (
          respond services false
            (record result { desired = d })
            (new_report (record result { desired = d }) text)
            d
            (set "status" (obj st) xr)
            (critical_warning services false))
  respond-Reports result d text xr st maps asked h c j p =
      let result' : ExecResult = record result { desired = d } in
      let report = new_report result' text in
      let composite = set "status" (obj st) xr in
      let same : c ≡ composite = ground (arith, accepts.composite composite) in
      let there : status_report composite ≡ some (report_map report) =
        ground (arith, get-set "status" "status" (obj st) xr) in
      let composed =
        respond-composed services accepts false result' report d composite
          (critical_warning services false) in
      (
        report_map report,
        ap status_report same ∙ there,
        subst (λ a. Tells result a j (report_map report)) (sym composed)
            (new_report-Tells result d text j maps asked),
      )

  finish-Reports :
      (repository revision : String) (observed : Dict ObservedComposed) (xr : Fields)
      (result : ExecResult)
      → is_critical result ≡ false
      → AreMaps result
      → Ensures (Reports result) (finish services repository revision observed xr (ok result))
  unfolding finish
  finish-Reports repository revision observed xr result plain maps =
      rw (after_execute_plain observed result plain) (
        rw bind-ok (
          Ensures-bind (λ (t : Dict DesiredComposed × Fields). IsMap t.0) _ _
            (desired_of-IsMap observed false result xr maps.desired)
            λ (d, xr') asked.
              Ensures-bind
                (λ st.
                  get "report" st
                  ≡ some (obj (report_map (new_report (record result { desired = d }) ""))))
                _ _ (status_of-report false _ _ _ _)
                λ st report.
                  Ensures-ok _ (respond-Reports result d "" (strip_xr xr') st maps asked report)))

  -- If a run of `Exec` without a critical error is answered, then the report in the status of the
  -- composite tells of every identifier: for a resource its error, if it failed, else OK, if the
  -- answer asks for it, else DEFERRED, if it is among the deferred; for an output, a request or an
  -- input its error, if it failed, else OK, if the run lists it; and nothing otherwise. This holds if
  -- the setters accept the response.
  pub exec-finish-Tells :
      (marshal_json : Fields → Outcome String) (cmd : ExecCommand) (e : GenericExecutor)
      (result : ExecResult) (repository revision : String) (observed : Dict ObservedComposed)
      (xr c : Fields) (rsp : RunFunctionResponse) (j : String)
      → exec marshal_json cmd e ≡ ok result
      → is_critical result ≡ false
      → finish services repository revision observed xr (ok result) ≡ ok rsp
      → rsp.desired_composite ≡ some c
      → (report : Fields) × (status_report c ≡ some report)
        × Tells result rsp.desired_composed j report
  exec-finish-Tells marshal_json cmd e result repository revision observed xr c rsp j run plain
        answered made =
      (finish-Reports repository revision observed xr result plain
          (exec-AreMaps marshal_json cmd e result run)).at
        rsp answered c j made
