-- ===== src/Crossplane/Kept.antt =====
-- From one run to the next: the outputs that the function writes into the composite, and the executor
-- reads there.
use crossform.Common.{String, ◌≡◌, refl, ◌∙◌, ap, subst, Bool, false, Option, none, some, arith}
use crossform.Common.Dict.{Dict, lookup}
use crossform.Common.Json.{Value, obj, Fields, get, set, of_entries, get-set, get-of_entries}
use crossform.Common.Outcome.{Outcome, ok, Ensures, Ensures-ok, Ensures-bind, Ensures-then}
use crossform.Executor.Types.{ExecCommand, ExecResult, ObservedComposed, DesiredComposed}
use crossform.Executor.Interface.{GenericExecutor}
use crossform.Executor.Exec.{exec}
use crossform.Executor.Outputs.{status_outputs, outputs_in, exec-keeps_output}
use crossform.Repo.Status.{Status}
use crossform.Crossplane.Report.{Report, new_report}
use crossform.Crossplane.Response.{RunFunctionResponse}
use crossform.Crossplane.Desired.{is_critical, after_execute}
use crossform.Crossplane.Status.{status_of, strip_xr}
use crossform.Crossplane.Function.{Services, respond, critical_warning, finish}

status_of-outputs :
    (is_fatal : Bool) (result : ExecResult) (report : Report) (s : Option Status) (status : Fields)
    → is_fatal ≡ false
    → Ensures
        (λ st. get "outputs" st ≡ some (obj (of_entries result.outputs)))
        (status_of is_fatal result report s status)
unfolding status_of
status_of-outputs is_fatal result report s status plain = Ensures-then _ _ λ out.
    Ensures-ok _ (ground (arith, get-set "outputs" "outputs" (obj (of_entries result.outputs)) out))

abbrev HasOutputs : ExecResult → RunFunctionResponse → Type 0
HasOutputs result rsp =
    (c : Fields)
    → rsp.desired_composite ≡ some c
    → status_outputs c ≡ some (of_entries result.outputs)

respond-HasOutputs :
    (services : Services) (is_fatal : Bool) (result r : ExecResult) (report : Report)
    (d : Dict DesiredComposed) (xr st : Fields)
    → get "outputs" st ≡ some (obj (of_entries r.outputs))
    → HasOutputs r (
        respond services is_fatal result report d
          (set "status" (obj st) xr)
          (critical_warning services is_fatal))
respond-HasOutputs services is_fatal result r report d xr st h c p =
    let same : c ≡ set "status" (obj st) xr = ground arith in
    rw same (ground (arith, get-set "status" "status" (obj st) xr))

pub after_execute-plain :
    (observed : Dict ObservedComposed) (result : ExecResult)
    → is_critical result ≡ false
    → Ensures
        (λ (t : Bool × String × ExecResult). (t.0 ≡ false) × (t.2 ≡ result))
        (after_execute observed (ok result))
unfolding after_execute
after_execute-plain observed result plain = rw plain (Ensures-ok (false, "", result) (refl, refl))

finish-HasOutputs :
    (services : Services) (repository revision : String) (observed : Dict ObservedComposed)
    (xr : Fields) (result : ExecResult)
    → is_critical result ≡ false
    → Ensures (HasOutputs result) (finish services repository revision observed xr (ok result))
unfolding finish
finish-HasOutputs services repository revision observed xr result plain =
    Ensures-bind (λ (t : Bool × String × ExecResult). (t.0 ≡ false) × (t.2 ≡ result)) _ _
      (after_execute-plain observed result plain)
      λ (is_fatal, critical_error, r) (p, q). Ensures-then _ _ λ (d, xr').
        Ensures-bind (λ st. get "outputs" st ≡ some (obj (of_entries r.outputs))) _ _
          (status_of-outputs is_fatal (record r { desired = d }) _ _ _ p)
          λ st h.
            let result' = record r { desired = d } in
            let report = new_report result' critical_error in
            let bare = strip_xr xr' in
            let rsp =
              respond services is_fatal result' report d (set "status" (obj st) bare)
                (critical_warning services is_fatal) in
            Ensures-ok rsp (
              subst (λ x. HasOutputs x rsp) q
                (respond-HasOutputs services is_fatal result' r report d bare st h))

-- If a run without a critical error answers, gives out an output and sets the composite, then any
-- later run on a composite with the status that the answer wrote, if it succeeds, finds the output
-- with its value in the status and reports no error for it, even where its evaluation fails.
pub exec-finish_outputs :
    (services : Services) (repository revision : String) (observed : Dict ObservedComposed)
    (xr c : Fields) (result : ExecResult) (rsp : RunFunctionResponse) (k : String) (v : Value)
    (marshal_json : Fields → Outcome String) (cmd : ExecCommand) (e : GenericExecutor)
    (r : ExecResult)
    → is_critical result ≡ false
    → finish services repository revision observed xr (ok result) ≡ ok rsp
    → rsp.desired_composite ≡ some c
    → lookup k result.outputs ≡ some v
    → get "status" cmd.xr ≡ get "status" c
    → exec marshal_json cmd e ≡ ok r
    → ((outputs : Fields) × (status_outputs cmd.xr ≡ some outputs) × (get k outputs ≡ some v))
      × (lookup k r.outputs_errors ≡ none)
exec-finish_outputs services repository revision observed xr c result rsp k v marshal_json cmd e r
      plain answered made given same run =
    let wrote =
      (finish-HasOutputs services repository revision observed xr result plain).at rsp answered c
        made in
    let reads : status_outputs cmd.xr ≡ some (of_entries result.outputs) =
      ap outputs_in same ∙ wrote in
    let has_v : get k (of_entries result.outputs) ≡ some v =
      get-of_entries k result.outputs ∙ given in
    (
      (of_entries result.outputs, reads, has_v),
      exec-keeps_output marshal_json cmd k v _ reads has_v e r run,
    )
