-- ===== src/Crossplane/Inputs.antt =====
-- What the report says of each request and each input.
use crossform.Common.{String, ◌≡◌, refl, ap, ◌∙◌, none, some}
use crossform.Common.Dict.{Dict, lookup, IsMap}
use crossform.Executor.Types.{ExecResult}
use crossform.Crossplane.Report.{
  Report, status, report_request, report_input, empty_report, new_report, report_requests,
  report_resources, report_outputs, report_inputs,
}
use crossform.Crossplane.Statuses.{
  or_else, error_text, ok_text, lookup-two_loops, report_inputs-keeps, report_outputs-keeps,
  report_resources-keeps, report_requests-keeps,
}

-- The maps of a result on requests and inputs, as Go has them.
pub record HasAskedMaps (result : ExecResult) : Type 0 where
  pub request : IsMap result.request
  pub request_errors : IsMap result.request_errors
  pub inputs : IsMap result.inputs
  pub inputs_errors : IsMap result.inputs_errors

module _ (result : ExecResult) (j : String) (maps : HasAskedMaps result) where
  lookup-report_requests :
      (r : Report)
      → lookup j (report_requests result r).requests
        ≡ or_else error_text
            (lookup j result.request_errors)
            (or_else ok_text (lookup j result.request) (lookup j r.requests))
  unfolding report_requests status
  lookup-report_requests r =
      lookup-two_loops (λ r. r.requests) (λ k v r. report_request k none r)
        (λ k e r. report_request k (some e) r) (λ k v r. refl) (λ k e r. refl) result.request
        result.request_errors j r maps.request maps.request_errors

  lookup-report_inputs :
      (r : Report)
      → lookup j (report_inputs result r).inputs
        ≡ or_else error_text
            (lookup j result.inputs_errors)
            (or_else ok_text (lookup j result.inputs) (lookup j r.inputs))
  unfolding report_inputs status
  lookup-report_inputs r =
      lookup-two_loops (λ r. r.inputs) (λ k v r. report_input k none r)
        (λ k e r. report_input k (some e) r) (λ k v r. refl) (λ k e r. refl) result.inputs
        result.inputs_errors j r maps.inputs maps.inputs_errors

  -- The report of a run has an entry for a request, or an input, exactly if the run listed it: the
  -- error, if it failed; else OK.
  pub new_report-asked :
      (critical_error : String)
      → (lookup j (new_report result critical_error).requests
          ≡ or_else error_text
              (lookup j result.request_errors)
              (or_else ok_text (lookup j result.request) none))
        × (lookup j (new_report result critical_error).inputs
            ≡ or_else error_text
                (lookup j result.inputs_errors)
                (or_else ok_text (lookup j result.inputs) none))
  unfolding new_report lookup
  new_report-asked critical_error =
      let empty = empty_report result.inputs_validation_error in
      let r₁ = report_requests result empty in
      let r₂ = report_resources result r₁ in
      let r₃ = report_outputs result r₂ in
      let kept : r₃.inputs ≡ empty.inputs =
        report_outputs-keeps result (λ r. r.inputs) (λ k e r. refl) r₂
        ∙ report_resources-keeps result (λ r. r.inputs) (λ k e b r. refl) r₁
        ∙ report_requests-keeps result (λ r. r.inputs) (λ k e r. refl) empty in
      (
        ap (lookup j) (
              report_inputs-keeps result (λ r. r.requests) (λ k e r. refl) r₃
              ∙ report_outputs-keeps result (λ r. r.requests) (λ k e r. refl) r₂
              ∙ report_resources-keeps result (λ r. r.requests) (λ k e b r. refl) r₁)
            ∙ lookup-report_requests empty,
        lookup-report_inputs r₃
            ∙ ap
                (λ (m : Dict String).
                  or_else error_text (lookup j result.inputs_errors)
                    (or_else ok_text (lookup j result.inputs) (lookup j m)))
                kept,
      )
