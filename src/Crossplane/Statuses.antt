-- ===== src/Crossplane/Statuses.antt =====
-- What the report says of each resource, request, output and input.
use Prim.Native.String.{◌++◌ as ◌+++◌}
use crossform.Common.{
  elem, String, ◌≡◌, refl, ap, ◌∙◌, Bool, true, false, Option, none, some, List, [], ◌∷◌, arith,
  eq_iff, if◌then◌else◌, String-cases, inl, inr,
}
use crossform.Common.Dict.{Dict, lookup, put, lookup-put, IsMap}
use crossform.Executor.Types.{ExecResult}
use crossform.Executor.Exec.{fold}
use crossform.Crossplane.Report.{
  Report, status, report_request, report_resource, report_output, report_input, report_deferred,
  empty_report, new_report, report_requests, report_resources, report_outputs, report_inputs,
}

-- The entry that a second map gives, or else that of a first.
abbrev pub or_else : {V : Type 0} → (V → String) → Option V → Option String → Option String
or_else text (some v) old = some (text v)
or_else text none old = old

-- A loop over a map writes one map of the report, and each entry by its key alone.
module _ {V : Type 0} (field : Report → Dict String) (f : String → V → Report → Report)
    (text : V → String)
    (writes : (k : String) (v : V) (r : Report) → field (f k v r) ≡ put k (text v) (field r)) where
  lookup-fold_absent :
      (m : Dict V) (j : String) (r : Report)
      → lookup j m ≡ none
      → lookup j (field (fold f m r)) ≡ lookup j (field r)
  unfolding fold lookup
  lookup-fold_absent [] j r h = refl
  lookup-fold_absent ((k, v) ∷ m) j r h =
      lookup-fold_absent m j (f k v r) (ground (arith, eq_iff k j))
      ∙ ground (arith, writes k v r, lookup-put k j (text v) (field r), eq_iff k j)

  lookup-fold :
      (m : Dict V) (j : String) (r : Report)
      → IsMap m
      → lookup j (field (fold f m r)) ≡ or_else text (lookup j m) (lookup j (field r))
  unfolding fold lookup
  lookup-fold [] j r h = refl
  lookup-fold ((k, v) ∷ m) j r h = elim (String-cases k j) [
    | inl same ↦ ground (
      arith,
      eq_iff k j,
      ap (λ (i : String). lookup i m) same,
      lookup-fold_absent m j (f k v r),
      writes k v r,
      lookup-put k j (text v) (field r),
    )
    | inr other ↦ ground (
      arith,
      eq_iff k j,
      lookup-fold m j (f k v r) h.1,
      writes k v r,
      lookup-put k j (text v) (field r),
    )
  ]

module _ {V A : Type 0} (field : Report → A) (f : String → V → Report → Report)
    (keeps : (k : String) (v : V) (r : Report) → field (f k v r) ≡ field r) where
  fold-keeps : (m : Dict V) (r : Report) → field (fold f m r) ≡ field r
  unfolding fold
  fold-keeps [] r = refl
  fold-keeps ((k, v) ∷ m) r = fold-keeps m (f k v r) ∙ keeps k v r

lookup-report_deferred :
    (ks : List String) (j : String) (r : Report)
    → lookup j (report_deferred ks r).resources
      ≡ (if elem j ks then some "DEFERRED" else lookup j r.resources)
unfolding report_deferred status
lookup-report_deferred [] j r = refl
lookup-report_deferred (k ∷ ks) j r = ground (
  arith,
  lookup-report_deferred ks j (report_resource k none true r),
  lookup-put k j "DEFERRED" r.resources,
  eq_iff k j,
)

abbrev pub error_text : String → String
error_text e = "ERROR:\n" +++ e

abbrev pub ok_text {ℓ} : {V : Type ℓ} → V → String
ok_text v = "OK"

-- Two loops after another: over what is fine, then over the errors.
module _ {V : Type 0} (field : Report → Dict String) (fine : String → V → Report → Report)
    (failed : String → String → Report → Report)
    (writes_fine : (k : String) (v : V) (r : Report) → field (fine k v r) ≡ put k "OK" (field r))
    (writes_failed : (k e : String) (r : Report)
      → field (failed k e r) ≡ put k (error_text e) (field r)) where
  pub lookup-two_loops :
      (m : Dict V) (errors : Dict String) (j : String) (r : Report)
      → IsMap m
      → IsMap errors
      → lookup j (field (fold failed errors (fold fine m r)))
        ≡ or_else error_text (lookup j errors) (or_else ok_text (lookup j m) (lookup j (field r)))
  lookup-two_loops m errors j r h k =
      lookup-fold field failed error_text writes_failed errors j (fold fine m r) k
      ∙ ap (or_else error_text (lookup j errors))
          (lookup-fold field fine ok_text writes_fine m j r h)

-- A stage of the report leaves the other maps alone.
module _ (result : ExecResult) {A : Type 0} (other : Report → A) where
  pub report_inputs-keeps :
      ((k : String) (e : Option String) (r : Report) → other (report_input k e r) ≡ other r)
      → (r : Report) → other (report_inputs result r) ≡ other r
  unfolding report_inputs
  report_inputs-keeps keeps r =
      fold-keeps other (λ k e r. report_input k (some e) r) (λ k e r. keeps k (some e) r)
        result.inputs_errors _
      ∙ fold-keeps other (λ k v r. report_input k none r) (λ k v r. keeps k none r) result.inputs r

  pub report_outputs-keeps :
      ((k : String) (e : Option String) (r : Report) → other (report_output k e r) ≡ other r)
      → (r : Report) → other (report_outputs result r) ≡ other r
  unfolding report_outputs
  report_outputs-keeps keeps r =
      fold-keeps other (λ k e r. report_output k (some e) r) (λ k e r. keeps k (some e) r)
        result.outputs_errors _
      ∙ fold-keeps other (λ k v r. report_output k none r) (λ k v r. keeps k none r) result.outputs
          r

  pub report_requests-keeps :
      ((k : String) (e : Option String) (r : Report) → other (report_request k e r) ≡ other r)
      → (r : Report) → other (report_requests result r) ≡ other r
  unfolding report_requests
  report_requests-keeps keeps r =
      fold-keeps other (λ k e r. report_request k (some e) r) (λ k e r. keeps k (some e) r)
        result.request_errors _
      ∙ fold-keeps other (λ k v r. report_request k none r) (λ k v r. keeps k none r) result.request
          r

  report_deferred-keeps :
      ((k : String) (e : Option String) (b : Bool) (r : Report)
        → other (report_resource k e b r) ≡ other r)
      → (ks : List String) (r : Report) → other (report_deferred ks r) ≡ other r
  unfolding report_deferred
  report_deferred-keeps keeps [] r = refl
  report_deferred-keeps keeps (k ∷ ks) r =
      report_deferred-keeps keeps ks (report_resource k none true r) ∙ keeps k none true r

  pub report_resources-keeps :
      ((k : String) (e : Option String) (b : Bool) (r : Report)
        → other (report_resource k e b r) ≡ other r)
      → (r : Report) → other (report_resources result r) ≡ other r
  unfolding report_resources
  report_resources-keeps keeps r =
      fold-keeps other (λ k e r. report_resource k (some e) false r)
        (λ k e r. keeps k (some e) false r) result.desired_errors _
      ∙ fold-keeps other (λ k v r. report_resource k none false r) (λ k v r. keeps k none false r)
          result.desired _
      ∙ report_deferred-keeps keeps result.deferred r

-- The maps of a result, as Go has them.
pub record HasMaps (result : ExecResult) : Type 0 where
  pub desired : IsMap result.desired
  pub desired_errors : IsMap result.desired_errors
  pub outputs : IsMap result.outputs
  pub outputs_errors : IsMap result.outputs_errors

module _ (result : ExecResult) (j : String) (maps : HasMaps result) where
  lookup-report_resources :
      (r : Report)
      → lookup j (report_resources result r).resources
        ≡ or_else error_text (lookup j result.desired_errors) (
            or_else ok_text
              (lookup j result.desired)
              (if elem j result.deferred then some "DEFERRED" else lookup j r.resources))
  unfolding report_resources status
  lookup-report_resources r =
      let deferred = report_deferred result.deferred r in
      lookup-two_loops (λ r. r.resources) (λ k v r. report_resource k none false r)
        (λ k e r. report_resource k (some e) false r) (λ k v r. refl) (λ k e r. refl) result.desired
        result.desired_errors j deferred maps.desired maps.desired_errors
      ∙ ap
          (λ o.
            or_else error_text (lookup j result.desired_errors)
              (or_else ok_text (lookup j result.desired) o))
          (lookup-report_deferred result.deferred j r)

  lookup-report_outputs :
      (r : Report)
      → lookup j (report_outputs result r).outputs
        ≡ or_else error_text
            (lookup j result.outputs_errors)
            (or_else ok_text (lookup j result.outputs) (lookup j r.outputs))
  unfolding report_outputs status
  lookup-report_outputs r =
      lookup-two_loops (λ r. r.outputs) (λ k v r. report_output k none r)
        (λ k e r. report_output k (some e) r) (λ k v r. refl) (λ k e r. refl) result.outputs
        result.outputs_errors j r maps.outputs maps.outputs_errors

  -- The report of a run has an entry for a resource, or an output, exactly if the run listed it: the
  -- error, if it failed; else OK, if it is desired (or given out); else, for a resource only,
  -- DEFERRED, if it is among the deferred. So a deferred resource that is also desired, as one that
  -- exists already, is reported OK.
  pub new_report-statuses :
      (critical_error : String)
      → (lookup j (new_report result critical_error).resources
          ≡ or_else error_text (lookup j result.desired_errors) (
              or_else ok_text
                (lookup j result.desired)
                (if elem j result.deferred then some "DEFERRED" else none)))
        × (lookup j (new_report result critical_error).outputs
            ≡ or_else error_text
                (lookup j result.outputs_errors)
                (or_else ok_text (lookup j result.outputs) none))
  unfolding new_report lookup
  new_report-statuses critical_error =
      let empty = empty_report result.inputs_validation_error in
      let r₁ = report_requests result empty in
      let r₂ = report_resources result r₁ in
      let r₃ = report_outputs result r₂ in
      (
        ap (lookup j) (
              report_inputs-keeps result (λ r. r.resources) (λ k e r. refl) r₃
              ∙ report_outputs-keeps result (λ r. r.resources) (λ k e r. refl) r₂)
            ∙ lookup-report_resources r₁
            ∙ ap
                (λ (m : Dict String). or_else error_text (lookup j result.desired_errors) (
                  or_else ok_text (lookup j result.desired)
                    (if elem j result.deferred then some "DEFERRED" else lookup j m)))
                (report_requests-keeps result (λ r. r.resources) (λ k e r. refl) empty),
        ap (lookup j) (report_inputs-keeps result (λ r. r.outputs) (λ k e r. refl) r₃)
            ∙ lookup-report_outputs r₂
            ∙ ap
                (λ (m : Dict String).
                  or_else error_text (lookup j result.outputs_errors)
                    (or_else ok_text (lookup j result.outputs) (lookup j m)))
                (report_resources-keeps result (λ r. r.outputs) (λ k e b r. refl) r₁
                  ∙ report_requests-keeps result (λ r. r.outputs) (λ k e r. refl) empty),
      )
