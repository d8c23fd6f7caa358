-- ===== src/Executor/Merged.antt =====
-- What merging the results of a file into the result of the run comes to, key by key.
use crossform.Common.{String, ◌≡◌, refl, sym, ap, ◌∙◌, subst, true, Option}
use crossform.Common.Dict.{Dict, lookup, map_option}
use crossform.Common.Json.{Value, Fields}
use crossform.Common.Outcome.{Outcome, ok, bind-eq-ok}
use crossform.Executor.Types.{DesiredComposed, ResourceSelector, ExecCommand, ExecResult}
use crossform.Executor.Interface.{GenericExecutor}
use crossform.Executor.File.{FileResult, exec_file}
use crossform.Executor.FileMaps.{exec_file-AreFileMaps}
use crossform.Executor.Exec.{
  each, merge, add_request_error, add_desired, add_desired_error, add_output, add_output_errors,
  xr_outputs_of, make_request_result,
}
use crossform.Executor.Folds.{each-eq-fold, or_old, fold-keeps}
use crossform.Executor.Stages.{
  AreFileMaps, marked, kept_for, old_output, output_error, put_desired, put_request_error,
  put_output, put_desired_error, add_desired_error-does, add_request_error-does, add_output-does,
  add_desired-does, with_errors, with_desired, with_kept, with_outputs, request_errors_after,
  desired_after, kept_after, errors_after, outputs_after, add_output_errors-outputs,
  add_output_errors-errors, kept_early, kept_late,
}

-- What the result has under a key after a merge, and had before.
pub record Merges (cmd : ExecCommand) (second : FileResult) (t : Option Fields) (j : String)
    (r r' : ExecResult) : Type 0 where
  pub deferred : r'.deferred ≡ second.resources_deferred
  pub desired :
      lookup j r'.desired
      ≡ or_old
          (kept_for (lookup j second.resources_errs) (lookup j cmd.observed))
          (or_old (map_option marked (lookup j second.resources)) (lookup j r.desired))
  pub desired_errors :
      lookup j r'.desired_errors
      ≡ or_old (lookup j second.resources_errs) (lookup j r.desired_errors)
  pub request_errors :
      lookup j r'.request_errors
      ≡ or_old (lookup j second.requests_errs) (lookup j r.request_errors)
  pub outputs :
      lookup j r'.outputs
      ≡ or_old
          (old_output (lookup j second.outputs_errs) t j)
          (or_old (lookup j second.outputs) (lookup j r.outputs))
  pub outputs_errors :
      lookup j r'.outputs_errors
      ≡ or_old
          (output_error
            (lookup j second.outputs_errs)
            (old_output (lookup j second.outputs_errs) t j))
          (lookup j r.outputs_errors)

-- The same entries, in any order.
pub record SameEntries (f g : FileResult) : Type 0 where
  pub resources : (j : String) → lookup j f.resources ≡ lookup j g.resources
  pub resources_errs : (j : String) → lookup j f.resources_errs ≡ lookup j g.resources_errs
  pub requests_errs : (j : String) → lookup j f.requests_errs ≡ lookup j g.requests_errs
  pub outputs : (j : String) → lookup j f.outputs ≡ lookup j g.outputs
  pub outputs_errs : (j : String) → lookup j f.outputs_errs ≡ lookup j g.outputs_errs

module _ (marshal_json : Fields → Outcome String) (cmd : ExecCommand) where
  -- A merge that is not stopped has read the outputs of the composite.
  merge-xr_outputs :
      (second : FileResult) (r r' : ExecResult)
      → merge marshal_json cmd second r ≡ ok r'
      → (t : Option Fields) × (xr_outputs_of cmd ≡ ok t)
  unfolding merge
  merge-xr_outputs second r r' h =
      let (s₀, p₀, h₁) = bind-eq-ok (make_request_result r.request second.requests) _ h in
      let (s₁, p₁, h₂) = bind-eq-ok (each add_request_error second.requests_errs _) _ h₁ in
      let (s₂, p₂, h₃) = bind-eq-ok (each (add_desired marshal_json) second.resources s₁) _ h₂ in
      let (s₃, p₃, h₄) = bind-eq-ok (each (add_desired_error cmd) second.resources_errs s₂) _ h₃ in
      let (s₄, p₄, h₅) = bind-eq-ok (each add_output second.outputs s₃) _ h₄ in
      let (t, p₅, h₆) = bind-eq-ok (xr_outputs_of cmd) _ h₅ in (t, p₅)

  -- A merge that is not stopped is its stages.
  merge-stages :
      (second : FileResult) (maps : AreFileMaps second) (j : String) (r r' : ExecResult)
      (t : Option Fields)
      → xr_outputs_of cmd ≡ ok t
      → merge marshal_json cmd second r ≡ ok r'
      → (request : Dict ResourceSelector) × (r'
          ≡ add_output_errors t second.outputs_errs (
              with_outputs cmd second maps j (
                with_kept cmd second maps j (
                  with_desired cmd second maps j (
                    with_errors cmd second maps j
                      (record r { deferred = second.resources_deferred; request = request }))))))
  unfolding merge
  merge-stages second maps j r r' t found h =
      let (request, p₀, h₁) = bind-eq-ok (make_request_result r.request second.requests) _ h in
      let s₀ : ExecResult = record r { deferred = second.resources_deferred; request = request } in
      let (s₁, p₁, h₂) = bind-eq-ok (each add_request_error second.requests_errs s₀) _ h₁ in
      let (s₂, p₂, h₃) = bind-eq-ok (each (add_desired marshal_json) second.resources s₁) _ h₂ in
      let (s₃, p₃, h₄) = bind-eq-ok (each (add_desired_error cmd) second.resources_errs s₂) _ h₃ in
      let (s₄, p₄, h₅) = bind-eq-ok (each add_output second.outputs s₃) _ h₄ in
      let (t', p₅, h₆) = bind-eq-ok (xr_outputs_of cmd) _ h₅ in
      let e₁ : s₁ ≡ with_errors cmd second maps j s₀ =
        each-eq-fold add_request_error put_request_error add_request_error-does second.requests_errs
          s₀ s₁ p₁ in
      let e₂ : s₂ ≡ with_desired cmd second maps j s₁ =
        each-eq-fold (add_desired marshal_json) put_desired (add_desired-does marshal_json)
          second.resources s₁ s₂ p₂ in
      let e₃ : s₃ ≡ with_kept cmd second maps j s₂ =
        each-eq-fold (add_desired_error cmd) (put_desired_error cmd) (add_desired_error-does cmd)
          second.resources_errs s₂ s₃ p₃ in
      let e₄ : s₄ ≡ with_outputs cmd second maps j s₃ =
        each-eq-fold add_output put_output add_output-does second.outputs s₃ s₄ p₄ in
      let e₅ : t' ≡ t = cc in
      let e₆ : r' ≡ add_output_errors t' second.outputs_errs s₄ = cc in
      (request, e₆ ∙ rw (e₅, e₄, e₃, e₂, e₁))

  maps-Merges :
      (second : FileResult) (r r' : ExecResult) (t : Option Fields) (j : String)
      → AreFileMaps second
      → xr_outputs_of cmd ≡ ok t
      → merge marshal_json cmd second r ≡ ok r'
      → Merges cmd second t j r r'
  maps-Merges second r r' t j maps found h =
      let (request, e) = merge-stages second maps j r r' t found h in
      let s₀ : ExecResult = record r { deferred = second.resources_deferred; request = request } in
      let s₁ = with_errors cmd second maps j s₀ in
      let s₂ = with_desired cmd second maps j s₁ in
      let s₃ = with_kept cmd second maps j s₂ in
      let s₄ = with_outputs cmd second maps j s₃ in
      subst (Merges cmd second t j r) (sym e) (record {
        deferred =
            kept_late cmd second maps j (λ s. s.deferred) t (λ k err s. refl) (λ k v s. refl) s₃
            ∙ fold-keeps (λ s. s.deferred) (put_desired_error cmd) (λ k v s. refl)
                second.resources_errs s₂
            ∙ kept_early cmd second maps j (λ s. s.deferred) (λ k err s. refl) (λ k v s. refl) s₀;
        desired =
            ap (lookup j)
              (kept_late cmd second maps j (λ s. s.desired) t (λ k err s. refl) (λ k v s. refl) s₃)
            ∙ kept_after cmd second maps j s₂
            ∙ ap (or_old (kept_for (lookup j second.resources_errs) (lookup j cmd.observed))) (
                desired_after cmd second maps j s₁
                ∙ ap
                    (λ (d : Dict DesiredComposed).
                      or_old (map_option marked (lookup j second.resources)) (lookup j d))
                    (fold-keeps (λ s. s.desired) put_request_error (λ k v s. refl)
                      second.requests_errs s₀));
        desired_errors =
            ap (lookup j) (
              kept_late cmd second maps j (λ s. s.desired_errors) t (λ k err s. refl)
                (λ k v s. refl) s₃)
            ∙ errors_after cmd second maps j s₂
            ∙ ap (λ (d : Dict String). or_old (lookup j second.resources_errs) (lookup j d))
                (kept_early cmd second maps j (λ s. s.desired_errors) (λ k err s. refl)
                  (λ k v s. refl) s₀);
        request_errors =
            ap (lookup j) (
              kept_late cmd second maps j (λ s. s.request_errors) t (λ k err s. refl)
                (λ k v s. refl) s₃
              ∙ fold-keeps (λ s. s.request_errors) (put_desired_error cmd) (λ k v s. refl)
                  second.resources_errs s₂
              ∙ fold-keeps (λ s. s.request_errors) put_desired (λ k v s. refl) second.resources s₁)
            ∙ request_errors_after cmd second maps j s₀;
        outputs =
            add_output_errors-outputs cmd second maps j t s₄
            ∙ ap (or_old (old_output (lookup j second.outputs_errs) t j)) (
                outputs_after cmd second maps j s₃
                ∙ ap (λ (d : Dict Value). or_old (lookup j second.outputs) (lookup j d))
                    (fold-keeps (λ s. s.outputs) (put_desired_error cmd) (λ k v s. refl)
                        second.resources_errs s₂
                      ∙ kept_early cmd second maps j (λ s. s.outputs) (λ k err s. refl)
                          (λ k v s. refl) s₀));
        outputs_errors =
            add_output_errors-errors cmd second maps j t s₄
            ∙ ap
                (λ (d : Dict String).
                  or_old
                    (output_error (lookup j second.outputs_errs)
                      (old_output (lookup j second.outputs_errs) t j))
                    (lookup j d))
                (fold-keeps (λ s. s.outputs_errors) put_output (λ k v s. refl) second.outputs s₃
                  ∙ fold-keeps (λ s. s.outputs_errors) (put_desired_error cmd) (λ k v s. refl)
                      second.resources_errs s₂
                  ∙ kept_early cmd second maps j (λ s. s.outputs_errors) (λ k err s. refl)
                      (λ k v s. refl) s₀);
      })

  -- If the pass over a file returns, and its results are merged into the
  -- result of the run, then the result has afterwards,
  -- under every key: as desired, what was observed, if the resource failed and existed, or else the
  -- resource of the file, with a provider configuration marked ready, or else what was there; the
  -- errors of the file, or else those that were there; as an output, what the status of the composite
  -- has, if the output failed, or else the output of the file, or else what was there; and an error
  -- of an output only if the status has nothing for it. Only the file's deferred resources are left.
  pub merge-Merges :
      (e : GenericExecutor) (file : String) (second : FileResult) (r r' : ExecResult)
      (t : Option Fields) (j : String)
      → exec_file e true file ≡ ok second
      → xr_outputs_of cmd ≡ ok t
      → merge marshal_json cmd second r ≡ ok r'
      → Merges cmd second t j r r'
  merge-Merges e file second r r' t j evaluated =
      maps-Merges second r r' t j (exec_file-AreFileMaps e true file second evaluated)

  -- Go visits the entries of a map in any order. If two results of a file have the same entries, only
  -- in another order, and both can be merged into the result of the run, then the two merged results
  -- have the same entries in each of their tables on resources and outputs, and on the requests that
  -- failed.
  pub merge-same :
      (second second' : FileResult) (r r₁ r₂ : ExecResult) (j : String)
      → AreFileMaps second
      → AreFileMaps second'
      → SameEntries second second'
      → merge marshal_json cmd second r ≡ ok r₁
      → merge marshal_json cmd second' r ≡ ok r₂
      → (lookup j r₁.desired ≡ lookup j r₂.desired)
        × (lookup j r₁.desired_errors ≡ lookup j r₂.desired_errors)
        × (lookup j r₁.request_errors ≡ lookup j r₂.request_errors)
        × (lookup j r₁.outputs ≡ lookup j r₂.outputs)
        × (lookup j r₁.outputs_errors ≡ lookup j r₂.outputs_errors)
  merge-same second second' r r₁ r₂ j maps maps' same h h' =
      let (t, found) = merge-xr_outputs second r r₁ h in
      let a = maps-Merges second r r₁ t j maps found h in
      let b = maps-Merges second' r r₂ t j maps' found h' in
      (
        a.desired ∙ rw (same.resources j, same.resources_errs j) (sym b.desired),
        a.desired_errors ∙ rw (same.resources_errs j) (sym b.desired_errors),
        a.request_errors ∙ rw (same.requests_errs j) (sym b.request_errors),
        a.outputs ∙ rw (same.outputs j, same.outputs_errs j) (sym b.outputs),
        a.outputs_errors ∙ rw (same.outputs_errs j) (sym b.outputs_errors),
      )
