-- ===== src/Executor/Outputs.antt =====
-- Outputs that fail: what the composite's status keeps of them.
use crossform.Common.{String, ◌≡◌, refl, Option, none, some, arith, eq_iff}
use crossform.Common.Dict.{Dict, lookup, lookup-put}
use crossform.Common.Json.{Value, Fields, get, opt_obj}
use crossform.Common.Outcome.{Outcome, ok, ◌>>=◌, Ensures}
use crossform.Executor.Types.{ExecCommand, ExecResult}
use crossform.Executor.Interface.{GenericExecutor}
use crossform.Executor.File.{FileResult}
use crossform.Executor.Exec.{
  exec, merge, exec_inputs, xr_outputs_of, keep_output, add_output_errors,
}
use crossform.Executor.Loop.{fold-inv, merge-Ensures, exec-Ensures, add_desired-inv}

-- The outputs in a status, if it is a map and they are there.
abbrev pub outputs_in : Option Value → Option Fields
outputs_in v = elim (opt_obj v) [ none ↦ none | some status ↦ opt_obj (get "outputs" status) ]

abbrev pub status_outputs : Fields → Option Fields
status_outputs xr = outputs_in (get "status" xr)

module _ (marshal_json : Fields → Outcome String) (cmd : ExecCommand) (k : String) (v : Value)
    (outputs : Fields) (before : status_outputs cmd.xr ≡ some outputs)
    (had : get k outputs ≡ some v) where
  abbrev NoError : ExecResult → Type 0
  NoError r = lookup k r.outputs_errors ≡ none

  keep_output-NoError :
      (j err : String) (r : ExecResult) → NoError r → NoError (keep_output outputs j err r)
  keep_output-NoError j err r p = ground (arith, lookup-put j k err r.outputs_errors, eq_iff j k)

  xr_outputs : (t : Option Fields) → xr_outputs_of cmd ≡ ok t → t ≡ some outputs
  unfolding ◌>>=◌
  xr_outputs t q = ground (arith, before)

  add_output_errors-NoError :
      (t : Option Fields) (m : Dict String) (r : ExecResult)
      → xr_outputs_of cmd ≡ ok t
      → NoError r
      → NoError (add_output_errors t m r)
  add_output_errors-NoError t m r q p =
      rw (xr_outputs t q) (fold-inv NoError (keep_output outputs) keep_output-NoError m r p)

  merge-NoError :
      (second : FileResult) (r : ExecResult)
      → NoError r
      → Ensures NoError (merge marshal_json cmd second r)
  merge-NoError second r p =
      merge-Ensures marshal_json cmd NoError (λ j err s q. record { at = λ s' h. ground arith })
        (λ j d s q. record {
          at = λ s' h.
              let (b, new, ready, same) = add_desired-inv marshal_json j d s s' h in ground arith;
        })
        (λ j err s q. record { at = λ s' h. ground arith })
        (λ j o s q. record { at = λ s' h. ground arith }) add_output_errors-NoError second r
        (λ request made. p)

  exec_inputs-NoError :
      (e : GenericExecutor) (first : FileResult) (r : ExecResult)
      → NoError r
      → Ensures NoError (exec_inputs cmd e first r)
  unfolding exec_inputs ◌>>=◌
  exec_inputs-NoError e first r p = record { at = λ r' h. ground arith }

  -- If the status of the composite has an output already, then no successful run reports an error for
  -- that output.
  pub exec-keeps_output :
      (e : GenericExecutor) (r : ExecResult)
      → exec marshal_json cmd e ≡ ok r
      → lookup k r.outputs_errors ≡ none
  unfolding lookup
  exec-keeps_output e r h =
      (exec-Ensures marshal_json cmd NoError e (exec_inputs-NoError e) (λ r asked request made p. p)
          merge-NoError refl).at
        r h
