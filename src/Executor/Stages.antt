-- ===== src/Executor/Stages.antt =====
-- The loops of a merge as folds, and what each of them writes under a key.
use crossform.Common.{
  String, ◌≡◌, refl, sym, ap, ◌∙◌, Bool, Option, none, some, arith, ◌==◌, if◌then◌else◌,
  Option-cases, inl, inr,
}
use crossform.Common.Dict.{Dict, lookup, put, lookup-put, map_option, IsMap}
use crossform.Common.Json.{Value, Fields, get}
use crossform.Common.Outcome.{Outcome, ok}
use crossform.Executor.Types.{DesiredComposed, ObservedComposed, ExecCommand, ExecResult}
use crossform.Executor.File.{FileResult}
use crossform.Executor.Exec.{
  fold, requires_ready, with_ready, keep_observed, add_request_error, add_desired,
  add_desired_error, add_output, add_output_error, keep_output, add_output_errors,
}
use crossform.Executor.Loop.{add_desired-inv}
use crossform.Executor.Folds.{or_old, lookup-fold, written-some, fold-keeps}

-- The tables of a file's results are maps.
pub record AreFileMaps (f : FileResult) : Type 0 where
  pub resources : IsMap f.resources
  pub resources_errs : IsMap f.resources_errs
  pub requests_errs : IsMap f.requests_errs
  pub outputs : IsMap f.outputs
  pub outputs_errs : IsMap f.outputs_errs

-- A resource as it is stored: a provider configuration is marked ready.
abbrev pub marked_if : Outcome Bool → DesiredComposed → DesiredComposed
marked_if (ok b) d = with_ready b d
marked_if _ d = d

abbrev pub marked : DesiredComposed → DesiredComposed
marked d = marked_if (requires_ready d.resource) d

-- The observed state that stands in for a resource that failed.
abbrev pub kept_for : Option String → Option ObservedComposed → Option DesiredComposed
kept_for none o = none
kept_for (some err) o = map_option keep_observed o

-- The output in the composite's status that stands in for one that failed.
abbrev pub old_output : Option String → Option Fields → String → Option Value
old_output none t k = none
old_output (some err) none k = none
old_output (some err) (some t) k = get k t

-- The error of an output that has nothing to stand in for it.
abbrev pub output_error : Option String → Option Value → Option String
output_error err none = err
output_error err (some v) = none

-- The rounds of the loops, where they do not stop the run.
abbrev pub put_desired : String → DesiredComposed → ExecResult → ExecResult
put_desired k v r = record r { desired = put k (marked v) r.desired }

abbrev pub put_request_error : String → String → ExecResult → ExecResult
put_request_error k err r = record r { request_errors = put k err r.request_errors }

abbrev pub put_output : String → Value → ExecResult → ExecResult
put_output k v r = record r { outputs = put k v r.outputs }

module _ (cmd : ExecCommand) where
  abbrev pub kept_in :
      Option ObservedComposed → String → Dict DesiredComposed → Dict DesiredComposed
  kept_in none k d = d
  kept_in (some o) k d = put k (keep_observed o) d

  abbrev pub put_desired_error : String → String → ExecResult → ExecResult
  put_desired_error k err r = record r {
    desired_errors = put k err r.desired_errors;
    desired = kept_in (lookup k cmd.observed) k r.desired;
  }

  lookup-kept_in :
      (o : Option ObservedComposed) (k i : String) (d : Dict DesiredComposed)
      → lookup i (kept_in o k d)
        ≡ (if k == i then or_old (map_option keep_observed o) (lookup i d) else lookup i d)
  lookup-kept_in none k i d = ground arith
  lookup-kept_in (some o) k i d = lookup-put k i (keep_observed o) d

  pub add_desired_error-does :
      (k err : String) (r r' : ExecResult)
      → add_desired_error cmd k err r ≡ ok r'
      → r' ≡ put_desired_error k err r
  add_desired_error-does k err r r' h = ground arith

pub add_request_error-does :
    (k err : String) (r r' : ExecResult)
    → add_request_error k err r ≡ ok r'
    → r' ≡ put_request_error k err r
add_request_error-does k err r r' h = ground arith

pub add_output-does :
    (k : String) (v : Value) (r r' : ExecResult) → add_output k v r ≡ ok r' → r' ≡ put_output k v r
add_output-does k v r r' h = ground arith

pub add_desired-does :
    (marshal_json : Fields → Outcome String) (k : String) (v : DesiredComposed) (r r' : ExecResult)
    → add_desired marshal_json k v r ≡ ok r'
    → r' ≡ put_desired k v r
add_desired-does marshal_json k v r r' h =
    let (b, new, p, e) = add_desired-inv marshal_json k v r r' h in
    e ∙ ap (λ (o : Outcome Bool). record r { desired = put k (marked_if o v) r.desired }) (sym p)

outputs-keep_output :
    (t : Fields) (k i err : String) (s : ExecResult)
    → lookup i (keep_output t k err s).outputs
      ≡ (if k == i then or_old (get k t) (lookup i s.outputs) else lookup i s.outputs)
outputs-keep_output t k i err s = elim (Option-cases (get k t)) [
  | inl absent ↦ ground arith
  | inr (v, p) ↦ ground (arith, lookup-put k i v s.outputs)
]

errors-keep_output :
    (t : Fields) (k i err : String) (s : ExecResult)
    → lookup i (keep_output t k err s).outputs_errors ≡ (
        if k == i
        then or_old (output_error (some err) (get k t)) (lookup i s.outputs_errors)
        else lookup i s.outputs_errors)
errors-keep_output t k i err s = elim (Option-cases (get k t)) [
  | inl absent ↦ ground (arith, lookup-put k i err s.outputs_errors)
  | inr (v, p) ↦ ground arith
]

-- The stages of a merge that is not stopped.
module _ (cmd : ExecCommand) (second : FileResult) (maps : AreFileMaps second) (j : String) where
  abbrev pub with_errors : ExecResult → ExecResult
  with_errors r = fold put_request_error second.requests_errs r

  abbrev pub with_desired : ExecResult → ExecResult
  with_desired r = fold put_desired second.resources r

  abbrev pub with_kept : ExecResult → ExecResult
  with_kept r = fold (put_desired_error cmd) second.resources_errs r

  abbrev pub with_outputs : ExecResult → ExecResult
  with_outputs r = fold put_output second.outputs r

  pub request_errors_after :
      (r : ExecResult)
      → lookup j (with_errors r).request_errors
        ≡ or_old (lookup j second.requests_errs) (lookup j r.request_errors)
  request_errors_after r =
      lookup-fold (λ s. s.request_errors) put_request_error (λ k err. some err)
        (λ k i err s. ground (arith, lookup-put k i err s.request_errors)) second.requests_errs j r
        maps.requests_errs
      ∙ ground arith

  pub desired_after :
      (r : ExecResult)
      → lookup j (with_desired r).desired
        ≡ or_old (map_option marked (lookup j second.resources)) (lookup j r.desired)
  desired_after r =
      lookup-fold (λ s. s.desired) put_desired (λ k v. some (marked v))
        (λ k i v s. lookup-put k i (marked v) s.desired) second.resources j r maps.resources
      ∙ ap (λ o. or_old o (lookup j r.desired)) (written-some marked (lookup j second.resources))

  pub kept_after :
      (r : ExecResult)
      → lookup j (with_kept r).desired
        ≡ or_old
            (kept_for (lookup j second.resources_errs) (lookup j cmd.observed))
            (lookup j r.desired)
  kept_after r =
      lookup-fold (λ s. s.desired) (put_desired_error cmd)
        (λ k err. map_option keep_observed (lookup k cmd.observed))
        (λ k i err s. lookup-kept_in cmd (lookup k cmd.observed) k i s.desired)
        second.resources_errs j r maps.resources_errs
      ∙ ground arith

  pub errors_after :
      (r : ExecResult)
      → lookup j (with_kept r).desired_errors
        ≡ or_old (lookup j second.resources_errs) (lookup j r.desired_errors)
  errors_after r =
      lookup-fold (λ s. s.desired_errors) (put_desired_error cmd) (λ k err. some err)
        (λ k i err s. ground (arith, lookup-put k i err s.desired_errors)) second.resources_errs j r
        maps.resources_errs
      ∙ ground arith

  pub outputs_after :
      (r : ExecResult)
      → lookup j (with_outputs r).outputs ≡ or_old (lookup j second.outputs) (lookup j r.outputs)
  outputs_after r =
      lookup-fold (λ s. s.outputs) put_output (λ k v. some v)
        (λ k i v s. ground (arith, lookup-put k i v s.outputs)) second.outputs j r maps.outputs
      ∙ ground arith

  -- The last loop, over the outputs that failed.
  pub add_output_errors-outputs :
      (t : Option Fields) (r : ExecResult)
      → lookup j (add_output_errors t second.outputs_errs r).outputs
        ≡ or_old (old_output (lookup j second.outputs_errs) t j) (lookup j r.outputs)
  add_output_errors-outputs none r =
      ap (lookup j)
        (fold-keeps (λ s. s.outputs) add_output_error (λ k err s. refl) second.outputs_errs r)
      ∙ ground arith
  add_output_errors-outputs (some t) r =
      lookup-fold (λ s. s.outputs) (keep_output t) (λ k err. get k t) (outputs-keep_output t)
        second.outputs_errs j r maps.outputs_errs
      ∙ ground arith

  pub add_output_errors-errors :
      (t : Option Fields) (r : ExecResult)
      → lookup j (add_output_errors t second.outputs_errs r).outputs_errors
        ≡ or_old
            (output_error
              (lookup j second.outputs_errs)
              (old_output (lookup j second.outputs_errs) t j))
            (lookup j r.outputs_errors)
  add_output_errors-errors none r =
      lookup-fold (λ s. s.outputs_errors) add_output_error (λ k err. some err)
        (λ k i err s. ground (arith, lookup-put k i err s.outputs_errors)) second.outputs_errs j r
        maps.outputs_errs
      ∙ ground arith
  add_output_errors-errors (some t) r =
      lookup-fold (λ s. s.outputs_errors) (keep_output t)
        (λ k err. output_error (some err) (get k t)) (errors-keep_output t) second.outputs_errs j r
        maps.outputs_errs
      ∙ ground arith

  pub add_output_errors-other :
      {A : Type 0} (field : ExecResult → A) (t : Option Fields) (r : ExecResult)
      → ((k err : String) (s : ExecResult) → field (add_output_error k err s) ≡ field s)
      → ((k : String) (v : Value) (s : ExecResult)
          → field (record s { outputs = put k v s.outputs }) ≡ field s)
      → field (add_output_errors t second.outputs_errs r) ≡ field r
  add_output_errors-other field none r error output =
      fold-keeps field add_output_error error second.outputs_errs r
  add_output_errors-other field (some t) r error output =
      fold-keeps field (keep_output t)
        (λ k err s. elim (Option-cases (get k t)) [
          | inl absent ↦ rw (keep_output, absent) (error k err s)
          | inr (v, p) ↦ rw (keep_output, p) (output k v s)
        ])
        second.outputs_errs r

  -- What the loops before the resources' errors, and those after them, leave alone.
  pub kept_early :
      {A : Type 0} (field : ExecResult → A)
      → ((k err : String) (s : ExecResult) → field (put_request_error k err s) ≡ field s)
      → ((k : String) (v : DesiredComposed) (s : ExecResult) → field (put_desired k v s) ≡ field s)
      → (r : ExecResult) → field (with_desired (with_errors r)) ≡ field r
  kept_early field error desired r =
      fold-keeps field put_desired desired second.resources (with_errors r)
      ∙ fold-keeps field put_request_error error second.requests_errs r

  pub kept_late :
      {A : Type 0} (field : ExecResult → A) (t : Option Fields)
      → ((k err : String) (s : ExecResult) → field (add_output_error k err s) ≡ field s)
      → ((k : String) (v : Value) (s : ExecResult) → field (put_output k v s) ≡ field s)
      → (r : ExecResult)
      → field (add_output_errors t second.outputs_errs (with_outputs r)) ≡ field r
  kept_late field t error output r =
      add_output_errors-other field t (with_outputs r) error output
      ∙ fold-keeps field put_output output second.outputs r
