-- ===== src/Executor/Kept.antt =====
-- What `Exec` guarantees of the resources that failed and of the provider configurations.
use crossform.Common.{
  String, Bool, true, false, ◌≡◌, refl, sym, subst, Option, none, some, arith, eq_iff, Option-cases,
  inl, inr,
}
use crossform.Common.Dict.{Dict, lookup, put, has, lookup-put}
use crossform.Common.Json.{Value, Fields}
use crossform.Common.Outcome.{Outcome, ok, ◌>>=◌, Ensures}
use crossform.Executor.Types.{
  DesiredComposed, ready_true, ObservedComposed, ExecCommand, ExecResult, new_exec_result,
}
use crossform.Executor.Interface.{GenericExecutor}
use crossform.Executor.File.{FileResult}
use crossform.Executor.Exec.{
  requires_ready, with_ready, keep_observed, add_desired, add_desired_error, exec_inputs, fold,
  add_output_error, keep_output, add_output_errors, add_request_error, add_output, merge, exec,
}
use crossform.Executor.Loop.{merge-Ensures, fold-inv, add_desired-inv, exec-Ensures}

pub record IsSafe (cmd : ExecCommand) (r : ExecResult) : Type 0 where
  pub kept :
      (k : String) (o : ObservedComposed)
      → has k r.desired_errors ≡ true
      → lookup k cmd.observed ≡ some o
      → lookup k r.desired ≡ some (keep_observed o)
  pub ready :
      (k : String) (d : DesiredComposed)
      → lookup k r.desired ≡ some d
      → has k r.desired_errors ≡ false
      → requires_ready d.resource ≡ ok true
      → d.ready ≡ ready_true

module _ (marshal_json : Fields → Outcome String) (cmd : ExecCommand) where
  put_desired-IsSafe :
      (k : String) (v : DesiredComposed) (b : Bool) (r : ExecResult)
      → has k r.desired ≡ false
      → requires_ready v.resource ≡ ok b
      → IsSafe cmd r
      → IsSafe cmd (record r { desired = put k (with_ready b v) r.desired })
  put_desired-IsSafe k v b r new p safe = record {
    kept = λ j o failed seen.
        ground (arith, safe.kept j o, lookup-put k j (with_ready b v) r.desired, eq_iff k j);
    ready = λ j d found fine provider.
        ground (arith, safe.ready j d, lookup-put k j (with_ready b v) r.desired, eq_iff k j);
  }

  add_desired-IsSafe :
      (k : String) (v : DesiredComposed) (r : ExecResult)
      → IsSafe cmd r
      → Ensures (IsSafe cmd) (add_desired marshal_json k v r)
  add_desired-IsSafe k v r safe = record {
    at = λ r' h.
        let (b, new, p, e) = add_desired-inv marshal_json k v r r' h in
        subst (IsSafe cmd) (sym e) (put_desired-IsSafe k v b r new p safe);
  }

  add_desired_error-IsSafe :
      (k err : String) (r r' : ExecResult)
      → IsSafe cmd r
      → add_desired_error cmd k err r ≡ ok r'
      → IsSafe cmd r'
  add_desired_error-IsSafe k err r r' safe h = elim (Option-cases (lookup k cmd.observed)) [
    | inl absent ↦ record {
      kept = λ j o failed seen.
          ground (arith, safe.kept j o, lookup-put k j err r.desired_errors, eq_iff k j);
      ready = λ j d found fine provider.
          ground (arith, safe.ready j d, lookup-put k j err r.desired_errors, eq_iff k j);
    }
    | inr (v, p) ↦ record {
      kept = λ j o failed seen. ground (
        arith,
        safe.kept j o,
        lookup-put k j err r.desired_errors,
        lookup-put k j (keep_observed v) r.desired,
        eq_iff k j,
      );
      ready = λ j d found fine provider. ground (
        arith,
        safe.ready j d,
        lookup-put k j err r.desired_errors,
        lookup-put k j (keep_observed v) r.desired,
        eq_iff k j,
      );
    }
  ]

  same-IsSafe :
      (r r' : ExecResult)
      → IsSafe cmd r
      → r'.desired ≡ r.desired
      → r'.desired_errors ≡ r.desired_errors
      → IsSafe cmd r'
  same-IsSafe r r' safe p q = record {
    kept = λ k o failed seen. rw p (safe.kept k o (rw q at failed) seen);
    ready = λ k d found fine provider. safe.ready k d (rw p at found) (rw q at fine) provider;
  }

  fold-IsSafe :
      (f : String → String → ExecResult → ExecResult)
      → ((k v : String) (s : ExecResult) → (f k v s).desired ≡ s.desired)
      → ((k v : String) (s : ExecResult) → (f k v s).desired_errors ≡ s.desired_errors)
      → (m : Dict String) (r : ExecResult) → IsSafe cmd r
      → IsSafe cmd (fold f m r)
  fold-IsSafe f p q m r safe =
      fold-inv (IsSafe cmd) f (λ k v s h. same-IsSafe s (f k v s) h (p k v s) (q k v s)) m r safe

  add_output_errors-IsSafe :
      (t : Option Fields) (m : Dict String) (r : ExecResult)
      → IsSafe cmd r
      → IsSafe cmd (add_output_errors t m r)
  add_output_errors-IsSafe none m r safe =
      fold-IsSafe add_output_error (λ k v s. refl) (λ k v s. refl) m r safe
  add_output_errors-IsSafe (some t) m r safe =
      fold-IsSafe (keep_output t) (λ k v s. ground arith) (λ k v s. ground arith) m r safe

  add_request_error-IsSafe :
      (k err : String) (r : ExecResult)
      → IsSafe cmd r
      → Ensures (IsSafe cmd) (add_request_error k err r)
  add_request_error-IsSafe k err r safe = record {
    at = λ r' h. same-IsSafe r r' safe (ground arith) (ground arith);
  }

  add_output-IsSafe :
      (k : String) (v : Value) (r : ExecResult)
      → IsSafe cmd r
      → Ensures (IsSafe cmd) (add_output k v r)
  add_output-IsSafe k v r safe = record {
    at = λ r' h. same-IsSafe r r' safe (ground arith) (ground arith);
  }

  merge-IsSafe :
      (second : FileResult) (r : ExecResult)
      → IsSafe cmd r
      → Ensures (IsSafe cmd) (merge marshal_json cmd second r)
  merge-IsSafe second r safe =
      merge-Ensures marshal_json cmd (IsSafe cmd) add_request_error-IsSafe add_desired-IsSafe
        (λ k v s p. record { at = λ s' h. add_desired_error-IsSafe k v s s' p h }) add_output-IsSafe
        (λ t m s q p. add_output_errors-IsSafe t m s p) second r
        (λ request made. same-IsSafe r _ safe refl refl)

  exec_inputs-IsSafe :
      (e : GenericExecutor) (first : FileResult) (r : ExecResult)
      → IsSafe cmd r
      → Ensures (IsSafe cmd) (exec_inputs cmd e first r)
  unfolding exec_inputs ◌>>=◌
  exec_inputs-IsSafe e first r safe = record {
    at = λ r' h. same-IsSafe r r' safe (ground arith) (ground arith);
  }

  new_exec_result-IsSafe : IsSafe cmd new_exec_result
  unfolding lookup
  new_exec_result-IsSafe = record {
    kept = λ k o failed seen. cc;
    ready = λ k d found fine provider. cc;
  }

  exec-IsSafe : (e : GenericExecutor) → Ensures (IsSafe cmd) (exec marshal_json cmd e)
  exec-IsSafe e =
      exec-Ensures marshal_json cmd (IsSafe cmd) e (exec_inputs-IsSafe e)
        (λ r asked request made safe. same-IsSafe r _ safe refl refl) merge-IsSafe
        new_exec_result-IsSafe

  -- If a run succeeds, then every resource whose evaluation failed, and which existed before, is
  -- still desired, with the state in which it was observed: an error of a module deletes nothing.
  pub exec-keeps :
      (e : GenericExecutor) (r : ExecResult) (k : String) (o : ObservedComposed)
      → exec marshal_json cmd e ≡ ok r
      → has k r.desired_errors ≡ true
      → lookup k cmd.observed ≡ some o
      → lookup k r.desired ≡ some (keep_observed o)
  exec-keeps e r k o h = ((exec-IsSafe e).at r h).kept k o

  -- If a run succeeds, then every desired resource that was evaluated without an error and is a
  -- provider configuration of the Kubernetes provider is marked ready.
  pub exec-provider_ready :
      (e : GenericExecutor) (r : ExecResult) (k : String) (d : DesiredComposed)
      → exec marshal_json cmd e ≡ ok r
      → lookup k r.desired ≡ some d
      → has k r.desired_errors ≡ false
      → requires_ready d.resource ≡ ok true
      → d.ready ≡ ready_true
  exec-provider_ready e r k d h = ((exec-IsSafe e).at r h).ready k d
