-- ===== src/Executor/Maps.antt =====
-- The tables of a result are maps: no key stands twice in one.
use crossform.Common.{String, ◌≡◌, sym, subst, Option, none, some, arith, Option-cases, inl, inr}
use crossform.Common.Dict.{Dict, lookup, put, IsMap}
use crossform.Common.Maps.{put-IsMap}
use crossform.Common.Json.{Value, Fields, get}
use crossform.Common.Outcome.{Outcome, ok, ◌>>=◌, Ensures}
use crossform.Executor.Types.{Crossform, DesiredComposed, ResourceSelector, ExecCommand, ExecResult}
use crossform.Executor.Interface.{GenericExecutor}
use crossform.Executor.File.{FileResult}
use crossform.Executor.Exec.{
  exec, merge, exec_inputs, fold, add_request, make_request_result, add_request_error, add_desired,
  add_desired_error, add_output, add_output_error, keep_output, add_output_errors, selector_of,
  keep_observed, with_ready,
}
use crossform.Executor.Loop.{each-Ensures, fold-inv, merge-Ensures, exec-Ensures, add_desired-inv}
use crossform.Executor.Requests.{add_request-inv}

pub record AreMaps (r : ExecResult) : Type 0 where
  pub desired : IsMap r.desired
  pub desired_errors : IsMap r.desired_errors
  pub request : IsMap r.request
  pub request_errors : IsMap r.request_errors
  pub outputs : IsMap r.outputs
  pub outputs_errors : IsMap r.outputs_errors
  pub inputs : IsMap r.inputs
  pub inputs_errors : IsMap r.inputs_errors

make_request_result-IsMap :
    (old : Dict ResourceSelector) (request : Dict Crossform)
    → IsMap old
    → Ensures IsMap (make_request_result old request)
unfolding make_request_result
make_request_result-IsMap old request h =
    each-Ensures IsMap add_request
      (λ k v m p. record {
        at = λ m' q.
            let (s, some_s, new, e) = add_request-inv k v m m' q in
            subst IsMap (sym e) (put-IsMap k (selector_of s) m p);
      })
      request old h

put_desired :
    (k : String) (v : DesiredComposed) (r : ExecResult)
    → AreMaps r
    → AreMaps (record r { desired = put k v r.desired })
put_desired k v r maps = ground (arith, put-IsMap k v r.desired maps.desired)

module _ (marshal_json : Fields → Outcome String) (cmd : ExecCommand) where
  add_desired-AreMaps :
      (k : String) (v : DesiredComposed) (r : ExecResult)
      → AreMaps r
      → Ensures AreMaps (add_desired marshal_json k v r)
  add_desired-AreMaps k v r maps = record {
    at = λ r' h.
        let (b, new, ready, e) = add_desired-inv marshal_json k v r r' h in
        subst AreMaps (sym e) (put_desired k (with_ready b v) r maps);
  }

  add_desired_error-AreMaps :
      (k err : String) (r : ExecResult)
      → AreMaps r
      → Ensures AreMaps (add_desired_error cmd k err r)
  add_desired_error-AreMaps k err r maps = record {
    at = λ r' h. elim (Option-cases (lookup k cmd.observed)) [
      | inl absent ↦ ground (arith, put-IsMap k err r.desired_errors maps.desired_errors)
      | inr (o, p) ↦ ground (
        arith,
        put-IsMap k err r.desired_errors maps.desired_errors,
        put-IsMap k (keep_observed o) r.desired maps.desired,
      )
    ];
  }

  add_request_error-AreMaps :
      (k err : String) (r : ExecResult) → AreMaps r → Ensures AreMaps (add_request_error k err r)
  add_request_error-AreMaps k err r maps = record {
    at = λ r' h. ground (arith, put-IsMap k err r.request_errors maps.request_errors);
  }

  add_output-AreMaps :
      (k : String) (v : Value) (r : ExecResult) → AreMaps r → Ensures AreMaps (add_output k v r)
  add_output-AreMaps k v r maps = record {
    at = λ r' h. ground (arith, put-IsMap k v r.outputs maps.outputs);
  }

  add_output_error-AreMaps :
      (k err : String) (r : ExecResult) → AreMaps r → AreMaps (add_output_error k err r)
  add_output_error-AreMaps k err r maps =
      ground (arith, put-IsMap k err r.outputs_errors maps.outputs_errors)

  keep_output-AreMaps :
      (t : Fields) (k err : String) (r : ExecResult) → AreMaps r → AreMaps (keep_output t k err r)
  keep_output-AreMaps t k err r maps = elim (Option-cases (get k t)) [
    | inl absent ↦ ground (arith, add_output_error-AreMaps k err r maps)
    | inr (v, p) ↦ ground (arith, put-IsMap k v r.outputs maps.outputs)
  ]

  add_output_errors-AreMaps :
      (t : Option Fields) (m : Dict String) (r : ExecResult)
      → AreMaps r
      → AreMaps (add_output_errors t m r)
  add_output_errors-AreMaps none m r maps =
      fold-inv AreMaps add_output_error add_output_error-AreMaps m r maps
  add_output_errors-AreMaps (some t) m r maps =
      fold-inv AreMaps (keep_output t) (keep_output-AreMaps t) m r maps

  requested-AreMaps :
      (r : ExecResult) (asked : Dict Crossform) (request : Dict ResourceSelector)
      → make_request_result r.request asked ≡ ok request
      → AreMaps r
      → AreMaps (record r { request = request })
  requested-AreMaps r asked request h maps =
      ground (arith, (make_request_result-IsMap r.request asked maps.request).at request h)

  merge-AreMaps :
      (second : FileResult) (r : ExecResult)
      → AreMaps r
      → Ensures AreMaps (merge marshal_json cmd second r)
  merge-AreMaps second r maps =
      merge-Ensures marshal_json cmd AreMaps add_request_error-AreMaps add_desired-AreMaps
        add_desired_error-AreMaps add_output-AreMaps
        (λ t m s q p. add_output_errors-AreMaps t m s p) second r
        (λ request made. ground (arith, requested-AreMaps r second.requests request made maps))

  fold_put-IsMap :
      {V : Type 0} (value : String → V → String) (m : Dict V) (d : Dict String)
      → IsMap d
      → IsMap (fold (λ k v d. put k (value k v) d) m d)
  fold_put-IsMap value m d h =
      fold-inv IsMap (λ k v d. put k (value k v) d) (λ k v d p. put-IsMap k (value k v) d p) m d h

  exec_inputs-AreMaps :
      (e : GenericExecutor) (first : FileResult) (r : ExecResult)
      → AreMaps r
      → Ensures AreMaps (exec_inputs cmd e first r)
  unfolding exec_inputs ◌>>=◌
  exec_inputs-AreMaps e first r maps = record {
    at = λ r' h. ground (
      arith,
      fold_put-IsMap (λ k err. err) first.inputs_errs r.inputs_errors maps.inputs_errors,
      fold_put-IsMap (λ k c. k) first.inputs r.inputs maps.inputs,
    );
  }

  -- Whatever the module's files list, and in whatever order they are visited: if a run succeeds, then
  -- every table of its result is a map, in which no key stands twice.
  pub exec-AreMaps :
      (e : GenericExecutor) (r : ExecResult) → exec marshal_json cmd e ≡ ok r → AreMaps r
  exec-AreMaps e r h =
      (exec-Ensures marshal_json cmd AreMaps e (exec_inputs-AreMaps e) requested-AreMaps
          merge-AreMaps
          (record {
            desired = tt;
            desired_errors = tt;
            request = tt;
            request_errors = tt;
            outputs = tt;
            outputs_errors = tt;
            inputs = tt;
            inputs_errors = tt;
          })).at
        r h
