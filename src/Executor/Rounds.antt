-- ===== src/Executor/Rounds.antt =====
-- What one round of the loop of `Exec` takes from a file.
use crossform.Common.{
  String-cases, eq-false_of_ne, sym, ap, ◌||◌, String, Bool, true, false, ◌≡◌, refl, ◌∙◌, Option,
  none, some, List, [], ◌∷◌, arith, inl, inr,
}
use crossform.Common.Dict.{Dict, lookup}
use crossform.Common.Json.{Fields}
use crossform.Common.Outcome.{
  Outcome, ok, wrap, ◌>>=◌, bind-eq-ok, Outcome-cases, Ensures, Ensures-ok, Ensures-bind,
  Ensures-then,
}
use crossform.Executor.Types.{Crossform, ExecCommand, ExecResult}
use crossform.Executor.Interface.{GenericExecutor}
use crossform.Executor.File.{FileResult, exec_file}
use crossform.Executor.Exec.{
  add_output_error, keep_output, add_output_errors, exec_inputs, merge, exec_round, exec_one,
  is_insufficient, exec_loop,
}
use crossform.Executor.Loop.{merge-Ensures, fold-inv, add_desired-inv}

-- Nothing that comes from evaluating resources and outputs differs.
pub record SameEvaluation (r r' : ExecResult) : Type 0 where
  pub desired : r'.desired ≡ r.desired
  pub desired_errors : r'.desired_errors ≡ r.desired_errors
  pub deferred : r'.deferred ≡ r.deferred
  pub outputs : r'.outputs ≡ r.outputs
  pub outputs_errors : r'.outputs_errors ≡ r.outputs_errors

SameEvaluation-refl : (r : ExecResult) → SameEvaluation r r
SameEvaluation-refl r = ground arith

SameEvaluation-trans :
    (r s t : ExecResult) → SameEvaluation r s → SameEvaluation s t → SameEvaluation r t
SameEvaluation-trans r s t h k = record {
  desired = k.desired ∙ h.desired;
  desired_errors = k.desired_errors ∙ h.desired_errors;
  deferred = k.deferred ∙ h.deferred;
  outputs = k.outputs ∙ h.outputs;
  outputs_errors = k.outputs_errors ∙ h.outputs_errors;
}

-- A request that was not made before has no answer.
is_insufficient_unanswered :
    (requested : Dict (List Fields)) (request : Dict Crossform) (k : String) (c : Crossform)
    → lookup k request ≡ some c
    → lookup k requested ≡ none
    → is_insufficient requested request ≡ true
unfolding is_insufficient lookup
is_insufficient_unanswered requested [] k c asks no_answer = absurd (ground arith)
is_insufficient_unanswered requested ((j, d) ∷ request) k c asks no_answer =
    elim (String-cases j k) [
      | inl same ↦ rw same (rw no_answer refl)
      | inr other ↦
          ground (arith, eq-false_of_ne j k other, is_insufficient_unanswered requested request k c)
    ]

module _ (marshal_json : Fields → Outcome String) (cmd : ExecCommand) (e : GenericExecutor) where
  exec_inputs-SameEvaluation :
      (first : FileResult) (r : ExecResult) → Ensures (SameEvaluation r) (exec_inputs cmd e first r)
  unfolding exec_inputs ◌>>=◌
  exec_inputs-SameEvaluation first r = record { at = λ r' h. ground arith }

  -- the round after the first pass, when the flag is set
  skipped-SameEvaluation :
      (file : String) (first : FileResult) (r : ExecResult)
      → Ensures
          (λ (t : ExecResult × Bool). SameEvaluation r t.0 × (t.1 ≡ true))
          (exec_round marshal_json cmd e file first r true)
  unfolding exec_round
  skipped-SameEvaluation file first r =
      Ensures-then _ _ λ request. Ensures-ok _ (ground arith, refl)

  skipped_after :
      (file : String) (first : FileResult) (r r' : ExecResult)
      → SameEvaluation r r'
      → Ensures
          (λ (t : ExecResult × Bool). SameEvaluation r t.0 × (t.1 ≡ true))
          (exec_round marshal_json cmd e file first r' true)
  skipped_after file first r r' same = record {
    at = λ t h.
        let (kept, set) = (skipped-SameEvaluation file first r').at t h in
        (SameEvaluation-trans r r' t.0 same kept, set);
  }

  -- A round that starts with the flag set leaves it set and evaluates nothing.
  exec_one-skips :
      (file : String) (r : ExecResult)
      → Ensures
          (λ (t : ExecResult × Bool). SameEvaluation r t.0 × (t.1 ≡ true))
          (exec_one marshal_json cmd e file (r, true))
  unfolding exec_one
  exec_one-skips file r = Ensures-then _ _ λ first.
      Ensures-bind (SameEvaluation r) _ _ (exec_inputs-SameEvaluation first r)
        λ r' same. skipped_after file first r r' same

  rest_skips :
      (files : List String) (r s : ExecResult) (set : Bool)
      → SameEvaluation r s
      → set ≡ true
      → Ensures
          (λ (t : ExecResult × Bool). SameEvaluation s t.0 × (t.1 ≡ true))
          (exec_loop marshal_json cmd e files (s, true))
      → Ensures
          (λ (t : ExecResult × Bool). SameEvaluation r t.0 × (t.1 ≡ true))
          (exec_loop marshal_json cmd e files (s, set))
  rest_skips files r s set same p ih = rw p (record {
    at = λ t h. let (kept, q) = ih.at t h in (SameEvaluation-trans r s t.0 same kept, q);
  })

  exec_loop-SameEvaluation :
      (files : List String) (r : ExecResult)
      → Ensures
          (λ (t : ExecResult × Bool). SameEvaluation r t.0 × (t.1 ≡ true))
          (exec_loop marshal_json cmd e files (r, true))
  unfolding exec_loop
  exec_loop-SameEvaluation [] r = Ensures-ok _ (SameEvaluation-refl r, refl)
  exec_loop-SameEvaluation (file ∷ files) r =
      Ensures-bind (λ (t : ExecResult × Bool). SameEvaluation r t.0 × (t.1 ≡ true)) _ _
        (exec_one-skips file r)
        λ (s, set) (same, p). rest_skips files r s set same p (exec_loop-SameEvaluation files s)

  -- If a file asks for something that the cluster has not been asked for before, so that there is no
  -- answer, then its round and those of the files after it, if they return, evaluate nothing, whether
  -- or not the requests of these are answered: the resources, outputs and deferred resources found
  -- before stay as they are, and the flag is set at the end.
  pub exec_loop-skips :
      (file : String) (files : List String) (r : ExecResult) (missing : Bool) (first : FileResult)
      (k : String) (c : Crossform) (t : ExecResult × Bool)
      → exec_file e false file ≡ ok first
      → lookup k first.requests ≡ some c
      → lookup k cmd.requested ≡ none
      → exec_loop marshal_json cmd e (file ∷ files) (r, missing) ≡ ok t
      → SameEvaluation r t.0 × (t.1 ≡ true)
  unfolding exec_loop exec_one
  exec_loop-skips file files r missing first k c t passed asks unanswered h =
      let (s, p, rest) = bind-eq-ok (exec_one marshal_json cmd e file (r, missing)) _ h in
      let (first', p₁, h₁) =
        bind-eq-ok (wrap "Jsonnet execution fatal error" (exec_file e false file)) _ p in
      let (r', p₂, h₂) = bind-eq-ok (exec_inputs cmd e first' r) _ h₁ in
      let e₁ : first' ≡ first = ground arith in
      let set : (missing || is_insufficient cmd.requested first'.requests) ≡ true =
        ground (
          arith,
          e₁,
          is_insufficient_unanswered cmd.requested first.requests k c asks unanswered,
        ) in
      let (same, flag) =
        (skipped_after file first' r r' ((exec_inputs-SameEvaluation first' r).at r' p₂)).at s
          (ap (exec_round marshal_json cmd e file first' r') (sym set) ∙ h₂) in
      (rest_skips files r s.0 s.1 same flag (exec_loop-SameEvaluation files s.0)).at t rest

module _ (marshal_json : Fields → Outcome String) (cmd : ExecCommand) where
  -- a round's list of deferred resources is not changed by what else it merges
  add_output_errors-deferred :
      (l : List String) (t : Option Fields) (m : Dict String) (s : ExecResult)
      → s.deferred ≡ l
      → (add_output_errors t m s).deferred ≡ l
  add_output_errors-deferred l none m s p =
      fold-inv (λ s. s.deferred ≡ l) add_output_error (λ k v s q. q) m s p
  add_output_errors-deferred l (some t) m s p =
      fold-inv (λ s. s.deferred ≡ l) (keep_output t) (λ k v s q. ground arith) m s p

  merge-deferred :
      (second : FileResult) (r : ExecResult)
      → Ensures (λ s. s.deferred ≡ second.resources_deferred) (merge marshal_json cmd second r)
  merge-deferred second r =
      merge-Ensures marshal_json cmd (λ s. s.deferred ≡ second.resources_deferred)
        (λ k v s p. record { at = λ s' h. ground arith })
        (λ k v s p. record {
          at = λ s' h.
              let (b, new, q, same) = add_desired-inv marshal_json k v s s' h in ground arith;
        })
        (λ k v s p. record { at = λ s' h. ground arith })
        (λ k v s p. record { at = λ s' h. ground arith })
        (λ t m s q p. add_output_errors-deferred second.resources_deferred t m s p) second r
        (λ request made. refl)

  exec_round-deferred :
      (e : GenericExecutor) (file : String) (first second : FileResult) (r r' : ExecResult)
      (missing : Bool)
      → exec_file e true file ≡ ok second
      → exec_round marshal_json cmd e file first r missing ≡ ok (r', false)
      → r'.deferred ≡ second.resources_deferred
  unfolding exec_round ◌>>=◌
  exec_round-deferred e file first second r r' true evaluated h = ground arith
  exec_round-deferred e file first second r r' false evaluated h =
      elim (Outcome-cases (merge marshal_json cmd second r)) [
        | inl (s, p) ↦ ground (arith, (merge-deferred second r).at s p)
        | inr stopped ↦ ground arith
      ]

  -- A round that ends with the flag off has evaluated its file, and leaves only the deferred
  -- resources of that file: those of the files before it are forgotten.
  pub exec_one-deferred :
      (e : GenericExecutor) (file : String) (second : FileResult) (r r' : ExecResult)
      (missing : Bool)
      → exec_file e true file ≡ ok second
      → exec_one marshal_json cmd e file (r, missing) ≡ ok (r', false)
      → r'.deferred ≡ second.resources_deferred
  unfolding exec_one
  exec_one-deferred e file second r r' missing evaluated h =
      let (first, p, q) =
        bind-eq-ok (wrap "Jsonnet execution fatal error" (exec_file e false file)) _ h in
      let (s, p', q') = bind-eq-ok (exec_inputs cmd e first r) _ q in
      exec_round-deferred e file first second s r' _ evaluated q'
