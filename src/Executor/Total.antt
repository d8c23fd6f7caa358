-- ===== src/Executor/Total.antt =====
-- `execFile` has an error among its results and never returns one; on an evaluator that keeps its
-- promises it does not panic either.
use crossform.Common.{
  String, ◌≡◌, refl, Bool, true, List, [], ◌∷◌, arith, All, is_some, Option-cases, inl, inr,
}
use crossform.Common.Outcome.{ok, ◌>>=◌, Outcome-cases}
use crossform.Executor.Types.{Metadata}
use crossform.Executor.Interface.{GenericExecutor, IsComplete}
use crossform.Executor.File.{FileResult, dispatch, exec_field, exec_fields, exec_file, no_results}

module _ (e : GenericExecutor) (law : IsComplete e) (evaluate : Bool) (file : String) where
  dispatch-ok :
      (name : String) (m : Metadata) (acc : FileResult)
      → (acc' : FileResult) × (dispatch e evaluate file name m acc ≡ ok acc')
  unfolding dispatch
  dispatch-ok name m acc = elim (Outcome-cases (dispatch e evaluate file name m acc)) [
    | inl done ↦ done
    | inr stopped ↦ absurd (ground (arith, law.object file name, law.resource file name))
  ]

  exec_fields-ok :
      (names : List String) (acc : FileResult)
      → All (λ field. is_some (e.get_metadata_object file field) ≡ true) names
      → (r : FileResult) × (exec_fields e evaluate file names acc ≡ ok r)
  unfolding exec_fields exec_field ◌>>=◌
  exec_fields-ok [] acc all = (acc, refl)
  exec_fields-ok (name ∷ names) acc all = elim (Option-cases (e.get_metadata_object file name)) [
    | inl nil ↦ absurd (ground (arith, all.0))
    | inr (m, p) ↦
        let (acc', q) = dispatch-ok name m acc in
        let (r, rest) = exec_fields-ok names acc' all.1 in (r, rw (p, q) rest)
  ]

  -- On an evaluator that has metadata for every field that it lists, and whose evaluations end in a
  -- value or an error, a pass over a file always returns a result: an error in a field is kept in the
  -- result and never stops the pass.
  pub exec_file-returns : (r : FileResult) × (exec_file e evaluate file ≡ ok r)
  unfolding exec_file
  exec_file-returns = exec_fields-ok (e.get_fields file) no_results (law.described file)
