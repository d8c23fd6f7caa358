-- ===== src/Executor/Bounds.antt =====
-- How much one pass over a file can add: at most one result for a field.
use crossform.Common.{
  ℕ, ◌+◌, ◌≤◌, String, ◌≡◌, refl, Bool, List, [], ◌∷◌, ◌++◌, arith, ◌==◌, length, inl, inr,
  Option-cases, Bool-cases,
}
use crossform.Common.Dict.{Dict, put}
use crossform.Common.Outcome.{ok, ◌>>=◌, Outcome-cases}
use crossform.Executor.Types.{Metadata}
use crossform.Executor.Interface.{GenericExecutor}
use crossform.Executor.File.{FileResult, no_results, dispatch, exec_field, exec_fields, exec_file}

-- The entries of all results of a file.
abbrev pub size : FileResult → ℕ
size r =
    length r.resources
    + length r.resources_errs
    + length r.resources_deferred
    + (length r.requests + length r.requests_errs)
    + (length r.outputs + length r.outputs_errs)
    + (length r.inputs + length r.inputs_errs)

length-put : {V : Type 0} (k : String) (v : V) (m : Dict V) → length (put k v m) ≤ length m + 1
unfolding put
length-put k v [] = omega arith
length-put k v ((j, w) ∷ m) = ground (arith, length-put k v m)

length-append : (ks : List String) (k : String) → length (ks ++ k ∷ []) ≡ length ks + 1
length-append [] k = refl
length-append (j ∷ ks) k = omega (arith, length-append ks k)

module _ (e : GenericExecutor) (evaluate : Bool) (file : String) where
  dispatch-size :
      (name : String) (m : Metadata) (a b : FileResult)
      → dispatch e evaluate file name m a ≡ ok b
      → size b ≤ size a + 1
  unfolding dispatch
  dispatch-size name m a b h = elim (Bool-cases (m.type == "resource")) [
    | inl resource ↦ elim (Outcome-cases (e.get_resource file name)) [
      | inl ((res, deferred, ready), p) ↦ ground (
        arith,
        length-put m.id (record { resource = res; ready = ready }) a.resources,
        length-append a.resources_deferred m.id,
      )
      | inr (inl (err, p)) ↦ ground (arith, length-put m.id err a.resources_errs)
      | inr (inr p) ↦ ground arith
    ]
    | inr other ↦ elim (Outcome-cases (e.get_crossform_object file name)) [
      | inl (c, p) ↦ ground (
        arith,
        length-put m.id c a.requests,
        length-put m.id c.output a.outputs,
        length-put m.id c a.inputs,
      )
      | inr (inl (err, p)) ↦ ground (
        arith,
        length-put m.id err a.requests_errs,
        length-put m.id err a.outputs_errs,
        length-put m.id err a.inputs_errs,
      )
      | inr (inr p) ↦ ground arith
    ]
  ]

  exec_fields-size :
      (names : List String) (a b : FileResult)
      → exec_fields e evaluate file names a ≡ ok b
      → size b ≤ size a + length names
  unfolding exec_fields exec_field ◌>>=◌
  exec_fields-size [] a b h = ground arith
  exec_fields-size (name ∷ names) a b h = elim (Option-cases (e.get_metadata_object file name)) [
    | inl nil ↦ absurd (ground arith)
    | inr (m, p) ↦ elim (Outcome-cases (dispatch e evaluate file name m a)) [
      | inl (a', q) ↦
          let first = dispatch-size name m a a' q in
          let rest = exec_fields-size names a' b (ground arith) in omega (arith, first, rest)
      | inr stopped ↦ absurd (ground arith)
    ]
  ]

  -- A pass over a file, with or without evaluation, has in all no more results than the file has
  -- fields.
  pub exec_file-size :
      (r : FileResult) → exec_file e evaluate file ≡ ok r → size r ≤ length (e.get_fields file)
  unfolding exec_file
  exec_file-size r h = omega (arith, exec_fields-size (e.get_fields file) no_results r h)
