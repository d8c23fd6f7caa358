-- ===== src/Executor/Passes.antt =====
-- The two passes of `Exec` over a file: the first, which evaluates no resource and no output, sees
-- the same requests and inputs as the second.
use crossform.Common.{String, true, false, ◌≡◌, List, [], ◌∷◌, arith}
use crossform.Common.Outcome.{ok, bind-eq-ok}
use crossform.Executor.Interface.{GenericExecutor}
use crossform.Executor.File.{FileResult, exec_field, exec_fields, exec_file, no_results}

-- A result without what only an evaluating pass finds.
abbrev pub without_evaluation : FileResult → FileResult
without_evaluation r = record r {
  resources = [];
  resources_errs = [];
  resources_deferred = [];
  outputs = [];
  outputs_errs = [];
}

module _ (e : GenericExecutor) (file : String) where
  exec_field-passes :
      (name : String) (b b' : FileResult)
      → exec_field e true file name b ≡ ok b'
      → exec_field e false file name (without_evaluation b) ≡ ok (without_evaluation b')
  unfolding exec_field
  exec_field-passes name b b' h = ground arith

  exec_fields-passes :
      (names : List String) (b b' : FileResult)
      → exec_fields e true file names b ≡ ok b'
      → exec_fields e false file names (without_evaluation b) ≡ ok (without_evaluation b')
  unfolding exec_fields
  exec_fields-passes [] b b' h = ground arith
  exec_fields-passes (name ∷ names) b b' h =
      let (a, p, q) =
        bind-eq-ok (exec_field e true file name b) (exec_fields e true file names) h in
      rw (exec_field-passes name b a p) (exec_fields-passes names a b' q)

  -- If the evaluating pass over a file returns, then the other pass returns the same requests and
  -- inputs and the same errors on these, and nothing else.
  pub exec_file-passes :
      (r : FileResult)
      → exec_file e true file ≡ ok r
      → exec_file e false file ≡ ok (without_evaluation r)
  unfolding exec_file
  exec_file-passes r h = exec_fields-passes (e.get_fields file) no_results r h
