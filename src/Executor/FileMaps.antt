-- ===== src/Executor/FileMaps.antt =====
-- The tables that `execFile` fills are maps.
use crossform.Common.{
  String, ◌≡◌, Bool, List, [], ◌∷◌, arith, ◌==◌, inl, inr, Option-cases, Bool-cases,
}
use crossform.Common.Maps.{put-IsMap}
use crossform.Common.Outcome.{ok, ◌>>=◌, Outcome-cases}
use crossform.Executor.Types.{Metadata}
use crossform.Executor.Interface.{GenericExecutor}
use crossform.Executor.File.{FileResult, no_results, dispatch, exec_field, exec_fields, exec_file}
use crossform.Executor.Stages.{AreFileMaps}

module _ (e : GenericExecutor) (evaluate : Bool) (file : String) where
  dispatch-AreFileMaps :
      (name : String) (m : Metadata) (a b : FileResult)
      → dispatch e evaluate file name m a ≡ ok b
      → AreFileMaps a
      → AreFileMaps b
  unfolding dispatch
  dispatch-AreFileMaps name m a b h maps = elim (Bool-cases (m.type == "resource")) [
    | inl resource ↦ elim (Outcome-cases (e.get_resource file name)) [
      | inl ((res, deferred, ready), p) ↦ ground (
        arith,
        put-IsMap m.id (record { resource = res; ready = ready }) a.resources maps.resources,
      )
      | inr (inl (err, p)) ↦ ground (arith, put-IsMap m.id err a.resources_errs maps.resources_errs)
      | inr (inr p) ↦ ground arith
    ]
    | inr other ↦ elim (Outcome-cases (e.get_crossform_object file name)) [
      | inl (c, p) ↦ ground (arith, put-IsMap m.id c.output a.outputs maps.outputs)
      | inr (inl (err, p)) ↦ ground (
        arith,
        put-IsMap m.id err a.requests_errs maps.requests_errs,
        put-IsMap m.id err a.outputs_errs maps.outputs_errs,
      )
      | inr (inr p) ↦ ground arith
    ]
  ]

  exec_fields-AreFileMaps :
      (names : List String) (a b : FileResult)
      → exec_fields e evaluate file names a ≡ ok b
      → AreFileMaps a
      → AreFileMaps b
  unfolding exec_fields exec_field ◌>>=◌
  exec_fields-AreFileMaps [] a b h maps = ground arith
  exec_fields-AreFileMaps (name ∷ names) a b h maps =
      elim (Option-cases (e.get_metadata_object file name)) [
        | inl nil ↦ absurd (ground arith)
        | inr (m, p) ↦ elim (Outcome-cases (dispatch e evaluate file name m a)) [
          | inl (a', q) ↦
              exec_fields-AreFileMaps names a' b (ground arith)
                (dispatch-AreFileMaps name m a a' q maps)
          | inr stopped ↦ absurd (ground arith)
        ]
      ]

  pub exec_file-AreFileMaps : (r : FileResult) → exec_file e evaluate file ≡ ok r → AreFileMaps r
  unfolding exec_file
  exec_file-AreFileMaps r h = exec_fields-AreFileMaps (e.get_fields file) no_results r h (record {
    resources = tt;
    resources_errs = tt;
    requests_errs = tt;
    outputs = tt;
    outputs_errs = tt;
  })
