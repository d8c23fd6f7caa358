-- ===== src/Executor/MergeTests.antt =====
-- Merging the results of a file with two failed resources, one of which exists, and one output.
use crossform.Common.{◌≡◌, refl, none, [], ◌∷◌, arith, eq_iff}
use crossform.Common.Dict.{lookup}
use crossform.Executor.Types.{ExecResult}
use crossform.Executor.File.{FileResult}
use crossform.Executor.Stages.{AreFileMaps}
use crossform.Executor.Merged.{Merges, SameEntries, merge-Merges, merge-same}
use crossform.Executor.Samples.{
  cmd, evaluator, marshal_json, of_second, after_first, of_both, program,
}

merge-Merges_example : Merges cmd of_second none "broken" after_first of_both
unfolding program
merge-Merges_example =
    merge-Merges marshal_json cmd (evaluator []) "b" of_second after_first of_both none "broken"
      refl refl refl

-- The errors of the file, visited in two orders.
abbrev one_way : FileResult
one_way = record of_second {
  resources_errs = ("broken", "no such field") ∷ ("other", "no such file") ∷ [];
}

abbrev other_way : FileResult
other_way = record of_second {
  resources_errs = ("other", "no such file") ∷ ("broken", "no such field") ∷ [];
}

abbrev merged_one_way : ExecResult
merged_one_way = record of_both { desired_errors = one_way.resources_errs }

abbrev merged_other_way : ExecResult
merged_other_way = record of_both { desired_errors = other_way.resources_errs }

one_way-SameEntries : SameEntries one_way other_way
unfolding lookup
one_way-SameEntries = record {
  resources = λ j. refl;
  resources_errs =
      λ j. ground (arith, eq_iff "broken" j, eq_iff "other" j, eq_iff "broken" "other");
  requests_errs = λ j. refl;
  outputs = λ j. refl;
  outputs_errs = λ j. refl;
}

one_way-AreFileMaps : AreFileMaps one_way
unfolding lookup
one_way-AreFileMaps = ground arith

other_way-AreFileMaps : AreFileMaps other_way
unfolding lookup
other_way-AreFileMaps = ground arith

merge-same_example :
    (lookup "other" merged_one_way.desired ≡ lookup "other" merged_other_way.desired)
    × (lookup "other" merged_one_way.desired_errors
        ≡ lookup "other" merged_other_way.desired_errors)
    × (lookup "other" merged_one_way.request_errors
        ≡ lookup "other" merged_other_way.request_errors)
    × (lookup "other" merged_one_way.outputs ≡ lookup "other" merged_other_way.outputs)
    × (lookup "other" merged_one_way.outputs_errors
        ≡ lookup "other" merged_other_way.outputs_errors)
unfolding program
merge-same_example =
    merge-same marshal_json cmd one_way other_way after_first merged_one_way merged_other_way
      "other" one_way-AreFileMaps other_way-AreFileMaps one_way-SameEntries refl refl
