-- ===== src/Executor/Tests.antt =====
-- What the theorems on the executor say of a small module of two files.
use crossform.Common.{
  arith, All, is_some, String, ◌≡◌, refl, true, false, Option, none, some, List, [], ◌∷◌, ◌≤◌,
  length,
}
use crossform.Common.Dict.{Dict, lookup, map_values}
use crossform.Common.Json.{str, obj, Fields, end, field, set, of_entries}
use crossform.Common.Outcome.{Outcome, ok, fail}
use crossform.Executor.Types.{
  ready_true, ObservedComposed, ExecCommand, ExecResult, new_exec_result, ResourceSelector,
}
use crossform.Executor.Interface.{GenericExecutor, IsComplete}
use crossform.Executor.Total.{exec_file-returns}
use crossform.Executor.File.{FileResult, exec_file}
use crossform.Executor.Exec.{exec, keep_observed, selector_of}
use crossform.Executor.Passes.{without_evaluation, exec_file-passes}
use crossform.Executor.Kept.{exec-keeps, exec-provider_ready}
use crossform.Executor.Rounds.{SameEvaluation, exec_loop-skips}
use crossform.Executor.New.{
  Inputs, choose, marshal, add_details, add_all_details, last_of, last_of_each, new_executor,
  execute_at,
}
use crossform.Executor.Accounts.{
  in_resources, in_requests, in_outputs, in_inputs, asks, exec_file-accounts,
}
use crossform.Executor.Bounds.{size, exec_file-size}
use crossform.Executor.Details.{Detailed, execute_at-keeps}
use crossform.Executor.Requests.{Collected, make_request_result-collects}
use crossform.Executor.File.{no_results}
use crossform.Executor.Samples.{
  crossform_of, fields_of, metadata_of, secret_request, crossform_of, evaluator, existing, cmd,
  marshal_json, provider_ready, of_both, of_first, of_second, after_first, program, exec-both,
}

exec-first_deferred :
    exec marshal_json cmd (evaluator ("a" ∷ []))
    ≡ ok (record new_exec_result {
      desired = ("provider", provider_ready) ∷ [];
      deferred = "later" ∷ [];
    })
unfolding program
exec-first_deferred = refl

exec-keeps_example : lookup "broken" of_both.desired ≡ some (keep_observed existing)
unfolding program
exec-keeps_example =
    exec-keeps marshal_json cmd (evaluator ("a" ∷ "b" ∷ [])) of_both "broken" existing exec-both
      refl refl

exec-provider_ready_example : provider_ready.ready ≡ ready_true
unfolding program
exec-provider_ready_example =
    exec-provider_ready marshal_json cmd (evaluator ("a" ∷ "b" ∷ [])) of_both "provider"
      provider_ready exec-both refl refl refl

-- The deferred resource of the first file is found there.
exec_file-accounts_example :
    (in_resources "later" of_first ≡ asks (evaluator []) "a" "resource" "later" (fields_of "a"))
    × (in_requests "later" of_first ≡ asks (evaluator []) "a" "request" "later" (fields_of "a"))
    × (in_outputs "later" of_first ≡ asks (evaluator []) "a" "output" "later" (fields_of "a"))
    × (in_inputs "later" of_first ≡ asks (evaluator []) "a" "input" "later" (fields_of "a"))
unfolding program
exec_file-accounts_example = exec_file-accounts (evaluator []) "a" "later" of_first refl

exec_file-size_example : size of_second ≤ length (fields_of "b")
unfolding program
exec_file-size_example = exec_file-size (evaluator []) true "b" of_second refl

exec_file-passes_example : exec_file (evaluator []) false "b" ≡ ok (without_evaluation of_second)
unfolding program
exec_file-passes_example = exec_file-passes (evaluator []) "b" of_second refl

abbrev selectors : Dict ResourceSelector
selectors = ("ask", selector_of secret_request) ∷ []

make_request_result-collects_example :
    Collected
      (lookup "ask" (("ask", crossform_of "ask") ∷ []))
      (lookup "ask" [])
      (lookup "ask" selectors)
unfolding program
make_request_result-collects_example =
    make_request_result-collects (("ask", crossform_of "ask") ∷ []) [] selectors "ask" refl

-- A run from the directory: no jsonnet, a cue module, and connection details.
abbrev with_secret : ObservedComposed
with_secret = record existing { connection_details = ("password", "pass") ∷ [] }

abbrev secret_status : Fields
secret_status = field "connectionDetails" (obj (field "password" (str "pass") end)) end

abbrev detailed : ObservedComposed
detailed = record with_secret {
  resource = field "kind" (str "Bucket") (field "status" (obj secret_status) end);
}

abbrev full_cmd : ExecCommand
full_cmd = record cmd { observed = ("broken", with_secret) ∷ [] }

abbrev no_evaluator : String → Inputs → Outcome (Option GenericExecutor)
no_evaluator path inputs = ok none

abbrev cue : String → Inputs → Outcome (Option GenericExecutor)
cue path inputs = ok (some (evaluator ("a" ∷ "b" ∷ [])))

abbrev of_run : ExecResult
of_run = record of_both {
  desired = ("provider", provider_ready) ∷ ("broken", keep_observed detailed) ∷ [];
}

execute_at-full :
    execute_at (λ path. none) marshal_json no_evaluator cue marshal_json "repos/x" full_cmd
    ≡ ok of_run
unfolding program execute_at new_executor choose marshal add_all_details add_details last_of_each
    last_of set of_entries map_values
execute_at-full = refl

-- A directory without modules.
execute_at-unsupported :
    execute_at (λ path. none) marshal_json no_evaluator no_evaluator marshal_json "repos/x" full_cmd
    ≡ fail "project type is not supported"
unfolding program execute_at new_executor choose marshal add_all_details add_details last_of_each
    last_of set of_entries map_values
execute_at-unsupported = refl

execute_at-keeps_example :
    (o' : ObservedComposed) × (lookup "broken" of_run.desired ≡ some (keep_observed o'))
    × Detailed false with_secret o'
unfolding program
execute_at-keeps_example =
    execute_at-keeps (λ path. none) marshal_json no_evaluator cue marshal_json "repos/x" full_cmd
      of_run "broken" with_secret execute_at-full refl refl

-- The evaluator describes every field, whatever it is called.
all_described : (names : List String) → All (λ name. is_some (some (metadata_of name)) ≡ true) names
all_described [] = tt
all_described (name ∷ names) = (refl, all_described names)

evaluator-IsComplete : IsComplete (evaluator [])
evaluator-IsComplete = record {
  described = λ file. all_described (fields_of file);
  object = λ file name h. cc;
  resource = λ file name h. ground arith;
}

exec_file-returns_example : (r : FileResult) × (exec_file (evaluator []) true "b" ≡ ok r)
exec_file-returns_example = exec_file-returns (evaluator []) evaluator-IsComplete true "b"

-- A file asks for a secret; the one after it, with a failing resource and an output, is not evaluated.
abbrev asking_first : FileResult
asking_first = record no_results { requests = ("ask", crossform_of "ask") ∷ [] }

abbrev after_asking : ExecResult
after_asking = record after_first { request = selectors }

exec_loop-skips_example : SameEvaluation after_first after_asking × (true ≡ true)
unfolding program
exec_loop-skips_example =
    exec_loop-skips marshal_json cmd (evaluator []) "c" ("b" ∷ []) after_first false asking_first
      "ask" (crossform_of "ask") (after_asking, true) refl refl refl refl
