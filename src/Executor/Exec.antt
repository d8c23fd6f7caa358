-- ===== src/Executor/Exec.antt =====
-- pkg/executor/executor.go: `makeRequestResult` and `Exec`, the loop over the files.
-- `marshal_json` is `MarshalJSON` of an unstructured object: only whether it fails matters.
use Prim.Native.String.{◌++◌ as ◌+++◌}
use crossform.Common.{
  String, Bool, true, false, Option, none, some, List, [], ◌∷◌, ◌==◌, ◌&&◌, ◌||◌, not,
  if◌then◌else◌, is_some,
}
use crossform.Common.Dict.{Dict, lookup, put, has}
use crossform.Common.Json.{Value, Fields, get, as_obj, opt_obj}
use crossform.Common.Json
use crossform.Common.Outcome.{Outcome, ok, fail, must, wrap, ◌>>=◌, ◌>>◌}
use crossform.Executor.Types.{
  Request, Crossform, ready_unspecified, ready_true, DesiredComposed, ObservedComposed, Match,
  match_name, match_labels, ResourceSelector, ExecCommand, ExecResult, new_exec_result,
}
use crossform.Executor.Interface.{GenericExecutor}
use crossform.Executor.File.{FileResult, exec_file}

-- A `range` over a map whose body may stop the run.
unfoldable pub each : {V S : Type 0} → (String → V → S → Outcome S) → Dict V → S → Outcome S
each f [] s = ok s
each f ((k, v) ∷ m) s = do s' ← f k v s; each f m s'

-- The same for a body that never stops.
unfoldable pub fold : {V S : Type 0} → (String → V → S → S) → Dict V → S → S
fold f [] s = s
fold f ((k, v) ∷ m) s = fold f m (f k v s)

abbrev pub match_of : Request → Match
match_of r = elim r.labels [ none ↦ match_name r.name | some labels ↦ match_labels labels ]

abbrev pub selector_of : Request → ResourceSelector
selector_of r = record { api_version = r.api_version; kind = r.kind; match = match_of r }

-- one round of `makeRequestResult`: a duplicate stops the run, and so does a nil `Request`
abbrev pub add_request :
    String → Crossform → Dict ResourceSelector → Outcome (Dict ResourceSelector)
add_request k v result =
    if has k result
    then fail ("duplicated id=" +++ k +++ " detected, execution fatal")
    else do r ← must v.request; ok (put k (selector_of r) result)

unfoldable pub make_request_result :
    Dict ResourceSelector → Dict Crossform → Outcome (Dict ResourceSelector)
unfolding each
make_request_result result request = each add_request request result

-- Is some request not among what the cluster was asked for before?
unfoldable pub is_insufficient : Dict (List Fields) → Dict Crossform → Bool
is_insufficient requested [] = false
is_insufficient requested ((k, v) ∷ request) =
    not (has k requested) || is_insufficient requested request

unfoldable pub requires_ready : Fields → Outcome Bool
requires_ready fs = elim (get "apiVersion" fs) [
  | none ↦ ok false
  | some api_version ↦ elim (get "kind" fs) [
    | none ↦ ok false
    | some kind ↦ do
      av ← must (Json.as_str api_version)
      k ← must (Json.as_str kind)
      ok (av == "kubernetes.crossplane.io/v1alpha1" && k == "ProviderConfig")
  ]
]

abbrev pub with_ready : Bool → DesiredComposed → DesiredComposed
with_ready true d = record d { ready = ready_true }
with_ready false d = d

abbrev pub keep_observed : ObservedComposed → DesiredComposed
keep_observed o = record { resource = o.resource; ready = ready_unspecified }

abbrev pub add_request_error : String → String → ExecResult → Outcome ExecResult
add_request_error k err result =
    if has k result.request_errors
    then fail ("request duplicate id=" +++ k +++ " detected")
    else ok (record result { request_errors = put k err result.request_errors })

abbrev pub add_output : String → Value → ExecResult → Outcome ExecResult
add_output k v result =
    if has k result.outputs
    then fail ("output duplicate id=" +++ k +++ " detected")
    else ok (record result { outputs = put k v result.outputs })

abbrev pub add_output_error : String → String → ExecResult → ExecResult
add_output_error k err result = record result { outputs_errors = put k err result.outputs_errors }

-- the last loop: an output that failed keeps the value in the status of the composite, if any
abbrev pub keep_output : Fields → String → String → ExecResult → ExecResult
keep_output xr_outputs k err result = elim (get k xr_outputs) [
  | none ↦ add_output_error k err result
  | some val ↦ record result { outputs = put k val result.outputs }
]

abbrev pub add_output_errors : Option Fields → Dict String → ExecResult → ExecResult
add_output_errors none errs result = fold add_output_error errs result
add_output_errors (some t) errs result = fold (keep_output t) errs result

module _ (marshal_json : Fields → Outcome String) where
  -- the loop over `desired`
  abbrev pub add_desired : String → DesiredComposed → ExecResult → Outcome ExecResult
  add_desired k v result = do
    marshal_json v.resource
    if has k result.desired
        then fail ("duplicated id=" +++ k +++ " detected, execution fatal")
        else do
          ready ← requires_ready v.resource
          ok (record result { desired = put k (with_ready ready v) result.desired })

module _ (cmd : ExecCommand) where
  -- the loop over `desiredErrors`: the previous state of the resource is kept, if there is one
  abbrev pub add_desired_error : String → String → ExecResult → Outcome ExecResult
  add_desired_error k err result =
      let result' = record result { desired_errors = put k err result.desired_errors } in
      elim (lookup k cmd.observed) [
        | none ↦ ok result'
        | some val ↦
            if has k result.desired
            then fail ("duplicated id=" +++ k +++ " detected, execution fatal")
            else ok (record result' { desired = put k (keep_observed val) result.desired })
      ]

  -- XR.status.outputs: the type assertions on both panic
  abbrev pub xr_outputs_of : Outcome (Option Fields)
  xr_outputs_of = elim (get "status" cmd.xr) [
    | none ↦ ok none
    | some status ↦ do
      t ← must (as_obj status)
      elim (get "outputs" t) [
        | none ↦ ok none
        | some outputs ↦ do o ← must (as_obj outputs); ok (some o)
      ]
  ]

  -- the block on the inputs of the composite, from the first pass over the file
  unfoldable pub exec_inputs : GenericExecutor → FileResult → ExecResult → Outcome ExecResult
  unfolding fold
  exec_inputs e first result = do
    spec ← must (opt_obj (get "spec" cmd.xr))
    elim (get "inputs" spec) [
      | none ↦ ok result
      | some xr_inputs ↦ do
        values ← must (as_obj xr_inputs)
        let invalid = e.validate_inputs first.inputs values
        ok (record result {
          inputs_validation_error =
              if is_some invalid then invalid else result.inputs_validation_error;
          inputs_errors = fold put first.inputs_errs result.inputs_errors;
          inputs = fold (λ k v m. put k k m) first.inputs result.inputs;
        })
    ]

module _ (marshal_json : Fields → Outcome String) (cmd : ExecCommand) where
  -- what the second pass over a file adds
  unfoldable pub merge : FileResult → ExecResult → Outcome ExecResult
  merge second result = do
    request ← make_request_result result.request second.requests
    let result₁ = record result { deferred = second.resources_deferred; request = request }
    result₂ ← each add_request_error second.requests_errs result₁
    result₃ ← each (add_desired marshal_json) second.resources result₂
    result₄ ← each (add_desired_error cmd) second.resources_errs result₃
    result₅ ← each add_output second.outputs result₄
    xr_outputs ← xr_outputs_of cmd
    ok (add_output_errors xr_outputs second.outputs_errs result₅)

  -- the rest of a round: with a request that is not answered, only the requests of the file are
  -- asked for; else the file is evaluated
  unfoldable pub exec_round :
      GenericExecutor → String → FileResult → ExecResult → Bool → Outcome (ExecResult × Bool)
  exec_round e file first result true = do
    request ← make_request_result result.request first.requests
    ok (record result { request = request }, true)
  exec_round e file first result false = do
    second ← wrap "Jsonnet execution fatal error" (exec_file e true file)
    result' ← merge second result
    ok (result', false)

  -- one round of the loop over the files; the flag is `insufficientRequestedResources`, which the
  -- loop never takes back
  unfoldable pub exec_one :
      GenericExecutor → String → ExecResult × Bool → Outcome (ExecResult × Bool)
  exec_one e file (result, missing) = do
    first ← wrap "Jsonnet execution fatal error" (exec_file e false file)
    result' ← exec_inputs cmd e first result
    exec_round e file first result' (missing || is_insufficient cmd.requested first.requests)

  unfoldable pub exec_loop :
      GenericExecutor → List String → ExecResult × Bool → Outcome (ExecResult × Bool)
  exec_loop e [] s = ok s
  exec_loop e (file ∷ files) s = do s' ← exec_one e file s; exec_loop e files s'

  unfoldable pub exec : GenericExecutor → Outcome ExecResult
  exec e = do (result, missing) ← exec_loop e e.get_file_names (new_exec_result, false); ok result
