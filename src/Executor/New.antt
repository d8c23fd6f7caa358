-- ===== src/Executor/New.antt =====
-- pkg/executor/executor.go: `NewExecutor` and `marshal`, and pkg/executor/main.go. Parameters: what
-- `os.Stat` says is missing, `json.Marshal` of a map, and the two constructors of an evaluator.
use Prim.Native.String.{◌++◌ as ◌+++◌}
use crossform.Common.{String, Option, none, some, List, [], ◌∷◌, if◌then◌else◌, is_empty}
use crossform.Common.Dict.{Dict, put, map_values}
use crossform.Common.Json.{Value, str, obj, Fields, end, get, set, as_obj, of_entries}
use crossform.Common.Outcome.{Outcome, ok, fail, panic, must, wrap, ◌>>=◌}
use crossform.Executor.Types.{ObservedComposed, ExecCommand, ExecResult}
use crossform.Executor.Interface.{GenericExecutor}
use crossform.Executor.Exec.{exec}

-- The status of a resource, or a new one; another value than a map panics.
abbrev pub status_or_new : Option Value → Outcome Fields
status_or_new none = ok end
status_or_new (some v) = must (as_obj v)

-- status["connectionDetails"], the details as text
abbrev pub details_value : ObservedComposed → Value
details_value o = obj (of_entries (map_values str o.connection_details))

abbrev pub with_details : Fields → ObservedComposed → ObservedComposed
with_details status o = record o {
  resource = set "status" (obj (set "connectionDetails" (details_value o) status)) o.resource;
}

unfoldable pub add_details : ObservedComposed → Outcome ObservedComposed
add_details o =
    if is_empty o.connection_details
    then ok o
    else (do status ← status_or_new (get "status" o.resource); ok (with_details status o))

-- The loop over the observed resources, which changes them in place.
unfoldable pub add_all_details : Dict ObservedComposed → Outcome (Dict ObservedComposed)
add_all_details [] = ok []
add_all_details ((k, o) ∷ observed) = do
  o' ← add_details o
  rest ← add_all_details observed
  ok ((k, o') ∷ rest)

-- temp[k] = vv.Resource.Object for every vv: the last one stays, and none of an empty list
unfoldable pub last_of : String → List Fields → Dict Value → Dict Value
last_of k [] temp = temp
last_of k (v ∷ vs) temp = last_of k vs (put k (obj v) temp)

unfoldable pub last_of_each : Dict (List Fields) → Dict Value → Dict Value
last_of_each [] temp = temp
last_of_each ((k, vs) ∷ requested) temp = last_of_each requested (last_of k vs temp)

-- what the evaluators are given: observed, requested, xr, context
pub record Inputs : Type 0 where
  pub observed : String
  pub requested : String
  pub xr : String
  pub context : String

abbrev blank : Inputs
blank = record { observed = ""; requested = ""; xr = ""; context = "" }

module _ (marshal_map : Fields → Outcome String) where
  unfoldable pub marshal : ExecCommand → Outcome Inputs
  marshal cmd = do
    observed ← wrap "Unable marshal observed resource list" (
        marshal_map
          (of_entries (map_values (λ (o : ObservedComposed). obj o.resource) cmd.observed)))
    requested ←
        wrap "Unable marshal requested resource list"
          (marshal_map (of_entries (last_of_each cmd.requested [])))
    xr ← wrap "Unable marshal XR resource" (marshal_map cmd.xr)
    ok (record { observed = observed; requested = requested; xr = xr; context = cmd.context })

-- The error of `marshal` is overwritten by the next call before it is looked at.
abbrev pub unlooked : Outcome Inputs → Outcome Inputs
unlooked (ok i) = ok i
unlooked (fail e) = ok blank
unlooked panic = panic

module _ (missing : String → Option String) (marshal_map : Fields → Outcome String)
    (new_jsonnet new_cue : String → Inputs → Outcome (Option GenericExecutor)) where
  -- a directory with files of neither language is an error
  unfoldable pub choose : String → Inputs → Outcome GenericExecutor
  choose path inputs = do
    jsonnet ← new_jsonnet path inputs
    elim jsonnet [
      | some e ↦ ok e
      | none ↦ do
        cue ← new_cue path inputs
        elim cue [ some e ↦ ok e | none ↦ fail "project type is not supported" ]
    ]

  -- The command is returned too, with the resources that were changed in place.
  unfoldable pub new_executor : ExecCommand → String → Outcome (ExecCommand × GenericExecutor)
  new_executor cmd path = elim (missing (path +++ "/" +++ cmd.path)) [
    | some e ↦ fail e
    | none ↦ do
      observed ← add_all_details cmd.observed
      let cmd' = record cmd { observed = observed }
      inputs ← unlooked (marshal marshal_map cmd')
      e ← choose (path +++ "/" +++ cmd.path) inputs
      ok (cmd', e)
  ]

  -- `marshal_json` is `MarshalJSON` of a resource.
  unfoldable pub execute_at : (Fields → Outcome String) → String → ExecCommand → Outcome ExecResult
  execute_at marshal_json path cmd = do (cmd', e) ← new_executor cmd path; exec marshal_json cmd' e
